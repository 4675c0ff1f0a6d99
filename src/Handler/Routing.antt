-- ===== src/Handler/Routing.antt =====
-- server/Handler: what happens to a command before it reaches the store.
use kvjet.Prelude.{Bool, true, false, Bytes, ◌≡◌, refl, ==_refl}
use kvjet.Prelude.Outcome.{ok}
use kvjet.Resp.Value.{Value}
use kvjet.Cluster.{Cluster, query_node, is_master_for}
use kvjet.Commands.Replies.{Command, get_key, set_key, del_key, exist_key}
use kvjet.Server.{Server}

-- The commands that change the store.
abbrev pub is_write : Command → Bool
is_write (get_key k) = false
is_write (set_key k v) = true
is_write (del_key k) = true
is_write (exist_key k) = false

pub is_master_for_self :
    (key : Bytes) (c : Cluster)
    → query_node key c ≡ ok c.self_node.uuid
    → is_master_for key c ≡ ok true
unfolding is_master_for
is_master_for_self key c e = rw (e, ==_refl c.self_node.uuid) refl
