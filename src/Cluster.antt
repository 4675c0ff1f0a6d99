-- ===== src/Cluster.antt =====
-- util/Cluster: the hash ring, the connections and the liveness of the nodes of a cluster. Each map
-- has its own lock, which an operation holds for as long as it uses the map.
pub mod Ring
pub mod Timeouts
pub mod Replicas
pub mod Found
pub mod Gossip
use Prim.Native.Nat.{bit_xor}
use kvjet.Prelude.{
  ℕ, zero, suc, ◌+◌, ◌-◌, ◌*◌, ◌/◌, ◌%◌, ◌^◌, Bool, true, false, not, ◌&&◌, ◌||◌, List, [], ◌∷◌,
  ◌++◌, Option, none, some, Bytes, length, ltb, leb, ◌==◌, if◌then◌else◌, codes, map,
}
use kvjet.Prelude.Assoc.{Assoc, find, insert, erase, lower_bound}
use kvjet.Prelude.Decimal.{to_string}
use kvjet.Prelude.Outcome.{Outcome, ok, undefined, ◌>>=◌}

-- `Cluster::Node`
pub record Peer : Type 0 where
  pub ip : Bytes
  pub port : ℕ
  pub uuid : ℕ

-- A file descriptor is counted from one, and -1 is 0.
pub record Cluster : Type 0 where
  pub self_node : Peer
  pub node_hash : Assoc ℕ
  pub heartbeat_time : Assoc ℕ
  pub connections : Assoc ℕ
  pub fd_to_uuid : Assoc ℕ
  pub topo : Assoc Peer
  pub gossip_cache : Assoc ℕ

abbrev pub no_fd : ℕ
no_fd = 0

-- The constructor that a server calls, with the identity that it has drawn.
unfoldable pub construct : ℕ → ℕ → Bytes → Cluster
construct uuid heartbeat_port ip =
    let self : Peer = record {
      ip = ip;
      port = (heartbeat_port + (2 ^ 16 - 1)) % 2 ^ 16;
      uuid = uuid;
    } in
    record {
      self_node = self;
      node_hash = [];
      heartbeat_time = [];
      connections = [];
      fd_to_uuid = [];
      topo = insert uuid self [];
      gossip_cache = [];
    }

-- `hash(uint64_t)`
unfoldable pub hash_number : ℕ → ℕ
hash_number x₀ =
    let x₁ = bit_xor x₀ (x₀ / 2 ^ 30) in
    let x₂ = x₁ * 0xbf58476d1ce4e5b9 % 2 ^ 64 in
    let x₃ = bit_xor x₂ (x₂ / 2 ^ 27) in
    let x₄ = x₃ * 0x94d049bb133111eb % 2 ^ 64 in bit_xor x₄ (x₄ / 2 ^ 31)

abbrev hash_bytes : ℕ → Bytes → ℕ
hash_bytes h [] = h
hash_bytes h (c ∷ str) = hash_bytes (bit_xor h c * 0x100000001b3 % 2 ^ 64) str

-- `hash(const std::string &)`
unfoldable pub hash_string : Bytes → ℕ
hash_string str = hash_bytes 0xcbf29ce484222325 str

-- The points of a node on the ring, of which there are `Config::VIRTUAL_REPLICAS`.
abbrev pub virtual_replicas : ℕ
virtual_replicas = 160

-- The loops of `addNodeToHash` and `delNodeToHash`.
unfoldable pub add_points : ℕ → ℕ → ℕ → Assoc ℕ → Assoc ℕ
add_points zero hsh node_id m = m
add_points (suc n) hsh node_id m =
    add_points n (hash_number hsh) node_id (insert (hash_number hsh) node_id m)

unfoldable pub del_points : ℕ → ℕ → Assoc ℕ → Assoc ℕ
del_points zero hsh m = m
del_points (suc n) hsh m = del_points n (hash_number hsh) (erase (hash_number hsh) m)

unfoldable pub add_node_to_hash : ℕ → Cluster → Cluster
add_node_to_hash node_id c = record c {
  node_hash = add_points virtual_replicas node_id node_id c.node_hash;
}

unfoldable pub del_node_to_hash : ℕ → Cluster → Cluster
del_node_to_hash node_id c = record c {
  node_hash = del_points virtual_replicas node_id c.node_hash;
}

-- `begin()` of an empty map is not to be read.
abbrev pub first : Assoc ℕ → Outcome (ℕ × ℕ)
first [] = undefined
first (p ∷ m) = ok p

abbrev pub point_of : ℕ → Assoc ℕ → Outcome (ℕ × ℕ)
point_of h m = elim (lower_bound h m) [ none ↦ first m | some p ↦ ok p ]

unfoldable pub query_node : Bytes → Cluster → Outcome ℕ
query_node str c = point_of (hash_string str) c.node_hash >>= λ p. ok p.1

unfoldable pub is_master_for : Bytes → Cluster → Outcome Bool
unfolding query_node
is_master_for key c = query_node key c >>= λ n. ok (n == c.self_node.uuid)

abbrev pub contains : ℕ → List ℕ → Bool
contains x [] = false
contains x (y ∷ ys) = let rest = contains x ys in if x == y then true else rest

-- An iterator at the end goes back to `begin()`.
abbrev pub wrap : Assoc ℕ → Assoc ℕ → Assoc ℕ
wrap [] m = m
wrap (p ∷ rest) m = p ∷ rest

-- The loop of `queryReplicas`, from the rest of the map that `it` stands at. `seen` has the elements
-- of `result`. Without rounds left it has not ended.
unfoldable pub collect : ℕ → Assoc ℕ → ℕ → Assoc ℕ → List ℕ → Option (List ℕ)
collect zero m n it result = none
collect (suc rounds) m n it result = elim it [
  | [] ↦ none
  | p ∷ rest ↦
      let result₁ = if contains p.1 result then result else result ++ p.1 ∷ [] in
      let go_on = collect rounds m n (wrap rest m) result₁ in
      if leb (length m) (length result₁)
      then some result₁
      else if ltb (length result₁) n
      then go_on
      else some result₁
]

-- The map from its lower bound on.
abbrev pub from_bound : ℕ → Assoc ℕ → Assoc ℕ
from_bound h [] = []
from_bound h (p ∷ m) = let rest = from_bound h m in if ltb p.0 h then rest else p ∷ m

-- `queryReplicas`, for a positive number of replicas.
unfoldable pub query_replicas : ℕ → Bytes → ℕ → Cluster → Option (List ℕ)
query_replicas rounds key n c = elim c.node_hash [
  | [] ↦ some (c.self_node.uuid ∷ [])
  | p ∷ m ↦
      if n == 0
      then some []
      else collect rounds (p ∷ m) n (wrap (from_bound (hash_string key) (p ∷ m)) (p ∷ m)) []
]

-- The time is the count of milliseconds; a difference of an `uint64_t` wraps around.
abbrev pub elapsed : ℕ → ℕ → ℕ
elapsed now ts = (now + 2 ^ 64 - ts) % 2 ^ 64

-- `Config::HEARTBEAT_TIMEOUT_MS`, `GOSSIP_TIMEOUT_MS` and `GOSSIP_CACHE_SIZE`.
abbrev pub heartbeat_timeout : ℕ
heartbeat_timeout = 3000

abbrev gossip_timeout : ℕ
gossip_timeout = 60000

abbrev pub gossip_cache_size : ℕ
gossip_cache_size = 1000

unfoldable pub is_alive : ℕ → ℕ → Cluster → Bool
is_alive now node_id c = elim (find node_id c.heartbeat_time) [
  | none ↦ false
  | some ts ↦ ltb (elapsed now ts) heartbeat_timeout
]

unfoldable pub find_gossip : ℕ → Cluster → Bool
find_gossip uuid c = elim (find uuid c.gossip_cache) [ none ↦ false | some ts ↦ true ]

-- The loop that takes out what has expired.
abbrev expire : ℕ → Assoc ℕ → Assoc ℕ
expire now [] = []
expire now (p ∷ m) =
    let rest = expire now m in if ltb gossip_timeout (elapsed now p.1) then rest else p ∷ rest

-- `erase(begin())` when the cache is too large.
abbrev shrink : Assoc ℕ → Assoc ℕ
shrink [] = []
shrink (p ∷ m) = if ltb gossip_cache_size (length (p ∷ m)) then m else p ∷ m

unfoldable pub add_gossip : ℕ → ℕ → Cluster → Cluster
add_gossip now uuid c = record c {
  gossip_cache = shrink (expire now (insert uuid now c.gossip_cache));
}

unfoldable pub add_topo_node : Peer → Cluster → Cluster
add_topo_node node c = record c { topo = insert node.uuid node c.topo }

unfoldable pub add_connection : ℕ → ℕ → Cluster → Cluster
add_connection uuid fd c = record c {
  connections = insert uuid fd c.connections;
  fd_to_uuid = insert fd uuid c.fd_to_uuid;
}

unfoldable pub get_uuid_by_fd : ℕ → Cluster → ℕ
get_uuid_by_fd fd c = elim (find fd c.fd_to_uuid) [ none ↦ 0 | some uuid ↦ uuid ]

unfoldable pub get_connection : ℕ → Cluster → ℕ
get_connection uuid c = elim (find uuid c.connections) [ none ↦ no_fd | some fd ↦ fd ]

unfoldable pub del_connection : ℕ → Cluster → Cluster
unfolding get_connection
del_connection uuid c =
    let fd = get_connection uuid c in
    record c {
      fd_to_uuid = if fd == no_fd then c.fd_to_uuid else erase fd c.fd_to_uuid;
      connections = erase uuid c.connections;
    }

unfoldable pub del_topo_node : ℕ → Cluster → Cluster
unfolding del_connection
del_topo_node uuid c₀ =
    let c = del_connection uuid c₀ in
    record c { topo = erase uuid c.topo; heartbeat_time = erase uuid c.heartbeat_time }

unfoldable pub update_heartbeat : ℕ → ℕ → Cluster → Cluster
update_heartbeat now fd c = elim (find fd c.fd_to_uuid) [
  | none ↦ c
  | some uuid ↦ record c { heartbeat_time = insert uuid now c.heartbeat_time }
]

-- The text of a heartbeat, and those that `sendHeartbeats` hands to the callback, with the receiver.
abbrev pub heartbeat_text : Cluster → Bytes
heartbeat_text c =
    codes "*2"
    ++ 13 ∷ 10 ∷ codes "+HEARTBEAT"
    ++ 13 ∷ 10 ∷ codes "+"
    ++ to_string c.self_node.uuid
    ++ 13 ∷ 10 ∷ []

abbrev heartbeats : Bytes → Assoc ℕ → List (Bytes × ℕ)
heartbeats text [] = []
heartbeats text (p ∷ m) =
    let rest = heartbeats text m in if p.1 == no_fd then rest else (text, p.1) ∷ rest

-- Its own heartbeat is renewed with every message, and not without one.
unfoldable pub send_heartbeats : ℕ → Cluster → List (Bytes × ℕ) × Cluster
send_heartbeats now c =
    let sent = heartbeats (heartbeat_text c) c.connections in
    elim sent [
      | [] ↦ ([], c)
      | x ∷ xs ↦
          (x ∷ xs, record c { heartbeat_time = insert c.self_node.uuid now c.heartbeat_time })
    ]

-- The nodes that have been silent for too long.
abbrev pub silent : ℕ → ℕ → Assoc ℕ → List ℕ
silent now self [] = []
silent now self (p ∷ m) =
    let rest = silent now self m in
    if p.0 == self
    then rest
    else if ltb heartbeat_timeout (elapsed now p.1)
    then p.0 ∷ rest
    else rest

unfoldable pub remove_dead : List ℕ → Cluster → Cluster
unfolding del_node_to_hash del_topo_node
remove_dead [] c = c
remove_dead (uuid ∷ dead) c = remove_dead dead (del_topo_node uuid (del_node_to_hash uuid c))

-- `checkTimeouts`, with the nodes that the failure callback is called for.
unfoldable pub check_timeouts : ℕ → Cluster → List ℕ × Cluster
unfolding remove_dead
check_timeouts now c =
    let dead = silent now c.self_node.uuid c.heartbeat_time in (dead, remove_dead dead c)
