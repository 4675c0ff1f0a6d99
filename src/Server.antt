-- ===== src/Server.antt =====
-- server/Server: the state that the handlers and the event loop share, and the methods that change it.
-- A thread of the pool holds a lock for one method, so that a method is one step.
pub mod Apply
pub mod Sockets
pub mod Groups
pub mod Membership
pub mod Masters
pub mod Loop
pub mod Locks
pub mod Input
pub mod Presence
pub mod Sync
pub mod Transfer
use kvjet.Prelude.{
  ℕ, zero, suc, ◌+◌, ◌-◌, ◌%◌, ◌^◌, Bool, true, false, List, [], ◌∷◌, ◌++◌, Option, none, some,
  String, Bytes, codes, ◌==◌, if◌then◌else◌,
}
use kvjet.Prelude.Assoc.{Assoc, find, insert}
use kvjet.Prelude.Decimal.{to_string}
use kvjet.Prelude.Int.{ℤ, pos, negsuc}
use kvjet.Prelude.Outcome.{Outcome, ok, raised, undefined, ◌>>=◌}
use kvjet.Resp.Value.{Value}
use kvjet.Resp.Encoder.{encode, crlf}
use kvjet.Resp.Parser.{RespParser}
use kvjet.Raft.Message.{RaftMessage}
use kvjet.Raft.Node.{RaftNode}
use kvjet.Store.HashTable.{for_each}
use kvjet.Store.KvStore.{KvStore, Shard}
use kvjet.Aof.{Aof}
use kvjet.Cluster.{Cluster, no_fd, get_connection, query_node}

-- What the thread pool has to do: a request of a connection, or the transfer of data to a node.
pub data Task : Type 0 where
  handles : ℕ → Value → Task
  transfers_to : ℕ → Task

-- The class. A connection has a parser, `sent` has the texts that `send` was given, `pending_sync_nodes` has the bits of an `int`, a text of `message_queue` goes to a
-- descriptor, and `log_files` are the files of the groups that are not open.
pub record Server : Type 0 where
  pub kvstore : KvStore Value
  pub aof : Aof
  pub cluster : Cluster
  pub syncing : Bool
  pub pending_sync_nodes : ℕ
  pub message_queue : List (Bytes × ℤ)
  pub raft_groups : Assoc RaftNode
  pub master_to_group : Assoc ℕ
  pub group_members : Assoc (List ℕ)
  pub log_files : Assoc Bytes
  pub connections : Assoc RespParser
  pub tasks : List Task
  pub sent : List (Bytes × ℕ)

-- What a call on the server ends in: `failed` is a throw of its own, behind which the server stays as
-- it is then; `lost` a throw of a component, whose state behind it is not followed; `crashed` is
-- undefined behaviour.
pub data Handled (A : Type 0) : Type 0 where
  done : A → Server → Handled A
  failed : String → Server → Handled A
  lost : String → Handled A
  crashed : Handled A

-- A call of a component, and what follows it.
abbrev pub after : {A B : Type 0} → Outcome A → (A → Handled B) → Handled B
after (ok a) k = k a
after (raised e) k = lost e
after undefined k = crashed

-- The descriptor as the `int` that it is.
abbrev pub as_fd : ℕ → ℤ
as_fd zero = negsuc 0
as_fd (suc n) = pos n

abbrev pub emplace : Bytes → ℤ → Server → Server
emplace text fd s = record s { message_queue = s.message_queue ++ (text, fd) ∷ [] }

-- `message_queue` takes these two descriptors for "connect" and for "rebuild the groups".
abbrev pub connect_fd : ℤ
connect_fd = negsuc 0

abbrev pub rebuild_fd : ℤ
rebuild_fd = negsuc 1

unfoldable pub mark_syncing : ℕ → Server → Server
mark_syncing expected_nodes s = record s {
  pending_sync_nodes = expected_nodes % 2 ^ 32;
  syncing = true;
}

unfoldable pub on_sync_done : Server → Server
on_sync_done s = record s {
  pending_sync_nodes = (s.pending_sync_nodes + (2 ^ 32 - 1)) % 2 ^ 32;
  syncing = if s.pending_sync_nodes == 1 then false else s.syncing;
}

-- `makeRaftSendCb`, in a thread of the pool: a message to a node without a connection is dropped.
unfoldable pub raft_send : RaftMessage → Server → Server
raft_send msg s =
    let fd = get_connection msg.target s.cluster in
    if fd == no_fd then s else emplace msg.payload (as_fd fd) s

abbrev pub raft_send_all : List RaftMessage → Server → Server
raft_send_all [] s = s
raft_send_all (msg ∷ msgs) s = raft_send_all msgs (raft_send msg s)

-- `getRaftGroup`, and what a call does with the node. The messages go out through the callback.
unfoldable pub with_group : ℕ → (RaftNode → Outcome RaftNode) → Server → Outcome Server
unfolding raft_send
with_group gid f s = elim (find gid s.raft_groups) [
  | none ↦ ok s
  | some n ↦ f n >>= λ m. ok (
      raft_send_all m.sent
        (record s { raft_groups = insert gid (record m { sent = [] }) s.raft_groups }))
]

-- `getGroupForKey`: the number of the group.
unfoldable pub get_group_for_key : Bytes → Server → Outcome (Option ℕ)
get_group_for_key key s = query_node key s.cluster >>= λ owner. ok (find owner s.master_to_group)

-- The entries of the store, as `KVStore::forEach` visits them.
abbrev pub entries : {V : Type 0} → List (Shard V) → List (Bytes × V)
entries [] = []
entries (shard ∷ shards) = for_each shard.table.buckets ++ entries shards

abbrev pub set_text : Bytes → Value → Bytes
set_text key value =
    codes "*3" ++ crlf ++ codes "+SET" ++ crlf ++ codes "+" ++ key ++ crlf ++ encode value

abbrev pub sync_done_text : Cluster → Bytes
sync_done_text c =
    codes "*2"
    ++ crlf
    ++ codes "+SYNCDONE"
    ++ crlf
    ++ codes "+"
    ++ to_string c.self_node.uuid
    ++ crlf

-- The callback of `sendDataToNode` on each entry.
unfoldable pub send_owned : ℕ → ℤ → List (Bytes × Value) → Server → Outcome Server
send_owned target fd [] s = ok s
send_owned target fd (p ∷ ps) s = query_node p.0 s.cluster >>= λ owner.
    send_owned target fd ps (if owner == target then emplace (set_text p.0 p.1) fd s else s)

unfoldable pub send_data_to_node : ℕ → Server → Outcome Server
unfolding send_owned
send_data_to_node target s =
    let fd = get_connection target s.cluster in
    if fd == no_fd
    then ok s
    else (send_owned target (as_fd fd) (entries s.kvstore.shards) s >>= λ t.
        ok (emplace (sync_done_text t.cluster) (as_fd fd) t))
