-- ===== src/Tests/Server.antt =====
-- A server of two nodes, and its groups.
use kvjet.Prelude.{none}
use kvjet.Server.Apply.{tick_groups}
use kvjet.Store.KvStore.{new_shard}
use kvjet.Prelude.{false, [], ◌∷◌, ◌++◌, codes, ◌≡◌, ◌≢◌, refl, arith, if◌then◌else◌, ltb, ◌==◌}
use kvjet.Prelude.Outcome.{ok, raised, undefined, Ensures}
use kvjet.Resp.Parser.{new as parser}
use kvjet.Raft.Node.{RaftNode, sentinel, follower, leader}
use kvjet.Store.HashTable.{occupied, for_each}
use kvjet.Server.Loop.{epoll_step}
use kvjet.Server.Locks.{tick_groups-relocks}
use kvjet.Server.Input.{epoll_step-throws}
use kvjet.Server.Presence.{graceful_shutdown, graceful_shutdown-alone}
use kvjet.Prelude.Words.{IsWord}
use kvjet.Resp.Value.{Value, simple}
use kvjet.Store.KvStore.{new}
use kvjet.Commands.Replies.{request, set_key, del_key}
use kvjet.Aof.Replay.{opened}
use kvjet.Cluster.{Cluster, no_fd, get_connection, del_node_to_hash, del_points}
use kvjet.Server.{Server, mark_syncing, as_fd, entries, sync_done_text, send_data_to_node}
use kvjet.Server.Apply.{make_command, set_line, del_line, make_command-lines}
use kvjet.Server.Groups.{keys, init_raft_groups}
use kvjet.Server.Masters.{IsGrouped, init_raft_groups-IsGrouped}
use kvjet.Server.Sync.{sync_all, sync_all-mark_syncing}
use kvjet.Server.Transfer.{queued, transfers, send_data_to_node-transfers}

abbrev pub dflt : Value
dflt = simple []

-- Node 7, which knows node 9 and has one point on the ring.
abbrev cluster : Cluster
cluster = record {
  self_node = record { ip = codes "127.0.0.1"; port = 7800; uuid = 7 };
  node_hash = (5, 7) ∷ [];
  heartbeat_time = [];
  connections = (9, 4) ∷ [];
  fd_to_uuid = (4, 9) ∷ [];
  topo =
      (7, record { ip = codes "127.0.0.1"; port = 7800; uuid = 7 })
      ∷ (9, record { ip = codes "127.0.0.2"; port = 7800; uuid = 9 })
      ∷ [];
  gossip_cache = [];
}

abbrev pub server : Server
server = record {
  kvstore = new dflt 2;
  aof = opened;
  cluster = cluster;
  syncing = false;
  pending_sync_nodes = 0;
  message_queue = [];
  raft_groups = [];
  master_to_group = (7, 0) ∷ (9, 1) ∷ [];
  group_members = (0, 7 ∷ 9 ∷ []) ∷ (1, 9 ∷ 7 ∷ []) ∷ [];
  log_files = [];
  connections = [];
  tasks = [];
  sent = [];
}

sync_all-mark_syncing_example : (sync_all 2 (mark_syncing 3 server)).syncing ≡ ltb 2 3
sync_all-mark_syncing_example =
    sync_all-mark_syncing 3 2 server (omega arith) (omega arith) (omega arith)

some_point : server.cluster.node_hash ≢ []
some_point = ground arith

send_data_to_node-transfers_example :
    send_data_to_node 9 server
    ≡ ok (
        if get_connection 9 server.cluster == no_fd
        then server
        else queued
            (transfers server.cluster 9
                (as_fd (get_connection 9 server.cluster))
                (entries server.kvstore.shards)
              ++ (sync_done_text server.cluster, as_fd (get_connection 9 server.cluster)) ∷ [])
            server)
send_data_to_node-transfers_example = send_data_to_node-transfers 9 server some_point

key-IsWord : IsWord (codes "k")
key-IsWord = record { some_char = ground arith; no_space = ground arith }

text-IsWord : IsWord (codes "5")
text-IsWord = record { some_char = ground arith; no_space = ground arith }

make_command-lines_example :
    (make_command (set_line (codes "k") (codes "5"))
      ≡ request (set_key (codes "k") (simple (codes "5"))))
    × (make_command (del_line (codes "k")) ≡ request (del_key (codes "k")))
make_command-lines_example = make_command-lines (codes "k") (codes "5") key-IsWord text-IsWord

init_raft_groups-IsGrouped_example :
    Ensures
      (IsGrouped (keys server.cluster.topo) server.cluster.self_node.uuid)
      (init_raft_groups (λ _ _. 0) server)
init_raft_groups-IsGrouped_example = init_raft_groups-IsGrouped (λ _ _. 0) server refl (omega arith)

-- A candidate-to-be with a peer that has a connection.
abbrev waiting : RaftNode
waiting = record {
  current_term = 0;
  voted_for = none;
  log = sentinel ∷ [];
  commit_index = 0;
  last_applied = 0;
  state = follower;
  group_id = 0;
  self_id = 7;
  peers = 9 ∷ [];
  next_index = [];
  match_index = [];
  vote_count = 0;
  election_timer = 1;
  heartbeat_timer = 0;
  drawn = 0;
  sent = [];
  disk_buf = [];
  file = [];
}

abbrev grouped : Server
grouped = record server { raft_groups = (0, waiting) ∷ [] }

linked : get_connection 9 grouped.cluster ≢ no_fd
unfolding get_connection
linked = ground arith

following : waiting.state ≢ leader
following = ground arith

tick_groups-relocks_example : tick_groups dflt (λ n. 0) (0 ∷ []) grouped ≡ undefined
tick_groups-relocks_example =
    tick_groups-relocks dflt (λ n. 0) 0 9 [] waiting grouped refl following (omega arith) refl
      linked

abbrev served : Server
served = record server { connections = (5, parser) ∷ [] }

epoll_step-throws_example :
    epoll_step dflt
      (λ ip port. raised "no route")
      (λ g n. 0)
      (λ n. 0)
      10
      ((5, codes "GET k") ∷ [])
      served
    ≡ raised "Parser Error!!"
epoll_step-throws_example =
    epoll_step-throws dflt (λ ip port. raised "no route") (λ g n. 0) (λ n. 0) 10 5 71 (codes "ET k")
      [] parser served refl refl refl

-- A server alone on the ring, with one entry in its store.
abbrev lonely : Server
lonely = record server {
  cluster = record server.cluster { node_hash = [] };
  kvstore = record {
    shard_count = 1;
    shards =
        record {
          table = record {
            buckets = record { key = codes "k"; value = dflt; status = occupied } ∷ [];
            bucketsz = 1;
            sz = 1;
          };
          lru = (new_shard dflt).lru;
        }
        ∷ [];
  };
}

lonely_ring : (del_node_to_hash lonely.cluster.self_node.uuid lonely.cluster).node_hash ≡ []
unfolding del_node_to_hash del_points
lonely_ring = refl

lonely_entries : entries lonely.kvstore.shards ≡ (codes "k", dflt) ∷ []
unfolding for_each
lonely_entries = refl

graceful_shutdown-alone_example : graceful_shutdown 3 10 lonely ≡ undefined
graceful_shutdown-alone_example =
    graceful_shutdown-alone 3 10 (codes "k", dflt) [] lonely lonely_ring lonely_entries
