-- ===== src/Lib.antt =====
-- A model of kvjet, a sharded key-value store with a RESP front end, a consistent-hashing cluster and
-- Raft groups, with the theorems that make its parts correct.
--
-- The program. Clients and nodes speak RESP: `resp::encode` prints a value and `RespParser::append`
-- reads it from whatever chunks the network delivers. Each Raft group is a `RaftNode`, which is driven
-- by ticks, by the texts of its peers and by the commands of clients, sends messages through a
-- callback, and keeps its log in a file. The store spreads the keys over shards: each has a hash table
-- of values and a list of recent uses, which has a hash table of iterators.
-- The cluster finds the node of a key on a ring of hashes, and forgets the nodes that are silent.
-- Nodes send each other their topology as one message. The commands on the store are logged, and a
-- replay of the log carries them out again. The server joins these parts: a request is routed to the
-- node of its key, proposed to a Raft group, logged and stored; nodes come and go by gossip.
--
-- Files.
--   Prelude            shared names: tests on numbers and byte strings, lists, integers, decimal
--                      printing, ordered maps, results of system calls, and `Outcome`, the way in which a call ends.
--   Resp               src/resp: `Value` (RespValue), `Encoder` (RespEncoder), `Parser` (RespParser, a
--                      function for each state of the machine, `append` for the loop) with
--                      `Parser/RoundTrip`.
--   Raft               src/raft/RaftNode.cpp: `Message` (encoders, parseParts, std::stoull), `Node`
--                      (state, timers, roles, commit index), `Disk` (log file), `Handlers` (constructor,
--                      tick, step, the four message handlers, propose), with the proofs below it.
--   Store              src/kvstore: `HashTable` (HashTable.cpp). Below it `Slot`, `Probe` (the loop of `find`),
--                      `Placed` (the arrays that the operations keep), `Write`, `Bury`, `Search`,
--                      `Vacancy`, `Map`, `Rehash`, `Update` and `Growth` (the operations on the map).
--                      `Snapshot` (writetofile, readfromfile) with `Fields`, `Reload` and `Untouched`.
--                      `Lru` (LRU.cpp), with `Entries`, `Order`, `Linked`, `Evict`. `KvStore` (KVStore.cpp),
--                      with `View`, `Calls` and `Snapshot` (the snapshot directory, with `Loops` and
--                      `Reload`).
--   Cluster            src/util/Cluster.cpp: the ring, replicas, liveness, gossip cache, connections,
--                      with `Ring`, `Timeouts`, `Replicas` and `Found`.
--   Topology           encodeNode and encodeTopo of src/resp/RespEncoder.cpp, src/util/Utils.cpp.
--   Commands           src/server/Handler.cpp: handle_noAOF and its commands, with `Replies`.
--   Aof                src/kvstore/AOF.cpp, with `Replay`.
--   Server             src/server/Server.cpp and Server.h: the state that handlers and event loop share, the
--                      message queue, sendDataToNode and the synchronisation counter (`Sync`,
--                      `Transfer`), initRaftGroups (`Groups`, with `Membership` and `Masters`), the ticks
--                      and committed entries (`Apply`), the event loop (`Loop`, with `Locks` and `Input`),
--                      joinCluster and gracefulShutdown (`Presence`), send and recv (`Sockets`, with `Partial`).
--   Handler            src/server/Handler.cpp: handle and all its commands, as steps on a `Server`, with
--                      `Routing`, `Storing`, `Deletion`, `Gossip` and `Leaving`.
--   Client             src/client/Client.cpp: the command line and routing, with `Requests` and `Moved`; the
--                      connections and the retry after MOVED (`Session`).
--   ThreadPool         src/util/ThreadPool: the queue and the workers as a step relation, with `Order`.
--   Tests              concrete runs.
--
-- Conventions. A `std::string` is a list of bytes; a `uint64_t` or `size_t` is a native number, and
-- wrap-around is written out where the code can reach it. A call returns an `Outcome`: `ok`,
-- `raised` (a C++ exception) or `undefined` (undefined behaviour, such as an unchecked index out of
-- range, a signed overflow, or a read through an empty optional). Methods take the object and
-- return the new one. The capacity of strings, locks and log output are left out, as is the state
-- that a parser is left in by a throw. Clocks, the identities drawn at random and `std::rand` are
-- parameters. A descriptor is counted from one, and -1 is 0. Loops recur on the list or on the
-- rounds left; `probe` has as many rounds as buckets, which bring it back to its start; `to_string`
-- takes one round more than its number, which is enough for its digits.
--
-- A call on the server ends in `Handled`, which has the state behind a throw of a handler; behind a throw of
-- a component the state is not followed.
--
-- Not modelled: the set-up of sockets, epoll, signals, the threads themselves (the queue of the pool is a
-- step relation, in which they interleave freely), and the benchmarks of the client, which are input and
-- output. What the sockets deliver is a parameter of the event loop and of the client; `send` and `recv` of
-- the server take what the calls of the system return. In a snapshot, whether a file can be opened is a
-- parameter.
pub mod Prelude
pub mod Resp
pub mod Raft
pub mod Store
pub mod Cluster
pub mod Topology
pub mod Commands
pub mod Aof
pub mod Server
pub mod Handler
pub mod Client
pub mod ThreadPool
mod Tests
