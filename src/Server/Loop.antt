-- ===== src/Server/Loop.antt =====
-- server/Server: the event loop. What epoll and the sockets deliver is given.
use kvjet.Prelude.{
  ℕ, zero, suc, ◌^◌, Bool, true, false, ◌&&◌, List, [], ◌∷◌, ◌++◌, none, some, Bytes, codes, ltb,
  leb, ◌==◌, if◌then◌else◌, map, is_some,
}
use kvjet.Prelude.Assoc.{Assoc, find, insert}
use kvjet.Prelude.Decimal.{to_string}
use kvjet.Prelude.Int.{ℤ, pos, negsuc}
use kvjet.Prelude.Outcome.{Outcome, ok, raised, undefined, ◌>>=◌}
use kvjet.Prelude.Words.{words}
use kvjet.Resp.Value.{Value}
use kvjet.Resp.Encoder.{crlf}
use kvjet.Resp.Parser.{RespParser}
use kvjet.Resp.Parser.{append as parse}
use kvjet.Raft.Message.{leading_digits}
use kvjet.Cluster.{Cluster, no_fd, add_connection, update_heartbeat, check_timeouts}
use kvjet.Server.{
  Server, Task, handles, transfers_to, done, failed, lost, crashed, as_fd, emplace,
  send_data_to_node,
}
use kvjet.Server.Groups.{keys, init_raft_groups}
use kvjet.Server.Apply.{tick_groups}
use kvjet.Handler.{handle}

-- A connection has delivered a text, which is not empty. A throw of the parser leaves `run`.
unfoldable pub receive : ℕ → Bytes → Server → Outcome Server
receive fd text s = elim (find fd s.connections) [
  | none ↦ ok s
  | some p ↦ parse text p >>= λ q. ok (record s {
    connections = insert fd (record q { queue = [] }) s.connections;
    tasks = s.tasks ++ map (handles fd) q.queue;
  })
]

abbrev pub hello_text : Cluster → Bytes
hello_text c =
    codes "*2" ++ crlf ++ codes "+HELLO" ++ crlf ++ codes "+" ++ to_string c.self_node.uuid ++ crlf

abbrev digits_only : Bytes → Bool
digits_only [] = true
digits_only (c ∷ s) = leb b'0' c && (leb c b'9' && digits_only s)

abbrev number_below : ℕ → Bytes → Outcome ℕ
number_below limit [] = undefined
number_below limit (c ∷ s) =
    let n = leading_digits (c ∷ s) 0 in
    if digits_only (c ∷ s) && ltb n limit then ok n else undefined

-- `iss >> ip >> port >> uuid`. A text of another form leaves a number that is not set.
abbrev read_address : List Bytes → Outcome (Bytes × ℕ × ℕ)
read_address (ip ∷ port ∷ uuid ∷ rest) =
    number_below (2 ^ 16) port >>= λ p. number_below (2 ^ 64) uuid >>= λ u. ok (ip, p, u)
read_address _ = undefined

abbrev is_empty_text : Bytes → Bool
is_empty_text [] = true
is_empty_text (c ∷ s) = false

-- `dial` opens a connection and waits for the answer to `HELLO`, or throws.
module _ (dial : Bytes → ℕ → Outcome (ℕ × RespParser)) where
  unfoldable pub connect : Bytes → ℕ → ℕ → Server → Outcome Server
  connect ip port uuid s = dial ip port >>= λ sock. ok (record s {
    sent = s.sent ++ (hello_text s.cluster, sock.0) ∷ [];
    connections = insert sock.0 sock.1 s.connections;
    cluster = add_connection uuid sock.0 s.cluster;
    tasks = s.tasks ++ transfers_to uuid ∷ [];
  })

  -- One message of the queue.
  unfoldable pub deliver : (ℕ → ℕ → ℕ) → Bytes → ℤ → Server → Outcome Server
  unfolding connect
  deliver rand text (negsuc zero) s = read_address (words text) >>= λ a. connect a.0 a.1 a.2 s
  deliver rand text (negsuc (suc zero)) s = init_raft_groups rand s
  deliver rand text (negsuc (suc (suc n))) s = ok s
  deliver rand text (pos n) s = ok (
      if is_some (find (suc n) s.connections)
      then record s { sent = s.sent ++ (text, suc n) ∷ [] }
      else s)

  unfoldable pub deliver_all : (ℕ → ℕ → ℕ) → List (Bytes × ℤ) → Server → Outcome Server
  unfolding deliver
  deliver_all rand [] s = ok s
  deliver_all rand (m ∷ ms) s = deliver rand m.0 m.1 s >>= deliver_all rand ms

-- The connections of the cluster that have a socket are alive.
unfoldable pub mark_alive : ℕ → Assoc ℕ → Server → Server
mark_alive now [] s = s
mark_alive now (p ∷ conns) s = mark_alive now conns (
    if p.1 == no_fd
    then s
    else if is_some (find p.1 s.connections)
    then record s { cluster = update_heartbeat now p.1 s.cluster }
    else s)

-- `checkTimeouts` in the event loop: the failure callback locks `queueMutex`, which is held.
unfoldable pub time_out : ℕ → Server → Outcome Server
time_out now s =
    let (dead, c) = check_timeouts now s.cluster in
    elim dead [ [] ↦ ok (record s { cluster = c }) | uuid ∷ rest ↦ undefined ]

module _ (dflt : Value) (dial : Bytes → ℕ → Outcome (ℕ × RespParser)) where
  abbrev receive_all : List (ℕ × Bytes) → Server → Outcome Server
  receive_all [] s = ok s
  receive_all (e ∷ events) s = receive e.0 e.1 s >>= receive_all events

  -- `epoll_step`, with the texts that the connections deliver in it. `draws` is for the groups that are
  -- set up, and `rand` for the ticks.
  unfoldable pub epoll_step : (ℕ → ℕ → ℕ) → (ℕ → ℕ) → ℕ → List (ℕ × Bytes) → Server → Outcome Server
  unfolding receive deliver_all mark_alive time_out
  epoll_step draws rand now events s₀ = receive_all events s₀ >>= λ s₁.
      deliver_all dial draws s₁.message_queue (record s₁ { message_queue = [] }) >>= λ s₂.
      time_out now (mark_alive now s₂.cluster.connections s₂) >>= λ s₃.
      tick_groups dflt rand (keys s₃.raft_groups) s₃

  -- `handleCommand`, in a thread of the pool, which catches what a handler throws.
  unfoldable pub run_task : (ℕ → ℕ) → ℕ → ℕ → Task → Server → Outcome Server
  run_task rand now later (handles sock value) s = elim (handle dflt rand now later value sock s) [
    | done message t ↦ ok (if is_empty_text message then t else emplace message (as_fd sock) t)
    | failed e t ↦ ok t
    | lost e ↦ raised e
    | crashed ↦ undefined
  ]
  run_task rand now later (transfers_to uuid) s = send_data_to_node uuid s
