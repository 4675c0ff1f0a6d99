-- ===== src/Server/Transfer.antt =====
-- server/Server: what `sendDataToNode` puts into the queue.
use kvjet.Prelude.{
  ℕ, Bool, true, false, List, [], ◌∷◌, ◌++◌, Bytes, ◌==◌, ◌≡◌, ◌≢◌, refl, sym, ◌∙◌, ap,
  if◌then◌else◌, codes, append_assoc, append-nil, Option, none, some,
}
use kvjet.Prelude.Assoc.{Assoc, lower_bound}
use kvjet.Prelude.Decimal.{to_string}
use kvjet.Prelude.Int.{ℤ}
use kvjet.Prelude.Outcome.{ok, raised, undefined, ◌>>=◌, Returns}
use kvjet.Resp.Value.{Value}
use kvjet.Resp.Encoder.{encode}
use kvjet.Cluster.{Cluster, no_fd, get_connection, query_node, first, hash_string}
use kvjet.Commands.Replies.{request, set_key}
use kvjet.Server.{
  Server, as_fd, emplace, entries, set_text, sync_done_text, send_owned, send_data_to_node,
}

-- Whether the ring leads a key to a node.
abbrev pub leads_to : Bytes → ℕ → Cluster → Bool
leads_to key target c = elim (query_node key c) [
  | ok owner ↦ owner == target
  | raised e ↦ false
  | undefined ↦ false
]

-- The messages with the entries whose keys lead to a node.
abbrev pub transfers : Cluster → ℕ → ℤ → List (Bytes × Value) → List (Bytes × ℤ)
transfers c target fd [] = []
transfers c target fd (p ∷ ps) =
    let rest = transfers c target fd ps in
    if leads_to p.0 target c then (encode (request (set_key p.0 p.1)), fd) ∷ rest else rest

three : to_string 3 ≡ codes "3"
unfolding to_string
three = refl

-- The text is that of the request `SET`.
set_text-request :
    (key : Bytes) (value : Value) → set_text key value ≡ encode (request (set_key key value))
unfolding encode
set_text-request key value = rw three (simp (append_assoc, append-nil))

query_node-defined :
    (key : Bytes) (c : Cluster) → c.node_hash ≢ [] → Returns (query_node key c) (λ _. Unit {0})
unfolding query_node
query_node-defined key c some_point =
    found (lower_bound (hash_string key) c.node_hash) c.node_hash some_point
  where
    found :
        (o : Option (ℕ × ℕ)) (m : Assoc ℕ)
        → m ≢ []
        → Returns (elim o [ none ↦ first m | some p ↦ ok p ] >>= λ p. ok p.1) (λ _. Unit {0})
    found none [] h = absurd (h refl)
    found none (p ∷ m) h = (p.1, refl, tt)
    found (some p) m h = (p.1, refl, tt)

-- The server with more messages in its queue.
abbrev pub queued : List (Bytes × ℤ) → Server → Server
queued ms s = record s { message_queue = s.message_queue ++ ms }

-- One entry, in front of those whose messages are known.
send_owned-entry :
    (target : ℕ) (fd : ℤ) (p : Bytes × Value) (ps : List (Bytes × Value)) (c : Cluster) (s : Server)
    (mine : Bool)
    → s.cluster ≡ c
    → ((t : Server)
        → t.cluster ≡ c
        → send_owned target fd ps t ≡ ok (queued (transfers c target fd ps) t))
    → send_owned target fd ps (if mine then emplace (set_text p.0 p.1) fd s else s)
      ≡ ok (
          queued
            (if mine
              then (encode (request (set_key p.0 p.1)), fd) ∷ transfers c target fd ps
              else transfers c target fd ps)
            s)
send_owned-entry target fd p ps c s true same ih =
    ih (emplace (set_text p.0 p.1) fd s) same
    ∙ ap (λ q. ok (record s { message_queue = q }))
        (append_assoc s.message_queue ((set_text p.0 p.1, fd) ∷ []) (transfers c target fd ps)
          ∙ ap (λ text. s.message_queue ++ (text, fd) ∷ transfers c target fd ps)
              (set_text-request p.0 p.1))
send_owned-entry target fd p ps c s false same ih = ih s same

send_owned-transfers :
    (target : ℕ) (fd : ℤ) (ps : List (Bytes × Value)) (c : Cluster)
    → c.node_hash ≢ []
    → (s : Server) → s.cluster ≡ c
    → send_owned target fd ps s ≡ ok (queued (transfers c target fd ps) s)
unfolding send_owned
send_owned-transfers target fd [] c h s same =
    ap (λ q. ok (record s { message_queue = q })) (sym (append-nil s.message_queue))
send_owned-transfers target fd (p ∷ ps) c h s same =
    let (owner, e, _) = query_node-defined p.0 c h in
    ap (λ d. query_node p.0 d >>= λ o. send_owned target fd ps (choose s o)) same
    ∙ ap (λ m. m >>= λ o. send_owned target fd ps (choose s o)) e
    ∙ send_owned-entry target fd p ps c s (owner == target) same
        (λ t same_t. send_owned-transfers target fd ps c h t same_t)
    ∙ ap (λ b. ok (queued (if b then with_entry else transfers c target fd ps) s))
        (sym (ap (λ m. elim m [ ok o ↦ o == target | raised x ↦ false | undefined ↦ false ]) e))
  where
    choose : Server → ℕ → Server
    choose t o = if o == target then emplace (set_text p.0 p.1) fd t else t

    with_entry : List (Bytes × ℤ)
    with_entry = (encode (request (set_key p.0 p.1)), fd) ∷ transfers c target fd ps

-- If the ring has points, `sendDataToNode` returns. To a node with a connection it queues a `SET`
-- request for each entry of the store whose key leads to that node and for no other entry, in the
-- order of the store, then one `SYNCDONE`; without a connection it queues nothing. Nothing else of
-- the server changes.
pub send_data_to_node-transfers :
    (target : ℕ) (s : Server)
    → s.cluster.node_hash ≢ []
    → let fd = get_connection target s.cluster in
      send_data_to_node target s
      ≡ ok (
          if fd == no_fd
          then s
          else queued
              (transfers s.cluster target (as_fd fd) (entries s.kvstore.shards)
                ++ (sync_done_text s.cluster, as_fd fd) ∷ [])
              s)
unfolding send_data_to_node
send_data_to_node-transfers target s h = sent (get_connection target s.cluster == no_fd)
  where
    fd : ℤ
    fd = as_fd (get_connection target s.cluster)

    ms : List (Bytes × ℤ)
    ms = transfers s.cluster target fd (entries s.kvstore.shards)

    sent :
        (b : Bool)
        → (if b
            then ok s
            else (send_owned target fd (entries s.kvstore.shards) s >>= λ t.
                ok (emplace (sync_done_text t.cluster) fd t)))
          ≡ ok (if b then s else queued (ms ++ (sync_done_text s.cluster, fd) ∷ []) s)
    sent true = refl
    sent false =
        ap (λ m. m >>= λ t. ok (emplace (sync_done_text t.cluster) fd t))
          (send_owned-transfers target fd (entries s.kvstore.shards) s.cluster h s refl)
        ∙ ap (λ q. ok (record s { message_queue = q }))
            (append_assoc s.message_queue ms ((sync_done_text s.cluster, fd) ∷ []))
