-- ===== src/Topology/RoundTrip.antt =====
-- A topology that a node encodes is the one that another node reads, whatever the chunks.
use mathlib.Core.List.{flatten}
use kvjet.Prelude.{
  ℕ, suc, ◌+◌, ◌*◌, ◌%◌, ◌^◌, ◌<◌, true, List, [], ◌∷◌, ◌++◌, Bytes, codes, length, ltb, ◌≡◌, refl,
  sym, ap, ◌∙◌, arith, All, append_assoc, append-nil,
}
use kvjet.Prelude.Assoc.{Assoc}
use kvjet.Prelude.Decimal.{to_string, to_string_ℤ, to_string_induction, IsLine, to_string-IsLine}
use kvjet.Prelude.Int.{pos}
use kvjet.Prelude.Outcome.{ok, ◌>>=◌}
use kvjet.Resp.Value.{Value, Items, simple, integer, array, nil, cons, size}
use kvjet.Resp.Encoder.{encode, encode_items}
use kvjet.Resp.Parser.{RespParser, new}
use kvjet.Resp.Parser.RoundTrip.{IsEncodable, AreEncodable, append_all, append_all-encode}
use kvjet.Cluster.{Peer}
use kvjet.Topology.{
  encode_node, encode_topo, encode_nodes, read_uint64, to_uint64_t, get_node, get_nodes, get_topo,
  char_digit,
}

read_uint64-append :
    (str : Bytes) (c ret : ℕ)
    → read_uint64 ret (str ++ c ∷ []) ≡ (read_uint64 ret str * 10 % 2 ^ 64 + char_digit c) % 2 ^ 64
unfolding read_uint64
read_uint64-append [] c ret = refl
read_uint64-append (x ∷ str) c ret = read_uint64-append str c _

digit_of : (d : ℕ) → d < 10 → char_digit (b'0' + d) ≡ d
digit_of d h = let ascii : ltb (b'0' + d) 128 ≡ true = ground arith in rw ascii (omega arith)

digit_first : (d : ℕ) → d < 10 → (0 * 10 % 2 ^ 64 + char_digit (b'0' + d)) % 2 ^ 64 ≡ d
digit_first d h = rw (digit_of d h) (omega arith)

digit_next :
    (m d ret : ℕ)
    → d < 10
    → ret ≡ m
    → m * 10 + d < 2 ^ 64
    → (ret * 10 % 2 ^ 64 + char_digit (b'0' + d)) % 2 ^ 64 ≡ m * 10 + d
digit_next m d ret h e fits = rw (digit_of d h, e) (omega arith)

-- Printing a number below 2 ^ 64 and reading it.
pub to_uint64_t-to_string : (n : ℕ) → n < 2 ^ 64 → to_uint64_t (to_string n) ≡ n
unfolding to_uint64_t read_uint64
to_uint64_t-to_string =
    to_string_induction (λ n ds. n < 2 ^ 64 → read_uint64 0 ds ≡ n)
      (λ d small h. digit_first d small)
      (λ m d ds small big ih h.
        read_uint64-append ds (b'0' + d) 0 ∙ digit_next m d _ small (ih (omega arith)) h)

-- What a node is encoded as.
abbrev node_value : Peer → Value
node_value node = array (
    cons (simple node.ip)
      (cons (integer (pos node.port)) (cons (simple (to_string node.uuid)) nil)))

abbrev node_values : Assoc Peer → Items
node_values [] = nil
node_values (p ∷ topo) = cons (node_value p.1) (node_values topo)

abbrev pub topo_value : Assoc Peer → Value
topo_value topo = array (node_values topo)

three : to_string 3 ≡ codes "3"
unfolding to_string
three = refl

to_string_ℤ-pos : (n : ℕ) → to_string_ℤ (pos n) ≡ to_string n
unfolding to_string_ℤ
to_string_ℤ-pos n = refl

encode-node_value : (node : Peer) → encode (node_value node) ≡ encode_node node
unfolding encode encode_node
encode-node_value node = rw (three, to_string_ℤ-pos node.port) (simp (append_assoc, append-nil))

encode_items-node_values : (topo : Assoc Peer) → encode_items (node_values topo) ≡ encode_nodes topo
unfolding encode
encode_items-node_values [] = refl
encode_items-node_values (p ∷ topo) =
    ap (λ bs. bs ++ encode_items (node_values topo)) (encode-node_value p.1)
    ∙ ap (◌++◌ (encode_node p.1)) (encode_items-node_values topo)

size-node_values : (topo : Assoc Peer) → size (node_values topo) ≡ length topo
size-node_values [] = refl
size-node_values (p ∷ topo) = ap suc (size-node_values topo)

encode-topo_value : (topo : Assoc Peer) → encode (topo_value topo) ≡ encode_topo topo
unfolding encode encode_topo
encode-topo_value topo =
    rw (size-node_values topo, encode_items-node_values topo) (simp append_assoc)

-- A node whose address stands on a line and whose numbers fit.
pub record IsPeer (node : Peer) : Type 0 where
  pub on_line : IsLine node.ip
  pub port_fits : node.port < 2 ^ 16
  pub uuid_fits : node.uuid < 2 ^ 64

get_node-node_value : (node : Peer) → IsPeer node → get_node (node_value node) ≡ ok node
unfolding get_node
get_node-node_value node h =
    let port : node.port % 2 ^ 16 ≡ node.port = omega (arith, h.port_fits) in
    rw (port, to_uint64_t-to_string node.uuid h.uuid_fits) refl

abbrev pub peers : Assoc Peer → List Peer
peers [] = []
peers (p ∷ topo) = p.1 ∷ peers topo

get_nodes-node_values :
    (topo : Assoc Peer) → All IsPeer (peers topo) → get_nodes (node_values topo) ≡ ok (peers topo)
unfolding get_nodes
get_nodes-node_values [] h = refl
get_nodes-node_values (p ∷ topo) h =
    ap (λ m. m >>= λ node. get_nodes (node_values topo) >>= λ nodes. ok (node ∷ nodes))
      (get_node-node_value p.1 h.0)
    ∙ ap (λ m. m >>= λ nodes. ok (p.1 ∷ nodes)) (get_nodes-node_values topo h.1)

node_value-IsEncodable : (node : Peer) → IsPeer node → IsEncodable (node_value node)
unfolding IsEncodable
node_value-IsEncodable node h =
    (omega arith, (h.on_line, (ground (arith, h.port_fits), (to_string-IsLine node.uuid, tt))))

node_values-AreEncodable :
    (topo : Assoc Peer) → All IsPeer (peers topo) → AreEncodable (node_values topo)
unfolding IsEncodable
node_values-AreEncodable [] h = tt
node_values-AreEncodable (p ∷ topo) h =
    (node_value-IsEncodable p.1 h.0, node_values-AreEncodable topo h.1)

-- A topology that is encoded, sent in chunks cut anywhere and parsed by a new parser is one message,
-- and `getTopo` reads from it the nodes of the topology, in order.
pub get_topo-encode_topo :
    (topo : Assoc Peer) (chunks : List Bytes)
    → All IsPeer (peers topo)
    → length topo < 2 ^ 64
    → flatten chunks ≡ encode_topo topo
    → (q : RespParser) × (v : Value) × (append_all chunks new ≡ ok q)
      × (q.queue ≡ v ∷ [])
      × (get_topo v ≡ ok (peers topo))
unfolding get_topo IsEncodable
get_topo-encode_topo topo chunks h fits cut =
    let (q, run, queued, _, _) =
      append_all-encode (topo_value topo ∷ []) chunks new
        ((rw (size-node_values topo) fits, node_values-AreEncodable topo h), tt)
        (cut ∙ sym (encode-topo_value topo) ∙ sym (append-nil (encode (topo_value topo)))) refl
        refl in
    (q, topo_value topo, run, queued, get_nodes-node_values topo h)
