-- ===== src/Topology.antt =====
-- How nodes tell each other who is there: encodeNode and encodeTopo of resp/RespEncoder, and the way
-- back in util/Utils.
pub mod RoundTrip
use kvjet.Prelude.{
  ℕ, zero, suc, ◌+◌, ◌-◌, ◌*◌, ◌%◌, ◌^◌, Bool, true, false, List, [], ◌∷◌, ◌++◌, Option, none, some,
  Bytes, codes, length, ltb, leb, ◌==◌, if◌then◌else◌,
}
use kvjet.Prelude.Assoc.{Assoc, insert}
use kvjet.Prelude.Decimal.{to_string}
use kvjet.Prelude.Int.{ℤ, pos, negsuc}
use kvjet.Prelude.Outcome.{Outcome, ok, raised, undefined, ◌>>=◌}
use kvjet.Resp.Value.{Value, Items, simple, bulk, error, integer, nil_array, array, nil, cons, size}
use kvjet.Resp.Encoder.{crlf}
use kvjet.Cluster.{Peer}

unfoldable pub encode_node : Peer → Bytes
encode_node node =
    codes "*3"
    ++ crlf
    ++ codes "+"
    ++ node.ip
    ++ crlf
    ++ codes ":"
    ++ to_string node.port
    ++ crlf
    ++ codes "+"
    ++ to_string node.uuid
    ++ crlf

abbrev encode_nodes : Assoc Peer → Bytes
encode_nodes [] = []
encode_nodes (p ∷ topo) = encode_node p.1 ++ encode_nodes topo

unfoldable pub encode_topo : Assoc Peer → Bytes
encode_topo topo = codes "*" ++ to_string (length topo) ++ crlf ++ encode_nodes topo

-- `c - '0'` of a signed `char`, as it is added to an `uint64_t`.
abbrev pub char_digit : ℕ → ℕ
char_digit c = if ltb c 128 then (c + (2 ^ 64 - 48)) % 2 ^ 64 else c + (2 ^ 64 - 256 - 48)

unfoldable pub read_uint64 : ℕ → Bytes → ℕ
read_uint64 ret [] = ret
read_uint64 ret (c ∷ str) = read_uint64 ((ret * 10 % 2 ^ 64 + char_digit c) % 2 ^ 64) str

unfoldable pub to_uint64_t : Bytes → ℕ
unfolding read_uint64
to_uint64_t str = read_uint64 0 str

-- `static_cast<uint16_t>`
abbrev pub to_uint16 : ℤ → ℕ
to_uint16 (pos n) = n % 2 ^ 16
to_uint16 (negsuc n) = 2 ^ 16 - 1 - n % 2 ^ 16

abbrev pub node_of : Items → Outcome Peer
node_of (cons (simple ip) (cons (integer port) (cons (simple uuid) nil))) =
    ok (record { ip = ip; port = to_uint16 port; uuid = to_uint64_t uuid })
node_of _ = raised "getNode: Invalid node element types"

unfoldable pub get_node : Value → Outcome Peer
get_node (array vs) =
    if size vs == 3
    then node_of vs
    else raised "getNode: Invalid node format, expected Array of 3 elements"
get_node _ = raised "getNode: Invalid node format, expected Array of 3 elements"

unfoldable pub get_nodes : Items → Outcome (List Peer)
unfolding get_node
get_nodes nil = ok []
get_nodes (cons v vs) = get_node v >>= λ node. get_nodes vs >>= λ nodes. ok (node ∷ nodes)

unfoldable pub get_topo : Value → Outcome (List Peer)
unfolding get_nodes
get_topo (array vs) = get_nodes vs
get_topo _ = raised "getTopo: Invalid topo format, expected Array"

-- The members of a group: simple strings that are not zero.
abbrev members_of : Items → List ℕ
members_of nil = []
members_of (cons (simple s) vs) =
    let rest = members_of vs in let uid = to_uint64_t s in if uid == 0 then rest else uid ∷ rest
members_of (cons _ vs) = members_of vs

-- One group. Its number is read through a pointer that is null if it is not a simple string.
abbrev group_of : Value → Assoc (List ℕ) → Outcome (Assoc (List ℕ))
group_of (array (cons (simple gid) (cons v vs))) groups =
    ok (insert (to_uint64_t gid) (members_of (cons v vs)) groups)
group_of (array (cons _ (cons v vs))) groups = undefined
group_of _ groups = ok groups

abbrev groups_of : Items → Assoc (List ℕ) → Outcome (Assoc (List ℕ))
groups_of nil groups = ok groups
groups_of (cons v vs) groups = group_of v groups >>= groups_of vs

unfoldable pub get_topo_v2 : Value → Assoc (List ℕ) → Outcome (List Peer × Assoc (List ℕ))
unfolding get_topo
get_topo_v2 (array (cons v (cons (array gs) vs))) groups =
    get_topo v >>= λ nodes. groups_of gs groups >>= λ found. ok (nodes, found)
get_topo_v2 (array (cons v vs)) groups = get_topo v >>= λ nodes. ok (nodes, groups)
get_topo_v2 _ groups = raised "getTopoV2: Invalid format"
