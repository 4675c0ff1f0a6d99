-- ===== src/Tests/Topology.antt =====
-- A topology of two nodes, sent in pieces.
use mathlib.Core.List.{flatten}
use kvjet.Prelude.{ℕ, ◌<◌, ◌^◌, List, [], ◌∷◌, ◌++◌, Bytes, codes, ◌≡◌, refl, arith, All, length}
use kvjet.Prelude.Assoc.{Assoc}
use kvjet.Prelude.Outcome.{ok}
use kvjet.Resp.Value.{Value}
use kvjet.Resp.Encoder.{crlf}
use kvjet.Resp.Parser.{RespParser, new}
use kvjet.Resp.Parser.RoundTrip.{append_all}
use kvjet.Cluster.{Peer}
use kvjet.Topology.{encode_topo, encode_node, get_topo}
use kvjet.Topology.RoundTrip.{IsPeer, get_topo-encode_topo}

abbrev near : Peer
near = record { ip = codes "10.0.0.1"; port = 7801; uuid = 5 }

abbrev far : Peer
far = record { ip = codes "10.0.0.2"; port = 65535; uuid = 18446744073709551615 }

abbrev topo : Assoc Peer
topo = (5, near) ∷ (18446744073709551615, far) ∷ []

abbrev pieces : List Bytes
pieces =
    codes "*2"
    ∷ (crlf ++ codes "*3" ++ crlf ++ codes "+10.0.0.1" ++ crlf ++ codes ":78")
    ∷ (codes "01"
        ++ crlf
        ++ codes "+5"
        ++ crlf
        ++ codes "*3"
        ++ crlf
        ++ codes "+10.0.0.2"
        ++ crlf
        ++ codes ":65535"
        ++ crlf)
    ∷ (codes "+18446744073709551615" ++ crlf)
    ∷ []

pieces-encode_topo : flatten pieces ≡ encode_topo topo
unfolding flatten encode_topo encode_node kvjet.Prelude.Decimal.to_string
pieces-encode_topo = refl

near-IsPeer : IsPeer near
near-IsPeer = record { on_line = omega arith; port_fits = omega arith; uuid_fits = omega arith }

far-IsPeer : IsPeer far
far-IsPeer = record { on_line = omega arith; port_fits = omega arith; uuid_fits = omega arith }

get_topo-encode_topo_example :
    (q : RespParser) × (v : Value) × (append_all pieces new ≡ ok q)
    × (q.queue ≡ v ∷ [])
    × (get_topo v ≡ ok (near ∷ far ∷ []))
get_topo-encode_topo_example =
    get_topo-encode_topo topo pieces (near-IsPeer, (far-IsPeer, tt)) (omega arith)
      pieces-encode_topo
