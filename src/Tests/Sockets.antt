-- ===== src/Tests/Sockets.antt =====
-- A text that a socket takes in two parts, of which the second does not come.
use kvjet.Prelude.{true, [], ◌∷◌, codes, ◌≡◌, refl, arith}
use kvjet.Prelude.Calls.{took, interrupted, would_block, nothing, brought}
use kvjet.Server.Sockets.{returned, send, received, recv}
use kvjet.Server.Sockets.Partial.{Ends, send-Ends}

send-Ends_example : Ends (took 2 ∷ interrupted ∷ took 1 ∷ []) [] (codes "+OKAY")
send-Ends_example =
    send-Ends (took 2 ∷ interrupted ∷ took 1 ∷ []) [] (codes "+OKAY") (omega arith)
      (omega arith, (tt, (omega arith, tt)))

cut_short : send (took 2 ∷ would_block ∷ took 3 ∷ []) (codes "+OKAY") ≡ returned (codes "+O") true
unfolding send
cut_short = refl

read_twice :
    recv (brought (codes "+O") ∷ brought (codes "K") ∷ nothing ∷ []) []
    ≡ received (codes "+OK") true
unfolding recv
read_twice = refl
