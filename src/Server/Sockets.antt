-- ===== src/Server/Sockets.antt =====
-- server/Server: `send` and `recv`, given what the calls of the system return, one by one.
pub mod Partial
use kvjet.Prelude.{
  ℕ, ◌-◌, ◌^◌, Bool, true, false, List, [], ◌∷◌, ◌++◌, Bytes, String, length, ltb, ◌==◌, take, drop,
  if◌then◌else◌,
}
use kvjet.Prelude.Calls.{
  SendCall, took, interrupted, would_block, bad_socket, broken, RecvCall, brought, ended, nothing,
  failed,
}

-- How `send` ends: it returns the number of the bytes that the socket has taken, or throws; here they
-- stand themselves. `connected` tells whether the connection is still there. `sending` is a call that
-- has not come back.
pub data Sending : Type 0 where
  returned : Bytes → (connected : Bool) → Sending
  threw : String → Bytes → Sending
  sending : Bytes → Sending

-- The loop: `text` is left, and `sent` has been taken. `::send` takes no more than it is given.
unfoldable pub send_loop : List SendCall → Bytes → Bytes → Sending
send_loop calls [] sent = returned sent true
send_loop [] (c ∷ text) sent = sending sent
send_loop (took n ∷ calls) (c ∷ text) sent =
    let rest = send_loop calls (drop n (c ∷ text)) (sent ++ take n (c ∷ text)) in
    if n == 0 then returned sent false else rest
send_loop (interrupted ∷ calls) (c ∷ text) sent = send_loop calls (c ∷ text) sent
send_loop (would_block ∷ calls) (c ∷ text) sent = returned sent true
send_loop (bad_socket ∷ calls) (c ∷ text) sent = returned sent true
send_loop (broken e ∷ calls) (c ∷ text) sent = threw e sent

-- `SSIZE_MAX`
abbrev ssize_max : ℕ
ssize_max = 2 ^ 63 - 1

unfoldable pub send : List SendCall → Bytes → Sending
unfolding send_loop
send calls text =
    if ltb ssize_max (length text) then threw "Data too long" [] else send_loop calls text []

-- How `recv` ends: it returns a text, or throws when the socket cannot be taken off epoll.
pub data Receiving : Type 0 where
  received : Bytes → (connected : Bool) → Receiving
  threw : String → Receiving
  receiving : Bytes → Receiving

unfoldable pub recv : List RecvCall → Bytes → Receiving
recv [] ret = receiving ret
recv (brought bytes ∷ calls) ret = recv calls (ret ++ bytes)
recv (ended ∷ calls) ret = received ret false
recv (nothing ∷ calls) ret = received ret true
recv (failed true e ∷ calls) ret = received ret false
recv (failed false e ∷ calls) ret = threw e
