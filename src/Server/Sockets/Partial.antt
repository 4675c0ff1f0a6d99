-- ===== src/Server/Sockets/Partial.antt =====
-- server/Server: what `send` has sent when it ends.
use kvjet.Prelude.{
  ℕ, ◌+◌, ◌-◌, ◌≤◌, ◌<◌, ◌^◌, true, false, List, [], ◌∷◌, ◌++◌, ◌≡◌, refl, sym, ap, ◌∙◌, Bytes,
  String, length, ltb, ◌==◌, take, drop, take-drop, length-drop, take-add, drop-add, append_assoc,
  append-nil, arith, All,
}
use kvjet.Prelude.Calls.{SendCall, took, interrupted, would_block, bad_socket, broken}
use kvjet.Server.Sockets.{returned, threw, send_loop, send}

-- How many bytes the calls take.
abbrev pub total : List SendCall → ℕ
total [] = 0
total (took n ∷ calls) = n + total calls
total (_ ∷ calls) = total calls

-- A call behind which the loop goes on.
abbrev pub IsWorking : SendCall → Type 0
IsWorking (took n) = 0 < n
IsWorking interrupted = Unit
IsWorking _ = ⊥

not_none : (n : ℕ) → 0 < n → (n == 0) ≡ false
not_none n h = ground arith

send_loop-nil :
    (calls : List SendCall) (sent : Bytes) → send_loop calls [] sent ≡ returned sent true
unfolding send_loop
send_loop-nil calls sent = refl

send_loop-took :
    (n : ℕ) (calls : List SendCall) (text sent : Bytes)
    → 0 < n
    → 0 < length text
    → send_loop (took n ∷ calls) text sent ≡ send_loop calls (drop n text) (sent ++ take n text)
unfolding send_loop
send_loop-took n calls [] sent h g = absurd (omega arith)
send_loop-took n calls (c ∷ text) sent h g = rw (not_none n h) refl

send_loop-interrupted :
    (calls : List SendCall) (text sent : Bytes)
    → send_loop (interrupted ∷ calls) text sent ≡ send_loop calls text sent
unfolding send_loop
send_loop-interrupted calls [] sent = refl
send_loop-interrupted calls (c ∷ text) sent = refl

send_loop_whole :
    (calls more : List SendCall) (text sent : Bytes)
    → All IsWorking calls
    → length text ≤ total calls
    → send_loop (calls ++ more) text sent ≡ returned (sent ++ text) true
send_loop_whole calls more [] sent h fits =
    send_loop-nil (calls ++ more) sent ∙ ap (λ s. returned s true) (sym (append-nil sent))
send_loop_whole [] more (c ∷ text) sent h fits = absurd (omega arith)
send_loop_whole (took n ∷ calls) more (c ∷ text) sent h fits =
    let left = length-drop n (c ∷ text) in
    send_loop-took n (calls ++ more) (c ∷ text) sent h.0 (omega arith)
    ∙ send_loop_whole calls more (drop n (c ∷ text)) (sent ++ take n (c ∷ text)) h.1
        (omega (arith, left, fits))
    ∙ ap (λ s. returned s true)
        (append_assoc sent (take n (c ∷ text)) (drop n (c ∷ text))
          ∙ ap (λ s. sent ++ s) (take-drop n (c ∷ text)))
send_loop_whole (interrupted ∷ calls) more (c ∷ text) sent h fits =
    send_loop-interrupted (calls ++ more) (c ∷ text) sent
    ∙ send_loop_whole calls more (c ∷ text) sent h.1 fits
send_loop_whole (would_block ∷ calls) more (c ∷ text) sent h fits = absurd h.0
send_loop_whole (bad_socket ∷ calls) more (c ∷ text) sent h fits = absurd h.0
send_loop_whole (broken e ∷ calls) more (c ∷ text) sent h fits = absurd h.0

send_loop_part :
    (calls more : List SendCall) (text sent : Bytes)
    → All IsWorking calls
    → total calls < length text
    → send_loop (calls ++ more) text sent
      ≡ send_loop more (drop (total calls) text) (sent ++ take (total calls) text)
send_loop_part [] more text sent h fits = ap (send_loop more text) (sym (append-nil sent))
send_loop_part (took n ∷ calls) more text sent h fits =
    let left = length-drop n text in
    send_loop-took n (calls ++ more) text sent h.0 (omega arith)
    ∙ send_loop_part calls more (drop n text) (sent ++ take n text) h.1 (omega (arith, left, fits))
    ∙ rw (take-add n (total calls) text, drop-add n (total calls) text, append_assoc) refl
send_loop_part (interrupted ∷ calls) more [] sent h fits = absurd (omega arith)
send_loop_part (interrupted ∷ calls) more (c ∷ text) sent h fits =
    send_loop-interrupted (calls ++ more) (c ∷ text) sent
    ∙ send_loop_part calls more (c ∷ text) sent h.1 fits
send_loop_part (would_block ∷ calls) more text sent h fits = absurd h.0
send_loop_part (bad_socket ∷ calls) more text sent h fits = absurd h.0
send_loop_part (broken e ∷ calls) more text sent h fits = absurd h.0

left_over : (n : ℕ) (text : Bytes) → n < length text → 0 < length (drop n text)
left_over n text h = omega (arith, length-drop n text)

stop_send :
    (more : List SendCall) (text sent : Bytes)
    → 0 < length text
    → (send_loop (would_block ∷ more) text sent ≡ returned sent true)
      × (send_loop (bad_socket ∷ more) text sent ≡ returned sent true)
      × (send_loop (took 0 ∷ more) text sent ≡ returned sent false)
      × ((e : String) → send_loop (broken e ∷ more) text sent ≡ threw e sent)
unfolding send_loop
stop_send more [] sent h = absurd (omega arith)
stop_send more (c ∷ text) sent h = (refl, refl, refl, λ e. refl)

-- How `send` ends behind some calls that have taken bytes or were interrupted.
pub record Ends (calls more : List SendCall) (text : Bytes) : Type 0 where
  pub whole : length text ≤ total calls → send (calls ++ more) text ≡ returned text true
  pub blocked :
      total calls < length text
      → send (calls ++ would_block ∷ more) text ≡ returned (take (total calls) text) true
  pub unknown :
      total calls < length text
      → send (calls ++ bad_socket ∷ more) text ≡ returned (take (total calls) text) true
  pub gone :
      total calls < length text
      → send (calls ++ took 0 ∷ more) text ≡ returned (take (total calls) text) false
  pub fails :
      (e : String)
      → total calls < length text
      → send (calls ++ broken e ∷ more) text ≡ threw e (take (total calls) text)

-- A text of at most SSIZE_MAX bytes is sent, and the calls of the system so far have taken bytes or
-- were interrupted. Once they have taken enough, `send` returns with the whole text sent and asks for
-- no more. Before, a socket that would block or is not there ends it with the first bytes sent and
-- the connection kept, a closed one with the connection gone, and another error with a throw.
pub send-Ends :
    (calls more : List SendCall) (text : Bytes)
    → length text < 2 ^ 63
    → All IsWorking calls
    → Ends calls more text
unfolding send
send-Ends calls more text short working =
    let fits : ltb (2 ^ 63 - 1) (length text) ≡ false = ground arith in
    let n = total calls in
    let part =
      λ (rest : List SendCall) (h : n < length text). send_loop_part calls rest text [] working h in
    let stop =
      λ (h : n < length text). stop_send more (drop n text) (take n text) (left_over n text h) in
    record {
      whole = λ h. rw fits (send_loop_whole calls more text [] working h);
      blocked = λ h. rw fits (part (would_block ∷ more) h ∙ (stop h).0);
      unknown = λ h. rw fits (part (bad_socket ∷ more) h ∙ (stop h).1);
      gone = λ h. rw fits (part (took 0 ∷ more) h ∙ (stop h).2);
      fails = λ e h. rw fits (part (broken e ∷ more) h ∙ (stop h).3 e);
    }
