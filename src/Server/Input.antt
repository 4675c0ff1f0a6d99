-- ===== src/Server/Input.antt =====
-- server/Server: what a client can do to the event loop.
use kvjet.Prelude.{
  ℕ, Bool, false, ◌||◌, List, [], ◌∷◌, ◌++◌, map, some, none, Bytes, ◌==◌, ◌≡◌, refl, ◌∙◌, ap,
  arith,
}
use kvjet.Prelude.Assoc.{find, insert}
use kvjet.Prelude.Outcome.{Outcome, ok, raised, ◌>>=◌}
use kvjet.Resp.Value.{Value}
use kvjet.Resp.Parser.{RespParser, wait_type, on_wait_type, step, step_in, parser_error}
use kvjet.Resp.Parser.{append as parse}
use kvjet.Server.{Server, handles}
use kvjet.Server.Loop.{receive, epoll_step}

-- The bytes that a value can begin with.
abbrev pub begins_value : ℕ → Bool
begins_value c = c == b'+' || c == b'-' || c == b':' || c == b'$' || c == b'*'

on_wait_type-garbage :
    (p : RespParser) (c : ℕ) → begins_value c ≡ false → on_wait_type p c ≡ parser_error
unfolding on_wait_type
on_wait_type-garbage p c bad = ground (arith, bad)

parse-garbage :
    (p : RespParser) (c : ℕ) (text : Bytes)
    → p.state ≡ wait_type
    → begins_value c ≡ false
    → parse (c ∷ text) p ≡ parser_error
unfolding parse step
parse-garbage p c text h bad =
    ap (λ st. step_in st p c >>= parse text) h
    ∙ ap (λ m. m >>= parse text) (on_wait_type-garbage p c bad)

receive-garbage :
    (fd c : ℕ) (text : Bytes) (p : RespParser) (s : Server)
    → find fd s.connections ≡ some p
    → p.state ≡ wait_type
    → begins_value c ≡ false
    → receive fd (c ∷ text) s ≡ parser_error
unfolding receive
receive-garbage fd c text p s found between bad =
    ap (λ o. elim o [ none ↦ ok s | some q ↦ parse (c ∷ text) q >>= queue_tasks ]) found
    ∙ ap (λ m. m >>= queue_tasks) (parse-garbage p c text between bad)
  where
    queue_tasks : RespParser → Outcome Server
    queue_tasks q = ok (record s {
      connections = insert fd (record q { queue = [] }) s.connections;
      tasks = s.tasks ++ map (handles fd) q.queue;
    })

-- One byte stops the server: if a connection that is between two values delivers a text whose first
-- byte begins no value, the step of the event loop throws, which ends `run`, whatever else the
-- server holds and whatever follows.
pub epoll_step-throws :
    (dflt : Value) (dial : Bytes → ℕ → Outcome (ℕ × RespParser)) (draws : ℕ → ℕ → ℕ) (rand : ℕ → ℕ)
    (now fd c : ℕ) (text : Bytes) (events : List (ℕ × Bytes)) (p : RespParser) (s : Server)
    → find fd s.connections ≡ some p
    → p.state ≡ wait_type
    → begins_value c ≡ false
    → epoll_step dflt dial draws rand now ((fd, c ∷ text) ∷ events) s ≡ raised "Parser Error!!"
unfolding epoll_step
epoll_step-throws dflt dial draws rand now fd c text events p s found between bad =
    rw (receive-garbage fd c text p s found between bad) refl
