-- ===== src/Resp/Parser/Frame.antt =====
-- The parser never looks at the results that wait in its queue.
use kvjet.Prelude.{
  ℕ, Bool, true, false, List, [], ◌∷◌, ◌++◌, Bytes, ◌≡◌, refl, sym, ap, ◌∙◌, arith, append_assoc,
  append-nil, Bool-cases, inl, inr, if◌then◌else◌,
}
use kvjet.Prelude.Outcome.{Outcome, ok_inj, ok, raised, undefined, ◌>>=◌}
use kvjet.Resp.Value.{Value}
use kvjet.Resp.Parser.Digits.{append-append}
use kvjet.Resp.Parser.{
  RespParser, RespState, ParseState, push, step, append, is_pending, append_to, is_complete,
  on_wait_type, on_read_size, on_wait_lfsz, on_read_line, on_read_bulk, hand_on, step_in, wait_type,
  read_size, wait_lfsz, wait_nil, wait_nil_cr, read_line, wait_lf, read_bulk,
}

-- The parser with results before those of its queue.
abbrev pub behind : List Value → RespParser → RespParser
behind q p = record p { queue = q ++ p.queue }

-- A call that does the same behind other results.
abbrev Frames : (RespParser → Outcome RespParser) → Type 0
Frames f = (q : List Value) (p : RespParser) → f (behind q p) ≡ (f p >>= λ r. ok (behind q r))

frame_if {ℓ κ} :
    {A : Type ℓ} {B : Type κ} (g : A → Outcome B) (b : Bool) (x y : Outcome A) (x₁ y₁ : Outcome B)
    → x₁ ≡ (x >>= g)
    → y₁ ≡ (y >>= g)
    → (if b then x₁ else y₁) ≡ ((if b then x else y) >>= g)
frame_if g true x y x₁ y₁ p q = p
frame_if g false x y x₁ y₁ p q = q

frame_bind {ℓ κ ι} :
    {A : Type ℓ} {B : Type κ} {C : Type ι} (g : A → Outcome B) (m : Outcome C) (f : C → Outcome A)
    (f₁ : C → Outcome B)
    → ((c : C) → f₁ c ≡ (f c >>= g))
    → (m >>= f₁) ≡ (m >>= f >>= g)
frame_bind g (ok c) f f₁ h = h c
frame_bind g (raised e) f f₁ h = refl
frame_bind g undefined f f₁ h = refl

push-frame :
    (s : RespState) (stack : List RespState) (q queue : List Value)
    → push s stack (q ++ queue) ≡ (push s stack queue >>= λ r. ok (r.0, q ++ r.1))
unfolding push
push-frame s [] q queue = elim (Bool-cases (is_pending s)) [
  | inl e ↦ rw e refl
  | inr e ↦ rw (e, append_assoc) refl
]
push-frame s (top ∷ rest) q queue = frame_if _ (is_pending s) _ _ _ _ refl (
    frame_bind _ (append_to top.value s.value) _ _ λ v.
      frame_if _ (is_complete v top.total) _ _ _ _
        (push-frame (record { value = v; total = top.total }) rest q queue) refl)

hand_on-frame : Frames hand_on
hand_on-frame q p =
    ap (λ m. m >>= handed q) (push-frame p.node p.stack q p.queue)
    ∙ rest (push p.node p.stack p.queue)
  where
    handed : List Value → List RespState × List Value → Outcome RespParser
    handed q r = ok (record p { stack = r.0; queue = r.1; state = wait_type })

    rest :
        (m : Outcome (List RespState × List Value))
        → (m >>= (λ r. ok (r.0, q ++ r.1)) >>= handed q) ≡ (m >>= handed q >>= λ r. ok (behind q r))
    rest (ok r) = refl
    rest (raised e) = refl
    rest undefined = refl

on_wait_type-frame : (c : ℕ) → Frames (λ p. on_wait_type p c)
unfolding on_wait_type
on_wait_type-frame c q p = ground arith

on_read_size-frame : (c : ℕ) → Frames (λ p. on_read_size p c)
unfolding on_read_size
on_read_size-frame c q p = ground arith

on_wait_lfsz-frame : (c : ℕ) → Frames (λ p. on_wait_lfsz p c)
unfolding on_wait_lfsz
on_wait_lfsz-frame c q p = ground (arith, hand_on-frame q p)

on_read_line-frame : (c : ℕ) → Frames (λ p. on_read_line p c)
unfolding on_read_line
on_read_line-frame c q p = ground arith

on_read_bulk-frame : (c : ℕ) → Frames (λ p. on_read_bulk p c)
unfolding on_read_bulk
on_read_bulk-frame c q p = ground arith

step_in-frame : (st : ParseState) (c : ℕ) → Frames (λ p. step_in st p c)
step_in-frame wait_type c q p = on_wait_type-frame c q p
step_in-frame read_size c q p = on_read_size-frame c q p
step_in-frame wait_lfsz c q p = on_wait_lfsz-frame c q p
step_in-frame wait_nil c q p = ground arith
step_in-frame wait_nil_cr c q p = ground arith
step_in-frame read_line c q p = on_read_line-frame c q p
step_in-frame wait_lf c q p = ground (arith, hand_on-frame q p)
step_in-frame read_bulk c q p = on_read_bulk-frame c q p

step-frame : (c : ℕ) → Frames (λ p. step p c)
unfolding step
step-frame c q p = step_in-frame p.state c q p

pub append-frame : (cs : Bytes) → Frames (append cs)
unfolding append
append-frame [] q p = refl
append-frame (c ∷ cs) q p =
    ap (λ m. m >>= append cs) (step-frame c q p) ∙ rest (append-frame cs q) (step p c)
  where
    rest :
        ((r : RespParser) → append cs (behind q r) ≡ (append cs r >>= λ x. ok (behind q x)))
        → (m : Outcome RespParser)
        → (m >>= (λ r. ok (behind q r)) >>= append cs) ≡ (m >>= append cs >>= λ r. ok (behind q r))
    rest ih (ok r) = ih r
    rest ih (raised e) = refl
    rest ih undefined = refl

-- A text in two parts, with the results of the first part taken out between them.
pub record Parts (b bs : Bytes) (p r : RespParser) : Type 0 where
  pub middle : RespParser
  pub last : RespParser
  pub first_part : append b p ≡ ok middle
  pub second_part : append bs (record middle { queue = [] }) ≡ ok last
  pub results : r.queue ≡ middle.queue ++ last.queue

pub append-Parts : (b bs : Bytes) (p r : RespParser) → append (b ++ bs) p ≡ ok r → Parts b bs p r
append-Parts b bs p r run = first (append b p) refl (sym (append-append b bs p) ∙ run)
  where
    second :
        (q : RespParser) (m : Outcome RespParser)
        → append b p ≡ ok q
        → append bs (record q { queue = [] }) ≡ m
        → (m >>= λ x. ok (behind q.queue x)) ≡ ok r
        → Parts b bs p r
    second q (ok l) e f h = record {
      middle = q;
      last = l;
      first_part = e;
      second_part = f;
      results = ap (λ x. x.queue) (sym (ok_inj h));
    }
    second q (raised x) e f h = absurd (cc)
    second q undefined e f h = absurd (cc)

    first : (m : Outcome RespParser) → append b p ≡ m → (m >>= append bs) ≡ ok r → Parts b bs p r
    first (ok q) e h =
        let split : behind q.queue (record q { queue = [] }) ≡ q =
          λ i. record q { queue = append-nil q.queue i } in
        second q (append bs (record q { queue = [] })) e refl
          (sym (append-frame bs q.queue (record q { queue = [] })) ∙ ap (append bs) split ∙ h)
    first (raised x) e h = absurd (cc)
    first undefined e h = absurd (cc)
