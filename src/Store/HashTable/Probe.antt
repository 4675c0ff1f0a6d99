-- ===== src/Store/HashTable/Probe.antt =====
-- The loop of `find` in kvstore/HashTable.cpp: what it has passed, and how it ends.
use native.Mathlib.Nat.{mod-lt}
use kvjet.Prelude.{
  ℕ, zero, suc, ◌+◌, ◌%◌, ◌<◌, ◌≤◌, true, false, List, Option, none, some, ◌≡◌, ◌≢◌, refl, sym, ap,
  ◌∙◌, inl, inr, Bytes, length, ◌==◌, arith, Bool-cases, if◌then◌else◌, subst, ==_iff,
}
use kvjet.Prelude.Outcome.{Outcome, ok, raised, index-get_or}
use kvjet.Store.HashTable.{
  Stat, deleted, empty, occupied, is_occupied, Node, mark, first_or, probe, empty_node,
}
use kvjet.Store.HashTable.Slot.{
  is_empty, slot, next-slot, slot_away, slot_back, matches, Passes, at_slot,
}

-- One round of the loop.
module _ {ℓ} {V : Type ℓ} (dflt : V) (bs : List (Node V)) (key : Bytes) where
  probe_empty :
      (r n raw idx : ℕ) (fd : Option ℕ)
      → idx < length bs
      → is_empty (at_slot dflt bs idx).status ≡ true
      → probe (suc r) bs n key raw idx fd ≡ ok (first_or fd idx)
  unfolding probe
  probe_empty r n raw idx fd h e = rw (index-get_or bs idx (empty_node dflt) h) (ground (arith, e))

  probe_match :
      (r n raw idx : ℕ) (fd : Option ℕ)
      → idx < length bs
      → matches key (at_slot dflt bs idx) ≡ true
      → probe (suc r) bs n key raw idx fd ≡ ok idx
  unfolding probe
  probe_match r n raw idx fd h e = rw (index-get_or bs idx (empty_node dflt) h) (ground (arith, e))

  probe_pass :
      (r n raw idx : ℕ) (fd : Option ℕ)
      → idx < length bs
      → Passes key (at_slot dflt bs idx)
      → probe (suc r) bs n key raw idx fd ≡ (
          if (idx + 1) % n == raw
          then raised "Empty position not found"
          else probe r bs n key raw ((idx + 1) % n) (mark (at_slot dflt bs idx).status idx fd))
  unfolding probe
  probe_pass r n raw idx fd h e = rw (index-get_or bs idx (empty_node dflt) h) (ground (arith, e))

  -- The slots of the first `d` steps are passed.
  abbrev pub Passed : ℕ → ℕ → Type 0
  Passed raw d = (e : ℕ) → e < d → Passes key (at_slot dflt bs (slot (length bs) raw e))

  -- What is remembered is a tombstone that the steps before `d` have seen.
  abbrev pub Remembers : ℕ → ℕ → Option ℕ → Type 0
  Remembers raw d none = Unit
  Remembers raw d (some i) =
      (e : ℕ) × (e < d)
      × (i ≡ slot (length bs) raw e)
      × (is_occupied (at_slot dflt bs i).status ≡ false)

  -- How the search from `raw` ends: at the slot of the key; at the first empty slot, which it
  -- answers with this slot or with a tombstone before it; with an exception after a full round.
  pub record Hit (raw : ℕ) (m : Outcome ℕ) : Type 0 where
    pub at : ℕ
    pub near : at < length bs
    pub passed : Passed raw at
    pub found : matches key (at_slot dflt bs (slot (length bs) raw at)) ≡ true
    pub answer : m ≡ ok (slot (length bs) raw at)

  pub record Free (raw : ℕ) (m : Outcome ℕ) : Type 0 where
    pub at : ℕ
    pub near : at < length bs
    pub passed : Passed raw at
    pub hole : is_empty (at_slot dflt bs (slot (length bs) raw at)).status ≡ true
    pub use_at : ℕ
    pub before : use_at ≤ at
    pub vacant : is_occupied (at_slot dflt bs (slot (length bs) raw use_at)).status ≡ false
    pub answer : m ≡ ok (slot (length bs) raw use_at)

  pub record Full (raw : ℕ) (m : Outcome ℕ) : Type 0 where
    pub passed : Passed raw (length bs)
    pub answer : m ≡ raised "Empty position not found"

  pub data Ending (raw : ℕ) (m : Outcome ℕ) : Type 0 where
    hit : Hit raw m → Ending raw m
    free : Free raw m → Ending raw m
    full : Full raw m → Ending raw m

  Passed-suc :
      (raw d : ℕ)
      → Passed raw d
      → Passes key (at_slot dflt bs (slot (length bs) raw d))
      → Passed raw (suc d)
  Passed-suc raw d before now e h = elim (Bool-cases (e == d)) [
    | inl same ↦
        subst (λ x. Passes key (at_slot dflt bs (slot (length bs) raw x)))
          (sym ((==_iff e d).0 same)) now
    | inr other ↦ before e (ground (arith, other))
  ]

  vacant_of_empty : (st : Stat) → is_empty st ≡ true → is_occupied st ≡ false
  vacant_of_empty empty h = refl
  vacant_of_empty deleted h = refl
  vacant_of_empty occupied h = cc

  Remembers-suc : (raw d : ℕ) (fd : Option ℕ) → Remembers raw d fd → Remembers raw (suc d) fd
  Remembers-suc raw d none h = tt
  Remembers-suc raw d (some i) (e, lower, same, vacant) = (e, omega arith, same, vacant)

  Remembers-mark :
      (raw d : ℕ) (st : Stat) (fd : Option ℕ)
      → (at_slot dflt bs (slot (length bs) raw d)).status ≡ st
      → Remembers raw d fd
      → Remembers raw (suc d) (mark st (slot (length bs) raw d) fd)
  Remembers-mark raw d deleted none e h = (d, omega arith, refl, ap is_occupied e)
  Remembers-mark raw d deleted (some i) e h = Remembers-suc raw d (some i) h
  Remembers-mark raw d empty fd e h = Remembers-suc raw d fd h
  Remembers-mark raw d occupied fd e h = Remembers-suc raw d fd h

  probe_last :
      (r n raw idx : ℕ) (fd : Option ℕ)
      → idx < length bs
      → Passes key (at_slot dflt bs idx)
      → (idx + 1) % n ≡ raw
      → probe (suc r) bs n key raw idx fd ≡ raised "Empty position not found"
  probe_last r n raw idx fd h e back = probe_pass r n raw idx fd h e ∙ (rw (back) (ground arith))

  probe_next :
      (r n raw idx next : ℕ) (fd : Option ℕ)
      → idx < length bs
      → Passes key (at_slot dflt bs idx)
      → (idx + 1) % n ≡ next
      → next ≢ raw
      → probe (suc r) bs n key raw idx fd
        ≡ probe r bs n key raw next (mark (at_slot dflt bs idx).status idx fd)
  probe_next r n raw idx next fd h e go away =
      probe_pass r n raw idx fd h e ∙ (rw (go) (ground arith))

  found-Free :
      (r raw d : ℕ) (fd : Option ℕ)
      → d < length bs
      → slot (length bs) raw d < length bs
      → Passed raw d
      → Remembers raw d fd
      → is_empty (at_slot dflt bs (slot (length bs) raw d)).status ≡ true
      → Free raw (probe (suc r) bs (length bs) key raw (slot (length bs) raw d) fd)
  found-Free r raw d none near inside passed _ hole = record {
    at = d;
    near = near;
    passed = passed;
    hole = hole;
    use_at = d;
    before = omega arith;
    vacant = vacant_of_empty _ hole;
    answer = probe_empty r (length bs) raw _ none inside hole;
  }
  found-Free r raw d (some i) near inside passed (e, lower, same, vacant) hole = record {
    at = d;
    near = near;
    passed = passed;
    hole = hole;
    use_at = e;
    before = omega arith;
    vacant = subst (λ x. is_occupied (at_slot dflt bs x).status ≡ false) same vacant;
    answer = probe_empty r (length bs) raw _ (some i) inside hole ∙ ap ok same;
  }

  -- One round, given what becomes of a search that goes on behind the slot.
  turn :
      (r raw d : ℕ) (fd : Option ℕ)
      → d < length bs
      → slot (length bs) raw d < length bs
      → Passed raw d
      → Remembers raw d fd
      → (Passes key (at_slot dflt bs (slot (length bs) raw d))
          → Ending raw (probe (suc r) bs (length bs) key raw (slot (length bs) raw d) fd))
      → Ending raw (probe (suc r) bs (length bs) key raw (slot (length bs) raw d) fd)
  turn r raw d fd near inside passed seen on =
      let i = slot (length bs) raw d in
      elim (Bool-cases (is_empty (at_slot dflt bs i).status)) [
        | inl hole ↦ free (found-Free r raw d fd near inside passed seen hole)
        | inr taken ↦ elim (Bool-cases (matches key (at_slot dflt bs i))) [
          | inl found ↦ hit (record {
            at = d;
            near = near;
            passed = passed;
            found = found;
            answer = probe_match r (length bs) raw i fd inside found;
          })
          | inr other ↦ on (taken, other)
        ]
      ]

  pub walk :
      (r raw d : ℕ) (fd : Option ℕ)
      → raw < length bs
      → d + suc r ≡ length bs
      → Passed raw d
      → Remembers raw d fd
      → Ending raw (probe (suc r) bs (length bs) key raw (slot (length bs) raw d) fd)
  walk zero raw d fd start left passed seen =
      let inside : slot (length bs) raw d < length bs = mod-lt (raw + d) (omega arith) in
      turn zero raw d fd (omega arith) inside passed seen λ now. full (record {
        passed = subst (Passed raw) (omega arith) (Passed-suc raw d passed now);
        answer = probe_last zero (length bs) raw _ fd inside now (
            next-slot (length bs) raw d
            ∙ ap (slot (length bs) raw) (omega arith)
            ∙ slot_back (length bs) raw start);
      })
  walk (suc r) raw d fd start left passed seen =
      let inside : slot (length bs) raw d < length bs = mod-lt (raw + d) (omega arith) in
      turn (suc r) raw d fd (omega arith) inside passed seen λ now.
        subst (Ending raw)
          (sym (
            probe_next (suc r) (length bs) raw _ _ fd inside now (next-slot (length bs) raw d)
              (slot_away (length bs) raw (suc d) start (omega arith) (omega arith))))
          (walk r raw (suc d) _ start (omega arith) (Passed-suc raw d passed now)
            (Remembers-mark raw d _ fd refl seen))
