-- ===== src/Store/HashTable/Slot.antt =====
-- kvstore/HashTable: the slots that a search goes through, and what makes it go on.
use native.Mathlib.Nat.{mod-add-mod, mod-eq_of_lt, add-mod_right, mod-eq-sub-mod}
use kvjet.Prelude.{
  ℕ, suc, ◌+◌, ◌-◌, ◌%◌, ◌<◌, ◌≤◌, Bool, true, false, ◌&&◌, List, ◌≡◌, ◌≢◌, ap, ◌∙◌, inl, inr,
  Bytes, get_or, ◌=ᵇ◌, arith, Bool-cases, ltb, ltb→lt,
}
use kvjet.Store.HashTable.{Stat, empty, is_occupied, Node, empty_node}

abbrev pub is_empty : Stat → Bool
is_empty empty = true
is_empty _ = false

-- The slot that `d` steps from `raw` lead to.
abbrev pub slot : ℕ → ℕ → ℕ → ℕ
slot n raw d = (raw + d) % n

pub next-slot : (n raw d : ℕ) → (slot n raw d + 1) % n ≡ slot n raw (suc d)
next-slot n raw d = mod-add-mod (raw + d) n 1 ∙ ap (λ x. x % n) (omega arith)

-- Fewer than `n` steps do not lead back, `n` steps do.
pub slot_away : (n raw d : ℕ) → raw < n → 0 < d → d < n → slot n raw d ≢ raw
slot_away n raw d h p q e = elim (Bool-cases (ltb (raw + d) n)) [
  | inl low ↦ absurd (omega (arith, e, mod-eq_of_lt (ltb→lt (raw + d) n low)))
  | inr high ↦ absurd (
      let over : n ≤ raw + d = ground (arith, high) in
      let wrapped = mod-eq-sub-mod {n = raw + d} {m = n} over in
      omega (arith, e, wrapped, mod-eq_of_lt {n = raw + d - n} {m = n} (omega arith)))
]

pub slot_back : (n raw : ℕ) → raw < n → slot n raw n ≡ raw
slot_back n raw h = add-mod_right raw n ∙ mod-eq_of_lt h

pub slot_start : (n raw : ℕ) → raw < n → slot n raw 0 ≡ raw
slot_start n raw h = ap (λ x. x % n) (omega arith) ∙ mod-eq_of_lt h

module _ {ℓ} {V : Type ℓ} where
  -- The slot holds the key.
  abbrev pub matches : Bytes → Node V → Bool
  matches key node = is_occupied node.status && (node.key =ᵇ key)

  -- The search goes on behind the slot.
  abbrev pub Passes : Bytes → Node V → Type 0
  Passes key node = (is_empty node.status ≡ false) × (matches key node ≡ false)

  -- The slot `i`, and an empty one out of range.
  abbrev pub at_slot : V → List (Node V) → ℕ → Node V
  at_slot dflt bs i = get_or bs i (empty_node dflt)
