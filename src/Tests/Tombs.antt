-- ===== src/Tests/Tombs.antt =====
-- Tables that deletions have filled with tombstones.
use kvjet.Prelude.{
  Bool-contra, ℕ, false, List, [], ◌∷◌, none, ◌≡◌, refl, Bytes, codes, arith, zero, suc, All,
  String, ◌=ᵇ◌,
}
use kvjet.Prelude.Outcome.{Outcome, ok, raised, ◌>>=◌}
use kvjet.Store.HashTable.{
  deleted, is_occupied, Node, HashTable, gethash, find, probe, get, set, erase, checkexist, new,
}
use kvjet.Store.HashTable.Slot.{matches, at_slot}
use kvjet.Store.HashTable.Placed.{lookup}
use kvjet.Store.HashTable.Search.{IsValid}
use kvjet.Store.HashTable.Vacancy.{empties}
use kvjet.Store.HashTable.Growth.{get_throws}

abbrev dflt : ℕ
dflt = 0

-- Every key is set and taken out again.
abbrev churn : List Bytes → HashTable ℕ → Outcome (HashTable ℕ)
churn [] t = ok t
churn (key ∷ keys) t = set dflt t key 0 >>= λ u. erase u key >>= λ r. churn keys r.0

abbrev buried : String → Node ℕ
buried s = record { key = codes s; value = 0; status = deleted }

abbrev tombs : HashTable ℕ
tombs = record {
  buckets =
      buried "a"
      ∷ buried "j"
      ∷ buried "g"
      ∷ buried "p"
      ∷ buried "m"
      ∷ buried "f"
      ∷ buried "c"
      ∷ buried "l"
      ∷ buried "i"
      ∷ buried "b"
      ∷ buried "o"
      ∷ buried "h"
      ∷ buried "e"
      ∷ buried "n"
      ∷ buried "k"
      ∷ buried "d"
      ∷ [];
  bucketsz = 16;
  sz = 0;
}

-- Sixteen keys, set and erased in turn, leave no empty slot behind.
churned :
    churn
      (codes "a"
        ∷ codes "b"
        ∷ codes "c"
        ∷ codes "d"
        ∷ codes "e"
        ∷ codes "f"
        ∷ codes "g"
        ∷ codes "h"
        ∷ codes "i"
        ∷ codes "j"
        ∷ codes "k"
        ∷ codes "l"
        ∷ codes "m"
        ∷ codes "n"
        ∷ codes "o"
        ∷ codes "p"
        ∷ [])
      (new dflt)
    ≡ ok tombs
unfolding set new find probe gethash erase ◌=ᵇ◌
churned = refl

dead_lacks :
    (bs : List (Node ℕ)) (i : ℕ) (key : Bytes)
    → All (λ node. is_occupied node.status ≡ false) bs
    → matches key (at_slot dflt bs i) ≡ false
dead_lacks [] i key h = refl
dead_lacks (node ∷ bs) zero key h = rw h.0 refl
dead_lacks (node ∷ bs) (suc i) key h = dead_lacks bs i key h.1

tombs_lack : (i : ℕ) (key : Bytes) → matches key (at_slot dflt tombs.buckets i) ≡ false
tombs_lack i key = dead_lacks tombs.buckets i key (
  refl,
  (
    refl,
    (
      refl,
      (
        refl,
        (
          refl,
          (
            refl,
            (refl, (refl, (refl, (refl, (refl, (refl, (refl, (refl, (refl, (refl, tt)))))))))),
          ),
        ),
      ),
    ),
  ),
)

tombs-IsValid : IsValid dflt tombs
tombs-IsValid = record {
  width = refl;
  placed = record {
    roomy = omega arith;
    reached = λ i key h. absurd (Bool-contra _ h (tombs_lack i key));
    unique = λ i j key h _. absurd (Bool-contra _ h (tombs_lack i key));
  };
}

tombs_empties : empties tombs.buckets ≡ 0
unfolding empties
tombs_empties = refl

tombs_lookup : lookup tombs.buckets (codes "q") ≡ none
unfolding lookup
tombs_lookup = refl

get_throws_example :
    (get tombs (codes "q") ≡ raised "Empty position not found")
    × (set dflt tombs (codes "q") 1 ≡ raised "Empty position not found")
    × (erase tombs (codes "q") ≡ raised "Empty position not found")
    × (checkexist tombs (codes "q") ≡ raised "Empty position not found")
get_throws_example = get_throws dflt tombs (codes "q") 1 tombs-IsValid tombs_empties tombs_lookup
