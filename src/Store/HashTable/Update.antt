-- ===== src/Store/HashTable/Update.antt =====
-- kvstore/HashTable: `set` and `erase` as operations on the map that the table stands for.
use kvjet.Prelude.{
  is_some, ℕ, zero, suc, ◌+◌, ◌-◌, ◌*◌, ◌<◌, ◌≤◌, Bool, true, false, List, [], ◌∷◌, none, some, ◌≡◌,
  refl, sym, ap, ◌∙◌, inl, inr, Bytes, length, ◌=ᵇ◌, arith, Bool-cases, if◌then◌else◌, subst, =ᵇ→eq,
  length-set, ltb,
}
use kvjet.Prelude.{set as write}
use kvjet.Prelude.Outcome.{ok, index-get_or, Returns}
use kvjet.Store.HashTable.{
  Stat, deleted, empty, occupied, is_occupied, Node, empty_node, HashTable, set, erase, rehash, new,
}
use kvjet.Store.HashTable.Slot.{is_empty, matches, at_slot}
use kvjet.Store.HashTable.Placed.{lookup, Target}
use kvjet.Store.HashTable.Search.{IsValid}
use kvjet.Store.HashTable.Vacancy.{empties, Located, find-Located}
use kvjet.Store.HashTable.Write.{matches_refl}
use kvjet.Store.HashTable.Bury.{bury-IsPlaced, bury-lookup}
use kvjet.Store.HashTable.Map.{put, entry}
use kvjet.Store.HashTable.Rehash.{rehash-Rehashed}

-- How full the table is: every slot that is not empty counts as an entry, and the load is at most 3/4.
pub record IsLoaded {ℓ} {V : Type ℓ} (t : HashTable V) : Type 0 where
  pub counted : t.bucketsz ≤ empties t.buckets + t.sz
  pub load : 4 * t.sz ≤ 3 * t.bucketsz

module _ {ℓ} {V : Type ℓ} (dflt : V) where
  -- The table after a `set`.
  pub record Stored (t : HashTable V) (key : Bytes) (value : V) (u : HashTable V) : Type ℓ where
    pub valid : IsValid dflt u
    pub maps :
        (k : Bytes) → lookup u.buckets k ≡ (if k =ᵇ key then some value else lookup t.buckets k)
    pub loaded : IsLoaded t → IsLoaded u
    pub room : empties t.buckets ≤ suc (empties u.buckets)

  -- A slot that is occupied stays so, whatever value it takes.
  empties-update :
      (bs : List (Node V)) (i : ℕ) (node : Node V)
      → i < length bs
      → is_empty (at_slot dflt bs i).status ≡ false
      → is_empty node.status ≡ false
      → empties (write bs i node) ≡ empties bs
  unfolding empties
  empties-update [] i node h old new = absurd (omega arith)
  empties-update (x ∷ bs) zero node h old new = ground (arith, old, new)
  empties-update (x ∷ bs) (suc i) node h old new =
      ground (arith, old, new, empties-update bs i node (omega arith) old new)

  occupied_of : (st : Stat) → is_occupied st ≡ true → st ≡ occupied
  occupied_of deleted h = cc
  occupied_of empty h = cc
  occupied_of occupied h = refl

  set_replaces :
      (t : HashTable V) (key : Bytes) (value : V) (valid : IsValid dflt t) (l : Located dflt t key)
      → is_occupied (at_slot dflt t.buckets l.at).status ≡ true
      → Stored t key value (record t {
        buckets = write t.buckets l.at (record (at_slot dflt t.buckets l.at) { value = value });
      })
  set_replaces t key value valid l e =
      let p = at_slot dflt t.buckets l.at in
      let taken = occupied_of p.status e in
      let same : p.key ≡ key = l.target.own p.key (matches_refl p taken) in
      let q =
        put dflt t (record p { value = value }) l.at t.sz valid
          (subst (λ x. Target dflt t.buckets x l.at) (sym same) l.target) taken in
      record {
        valid = q.valid;
        maps = λ k. q.maps k ∙ ap (λ x. if k =ᵇ x then some value else lookup t.buckets k) same;
        loaded = λ h. record {
          counted = omega (
            arith,
            h.counted,
            empties-update t.buckets l.at (record p { value = value }) l.inside (ap is_empty taken)
                (ap is_empty taken),
          );
          load = h.load;
        };
        room = q.room;
      }

  set_adds :
      (t : HashTable V) (key : Bytes) (value : V) (valid : IsValid dflt t) (l : Located dflt t key)
      → Returns
          (let u : HashTable V = record t {
            buckets = write t.buckets l.at (entry dflt key value);
            sz = t.sz + 1;
          } in
            if ltb (3 * t.bucketsz) (4 * u.sz) then rehash dflt u else ok u)
          (Stored t key value)
  set_adds t key value valid l =
      let q = put dflt t (entry dflt key value) l.at (t.sz + 1) valid l.target refl in
      let u : HashTable V = record t {
        buckets = write t.buckets l.at (entry dflt key value);
        sz = t.sz + 1;
      } in
      elim (Bool-cases (ltb (3 * t.bucketsz) (4 * u.sz))) [
        | inl e ↦
            let m = rehash-Rehashed dflt u q.valid in
            (
              m.0,
              rw e m.1,
              record {
                valid = m.2.valid;
                maps = λ k. m.2.maps k ∙ q.maps k;
                loaded = λ h. record {
                  counted = omega (arith, h.counted, m.2.twice, m.2.same_size, m.2.room, q.room);
                  load =
                      omega
                        (arith, h.load, m.2.twice, m.2.same_size, valid.width, valid.placed.roomy);
                };
                room = omega (arith, m.2.room, q.room);
              },
            )
        | inr e ↦ (
          u,
          rw e refl,
          record {
            valid = q.valid;
            maps = q.maps;
            loaded = λ h. record {
              counted = omega (arith, h.counted, q.room);
              load = ground (arith, e);
            };
            room = q.room;
          },
        )
      ]

  -- In a valid table with an empty slot left `set` returns a valid table, whose map has the new value for the key.
  pub set-Stored :
      (t : HashTable V) (key : Bytes) (value : V)
      → IsValid dflt t
      → 0 < empties t.buckets
      → Returns (set dflt t key value) (Stored t key value)
  unfolding set
  set-Stored t key value valid room =
      let l = find-Located dflt t key valid room in
      elim (Bool-cases (is_occupied (at_slot dflt t.buckets l.at).status)) [
        | inl e ↦ (
          _,
          rw (l.answer, index-get_or t.buckets l.at (empty_node dflt) l.inside, e) refl,
          set_replaces t key value valid l e,
        )
        | inr e ↦
            let m = set_adds t key value valid l in
            (m.0, rw (l.answer, index-get_or t.buckets l.at (empty_node dflt) l.inside, e) m.1, m.2)
      ]

  -- The table after an `erase`, and what `erase` says.
  pub record Erased (t : HashTable V) (key : Bytes) (r : HashTable V × Bool) : Type ℓ where
    pub valid : IsValid dflt r.0
    pub found : r.1 ≡ is_some (lookup t.buckets key)
    pub maps : (k : Bytes) → lookup r.0.buckets k ≡ (if k =ᵇ key then none else lookup t.buckets k)
    pub room : empties t.buckets ≤ empties r.0.buckets

  -- In a valid table with an empty slot left `erase` returns, says whether the key had a value, and takes this value
  -- and no other from the map.
  pub erase-Erased :
      (t : HashTable V) (key : Bytes)
      → IsValid dflt t
      → 0 < empties t.buckets
      → Returns (erase t key) (Erased t key)
  unfolding erase
  erase-Erased t key valid room =
      let l = find-Located dflt t key valid room in
      let p = at_slot dflt t.buckets l.at in
      let reads = index-get_or t.buckets l.at (empty_node dflt) l.inside in
      elim (Bool-cases (is_occupied p.status)) [
        | inl e ↦
            let holds : matches key p ≡ true =
              subst (λ x. matches x p ≡ true)
                (l.target.own p.key (matches_refl p (occupied_of p.status e)))
                (matches_refl p (occupied_of p.status e)) in
            let node : Node V = record p { status = deleted } in
            (
              (record t { sz = t.sz - 1; buckets = write t.buckets l.at node }, true),
              rw (l.answer, reads, e) refl,
              record {
                valid = record {
                  width = length-set t.buckets l.at node ∙ valid.width;
                  placed = bury-IsPlaced dflt t.buckets l.at key node valid.placed holds refl;
                };
                found = rw (l.look, e) refl;
                maps = bury-lookup dflt t.buckets l.at key node valid.placed holds refl;
                room = omega (
                  arith,
                  empties-update t.buckets l.at node l.inside (ap is_empty (occupied_of p.status e))
                      refl,
                );
              },
            )
        | inr e ↦ (
          (t, false),
          rw (l.answer, reads, e) refl,
          record {
            valid = valid;
            found = rw (l.look, e) refl;
            maps = λ k. elim (Bool-cases (k =ᵇ key)) [
              | inl same ↦ rw same (ap (lookup t.buckets) (=ᵇ→eq k key same) ∙ l.look ∙ rw e refl)
              | inr other ↦ rw other refl
            ];
            room = omega arith;
          },
        )
      ]
