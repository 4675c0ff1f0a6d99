-- ===== src/Store/HashTable/Snapshot/Reload.antt =====
-- kvstore/HashTable: what `readfromfile` makes of the file that `writetofile` has written.
use kvjet.Prelude.{
  ℕ, suc, ◌+◌, ◌<◌, ◌≤◌, ◌^◌, true, List, [], ◌∷◌, ◌++◌, map, Bytes, length, ◌≡◌, refl, sym, ap,
  ◌∙◌, arith, All, replicate, append_assoc, length-append, some, if◌then◌else◌, inl, inr,
  Bool-cases,
}
use kvjet.Prelude.{set as write}
use kvjet.Prelude.Outcome.{Returns, ok, index}
use kvjet.Resp.Value.{Value}
use kvjet.Resp.Encoder.{encode}
use kvjet.Resp.Parser.RoundTrip.{IsEncodable}
use kvjet.Store.HashTable.{Stat, occupied, is_occupied, Node, HashTable, empty_node}
use kvjet.Store.HashTable.Snapshot.{
  u32_bytes, entry_bytes, write_entries, write_to_file, read_entry, read_entries, read_from_file,
}
use kvjet.Store.HashTable.Snapshot.Fields.{read_u32-u32_bytes, read_key-append, read_value-encode}

index-middle {ℓ} :
    {A : Type ℓ} (xs : List A) (y : A) (zs : List A) → index (xs ++ y ∷ zs) (length xs) ≡ ok y
index-middle [] y zs = refl
index-middle (x ∷ xs) y zs = index-middle xs y zs

write-middle {ℓ} :
    {A : Type ℓ} (xs : List A) (y z : A) (zs : List A)
    → write (xs ++ y ∷ zs) (length xs) z ≡ xs ++ z ∷ zs
write-middle [] y z zs = refl
write-middle (x ∷ xs) y z zs = ap (λ ys. x ∷ ys) (write-middle xs y z zs)

-- An entry whose value can be printed and whose parts have sizes of 32 bits.
pub record Fits (node : Node Value) : Type 0 where
  pub printable : IsEncodable node.value
  pub short_key : length node.key < 2 ^ 32
  pub short_value : length (encode node.value) < 2 ^ 32

-- The condition on a slot: its entry fits, if it holds one.
abbrev pub FitsSlot : Node Value → Type 0
FitsSlot node = is_occupied node.status ≡ true → Fits node

-- How many slots are in use.
unfoldable pub in_use {ℓ} : {V : Type ℓ} → List (Node V) → ℕ
in_use [] = 0
in_use (node ∷ bs) = let rest = in_use bs in if is_occupied node.status then suc rest else rest

pub in_use-le {ℓ} : {V : Type ℓ} (bs : List (Node V)) → in_use bs ≤ length bs
unfolding in_use
in_use-le [] = omega arith
in_use-le (node ∷ bs) = ground (arith, in_use-le bs)

-- What is left of a slot: a slot that is not in use becomes empty, a tombstone too.
abbrev pub kept : Value → Node Value → Node Value
kept dflt node = if is_occupied node.status then node else empty_node dflt

-- The table that is read: the same entries in the same slots.
abbrev pub reload : Value → HashTable Value → HashTable Value
reload dflt t = record t { buckets = map (kept dflt) t.buckets }

taken : (s : Stat) → is_occupied s ≡ true → s ≡ occupied
taken occupied e = refl
taken _ e = cc

-- The order of the fields in the file.
layout :
    (i : ℕ) (node : Node Value) (file : Bytes)
    → entry_bytes i node ++ file
      ≡ u32_bytes i
        ++ (u32_bytes (length node.key)
            ++ (u32_bytes (length (encode node.value))
                ++ (node.key ++ (encode node.value ++ file))))
unfolding entry_bytes
layout i node file = simp append_assoc

module _ (dflt : Value) where
  read_entry-entry_bytes :
      (xs zs : List (Node Value)) (node : Node Value) (i : ℕ) (file : Bytes)
      → length xs ≡ i
      → i < 2 ^ 32
      → is_occupied node.status ≡ true
      → Fits node
      → read_entry (entry_bytes i node ++ file) (xs ++ empty_node dflt ∷ zs)
        ≡ ok (xs ++ node ∷ zs, file)
  unfolding read_entry
  read_entry-entry_bytes xs zs node i file e small occ fits =
      let at = sym e in
      rw
        (
          layout i node file,
          read_u32-u32_bytes i _ small,
          at,
          index-middle xs (empty_node dflt) zs,
          read_u32-u32_bytes (length node.key) _ fits.short_key,
          read_u32-u32_bytes (length (encode node.value)) _ fits.short_value,
          read_key-append node.key (encode node.value ++ file),
          read_value-encode node.value dflt file fits.printable,
          write-middle xs (empty_node dflt) _ zs,
          sym (taken node.status occ),
        )
        refl

  -- The loops of both functions, from the slot behind `xs` on.
  read_entries-write_entries :
      (xs bs : List (Node Value)) (i : ℕ)
      → length xs ≡ i
      → i + length bs < 2 ^ 32
      → All FitsSlot bs
      → (file : Bytes) × (write_entries (length bs) i bs ≡ ok file)
        × (read_entries (in_use bs) file (xs ++ replicate (length bs) (empty_node dflt))
            ≡ ok (xs ++ map (kept dflt) bs))
  unfolding write_entries read_entries in_use
  read_entries-write_entries xs [] i e small fits = ([], refl, refl)
  read_entries-write_entries xs (node ∷ bs) i e small fits =
      let len : (y : Node Value) → length (xs ++ y ∷ []) ≡ i + 1 =
        λ y. length-append xs (y ∷ []) ∙ ap (λ x. x + 1) e in
      let longer = λ (y : Node Value).
        read_entries-write_entries (xs ++ y ∷ []) bs (i + 1) (len y) (omega arith) fits.1 in
      elim (Bool-cases (is_occupied node.status)) [
        | inl occ ↦
            let (file, written, read) = longer node in
            let others = replicate (length bs) (empty_node dflt) in
            let entry =
              read_entry-entry_bytes xs others node i file e (omega arith) occ (fits.0 occ) in
            (
              entry_bytes i node ++ file,
              rw (written, occ) refl,
              rw (occ, entry) (simp append_assoc at read),
            )
        | inr free ↦
            let (file, written, read) = longer (empty_node dflt) in
            (file, rw (written, free) refl, rw free (simp append_assoc at read))
      ]

  -- The table has fewer than 2 ^ 32 buckets, `sz` counts the slots in use, their values can be
  -- printed, and their keys and printed values are shorter than 2 ^ 32 bytes. `writetofile` then
  -- writes a file, unless that cannot be opened, from which `readfromfile` makes a table with the
  -- same entries in the same slots; every other slot is empty, also where a tombstone was.
  pub read_from_file-write_to_file :
      (t : HashTable Value)
      → length t.buckets ≡ t.bucketsz
      → t.bucketsz < 2 ^ 32
      → t.sz ≡ in_use t.buckets
      → All FitsSlot t.buckets
      → Returns
          (write_to_file true t)
          (λ file. read_from_file dflt (some file) ≡ ok (reload dflt t))
  unfolding write_to_file read_from_file
  read_from_file-write_to_file t width small counted fits =
      let (entries, written, read) =
        read_entries-write_entries [] t.buckets 0 refl (omega (arith, width)) fits in
      (
        u32_bytes t.bucketsz ++ (u32_bytes t.sz ++ entries),
        rw (sym width, written) refl,
        rw
            (
              read_u32-u32_bytes t.bucketsz _ small,
              read_u32-u32_bytes t.sz _ (omega (arith, counted, in_use-le t.buckets, width)),
              counted,
              sym width,
              read,
            )
            refl,
      )
