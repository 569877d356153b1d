-- ===== src/Sp/ScanState/Fork.antt =====
-- Where `find_fork` of sp/src/scan/mod.rs finds the fork, and the state after the roll back to it.
use bwk.Common.{
  ℕ, false, none, some, List, [], ◌∷◌, ◌≡◌, refl, arith, ◌+◌, ◌<◌, ◌++◌, All, Result, ok, ◌>>=◌,
  Result-cases, Bool-cases, inl, inr, ltb, add32, All-weaken,
}
use bwk.Common.OrdMap.{nat_ord, key_eq, lookup, Sorted, Below, compare-eq}
use bwk.Common.Text.{text_ord}
use bwk.Persist.Backend.{Bytes}
use bwk.Persist.RamStore.{values}
use bwk.Sp.ScanState.{
  ScanState, Chain, ScanError, find_fork, find_fork_from, roll_back, last_block_hash,
  next_scan_start, rev, drop_block_hashes,
}
use bwk.Sp.ScanState.Kept.{
  lookup-drop_block_hashes, drop_block_hashes-Sorted, rev-highest, next_back-rev,
}

All-append : {A : Type 0} (P : A → Type 0) (xs ys : List A) → All P xs → All P ys → All P (xs ++ ys)
All-append P [] ys h k = k
All-append P (x ∷ xs) ys h k = (h.0, All-append P xs ys h.1 k)

All-rev : {A : Type 0} (P : A → Type 0) (xs : List A) → All P xs → All P (rev xs)
All-rev P [] h = tt
All-rev P (x ∷ xs) h = All-append P (rev xs) (x ∷ []) (All-rev P xs h.1) (h.0, tt)

All-both :
    {A : Type 0} (P Q : A → Type 0) (xs : List A) → All P xs → All Q xs → All (λ x. P x × Q x) xs
All-both P Q [] h k = tt
All-both P Q (x ∷ xs) h k = ((h.0, k.0), All-both P Q xs h.1 k.1)

-- Every height is below the ones before it.
abbrev Descending : List (ℕ × Bytes) → Type 0
Descending [] = Unit
Descending ((h, hash) ∷ l) = All (λ e. e.0 < h) l × Descending l

Descending-append :
    (l : List (ℕ × Bytes)) (h : ℕ) (hash : Bytes)
    → Descending l
    → All (λ e. h < e.0) l
    → Descending (l ++ ((h, hash) ∷ []))
Descending-append [] h hash d above = (tt, tt)
Descending-append ((k, other) ∷ l) h hash d above = (
  All-append (λ e. e.0 < k) l ((h, hash) ∷ []) d.0 (above.0, tt),
  Descending-append l h hash d.1 above.1,
)

Below-All : (h : ℕ) (m : List (ℕ × Bytes)) → Below h m → All (λ e. h < e.0) m
Below-All h [] b = tt
Below-All h ((k, hash) ∷ m) b = (ground (arith, b.0), Below-All h m b.1)

rev-Descending : (m : List (ℕ × Bytes)) → Sorted m → Descending (rev m)
rev-Descending [] s = tt
rev-Descending ((h, hash) ∷ m) s =
    Descending-append (rev m) h hash (rev-Descending m s.1)
      (All-rev (λ e. h < e.0) m (Below-All h m s.0))

-- The entries of a sorted map are what it looks up.
entries-lookup : (m : List (ℕ × Bytes)) → Sorted m → All (λ e. lookup e.0 m ≡ some e.1) m
unfolding lookup
entries-lookup [] s = tt
entries-lookup ((h, hash) ∷ m) s = (
  ground (arith, nat_ord.cmp-refl h),
  All-weaken (λ e. (h < e.0) × (lookup e.0 m ≡ some e.1))
      (λ e. lookup e.0 ((h, hash) ∷ m) ≡ some e.1) (λ e both. ground (arith, compare-eq e.0 h)) m
      (All-both (λ e. h < e.0) (λ e. lookup e.0 m ≡ some e.1) m (Below-All h m s.0)
        (entries-lookup m s.1)),
)

abbrev pub hash_at : Chain → ℕ → Result ScanError Bytes
hash_at chain h = chain.from_consensus h >>= chain.block_hash

-- The chain has another block at the height of the entry.
abbrev pub Reorged : Chain → ℕ × Bytes → Type 0
Reorged chain (h, hash) =
    (block : Bytes) × (hash_at chain h ≡ ok block) × (key_eq block hash ≡ false)

module _ (chain : Chain) where
  find_fork_from-some :
      (P : ℕ × Bytes → Type 0) (depth : ℕ) (l : List (ℕ × Bytes)) (fork : ℕ)
      → Descending l
      → All P l
      → find_fork_from chain depth l ≡ ok (some fork)
      → ((hash : Bytes) × P (fork, hash) × (hash_at chain fork ≡ ok hash))
        × All (λ e. fork < e.0 → Reorged chain e) l
  unfolding find_fork_from
  find_fork_from-some P depth [] fork d h e = absurd (ground arith)
  find_fork_from-some P depth ((k, hash) ∷ l) fork d h e = elim (Result-cases (hash_at chain k)) [
    | inr (x, failed) ↦ absurd (ground arith)
    | inl (block, read) ↦ elim (Bool-cases (key_eq block hash)) [
      | inl hit ↦
          let same : fork ≡ k = ground arith in
          let matching : block ≡ hash = ground (arith, text_ord.cmp-eq block hash) in
          (
            (hash, rw same h.0, rw same (rw matching at read)),
            (
              λ above. absurd (omega (arith, above, same)),
              All-weaken (λ x. x.0 < k) (λ x. fork < x.0 → Reorged chain x)
                  (λ x below above. absurd (omega (arith, below, above, same))) l d.0,
            ),
          )
      | inr miss ↦
          let later : find_fork_from chain (depth + 1) l ≡ ok (some fork) = ground arith in
          let (found, above) = find_fork_from-some P (depth + 1) l fork d.1 h.1 later in
          (found, (λ a. (block, read, miss), above))
    ]
  ]

  find_fork-some :
      (m : List (ℕ × Bytes)) (fork : ℕ)
      → Sorted m
      → find_fork chain m ≡ ok (some fork)
      → ((hash : Bytes) × (lookup fork m ≡ some hash) × (hash_at chain fork ≡ ok hash))
        × All (λ e. fork < e.0 → Reorged chain e) (rev m)
  unfolding find_fork
  find_fork-some [] fork s e = absurd (ground arith)
  find_fork-some (entry ∷ m) fork s e =
      let P : ℕ × Bytes → Type 0 = λ x. lookup x.0 (entry ∷ m) ≡ some x.1 in
      find_fork_from-some P 0 (rev (entry ∷ m)) fork (rev-Descending (entry ∷ m) s)
        (All-rev P (entry ∷ m) (entries-lookup (entry ∷ m) s)) e

  find_fork-matching :
      (m rest : List (ℕ × Bytes)) (k : ℕ) (hash : Bytes)
      → rev m ≡ (k, hash) ∷ rest
      → hash_at chain k ≡ ok hash
      → find_fork chain m ≡ ok none
  unfolding find_fork find_fork_from
  find_fork-matching [] rest k hash e read = absurd (ground arith)
  find_fork-matching (entry ∷ m) rest k hash e read = rw e (ground (arith, text_ord.cmp-refl hash))

  -- Let `find_fork` find a fork below the hashes of a state. Then the state rolled back to it starts
  -- again one above it, its last hash is the chain's at the fork, and `find_fork` on the same chain
  -- finds no fork any more; the chain has another block at every kept height above the fork.
  pub find_fork-roll_back :
      (s : ScanState) (fork : ℕ)
      → Sorted s.block_hashes.cache
      → find_fork chain s.block_hashes.cache ≡ ok (some fork)
      → (next_scan_start (roll_back s fork) ≡ add32 fork 1)
        × ((hash : Bytes) × (hash_at chain fork ≡ ok hash)
            × (last_block_hash (roll_back s fork) ≡ some hash))
        × (find_fork chain (roll_back s fork).block_hashes.cache ≡ ok none)
        × All (λ e. fork < e.0 → Reorged chain e) (rev s.block_hashes.cache)
  unfolding roll_back next_scan_start last_block_hash values
  find_fork-roll_back s fork sorted e =
      let ((hash, at_fork, read), above) = find_fork-some s.block_hashes.cache fork sorted e in
      let left = drop_block_hashes (λ h. ltb fork h) s.block_hashes in
      let (rest, same) =
        rev-highest left.cache fork hash
          (drop_block_hashes-Sorted (λ h. ltb fork h) s.block_hashes sorted)
          (ground (arith, lookup-drop_block_hashes (λ h. ltb fork h) s.block_hashes fork))
          (λ j kept. ground (arith, lookup-drop_block_hashes (λ h. ltb fork h) s.block_hashes j)) in
      (
        refl,
        (hash, read, next_back-rev left.cache rest fork hash same),
        find_fork-matching left.cache rest fork hash same read,
        above,
      )
