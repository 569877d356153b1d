-- ===== src/Sp/ScanState/Kept.antt =====
-- The hashes that `drop_block_hashes` of sp/src/scan/state.rs leaves, and sorted maps by height.
use bwk.Common.{
  ℕ, Bool, none, some, List, [], ◌∷◌, ◌≡◌, ◌≢◌, refl, sym, ap, ◌∙◌, arith, ◌+◌, ◌-◌, ◌≤◌, ◌<◌, ◌&&◌,
  map, length, select_by, any, if◌then◌else◌, ◌++◌,
}
use bwk.Common.OrdMap.{
  nat_ord, key_eq, lookup, remove, lookup-remove, remove-Sorted, Sorted, Below, compare-eq,
}
use bwk.Persist.Backend.{Bytes}
use bwk.Persist.RamStore.{RamStore, store_remove, keys, is_some}
use bwk.Sp.ScanState.{remove_all, drop_block_hashes, rev, next_back}

abbrev among : ℕ → List ℕ → Bool
among k ks = any (λ j. key_eq k j) ks

store_remove-cache :
    (hashes : RamStore ℕ Bytes) (k : ℕ) → (store_remove hashes k).0.cache ≡ remove k hashes.cache
unfolding store_remove
store_remove-cache hashes k = ground arith

lookup-remove_all :
    (ks : List ℕ) (hashes : RamStore ℕ Bytes) (k : ℕ)
    → lookup k (remove_all ks hashes).cache ≡ (if among k ks then none else lookup k hashes.cache)
lookup-remove_all [] hashes k = refl
lookup-remove_all (j ∷ ks) hashes k = ground (
  arith,
  lookup-remove_all ks (store_remove hashes j).0 k,
  store_remove-cache hashes j,
  lookup-remove j k hashes.cache,
)

among-keys :
    (drop : ℕ → Bool) (m : List (ℕ × Bytes)) (k : ℕ)
    → among k (select_by drop (map (λ e. e.0) m)) ≡ drop k && is_some (lookup k m)
unfolding lookup
among-keys drop [] k = ground arith
among-keys drop ((j, hash) ∷ m) k = ground (arith, among-keys drop m k, compare-eq k j)

-- Exactly the entries that the test names are dropped.
pub lookup-drop_block_hashes :
    (drop : ℕ → Bool) (hashes : RamStore ℕ Bytes) (k : ℕ)
    → lookup k (drop_block_hashes drop hashes).cache
      ≡ (if drop k then none else lookup k hashes.cache)
unfolding drop_block_hashes keys
lookup-drop_block_hashes drop hashes k = ground (
  arith,
  lookup-remove_all (select_by drop (keys hashes)) hashes k,
  among-keys drop hashes.cache k,
)

pub remove_all-Sorted :
    (ks : List ℕ) (hashes : RamStore ℕ Bytes)
    → Sorted hashes.cache
    → Sorted (remove_all ks hashes).cache
remove_all-Sorted [] hashes h = h
remove_all-Sorted (k ∷ ks) hashes h =
    remove_all-Sorted ks (store_remove hashes k).0
      (rw (store_remove-cache hashes k) (remove-Sorted k hashes.cache h))

pub drop_block_hashes-Sorted :
    (drop : ℕ → Bool) (hashes : RamStore ℕ Bytes)
    → Sorted hashes.cache
    → Sorted (drop_block_hashes drop hashes).cache
unfolding drop_block_hashes keys
drop_block_hashes-Sorted drop hashes h = remove_all-Sorted (select_by drop (keys hashes)) hashes h

Below-lt : (a k : ℕ) (m : List (ℕ × Bytes)) → Below a m → lookup k m ≢ none → a < k
unfolding lookup
Below-lt a k [] b kept = absurd (kept refl)
Below-lt a k ((j, hash) ∷ m) b kept = ground (arith, Below-lt a k m b.1, compare-eq k j)

-- A sorted map whose keys lie between two bounds has no more entries than there are numbers there.
pub length-between :
    (m : List (ℕ × Bytes)) (a b : ℕ)
    → Sorted m
    → ((k : ℕ) → lookup k m ≢ none → (a ≤ k) × (k < b))
    → length m ≤ b - a
unfolding lookup
length-between [] a b s h = omega arith
length-between ((j, hash) ∷ m) a b s h =
    let first : (a ≤ j) × (j < b) = h j (ground (arith, nat_ord.cmp-refl j)) in
    let rest : length m ≤ b - (j + 1) = length-between m (j + 1) b s.1 (λ k kept.
      let above : j < k = Below-lt j k m s.0 kept in
      let bounds : (a ≤ k) × (k < b) = h k (ground (arith, compare-eq k j)) in
      (omega (arith, above), bounds.1)) in
    omega (arith, first, rest)

-- The highest key comes first in the order from the end.
pub rev-highest :
    (m : List (ℕ × Bytes)) (k : ℕ) (hash : Bytes)
    → Sorted m
    → lookup k m ≡ some hash
    → ((j : ℕ) → lookup j m ≢ none → j ≤ k)
    → (rest : List (ℕ × Bytes)) × (rev m ≡ (k, hash) ∷ rest)
unfolding lookup
rev-highest [] k hash s e h = absurd (ground arith)
rev-highest ((j, other) ∷ []) k hash s e h = ([], ground (arith, compare-eq k j))
rev-highest ((j, other) ∷ (i, next) ∷ m) k hash s e h =
    let up : i ≤ k = h i (ground (arith, nat_ord.cmp-refl i, compare-eq i j)) in
    let (rest, same) =
      rev-highest ((i, next) ∷ m) k hash s.1 (ground (arith, compare-eq k j))
        (λ l kept. h l (ground arith)) in
    (rest ++ ((j, other) ∷ []), ap (λ l. l ++ ((j, other) ∷ [])) same)

map-append : {A C : Type 0} (f : A → C) (xs ys : List A) → map f (xs ++ ys) ≡ map f xs ++ map f ys
map-append f [] ys = refl
map-append f (x ∷ xs) ys = ap (λ l. f x ∷ l) (map-append f xs ys)

map-rev : {A C : Type 0} (f : A → C) (xs : List A) → map f (rev xs) ≡ rev (map f xs)
map-rev f [] = refl
map-rev f (x ∷ xs) = map-append f (rev xs) (x ∷ []) ∙ ap (λ l. l ++ (f x ∷ [])) (map-rev f xs)

pub next_back-rev :
    (m rest : List (ℕ × Bytes)) (k : ℕ) (hash : Bytes)
    → rev m ≡ (k, hash) ∷ rest
    → next_back (rev (map (λ e. e.1) m)) ≡ some hash
next_back-rev m rest k hash e = rw (sym (map-rev (λ x. x.1) m), e) refl
