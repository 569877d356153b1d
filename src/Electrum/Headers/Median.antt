-- ===== src/Electrum/Headers/Median.antt =====
-- The median of a list of times, by how many of them lie below a bound.
use bwk.Common.{
  ℕ, true, false, some, List, [], ◌∷◌, ◌≡◌, ◌↔◌, refl, arith, suc, zero, ◌+◌, ◌/◌, ◌≤◌, ◌<◌, ltb,
  leb, leb→le, subst, length, get_elem?, All, if◌then◌else◌, ◌≢◌,
}
use bwk.Common.Sort.{sort_by, sort_by-Ordered, Ordered, insert_sorted}
use bwk.Electrum.Headers.{median_time}

-- How many of the times lie below the bound.
abbrev pub below : ℕ → List ℕ → ℕ
below t [] = 0
below t (x ∷ xs) = (if ltb x t then 1 else 0) + below t xs

below-insert_sorted : (t x : ℕ) (xs : List ℕ) → below t (insert_sorted leb x xs) ≡ below t (x ∷ xs)
unfolding insert_sorted
below-insert_sorted t x [] = refl
below-insert_sorted t x (y ∷ ys) = ground (arith, below-insert_sorted t x ys)

below-sort_by : (t : ℕ) (xs : List ℕ) → below t (sort_by leb xs) ≡ below t xs
unfolding sort_by
below-sort_by t [] = refl
below-sort_by t (x ∷ xs) =
    omega (arith, below-insert_sorted t x (sort_by leb xs), below-sort_by t xs)

length-insert_sorted : (x : ℕ) (xs : List ℕ) → length (insert_sorted leb x xs) ≡ suc (length xs)
unfolding insert_sorted
length-insert_sorted x [] = refl
length-insert_sorted x (y ∷ ys) = ground (arith, length-insert_sorted x ys)

length-sort_by : (xs : List ℕ) → length (sort_by leb xs) ≡ length xs
unfolding sort_by
length-sort_by [] = refl
length-sort_by (x ∷ xs) = omega (arith, length-insert_sorted x (sort_by leb xs), length-sort_by xs)

-- None of the times lies below a bound that is at most the least of them.
below-none : (t x : ℕ) (xs : List ℕ) → t ≤ x → All (λ y. leb x y ≡ true) xs → below t xs ≡ 0
below-none t x [] low h = refl
below-none t x (y ∷ ys) low h = ground (arith, below-none t x ys low h.1, h.0)

get_elem?-All : (P : ℕ → Type 0) (xs : List ℕ) (i m : ℕ) → All P xs → get_elem? xs i ≡ some m → P m
get_elem?-All P [] i m h e = absurd (ground arith)
get_elem?-All P (x ∷ xs) zero m h e = let same : x ≡ m = ground arith in subst P same h.0
get_elem?-All P (x ∷ xs) (suc i) m h e = get_elem?-All P xs i m h.1 e

-- In an ordered list the element at an index lies below the bound exactly when more than that many do.
below-get_elem? :
    (t i m : ℕ) (xs : List ℕ)
    → Ordered leb xs
    → get_elem? xs i ≡ some m
    → (m < t) ↔ (i < below t xs)
below-get_elem? t i m [] s e = absurd (ground arith)
below-get_elem? t zero m (x ∷ xs) s e = ground (arith, below-none t x xs, s.0)
below-get_elem? t (suc i) m (x ∷ xs) s e =
    let least : x ≤ m = leb→le x m (get_elem?-All (λ y. leb x y ≡ true) xs i m s.0 e) in
    ground (arith, below-none t x xs, s.0, below-get_elem? t i m xs s.1 e)

pub get_elem?-some :
    {A : Type 0} (xs : List A) (i : ℕ) → i < length xs → (m : A) × (get_elem? xs i ≡ some m)
get_elem?-some [] i h = absurd (omega (arith, h))
get_elem?-some (x ∷ xs) zero h = (x, refl)
get_elem?-some (x ∷ xs) (suc i) h = get_elem?-some xs i (omega (arith, h))

leb_total : (a b : ℕ) → leb a b ≡ false → leb b a ≡ true
leb_total a b h = ground arith

leb_chain : (a b c : ℕ) → leb a b ≡ true → leb b c ≡ true → leb a c ≡ true
leb_chain a b c h k = ground arith

-- The median exists, and lies below a bound exactly when more than half of the times do.
pub median_time-below :
    (times : List ℕ)
    → times ≢ []
    → (m : ℕ) × (median_time times ≡ some m)
      × ((t : ℕ) → (m < t) ↔ (length times / 2 < below t times))
unfolding median_time
median_time-below [] some_times = absurd (some_times refl)
median_time-below (x ∷ xs) some_times =
    let times = x ∷ xs in
    let half : length times / 2 < length times = omega arith in
    let (m, found) =
      get_elem?-some (sort_by leb times) (length times / 2)
        (omega (arith, half, length-sort_by times)) in
    let ordered : Ordered leb (sort_by leb times) = sort_by-Ordered leb leb_total leb_chain times in
    (
      m,
      found,
      λ t.
          rw (below-sort_by t times) at
            (below-get_elem? t (length times / 2) m (sort_by leb times) ordered found),
    )
