-- ===== src/Tx/Select/Returns.antt =====
-- When `select` does not panic: no range of the map is turned around, and every draw is in range.
use native.Mathlib.Nat.{mul-le-mul_right}
use bwk.Common.{
  ℕ, zero, suc, Option, none, some, [], ◌∷◌, ◌++◌, ◌≡◌, ◌+◌, ◌*◌, ◌/◌, ◌<◌, ◌≤◌, refl, arith,
  u64_mod, mul64, add64, length, Option-cases, Bool-cases, inl, inr, ltb, leb, select_by, ◌&&◌,
}
use bwk.Electrum.Headers.Median.{get_elem?-some}
use bwk.Tx.Select.{
  Selections, head, range, choose, fewest_inputs, range_from, drawn, cj_candidates, cj_selection,
}

-- The call returns.
abbrev pub Returns : {A : Type 0} → Option A → Type 0
Returns {A} o = (a : A) × (o ≡ some a)

range-Returns : (lo hi : ℕ) (m : Selections) → lo ≤ hi → Returns (range lo hi m)
unfolding range
range-Returns lo hi m h = (select_by (λ e. leb lo e.0 && ltb e.0 hi) m, ground arith)

pub choose-Returns :
    (m : Selections) (target min_change max_change dust : ℕ)
    → min_change ≤ max_change
    → target + max_change < u64_mod
    → target + dust < u64_mod
    → Returns (choose m target min_change max_change dust)
unfolding choose
choose-Returns m target min_change max_change dust order fits fits_dust =
    let (tight, found) = range-Returns target (add64 target dust) m (omega arith) in
    let (changes, found') =
      range-Returns (add64 target min_change) (add64 target max_change) m (omega arith) in
    elim (Option-cases (head tight)) [
      | inr (s, first) ↦ (some s, ground (arith, found, first))
      | inl missed ↦ elim (Option-cases (fewest_inputs changes)) [
        | inr (s, second) ↦ (some s, ground (arith, found, missed, found', second))
        | inl missed' ↦
            elim (Option-cases (fewest_inputs (range_from (add64 target max_change) m))) [
              | inr (s, third) ↦ (some s, ground (arith, found, missed, found', missed', third))
              | inl last ↦ (
                fewest_inputs (range_from target m),
                ground (arith, found, missed, found', missed', last),
              )
            ]
      ]
    ]

module _ (random : ℕ → ℕ → ℕ) (in_range : (k n : ℕ) → 0 < n → random k n < n) where
  drawn-Returns : (k : ℕ) (m : Selections) → Returns (drawn random k m)
  drawn-Returns k [] = ([], refl)
  drawn-Returns k (e ∷ m) =
      let (x, found) =
        get_elem?-some (e ∷ m) (random k (length (e ∷ m))) (in_range k _ (omega arith)) in
      (x ∷ [], ground (arith, found))

  cj_candidates-Returns :
      (rounds i : ℕ) (m : Selections) (lo hi : ℕ)
      → lo ≤ hi
      → hi * (i + rounds) < u64_mod
      → Returns (cj_candidates random rounds i m lo hi)
  unfolding cj_candidates
  cj_candidates-Returns zero i m lo hi h fits = ([], refl)
  cj_candidates-Returns (suc rounds) i m lo hi h fits =
      let below : hi * i ≤ hi * (i + suc rounds) = omega arith in
      let (candidates, found) =
        range-Returns (mul64 lo i) (mul64 hi i) m (omega (arith, mul-le-mul_right i h)) in
      let (one, drawn_one) = drawn-Returns i candidates in
      let (rest, later) = cj_candidates-Returns rounds (suc i) m lo hi h (omega arith) in
      (one ++ rest, ground (arith, found, drawn_one, later))

  pub cj_selection-Returns :
      (m : Selections) (target feerate min_change : ℕ)
      → target * 110 < u64_mod
      → Returns (cj_selection random m target feerate min_change)
  unfolding cj_selection
  cj_selection-Returns m target feerate min_change fits =
      elim (Bool-cases (ltb min_change target && ltb feerate 10_000)) [
        | inr skipped ↦ (none, ground (arith, skipped))
        | inl tried ↦
            let (like, found) =
              cj_candidates-Returns 4 2 m (mul64 target 90 / 100) (mul64 target 110 / 100)
                (omega arith) (omega arith) in
            let (one, last) = drawn-Returns 0 like in (head one, ground (arith, tried, found, last))
      ]
