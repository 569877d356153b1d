-- ===== src/Tx/Select/Choice.antt =====
-- The choice among the combinations: what is chosen covers the target, and something is chosen
-- wherever a combination covers it.
use bwk.Common.{
  ℕ, none, some, List, [], ◌∷◌, ◌≡◌, refl, ◌+◌, ◌<◌, ◌≤◌, ◌≢◌, ◌&&◌, Bool, true, arith, All,
  select_by, select_by-All, All-weaken, u64_mod, add64, leb, ltb, leb→le, Option-cases, inl, inr,
}
use bwk.Common.OrdMap.{nat_ord, lookup}
use bwk.Common.Sort.{sort_by, sort_by-All, insert_sorted}
use bwk.Tx.Select.{
  Selection, Selections, head, fewer_inputs, range, range_from, fewest_inputs, tight_selection,
  choose,
}

module _ (P : ℕ × Selection → Type 0) where
  -- A selection that stands in the map under at least `target`.
  abbrev pub Covers : ℕ → Selection → Type 0
  Covers target s = (k : ℕ) × P (k, s) × (target ≤ k)

  abbrev From : ℕ → ℕ × Selection → Type 0
  From target e = P e × (target ≤ e.0)

  range_from-From : (lo : ℕ) (m : Selections) → All P m → All (From lo) (range_from lo m)
  unfolding range_from
  range_from-From lo m h =
      All-weaken (λ e. P e × (leb lo e.0 ≡ true)) (From lo) (λ e p. (p.0, leb→le lo e.0 p.1))
        (range_from lo m) (select_by-All P (λ e. leb lo e.0) m h)

  range-From :
      (lo hi : ℕ) (m : Selections) {m' : Selections}
      → All P m
      → range lo hi m ≡ some m'
      → All (From lo) m'
  unfolding range
  range-From lo hi m {m'} h e =
      let kept : m' ≡ select_by (λ x. leb lo x.0 && ltb x.0 hi) m = ground arith in
      rw kept (
        All-weaken (λ x. P x × ((leb lo x.0 && ltb x.0 hi) ≡ true)) (From lo)
          (λ x p. (p.0, in_range x.0 p.1)) _ (select_by-All P (λ x. leb lo x.0 && ltb x.0 hi) m h))
    where
      in_range : (k : ℕ) → (leb lo k && ltb k hi) ≡ true → lo ≤ k
      in_range k t = ground arith

  higher : (lo target : ℕ) (m : Selections) → target ≤ lo → All (From lo) m → All (From target) m
  higher lo target m le h =
      All-weaken (From lo) (From target) (λ e p. (p.0, omega (arith, p.1))) m h

  head-Covers :
      (target : ℕ) (m : Selections) {s : Selection}
      → All (From target) m
      → head m ≡ some s
      → Covers target s
  head-Covers target [] h e = absurd (ground arith)
  head-Covers target ((k, s') ∷ m) {s} h e =
      let same : s' ≡ s = ground arith in rw (← same) (k, h.0.0, h.0.1)

  fewest_inputs-Covers :
      (target : ℕ) (m : Selections) {s : Selection}
      → All (From target) m
      → fewest_inputs m ≡ some s
      → Covers target s
  unfolding fewest_inputs
  fewest_inputs-Covers target m h e =
      head-Covers target _ (sort_by-All fewer_inputs (From target) m h) e

  module _ (m : Selections) (all : All P m) (target min_change max_change dust : ℕ) where
    tight_selection-Covers :
        {s : Selection} → tight_selection m target dust ≡ some (some s) → Covers target s
    unfolding tight_selection
    tight_selection-Covers {s} e = elim (Option-cases (range target (add64 target dust) m)) [
      | inl panics ↦ absurd (ground arith)
      | inr (m', found) ↦ head-Covers target m' (range-From target _ m all found) (ground arith)
    ]

    change-Covers :
        (lo : ℕ) (m' : Selections) {s : Selection}
        → target ≤ lo
        → All (From lo) m'
        → fewest_inputs m' ≡ some s
        → Covers target s
    change-Covers lo m' le h e = fewest_inputs-Covers target m' (higher lo target m' le h) e

    abbrev change_lo : ℕ
    change_lo = add64 target min_change

    abbrev change_hi : ℕ
    change_hi = add64 target max_change

    -- What is chosen stands in the map, and leaves at least the target to spend.
    pub choose-Covers :
        {s : Selection}
        → target + min_change < u64_mod
        → target + max_change < u64_mod
        → choose m target min_change max_change dust ≡ some (some s)
        → Covers target s
    unfolding choose
    choose-Covers {s} a b e = elim (Option-cases (tight_selection m target dust)) [
      | inl panics ↦ absurd (ground arith)
      | inr (o, tried) ↦ elim (Option-cases o) [
        | inr (s', found) ↦ tight_selection-Covers (ground arith)
        | inl missed ↦ elim (Option-cases (range change_lo change_hi m)) [
          | inl panics ↦ absurd (ground arith)
          | inr (m', changes) ↦ elim (Option-cases (fewest_inputs m')) [
            | inr (s', found) ↦
                change-Covers change_lo m' (omega arith) (range-From change_lo _ m all changes)
                  (ground arith)
            | inl missed' ↦ elim (Option-cases (fewest_inputs (range_from change_hi m))) [
              | inr (s', found) ↦
                  change-Covers change_hi _ (omega arith) (range_from-From change_hi m all)
                    (ground arith)
              | inl missed_again ↦
                  fewest_inputs-Covers target _ (range_from-From target m all) (ground arith)
            ]
          ]
        ]
      ]
    ]

insert_sorted-ne-nil :
    {A : Type 0} (le : A → A → Bool) (a : A) (xs : List A) → insert_sorted le a xs ≢ []
unfolding insert_sorted
insert_sorted-ne-nil le a [] e = ground arith
insert_sorted-ne-nil le a (x ∷ xs) e = ground arith

-- A map with an entry has one with the fewest inputs.
fewest_inputs-ne-none : (m : Selections) → m ≢ [] → fewest_inputs m ≢ none
unfolding fewest_inputs
fewest_inputs-ne-none [] h e = h refl
fewest_inputs-ne-none (x ∷ m) h e =
    ground (arith, insert_sorted-ne-nil fewer_inputs x (sort_by fewer_inputs m))

range_from-ne-nil : (lo k : ℕ) (m : Selections) → lo ≤ k → lookup k m ≢ none → range_from lo m ≢ []
unfolding range_from lookup
range_from-ne-nil lo k [] le h e = h refl
range_from-ne-nil lo k ((j, s) ∷ m) le h e = ground (arith, range_from-ne-nil lo k m le)

-- Where an entry of the map covers the target, the choice does not come out empty.
pub choose-ne-none :
    (m : Selections) (target min_change max_change dust k : ℕ)
    → target ≤ k
    → lookup k m ≢ none
    → choose m target min_change max_change dust ≢ some none
unfolding choose
choose-ne-none m target min_change max_change dust k le h e =
    ground (arith, fewest_inputs-ne-none (range_from target m), range_from-ne-nil target k m le h)
