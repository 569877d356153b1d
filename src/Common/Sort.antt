-- ===== src/Common/Sort.antt =====
-- `slice::sort_by`: a stable sort, as an insertion sort by a Boolean "not after" test.
use bwk.Common.Tests.{if◌then◌else◌, Bool-cases}
use bwk.Common.Lists.{All}
use mathlib.Core.Path.{◌≡◌}
use mathlib.Core.Logic.{inl, inr}
use mathlib.Core.Bool.{Bool, true, false}
use mathlib.Core.List.{List, [], ◌∷◌, Perm}
use mathlib.Core.List.Perm

module _ {ℓ} {A : Type ℓ} (le : A → A → Bool) where
  -- Before the first element that does not come strictly earlier.
  unfoldable pub insert_sorted : A → List A → List A
  insert_sorted a [] = a ∷ []
  insert_sorted a (x ∷ xs) = if le a x then a ∷ x ∷ xs else x ∷ insert_sorted a xs

  unfoldable pub sort_by : List A → List A
  unfolding insert_sorted
  sort_by [] = []
  sort_by (x ∷ xs) = insert_sorted x (sort_by xs)

  insert_sorted-perm : (a : A) (xs : List A) → Perm (insert_sorted a xs) (a ∷ xs)
  unfolding insert_sorted
  insert_sorted-perm a [] = Perm.refl _
  insert_sorted-perm a (x ∷ xs) = elim (Bool-cases (le a x)) [
    | inl before ↦ rw before (Perm.refl _)
    | inr after ↦ rw after (Perm.trans (Perm.cons x (insert_sorted-perm a xs)) (Perm.swap a x xs))
  ]

  -- The sort returns the elements that it is given.
  pub sort_by-perm : (xs : List A) → Perm (sort_by xs) xs
  unfolding sort_by
  sort_by-perm [] = Perm.refl _
  sort_by-perm (x ∷ xs) =
      Perm.trans (insert_sorted-perm x (sort_by xs)) (Perm.cons x (sort_by-perm xs))

  insert_sorted-All {κ} :
      (P : A → Type κ) (a : A) (xs : List A) → P a → All P xs → All P (insert_sorted a xs)
  unfolding insert_sorted
  insert_sorted-All P a [] h s = (h, tt)
  insert_sorted-All P a (x ∷ xs) h s = elim (Bool-cases (le a x)) [
    | inl before ↦ rw before (h, s)
    | inr after ↦ rw after (s.0, insert_sorted-All P a xs h s.1)
  ]

  pub sort_by-All {κ} : (P : A → Type κ) (xs : List A) → All P xs → All P (sort_by xs)
  unfolding sort_by
  sort_by-All P [] s = tt
  sort_by-All P (x ∷ xs) s = insert_sorted-All P x (sort_by xs) s.0 (sort_by-All P xs s.1)

  -- No element comes strictly before one that stands earlier.
  abbrev pub Ordered : List A → Type ℓ
  Ordered [] = Unit
  Ordered (x ∷ xs) = All (λ y. le x y ≡ true) xs × Ordered xs

  module _ (total : (a b : A) → le a b ≡ false → le b a ≡ true)
      (le_chain : (a b c : A) → le a b ≡ true → le b c ≡ true → le a c ≡ true) where
    All-chain :
        (a x : A) (xs : List A)
        → le a x ≡ true
        → All (λ y. le x y ≡ true) xs
        → All (λ y. le a y ≡ true) xs
    All-chain a x [] h s = tt
    All-chain a x (y ∷ ys) h s = (le_chain a x y h s.0, All-chain a x ys h s.1)

    insert_sorted-Ordered : (a : A) (xs : List A) → Ordered xs → Ordered (insert_sorted a xs)
    unfolding insert_sorted
    insert_sorted-Ordered a [] s = (tt, tt)
    insert_sorted-Ordered a (x ∷ xs) s = elim (Bool-cases (le a x)) [
      | inl before ↦ rw before ((before, All-chain a x xs before s.0), s)
      | inr after ↦ rw after (
        insert_sorted-All (λ y. le x y ≡ true) a xs (total a x after) s.0,
        insert_sorted-Ordered a xs s.1,
      )
    ]

    -- The sort orders, for a total order.
    pub sort_by-Ordered : (xs : List A) → Ordered (sort_by xs)
    unfolding sort_by
    sort_by-Ordered [] = tt
    sort_by-Ordered (x ∷ xs) = insert_sorted-Ordered x (sort_by xs) (sort_by-Ordered xs)
