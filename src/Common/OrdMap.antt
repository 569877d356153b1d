-- ===== src/Common/OrdMap.antt =====
-- `BTreeMap` of the standard library: an association list sorted by its keys, over any type with
-- an `Ord` instance. `lookup` is `get`, `keys` and `values` follow the order of the keys.
use Prim.Native.Nat.{ℕ, compare, Ordering}
use mathlib.Core.Path.{◌≡◌, refl}
use mathlib.Core.Bool.{Bool, true, false}
use mathlib.Core.Option.{Option, none, some}
use mathlib.Core.List.{List, [], ◌∷◌}
use native.Mathlib.Omega.{arith}
use bwk.Common.Lists.{All}
use bwk.Common.Tests.{if◌then◌else◌}

pub record Ord {ℓ} (K : Type ℓ) : Type ℓ where
  pub cmp : K → K → Ordering
  pub cmp-eq : (a b : K) → cmp a b ≡ Ordering.eq → a ≡ b
  pub cmp-refl : (a : K) → cmp a a ≡ Ordering.eq
  pub cmp-trans :
      (a b c : K) → cmp a b ≡ Ordering.lt → cmp b c ≡ Ordering.lt → cmp a c ≡ Ordering.lt
  pub cmp-flip : (a b : K) → cmp a b ≡ Ordering.gt → cmp b a ≡ Ordering.lt

pub compare-eq : (a b : ℕ) → compare a b ≡ Ordering.eq → a ≡ b
compare-eq a b h = ground arith

pub compare_refl : (a : ℕ) → compare a a ≡ Ordering.eq
compare_refl a = ground arith

pub compare_trans :
    (a b c : ℕ) → compare a b ≡ Ordering.lt → compare b c ≡ Ordering.lt → compare a c ≡ Ordering.lt
compare_trans a b c h k = ground arith

pub compare-flip : (a b : ℕ) → compare a b ≡ Ordering.gt → compare b a ≡ Ordering.lt
compare-flip a b h = ground arith

instance abbrev pub nat_ord : Ord ℕ
nat_ord = record {
  cmp = compare;
  cmp-eq = compare-eq;
  cmp-refl = compare_refl;
  cmp-trans = compare_trans;
  cmp-flip = compare-flip;
}

abbrev pub is_eq : Ordering → Bool
is_eq Ordering.lt = false
is_eq Ordering.eq = true
is_eq Ordering.gt = false

module _ {ℓ} {K : Type ℓ} ⦃o : Ord K⦄ where
  abbrev pub key_eq : K → K → Bool
  key_eq a b = is_eq (o.cmp a b)

  -- Is `a` strictly below every key of the list?
  abbrev pub Below {κ} : {V : Type κ} → K → List (K × V) → Type 0
  Below a [] = Unit
  Below a ((j, _) ∷ m) = (o.cmp a j ≡ Ordering.lt) × Below a m

  abbrev pub Sorted {κ} : {V : Type κ} → List (K × V) → Type 0
  Sorted [] = Unit
  Sorted ((j, _) ∷ m) = Below j m × Sorted m

  module _ {κ} {V : Type κ} where
    unfoldable pub lookup : K → List (K × V) → Option V
    lookup k [] = none
    lookup k ((j, v) ∷ m) = if key_eq k j then some v else lookup k m

    unfoldable pub insert : K → V → List (K × V) → List (K × V)
    insert k v [] = (k, v) ∷ []
    insert k v ((j, w) ∷ m) = elim (o.cmp k j) [
      | Ordering.lt ↦ (k, v) ∷ (j, w) ∷ m
      | Ordering.eq ↦ (k, v) ∷ m
      | Ordering.gt ↦ (j, w) ∷ insert k v m
    ]

    unfoldable pub remove : K → List (K × V) → List (K × V)
    remove k [] = []
    remove k ((j, v) ∷ m) = if key_eq k j then remove k m else (j, v) ∷ remove k m

    pub lookup-insert :
        (k j : K) (v : V) (m : List (K × V))
        → lookup j (insert k v m) ≡ (if key_eq j k then some v else lookup j m)
    unfolding lookup insert
    lookup-insert k j v [] = refl
    lookup-insert k j v ((i, w) ∷ m) =
        ground
          (arith, o.cmp-eq k i, o.cmp-eq j i, o.cmp-eq j k, o.cmp-refl k, lookup-insert k j v m)

    pub lookup-remove :
        (k j : K) (m : List (K × V))
        → lookup j (remove k m) ≡ (if key_eq j k then none else lookup j m)
    unfolding lookup remove
    lookup-remove k j [] = ground arith
    lookup-remove k j ((i, w) ∷ m) =
        ground (arith, o.cmp-eq k i, o.cmp-eq j i, o.cmp-eq j k, o.cmp-refl k, lookup-remove k j m)

    pub lookup-remove_absent : (k : K) (m : List (K × V)) → lookup k m ≡ none → remove k m ≡ m
    unfolding lookup remove
    lookup-remove_absent k [] h = refl
    lookup-remove_absent k ((i, w) ∷ m) h = ground (arith, lookup-remove_absent k m)

    Below-insert :
        (a k : K) (v : V) (m : List (K × V))
        → o.cmp a k ≡ Ordering.lt
        → Below a m
        → Below a (insert k v m)
    unfolding insert
    Below-insert a k v [] h b = (h, tt)
    Below-insert a k v ((i, w) ∷ m) h b = ground (arith, Below-insert a k v m h b.1)

    Below-remove : (a k : K) (m : List (K × V)) → Below a m → Below a (remove k m)
    unfolding remove
    Below-remove a k [] b = tt
    Below-remove a k ((i, w) ∷ m) b = ground (arith, Below-remove a k m b.1)

    Below-trans : (a b : K) (m : List (K × V)) → o.cmp a b ≡ Ordering.lt → Below b m → Below a m
    Below-trans a b [] h s = tt
    Below-trans a b ((i, w) ∷ m) h s = (o.cmp-trans a b i h s.0, Below-trans a b m h s.1)

    pub insert-Sorted : (k : K) (v : V) (m : List (K × V)) → Sorted m → Sorted (insert k v m)
    unfolding insert
    insert-Sorted k v [] s = (tt, tt)
    insert-Sorted k v ((i, w) ∷ m) s = ground (
      arith,
      o.cmp-eq k i,
      o.cmp-flip k i,
      Below-insert i k v m,
      Below-trans k i m,
      insert-Sorted k v m,
    )

    pub remove-Sorted : (k : K) (m : List (K × V)) → Sorted m → Sorted (remove k m)
    unfolding remove
    remove-Sorted k [] s = tt
    remove-Sorted k ((i, w) ∷ m) s = ground (arith, Below-remove i k m s.0, remove-Sorted k m s.1)

    -- `entries` of a key range are kept by their keys: a predicate of all entries survives.
    pub insert-All {μ} :
        (P : K × V → Type μ) (k : K) (v : V) (m : List (K × V))
        → P (k, v)
        → All P m
        → All P (insert k v m)
    unfolding insert
    insert-All P k v [] h s = (h, tt)
    insert-All P k v ((i, w) ∷ m) h s = ground (arith, insert-All P k v m h s.1)
