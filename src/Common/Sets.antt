-- ===== src/Common/Sets.antt =====
-- `BTreeSet` of the standard library: a sorted association list to the unit type; and what maps and
-- sets have beyond lookup and insertion.
use mathlib.Core.Path.{◌≡◌, sym, subst}
use mathlib.Core.Logic.{inl, inr}
use mathlib.Core.Bool.{Bool, true, false}
use mathlib.Core.Option.{Option, none, some}
use mathlib.Core.List.{List, [], ◌∷◌, map}
use native.Mathlib.Omega.{arith}
use bwk.Common.OrdMap.{Ord, Sorted, Below, key_eq, lookup, insert, remove, insert-Sorted}
use bwk.Common.Lists.{All}
use bwk.Common.Tests.{Bool-cases}

abbrev pub BTreeSet {ℓ} : Type ℓ → Type ℓ
BTreeSet K = List (K × Unit {0})

abbrev pub is_some {ℓ} : {A : Type ℓ} → Option A → Bool
is_some none = false
is_some (some a) = true

module _ {ℓ} {K : Type ℓ} ⦃o : Ord K⦄ where
  module _ {κ} {V : Type κ} where
    -- `contains_key` of a map, `contains` of a set.
    abbrev pub contains : K → List (K × V) → Bool
    contains k m = is_some (lookup k m)

    abbrev pub insert_all : List (K × V) → List (K × V) → List (K × V)
    insert_all [] m = m
    insert_all ((k, v) ∷ entries) m = insert_all entries (insert k v m)

    -- `collect` into a map: a later entry of a key replaces an earlier one.
    unfoldable pub collect : List (K × V) → List (K × V)
    collect entries = insert_all entries []

    insert_all-Sorted : (entries m : List (K × V)) → Sorted m → Sorted (insert_all entries m)
    insert_all-Sorted [] m s = s
    insert_all-Sorted ((k, v) ∷ entries) m s =
        insert_all-Sorted entries (insert k v m) (insert-Sorted k v m s)

    pub collect-Sorted : (entries : List (K × V)) → Sorted (collect entries)
    unfolding collect
    collect-Sorted entries = insert_all-Sorted entries [] tt

    -- A key below all of a map's is not in it.
    pub Below-lookup : (k : K) (m : List (K × V)) → Below k m → lookup k m ≡ none
    unfolding lookup
    Below-lookup k [] b = ground arith
    Below-lookup k ((j, v) ∷ m) b = ground (arith, Below-lookup k m b.1)

    pub remove-All {μ} :
        (P : K × V → Type μ) (k : K) (m : List (K × V)) → All P m → All P (remove k m)
    unfolding remove
    remove-All P k [] h = tt
    remove-All P k ((j, v) ∷ m) h = ground (arith, remove-All P k m h.1)

    -- What holds of every entry holds of the one that a lookup finds.
    pub lookup-All {μ} :
        (P : K × V → Type μ) (k : K) (v : V) (m : List (K × V))
        → All P m
        → lookup k m ≡ some v
        → P (k, v)
    unfolding lookup
    lookup-All P k v [] h e = absurd (ground arith)
    lookup-All P k v ((j, w) ∷ m) h e = elim (Bool-cases (key_eq k j)) [
      | inl same ↦
          let here : j ≡ k = sym (o.cmp-eq k j (ground arith)) in
          let value : w ≡ v = ground arith in
          subst (λ i. P (i, v)) here (subst (λ x. P (j, x)) value h.0)
      | inr other ↦ lookup-All P k v m h.1 (ground arith)
    ]

    lookup_later :
        (j : K) (w : V) (m rest : List (K × V))
        → Below j rest
        → All (λ x. lookup x.0 m ≡ some x.1) rest
        → All (λ x. lookup x.0 ((j, w) ∷ m) ≡ some x.1) rest
    unfolding lookup
    lookup_later j w m [] b h = tt
    lookup_later j w m ((i, v) ∷ rest) b h =
        (ground (arith, o.cmp-eq i j, o.cmp-refl j, b.0, h.0), lookup_later j w m rest b.1 h.1)

    -- In a sorted map a lookup finds each entry.
    pub Sorted-lookup : (m : List (K × V)) → Sorted m → All (λ x. lookup x.0 m ≡ some x.1) m
    unfolding lookup
    Sorted-lookup [] s = tt
    Sorted-lookup ((j, w) ∷ m) s =
        (ground (arith, o.cmp-refl j), lookup_later j w m m s.0 (Sorted-lookup m s.1))

  abbrev pub keys_of {κ} : {V : Type κ} → List (K × V) → List K
  keys_of m = map (λ e. e.0) m

  -- A set of the given elements.
  abbrev pub set_of : List K → BTreeSet K
  set_of [] = []
  set_of (k ∷ ks) = insert k tt (set_of ks)

  -- `entry(k).or_default().insert(a)` of a map to sets.
  abbrev pub insert_under {κ} :
      {J : Type κ} ⦃p : Ord J⦄ → J → K → List (J × BTreeSet K) → List (J × BTreeSet K)
  insert_under j k m = elim (lookup j m) [
    | none ↦ insert j (insert k tt []) m
    | some set ↦ insert j (insert k tt set) m
  ]
