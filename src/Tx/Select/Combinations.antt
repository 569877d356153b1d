-- ===== src/Tx/Select/Combinations.antt =====
-- The map of combinations: what its entries are, and that no combination is missing.
use bwk.Common.{
  ℕ, zero, suc, none, some, List, [], ◌≡◌, refl, ◌+◌, ◌-◌, ◌^◌, ◌<◌, ◌≤◌, ◌≢◌, arith, All, length,
  Bool-cases, inl, inr, ◌==◌,
}
use bwk.Common.OrdMap.{nat_ord, insert, lookup, lookup-insert, insert-All}
use bwk.Tx.Select.{CoinCandidate, Selection, Selections, new, picked, add_masks, combinations}

module _ (to_vb : ℕ → ℕ) (coins : List CoinCandidate) (feerate : ℕ) where
  abbrev pub combination : ℕ → Selection
  combination mask = new to_vb (picked mask 0 coins) feerate

  -- An entry is the selection of some mask, under what it leaves to spend.
  abbrev pub IsCombination : ℕ × Selection → Type 0
  IsCombination e = (e.0 ≡ e.1.spendable_amount) × ((mask : ℕ) × (e.1 ≡ combination mask))

  abbrev added : ℕ → ℕ → Selections → Selections
  added count mask m = add_masks to_vb count mask coins feerate m

  added-All :
      (count mask : ℕ) (m : Selections)
      → All IsCombination m
      → All IsCombination (added count mask m)
  unfolding add_masks
  added-All zero mask m h = h
  added-All (suc count) mask m h = added-All count (suc mask) _ (
      insert-All IsCombination (combination mask).spendable_amount (combination mask) m
        (refl, (mask, refl)) h)

  added-lookup :
      (count mask : ℕ) (m : Selections) (k : ℕ)
      → lookup k m ≢ none
      → lookup k (added count mask m) ≢ none
  unfolding add_masks
  added-lookup zero mask m k h = h
  added-lookup (suc count) mask m k h =
      let s = combination mask in
      added-lookup count (suc mask) (insert s.spendable_amount s m) k
        (λ e. ground (arith, lookup-insert s.spendable_amount k s m))

  added-mask :
      (count mask : ℕ) (m : Selections) (x : ℕ)
      → mask ≤ x
      → x < mask + count
      → lookup (combination x).spendable_amount (added count mask m) ≢ none
  unfolding add_masks
  added-mask zero mask m x lo hi = absurd (omega arith)
  added-mask (suc count) mask m x lo hi = elim (Bool-cases (mask == x)) [
    | inl here ↦
        let same : mask ≡ x = ground arith in
        let s = combination mask in
        rw (← same) (
          added-lookup count (suc mask) (insert s.spendable_amount s m) s.spendable_amount
            (λ e. ground (arith, lookup-insert s.spendable_amount s.spendable_amount s m)))
    | inr later ↦ added-mask count (suc mask) _ x (ground arith) (omega arith)
  ]

  pub combinations-ne-none :
      0 < length coins → length coins ≤ 20 → combinations to_vb coins feerate ≢ none
  unfolding combinations
  combinations-ne-none some_coins few e = ground arith

  combinations-added :
      {m : Selections}
      → combinations to_vb coins feerate ≡ some m
      → m ≡ added (2 ^ length coins - 1) 1 []
  unfolding combinations
  combinations-added h = ground arith

  -- Every entry is the selection of a mask.
  pub combinations-All :
      {m : Selections} → combinations to_vb coins feerate ≡ some m → All IsCombination m
  combinations-All h = rw (combinations-added h) (added-All (2 ^ length coins - 1) 1 [] tt)

  -- Every mask of the coins but the empty one has an entry under what it leaves to spend.
  pub combinations_complete :
      {m : Selections} (mask : ℕ)
      → combinations to_vb coins feerate ≡ some m
      → 0 < mask
      → mask < 2 ^ length coins
      → lookup (combination mask).spendable_amount m ≢ none
  combinations_complete mask h lo hi =
      rw (combinations-added h)
        (added-mask (2 ^ length coins - 1) 1 [] mask (omega arith) (omega arith))
