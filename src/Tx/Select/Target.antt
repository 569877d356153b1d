-- ===== src/Tx/Select/Target.antt =====
-- `select` as a whole: the selection pays the target, and one is found where a combination pays it.
use bwk.Common.{
  ℕ, Option, some, List, map, ◌≡◌, ◌+◌, ◌^◌, ◌*◌, ◌∙◌, ap, ◌<◌, ◌≤◌, arith, u64_mod, length,
  Option-cases, inl, inr, All,
}
use bwk.Tx.Select.{
  CoinCandidate, Selection, Selections, discard_dust, picked, combinations, all_coins_combinations,
  choose, select, new,
}
use bwk.Tx.Select.Values.{
  IsWorthwhile, values, input_fees, new-values, discard_dust-IsWorthwhile, picked-All,
  picked-values-le,
}
use bwk.Tx.Select.Combinations.{
  IsCombination, combination, combinations-All, combinations_complete, combinations-ne-none,
}
use bwk.Tx.Select.Returns.{choose-Returns, cj_selection-Returns}
use bwk.Tx.Select.Choice.{choose-Covers, choose-ne-none}

module _ (random : ℕ → ℕ → ℕ) (to_vb : ℕ → ℕ) (coins : List CoinCandidate)
    (target feerate min_change max_change dust : ℕ) where
  abbrev pub outcome : Option (Option Selection × Option Selection)
  outcome = select random to_vb coins target feerate min_change max_change dust

  -- The coins that are not dust, and those of a mask among them.
  abbrev pub usable : List CoinCandidate
  usable = discard_dust to_vb coins feerate

  abbrev pub chosen : ℕ → List CoinCandidate
  chosen mask = picked mask 0 usable

  -- A selection of some of the usable coins whose values are what can be spent and the fees of these
  -- inputs, and what can be spent pays the target.
  abbrev pub Pays : Selection → Type 0
  Pays s =
      (mask : ℕ) × (s.outpoints ≡ map (λ c. c.outpoint) (chosen mask))
      × All (IsWorthwhile to_vb feerate) (chosen mask)
      × (s.fees ≡ input_fees to_vb feerate (chosen mask))
      × (s.spendable_amount + s.fees ≡ values (chosen mask))
      × (target ≤ s.spendable_amount)

  chosen-Pays :
      {s : Selection} (k mask : ℕ)
      → values usable < u64_mod
      → k ≡ s.spendable_amount
      → s ≡ combination to_vb usable feerate mask
      → target ≤ k
      → Pays s
  chosen-Pays {s} k mask small keyed same covers =
      let worth =
        picked-All to_vb feerate mask 0 usable (discard_dust-IsWorthwhile to_vb feerate coins) in
      let fits = picked-values-le mask 0 usable in
      let (split, costs, named) = new-values to_vb feerate (chosen mask) worth (omega arith) in
      rw same (
        mask,
        named,
        worth,
        costs,
        split,
        rw same at (let le : target ≤ s.spendable_amount = omega arith in le),
      )

  chosen-of-outcome :
      {m : Selections} {o cj : Option Selection}
      → combinations to_vb usable feerate ≡ some m
      → outcome ≡ some (o, cj)
      → choose m target min_change max_change dust ≡ some o
  unfolding select all_coins_combinations
  chosen-of-outcome found e = ground arith

  -- What is selected is worth its fees and the target: it names some of the usable coins, whose
  -- values are at least the target and the fees of these inputs. The usable values and the target
  -- with the allowed change fit 64 bits.
  pub select-Pays :
      {s : Selection} {cj : Option Selection}
      → values usable < u64_mod
      → target + min_change < u64_mod
      → target + max_change < u64_mod
      → outcome ≡ some (some s, cj)
      → Pays s
  unfolding select all_coins_combinations
  select-Pays {s} {cj} small a b e = elim (Option-cases (combinations to_vb usable feerate)) [
    | inl too_many ↦ absurd (ground arith)
    | inr (m, found) ↦
        let covers =
          choose-Covers (IsCombination to_vb usable feerate) m
            (combinations-All to_vb usable feerate found) target min_change max_change dust {s = s}
            a b (chosen-of-outcome found e) in
        chosen-Pays covers.0 covers.1.1.0 small covers.1.0 covers.1.1.1 covers.2
  ]

  -- With 1 to 20 usable coins, a mask of them whose selection pays the target makes `select` return
  -- a selection. The least change is at most the largest, the target with the largest change or with
  -- the dust threshold and 110 times the target fit 64 bits, and a draw from `0..n` lies below `n`.
  pub select_complete :
      (mask : ℕ)
      → 0 < length usable
      → length usable ≤ 20
      → 0 < mask
      → mask < 2 ^ length usable
      → target ≤ (new to_vb (chosen mask) feerate).spendable_amount
      → min_change ≤ max_change
      → target + max_change < u64_mod
      → target + dust < u64_mod
      → target * 110 < u64_mod
      → ((k n : ℕ) → 0 < n → random k n < n)
      → (s : Selection) × (cj : Option Selection) × (outcome ≡ some (some s, cj))
  unfolding select all_coins_combinations
  select_complete mask some_coins few lo hi covers order fits fits_dust fits_cj in_range =
      elim (Option-cases (combinations to_vb usable feerate)) [
        | inl too_many ↦ absurd (combinations-ne-none to_vb usable feerate some_coins few too_many)
        | inr (m, all) ↦
            let (found, chooses) =
              choose-Returns m target min_change max_change dust order fits fits_dust in
            let (cj, draws) =
              cj_selection-Returns random in_range m target feerate min_change fits_cj in
            elim (Option-cases found) [
              | inl nothing ↦ absurd (
                  choose-ne-none m target min_change max_change dust _ covers
                    (combinations_complete to_vb usable feerate mask all lo hi)
                    (chooses ∙ ap some nothing))
              | inr (s, chose) ↦ (s, cj, ground (arith, all, chooses, draws, chose))
            ]
      ]
