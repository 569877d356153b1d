-- ===== src/Tx/Fees/Dust.antt =====
-- The drain of `process_fees` against the dust threshold and the fee it owes.
use bwk.Common.{ℕ, none, some, ◌≡◌, ◌+◌, ◌≤◌, ◌<◌, ◌≢◌, ◌⊎◌, ◌↔◌, arith, u64_mod, []}
use bwk.Tx.Types.{Fees, Drain, FeeResult}
use bwk.Tx.Fees.{process_fees, fee_for}
use bwk.Tx.Fees.Conservation.{result}

module _ (to_vb : ℕ → ℕ) (fees : Fees) (weight weight_change sum_inputs sum_outputs : ℕ)
    (drain : Drain) (dust : ℕ) where
  abbrev outcome : FeeResult
  outcome = result to_vb fees weight weight_change sum_inputs sum_outputs drain dust

  -- No drain below the threshold: whatever the numbers are, a change or a maximal output that is
  -- created is at least the dust threshold, they never appear together, and each appears for its
  -- own kind of drain only.
  process_fees-dust :
      ((c : ℕ)
        → outcome.change ≡ some c
        → (dust ≤ c) × (drain ≡ Drain.change) × (outcome.max ≡ none))
      × ((m : ℕ)
          → outcome.max ≡ some m
          → (dust ≤ m) × (drain ≡ Drain.max) × (outcome.change ≡ none))
  unfolding process_fees
  process_fees-dust = (λ c h. ground arith, λ m h. ground arith)

  -- Without an error there is a fee, it is at least what the weight without change costs, and where
  -- change is created it is what the weight with change costs.
  process_fees-fee :
      sum_inputs < u64_mod
      → outcome.error ≡ none
      → (outcome.fees ≢ none)
        × ((fee : ℕ)
            → outcome.fees ≡ some fee
            → ((outcome.change ≡ none) × (fee_for to_vb fees weight ≤ fee))
              ⊎ ((outcome.change ≢ none) × (fee ≡ fee_for to_vb fees weight_change)))
  unfolding process_fees
  process_fees-fee h e = (ground arith, λ fee f. ground arith)

  -- A warning is given exactly when the drain was dropped and its value went to the fee.
  process_fees-warning :
      sum_inputs < u64_mod
      → drain ≢ Drain.none
      → outcome.error ≡ none
      → (outcome.warnings ≢ []) ↔ (outcome.change ≡ none) × (outcome.max ≡ none)
  unfolding process_fees
  process_fees-warning h d e = ground arith

module _ (to_vb : ℕ → ℕ) (fees : Fees) (weight weight_change sum_inputs sum_outputs dust : ℕ) where
  pub process_fees_change_max :
      (result to_vb fees weight weight_change sum_inputs sum_outputs Drain.change dust).max ≡ none
  unfolding process_fees
  process_fees_change_max = ground arith

  pub process_fees_max_change :
      (result to_vb fees weight weight_change sum_inputs sum_outputs Drain.max dust).change ≡ none
  unfolding process_fees
  process_fees_max_change = ground arith

  -- What is left below the threshold goes to the fee: no maximal output, and no error.
  pub process_fees_lost :
      sum_inputs < u64_mod
      → sum_outputs + fee_for to_vb fees weight ≤ sum_inputs
      → sum_inputs < sum_outputs + fee_for to_vb fees weight + dust
      → let r = result to_vb fees weight weight_change sum_inputs sum_outputs Drain.max dust in
        (r.error ≡ none) × (r.max ≡ none)
  unfolding process_fees
  process_fees_lost hi pays lost = ground arith
