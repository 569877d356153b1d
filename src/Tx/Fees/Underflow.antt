-- ===== src/Tx/Fees/Underflow.antt =====
-- The subtraction `fee_allowance - fee_with_change` of `process_fees`, which nothing guards.
use bwk.Common.{ℕ, none, some, ◌≡◌, ◌+◌, ◌-◌, ◌≤◌, ◌<◌, ◌^◌, arith, u64_mod}
use bwk.Tx.Types.{Fees, Drain}
use bwk.Tx.Fees.{process_fees, fee_for}

-- Inputs that cover the outputs and the fee without change, with at least the dust threshold left,
-- but not the fee with change, give no error and a change of almost 2 ^ 64 satoshis: more than all
-- the inputs together, where the threshold and the sums are below 2 ^ 63.
pub process_fees_underflow :
    (to_vb : ℕ → ℕ) (fees : Fees) (weight weight_change sum_inputs sum_outputs dust : ℕ)
    → sum_inputs < 2 ^ 63
    → dust < 2 ^ 63
    → fee_for to_vb fees weight_change < 2 ^ 63
    → sum_outputs + fee_for to_vb fees weight + dust ≤ sum_inputs
    → sum_inputs < sum_outputs + fee_for to_vb fees weight_change
    → let r =
        process_fees to_vb fees weight weight_change sum_inputs sum_outputs Drain.change dust in
      (r.error ≡ none)
      × (c : ℕ) × (r.change ≡ some c)
      × (sum_inputs < c)
      × (c + fee_for to_vb fees weight_change ≡ u64_mod + sum_inputs - sum_outputs)
unfolding process_fees
process_fees_underflow to_vb fees weight weight_change sum_inputs sum_outputs dust a b c d e = (
  ground arith,
  u64_mod + sum_inputs - sum_outputs - fee_for to_vb fees weight_change,
  ground arith,
  ground arith,
  ground arith,
)
