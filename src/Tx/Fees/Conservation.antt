-- ===== src/Tx/Fees/Conservation.antt =====
-- Where the satoshis between inputs and outputs go, in `process_fees`.
use bwk.Common.{ℕ, Option, none, some, ◌≡◌, ◌+◌, ◌≤◌, ◌<◌, ◌≢◌, ◌⊎◌, ◌↔◌, arith, u64_mod}
use bwk.Tx.Types.{Fees, Drain, FeeResult, add_input, not_enough_for_fee}
use bwk.Tx.Fees.{process_fees, fee_for}

abbrev pub or_zero : Option ℕ → ℕ
or_zero none = 0
or_zero (some n) = n

-- What a result hands out: the fee, the change and the output that takes all.
abbrev pub handed_out : FeeResult → ℕ
handed_out r = or_zero r.fees + or_zero r.change + or_zero r.max

module _ (to_vb : ℕ → ℕ) (fees : Fees) (weight weight_change sum_inputs sum_outputs : ℕ)
    (drain : Drain) (dust : ℕ) where
  abbrev pub result : FeeResult
  result = process_fees to_vb fees weight weight_change sum_inputs sum_outputs drain dust

  -- Where the inputs fit 64 bits, the two errors and the success are told by the sums: inputs below
  -- the outputs, inputs that do not pay the fee without change, and inputs that do.
  pub process_fees-error :
      sum_inputs < u64_mod
      → ((result.error ≡ some add_input) ↔ (sum_inputs < sum_outputs))
        × ((result.error ≡ some not_enough_for_fee)
            ↔ (sum_outputs ≤ sum_inputs) × (sum_inputs < sum_outputs + fee_for to_vb fees weight))
        × ((result.error ≡ none) ↔ (sum_outputs + fee_for to_vb fees weight ≤ sum_inputs))
  unfolding process_fees
  process_fees-error h = ground arith

  -- A success for change or a maximal output hands out the whole allowance: outputs, fee, change and
  -- maximum add up to the inputs. The inputs fit 64 bits; and for change the inputs pay the fee with
  -- change, or leave less than the dust threshold after the fee without.
  pub process_fees-conserves :
      sum_inputs < u64_mod
      → drain ≢ Drain.none
      → ((drain ≡ Drain.max)
          ⊎ ((sum_outputs + fee_for to_vb fees weight_change ≤ sum_inputs)
              ⊎ (sum_inputs < sum_outputs + fee_for to_vb fees weight + dust)))
      → result.error ≡ none
      → sum_outputs + handed_out result ≡ sum_inputs
  unfolding process_fees
  process_fees-conserves h d k e = ground arith
