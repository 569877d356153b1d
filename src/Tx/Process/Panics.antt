-- ===== src/Tx/Process/Panics.antt =====
-- The `unreachable!` at the end of `process_transaction`: when it is reached, and when it is not.
use bwk.Common.{
  ℕ, false, Option, none, some, List, [], ◌∷◌, ◌≡◌, ◌+◌, ◌<◌, ◌≤◌, arith, u64_mod, ◌≢◌,
}
use bwk.Coin.{Coin}
use bwk.Tx.Types.{TxTemplate, Recipient, is_null, FeeResult}
use bwk.Tx.Fees.Dust.{process_fees_max_change, process_fees_lost}
use bwk.Tx.Weight.{tx_estimated_weight}
use bwk.Tx.Checks.{sum_input_values}
use bwk.Tx.Checks.Laws.{inputs_value, sum_input_values-sum}
use bwk.Tx.Process.{process_transaction, process_fees_of, Selection, change_weight}
use bwk.Tx.Process.Outputs.{fixed_value, max_positions, scan_outputs-max_positions}
use bwk.Tx.Process.Total.{outcome, fee_without_change, settle_max-eq-none, funded}

module _ {D : Type 0} (to_vb : ℕ → ℕ) (t : TxTemplate D) (change_recipient : Option Recipient)
    (sel : Option (Selection D)) where
  abbrev fees_at : List (Coin D) → ℕ → Option ℕ → FeeResult
  fees_at inputs total maxed =
      process_fees_of to_vb (funded to_vb t change_recipient sel inputs) change_recipient total
        maxed

  -- A sweep that pays its fee but leaves less than the dust threshold panics: the fee takes all, no
  -- maximal amount is set, and the last `match` has no arm for that.
  pub process_transaction_sweep_panics :
      {p : ℕ}
      → max_positions 0 t.outputs ≡ p ∷ []
      → is_null t.fees ≡ false
      → t.inputs ≢ []
      → inputs_value t.inputs < u64_mod
      → fixed_value t.outputs + fee_without_change to_vb t change_recipient sel t.inputs
        ≤ inputs_value t.inputs
      → inputs_value t.inputs
        < fixed_value t.outputs
          + fee_without_change to_vb t change_recipient sel t.inputs
          + t.dust_threshold
      → outcome to_vb t change_recipient sel ≡ none
  unfolding process_transaction process_fees_of
  process_transaction_sweep_panics {p} m n full hi pays lost =
      let weight = tx_estimated_weight t in
      let worth = sum_input_values-sum t.inputs t.outputs hi in
      let none_left =
        process_fees_lost to_vb t.fees weight (change_weight weight change_recipient)
          (sum_input_values t.inputs) (fixed_value t.outputs) t.dust_threshold in
      let stuck =
        settle_max-eq-none t (fees_at t.inputs (fixed_value t.outputs) (some p)) p m
          (process_fees_max_change to_vb t.fees _ _ _ _ _) in
      ground (arith, scan_outputs-max_positions t.outputs, none_left, stuck)
