-- ===== src/Tx/Process.antt =====
-- `process_transaction` and `select_inputs` of tx/src/transaction.rs.
--
-- The coin selection is the pair of a selector and of the spendable coins of its source. A panic
-- (`unreachable!`, `expect`) is `none`: the call does not return.
pub mod Outputs
pub mod Total
pub mod Panics
use bwk.Common.{
  ℕ, zero, suc, Bool, true, false, Option, none, some, List, [], ◌∷◌, ◌++◌, map, ◌/◌, add64, mul64,
  is_empty, if◌then◌else◌, Result, ok, err, ◌>>=◌,
}
use bwk.Coin.{Coin}
use bwk.Tx.Types.{
  Error, fees_null, single_max, no_inputs, coin_selection, coin_selection_requires_feerate, Fees,
  sats, milli_sats_vb, is_null, Amount, value, anchor, Drain, FeeResult, Recipient, set_amount,
  TxTemplate, TransactionResult, from_template, Warning, to_warning,
}
use bwk.Tx.Fees.{process_fees}
use bwk.Tx.Weight.{tx_estimated_weight}
use bwk.Tx.Checks.{check_disproportionate_fee, sum_input_values}

-- The loop over the outputs: the total of the given amounts, and the position of the output that
-- takes all, of which there is one at most.
abbrev scan_step : ℕ → Amount → ℕ × Option ℕ → Result Error (ℕ × Option ℕ)
scan_step pos (value sat) (total, maxed) = ok (add64 total sat, maxed)
scan_step pos (Amount.max v) (total, none) = ok (total, some pos)
scan_step pos (Amount.max v) (total, some p) = err single_max
scan_step pos anchor (total, maxed) = ok (total, maxed)

unfoldable pub scan_outputs : ℕ → List Recipient → ℕ × Option ℕ → Result Error (ℕ × Option ℕ)
scan_outputs pos [] acc = ok acc
scan_outputs pos (o ∷ os) acc = do acc' ← scan_step pos o.amount acc; scan_outputs (suc pos) os acc'

-- `get_mut(pos)` and `set_amount`; `none` where there is no such output.
unfoldable pub set_output : List Recipient → ℕ → Amount → Option (List Recipient)
set_output [] pos a = none
set_output (o ∷ os) zero a = some (set_amount o a ∷ os)
set_output (o ∷ os) (suc pos) a = elim (set_output os pos a) [
  | none ↦ none
  | some rest ↦ some (o ∷ rest)
]

-- A selector and the spendable coins of its source.
abbrev pub Selection : Type 0 → Type 0
Selection D = (List (Coin D) → ℕ → ℕ → List (Coin D)) × List (Coin D)

abbrev rate_of : Fees → Result Error ℕ
rate_of (milli_sats_vb rate) = ok rate
rate_of (sats fee) = err coin_selection_requires_feerate

abbrev pub change_weight : ℕ → Option Recipient → ℕ
change_weight wo_change none = wo_change
change_weight wo_change (some r) = add64 wo_change r.output_weight

abbrev pub drain_of : Option ℕ → Drain
drain_of (some pos) = Drain.max
drain_of none = Drain.change

-- The warning of the fee check at its default thresholds.
abbrev fee_warnings : Result Error (Unit {0}) → List Warning
fee_warnings (ok u) = []
fee_warnings (err e) = elim (to_warning e) [ none ↦ [] | some w ↦ w ∷ [] ]

module _ {D : Type 0} where
  abbrev non_empty : List (Coin D) → Result Error (List (Coin D))
  non_empty [] = err coin_selection
  non_empty (c ∷ cs) = ok (c ∷ cs)

  abbrev with_error : TransactionResult D → Error → TransactionResult D
  with_error r e = record r { error = some e }

  -- The last `match`: the value of the drain goes to its output, or is reported as change.
  apply_drain : TransactionResult D → Option ℕ → Option ℕ → Option ℕ → Option (TransactionResult D)
  unfolding set_output
  apply_drain r (some pos) (some v) none =
      elim (set_output r.tx_template.outputs pos (Amount.max (some v))) [
        | none ↦ none
        | some outputs ↦
            some (record r { tx_template = record (r.tx_template) { outputs = outputs } })
      ]
  apply_drain r none none (some c) = some (record r { change = some c })
  apply_drain r none none none = some r
  apply_drain r _ _ _ = none

  -- From the fees on.
  unfoldable pub settle : TransactionResult D → Option ℕ → FeeResult → Option (TransactionResult D)
  unfolding apply_drain
  settle r maxed f =
      let warned = record r { warnings = r.warnings ++ f.warnings } in
      elim f.error [
        | some e ↦ some (with_error warned e)
        | none ↦
            let t = r.tx_template in
            let checked =
              fee_warnings (check_disproportionate_fee t.inputs t.outputs 10 2_000_000) in
            apply_drain (record warned { fees = f.fees; warnings = warned.warnings ++ checked })
              maxed f.max f.change
      ]

module _ {D : Type 0} (to_vbytes_ceil : ℕ → ℕ) where
  abbrev selected_inputs : TxTemplate D → ℕ → Option ℕ → Selection D → Result Error (List (Coin D))
  selected_inputs t outputs_total (some pos) (selector, spendable) = ok spendable
  selected_inputs t outputs_total none (selector, spendable) = do
    rate ← rate_of t.fees
    let base_fee = mul64 (to_vbytes_ceil (tx_estimated_weight t)) rate / 1000
    ok (selector spendable (add64 outputs_total base_fee) rate)

  unfoldable pub select_inputs :
      TxTemplate D → ℕ → Option ℕ → Option (Selection D) → Result Error (List (Coin D))
  select_inputs t outputs_total maxed none = err no_inputs
  select_inputs t outputs_total maxed (some sel) = do
    selected ← selected_inputs t outputs_total maxed sel
    non_empty selected

  abbrev inputs_or_selected :
      TxTemplate D → ℕ → Option ℕ → Option (Selection D) → Result Error (List (Coin D))
  inputs_or_selected t outputs_total maxed sel =
      if is_empty t.inputs then select_inputs t outputs_total maxed sel else ok t.inputs

  unfoldable pub process_fees_of : TxTemplate D → Option Recipient → ℕ → Option ℕ → FeeResult
  process_fees_of t change_recipient outputs_total maxed =
      let wo_change = tx_estimated_weight t in
      process_fees to_vbytes_ceil t.fees wo_change (change_weight wo_change change_recipient)
        (sum_input_values t.inputs) outputs_total (drain_of maxed) t.dust_threshold

  unfoldable pub process_transaction :
      TxTemplate D → Option Recipient → Option (Selection D) → Option (TransactionResult D)
  unfolding settle process_fees_of
  process_transaction t change_recipient sel =
      let result = from_template t in
      if is_null t.fees
      then some (with_error result fees_null)
      else elim (scan_outputs 0 t.outputs (0, none)) [
        | err e ↦ some (with_error result e)
        | ok (outputs_total, maxed) ↦ elim (inputs_or_selected t outputs_total maxed sel) [
          | err e ↦ some (with_error result e)
          | ok inputs ↦
              let t' = record t { inputs = inputs } in
              settle (from_template t') maxed
                (process_fees_of t' change_recipient outputs_total maxed)
        ]
      ]
