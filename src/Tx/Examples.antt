-- ===== src/Tx/Examples.antt =====
-- The transaction builder at concrete inputs, with the theorems applied there.
mod Selecting
mod Building
use bwk.Common.{
  ℕ, Bool, true, false, Option, none, some, List, [], ◌∷◌, ◌++◌, map, ◌≡◌, refl, ◌+◌, ◌-◌, ◌*◌, ◌/◌,
  ◌<◌, ◌≤◌, ◌⊎◌, ◌↔◌, inl, inr, arith, u64_mod, any, All, ◌==◌, if◌then◌else◌, length, sum, ◌%◌, ok,
}
use bwk.Common.Sort.{sort_by}
use bwk.Common.OrdMap.{insert}
use bwk.Coin.{Coin, OutPoint, CoinSpendInfo, sp, confirmed}
use bwk.Tx.Types.{
  Fees, sats, milli_sats_vb, Drain, FeeResult, Amount, value, Recipient, TxTemplate,
  TransactionResult, Error, add_input, not_enough_for_fee, is_null, from_template, set_amount,
  to_warning,
}
use bwk.Tx.Fees.{process_fees, fee_for}
use bwk.Tx.Fees.Conservation.{
  process_fees-error, process_fees-conserves, handed_out, or_zero, result,
}
use bwk.Tx.Fees.Underflow.{process_fees_underflow}
use bwk.Tx.Weight.{estimated_weight_raw, tx_estimated_weight}
use bwk.Tx.Weight.Closed.{weight_sum, estimated_weight_raw-closed}
use bwk.Tx.Checks.{
  sum64, sum_output_amounts, sum_input_values, paid_outputs, check_disproportionate_fee,
  check_missing_change,
}
use bwk.Tx.Checks.Laws.{inputs_value, outputs_value, paid_value}
use bwk.Tx.Process.{process_transaction, scan_outputs, set_output, Selection as AutoSelect}
use bwk.Tx.Process.Outputs.{fixed_value, max_positions}
use bwk.Tx.Process.Total.{outcome, process_transaction-conserves}
use bwk.Tx.Process.Panics.{process_transaction_sweep_panics}

abbrev pub vbytes : ℕ → ℕ
vbytes w = (w + 3) / 4

-- A fee of 141 and 172 satoshis out of an allowance of 60000.
abbrev rate : Fees
rate = milli_sats_vb 1000

process_fees-error_example :
    let r = process_fees vbytes rate 561 685 100000 40000 Drain.change 5000 in
    ((r.error ≡ some add_input) ↔ (100000 < 40000))
    × ((r.error ≡ some not_enough_for_fee)
        ↔ (40000 ≤ 100000) × (100000 < 40000 + fee_for vbytes rate 561))
    × ((r.error ≡ none) ↔ (40000 + fee_for vbytes rate 561 ≤ 100000))
process_fees-error_example =
    process_fees-error vbytes rate 561 685 100000 40000 Drain.change 5000 (omega arith)

process_fees-conserves_example :
    40000 + handed_out (process_fees vbytes rate 561 685 100000 40000 Drain.change 5000) ≡ 100000
unfolding process_fees fee_for
process_fees-conserves_example =
    process_fees-conserves vbytes rate 561 685 100000 40000 Drain.change 5000 (omega arith)
      (λ e. cc) (inr (inl (omega arith))) refl

change_example :
    (process_fees vbytes rate 561 685 100000 40000 Drain.change 5000).change ≡ some 59828
unfolding process_fees fee_for
change_example = refl

-- At 200 satoshis a virtual byte the change output costs 6200, and 5500 are left.
abbrev high_rate : Fees
high_rate = milli_sats_vb 200000

process_fees_underflow_example :
    let r = process_fees vbytes high_rate 561 685 73700 40000 Drain.change 5000 in
    (r.error ≡ none)
    × (c : ℕ) × (r.change ≡ some c)
    × (73700 < c)
    × (c + fee_for vbytes high_rate 685 ≡ u64_mod + 73700 - 40000)
unfolding fee_for
process_fees_underflow_example =
    process_fees_underflow vbytes high_rate 561 685 73700 40000 5000 (omega arith) (omega arith)
      (omega arith) (omega arith) (omega arith)

-- Two coins and two outputs, one of them change.
abbrev coin : ℕ → ℕ → Coin ℕ
coin txid sat = record {
  txout = record { value = sat; script_pubkey = [] };
  outpoint = record { txid = txid; vout = 0 };
  height = some 7;
  sequence = 4294967293;
  status = confirmed;
  label = none;
  satisfaction_size = 108;
  spend_info = sp [] [];
}

abbrev output : Amount → Bool → Recipient
output a change = record {
  output_weight = 124;
  script = 81 ∷ [];
  is_silent_payment = false;
  is_change = change;
  amount = a;
}

abbrev pub coins : List (Coin ℕ)
coins = coin 1 60000 ∷ coin 2 40000 ∷ []

abbrev outputs : List Recipient
outputs = output (value 50000) false ∷ output (value 49700) true ∷ []

estimated_weight_raw-closed_example :
    estimated_weight_raw (108 ∷ 66 ∷ []) (124 ∷ [])
    ≡ weight_sum (108 ∷ 66 ∷ []) (124 ∷ []) % u64_mod
estimated_weight_raw-closed_example = estimated_weight_raw-closed (108 ∷ 66 ∷ []) (124 ∷ [])

abbrev pub payment : TxTemplate ℕ
payment = record {
  inputs = coins;
  outputs = output (value 50000) false ∷ [];
  fees = rate;
  dust_threshold = 5000;
}

abbrev pub change_output : Recipient
change_output = output (value 0) true

abbrev pub paid : TransactionResult ℕ
paid = record {
  tx_template = payment;
  change = some 49791;
  fees = some 209;
  warnings = [];
  error = none;
}

abbrev no_selector : Option (AutoSelect ℕ)
no_selector = none

pub program : Unit {0}
unfolding process_transaction process_fees fee_for tx_estimated_weight estimated_weight_raw
    scan_outputs check_disproportionate_fee sum64 sum_output_amounts sum_input_values paid_outputs
    is_null from_template set_output set_amount to_warning
program = tt

paid_run : process_transaction vbytes payment (some change_output) no_selector ≡ some paid
unfolding program
paid_run = refl

process_transaction-conserves_example :
    outputs_value paid.tx_template.outputs + or_zero paid.change + or_zero paid.fees
    ≡ inputs_value paid.tx_template.inputs
unfolding program
process_transaction-conserves_example =
    process_transaction-conserves vbytes payment (some change_output) no_selector {r = paid} refl
      refl (omega arith) (omega arith) (inr (inl (omega arith)))

-- A sweep of one coin of 3000 satoshis at the default dust threshold.
abbrev sweep : TxTemplate ℕ
sweep = record {
  inputs = coin 1 3000 ∷ [];
  outputs = output (Amount.max none) false ∷ [];
  fees = rate;
  dust_threshold = 5000;
}

process_transaction_sweep_panics_example :
    process_transaction vbytes sweep (some change_output) no_selector ≡ none
unfolding program
process_transaction_sweep_panics_example =
    process_transaction_sweep_panics vbytes sweep (some change_output) no_selector {p = 0} refl refl
      (λ e. cc) (omega arith) (omega arith) (omega arith)
