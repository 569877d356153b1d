-- ===== src/Tx/Checks.antt =====
-- The sanity checks of tx/src/transaction.rs: the amounts of the outputs, the disproportionate fee
-- and the missing change.
pub mod Laws
use bwk.Common.{
  ℕ, Bool, true, false, Option, none, some, List, [], ◌∷◌, map, ◌/◌, ◌-◌, ◌&&◌, not, ltb, leb, ◌==◌,
  add64, mul64, saturating_sub, any, select_by, if◌then◌else◌, Result, ok, err,
}
use bwk.Coin.{Coin}
use bwk.Tx.Types.{
  Error, missing_change, Fees, sats, milli_sats_vb, Amount, value, anchor, Recipient, TxTemplate,
}
use bwk.Tx.Weight.{tx_estimated_weight}
use bwk.Tx.Fees.{fee_for}

abbrev pub amount_sats : Amount → ℕ
amount_sats (value v) = v
amount_sats (Amount.max (some v)) = v
amount_sats (Amount.max none) = 0
amount_sats anchor = 0

abbrev pub output_amount : Recipient → ℕ
output_amount r = amount_sats r.amount

-- `Iterator::sum` over `u64`.
unfoldable pub sum64 : ℕ → List ℕ → ℕ
sum64 acc [] = acc
sum64 acc (x ∷ xs) = sum64 (add64 acc x) xs

unfoldable pub sum_output_amounts : List Recipient → ℕ
sum_output_amounts outputs = sum64 0 (map output_amount outputs)

unfoldable pub sum_input_values : {D : Type 0} → List (Coin D) → ℕ
sum_input_values inputs = sum64 0 (map (λ c. c.txout.value) inputs)

unfoldable pub paid_outputs : List Recipient → ℕ
paid_outputs outputs = sum64 0 (map output_amount (select_by (λ r. not r.is_change) outputs))

module _ {D : Type 0} where
  unfoldable pub check_disproportionate_fee :
      List (Coin D) → List Recipient → ℕ → ℕ → Result Error (Unit {0})
  check_disproportionate_fee inputs outputs max_fee_percent max_fee_amount =
      let fee = saturating_sub (sum_input_values inputs) (sum_output_amounts outputs) in
      let paid = paid_outputs outputs in
      let pct_threshold = mul64 paid max_fee_percent / 100 in
      if paid == 0
      then ok tt
      else if ltb pct_threshold fee && ltb max_fee_amount fee
      then err (Error.disproportionate_fees fee paid max_fee_percent max_fee_amount)
      else ok tt

  unfoldable pub check_missing_change :
      (ℕ → ℕ) → List (Coin D) → List Recipient → Fees → ℕ → Result Error (Unit {0})
  check_missing_change to_vbytes_ceil inputs outputs fees dust =
      let fee = saturating_sub (sum_input_values inputs) (sum_output_amounts outputs) in
      let template : TxTemplate D = record {
        inputs = inputs;
        outputs = outputs;
        fees = fees;
        dust_threshold = dust;
      } in
      let excess =
        saturating_sub fee (fee_for to_vbytes_ceil fees (tx_estimated_weight template)) in
      if any (λ o. o.is_change) outputs
      then ok tt
      else if leb fee dust
      then ok tt
      else if ltb dust excess
      then err (missing_change excess)
      else ok tt
