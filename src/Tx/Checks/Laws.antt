-- ===== src/Tx/Checks/Laws.antt =====
-- The sums of the checks without overflow, and what a passed check guarantees.
use bwk.Common.{
  ℕ, true, List, [], ◌∷◌, map, ◌≡◌, ◌+◌, ◌-◌, ◌*◌, ◌%◌, ◌≤◌, ◌<◌, ◌↔◌, ◌⊎◌, arith, u64_mod, add64,
  sum, any, select_by, not, ok,
}
use bwk.Coin.{Coin}
use bwk.Tx.Types.{Recipient, Fees}
use bwk.Tx.Fees.{fee_for}
use bwk.Tx.Weight.{tx_estimated_weight}
use bwk.Tx.Checks.{
  sum64, output_amount, sum_output_amounts, sum_input_values, paid_outputs,
  check_disproportionate_fee, check_missing_change,
}

pub sum64-sum : (acc : ℕ) (xs : List ℕ) → acc < u64_mod → sum64 acc xs ≡ (acc + sum xs) % u64_mod
unfolding sum64
sum64-sum acc [] h = omega arith
sum64-sum acc (x ∷ xs) h = omega (arith, sum64-sum (add64 acc x) xs)

-- What the outputs and the inputs are worth, as plain sums.
abbrev pub outputs_value : List Recipient → ℕ
outputs_value outputs = sum (map output_amount outputs)

abbrev pub inputs_value : {D : Type 0} → List (Coin D) → ℕ
inputs_value inputs = sum (map (λ c. c.txout.value) inputs)

-- What goes to outputs other than the change.
abbrev pub paid_value : List Recipient → ℕ
paid_value outputs = sum (map output_amount (select_by (λ r. not r.is_change) outputs))

pub paid_value-le : (outputs : List Recipient) → paid_value outputs ≤ outputs_value outputs
paid_value-le [] = omega arith
paid_value-le (r ∷ rs) = ground (arith, paid_value-le rs)

module _ {D : Type 0} (inputs : List (Coin D)) (outputs : List Recipient) where
  pub sum_input_values-sum :
      inputs_value inputs < u64_mod → sum_input_values inputs ≡ inputs_value inputs
  unfolding sum_input_values
  sum_input_values-sum h = omega (arith, sum64-sum 0 (map (λ c. c.txout.value) inputs))

  -- Inputs and outputs that fit 64 bits pass the check exactly if nothing is paid, or the fee is
  -- within the percentage of what is paid or within the fixed amount.
  pub check_disproportionate_fee-ok :
      (pct amount : ℕ)
      → inputs_value inputs < u64_mod
      → outputs_value outputs < u64_mod
      → paid_value outputs * pct < u64_mod
      → (check_disproportionate_fee inputs outputs pct amount ≡ ok tt) ↔ (
          (paid_value outputs ≡ 0)
          ⊎ (((inputs_value inputs - outputs_value outputs) * 100 ≤ paid_value outputs * pct)
              ⊎ (inputs_value inputs - outputs_value outputs ≤ amount)))
  unfolding check_disproportionate_fee sum_input_values sum_output_amounts paid_outputs
  check_disproportionate_fee-ok pct amount hi ho hp = ground (
    arith,
    sum64-sum 0 (map (λ c. c.txout.value) inputs),
    sum64-sum 0 (map output_amount outputs),
    sum64-sum 0 (map output_amount (select_by (λ r. not r.is_change) outputs)),
    paid_value-le outputs,
  )

  -- A passed check leaves an output marked as change, or a fee that is within the dust threshold of
  -- the fee that the weight costs.
  check_missing_change-ok :
      (to_vb : ℕ → ℕ) (fees : Fees) (dust : ℕ)
      → inputs_value inputs < u64_mod
      → outputs_value outputs < u64_mod
      → (check_missing_change to_vb inputs outputs fees dust ≡ ok tt) ↔ (
          (any (λ o. o.is_change) outputs ≡ true)
          ⊎ (inputs_value inputs
              ≤ outputs_value outputs
                + dust
                + fee_for to_vb fees (
                    tx_estimated_weight (record {
                      inputs = inputs;
                      outputs = outputs;
                      fees = fees;
                      dust_threshold = dust;
                    }))))
  unfolding check_missing_change sum_input_values sum_output_amounts
  check_missing_change-ok to_vb fees dust hi ho = ground (
    arith,
    sum64-sum 0 (map (λ c. c.txout.value) inputs),
    sum64-sum 0 (map output_amount outputs),
  )
