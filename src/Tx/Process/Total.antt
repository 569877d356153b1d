-- ===== src/Tx/Process/Total.antt =====
-- `process_transaction`: when it returns, and where the satoshis of a result go.
use bwk.Common.{
  ℕ, Option, none, some, List, [], ◌∷◌, ◌≡◌, ◌+◌, ◌<◌, ◌≤◌, ◌⊎◌, ◌↔◌, arith, u64_mod, ok,
  Option-cases, Result-cases, inl, inr, ◌≢◌,
}
use bwk.Coin.{Coin}
use bwk.Tx.Types.{TxTemplate, TransactionResult, Recipient, from_template, FeeResult, Drain}
use bwk.Tx.Fees.{fee_for}
use bwk.Tx.Fees.Conservation.{or_zero, process_fees-conserves, handed_out}
use bwk.Tx.Fees.Dust.{process_fees_change_max, process_fees_max_change}
use bwk.Tx.Weight.{tx_estimated_weight}
use bwk.Tx.Checks.{sum_input_values}
use bwk.Tx.Checks.Laws.{outputs_value, inputs_value, sum_input_values-sum}
use bwk.Tx.Process.{
  process_transaction, process_fees_of, scan_outputs, Selection, inputs_or_selected, settle,
  change_weight,
}
use bwk.Tx.Process.Outputs.{
  fixed_value, max_positions, outputs_value_fixed, set_output_max, Found, scan_outputs-Found,
}

-- The last step keeps the value: a maximal amount goes to its output, and nothing else changes.
module _ {D : Type 0} (t : TxTemplate D) (f : FeeResult) where
  pub settle_change-ne-none : f.max ≡ none → settle (from_template t) none f ≢ none
  unfolding settle from_template
  settle_change-ne-none n e = ground arith

  pub settle_max-eq-none :
      (p : ℕ)
      → max_positions 0 t.outputs ≡ p ∷ []
      → f.change ≡ none
      → (settle (from_template t) (some p) f ≡ none) ↔ (f.error ≡ none) × (f.max ≡ none)
  unfolding settle from_template
  settle_max-eq-none p m n = elim (Option-cases f.max) [
    | inl nothing ↦ ground arith
    | inr (v, given) ↦ ground (arith, set_output_max 0 p t.outputs v)
  ]

  -- What a result that was settled from `r` and `f` is.
  record Settled (r' : TransactionResult D) : Type 0 where
    inputs : r'.tx_template.inputs ≡ t.inputs
    error : r'.error ≡ f.error
    value :
        f.error ≡ none
        → outputs_value r'.tx_template.outputs + or_zero r'.change + or_zero r'.fees
          ≡ fixed_value t.outputs + handed_out f

  module _ (r' : TransactionResult D) where
    settle_change :
        max_positions 0 t.outputs ≡ []
        → f.max ≡ none
        → settle (from_template t) none f ≡ some r'
        → Settled r'
    unfolding settle from_template
    settle_change m n e = record {
      inputs = ground arith;
      error = ground arith;
      value = λ fe. ground (arith, outputs_value_fixed 0 t.outputs);
    }

    settle_max :
        (p : ℕ)
        → max_positions 0 t.outputs ≡ p ∷ []
        → f.change ≡ none
        → settle (from_template t) (some p) f ≡ some r'
        → Settled r'
    unfolding settle from_template
    settle_max p m n e = elim (Option-cases f.max) [
      | inl nothing ↦
          let failed : f.error ≢ none = λ fe. ground arith in
          record { inputs = ground arith; error = ground arith; value = λ fe. absurd (failed fe) }
      | inr (v, given) ↦
          let (written, worth) = set_output_max 0 p t.outputs v (ground arith) in
          record { inputs = ground arith; error = ground arith; value = λ fe. ground arith }
    ]

module _ {D : Type 0} (to_vb : ℕ → ℕ) (t : TxTemplate D) (change_recipient : Option Recipient)
    (sel : Option (Selection D)) where
  abbrev pub outcome : Option (TransactionResult D)
  outcome = process_transaction to_vb t change_recipient sel

  abbrev pub funded : List (Coin D) → TxTemplate D
  funded inputs = record t { inputs = inputs }

  abbrev pub settled : List (Coin D) → ℕ → Option ℕ → Option (TransactionResult D)
  settled inputs total maxed =
      settle (from_template (funded inputs)) maxed
        (process_fees_of to_vb (funded inputs) change_recipient total maxed)

  -- A result without an error passed every step.
  pub outcome-steps :
      {r : TransactionResult D}
      → outcome ≡ some r
      → r.error ≡ none
      → (total : ℕ) × (maxed : Option ℕ) × (inputs : List (Coin D)) × (scan_outputs 0 t.outputs
            (0, none)
          ≡ ok (total, maxed))
        × (inputs_or_selected to_vb t total maxed sel ≡ ok inputs)
        × (settled inputs total maxed ≡ some r)
  unfolding process_transaction
  outcome-steps {r} h e = elim (Result-cases (scan_outputs 0 t.outputs (0, none))) [
    | inr (x, failed) ↦ absurd (ground arith)
    | inl ((total, maxed), found) ↦
        elim (Result-cases (inputs_or_selected to_vb t total maxed sel)) [
          | inr (x, failed) ↦ absurd (ground arith)
          | inl (inputs, chosen) ↦ (total, maxed, inputs, found, chosen, ground arith)
        ]
  ]

  pub settled_inputs :
      (inputs : List (Coin D)) (total : ℕ) (maxed : Option ℕ) {r : TransactionResult D}
      → settled inputs total maxed ≡ some r
      → r.tx_template.inputs ≡ inputs
  unfolding settle from_template
  settled_inputs inputs total none e = ground arith
  settled_inputs inputs total (some p) e = ground arith

  -- The weight and the fee of the funded template, with and without the change output.
  abbrev pub fee_without_change : List (Coin D) → ℕ
  fee_without_change inputs = fee_for to_vb t.fees (tx_estimated_weight (funded inputs))

  abbrev pub fee_with_change : List (Coin D) → ℕ
  fee_with_change inputs =
      fee_for to_vb t.fees (change_weight (tx_estimated_weight (funded inputs)) change_recipient)

  abbrev fees_of : List (Coin D) → Option ℕ → FeeResult
  fees_of inputs maxed =
      process_fees_of to_vb (funded inputs) change_recipient (fixed_value t.outputs) maxed

  abbrev weight_of : List (Coin D) → ℕ
  weight_of inputs = tx_estimated_weight (funded inputs)

  module _ (inputs : List (Coin D)) (r : TransactionResult D) (done : r.error ≡ none) where
    conserves_change :
        max_positions 0 t.outputs ≡ []
        → settled inputs (fixed_value t.outputs) none ≡ some r
        → inputs_value inputs < u64_mod
        → ((fixed_value t.outputs + fee_with_change inputs ≤ inputs_value inputs)
            ⊎ (inputs_value inputs
                < fixed_value t.outputs + fee_without_change inputs + t.dust_threshold))
        → (outputs_value r.tx_template.outputs + or_zero r.change + or_zero r.fees
            ≡ inputs_value inputs)
    unfolding process_fees_of
    conserves_change m e hi fits =
        let none_max =
          process_fees_change_max to_vb t.fees (weight_of inputs)
            (change_weight (weight_of inputs) change_recipient) (sum_input_values inputs)
            (fixed_value t.outputs) t.dust_threshold in
        let s = settle_change (funded inputs) (fees_of inputs none) r m none_max e in
        let worth = sum_input_values-sum inputs t.outputs hi in
        let kept =
          process_fees-conserves to_vb t.fees (weight_of inputs)
            (change_weight (weight_of inputs) change_recipient) (sum_input_values inputs)
            (fixed_value t.outputs) Drain.change t.dust_threshold in
        ground (arith, s.error, s.value, kept)

    conserves_max :
        (p : ℕ)
        → max_positions 0 t.outputs ≡ p ∷ []
        → settled inputs (fixed_value t.outputs) (some p) ≡ some r
        → inputs_value inputs < u64_mod
        → (outputs_value r.tx_template.outputs + or_zero r.change + or_zero r.fees
            ≡ inputs_value inputs)
    unfolding process_fees_of
    conserves_max p m e hi =
        let no_change =
          process_fees_max_change to_vb t.fees (weight_of inputs)
            (change_weight (weight_of inputs) change_recipient) (sum_input_values inputs)
            (fixed_value t.outputs) t.dust_threshold in
        let s = settle_max (funded inputs) (fees_of inputs (some p)) r p m no_change e in
        let worth = sum_input_values-sum inputs t.outputs hi in
        let kept =
          process_fees-conserves to_vb t.fees (weight_of inputs)
            (change_weight (weight_of inputs) change_recipient) (sum_input_values inputs)
            (fixed_value t.outputs) Drain.max t.dust_threshold in
        ground (arith, s.error, s.value, kept)

    conserves :
        (total : ℕ) (maxed : Option ℕ)
        → Found t.outputs total maxed
        → settled inputs total maxed ≡ some r
        → inputs_value inputs < u64_mod
        → fixed_value t.outputs < u64_mod
        → ((max_positions 0 t.outputs ≢ [])
            ⊎ ((fixed_value t.outputs + fee_with_change inputs ≤ inputs_value inputs)
                ⊎ (inputs_value inputs
                    < fixed_value t.outputs + fee_without_change inputs + t.dust_threshold)))
        → outputs_value r.tx_template.outputs + or_zero r.change + or_zero r.fees
          ≡ inputs_value inputs
    conserves total maxed (exact, found) e hi ho fits =
        let whole : total ≡ fixed_value t.outputs = omega arith in
        elim found [
          | inl (no_max, m) ↦
              conserves_change m (rw (whole, no_max) at e) hi
                (elim fits [ inl some_max ↦ absurd (some_max m) | inr f ↦ f ])
          | inr (p, one_max, m) ↦ conserves_max p m (rw (whole, one_max) at e) hi
        ]

  -- A result without an error spends exactly its inputs: the outputs, the change and the fee add up
  -- to them. The inputs and the given amounts fit 64 bits; and where no output takes all, either the
  -- inputs pay the fee with change, or what they leave is below the dust threshold.
  pub process_transaction-conserves :
      {r : TransactionResult D}
      → outcome ≡ some r
      → r.error ≡ none
      → inputs_value r.tx_template.inputs < u64_mod
      → fixed_value t.outputs < u64_mod
      → ((max_positions 0 t.outputs ≢ [])
          ⊎ ((fixed_value t.outputs + fee_with_change r.tx_template.inputs
                ≤ inputs_value r.tx_template.inputs)
              ⊎ (inputs_value r.tx_template.inputs
                  < fixed_value t.outputs
                    + fee_without_change r.tx_template.inputs
                    + t.dust_threshold)))
      → outputs_value r.tx_template.outputs + or_zero r.change + or_zero r.fees
        ≡ inputs_value r.tx_template.inputs
  unfolding process_fees_of
  process_transaction-conserves {r} h e hi ho fits =
      let (total, maxed, inputs, found, chosen, done) = outcome-steps h e in
      let same = settled_inputs inputs total maxed done in
      rw same (
        conserves inputs r e total maxed (scan_outputs-Found t.outputs found) done (rw same at hi)
          ho (rw same at fits))
