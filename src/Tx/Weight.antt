-- ===== src/Tx/Weight.antt =====
-- The weight estimate of tx/src/transaction.rs, `tx_estimated_weight` and `estimated_weight_raw`.
pub mod Closed
use bwk.Common.{ℕ, List, [], ◌∷◌, map, ◌+◌, add64, leb, length, if◌then◌else◌}
use bwk.Tx.Types.{TxTemplate}

-- The loop over the inputs: 164 is the weight of an input without its satisfaction.
add_inputs : ℕ → List ℕ → ℕ
add_inputs weight [] = weight
add_inputs weight (input_sat ∷ rest) = add_inputs (add64 weight (add64 164 input_sat)) rest

add_outputs : ℕ → List ℕ → ℕ
add_outputs weight [] = weight
add_outputs weight (output_w ∷ rest) = add_outputs (add64 weight output_w) rest

-- Two more bytes for a count above 252.
abbrev pub count_weight : ℕ → ℕ
count_weight n = if leb 253 n then 8 else 0

unfoldable pub estimated_weight_raw : List ℕ → List ℕ → ℕ
unfolding add_inputs add_outputs
estimated_weight_raw input_weights output_weights =
    let weight = add_outputs (add_inputs 42 input_weights) output_weights in
    let with_inputs = if leb 253 (length input_weights) then add64 weight 8 else weight in
    if leb 253 (length output_weights) then add64 with_inputs 8 else with_inputs

unfoldable pub tx_estimated_weight : {D : Type 0} → TxTemplate D → ℕ
tx_estimated_weight t =
    estimated_weight_raw (map (λ c. c.satisfaction_size) t.inputs)
      (map (λ o. o.output_weight) t.outputs)
