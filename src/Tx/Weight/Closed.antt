-- ===== src/Tx/Weight/Closed.antt =====
-- The weight estimate in closed form, and what one more output adds to it.
use bwk.Common.{
  ℕ, List, [], ◌∷◌, ◌++◌, ◌+◌, ◌*◌, ◌<◌, ◌≡◌, ◌%◌, sum, length, add64, arith, u64_mod, sum-append,
  length-append, if◌then◌else◌, ◌==◌,
}
use bwk.Tx.Weight.{estimated_weight_raw, add_inputs, add_outputs, count_weight}

add_inputs-sum :
    (w : ℕ) (xs : List ℕ) → w < u64_mod → add_inputs w xs ≡ (w + 164 * length xs + sum xs) % u64_mod
unfolding add_inputs
add_inputs-sum w [] h = omega arith
add_inputs-sum w (x ∷ xs) h = omega (arith, add_inputs-sum (add64 w (add64 164 x)) xs)

add_outputs-sum : (w : ℕ) (xs : List ℕ) → w < u64_mod → add_outputs w xs ≡ (w + sum xs) % u64_mod
unfolding add_outputs
add_outputs-sum w [] h = omega arith
add_outputs-sum w (x ∷ xs) h = omega (arith, add_outputs-sum (add64 w x) xs)

-- The estimate as one sum.
abbrev pub weight_sum : List ℕ → List ℕ → ℕ
weight_sum ins outs =
    42
    + 164 * length ins
    + sum ins
    + sum outs
    + count_weight (length ins)
    + count_weight (length outs)

-- The estimate is 42, 164 for each input, the given weights, and 8 more for each count above 252,
-- modulo 2 ^ 64.
pub estimated_weight_raw-closed :
    (ins outs : List ℕ) → estimated_weight_raw ins outs ≡ weight_sum ins outs % u64_mod
unfolding estimated_weight_raw
estimated_weight_raw-closed ins outs =
    ground (arith, add_inputs-sum 42 ins, add_outputs-sum (add_inputs 42 ins) outs)

-- One more output adds its own weight, and 8 more where it is the 253rd.
estimated_weight_raw-change :
    (ins outs : List ℕ) (w : ℕ)
    → weight_sum ins outs + w + 8 < u64_mod
    → estimated_weight_raw ins (outs ++ w ∷ [])
      ≡ estimated_weight_raw ins outs + w + (if length outs == 252 then 8 else 0)
estimated_weight_raw-change ins outs w h = ground (
  arith,
  estimated_weight_raw-closed ins outs,
  estimated_weight_raw-closed ins (outs ++ w ∷ []),
  sum-append outs (w ∷ []),
  length-append outs (w ∷ []),
)
