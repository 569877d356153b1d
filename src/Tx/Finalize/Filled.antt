-- ===== src/Tx/Finalize/Filled.antt =====
-- A settled result has no output whose amount is still open.
use bwk.Common.{
  ℕ, zero, suc, Option, none, some, List, [], ◌∷◌, ◌≡◌, ◌+◌, arith, All, Option-cases, inl, inr,
  subst, sym, sum, map, refl,
}
use bwk.Coin.{Coin}
use bwk.Tx.Types.{Amount, Recipient, TxTemplate, TransactionResult, FeeResult, from_template}
use bwk.Tx.Checks.{output_amount}
use bwk.Tx.Checks.Laws.{outputs_value}
use bwk.Tx.Process.{settle, process_fees_of, Selection}
use bwk.Tx.Process.Outputs.{
  max_positions, max_positions-ge, write_amount, set_output_max, scan_outputs-Found, Found,
}
use bwk.Tx.Process.Total.{outcome, outcome-steps, funded, settled}
use bwk.Tx.Finalize.{output_bitcoin_amount}

abbrev pub Filled : Recipient → Type 0
Filled o = output_bitcoin_amount o ≡ output_amount o

All-Filled_fixed : (pos : ℕ) (os : List Recipient) → max_positions pos os ≡ [] → All Filled os
All-Filled_fixed pos [] h = tt
All-Filled_fixed pos (o ∷ os) h = ground (arith, All-Filled_fixed (suc pos) os)

write_amount-Filled :
    (pos i : ℕ) (os : List Recipient) (v : ℕ)
    → max_positions pos os ≡ (pos + i) ∷ []
    → All Filled (write_amount os i (Amount.max (some v)))
write_amount-Filled pos i [] v h = tt
write_amount-Filled pos zero (o ∷ os) v h = (
  refl,
  All-Filled_fixed (suc pos) os
      (ground (arith, max_positions-ge (suc pos) os {p = pos + 0} {ps = []})),
)
write_amount-Filled pos (suc i) (o ∷ os) v h = ground (arith, write_amount-Filled (suc pos) i os v)

pub outputs_value-Filled :
    (os : List Recipient) → All Filled os → sum (map output_bitcoin_amount os) ≡ outputs_value os
outputs_value-Filled [] f = omega arith
outputs_value-Filled (o ∷ os) f = ground (arith, outputs_value-Filled os f.1, f.0)

module _ {D : Type 0} (t : TxTemplate D) (f : FeeResult) (r : TransactionResult D) where
  pub settle_outputs : settle (from_template t) none f ≡ some r → r.tx_template.outputs ≡ t.outputs
  unfolding settle from_template
  settle_outputs e = ground arith

  settle-Filled :
      (p : ℕ)
      → max_positions 0 t.outputs ≡ p ∷ []
      → settle (from_template t) (some p) f ≡ some r
      → r.error ≡ none
      → All Filled r.tx_template.outputs
  unfolding settle from_template
  settle-Filled p m e done = elim (Option-cases f.max) [
    | inl nothing ↦ absurd (ground arith)
    | inr (v, given) ↦
        let (written, worth) = set_output_max 0 p t.outputs v (ground arith) in
        let same : write_amount t.outputs p (Amount.max (some v)) ≡ r.tx_template.outputs =
          ground arith in
        subst (All Filled) same (write_amount-Filled 0 p t.outputs v (ground arith))
  ]

module _ {D : Type 0} (to_vb : ℕ → ℕ) (t : TxTemplate D) (change : Option Recipient)
    (sel : Option (Selection D)) (r : TransactionResult D) where
  settled-Filled :
      (inputs : List (Coin D)) (total : ℕ) (maxed : Option ℕ)
      → Found t.outputs total maxed
      → settled to_vb t change sel inputs total maxed ≡ some r
      → r.error ≡ none
      → All Filled r.tx_template.outputs
  settled-Filled inputs total maxed (exact, found) e done =
      let t' = funded to_vb t change sel inputs in
      elim found [
        | inl (no_max, m) ↦
            subst (All Filled)
              (sym
                (settle_outputs t' (process_fees_of to_vb t' change total none) r (rw no_max at e)))
              (All-Filled_fixed 0 t.outputs m)
        | inr (p, one_max, m) ↦
            settle-Filled t' (process_fees_of to_vb t' change total (some p)) r p m
              (rw one_max at e) done
      ]

  -- No output of a result without an error is worth the largest amount for want of its own.
  pub process_transaction-Filled :
      outcome to_vb t change sel ≡ some r → r.error ≡ none → All Filled r.tx_template.outputs
  process_transaction-Filled e done =
      let (total, maxed, inputs, found, chosen, settles) =
        outcome-steps to_vb t change sel e done in
      settled-Filled inputs total maxed (scan_outputs-Found t.outputs found) settles done
