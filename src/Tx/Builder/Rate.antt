-- ===== src/Tx/Builder/Rate.antt =====
-- The rate of a payment with change: the one of a new template, whatever rate is asked for.
use bwk.Common.{
  ℕ, Bool, none, some, List, [], ◌≡◌, ◌≤◌, ◌⊎◌, arith, Option-cases, inl, inr, ok, ◌∙◌, ap, sym,
}
use bwk.Coin.{Coin}
use bwk.Tx.Types.{
  Fees, milli_sats_vb, TxTemplate, TransactionResult, FeeResult, Drain, from_template,
}
use bwk.Tx.Fees.{process_fees, fee_for}
use bwk.Tx.Weight.{tx_estimated_weight}
use bwk.Tx.Process.{settle, process_fees_of, change_weight}
use bwk.Tx.Process.Outputs.{max_positions, scan_outputs-Found}
use bwk.Tx.Process.Total.{outcome-steps, funded, settled_inputs}
use bwk.Tx.Finalize.{Crates, Psbt}
use bwk.Tx.Builder.{TxBuilder, selection, simulate, generate, pay}
use bwk.Tx.Builder.Generated.{rate_fee, build_payment-generate}
use bwk.Tx.Builder.Paid.{pay-steps, build_payment_simulates}

-- Where change is created, the fee is that of the weight with change.
process_fees_with_change :
    (to_vb : ℕ → ℕ) (fees : Fees) (weight weight_change sum_inputs sum_outputs dust : ℕ) {x : ℕ}
    → let f =
        process_fees to_vb fees weight weight_change sum_inputs sum_outputs Drain.change dust in
      f.change ≡ some x → f.fees ≡ some (fee_for to_vb fees weight_change)
unfolding process_fees
process_fees_with_change to_vb fees weight weight_change sum_inputs sum_outputs dust h =
    ground arith

settle_fees :
    {D : Type 0} (t : TxTemplate D) (f : FeeResult) {r : TransactionResult D}
    → settle (from_template t) none f ≡ some r
    → r.error ≡ none
    → (r.change ≡ f.change) × (r.fees ≡ f.fees)
unfolding settle from_template
settle_fees t f e done = ground arith

module _ {D DD P O S : Type 0} (c : Crates D DD P O) where
  -- The fee of a builder's transaction with change, for the inputs of a result, at a rate.
  abbrev pub change_fee : TxBuilder D S → TransactionResult D → Fees → ℕ
  change_fee b r fees = fee_for c.to_vbytes_ceil fees (
      change_weight (tx_estimated_weight (record (b.tx_template) { inputs = r.tx_template.inputs }))
        (some b.change_provider))

  simulate_fees :
      (b : TxBuilder D S) {r : TransactionResult D} {x : ℕ}
      → max_positions 0 b.tx_template.outputs ≡ []
      → simulate c b ≡ some r
      → r.error ≡ none
      → r.change ≡ some x
      → r.fees ≡ some (change_fee b r b.tx_template.fees)
  unfolding simulate process_fees_of
  simulate_fees b {r} {x} m e done made =
      let (total, maxed, inputs, found, chosen, settles) =
        outcome-steps c.to_vbytes_ceil b.tx_template (some b.change_provider) (selection b) e
          done in
      let t = funded c.to_vbytes_ceil b.tx_template (some b.change_provider) (selection b) inputs in
      let no_max : maxed ≡ none = ground (arith, scan_outputs-Found b.tx_template.outputs found) in
      let same =
        settled_inputs c.to_vbytes_ceil b.tx_template (some b.change_provider) (selection b) inputs
          total maxed settles in
      let (change, fees) =
        settle_fees t (process_fees_of c.to_vbytes_ceil t (some b.change_provider) total none)
          (rw no_max at settles) done in
      let fee =
        process_fees_with_change c.to_vbytes_ceil b.tx_template.fees (tx_estimated_weight t)
          (change_weight (tx_estimated_weight t) (some b.change_provider)) _ total
          b.tx_template.dust_threshold (sym change ∙ made) in
      fees
      ∙ fee
      ∙ ap
          (λ i. some (
            change_fee b (record r { tx_template = record (r.tx_template) { inputs = i } })
              b.tx_template.fees))
          (sym same)

  generate_done :
      (b : TxBuilder D S) {r : TransactionResult D} {psbt : Psbt P O}
      → simulate c b ≡ some r
      → generate c b ≡ some (ok psbt)
      → r.error ≡ none
  unfolding generate
  generate_done b {r} e built = elim (Option-cases r.error) [
    | inl done ↦ done
    | inr (x, fails) ↦ absurd (ground (arith, e, built, fails))
  ]

  -- A payment that `pay` builds has no change, or the fee that the rate of a new template, 1000
  -- millisatoshis a virtual byte, gives the weight with change; the rate asked for must then ask no
  -- more than that of the weight of the transaction, since a higher one is refused.
  pub pay-change_fee :
      (same_coin : Coin D → Coin D → Bool) (amount : ℕ) (script : List ℕ) (feerate : ℕ)
      (b : TxBuilder D S) {b' : TxBuilder D S} {psbt : Psbt P O}
      → pay c same_coin amount script feerate b ≡ some (b', ok psbt)
      → (r : TransactionResult D) × (simulate c b' ≡ some r)
        × ((r.change ≡ none)
            ⊎ ((r.fees ≡ some (change_fee b' r (milli_sats_vb 1000)))
                × (rate_fee c feerate psbt ≤ change_fee b' r (milli_sats_vb 1000))))
  pay-change_fee same_coin amount script feerate b {b'} {psbt} e =
      let (built, same) = pay-steps c same_coin amount script feerate b e in
      elim (Option-cases (simulate c b')) [
        | inl panics ↦ absurd (build_payment_simulates c b' feerate panics built)
        | inr (r, simulated) ↦
            let (made, enough) = build_payment-generate c b' r psbt feerate simulated built in
            let done = generate_done b' simulated made in
            (
              r,
              simulated,
              elim (Option-cases r.change) [
                | inl no_change ↦ inl no_change
                | inr (x, change) ↦
                    let fee =
                      simulate_fees b' (rw same.outputs (λ i. [])) simulated done change
                      ∙ ap (λ fees. some (change_fee b' r fees)) same.fees in
                    inr (fee, ground (arith, fee, enough))
              ],
            )
      ]
