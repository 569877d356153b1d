-- ===== src/Tx/Builder/Generated.antt =====
-- The transactions of a builder spend exactly their inputs.
use mathlib.Core.List.{Perm}
use bwk.Common.{
  ℕ, Option, none, some, List, [], ◌≡◌, ◌≢◌, ◌+◌, ◌*◌, ◌/◌, ◌<◌, ◌≤◌, ◌⊎◌, arith, Option-cases, inl,
  inr, map, subst, ap, ◌∙◌, Result, ok, err, u64_mod, mul64,
}
use bwk.Coin.{Coin, to_txin}
use bwk.Tx.Types.{Error, Recipient, TransactionResult, set_amount}
use bwk.Tx.Checks.Laws.{inputs_value, paid_value}
use bwk.Tx.Fees.Conservation.{or_zero}
use bwk.Tx.Process.Outputs.{fixed_value, max_positions}
use bwk.Tx.Process.Total.{fee_with_change, fee_without_change, process_transaction-conserves}
use bwk.Tx.Finalize.{Crates, Psbt}
use bwk.Tx.Finalize.Filled.{process_transaction-Filled}
use bwk.Tx.Finalize.Amounts.{paid_out, KeepsAmounts, FeeIsSane, ChangeFilled, change_value}
use bwk.Tx.Finalize.Balanced.{Shuffles, finalize-Finalized}
use bwk.Tx.Builder.{
  TxBuilder, selection, simulate, generate, finalized, change_of, build_payment, checked,
}

-- What a built transaction spends, pays and costs.
pub record Balanced {D P O : Type 0} (inputs : List (Coin D)) (fee paid pct amount : ℕ)
    (psbt : Psbt P O) : Type 0 where
  pub spent : Perm psbt.unsigned_tx.input (map to_txin inputs)
  pub worth : paid_out psbt + fee ≡ inputs_value inputs
  pub sane : FeeIsSane fee paid pct amount

change_filled :
    (provider : Recipient) (change : Option ℕ)
    → ChangeFilled (change_of provider change)
      × (change_value (change_of provider change) ≡ or_zero change)
unfolding set_amount
change_filled provider none = ground arith
change_filled provider (some sat) = ground arith

-- The fee that a rate asks for a PSBT.
abbrev pub rate_fee : {D DD P O : Type 0} → Crates D DD P O → ℕ → Psbt P O → ℕ
rate_fee c feerate psbt = mul64 (c.to_vbytes_ceil (c.tx_weight psbt.unsigned_tx)) feerate / 1000

checked-ok :
    {D DD P O : Type 0} (c : Crates D DD P O) (feerate : ℕ) (fees : Option ℕ)
    (built : Result Error (Psbt P O)) (psbt : Psbt P O)
    → checked c feerate fees built ≡ ok psbt
    → (built ≡ ok psbt) × (rate_fee c feerate psbt ≤ or_zero fees)
checked-ok c feerate fees (err e) psbt h = absurd (ground (arith, h))
checked-ok c feerate none (ok other) psbt h = absurd (ground (arith, h))
checked-ok c feerate (some fee) (ok other) psbt h = ground (arith, h)

module _ {D DD P O S : Type 0} (c : Crates D DD P O) (b : TxBuilder D S) (r : TransactionResult D)
    (psbt : Psbt P O) where
  -- The inputs pay the fee with change, or leave less than the dust threshold, unless an output
  -- takes all; and the given amounts and the percentage of what is paid fit 64 bits.
  abbrev pub Payable : Type 0
  Payable =
      (inputs_value r.tx_template.inputs < u64_mod)
      × (fixed_value b.tx_template.outputs < u64_mod)
      × (paid_value r.tx_template.outputs * b.max_fee_percent < u64_mod)
      × ((max_positions 0 b.tx_template.outputs ≢ [])
          ⊎ ((fixed_value b.tx_template.outputs
                  + fee_with_change c.to_vbytes_ceil b.tx_template (some b.change_provider)
                      (selection b) r.tx_template.inputs
                ≤ inputs_value r.tx_template.inputs)
              ⊎ (inputs_value r.tx_template.inputs
                  < fixed_value b.tx_template.outputs
                    + fee_without_change c.to_vbytes_ceil b.tx_template (some b.change_provider)
                        (selection b) r.tx_template.inputs
                    + b.tx_template.dust_threshold)))

  finalized-Balanced :
      Shuffles c
      → KeepsAmounts b.sp_provider
      → Payable
      → simulate c b ≡ some r
      → r.error ≡ none
      → finalized c b r ≡ ok psbt
      → Balanced r.tx_template.inputs
          (or_zero r.fees)
          (paid_value r.tx_template.outputs)
          b.max_fee_percent
          b.max_fee_amount
          psbt
  unfolding simulate
  finalized-Balanced shuffles keeps (hi, ho, hp, fits) e done built =
      let change = change_of b.change_provider r.change in
      let (filled, value) = change_filled b.change_provider r.change in
      let kept =
        process_transaction-conserves c.to_vbytes_ceil b.tx_template (some b.change_provider)
          (selection b) {r = r} e done hi ho fits in
      let outputs_filled =
        process_transaction-Filled c.to_vbytes_ceil b.tx_template (some b.change_provider)
          (selection b) r e done in
      let f =
        finalize-Finalized c r.tx_template change b.sp_provider b.max_fee_percent b.max_fee_amount
          psbt shuffles keeps outputs_filled filled (ground (arith, built, done)) in
      let spends : paid_out psbt + or_zero r.fees ≡ inputs_value r.tx_template.inputs =
        ground (arith, f.paid, kept, value) in
      record {
        spent = f.spent;
        worth = spends;
        sane =
            subst
              (λ fee.
                FeeIsSane fee (paid_value r.tx_template.outputs) b.max_fee_percent b.max_fee_amount)
              (omega arith) (f.sane hi (omega arith) hp);
      }

  pub build_payment-generate :
      (feerate : ℕ)
      → simulate c b ≡ some r
      → build_payment c b feerate ≡ some (ok psbt)
      → (generate c b ≡ some (ok psbt)) × (rate_fee c feerate psbt ≤ or_zero r.fees)
  unfolding build_payment
  build_payment-generate feerate e built = elim (Option-cases (generate c b)) [
    | inl fails ↦ absurd (ground (arith, e, built, fails))
    | inr (result, made) ↦
        let (same, enough) =
          checked-ok c feerate r.fees result psbt (ground (arith, e, built, made)) in
        (made ∙ ap some same, enough)
  ]

  -- A generated transaction whose template is `Payable` spends exactly the inputs that
  -- `simulate` chose, each once; what it pays out and the fee that `simulate` told add up to their
  -- value; and that fee is within the percentage of what is paid or within the absolute limit,
  -- unless nothing is paid. The shuffles are permutations, and the provider of silent payments sets
  -- scripts only.
  pub generate-Balanced :
      Shuffles c
      → KeepsAmounts b.sp_provider
      → Payable
      → simulate c b ≡ some r
      → generate c b ≡ some (ok psbt)
      → Balanced r.tx_template.inputs
          (or_zero r.fees)
          (paid_value r.tx_template.outputs)
          b.max_fee_percent
          b.max_fee_amount
          psbt
  unfolding generate
  generate-Balanced shuffles keeps fits e built = elim (Option-cases r.error) [
    | inl done ↦ finalized-Balanced shuffles keeps fits e done (ground (arith, e, built))
    | inr (x, fails) ↦ absurd (ground (arith, e, built, fails))
  ]

  -- A payment that is built is a generated transaction: it is balanced under the same conditions,
  -- and the fee that `simulate` told is no smaller than the rate asks for the weight of the
  -- transaction.
  pub build_payment-Balanced :
      (feerate : ℕ)
      → Shuffles c
      → KeepsAmounts b.sp_provider
      → Payable
      → simulate c b ≡ some r
      → build_payment c b feerate ≡ some (ok psbt)
      → Balanced r.tx_template.inputs
          (or_zero r.fees)
          (paid_value r.tx_template.outputs)
          b.max_fee_percent
          b.max_fee_amount
          psbt
        × (rate_fee c feerate psbt ≤ or_zero r.fees)
  build_payment-Balanced feerate shuffles keeps fits e built =
      let (made, enough) = build_payment-generate feerate e built in
      (generate-Balanced shuffles keeps fits e made, enough)
