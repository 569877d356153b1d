-- ===== src/Tx/Builder/Paid.antt =====
-- What a payment of a builder without silent payments pays: the recipient and the change.
use mathlib.Core.List.{Perm}
use bwk.Common.{
  ℕ, Bool, none, some, List, [], ◌∷◌, ◌++◌, ◌≡◌, ◌≢◌, arith, refl, Option-cases, Result-cases,
  Bool-cases, inl, inr, map, ◌≤◌, ok, subst, ap, ◌∙◌, any, is_empty,
}
use bwk.Coin.{Coin}
use bwk.Tx.Types.{value, TransactionResult}
use bwk.Tx.Process.{process_fees_of}
use bwk.Tx.Process.Outputs.{max_positions, scan_outputs-Found}
use bwk.Tx.Process.Total.{outcome-steps, funded}
use bwk.Tx.Finalize.{Crates, Psbt, created_output}
use bwk.Tx.Finalize.Filled.{settle_outputs}
use bwk.Tx.Finalize.Amounts.{as_outputs}
use bwk.Tx.Finalize.Balanced.{Shuffles, finalize-outputs}
use bwk.Tx.Builder.{
  TxBuilder, selection, simulate, generate, change_of, build_payment, add_coin, add_coins,
  add_output, recipient_of, new_template, given_or_coins, pay,
}
use bwk.Tx.Builder.Generated.{rate_fee, build_payment-generate}
use bwk.Tx.Fees.Conservation.{or_zero}

-- The rest of a builder that an addition of inputs leaves alone.
pub record SameButInputs {D S : Type 0} (b b' : TxBuilder D S) : Type 0 where
  pub outputs : b'.tx_template.outputs ≡ b.tx_template.outputs
  pub sp_provider : b'.sp_provider ≡ b.sp_provider
  pub change_provider : b'.change_provider ≡ b.change_provider
  pub fees : b'.tx_template.fees ≡ b.tx_template.fees

module _ {D S : Type 0} (same_coin : Coin D → Coin D → Bool) where
  add_coin_same : (coin : Coin D) (b : TxBuilder D S) → SameButInputs b (add_coin same_coin coin b)
  unfolding add_coin
  add_coin_same coin b = elim (Bool-cases (any (same_coin coin) b.tx_template.inputs)) [
    | inl known ↦ record {
      outputs = ground (arith, known);
      sp_provider = ground (arith, known);
      change_provider = ground (arith, known);
      fees = ground (arith, known);
    }
    | inr fresh ↦ record {
      outputs = ground (arith, fresh);
      sp_provider = ground (arith, fresh);
      change_provider = ground (arith, fresh);
      fees = ground (arith, fresh);
    }
  ]

  add_coins_same :
      (coins : List (Coin D)) (b : TxBuilder D S) → SameButInputs b (add_coins same_coin coins b)
  unfolding add_coins
  add_coins_same [] b = record {
    outputs = refl;
    sp_provider = refl;
    change_provider = refl;
    fees = refl;
  }
  add_coins_same (coin ∷ coins) b =
      let first = add_coin_same coin b in
      let rest = add_coins_same coins (add_coin same_coin coin b) in
      record {
        outputs = rest.outputs ∙ first.outputs;
        sp_provider = rest.sp_provider ∙ first.sp_provider;
        change_provider = rest.change_provider ∙ first.change_provider;
        fees = rest.fees ∙ first.fees;
      }

module _ {D DD P O S : Type 0} (c : Crates D DD P O) where
  -- A result without an error keeps the outputs, where none takes all.
  simulate_outputs :
      (b : TxBuilder D S) {r : TransactionResult D}
      → max_positions 0 b.tx_template.outputs ≡ []
      → simulate c b ≡ some r
      → r.error ≡ none
      → r.tx_template.outputs ≡ b.tx_template.outputs
  unfolding simulate
  simulate_outputs b {r} m e done =
      let (total, maxed, inputs, found, chosen, settles) =
        outcome-steps c.to_vbytes_ceil b.tx_template (some b.change_provider) (selection b) e
          done in
      let t = funded c.to_vbytes_ceil b.tx_template (some b.change_provider) (selection b) inputs in
      let no_max : maxed ≡ none = ground (arith, scan_outputs-Found b.tx_template.outputs found) in
      settle_outputs t (process_fees_of c.to_vbytes_ceil t (some b.change_provider) total none) r
        (rw no_max at settles)

  generate_outputs :
      (b : TxBuilder D S) {r : TransactionResult D} {psbt : Psbt P O}
      → Shuffles c
      → b.sp_provider ≡ none
      → max_positions 0 b.tx_template.outputs ≡ []
      → simulate c b ≡ some r
      → generate c b ≡ some (ok psbt)
      → Perm psbt.unsigned_tx.output (
          map created_output
            (b.tx_template.outputs ++ as_outputs (change_of b.change_provider r.change)))
  unfolding generate
  generate_outputs b {r} {psbt} shuffles bare m e built = elim (Option-cases r.error) [
    | inr (x, fails) ↦ absurd (ground (arith, e, built, fails))
    | inl done ↦
        let change = change_of b.change_provider r.change in
        subst
          (λ outputs.
            Perm psbt.unsigned_tx.output (map created_output (outputs ++ as_outputs change)))
          (simulate_outputs b m e done)
          (finalize-outputs c r.tx_template change b.sp_provider b.max_fee_percent b.max_fee_amount
            psbt shuffles bare (ground (arith, e, built, done)))
  ]

  pub build_payment_simulates :
      (b : TxBuilder D S) (feerate : ℕ) {psbt : Psbt P O}
      → simulate c b ≡ none
      → build_payment c b feerate ≢ some (ok psbt)
  unfolding build_payment
  build_payment_simulates b feerate panics e = ground (arith, e, panics)

  module _ (same_coin : Coin D → Coin D → Bool) where
    -- What a payment that succeeds built.
    pub pay-steps :
        (amount : ℕ) (script : List ℕ) (feerate : ℕ) (b : TxBuilder D S) {b' : TxBuilder D S}
        {psbt : Psbt P O}
        → pay c same_coin amount script feerate b ≡ some (b', ok psbt)
        → (build_payment c b' feerate ≡ some (ok psbt))
          × SameButInputs (add_output (recipient_of c script (value amount)) (new_template b)) b'
    unfolding pay
    pay-steps amount script feerate b {b'} {psbt} e =
        let asked = add_output (recipient_of c script (value amount)) (new_template b) in
        elim (Result-cases (given_or_coins c asked (value amount) feerate)) [
          | inr (x, fails) ↦ absurd (ground (arith, e, fails))
          | inl (coins, given) ↦ elim (Bool-cases (is_empty coins)) [
            | inl empty ↦ absurd (ground (arith, e, given, empty))
            | inr some_coins ↦
                let funded = add_coins same_coin coins asked in
                elim (Option-cases (build_payment c funded feerate)) [
                  | inl panics ↦ absurd (ground (arith, e, given, some_coins, panics))
                  | inr (built, made) ↦
                      let same : funded ≡ b' = ground (arith, e, given, some_coins, made) in
                      let done : built ≡ ok psbt = ground (arith, e, given, some_coins, made) in
                      subst
                        (λ x. (build_payment c x feerate ≡ some (ok psbt)) × SameButInputs asked x)
                        same (made ∙ ap some done, add_coins_same same_coin coins asked)
                ]
          ]
        ]

    -- A payment that `pay` builds without a provider of silent payments has two outputs at most, in
    -- any order: the amount for the script that was asked for, and the change that `simulate` told,
    -- to the change provider. The outputs of the builder before do not matter. The fee that
    -- `simulate` told is no smaller than the rate asks for the weight of the transaction; what the
    -- outputs leave of the inputs is that fee only where the change did not underflow.
    pub pay-outputs :
        (amount : ℕ) (script : List ℕ) (feerate : ℕ) (b : TxBuilder D S) {b' : TxBuilder D S}
        {psbt : Psbt P O}
        → Shuffles c
        → b.sp_provider ≡ none
        → pay c same_coin amount script feerate b ≡ some (b', ok psbt)
        → (r : TransactionResult D) × (simulate c b' ≡ some r)
          × Perm psbt.unsigned_tx.output (
              record { value = amount; script_pubkey = script }
              ∷ map created_output (as_outputs (change_of b.change_provider r.change)))
          × (rate_fee c feerate psbt ≤ or_zero r.fees)
    pay-outputs amount script feerate b {b'} {psbt} shuffles bare e =
        let (built, same) = pay-steps amount script feerate b e in
        elim (Option-cases (simulate c b')) [
          | inl panics ↦ absurd (build_payment_simulates b' feerate panics built)
          | inr (r, simulated) ↦
              let (made, enough) = build_payment-generate c b' r psbt feerate simulated built in
              let paid =
                generate_outputs b' shuffles (same.sp_provider ∙ bare) (rw same.outputs (λ i. []))
                  simulated made in
              (
                r,
                simulated,
                subst
                    (λ change. Perm psbt.unsigned_tx.output (
                      record { value = amount; script_pubkey = script }
                      ∷ map created_output (as_outputs (change_of change r.change))))
                    same.change_provider
                    (subst
                      (λ outputs. Perm psbt.unsigned_tx.output (
                        map created_output
                          (outputs ++ as_outputs (change_of b'.change_provider r.change))))
                      same.outputs paid),
                enough,
              )
        ]
