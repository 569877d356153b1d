-- ===== src/Tx/Finalize/Balanced.antt =====
-- What a finalised PSBT spends and pays.
use mathlib.Core.List.{Perm}
use mathlib.Core.List.Perm
use bwk.Common.{
  ℕ, true, false, ◌++◌, Option, none, some, List, map, ◌≡◌, ◌+◌, ◌-◌, ◌*◌, ◌<◌, arith, All, refl,
  Result-cases, inl, inr, sum, Result, ok, err, ◌>>=◌, ap, sym, subst, ◌∙◌, u64_mod,
}
use bwk.Common.Sums.{sum-map_perm}
use bwk.Coin.{Coin, to_txin}
use bwk.Tx.Types.{Recipient, TxTemplate}
use bwk.Tx.Checks.{output_amount, check_disproportionate_fee, check_missing_change}
use bwk.Tx.Checks.Laws.{outputs_value, inputs_value, paid_value, check_disproportionate_fee-ok}
use bwk.Tx.Finalize.{
  Crates, SpProvider, Psbt, output_bitcoin_amount, bitcoin_sats, created_output, prepare_outputs,
  psbt_inputs, psbt_outputs, build_psbt, compute_sp_partial_secret, sp_outputs, run_checks,
  finalize,
}
use bwk.Tx.Finalize.Filled.{Filled, outputs_value-Filled}
use bwk.Tx.Finalize.Amounts.{
  paid_out, amounts, created_value, amounts_value, KeepsAmounts, paid_part, paid_value-sum,
  change_value, as_outputs, ChangeFilled, FeeIsSane, sums-append, prepare_outputs-ok,
}

-- A success of a chain passed its first step.
bind-ok :
    {A B : Type 0} {E : Type 0} (m : Result E A) (f : A → Result E B) {b : B}
    → (m >>= f) ≡ ok b
    → (a : A) × (m ≡ ok a) × (f a ≡ ok b)
bind-ok (ok a) f h = (a, refl, h)
bind-ok (err e) f h = absurd (ground (arith, h))

-- A shuffle is a permutation.
pub record Shuffles {D DD P O : Type 0} (c : Crates D DD P O) : Type 0 where
  pub coins : (inputs : List (Coin D)) → Perm (c.shuffle_coins inputs) inputs
  pub outputs : (outputs : List Recipient) → Perm (c.shuffle_outputs outputs) outputs

module _ {D DD P O : Type 0} (c : Crates D DD P O) where
  build_psbt-ok :
      (inputs : List (Coin D)) (outputs : List Recipient) {psbt : Psbt P O}
      → build_psbt c inputs outputs ≡ ok psbt
      → (psbt.unsigned_tx.input ≡ map to_txin inputs)
        × (psbt.unsigned_tx.output ≡ map created_output outputs)
  unfolding build_psbt
  build_psbt-ok inputs outputs {psbt} e = elim (Result-cases (psbt_inputs c inputs)) [
    | inr (x, fails) ↦ absurd (ground (arith, e, fails))
    | inl (made, holds) ↦ elim (Result-cases (psbt_outputs c outputs)) [
      | inr (x, fails) ↦ absurd (ground (arith, e, holds, fails))
      | inl (made_outputs, holds') ↦ ground (arith, e, holds, holds')
    ]
  ]

  sp_outputs-amounts :
      {S : Type 0} (sp : Option (SpProvider D S)) (inputs : List (Coin D))
      (outputs derived : List Recipient)
      → KeepsAmounts sp
      → sp_outputs c sp inputs outputs ≡ ok derived
      → amounts derived ≡ amounts outputs
  unfolding sp_outputs
  sp_outputs-amounts none inputs outputs derived k e = ground (arith, e)
  sp_outputs-amounts (some p) inputs outputs derived k e =
      elim (Result-cases (compute_sp_partial_secret c p inputs outputs)) [
        | inr (x, fails) ↦ absurd (ground (arith, e, fails))
        | inl (none, holds) ↦ ground (arith, e, holds)
        | inl (some secret, holds) ↦ ground (arith, e, holds, k outputs secret)
      ]

  run_checks-ok :
      (t : TxTemplate D) (inputs : List (Coin D)) (outputs : List Recipient) (pct amount : ℕ)
      → run_checks c false t inputs outputs pct amount ≡ ok tt
      → check_disproportionate_fee inputs outputs pct amount ≡ ok tt
  unfolding run_checks
  run_checks-ok t inputs outputs pct amount e =
      (bind-ok (check_missing_change c.to_vbytes_ceil inputs outputs t.fees t.dust_threshold)
        (λ _. check_disproportionate_fee inputs outputs pct amount) e).2

  -- What a success of `finalize` with its checks made.
  pub record Finalized (t : TxTemplate D) (change : Option Recipient) (pct amount : ℕ)
      (psbt : Psbt P O) : Type 0 where
    pub spent : Perm psbt.unsigned_tx.input (map to_txin t.inputs)
    pub paid : paid_out psbt ≡ outputs_value t.outputs + change_value change
    pub sane :
        inputs_value t.inputs < u64_mod
        → paid_out psbt < u64_mod
        → paid_value t.outputs * pct < u64_mod
        → FeeIsSane (inputs_value t.inputs - paid_out psbt) (paid_value t.outputs) pct amount

  module _ {S : Type 0} (t : TxTemplate D) (change : Option Recipient)
      (sp : Option (SpProvider D S)) (pct amount : ℕ) (psbt : Psbt P O) where
    abbrev inputs : List (Coin D)
    inputs = c.shuffle_coins t.inputs

    finalize-steps :
        finalize c t change true sp pct amount false ≡ ok psbt
        → (prepared : List Recipient) × (derived : List Recipient) × (prepare_outputs t.outputs
              change
            ≡ ok prepared)
          × (run_checks c false t inputs (c.shuffle_outputs prepared) pct amount ≡ ok tt)
          × (sp_outputs c sp inputs (c.shuffle_outputs prepared) ≡ ok derived)
          × (build_psbt c inputs derived ≡ ok psbt)
    unfolding finalize
    finalize-steps e = elim (Result-cases (prepare_outputs t.outputs change)) [
      | inr (x, fails) ↦ absurd (ground (arith, e, fails))
      | inl (prepared, holds) ↦
          let outputs = c.shuffle_outputs prepared in
          elim (Result-cases (run_checks c false t inputs outputs pct amount)) [
            | inr (x, fails) ↦ absurd (ground (arith, e, holds, fails))
            | inl (u, checks) ↦ elim (Result-cases (sp_outputs c sp inputs outputs)) [
              | inr (x, fails) ↦ absurd (ground (arith, e, holds, checks, fails))
              | inl (derived, scripts) ↦ (
                prepared,
                derived,
                holds,
                checks,
                scripts,
                ground (arith, e, holds, checks, scripts),
              )
            ]
          ]
    ]

    -- Without a provider of silent payments the outputs are those of the template and the change.
    pub finalize-outputs :
        Shuffles c
        → sp ≡ none
        → finalize c t change true sp pct amount false ≡ ok psbt
        → Perm psbt.unsigned_tx.output (map created_output (t.outputs ++ as_outputs change))
    unfolding sp_outputs
    finalize-outputs shuffles bare e =
        let (prepared, derived, prepares, checks, scripts, builds) = finalize-steps e in
        let (same, still) = prepare_outputs-ok t.outputs prepared change prepares in
        let (spends, pays) = build_psbt-ok inputs derived builds in
        let made : map created_output (c.shuffle_outputs prepared) ≡ psbt.unsigned_tx.output =
          ground (arith, bare, scripts, pays) in
        subst (λ l. Perm l (map created_output (t.outputs ++ as_outputs change))) made
          (subst
            (λ l. Perm (map created_output (c.shuffle_outputs prepared)) (map created_output l))
            same (Perm.map created_output (shuffles.outputs prepared)))

    pub finalize-Finalized :
        Shuffles c
        → KeepsAmounts sp
        → All Filled t.outputs
        → ChangeFilled change
        → finalize c t change true sp pct amount false ≡ ok psbt
        → Finalized t change pct amount psbt
    finalize-Finalized shuffles keeps filled change_filled e =
        let (prepared, derived, prepares, checks, scripts, builds) = finalize-steps e in
        let outputs = c.shuffle_outputs prepared in
        let (same, still) = prepare_outputs-ok t.outputs prepared change prepares in
        let (all_filled, worth) = sums-append t.outputs change filled change_filled in
        let (spends, pays) = build_psbt-ok inputs derived builds in
        let mixed = shuffles.outputs prepared in
        let shuffled_inputs : inputs_value inputs ≡ inputs_value t.inputs =
          sum-map_perm (λ coin. coin.txout.value) (shuffles.coins t.inputs) in
        let shuffled_outputs : outputs_value outputs ≡ outputs_value prepared =
          sum-map_perm output_amount mixed in
        let shuffled_paid : paid_value outputs ≡ paid_value prepared =
          paid_value-sum outputs ∙ sum-map_perm paid_part mixed ∙ sym (paid_value-sum prepared) in
        let total : paid_out psbt ≡ outputs_value prepared =
          ap (λ l. sum (map (λ o. o.value) l)) pays
          ∙ created_value derived
          ∙ ap (λ l. sum (map bitcoin_sats l))
              (sp_outputs-amounts sp inputs outputs derived keeps scripts)
          ∙ amounts_value outputs
          ∙ sum-map_perm output_bitcoin_amount mixed
          ∙ outputs_value-Filled prepared (subst (All Filled) (sym same) all_filled) in
        record {
          spent =
              subst (λ l. Perm l (map to_txin t.inputs)) (sym spends)
                (Perm.map to_txin (shuffles.coins t.inputs));
          paid = ground (arith, total, worth, same);
          sane = λ hi ho hp. ground (
            arith,
            check_disproportionate_fee-ok inputs outputs pct amount,
            run_checks-ok t inputs outputs pct amount checks,
            total,
            shuffled_inputs,
            shuffled_outputs,
            shuffled_paid,
            still,
          );
        }
