-- ===== src/Tx/Builder.antt =====
-- `TxBuilder` of tx/src/tx_builder.rs: the template of a transaction in the making, and what builds it.
-- A coin source is its spendable coins; `none` is a panic of `process_transaction`.
pub mod Generated
pub mod Paid
pub mod Rate
use bwk.Common.{
  ℕ, Bool, true, false, Option, none, some, List, [], ◌∷◌, ◌++◌, ◌/◌, ◌==◌, ◌&&◌, any, not,
  is_empty, ltb, add64, mul64, if◌then◌else◌, Result, ok, err, u64_mod, min, ◌*◌, ◌-◌,
}
use bwk.Coin.{Coin, OutPoint}
use bwk.Tx.Types.{
  Error, Fees, sats, milli_sats_vb, Amount, value, anchor, Recipient, set_amount, TxTemplate,
  TransactionResult,
}
use bwk.Tx.Weight.{tx_estimated_weight}
use bwk.Tx.Process.{process_transaction, Selection}
use bwk.Tx.Finalize.{SpProvider, Crates, Psbt, finalize}

pub record TxBuilder (D S : Type 0) : Type 0 where
  pub change_provider : Recipient
  pub tx_template : TxTemplate D
  pub coin_source : Option (List (Coin D))
  pub sp_provider : Option (SpProvider D S)
  pub coin_selector : List (Coin D) → ℕ → ℕ → List (Coin D)
  pub max_fee_percent : ℕ
  pub max_fee_amount : ℕ

abbrev empty_template : {D : Type 0} → ℕ → TxTemplate D
empty_template dust = record {
  inputs = [];
  outputs = [];
  fees = milli_sats_vb 1000;
  dust_threshold = dust;
}

abbrev pub change_of : Recipient → Option ℕ → Option Recipient
change_of provider none = none
change_of provider (some sat) = some (set_amount provider (value sat))

abbrev covers : ℕ → Option ℕ → Bool
covers min_fee none = false
covers min_fee (some fee) = not (ltb fee min_fee)

module _ {D S : Type 0} where
  -- A new builder, with the default selector of the crate.
  unfoldable pub new_builder : (List (Coin D) → ℕ → ℕ → List (Coin D)) → Recipient → TxBuilder D S
  new_builder default_selector change_provider = record {
    change_provider = change_provider;
    tx_template = empty_template 5000;
    coin_source = none;
    sp_provider = none;
    coin_selector = default_selector;
    max_fee_percent = 10;
    max_fee_amount = 2_000_000;
  }

  abbrev with_template : (TxTemplate D → TxTemplate D) → TxBuilder D S → TxBuilder D S
  with_template f b = record b { tx_template = f b.tx_template }

  abbrev pub with_fees : Fees → TxBuilder D S → TxBuilder D S
  with_fees fees b = with_template (λ t. record t { fees = fees }) b

  unfoldable pub feerate_sat_vb : ℕ → TxBuilder D S → TxBuilder D S
  feerate_sat_vb sat_vb b = with_fees (milli_sats_vb (min (sat_vb * 1000) (u64_mod - 1))) b

  abbrev pub add_output : Recipient → TxBuilder D S → TxBuilder D S
  add_output r b = with_template (λ t. record t { outputs = t.outputs ++ r ∷ [] }) b

  abbrev pub new_template : TxBuilder D S → TxBuilder D S
  new_template b = with_template (λ t. empty_template t.dust_threshold) b

  abbrev pub selection : TxBuilder D S → Option (Selection D)
  selection b = elim b.coin_source [ none ↦ none | some source ↦ some (b.coin_selector, source) ]

  unfoldable pub select_coins : ℕ → ℕ → TxBuilder D S → List (Coin D)
  select_coins target feerate b = elim b.coin_source [
    | none ↦ []
    | some source ↦ b.coin_selector source target feerate
  ]

  -- `PartialEq` of a coin.
  module _ (same_coin : Coin D → Coin D → Bool) where
    unfoldable pub add_coin : Coin D → TxBuilder D S → TxBuilder D S
    add_coin coin b =
        if any (same_coin coin) b.tx_template.inputs
        then b
        else with_template (λ t. record t { inputs = t.inputs ++ coin ∷ [] }) b

    unfoldable pub add_coins : List (Coin D) → TxBuilder D S → TxBuilder D S
    unfolding add_coin
    add_coins [] b = b
    add_coins (coin ∷ coins) b = add_coins coins (add_coin coin b)

    unfoldable pub drain_inputs : TxBuilder D S → TxBuilder D S
    unfolding add_coins
    drain_inputs b = elim b.coin_source [ none ↦ b | some source ↦ add_coins source b ]

    unfoldable pub auto_select_coins : ℕ → ℕ → TxBuilder D S → TxBuilder D S × List (Coin D)
    unfolding select_coins add_coins
    auto_select_coins target feerate b =
        let coins = select_coins target feerate b in (add_coins coins b, coins)

module _ {D DD P O : Type 0} (c : Crates D DD P O) where
  unfoldable pub simulate : {S : Type 0} → TxBuilder D S → Option (TransactionResult D)
  simulate b =
      process_transaction c.to_vbytes_ceil b.tx_template (some b.change_provider) (selection b)

  abbrev pub finalized :
      {S : Type 0} → TxBuilder D S → TransactionResult D → Result Error (Psbt P O)
  finalized b r = elim r.error [
    | some e ↦ err e
    | none ↦
        finalize c r.tx_template (change_of b.change_provider r.change) true b.sp_provider
          b.max_fee_percent b.max_fee_amount false
  ]

  unfoldable pub generate : {S : Type 0} → TxBuilder D S → Option (Result Error (Psbt P O))
  unfolding simulate finalize set_amount
  generate b = elim (simulate b) [ none ↦ none | some r ↦ some (finalized b r) ]

  -- The inputs of a payment that has none yet.
  abbrev coins_for : {S : Type 0} → TxBuilder D S → Amount → ℕ → Result Error (List (Coin D))
  coins_for b (value a) feerate =
      let base_fee = mul64 (c.to_vbytes_ceil (tx_estimated_weight b.tx_template)) feerate / 1000 in
      ok (select_coins (add64 a base_fee) feerate b)
  coins_for b (Amount.max v) feerate = elim b.coin_source [ none ↦ ok [] | some source ↦ ok source ]
  coins_for b anchor feerate = err Error.pay_to_anchor

  abbrev given_or_coins : {S : Type 0} → TxBuilder D S → Amount → ℕ → Result Error (List (Coin D))
  given_or_coins b amount feerate =
      if is_empty b.tx_template.inputs then coins_for b amount feerate else ok b.tx_template.inputs

  -- A PSBT whose fee is below the rate for its weight is refused.
  abbrev pub check_rate : ℕ → Option ℕ → Psbt P O → Result Error (Psbt P O)
  check_rate feerate fees psbt =
      if covers (mul64 (c.to_vbytes_ceil (c.tx_weight psbt.unsigned_tx)) feerate / 1000) fees
      then ok psbt
      else err Error.coin_selection_fee

  abbrev pub checked : ℕ → Option ℕ → Result Error (Psbt P O) → Result Error (Psbt P O)
  checked feerate fees (err e) = err e
  checked feerate fees (ok psbt) = check_rate feerate fees psbt

  -- `simulate`, `generate` and the check of the rate.
  unfoldable pub build_payment : {S : Type 0} → TxBuilder D S → ℕ → Option (Result Error (Psbt P O))
  unfolding generate
  build_payment b feerate = elim (simulate b) [
    | none ↦ none
    | some r ↦ elim (generate b) [ none ↦ none | some built ↦ some (checked feerate r.fees built) ]
  ]

  -- The recipient of an address, by the script of the address.
  abbrev pub recipient_of : List ℕ → Amount → Recipient
  recipient_of script amount = record {
    output_weight = c.txout_weight script;
    script = script;
    is_silent_payment = false;
    is_change = false;
    amount = amount;
  }

  -- `_pay_with_label`, whose label is not part of the transaction.
  unfoldable pub pay_amount :
      {S : Type 0}
      → (Coin D → Coin D → Bool)
      → Amount
      → List ℕ
      → ℕ
      → TxBuilder D S
      → Option (TxBuilder D S × Result Error (Psbt P O))
  unfolding add_coins select_coins build_payment
  pay_amount same_coin amount script feerate b =
      let asked = add_output (recipient_of script amount) b in
      elim (given_or_coins asked amount feerate) [
        | err e ↦ some (asked, err e)
        | ok coins ↦
            if is_empty coins
            then some (asked, err Error.coin_selection)
            else (let funded = add_coins same_coin coins asked in
                elim (build_payment funded feerate) [
                  | none ↦ none
                  | some built ↦ some (funded, built)
                ])
      ]

  unfoldable pub pay :
      {S : Type 0}
      → (Coin D → Coin D → Bool)
      → ℕ
      → List ℕ
      → ℕ
      → TxBuilder D S
      → Option (TxBuilder D S × Result Error (Psbt P O))
  unfolding pay_amount
  pay same_coin amount script feerate b =
      pay_amount same_coin (value amount) script feerate (new_template b)

  unfoldable pub sweep :
      {S : Type 0}
      → (Coin D → Coin D → Bool)
      → List ℕ
      → ℕ
      → TxBuilder D S
      → Option (TxBuilder D S × Result Error (Psbt P O))
  unfolding pay_amount
  sweep same_coin script feerate b = pay_amount same_coin (Amount.max none) script feerate b
