-- ===== src/Tx/Finalize.antt =====
-- `TxTemplate::finalize` of tx/src/transaction.rs, with its parts: from a template and its change to an
-- unsigned PSBT. The shuffles, the providers of silent payments and what the crates `bitcoin` and
-- `miniscript` make of an input or output are parameters; the script of a recipient is the one it
-- would create.
pub mod Filled
pub mod Amounts
pub mod Balanced
use bwk.Common.{
  ℕ, Bool, true, false, Option, none, some, List, [], ◌∷◌, ◌++◌, map, ◌*◌, not, any, if◌then◌else◌,
  Result, ok, err, ◌>>=◌, ok_or,
}
use bwk.Coin.{Error as CoinError, Coin, TxOut, TxIn, Miniscript, to_txin, to_psbt_input}
use bwk.Tx.Types.{Error, Amount, value, anchor, Recipient, TxTemplate}
use bwk.Tx.Checks.{check_disproportionate_fee, check_missing_change}
use bwk.Electrum.Types.{Transaction}

-- `bitcoin::Amount::MAX_MONEY`.
abbrev pub max_money : ℕ
max_money = 2_100_000_000_000_000

-- The amount of a sweep that was never settled cannot be spent.
abbrev bitcoin_sats : Amount → ℕ
bitcoin_sats (value v) = v
bitcoin_sats (Amount.max (some v)) = v
bitcoin_sats (Amount.max none) = max_money
bitcoin_sats anchor = 0

abbrev pub output_bitcoin_amount : Recipient → ℕ
output_bitcoin_amount r = bitcoin_sats r.amount

abbrev pub created_output : Recipient → TxOut
created_output r = record { value = output_bitcoin_amount r; script_pubkey = r.script }

-- `none` is an error of the provider.
pub record SpProvider (D S : Type 0) : Type 0 where
  pub compute_partial_secret : List (Coin D) → Option S
  pub derive_sp_scripts : List Recipient → S → List Recipient

-- What the code calls of other crates; `to_psbt_output` with the fields of a silent payment.
pub record Crates (D DD P O : Type 0) : Type 0 where
  pub miniscript : Miniscript D DD P
  pub to_psbt_output : Recipient → Option O
  pub to_vbytes_ceil : ℕ → ℕ
  pub tx_weight : Transaction → ℕ
  pub txout_weight : List ℕ → ℕ
  pub shuffle_coins : List (Coin D) → List (Coin D)
  pub shuffle_outputs : List Recipient → List Recipient

-- A PSBT; its version is 0 and its other fields are empty.
pub record Psbt (P O : Type 0) : Type 0 where
  pub unsigned_tx : Transaction
  pub inputs : List P
  pub outputs : List O

abbrev pub has_change : List Recipient → Bool
has_change outputs = any (λ o. o.is_change) outputs

unfoldable pub prepare_outputs : List Recipient → Option Recipient → Result Error (List Recipient)
prepare_outputs outputs none = ok outputs
prepare_outputs outputs (some change) =
    if not change.is_change
    then err Error.not_change
    else if has_change outputs
    then err Error.change_already_added
    else ok (outputs ++ change ∷ [])

module _ {D DD P O : Type 0} (c : Crates D DD P O) where
  abbrev pub shuffle_maybe : Bool → List (Coin D) → List Recipient → List (Coin D) × List Recipient
  shuffle_maybe false inputs outputs = (inputs, outputs)
  shuffle_maybe true inputs outputs = (c.shuffle_coins inputs, c.shuffle_outputs outputs)

  abbrev as_input : {A : Type 0} → Result CoinError A → Result Error A
  as_input (ok a) = ok a
  as_input (err e) = err Error.input

  unfoldable pub psbt_inputs : List (Coin D) → Result Error (List P)
  psbt_inputs [] = ok []
  psbt_inputs (i ∷ inputs) = do
    first ← as_input (to_psbt_input c.miniscript i)
    rest ← psbt_inputs inputs
    ok (first ∷ rest)

  unfoldable pub psbt_outputs : List Recipient → Result Error (List O)
  psbt_outputs [] = ok []
  psbt_outputs (o ∷ outputs) = do
    first ← ok_or Error.output (c.to_psbt_output o)
    rest ← psbt_outputs outputs
    ok (first ∷ rest)

  unfoldable pub build_psbt : List (Coin D) → List Recipient → Result Error (Psbt P O)
  unfolding psbt_inputs psbt_outputs to_txin
  build_psbt inputs outputs = do
    made_inputs ← psbt_inputs inputs
    made_outputs ← psbt_outputs outputs
    ok (record {
      unsigned_tx = record {
        version = 2;
        lock_time = 0;
        input = map to_txin inputs;
        output = map created_output outputs;
      };
      inputs = made_inputs;
      outputs = made_outputs;
    })

  unfoldable pub compute_sp_partial_secret :
      {S : Type 0} → SpProvider D S → List (Coin D) → List Recipient → Result Error (Option S)
  compute_sp_partial_secret p inputs outputs =
      if not (any (λ r. r.is_silent_payment) outputs)
      then ok none
      else elim (p.compute_partial_secret inputs) [
        | none ↦ err Error.sp_partial_secret
        | some secret ↦ ok (some secret)
      ]

  -- The outputs with the scripts that a secret gives.
  abbrev with_scripts : {S : Type 0} → SpProvider D S → List Recipient → Option S → List Recipient
  with_scripts p outputs none = outputs
  with_scripts p outputs (some secret) = p.derive_sp_scripts outputs secret

  unfoldable pub sp_outputs :
      {S : Type 0}
      → Option (SpProvider D S)
      → List (Coin D)
      → List Recipient
      → Result Error (List Recipient)
  unfolding compute_sp_partial_secret
  sp_outputs none inputs outputs = ok outputs
  sp_outputs (some p) inputs outputs = do
    secret ← compute_sp_partial_secret p inputs outputs
    ok (with_scripts p outputs secret)

  unfoldable pub run_checks :
      Bool → TxTemplate D → List (Coin D) → List Recipient → ℕ → ℕ → Result Error (Unit {0})
  run_checks true t inputs outputs max_fee_percent max_fee_amount = ok tt
  run_checks false t inputs outputs max_fee_percent max_fee_amount = do
    _ ← check_missing_change c.to_vbytes_ceil inputs outputs t.fees t.dust_threshold
    check_disproportionate_fee inputs outputs max_fee_percent max_fee_amount

  unfoldable pub finalize :
      {S : Type 0}
      → TxTemplate D
      → Option Recipient
      → Bool
      → Option (SpProvider D S)
      → ℕ
      → ℕ
      → Bool
      → Result Error (Psbt P O)
  unfolding build_psbt
  finalize t change shuffle sp_provider max_fee_percent max_fee_amount skip_checks = do
    prepared ← prepare_outputs t.outputs change
    let (inputs, outputs) = shuffle_maybe shuffle t.inputs prepared
    _ ← run_checks skip_checks t inputs outputs max_fee_percent max_fee_amount
    derived ← sp_outputs sp_provider inputs outputs
    build_psbt inputs derived
