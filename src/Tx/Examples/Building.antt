-- ===== src/Tx/Examples/Building.antt =====
-- A payment that the builder makes, at concrete inputs.
use mathlib.Core.List.{Perm}
use mathlib.Core.List.Perm
use bwk.Common.{
  ℕ, err, ◌⊎◌, Bool, ◌==◌, none, some, [], ◌∷◌, map, ◌≡◌, refl, ◌+◌, ◌*◌, ◌≤◌, inl, inr, arith,
  length,
}
use bwk.Coin.{Coin, TxOut, Miniscript, to_txin, to_psbt_input}
use bwk.Tx.Types.{TransactionResult, milli_sats_vb, Error}
use bwk.Tx.Checks.{check_missing_change}
use bwk.Tx.Finalize.{
  Crates, Psbt, created_output, prepare_outputs, build_psbt, psbt_inputs, psbt_outputs, run_checks,
  sp_outputs, finalize,
}
use bwk.Tx.Finalize.Balanced.{Shuffles}
use bwk.Tx.Builder.{
  TxBuilder, simulate, generate, build_payment, change_of, add_coin, add_coins, select_coins,
  pay_amount, pay,
}
use bwk.Tx.Builder.Paid.{pay-outputs}
use bwk.Tx.Builder.Rate.{change_fee, pay-change_fee}
use bwk.Tx.Finalize.Amounts.{as_outputs}
use bwk.Tx.Fees.Conservation.{or_zero}
use bwk.Tx.Builder.Generated.{Balanced, rate_fee, generate-Balanced, build_payment-Balanced}
use bwk.Tx.Examples.{vbytes, payment, change_output, paid, program}

-- Descriptors are numbers, and the psbt data of an input is the output it spends.
abbrev descriptors : Miniscript ℕ ℕ TxOut
descriptors = record {
  into_single_descriptors = λ d. some (d ∷ (d + 1) ∷ []);
  at_derivation_index = λ d index. some (d + index);
  max_weight_to_satisfy = λ d. some 108;
  with_witness_utxo = λ txout. txout;
  update_input_with_descriptor = λ input p d. some p;
}

-- The shuffles keep the order here.
abbrev crates : Crates ℕ ℕ TxOut ℕ
crates = record {
  miniscript = descriptors;
  to_psbt_output = λ r. some r.output_weight;
  to_vbytes_ceil = vbytes;
  tx_weight = λ tx. 42 + 272 * length tx.input + 124 * length tx.output;
  txout_weight = λ script. 124;
  shuffle_coins = λ inputs. inputs;
  shuffle_outputs = λ outputs. outputs;
}

abbrev shuffles : Shuffles crates
shuffles = record { coins = λ inputs. Perm.refl inputs; outputs = λ outputs. Perm.refl outputs }

-- Two coins of 100000 satoshis together pay 50000.
abbrev builder : TxBuilder ℕ ℕ
builder = record {
  change_provider = change_output;
  tx_template = payment;
  coin_source = none;
  sp_provider = none;
  coin_selector = λ source target feerate. source;
  max_fee_percent = 10;
  max_fee_amount = 2_000_000;
}

abbrev built : Psbt TxOut ℕ
built = record {
  unsigned_tx = record {
    version = 2;
    lock_time = 0;
    input = map to_txin payment.inputs;
    output =
        record { value = 50000; script_pubkey = 81 ∷ [] }
        ∷ record { value = 49791; script_pubkey = 81 ∷ [] }
        ∷ [];
  };
  inputs = map (λ coin. coin.txout) payment.inputs;
  outputs = 124 ∷ 124 ∷ [];
}

building : Unit {0}
unfolding program simulate generate build_payment finalize prepare_outputs build_psbt psbt_inputs
    psbt_outputs run_checks sp_outputs check_missing_change to_psbt_input to_txin
building = tt

paying : Unit {0}
unfolding building pay pay_amount add_coins add_coin select_coins
paying = tt

generate-Balanced_example : Balanced payment.inputs 209 50000 10 2_000_000 built
unfolding building
generate-Balanced_example =
    generate-Balanced crates builder paid built shuffles tt
      (omega arith, omega arith, omega arith, inr (inl (omega arith))) refl refl

build_payment-Balanced_example :
    Balanced payment.inputs 209 50000 10 2_000_000 built × (rate_fee crates 1000 built ≤ 209)
unfolding building
build_payment-Balanced_example =
    build_payment-Balanced crates builder paid built 1000 shuffles tt
      (omega arith, omega arith, omega arith, inr (inl (omega arith))) refl refl

-- The same coins, from the source of a builder with an older template.
abbrev source_builder : TxBuilder ℕ ℕ
source_builder = record builder {
  coin_source = some payment.inputs;
  tx_template = record payment { inputs = [] };
}

abbrev same_coin : Coin ℕ → Coin ℕ → Bool
same_coin a b = a.outpoint.txid == b.outpoint.txid

pay-outputs_example :
    (r : TransactionResult ℕ) × (simulate crates (record source_builder { tx_template = payment })
      ≡ some r)
    × Perm built.unsigned_tx.output (
        record { value = 50000; script_pubkey = 81 ∷ [] }
        ∷ map created_output (as_outputs (change_of change_output r.change)))
    × (rate_fee crates 1000 built ≤ or_zero r.fees)
unfolding paying
pay-outputs_example =
    pay-outputs crates same_coin 50000 (81 ∷ []) 1000 source_builder {psbt = built} shuffles refl
      refl

pay-change_fee_example :
    (r : TransactionResult ℕ) × (simulate crates (record source_builder { tx_template = payment })
      ≡ some r)
    × ((r.change ≡ none)
        ⊎ ((r.fees
              ≡ some (
                  change_fee crates
                    (record source_builder { tx_template = payment })
                    r
                    (milli_sats_vb 1000)))
            × (rate_fee crates 1000 built
                ≤ change_fee crates
                    (record source_builder { tx_template = payment })
                    r
                    (milli_sats_vb 1000))))
unfolding paying
pay-change_fee_example =
    pay-change_fee crates same_coin 50000 (81 ∷ []) 1000 source_builder {psbt = built} refl

-- At twice the rate the same payment is refused, though the coins could pay it.
refused :
    pay crates same_coin 50000 (81 ∷ []) 2000 source_builder
    ≡ some (record source_builder { tx_template = payment }, err Error.coin_selection_fee)
unfolding paying
refused = refl
