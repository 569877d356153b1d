-- ===== src/Electrum/CoinStore/Generate/Metadata.antt =====
-- `populate_tx_metadata`: which inputs and outputs of the stored transactions are the wallet's.
use bwk.Common.{
  ℕ, suc, Bool, true, false, Option, none, some, List, [], ◌∷◌, ◌%◌, ◌==◌, ◌&&◌, not, if◌then◌else◌,
}
use bwk.Common.OrdMap.{nat_ord, lookup, insert}
use bwk.Common.Sets.{contains}
use bwk.Common.Text.{Text, text_ord}
use bwk.Coin.{OutPoint, TxIn, TxOut}
use bwk.Electrum.Types.{Bitcoin, outpoint_ord}
use bwk.Electrum.TxStore.{TxStore, TxEntry, InputMetadata, transactions, update}
use bwk.Electrum.Addresses.{AddressStore}

-- The conversion of an index to 32 bits.
abbrev pub as_u32 : ℕ → ℕ
as_u32 i = i % 4_294_967_296

abbrev pub contains_spk : AddressStore → Text → Bool
contains_spk a spk = contains spk a.store

abbrev pub TxOuts : Type 0
TxOuts = List (OutPoint × TxOut)

abbrev pub add_txouts : ℕ → ℕ → List TxOut → TxOuts → TxOuts
add_txouts txid i [] txouts = txouts
add_txouts txid i (txout ∷ output) txouts =
    add_txouts txid (suc i) output (insert (record { txid = txid; vout = as_u32 i }) txout txouts)

abbrev pub output_metadata : AddressStore → ℕ → List TxOut → List (ℕ × Bool)
output_metadata a i [] = []
output_metadata a i (txout ∷ output) =
    (i, contains_spk a txout.script_pubkey) ∷ output_metadata a (suc i) output

abbrev pub input_of : AddressStore → Option TxOut → InputMetadata
input_of a none = record { value = none; owned = false }
input_of a (some txout) =
    let owned = contains_spk a txout.script_pubkey in
    record { value = (if owned then some txout.value else none); owned = owned }

abbrev pub input_metadata : AddressStore → TxOuts → ℕ → List TxIn → List (ℕ × InputMetadata)
input_metadata a txouts i [] = []
input_metadata a txouts i (txin ∷ input) =
    (i, input_of a (lookup txin.previous_output txouts)) ∷ input_metadata a txouts (suc i) input

abbrev same_bool : Bool → Bool → Bool
same_bool true b = b
same_bool false b = not b

abbrev same_value : Option ℕ → Option ℕ → Bool
same_value none none = true
same_value (some a) (some b) = a == b
same_value _ _ = false

abbrev pub same_outputs : List (ℕ × Bool) → List (ℕ × Bool) → Bool
same_outputs [] [] = true
same_outputs ((i, a) ∷ xs) ((j, b) ∷ ys) = (i == j) && same_bool a b && same_outputs xs ys
same_outputs _ _ = false

abbrev pub same_inputs : List (ℕ × InputMetadata) → List (ℕ × InputMetadata) → Bool
same_inputs [] [] = true
same_inputs ((i, a) ∷ xs) ((j, b) ∷ ys) =
    (i == j) && same_value a.value b.value && same_bool a.owned b.owned && same_inputs xs ys
same_inputs _ _ = false

module _ (bitcoin : Bitcoin) where
  unfoldable pub collect_txouts : List TxEntry → TxOuts → TxOuts
  collect_txouts [] txouts = txouts
  collect_txouts (tx ∷ txs) txouts =
      collect_txouts txs (add_txouts (bitcoin.compute_txid tx.tx) 0 tx.tx.output txouts)

  -- One transaction: written only where its metadata changes.
  abbrev pub populate_one : AddressStore → TxOuts → TxEntry → TxStore → TxStore
  populate_one a txouts tx s =
      let outputs = output_metadata a 0 tx.tx.output in
      let inputs = input_metadata a txouts 0 tx.tx.input in
      if same_outputs tx.outputs outputs && same_inputs tx.inputs inputs
      then s
      else update bitcoin s (record tx { outputs = outputs; inputs = inputs })

  unfoldable pub populate_each : AddressStore → TxOuts → List TxEntry → TxStore → TxStore
  populate_each a txouts [] s = s
  populate_each a txouts (tx ∷ txs) s = populate_each a txouts txs (populate_one a txouts tx s)

  unfoldable pub populate_tx_metadata : AddressStore → TxStore → TxStore
  unfolding collect_txouts populate_each
  populate_tx_metadata a s = populate_each a (collect_txouts (transactions s) []) (transactions s) s
