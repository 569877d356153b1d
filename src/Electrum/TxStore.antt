-- ===== src/Electrum/TxStore.antt =====
-- `TxStore`, `TxEntry` and `Inclusion` of electrum/src/tx_store.rs: the transactions of the wallet by
-- their ids, on a `RamStore`, whose operations on the cache never fail.
pub mod Kept
pub mod Entries
use bwk.Common.{
  ℕ, Bool, true, false, Option, none, some, List, [], ◌∷◌, ◌==◌, ◌&&◌, length, if◌then◌else◌,
  Result,
}
use bwk.Common.OrdMap.{nat_ord}
use bwk.Coin.{CoinStatus}
use bwk.Persist.Types.{PersistError}
use bwk.Persist.Backend.{Bytes, PersistenceBackend}
use bwk.Persist.RamStore.{
  RamStore, Codec, store_insert, store_remove, modify, flush, contains_key, get, values,
}
use bwk.Electrum.Types.{Transaction, Bitcoin}
use bwk.Electrum.Updates.{Update, is_complete}
use bwk.Electrum.History.{PaymentStatus}

-- The confirmed variants carry the height and the hash of the block.
pub data Inclusion : Type 0 where
  unconfirmed : Inclusion
  confirmed_unverified : ℕ → Bytes → Inclusion
  verified : ℕ → Bytes → Inclusion
  verify_failed : ℕ → Bytes → Inclusion

unfoldable pub height : Inclusion → Option ℕ
height (confirmed_unverified h hash) = some h
height (verified h hash) = some h
height _ = none

unfoldable pub block_hash : Inclusion → Option Bytes
block_hash (confirmed_unverified h hash) = some hash
block_hash (verified h hash) = some hash
block_hash _ = none

unfoldable pub to_payment_status : Inclusion → PaymentStatus
to_payment_status unconfirmed = PaymentStatus.unconfirmed
to_payment_status (confirmed_unverified h hash) = PaymentStatus.confirmed_unverified
to_payment_status (verified h hash) = PaymentStatus.verified
to_payment_status (verify_failed h hash) = PaymentStatus.verify_failed

unfoldable pub to_coin_status : Inclusion → CoinStatus
to_coin_status (confirmed_unverified h hash) = CoinStatus.confirmed_unverified
to_coin_status (verified h hash) = CoinStatus.confirmed
to_coin_status _ = CoinStatus.unconfirmed

-- Without a header scanner a reported confirmation reads as confirmed.
unfoldable pub coin_status : Inclusion → Bool → CoinStatus
unfolding to_coin_status
coin_status (confirmed_unverified h hash) false = CoinStatus.confirmed
coin_status inclusion header_scanner = to_coin_status inclusion

pub record InputMetadata : Type 0 where
  pub value : Option ℕ
  pub owned : Bool

pub record TxEntry : Type 0 where
  pub tx : Transaction
  pub inclusion : Inclusion
  pub inputs : List (ℕ × InputMetadata)
  pub outputs : List (ℕ × Bool)
  pub fees : ℕ
  pub weight : ℕ
  pub timestamp : Option ℕ

unfoldable pub entry_is_complete : TxEntry → Bool
entry_is_complete e =
    (length e.tx.input == length e.inputs) && (length e.tx.output == length e.outputs)

abbrev pub TxStore : Type 0
TxStore = RamStore ℕ TxEntry

unfoldable pub transactions : TxStore → List TxEntry
transactions s = values s

unfoldable pub remove_tx : TxStore → ℕ → TxStore
remove_tx s txid = (store_remove s txid).0

abbrev pub set_inclusion : Inclusion → TxEntry → TxEntry
set_inclusion unconfirmed e = record e { inclusion = unconfirmed; timestamp = none }
set_inclusion inclusion e = record e { inclusion = inclusion }

unfoldable pub update_inclusion : TxStore → ℕ → Inclusion → TxStore
update_inclusion s txid inclusion = (modify s txid (set_inclusion inclusion)).0

abbrev pub set_timestamp : ℕ → TxEntry → TxEntry
set_timestamp timestamp e = record e { timestamp = some timestamp }

unfoldable pub update_timestamp : TxStore → ℕ → ℕ → TxStore
update_timestamp s txid timestamp = (modify s txid (set_timestamp timestamp)).0

abbrev pub tx_of : Option TxEntry → Option Transaction
tx_of none = none
tx_of (some e) = some e.tx

unfoldable pub inner_get : TxStore → ℕ → Option Transaction
inner_get s txid = tx_of (get s txid)

module _ (bitcoin : Bitcoin) where
  unfoldable pub unconfirmed_entry : Transaction → TxEntry
  unconfirmed_entry tx = record {
    tx = tx;
    inclusion = unconfirmed;
    inputs = [];
    outputs = [];
    fees = 0;
    weight = bitcoin.weight tx;
    timestamp = none;
  }

  -- One transaction of an update: one that is known, or that has not come, is passed over.
  unfoldable pub insert_tx : TxStore → ℕ → Option Transaction → TxStore
  insert_tx s txid tx =
      if contains_key s txid
      then s
      else elim tx [ none ↦ s | some t ↦ (store_insert s txid (unconfirmed_entry t)).0 ]

  unfoldable pub insert_txs : TxStore → List (ℕ × Option Transaction) → TxStore
  unfolding insert_tx
  insert_txs s [] = s
  insert_txs s ((txid, tx) ∷ txs) = insert_txs (insert_tx s txid tx) txs

  unfoldable pub insert_updates : TxStore → List Update → TxStore
  unfolding insert_txs
  insert_updates s [] = s
  insert_updates s (upd ∷ updates) =
      insert_updates (if is_complete upd then insert_txs s upd.txs else s) updates

  unfoldable pub update : TxStore → TxEntry → TxStore
  update s entry = (store_insert s (bitcoin.compute_txid entry.tx) entry).0

-- A failure of the flush is logged.
unfoldable pub persist :
    {B : Type 0} → PersistenceBackend B → Codec ℕ TxEntry → B → TxStore → B × TxStore
persist backend codec b s = (flush backend codec b s).0
