-- ===== src/Electrum/CoinStore/Kept.antt =====
-- What the operations of the coin store keep: a predicate of its transactions that their confirmation
-- by a report or a header cannot break, the transactions that its updates carry, and the one pending
-- claim of each transaction.
pub mod Derived
pub mod Carried
pub mod Answers
pub mod Confirmed
pub mod Stamped
pub mod Operations
use bwk.Common.{ℕ, Bool, Option, none, some, List, ◌≡◌, ◌≢◌, All}
use bwk.Persist.Backend.{Bytes}
use bwk.Electrum.Types.{Transaction, Bitcoin}
use bwk.Electrum.Updates.{Update}
use bwk.Electrum.TxStore.{
  TxEntry, Inclusion, InputMetadata, height, set_inclusion, set_timestamp, unconfirmed_entry,
}
use bwk.Electrum.TxStore.Entries.{Every, Fresh}
use bwk.Electrum.Claims.Single.{Single}
use bwk.Electrum.CoinStore.{CoinStore, Wallet}

-- All changes of an entry but its verification keep the predicate; an entry stands under its id.
pub record Closed (bitcoin : Bitcoin) (Q : ℕ → TxEntry → Type 0) : Type 0 where
  pub demoted : (k : ℕ) (e : TxEntry) → Q k e → Q k (set_inclusion Inclusion.unconfirmed e)
  pub confirmed :
      (k : ℕ) (e : TxEntry) (h : ℕ) (hash : Bytes)
      → Q k e
      → Q k (set_inclusion (Inclusion.confirmed_unverified h hash) e)
  pub stamped :
      (k : ℕ) (e : TxEntry) (time : ℕ)
      → height e.inclusion ≢ none
      → Q k e
      → Q k (set_timestamp time e)
  pub described :
      (k : ℕ) (e : TxEntry) (inputs : List (ℕ × InputMetadata)) (outputs : List (ℕ × Bool))
      → Q k e
      → Q k (record e { inputs = inputs; outputs = outputs })
  pub keyed : (k : ℕ) (e : TxEntry) → Q k e → bitcoin.compute_txid e.tx ≡ k
  pub fresh :
      (k : ℕ) (tx : Transaction) → bitcoin.compute_txid tx ≡ k → Q k (unconfirmed_entry bitcoin tx)

module _ {D B : Type 0} (w : Wallet D B) (Q : ℕ → TxEntry → Type 0) where
  abbrev pub AllFresh : List Update → Type 0
  AllFresh updates = All (λ u. All (Fresh Q w.bitcoin) u.txs) updates

  pub record Kept (s : CoinStore D B) : Type 0 where
    pub entries : Every Q s.tx_store
    pub carried : AllFresh s.updates
    pub claims : Single s.pending_claims
