-- ===== src/Electrum/TxStore/Kept.antt =====
-- What the operations of the transaction store do to the entry of each transaction.
use bwk.Common.{
  ℕ, Option, none, some, List, [], ◌∷◌, ◌≡◌, arith, inl, inr, if◌then◌else◌, Option-cases,
}
use bwk.Common.OrdMap.{nat_ord, key_eq, lookup, lookup-insert, lookup-remove}
use bwk.Persist.RamStore.{store_insert, store_remove, modify, contains_key}
use bwk.Electrum.Types.{Transaction, Bitcoin}
use bwk.Electrum.Updates.{Update, is_complete}
use bwk.Electrum.TxStore.{
  TxStore, TxEntry, Inclusion, set_inclusion, set_timestamp, update_inclusion, update_timestamp,
  remove_tx, unconfirmed_entry, insert_tx, update,
}

abbrev pub entry_at : TxStore → ℕ → Option TxEntry
entry_at s t = lookup t s.cache

abbrev pub map_entry : (TxEntry → TxEntry) → Option TxEntry → Option TxEntry
map_entry f none = none
map_entry f (some e) = some (f e)

pub entry_at-modify :
    (s : TxStore) (k t : ℕ) (f : TxEntry → TxEntry)
    → entry_at (modify s k f).0 t
      ≡ (if key_eq t k then map_entry f (entry_at s t) else entry_at s t)
unfolding modify
entry_at-modify s k t f = elim (Option-cases (lookup k s.cache)) [
  | inl absent ↦ ground (arith, nat_ord.cmp-eq t k)
  | inr (v, present) ↦ ground (arith, nat_ord.cmp-eq t k, lookup-insert k t (f v) s.cache)
]

pub entry_at-update_inclusion :
    (s : TxStore) (k t : ℕ) (i : Inclusion)
    → entry_at (update_inclusion s k i) t
      ≡ (if key_eq t k then map_entry (set_inclusion i) (entry_at s t) else entry_at s t)
unfolding update_inclusion
entry_at-update_inclusion s k t i = entry_at-modify s k t (set_inclusion i)

pub entry_at-update_timestamp :
    (s : TxStore) (k t time : ℕ)
    → entry_at (update_timestamp s k time) t
      ≡ (if key_eq t k then map_entry (set_timestamp time) (entry_at s t) else entry_at s t)
unfolding update_timestamp
entry_at-update_timestamp s k t time = entry_at-modify s k t (set_timestamp time)

pub entry_at-remove_tx :
    (s : TxStore) (k t : ℕ)
    → entry_at (remove_tx s k) t ≡ (if key_eq t k then none else entry_at s t)
unfolding remove_tx store_remove
entry_at-remove_tx s k t = ground (arith, lookup-remove k t s.cache)

abbrev pub or_later : Option Transaction → Option Transaction → Option Transaction
or_later none later = later
or_later (some tx) later = some tx

-- The first body of the transaction.
abbrev pub first_of : ℕ → List (ℕ × Option Transaction) → Option Transaction
first_of t [] = none
first_of t ((k, tx) ∷ txs) = if key_eq t k then or_later tx (first_of t txs) else first_of t txs

-- The first body in a complete update.
abbrev pub first_in : ℕ → List Update → Option Transaction
first_in t [] = none
first_in t (upd ∷ updates) =
    or_later (if is_complete upd then first_of t upd.txs else none) (first_in t updates)

module _ (bitcoin : Bitcoin) where
  -- A transaction that is there stays as it is; a fresh one starts unconfirmed.
  abbrev pub or_new : Option TxEntry → Option Transaction → Option TxEntry
  or_new (some e) tx = some e
  or_new none none = none
  or_new none (some new) = some (unconfirmed_entry bitcoin new)

  pub entry_at-insert_tx :
      (s : TxStore) (k t : ℕ) (tx : Option Transaction)
      → entry_at (insert_tx bitcoin s k tx) t
        ≡ (if key_eq t k then or_new (entry_at s t) tx else entry_at s t)
  unfolding insert_tx contains_key store_insert
  entry_at-insert_tx s k t none = ground arith
  entry_at-insert_tx s k t (some new) =
      ground (arith, nat_ord.cmp-eq t k, lookup-insert k t (unconfirmed_entry bitcoin new) s.cache)

  pub entry_at-update :
      (s : TxStore) (e : TxEntry) (t : ℕ)
      → entry_at (update bitcoin s e) t
        ≡ (if key_eq t (bitcoin.compute_txid e.tx) then some e else entry_at s t)
  unfolding update store_insert
  entry_at-update s e t = lookup-insert (bitcoin.compute_txid e.tx) t e s.cache
