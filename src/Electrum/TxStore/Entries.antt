-- ===== src/Electrum/TxStore/Entries.antt =====
-- A predicate of every entry of the transaction store, whose cache is sorted, under its operations.
use bwk.Common.{ℕ, Option, none, some, List, [], ◌∷◌, ◌≡◌, inl, inr, All, Option-cases, Bool-cases}
use bwk.Common.OrdMap.{
  nat_ord, Sorted, lookup, insert, remove, insert-All, insert-Sorted, remove-Sorted,
}
use bwk.Common.Sets.{remove-All, lookup-All}
use bwk.Persist.Backend.{PersistenceBackend}
use bwk.Persist.RamStore.{Codec, store_insert, store_remove, modify, contains_key}
use bwk.Persist.RamStore.Cached.{cache-flush}
use bwk.Electrum.Types.{Transaction, Bitcoin}
use bwk.Electrum.Updates.{Update, is_complete}
use bwk.Electrum.TxStore.{
  TxStore, TxEntry, Inclusion, set_inclusion, set_timestamp, update_inclusion, update_timestamp,
  remove_tx, unconfirmed_entry, insert_tx, insert_txs, insert_updates, update, persist,
}

module _ (Q : ℕ → TxEntry → Type 0) where
  abbrev pub EveryOf : List (ℕ × TxEntry) → Type 0
  EveryOf m = Sorted m × All (λ e. Q e.0 e.1) m

  abbrev pub Every : TxStore → Type 0
  Every s = EveryOf s.cache

  insert-Every :
      (k : ℕ) (e : TxEntry) (m : List (ℕ × TxEntry)) → Q k e → EveryOf m → EveryOf (insert k e m)
  insert-Every k e m q (s, h) = (insert-Sorted k e m s, insert-All (λ x. Q x.0 x.1) k e m q h)

  remove-Every : (k : ℕ) (m : List (ℕ × TxEntry)) → EveryOf m → EveryOf (remove k m)
  remove-Every k m (s, h) = (remove-Sorted k m s, remove-All (λ x. Q x.0 x.1) k m h)

  pub lookup-Every :
      (k : ℕ) (e : TxEntry) (m : List (ℕ × TxEntry)) → EveryOf m → lookup k m ≡ some e → Q k e
  lookup-Every k e m (s, h) present = lookup-All (λ x. Q x.0 x.1) k e m h present

  pub modify-Every :
      (s : TxStore) (k : ℕ) (f : TxEntry → TxEntry)
      → ((e : TxEntry) → lookup k s.cache ≡ some e → Q k e → Q k (f e))
      → Every s
      → Every (modify s k f).0
  unfolding modify
  modify-Every s k f keep h = elim (Option-cases (lookup k s.cache)) [
    | inl absent ↦ rw (absent, modify) h
    | inr (e, present) ↦
        rw (present, modify)
          (insert-Every k (f e) s.cache (keep e present (lookup-Every k e s.cache h present)) h)
  ]

  pub update_inclusion-Every :
      (s : TxStore) (k : ℕ) (i : Inclusion)
      → ((e : TxEntry) → Q k e → Q k (set_inclusion i e))
      → Every s
      → Every (update_inclusion s k i)
  unfolding update_inclusion
  update_inclusion-Every s k i keep h =
      modify-Every s k (set_inclusion i) (λ e present q. keep e q) h

  pub update_timestamp-Every :
      (s : TxStore) (k time : ℕ)
      → ((e : TxEntry) → lookup k s.cache ≡ some e → Q k e → Q k (set_timestamp time e))
      → Every s
      → Every (update_timestamp s k time)
  unfolding update_timestamp
  update_timestamp-Every s k time keep h = modify-Every s k (set_timestamp time) keep h

  pub remove_tx-Every : (s : TxStore) (k : ℕ) → Every s → Every (remove_tx s k)
  unfolding remove_tx store_remove
  remove_tx-Every s k h = elim (Option-cases (lookup k s.cache)) [
    | inl absent ↦ rw (absent, remove_tx, store_remove) (remove-Every k s.cache h)
    | inr (e, present) ↦ rw (present, remove_tx, store_remove) (remove-Every k s.cache h)
  ]

  module _ (bitcoin : Bitcoin) where
    -- A transaction that an update carries may enter as a fresh entry.
    abbrev pub Fresh : ℕ × Option Transaction → Type 0
    Fresh (k, none) = Unit
    Fresh (k, some tx) = Q k (unconfirmed_entry bitcoin tx)

    insert_tx-Every :
        (s : TxStore) (k : ℕ) (tx : Option Transaction)
        → Fresh (k, tx)
        → Every s
        → Every (insert_tx bitcoin s k tx)
    unfolding insert_tx store_insert
    insert_tx-Every s k none q h = elim (Bool-cases (contains_key s k)) [
      | inl known ↦ rw (known) h
      | inr fresh ↦ rw (fresh) h
    ]
    insert_tx-Every s k (some tx) q h = elim (Bool-cases (contains_key s k)) [
      | inl known ↦ rw (known) h
      | inr fresh ↦ rw (fresh) (insert-Every k (unconfirmed_entry bitcoin tx) s.cache q h)
    ]

    insert_txs-Every :
        (s : TxStore) (txs : List (ℕ × Option Transaction))
        → All Fresh txs
        → Every s
        → Every (insert_txs bitcoin s txs)
    unfolding insert_txs
    insert_txs-Every s [] q h = h
    insert_txs-Every s ((k, tx) ∷ txs) q h =
        insert_txs-Every (insert_tx bitcoin s k tx) txs q.1 (insert_tx-Every s k tx q.0 h)

    pub insert_updates-Every :
        (s : TxStore) (updates : List Update)
        → All (λ u. All Fresh u.txs) updates
        → Every s
        → Every (insert_updates bitcoin s updates)
    unfolding insert_updates
    insert_updates-Every s [] q h = h
    insert_updates-Every s (u ∷ updates) q h = elim (Bool-cases (is_complete u)) [
      | inl complete ↦
          rw (complete, insert_updates)
            (insert_updates-Every (insert_txs bitcoin s u.txs) updates q.1
              (insert_txs-Every s u.txs q.0 h))
      | inr waits ↦ rw (waits, insert_updates) (insert_updates-Every s updates q.1 h)
    ]

    pub update-Every :
        (s : TxStore) (e : TxEntry)
        → Q (bitcoin.compute_txid e.tx) e
        → Every s
        → Every (update bitcoin s e)
    unfolding update store_insert
    update-Every s e q h = insert-Every (bitcoin.compute_txid e.tx) e s.cache q h

-- A flush leaves the cache.
pub cache-persist :
    {B : Type 0} (backend : PersistenceBackend B) (codec : Codec ℕ TxEntry) (b : B) (s : TxStore)
    → (persist backend codec b s).1.cache ≡ s.cache
unfolding persist
cache-persist backend codec b s = cache-flush backend codec b s
