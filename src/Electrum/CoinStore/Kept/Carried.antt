-- ===== src/Electrum/CoinStore/Kept/Carried.antt =====
-- The transactions that updates carry stand under their ids, and enter the store so.
use bwk.Common.{
  ℕ, Option, none, some, List, [], ◌∷◌, ◌++◌, ◌==◌, ◌≡◌, arith, All, map, not, ◌&&◌, Bool-cases,
  inl, inr, refl,
}
use bwk.Common.OrdMap.{nat_ord, lookup}
use bwk.Common.Sets.{is_some}
use bwk.Common.Text.{text_ord}
use bwk.Persist.RamStore.{get}
use bwk.Electrum.Types.{Transaction}
use bwk.Electrum.Updates.{Update, is_complete}
use bwk.Electrum.TxStore.{TxStore, TxEntry, tx_of, inner_get, insert_updates}
use bwk.Electrum.TxStore.Entries.{Every, Fresh, lookup-Every, insert_updates-Every}
use bwk.Electrum.CoinStore.{Wallet}
use bwk.Electrum.CoinStore.Listener.{
  or_known, fill_known, receive_tx, fill, receive, apply_complete, receive_txs,
}
use bwk.Electrum.CoinStore.Kept.{Closed, AllFresh}

module _ {D B : Type 0} (w : Wallet D B) (Q : ℕ → TxEntry → Type 0) (c : Closed w.bitcoin Q) where
  -- A body that the store has enters under its id.
  known-Fresh :
      (s : TxStore) (txid : ℕ) (tx : Option Transaction) (found : Option TxEntry)
      → lookup txid s.cache ≡ found
      → Every Q s
      → Fresh Q w.bitcoin (txid, tx)
      → Fresh Q w.bitcoin (txid, or_known (tx_of found) tx)
  known-Fresh s txid tx none e h f = f
  known-Fresh s txid tx (some entry) e h f =
      c.fresh txid entry.tx (c.keyed txid entry (lookup-Every Q txid entry s.cache h e))

  pub fill_known-Fresh :
      (s : TxStore) (txs : List (ℕ × Option Transaction))
      → Every Q s
      → All (Fresh Q w.bitcoin) txs
      → All (Fresh Q w.bitcoin) (fill_known s txs)
  unfolding inner_get get
  fill_known-Fresh s [] h f = tt
  fill_known-Fresh s ((txid, tx) ∷ txs) h f =
      (known-Fresh s txid tx (lookup txid s.cache) refl h f.0, fill_known-Fresh s txs h f.1)

  pub receive_tx-Fresh :
      (tx : Transaction) (txs : List (ℕ × Option Transaction))
      → All (Fresh Q w.bitcoin) txs
      → All (Fresh Q w.bitcoin) (receive_tx (w.bitcoin.compute_txid tx) tx txs)
  receive_tx-Fresh tx [] f = tt
  receive_tx-Fresh tx ((txid, body) ∷ txs) f =
      elim (Bool-cases ((txid == w.bitcoin.compute_txid tx) && not (is_some body))) [
        | inl awaited ↦
            rw (awaited) (c.fresh txid tx (ground (arith, awaited)), receive_tx-Fresh tx txs f.1)
        | inr other ↦ rw (other) (f.0, receive_tx-Fresh tx txs f.1)
      ]

  pub apply_complete-Kept :
      (s : TxStore) (updates : List Update)
      → Every Q s
      → AllFresh w Q updates
      → Every Q (apply_complete w s updates).0 × AllFresh w Q (apply_complete w s updates).1
  unfolding apply_complete
  apply_complete-Kept s [] h f = (h, tt)
  apply_complete-Kept s (u ∷ updates) h f = elim (Bool-cases (is_complete u)) [
    | inl complete ↦
        rw (complete, apply_complete)
          (apply_complete-Kept (insert_updates w.bitcoin s (u ∷ [])) updates
            (insert_updates-Every Q w.bitcoin s (u ∷ []) (f.0, tt) h) f.1)
    | inr waits ↦
        let (h', f') = apply_complete-Kept s updates h f.1 in
        rw (waits, apply_complete) (h', (f.0, f'))
  ]

  pub append-AllFresh :
      (us vs : List Update) → AllFresh w Q us → AllFresh w Q vs → AllFresh w Q (us ++ vs)
  append-AllFresh [] vs f g = g
  append-AllFresh (u ∷ us) vs f g = (f.0, append-AllFresh us vs f.1 g)

  pub fill-AllFresh :
      (s : TxStore) (us : List Update)
      → Every Q s
      → AllFresh w Q us
      → AllFresh w Q (map (fill s) us)
  fill-AllFresh s [] h f = tt
  fill-AllFresh s (u ∷ us) h f = (fill_known-Fresh s u.txs h f.0, fill-AllFresh s us h f.1)

  pub receive-AllFresh :
      (tx : Transaction) (us : List Update)
      → AllFresh w Q us
      → AllFresh w Q (map (receive (w.bitcoin.compute_txid tx) tx) us)
  receive-AllFresh tx [] f = tt
  receive-AllFresh tx (u ∷ us) f = (receive_tx-Fresh tx u.txs f.0, receive-AllFresh tx us f.1)

  pub receive_txs-AllFresh :
      (txs : List Transaction) (us : List Update)
      → AllFresh w Q us
      → AllFresh w Q (receive_txs w txs us)
  unfolding receive_txs
  receive_txs-AllFresh [] us f = f
  receive_txs-AllFresh (tx ∷ txs) us f =
      receive_txs-AllFresh txs (map (receive (w.bitcoin.compute_txid tx) tx) us)
        (receive-AllFresh tx us f)
