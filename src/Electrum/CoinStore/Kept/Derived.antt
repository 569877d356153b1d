-- ===== src/Electrum/CoinStore/Kept/Derived.antt =====
-- `generate` keeps the predicate of the transactions: it writes their metadata only.
use bwk.Common.{
  ℕ, some, List, [], ◌∷◌, ◌≡◌, arith, All, map, ◌&&◌, Bool-cases, Option-cases, inl, inr, subst,
  sym,
}
use bwk.Common.OrdMap.{nat_ord}
use bwk.Persist.RamStore.{values}
use bwk.Electrum.TxStore.{TxStore, TxEntry, transactions, persist}
use bwk.Electrum.TxStore.Entries.{Every, EveryOf, update-Every, cache-persist}
use bwk.Electrum.Addresses.{AddressStore}
use bwk.Electrum.CoinStore.{CoinStore, Coins, Wallet}
use bwk.Electrum.CoinStore.Generate.{generate, generate_from, receive_all}
use bwk.Electrum.CoinStore.Generate.Metadata.{
  TxOuts, output_metadata, input_metadata, same_outputs, same_inputs, populate_one, populate_each,
  populate_tx_metadata, collect_txouts,
}
use bwk.Electrum.CoinStore.Kept.{Closed, Kept}

module _ {D B : Type 0} (w : Wallet D B) (Q : ℕ → TxEntry → Type 0) (c : Closed w.bitcoin Q) where
  -- An entry under its own id.
  abbrev Own : TxEntry → Type 0
  Own e = Q (w.bitcoin.compute_txid e.tx) e

  populate_one-Every :
      (a : AddressStore) (txouts : TxOuts) (tx : TxEntry) (s : TxStore)
      → Own tx
      → Every Q s
      → Every Q (populate_one w.bitcoin a txouts tx s)
  populate_one-Every a txouts tx s q h =
      let outputs = output_metadata a 0 tx.tx.output in
      let inputs = input_metadata a txouts 0 tx.tx.input in
      elim (Bool-cases (same_outputs tx.outputs outputs && same_inputs tx.inputs inputs)) [
        | inl same ↦ rw (same) h
        | inr differ ↦ rw (differ) (
            update-Every Q w.bitcoin s (record tx { outputs = outputs; inputs = inputs })
              (c.described (w.bitcoin.compute_txid tx.tx) tx inputs outputs q) h)
      ]

  populate_each-Every :
      (a : AddressStore) (txouts : TxOuts) (txs : List TxEntry) (s : TxStore)
      → All Own txs
      → Every Q s
      → Every Q (populate_each w.bitcoin a txouts txs s)
  unfolding populate_each
  populate_each-Every a txouts [] s q h = h
  populate_each-Every a txouts (tx ∷ txs) s q h =
      populate_each-Every a txouts txs (populate_one w.bitcoin a txouts tx s) q.1
        (populate_one-Every a txouts tx s q.0 h)

  values-Own : (m : List (ℕ × TxEntry)) → All (λ e. Q e.0 e.1) m → All Own (map (λ e. e.1) m)
  values-Own [] h = tt
  values-Own ((k, e) ∷ m) h = (subst (λ j. Q j e) (sym (c.keyed k e h.0)) h.0, values-Own m h.1)

  populate_tx_metadata-Every :
      (a : AddressStore) (s : TxStore) → Every Q s → Every Q (populate_tx_metadata w.bitcoin a s)
  unfolding populate_tx_metadata transactions values
  populate_tx_metadata-Every a s h =
      populate_each-Every a (collect_txouts w.bitcoin (transactions s) []) (transactions s) s
        (values-Own s.cache h.1) h

  pub persist-Every : (b : B) (s : TxStore) → Every Q s → Every Q (persist w.backend w.codec b s).1
  persist-Every b s h = subst (EveryOf Q) (sym (cache-persist w.backend w.codec b s)) h

  generate_from-Kept :
      (s : CoinStore D B) (received : Coins D) → Kept w Q s → Kept w Q (generate_from w s received)
  unfolding generate_from
  generate_from-Kept s received k = record {
    entries = persist-Every s.rows _ (populate_tx_metadata-Every _ s.tx_store k.entries);
    carried = k.carried;
    claims = k.claims;
  }

  pub generate-Kept : (s s' : CoinStore D B) → generate w s ≡ some s' → Kept w Q s → Kept w Q s'
  unfolding generate
  generate-Kept s s' e k = elim (Option-cases (receive_all w s s.tx_store.cache [])) [
    | inl panics ↦ absurd (ground (arith, e))
    | inr (received, returns) ↦
        subst (Kept w Q) (ground (arith, e)) (generate_from-Kept s received k)
  ]
