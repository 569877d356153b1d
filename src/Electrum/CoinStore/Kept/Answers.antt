-- ===== src/Electrum/CoinStore/Kept/Answers.antt =====
-- The server's answers keep the predicate of the transactions and the one claim of each.
use bwk.Common.{
  ℕ, Bool, none, some, List, [], ◌∷◌, ◌++◌, ◌≡◌, arith, All, map, not, ◌&&◌, Bool-cases,
  Option-cases, inl, inr, subst, refl,
}
use bwk.Common.OrdMap.{nat_ord, insert}
use bwk.Common.Sets.{keys_of}
use bwk.Common.Text.{Text, text_ord}
use bwk.Persist.RamStore.{get}
use bwk.Electrum.Types.{Transaction, ClaimAt}
use bwk.Electrum.Updates.{Heights, HistoryDiff, Update, insert_history, from_diff}
use bwk.Electrum.TxStore.{
  TxStore, TxEntry, Inclusion, remove_tx, update_inclusion, update, unconfirmed_entry,
}
use bwk.Electrum.TxStore.Entries.{
  Every, Fresh, remove_tx-Every, update_inclusion-Every, update-Every,
}
use bwk.Electrum.Claims.{PendingClaims, drop_all_pending_claims}
use bwk.Electrum.Claims.Single.{Single, drop_all-Single}
use bwk.Electrum.Addresses.{recv_coin_at}
use bwk.Electrum.CoinStore.{CoinStore, Wallet}
use bwk.Electrum.CoinStore.Generate.{generate}
use bwk.Electrum.CoinStore.Listener.{
  HistoryOutcome, history_of, remove_each, demote_each, drop_each, fill, tips_moved, apply_diff,
  update_spk_history, apply_complete, fold_histories, handle_history_response, receive_txs,
  handle_txs_response, owns_input, owns_output, record_unconfirmed_tx,
}
use bwk.Electrum.CoinStore.Kept.{Closed, Kept, AllFresh}
use bwk.Electrum.CoinStore.Kept.Derived.{generate-Kept}
use bwk.Electrum.CoinStore.Kept.Carried.{
  apply_complete-Kept, append-AllFresh, fill-AllFresh, receive_txs-AllFresh,
}

drop_each-Single : (txids : List ℕ) (p : PendingClaims) → Single p → Single (drop_each txids p)
drop_each-Single [] p s = s
drop_each-Single (txid ∷ txids) p s =
    drop_each-Single txids (drop_all_pending_claims p txid) (drop_all-Single p txid s)

module _ {D B : Type 0} (w : Wallet D B) (Q : ℕ → TxEntry → Type 0) (c : Closed w.bitcoin Q) where
  remove_each-Every : (txids : List ℕ) (s : TxStore) → Every Q s → Every Q (remove_each txids s)
  remove_each-Every [] s h = h
  remove_each-Every (txid ∷ txids) s h =
      remove_each-Every txids (remove_tx s txid) (remove_tx-Every Q s txid h)

  demote_each-Every : (txids : List ℕ) (s : TxStore) → Every Q s → Every Q (demote_each txids s)
  demote_each-Every [] s h = h
  demote_each-Every (txid ∷ txids) s h =
      demote_each-Every txids (update_inclusion s txid Inclusion.unconfirmed)
        (update_inclusion-Every Q s txid Inclusion.unconfirmed (λ e q. c.demoted txid e q) h)

  apply_diff-Kept : (d : HistoryDiff) (s : CoinStore D B) → Kept w Q s → Kept w Q (apply_diff d s)
  apply_diff-Kept d s k = record {
    entries =
        demote_each-Every (keys_of d.changed) (remove_each (keys_of d.removed) s.tx_store)
          (remove_each-Every (keys_of d.removed) s.tx_store k.entries);
    carried = k.carried;
    claims = drop_each-Single (keys_of d.changed) s.pending_claims k.claims;
  }

  nothing_came : (txids : List ℕ) → All (Fresh Q w.bitcoin) (map (λ txid. (txid, none)) txids)
  nothing_came [] = tt
  nothing_came (txid ∷ txids) = (tt, nothing_came txids)

  from_diff-Fresh : (spk : Text) (d : HistoryDiff) → All (Fresh Q w.bitcoin) (from_diff spk d).txs
  unfolding from_diff
  from_diff-Fresh spk d = nothing_came (keys_of d.added)

  update_spk_history-Kept :
      (s s' : CoinStore D B) (spk : Text) (history : Heights) (changed : Bool) (u : Update)
      → update_spk_history s spk history ≡ some (s', changed, u)
      → Kept w Q s
      → Kept w Q s' × All (Fresh Q w.bitcoin) u.txs
  unfolding update_spk_history
  update_spk_history-Kept s s' spk history changed u e k =
      elim (Option-cases (insert_history (history_of spk s.spk_history) history)) [
        | inl panics ↦ absurd (ground (arith, e))
        | inr ((h, d), returns) ↦
            let before = record s { spk_history = insert spk h s.spk_history } in
            let same : from_diff spk d ≡ u = ground (arith, e) in
            (
              subst (Kept w Q) (ground (arith, e)) (
                  apply_diff-Kept d before
                    (record { entries = k.entries; carried = k.carried; claims = k.claims })),
              subst (λ (v : Update). All (Fresh Q w.bitcoin) v.txs) same (from_diff-Fresh spk d),
            )
      ]

  pub handle_txs_response-Kept :
      (s s' : CoinStore D B) (txs : List Transaction)
      → handle_txs_response w s txs ≡ some s'
      → Kept w Q s
      → Kept w Q s'
  unfolding handle_txs_response
  handle_txs_response-Kept s s' txs e k =
      let (entries, carried) =
        apply_complete-Kept w Q c s.tx_store (receive_txs w txs s.updates) k.entries
          (receive_txs-AllFresh w Q c txs s.updates k.carried) in
      generate-Kept w Q c _ s' e
        (record { entries = entries; carried = carried; claims = k.claims })

  pub record_unconfirmed_tx-Kept :
      (s s' : CoinStore D B) (tx : Transaction)
      → record_unconfirmed_tx w s tx ≡ some s'
      → Kept w Q s
      → Kept w Q s'
  unfolding record_unconfirmed_tx unconfirmed_entry
  record_unconfirmed_tx-Kept s s' tx e k =
      elim (Bool-cases (not (owns_input w s tx) && not (owns_output w s tx))) [
        | inl foreign ↦ subst (Kept w Q) (ground (arith, e, foreign)) k
        | inr ours ↦ elim (Option-cases (get s.tx_store (w.bitcoin.compute_txid tx))) [
          | inr (entry, known) ↦ generate-Kept w Q c s s' (ground (arith, e, ours, known)) k
          | inl fresh ↦
              let tx_store = update w.bitcoin s.tx_store (unconfirmed_entry w.bitcoin tx) in
              generate-Kept w Q c (record s { tx_store = tx_store }) s'
                (ground (arith, e, ours, fresh))
                (record {
                  entries =
                      update-Every Q w.bitcoin s.tx_store (unconfirmed_entry w.bitcoin tx)
                        (c.fresh (w.bitcoin.compute_txid tx) tx refl) k.entries;
                  carried = k.carried;
                  claims = k.claims;
                })
        ]
      ]

  fold_histories-Kept :
      (hist : List (Text × Heights)) (s s' : CoinStore D B) (us : List Update) (b : Bool)
      (r : List ClaimAt)
      → fold_histories w s hist ≡ some (s', us, b, r)
      → Kept w Q s
      → Kept w Q s' × AllFresh w Q us
  unfolding fold_histories
  fold_histories-Kept [] s s' us b r e k =
      let same : s ≡ s' = ground (arith, e) in
      let none_left : [] ≡ us = ground (arith, e) in
      (subst (Kept w Q) same k, subst (AllFresh w Q) none_left tt)
  fold_histories-Kept ((spk, history) ∷ hist) s s' us b r e k =
      elim (Option-cases (recv_coin_at w.derivator s.address_store spk)) [
        | inl panics ↦ absurd (ground (arith, e))
        | inr (addresses, received) ↦
            let moved = record s { address_store = addresses } in
            elim (Option-cases (update_spk_history moved spk history)) [
              | inl panics ↦ absurd (ground (arith, e))
              | inr ((next, changed, u), updated) ↦
                  let (k', f) =
                    update_spk_history-Kept moved next spk history changed u updated
                      (record { entries = k.entries; carried = k.carried; claims = k.claims }) in
                  elim (Option-cases (fold_histories w next hist)) [
                    | inl panics ↦ absurd (ground (arith, e))
                    | inr ((last, us', b', r'), folded) ↦
                        let (k'', f') = fold_histories-Kept hist next last us' b' r' folded k' in
                        let same : last ≡ s' = ground (arith, e) in
                        let all : u ∷ us' ≡ us = ground (arith, e) in
                        (subst (Kept w Q) same k'', subst (AllFresh w Q) all (f, f'))
                  ]
            ]
      ]

  -- The state before the coins are derived again.
  abbrev applied : CoinStore D B → List Update → CoinStore D B
  applied s us =
      let (tx_store, rest) = apply_complete w s.tx_store (map (fill s.tx_store) us) in
      record s { tx_store = tx_store; updates = s.updates ++ rest }

  applied-Kept :
      (s : CoinStore D B) (us : List Update)
      → Kept w Q s
      → AllFresh w Q us
      → Kept w Q (applied s us)
  applied-Kept s us k f =
      let (entries, carried) =
        apply_complete-Kept w Q c s.tx_store (map (fill s.tx_store) us) k.entries
          (fill-AllFresh w Q c s.tx_store us k.entries f) in
      record {
        entries = entries;
        carried = append-AllFresh w Q c s.updates _ k.carried carried;
        claims = k.claims;
      }

  pub handle_history_response-Kept :
      (s s' : CoinStore D B) (hist : List (Text × Heights)) (o : HistoryOutcome)
      → handle_history_response w s hist ≡ some (s', o)
      → Kept w Q s
      → Kept w Q s'
  unfolding handle_history_response
  handle_history_response-Kept s s' hist o e k = elim (Option-cases (fold_histories w s hist)) [
    | inl panics ↦ absurd (ground (arith, e))
    | inr ((folded, us, b, r), returns) ↦
        let (k', f) = fold_histories-Kept hist s folded us b r returns k in
        let next = applied folded us in
        elim (Bool-cases (tips_moved s.address_store next.address_store)) [
          | inl moved ↦ elim (Option-cases (generate w next)) [
            | inl panics ↦ absurd (ground (arith, e))
            | inr (last, derived) ↦
                let same : last ≡ s' = ground (arith, e) in
                subst (Kept w Q) same
                  (generate-Kept w Q c next last derived (applied-Kept folded us k' f))
          ]
          | inr still ↦
              let same : next ≡ s' = ground (arith, e) in
              subst (Kept w Q) same (applied-Kept folded us k' f)
        ]
  ]
