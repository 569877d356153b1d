-- ===== src/Electrum/CoinStore/Listener.antt =====
-- What `CoinStore` does with the server's answers: `handle_history_response`, `update_spk_history`,
-- `handle_txs_response` and `record_unconfirmed_tx`. `none` is a panic.
use bwk.Common.{
  ℕ, Bool, false, Option, none, some, List, [], ◌∷◌, ◌++◌, ◌==◌, ◌&&◌, ◌||◌, not, any, ltb,
  is_empty, map, if◌then◌else◌,
}
use bwk.Common.Fault.{◌>>=◌}
use bwk.Common.OrdMap.{nat_ord, lookup, insert}
use bwk.Common.Sets.{BTreeSet, is_some, contains, keys_of}
use bwk.Common.Text.{Text, text_ord}
use bwk.Persist.RamStore.{get}
use bwk.Electrum.Types.{Transaction, ClaimAt, outpoint_ord, claim_ord}
use bwk.Electrum.Updates.{
  Heights, SpkHistory, HistoryDiff, Update, new, insert_history, from_diff, is_complete, missing,
}
use bwk.Electrum.TxStore.{
  TxStore, Inclusion, inner_get, remove_tx, update_inclusion, insert_updates, update,
  unconfirmed_entry,
}
use bwk.Electrum.Claims.{PendingClaims, drop_all_pending_claims}
use bwk.Electrum.Addresses.{AddressStore, recv_coin_at, recv_watch_tip, change_watch_tip}
use bwk.Electrum.CoinStore.{CoinStore, Wallet}
use bwk.Electrum.CoinStore.Generate.{generate}
use bwk.Electrum.CoinStore.Generate.Metadata.{contains_spk}

pub record HistoryOutcome : Type 0 where
  pub height_updated : Bool
  pub missing_txs : List ℕ
  pub reported : List ClaimAt

-- The history of a script, a blank one if there is none.
abbrev pub history_of : Text → List (Text × SpkHistory) → SpkHistory
history_of spk histories = elim (lookup spk histories) [ none ↦ new | some h ↦ h ]

abbrev pub remove_each : List ℕ → TxStore → TxStore
remove_each [] s = s
remove_each (txid ∷ txids) s = remove_each txids (remove_tx s txid)

abbrev pub demote_each : List ℕ → TxStore → TxStore
demote_each [] s = s
demote_each (txid ∷ txids) s = demote_each txids (update_inclusion s txid Inclusion.unconfirmed)

abbrev pub drop_each : List ℕ → PendingClaims → PendingClaims
drop_each [] p = p
drop_each (txid ∷ txids) p = drop_each txids (drop_all_pending_claims p txid)

-- `retain` of the claims of other transactions.
abbrev pub forget : ℕ → BTreeSet ClaimAt → BTreeSet ClaimAt
forget txid [] = []
forget txid ((claim, u) ∷ claims) =
    let rest = forget txid claims in if claim.txid == txid then rest else (claim, u) ∷ rest

abbrev pub forget_each : List ℕ → BTreeSet ClaimAt → BTreeSet ClaimAt
forget_each [] claims = claims
forget_each (txid ∷ txids) claims = forget_each txids (forget txid claims)

-- The claims of the heights that fit 32 bits.
abbrev pub reported_of : Heights → List ClaimAt
reported_of [] = []
reported_of ((txid, none) ∷ history) = reported_of history
reported_of ((txid, some h) ∷ history) =
    let rest = reported_of history in
    if ltb h 4_294_967_296 then record { txid = txid; height = h } ∷ rest else rest

abbrev pub or_known : Option Transaction → Option Transaction → Option Transaction
or_known none tx = tx
or_known (some known) tx = some known

-- The transactions that the store has.
abbrev pub fill_known : TxStore → List (ℕ × Option Transaction) → List (ℕ × Option Transaction)
fill_known s [] = []
fill_known s ((txid, tx) ∷ txs) = (txid, or_known (inner_get s txid) tx) ∷ fill_known s txs

-- A transaction that came, where an update waits for it.
abbrev pub receive_tx :
    ℕ → Transaction → List (ℕ × Option Transaction) → List (ℕ × Option Transaction)
receive_tx new_txid new_tx [] = []
receive_tx new_txid new_tx ((txid, tx) ∷ txs) =
    let rest = receive_tx new_txid new_tx txs in
    if (txid == new_txid) && not (is_some tx) then (txid, some new_tx) ∷ rest else (txid, tx) ∷ rest

abbrev pub fill : TxStore → Update → Update
fill s u = record u { txs = fill_known s u.txs }

abbrev pub receive : ℕ → Transaction → Update → Update
receive txid tx u = record u { txs = receive_tx txid tx u.txs }

abbrev pub tips_moved : AddressStore → AddressStore → Bool
tips_moved a b =
    not ((recv_watch_tip a == recv_watch_tip b) && (change_watch_tip a == change_watch_tip b))

abbrev pub missing_all : List Update → List ℕ
missing_all [] = []
missing_all (u ∷ updates) = missing u ++ missing_all updates

module _ {D B : Type 0} where
  -- The effect of a difference on the transactions and the claims.
  abbrev pub apply_diff : HistoryDiff → CoinStore D B → CoinStore D B
  apply_diff d s =
      let removed = keys_of d.removed in
      let changed = keys_of d.changed in
      record s {
        tx_store = demote_each changed (remove_each removed s.tx_store);
        pending_claims = drop_each changed s.pending_claims;
        merkle_in_flight = forget_each (removed ++ changed) s.merkle_in_flight;
      }

  unfoldable pub update_spk_history :
      CoinStore D B → Text → Heights → Option (CoinStore D B × Bool × Update)
  update_spk_history s spk history = do
    (h, d) ← insert_history (history_of spk s.spk_history) history
    some (
      apply_diff d (record s { spk_history = insert spk h s.spk_history }),
      not (is_empty d.changed),
      from_diff spk d,
    )

-- The loops that fold complete updates into the store.
module _ {D B : Type 0} (w : Wallet D B) where
  unfoldable pub apply_complete : TxStore → List Update → TxStore × List Update
  apply_complete s [] = (s, [])
  apply_complete s (u ∷ updates) =
      let (applied, rest) =
        apply_complete (if is_complete u then insert_updates w.bitcoin s (u ∷ []) else s) updates in
      (applied, (if is_complete u then rest else u ∷ rest))

  -- The loop over the histories: the store, the updates, whether a height changed, the claims.
  unfoldable pub fold_histories :
      CoinStore D B
      → List (Text × Heights)
      → Option (CoinStore D B × List Update × Bool × List ClaimAt)
  unfolding update_spk_history
  fold_histories s [] = some (s, [], false, [])
  fold_histories s ((spk, history) ∷ hist) = do
    addresses ← recv_coin_at w.derivator s.address_store spk
    (s', changed, upd) ← update_spk_history (record s { address_store = addresses }) spk history
    (last, updates, height_updated, reported) ← fold_histories s' hist
    some (last, upd ∷ updates, changed || height_updated, reported_of history ++ reported)

  unfoldable pub handle_history_response :
      CoinStore D B → List (Text × Heights) → Option (CoinStore D B × HistoryOutcome)
  unfolding fold_histories apply_complete
  handle_history_response s hist = do
    (s', updates, height_updated, reported) ← fold_histories s hist
    let filled = map (fill s'.tx_store) updates
    let (tx_store, rest) = apply_complete s'.tx_store filled
    let next = record s' { tx_store = tx_store; updates = s'.updates ++ rest }
    last ← if tips_moved s.address_store next.address_store then generate w next else some next
    some (
      last,
      record {
        height_updated = height_updated;
        missing_txs = missing_all filled;
        reported = reported;
      },
    )

  -- The loop over the transactions that came.
  unfoldable pub receive_txs : List Transaction → List Update → List Update
  receive_txs [] updates = updates
  receive_txs (tx ∷ txs) updates =
      receive_txs txs (map (receive (w.bitcoin.compute_txid tx) tx) updates)

  unfoldable pub handle_txs_response : CoinStore D B → List Transaction → Option (CoinStore D B)
  unfolding receive_txs apply_complete
  handle_txs_response s txs =
      let (tx_store, updates) = apply_complete s.tx_store (receive_txs txs s.updates) in
      generate w (record s { tx_store = tx_store; updates = updates })

  abbrev pub owns_input : CoinStore D B → Transaction → Bool
  owns_input s tx = any (λ i. contains i.previous_output s.store) tx.input

  abbrev pub owns_output : CoinStore D B → Transaction → Bool
  owns_output s tx = any (λ o. contains_spk s.address_store o.script_pubkey) tx.output

  unfoldable pub record_unconfirmed_tx : CoinStore D B → Transaction → Option (CoinStore D B)
  record_unconfirmed_tx s tx =
      if not (owns_input s tx) && not (owns_output s tx)
      then some s
      else elim (get s.tx_store (w.bitcoin.compute_txid tx)) [
        | none ↦
            let tx_store = update w.bitcoin s.tx_store (unconfirmed_entry w.bitcoin tx) in
            generate w (record s { tx_store = tx_store })
        | some e ↦ generate w s
      ]
