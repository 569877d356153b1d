-- ===== src/Electrum/Reconcile/Steps.antt =====
-- The calls that the listener and the reconciler make on one coin store, in any order, each with the
-- view of the header store that it reads.
use bwk.Common.{ℕ, Bool, Option, some, List, [], ◌∷◌}
use bwk.Common.Fault.{◌>>=◌}
use bwk.Common.Text.{Text}
use bwk.Electrum.Types.{Transaction, ClaimAt}
use bwk.Electrum.Updates.{Heights}
use bwk.Electrum.TxStore.{TxStore}
use bwk.Electrum.CoinStore.{CoinStore, Wallet, new_store}
use bwk.Electrum.CoinStore.Listener.{
  handle_history_response, handle_txs_response, record_unconfirmed_tx,
}
use bwk.Electrum.CoinStore.Chain.{HeaderFacts, HeaderView}
use bwk.Electrum.CoinStore.Passes.{record_reported_heights, confirm_pending_claims}
use bwk.Electrum.Reconcile.{
  Reconciler, MerkleOutcome, on_chain_update, handle_merkle_outcome, stamp_times,
  requeue_confirmed_unverified,
}

pub data Call : Type 0 where
  history : List (Text × Heights) → Call
  txs : List Transaction → Call
  broadcast : Transaction → Call
  report : List ClaimAt → Call
  confirm : ℕ → HeaderFacts → Call
  chain_tick : HeaderView → Call
  outcome : HeaderView → MerkleOutcome → Call
  stamp : HeaderView → Call
  requeue : Call

module _ {D B : Type 0} (w : Wallet D B) where
  abbrev pub with_coins : Reconciler D B → CoinStore D B → Reconciler D B
  with_coins r s = record r { coins = s }

  unfoldable pub call : Reconciler D B → Call → Option (Reconciler D B)
  call r (history hist) = do (s, o) ← handle_history_response w r.coins hist; some (with_coins r s)
  call r (txs list) = do s ← handle_txs_response w r.coins list; some (with_coins r s)
  call r (broadcast tx) = do s ← record_unconfirmed_tx w r.coins tx; some (with_coins r s)
  call r (report claims) = some (with_coins r (record_reported_heights r.coins claims).0)
  call r (confirm height facts) =
      some (with_coins r (confirm_pending_claims r.coins height facts).0)
  call r (chain_tick headers) = on_chain_update w headers r
  call r (outcome headers o) = handle_merkle_outcome w headers o r
  call r (stamp headers) = some (stamp_times w headers r)
  call r requeue = some (requeue_confirmed_unverified w r)

  unfoldable pub run : Reconciler D B → List Call → Option (Reconciler D B)
  unfolding call
  run r [] = some r
  run r (c ∷ calls) = do next ← call r c; run next calls

-- A reconciler of a new store on the loaded transactions.
abbrev pub begin : {D B : Type 0} → Wallet D B → ℕ → ℕ → ℕ → TxStore → B → Bool → Reconciler D B
begin w recv_tip change_tip look_ahead tx_store rows header_scanner = record {
  coins = new_store w recv_tip change_tip look_ahead tx_store rows [] header_scanner;
  sent = [];
}
