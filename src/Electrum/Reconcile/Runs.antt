-- ===== src/Electrum/Reconcile/Runs.antt =====
-- Any sequence of calls keeps the sound entries and the one claim of each transaction.
use bwk.Common.{
  ℕ, ◌%◌, Bool, true, some, List, [], ◌∷◌, ◌≡◌, ◌↔◌, arith, All, Option-cases, inl, inr, subst,
}
use bwk.Common.OrdMap.{nat_ord, lookup}
use bwk.Electrum.Claims.{pending_claim_height}
use bwk.Electrum.Claims.Single.{empty-Single, pending_claim_height-claimed}
use bwk.Electrum.CoinStore.{new_store}
use bwk.Electrum.TxStore.{TxStore, TxEntry}
use bwk.Electrum.TxStore.Entries.{Every, lookup-Every}
use bwk.Electrum.Claims.Queue.{claimed}
use bwk.Electrum.CoinStore.{Wallet}
use bwk.Electrum.CoinStore.Chain.{HeaderView}
use bwk.Electrum.CoinStore.Passes.{record_reported_heights, confirm_pending_claims}
use bwk.Electrum.CoinStore.Listener.{
  handle_history_response, handle_txs_response, record_unconfirmed_tx,
}
use bwk.Electrum.CoinStore.Kept.Answers.{
  handle_history_response-Kept, handle_txs_response-Kept, record_unconfirmed_tx-Kept,
}
use bwk.Electrum.CoinStore.Kept.Operations.{
  record_reported_heights-Kept, confirm_pending_claims-Kept, stamp_confirmation_times-Kept,
}
use bwk.Electrum.Reconcile.{Reconciler, time_of, stamp_times, requeue_confirmed_unverified}
use bwk.Electrum.Reconcile.Sound.{Sound, Sound-Closed}
use bwk.Electrum.Reconcile.Handlers.{SoundStore, on_chain_update-Kept}
use bwk.Electrum.Reconcile.Steps.{
  Call, begin, call, run, history, txs, broadcast, report, confirm, chain_tick, outcome, stamp,
  requeue,
}
use bwk.Electrum.Reconcile.Outcomes.{handle_merkle_outcome-Kept}

module _ {D B : Type 0} (w : Wallet D B) (Seen : HeaderView → Type 0) where
  -- The views that a call reads.
  abbrev pub Reads : Call → Type 0
  Reads (chain_tick headers) = Seen headers
  Reads (outcome headers o) = Seen headers
  Reads (stamp headers) = Seen headers
  Reads _ = Unit

  call-Kept :
      (r r' : Reconciler D B) (c : Call)
      → Reads c
      → call w r c ≡ some r'
      → SoundStore w Seen r.coins
      → SoundStore w Seen r'.coins
  unfolding call stamp_times requeue_confirmed_unverified
  call-Kept r r' (history hist) reads e k =
      elim (Option-cases (handle_history_response w r.coins hist)) [
        | inl panics ↦ absurd (ground (arith, e))
        | inr ((s, o), returns) ↦
            let same : s ≡ r'.coins = ground (arith, e) in
            subst (SoundStore w Seen) same (
              handle_history_response-Kept w (Sound w Seen) (Sound-Closed w Seen) r.coins s hist o
                returns k)
      ]
  call-Kept r r' (txs list) reads e k = elim (Option-cases (handle_txs_response w r.coins list)) [
    | inl panics ↦ absurd (ground (arith, e))
    | inr (s, returns) ↦
        let same : s ≡ r'.coins = ground (arith, e) in
        subst (SoundStore w Seen) same
          (handle_txs_response-Kept w (Sound w Seen) (Sound-Closed w Seen) r.coins s list returns k)
  ]
  call-Kept r r' (broadcast tx) reads e k =
      elim (Option-cases (record_unconfirmed_tx w r.coins tx)) [
        | inl panics ↦ absurd (ground (arith, e))
        | inr (s, returns) ↦
            let same : s ≡ r'.coins = ground (arith, e) in
            subst (SoundStore w Seen) same (
              record_unconfirmed_tx-Kept w (Sound w Seen) (Sound-Closed w Seen) r.coins s tx returns
                k)
      ]
  call-Kept r r' (report claims) reads e k =
      let same : (record_reported_heights r.coins claims).0 ≡ r'.coins = ground (arith, e) in
      subst (SoundStore w Seen) same
        (record_reported_heights-Kept w (Sound w Seen) (Sound-Closed w Seen) r.coins k claims)
  call-Kept r r' (confirm h facts) reads e k =
      let same : (confirm_pending_claims r.coins h facts).0 ≡ r'.coins = ground (arith, e) in
      subst (SoundStore w Seen) same
        (confirm_pending_claims-Kept w (Sound w Seen) (Sound-Closed w Seen) r.coins k h facts)
  call-Kept r r' (chain_tick headers) reads e k = on_chain_update-Kept w Seen headers r r' e k
  call-Kept r r' (outcome headers o) reads e k =
      handle_merkle_outcome-Kept w Seen headers o r r' reads e k
  call-Kept r r' (stamp headers) reads e k =
      let same : (stamp_times w headers r).coins ≡ r'.coins = ground (arith, e) in
      subst (SoundStore w Seen) same (
        stamp_confirmation_times-Kept w (Sound w Seen) (Sound-Closed w Seen) r.coins k
          (λ h. time_of (headers.header (h % 4_294_967_296))))
  call-Kept r r' requeue reads e k =
      let same : r.coins ≡ r'.coins = ground (arith, e) in subst (SoundStore w Seen) same k

  run-Kept :
      (calls : List Call) (r r' : Reconciler D B)
      → All Reads calls
      → run w r calls ≡ some r'
      → SoundStore w Seen r.coins
      → SoundStore w Seen r'.coins
  unfolding run
  run-Kept [] r r' reads e k =
      let same : r.coins ≡ r'.coins = ground (arith, e) in subst (SoundStore w Seen) same k
  run-Kept (c ∷ calls) r r' reads e k = elim (Option-cases (call w r c)) [
    | inl panics ↦ absurd (ground (arith, e))
    | inr (next, called) ↦
        run-Kept calls next r' reads.1 (ground (arith, e, called))
          (call-Kept r next c reads.0 called k)
  ]

  module _ (recv_tip change_tip look_ahead : ℕ) (tx_store : TxStore) (rows : B)
      (header_scanner : Bool) (loaded : Every (Sound w Seen) tx_store) (calls : List Call)
      (r : Reconciler D B) (reads : All Reads calls)
      (returns : run w (begin w recv_tip change_tip look_ahead tx_store rows header_scanner) calls
        ≡ some r) where
    run-SoundStore : SoundStore w Seen r.coins
    unfolding new_store
    run-SoundStore =
        run-Kept calls (begin w recv_tip change_tip look_ahead tx_store rows header_scanner) r reads
          returns (record { entries = loaded; carried = tt; claims = empty-Single })

    -- Whatever the calls on a new store whose loaded entries are sound, where none panics: an entry
    -- stands under the id of its transaction, has no time while it is unconfirmed, and is verified at
    -- a height and a block only where a branch leads from its id to the merkle root of the header
    -- that a validated chain, read by one of the calls, had there, the block's own.
    pub run-Sound :
        (txid : ℕ) (e : TxEntry) → lookup txid r.coins.tx_store.cache ≡ some e → Sound w Seen txid e
    run-Sound txid e found =
        lookup-Every (Sound w Seen) txid e r.coins.tx_store.cache run-SoundStore.entries found

    -- Whatever the calls on a new store whose loaded entries are sound, where none panics: a
    -- transaction has a pending claim at one height at most, and `pending_claim_height` finds it.
    pub run-claimed :
        (txid h : ℕ)
        → (pending_claim_height r.coins.pending_claims txid ≡ some h)
          ↔ (claimed r.coins.pending_claims h txid ≡ true)
    run-claimed txid h =
        pending_claim_height-claimed r.coins.pending_claims txid h run-SoundStore.claims
