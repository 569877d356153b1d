-- ===== src/Electrum/Reconcile/Outcomes.antt =====
-- A proof is checked before an entry is verified: the handlers of the outcomes of merkle fetches.
use bwk.Common.{
  ℕ, true, some, List, [], ◌∷◌, ◌≡◌, arith, Bool-cases, Option-cases, inl, inr, subst, sym,
}
use bwk.Common.OrdMap.{nat_ord}
use bwk.Persist.Backend.{Bytes}
use bwk.Electrum.TxStore.{Inclusion}
use bwk.Electrum.TxStore.Entries.{update_inclusion-Every}
use bwk.Electrum.Merkle.{verify_merkle_branch}
use bwk.Electrum.CoinStore.{CoinStore, Wallet}
use bwk.Electrum.CoinStore.Chain.{HeaderView, claim_tx}
use bwk.Electrum.CoinStore.Passes.{clear_merkle_in_flight}
use bwk.Electrum.CoinStore.Kept.Operations.{clear_merkle_in_flight-Kept}
use bwk.Electrum.Reconcile.{
  Reconciler, MerkleTarget, MerkleProof, MerkleOutcome, resolve_tx_merkle_target,
  set_coins_inclusion, apply_tx_merkle, handle_tx_merkle, handle_merkle_outcome,
  merkle_proof_failed, proof, failed,
}
use bwk.Electrum.Reconcile.Sound.{Proven, Sound, Sound-Closed}
use bwk.Electrum.Reconcile.Handlers.{
  IsTarget, resolve_tx_merkle_target_known, SoundStore, save_and_send-Kept,
  commit_chain_update-Kept, retry_reorged_merkle_claim-Kept,
}

module _ {D B : Type 0} (w : Wallet D B) (Seen : HeaderView → Type 0) where
  set_verified-Kept :
      (txid h : ℕ) (hash : Bytes) (s : CoinStore D B)
      → Proven w Seen txid h hash
      → SoundStore w Seen s
      → SoundStore w Seen (set_coins_inclusion w txid (Inclusion.verified h hash) s)
  set_verified-Kept txid h hash s p k = record {
    entries =
        update_inclusion-Every (Sound w Seen) s.tx_store txid (Inclusion.verified h hash)
          (λ e q. (q.0, p)) k.entries;
    carried = k.carried;
    claims = k.claims;
  }

  set_failed-Kept :
      (txid h : ℕ) (hash : Bytes) (s : CoinStore D B)
      → SoundStore w Seen s
      → SoundStore w Seen (set_coins_inclusion w txid (Inclusion.verify_failed h hash) s)
  set_failed-Kept txid h hash s k = record {
    entries =
        update_inclusion-Every (Sound w Seen) s.tx_store txid (Inclusion.verify_failed h hash)
          (λ e q. (q.0, tt)) k.entries;
    carried = k.carried;
    claims = k.claims;
  }

  apply_tx_merkle-Kept :
      (headers : HeaderView) (txid h : ℕ) (t : MerkleTarget) (branch : List Bytes) (pos : ℕ)
      (r r' : Reconciler D B)
      → Seen headers
      → headers.is_validated ≡ true
      → IsTarget headers txid h t
      → apply_tx_merkle w t branch pos r ≡ some r'
      → SoundStore w Seen r.coins
      → SoundStore w Seen r'.coins
  unfolding apply_tx_merkle
  apply_tx_merkle-Kept headers txid h t branch pos r r' seen valid
        (_, at, (facts, found, hash, root)) e k =
      elim (Bool-cases (verify_merkle_branch w.bitcoin t.txid branch pos t.expected_root)) [
        | inl good ↦
            let proven : Proven w Seen t.txid t.height t.block_hash = (
              headers,
              seen,
              valid,
              (
                facts,
                subst (λ j. headers.header j ≡ some facts) (sym at) found,
                hash,
                (
                  branch,
                  pos,
                  subst (λ q. verify_merkle_branch w.bitcoin t.txid branch pos q ≡ true) (sym root)
                      good,
                ),
              ),
            ) in
            let next =
              set_coins_inclusion w t.txid (Inclusion.verified t.height t.block_hash) r.coins in
            commit_chain_update-Kept w Seen true (record r { coins = next }) r'
              (ground (arith, e, good))
              (set_verified-Kept t.txid t.height t.block_hash r.coins proven k)
        | inr bad ↦
            let next =
              set_coins_inclusion w t.txid (Inclusion.verify_failed t.height t.block_hash)
                r.coins in
            save_and_send-Kept w Seen (merkle_proof_failed t.txid t.height ∷ [])
              (record r { coins = next }) r' (ground (arith, e, bad))
              (set_failed-Kept t.txid t.height t.block_hash r.coins k)
      ]

  handle_tx_merkle-Kept :
      (headers : HeaderView) (p : MerkleProof) (r r' : Reconciler D B)
      → Seen headers
      → handle_tx_merkle w headers p r ≡ some r'
      → SoundStore w Seen r.coins
      → SoundStore w Seen r'.coins
  unfolding handle_tx_merkle
  handle_tx_merkle-Kept headers p r r' seen e k =
      let claim = claim_tx p.txid p.height in
      let freed = record r { coins = clear_merkle_in_flight r.coins claim } in
      let k' = clear_merkle_in_flight-Kept w (Sound w Seen) (Sound-Closed w Seen) r.coins k claim in
      elim (Bool-cases headers.is_validated) [
        | inr closed ↦
            let same : freed.coins ≡ r'.coins = ground (arith, e, closed) in
            subst (SoundStore w Seen) same k'
        | inl valid ↦
            elim (Option-cases (resolve_tx_merkle_target headers freed.coins p.txid p.height)) [
              | inl skipped ↦
                  retry_reorged_merkle_claim-Kept w Seen headers claim freed r'
                    (ground (arith, e, valid, skipped)) k'
              | inr (t, found) ↦
                  apply_tx_merkle-Kept headers p.txid p.height t p.branch p.pos freed r' seen valid
                    (resolve_tx_merkle_target_known headers freed.coins p.txid p.height t found)
                    (ground (arith, e, valid, found)) k'
            ]
      ]

  pub handle_merkle_outcome-Kept :
      (headers : HeaderView) (o : MerkleOutcome) (r r' : Reconciler D B)
      → Seen headers
      → handle_merkle_outcome w headers o r ≡ some r'
      → SoundStore w Seen r.coins
      → SoundStore w Seen r'.coins
  unfolding handle_merkle_outcome
  handle_merkle_outcome-Kept headers (proof p) r r' seen e k =
      handle_tx_merkle-Kept headers p r r' seen e k
  handle_merkle_outcome-Kept headers (failed txid h) r r' seen e k =
      let claim = claim_tx txid h in
      retry_reorged_merkle_claim-Kept w Seen headers claim
        (record r { coins = clear_merkle_in_flight r.coins claim }) r' e
        (clear_merkle_in_flight-Kept w (Sound w Seen) (Sound-Closed w Seen) r.coins k claim)
