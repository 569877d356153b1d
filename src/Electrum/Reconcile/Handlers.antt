-- ===== src/Electrum/Reconcile/Handlers.antt =====
-- The handlers of the reconciler keep the sound entries: a proof is checked before an entry is
-- verified.
use bwk.Common.{
  ℕ, Bool, true, false, some, List, [], ◌∷◌, ◌≡◌, arith, Bool-cases, Option-cases, inl, inr, subst,
  ◌||◌,
}
use bwk.Common.OrdMap.{nat_ord, key_eq}
use bwk.Common.Text.{text_ord}
use bwk.Persist.RamStore.{get}
use bwk.Electrum.Types.{ClaimAt}
use bwk.Electrum.CoinStore.{CoinStore, Wallet}
use bwk.Electrum.CoinStore.Generate.{generate}
use bwk.Electrum.CoinStore.Chain.{HeaderFacts, HeaderView, inclusion_of, block_hash_at}
use bwk.Electrum.CoinStore.Passes.{reverify_remined_entries, resolve_pending_claims}
use bwk.Electrum.CoinStore.Kept.{Kept}
use bwk.Electrum.CoinStore.Kept.Derived.{persist-Every, generate-Kept}
use bwk.Electrum.CoinStore.Kept.Operations.{
  reverify_remined_entries-Kept, resolve_pending_claims-Kept,
}
use bwk.Electrum.Reconcile.{
  Reconciler, MerkleTarget, Message, waiting_hash, replaced, resolve_tx_merkle_target,
  persist_store, save_and_send, commit_chain_update, on_chain_update, retry_reorged_merkle_claim,
  header_store_updated,
}
use bwk.Electrum.Reconcile.Sound.{Sound, Sound-Closed}

-- What the target of a proof is.
abbrev pub IsTarget : HeaderView → ℕ → ℕ → MerkleTarget → Type 0
IsTarget headers txid h t =
    (t.txid ≡ txid)
    × (t.height ≡ h)
    × ((facts : HeaderFacts) × (headers.header h ≡ some facts)
        × (facts.block_hash ≡ t.block_hash)
        × (facts.merkle_root ≡ t.expected_root))

module _ {D B : Type 0} where
  pub resolve_tx_merkle_target_known :
      (headers : HeaderView) (s : CoinStore D B) (txid h : ℕ) (t : MerkleTarget)
      → resolve_tx_merkle_target headers s txid h ≡ some t
      → IsTarget headers txid h t
  unfolding resolve_tx_merkle_target
  resolve_tx_merkle_target_known headers s txid h t e = elim (Option-cases (headers.header h)) [
    | inl missing ↦ absurd (ground (arith, e))
    | inr (facts, found) ↦
        elim (Option-cases (waiting_hash (inclusion_of (get s.tx_store txid)) h)) [
          | inl other ↦ absurd (ground (arith, e))
          | inr (hash, waits) ↦ elim (Bool-cases (key_eq hash facts.block_hash)) [
            | inr race ↦ absurd (ground (arith, e))
            | inl same ↦ (
              ground (arith, e),
              ground (arith, e),
              (facts, found, ground (arith, e), ground (arith, e)),
            )
          ]
        ]
  ]

module _ {D B : Type 0} (w : Wallet D B) (Seen : HeaderView → Type 0) where
  abbrev pub SoundStore : CoinStore D B → Type 0
  SoundStore = Kept w (Sound w Seen)

  persist_store-Kept : (s : CoinStore D B) → SoundStore s → SoundStore (persist_store w s)
  persist_store-Kept s k = record {
    entries = persist-Every w (Sound w Seen) (Sound-Closed w Seen) s.rows s.tx_store k.entries;
    carried = k.carried;
    claims = k.claims;
  }

  pub save_and_send-Kept :
      (messages : List Message) (r r' : Reconciler D B)
      → save_and_send w messages r ≡ some r'
      → SoundStore r.coins
      → SoundStore r'.coins
  unfolding save_and_send
  save_and_send-Kept messages r r' e k =
      elim (Option-cases (generate w (persist_store w r.coins))) [
        | inl panics ↦ absurd (ground (arith, e))
        | inr (s, derived) ↦
            let same : s ≡ r'.coins = ground (arith, e) in
            subst SoundStore same (
              generate-Kept w (Sound w Seen) (Sound-Closed w Seen) (persist_store w r.coins) s
                derived (persist_store-Kept r.coins k))
      ]

  pub commit_chain_update-Kept :
      (changed : Bool) (r r' : Reconciler D B)
      → commit_chain_update w changed r ≡ some r'
      → SoundStore r.coins
      → SoundStore r'.coins
  unfolding commit_chain_update
  commit_chain_update-Kept true r r' e k = save_and_send-Kept (header_store_updated ∷ []) r r' e k
  commit_chain_update-Kept false r r' e k =
      let same : r ≡ r' = ground (arith, e) in
      subst (λ (x : Reconciler D B). SoundStore x.coins) same k

  pub on_chain_update-Kept :
      (headers : HeaderView) (r r' : Reconciler D B)
      → on_chain_update w headers r ≡ some r'
      → SoundStore r.coins
      → SoundStore r'.coins
  unfolding on_chain_update
  on_chain_update-Kept headers r r' e k = elim (Bool-cases headers.is_validated) [
    | inr closed ↦ let same : r.coins ≡ r'.coins = ground (arith, e) in subst SoundStore same k
    | inl open_ ↦
        let reverified = reverify_remined_entries r.coins headers in
        let promoted = resolve_pending_claims reverified.0 headers in
        let k' =
          resolve_pending_claims-Kept w (Sound w Seen) (Sound-Closed w Seen) reverified.0
            (reverify_remined_entries-Kept w (Sound w Seen) (Sound-Closed w Seen) r.coins k headers)
            headers in
        let changed = reverified.1.changed || promoted.1.changed in
        elim (Option-cases (commit_chain_update w changed (record r { coins = promoted.0 }))) [
          | inl panics ↦ absurd (ground (arith, e))
          | inr (next, committed) ↦
              let same : next.coins ≡ r'.coins = ground (arith, e) in
              subst SoundStore same (
                commit_chain_update-Kept changed (record r { coins = promoted.0 }) next committed
                  k')
        ]
  ]

  pub retry_reorged_merkle_claim-Kept :
      (headers : HeaderView) (claim : ClaimAt) (r r' : Reconciler D B)
      → retry_reorged_merkle_claim w headers claim r ≡ some r'
      → SoundStore r.coins
      → SoundStore r'.coins
  unfolding retry_reorged_merkle_claim
  retry_reorged_merkle_claim-Kept headers claim r r' e k =
      let stored = waiting_hash (inclusion_of (get r.coins.tx_store claim.txid)) claim.height in
      elim (Bool-cases (replaced stored (block_hash_at headers claim.height))) [
        | inl reorged ↦ on_chain_update-Kept headers r r' (ground (arith, e, reorged)) k
        | inr still ↦
            let same : r.coins ≡ r'.coins = ground (arith, e, still) in subst SoundStore same k
      ]
