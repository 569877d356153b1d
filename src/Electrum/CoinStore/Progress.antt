-- ===== src/Electrum/CoinStore/Progress.antt =====
-- Every claim whose header the chain has is promoted, and its proof asked for.
use bwk.Common.{
  ℕ, true, some, List, [], ◌∷◌, ◌≡◌, ◌&&◌, arith, any, Bool-cases, Option-cases, sym, subst, inl,
  inr,
}
use bwk.Common.OrdMap.{nat_ord, key_eq, lookup}
use bwk.Common.Sets.{BTreeSet, is_some, contains}
use bwk.Persist.Backend.{Bytes}
use bwk.Persist.RamStore.{get}
use bwk.Electrum.Types.{claim_ord}
use bwk.Electrum.Updates.{Update}
use bwk.Electrum.TxStore.{TxEntry, Inclusion}
use bwk.Electrum.TxStore.Kept.{entry_at}
use bwk.Electrum.Claims.{PendingClaims}
use bwk.Electrum.CoinStore.Chain.{
  HeaderView, Pass, start, claim_tx, inclusion_of, block_hash_at, resolve_by, resolve_claim,
  resolve_txids, resolve_all, reaches,
}
use bwk.Electrum.CoinStore.{CoinStore}
use bwk.Electrum.CoinStore.Passes.{resolve_pending_claims}
use bwk.Electrum.CoinStore.Asked.{
  Asked, is_claim, promote_claim-Asked, resolve_txids_keeps_Asked, resolve_all_keeps_Asked,
}
use bwk.Electrum.CoinStore.Promoted.{
  first_ready, entry_at-resolve_claim, entry_at-resolve_txids, resolve_pending_claims-promoted,
}

-- The entry waits for its confirmation.
abbrev Waits : Pass → ℕ → Type 0
Waits p t = inclusion_of (entry_at p.tx_store t) ≡ some Inclusion.unconfirmed

resolve_claim-Asked :
    (us : List Update) (h : ℕ) (hash : Bytes) (p : Pass) (t : ℕ)
    → Waits p t
    → Asked (claim_tx t h) (resolve_claim us h (some hash) true t p)
unfolding resolve_claim get
resolve_claim-Asked us h hash p t q =
    subst (λ i. Asked (claim_tx t h) (resolve_by i us h (some hash) true t p)) (sym q)
      (promote_claim-Asked t h hash p)

resolve_txids-Asked :
    (us : List Update) (h : ℕ) (hash : Bytes) (txids : BTreeSet ℕ) (p : Pass) (t : ℕ)
    → contains t txids ≡ true
    → Waits p t
    → Asked (claim_tx t h) (resolve_txids us h (some hash) true txids p)
unfolding resolve_txids lookup
resolve_txids-Asked us h hash [] p t c q = absurd (ground (arith, c))
resolve_txids-Asked us h hash ((txid, u) ∷ txids) p t c q =
    let next = resolve_claim us h (some hash) true txid p in
    elim (Bool-cases (key_eq t txid)) [
      | inl same ↦
          let here : txid ≡ t = sym (nat_ord.cmp-eq t txid (ground (arith, same))) in
          resolve_txids_keeps_Asked (claim_tx t h) us h (some hash) true txids next (
            subst (λ x. Asked (claim_tx t h) (resolve_claim us h (some hash) true x p)) (sym here)
              (resolve_claim-Asked us h hash p t q))
      | inr other ↦
          resolve_txids-Asked us h hash txids next t (ground (arith, c, other))
            (ground (arith, entry_at-resolve_claim us h (some hash) true txid p t, q, other))
    ]

resolve_all-Asked :
    (headers : HeaderView) (us : List Update) (pending : PendingClaims) (p : Pass) (t h : ℕ)
    (hash : Bytes)
    → first_ready headers t pending ≡ some (h, hash)
    → Waits p t
    → Asked (claim_tx t h) (resolve_all headers us pending p)
unfolding resolve_all
resolve_all-Asked headers us [] p t h hash e q = absurd (ground (arith, e))
resolve_all-Asked headers us ((j, txids) ∷ pending) p t h hash e q =
    let known = block_hash_at headers j in
    let ready = reaches headers.tip j && is_some known in
    let next = resolve_txids us j known ready txids p in
    let now = entry_at-resolve_txids us j known ready txids p t in
    elim (Bool-cases (reaches headers.tip j)) [
      | inr short ↦
          resolve_all-Asked headers us pending next t h hash (ground (arith, e, short))
            (ground (arith, now, q, short))
      | inl reached ↦ elim (Option-cases (block_hash_at headers j)) [
        | inl missing ↦
            resolve_all-Asked headers us pending next t h hash (ground (arith, e, reached, missing))
              (ground (arith, now, q, reached, missing))
        | inr (b, found) ↦ elim (Bool-cases (contains t txids)) [
          | inr miss ↦
              resolve_all-Asked headers us pending next t h hash
                (ground (arith, e, reached, found, miss)) (ground (arith, now, q, miss))
          | inl hit ↦
              let at : j ≡ h = ground (arith, e, reached, found, hit) in
              let isready : ready ≡ true = ground (arith, reached, found) in
              let asked =
                subst (λ x. Asked (claim_tx t x) (resolve_txids us j (some b) true txids p)) at
                  (resolve_txids-Asked us j b txids p t hit q) in
              let asked_ready =
                subst (λ r. Asked (claim_tx t h) (resolve_txids us j (some b) r txids p))
                  (sym isready) asked in
              resolve_all_keeps_Asked (claim_tx t h) headers us pending next (
                subst (λ k. Asked (claim_tx t h) (resolve_txids us j k ready txids p)) (sym found)
                  asked_ready)
        ]
      ]
    ]

module _ {D B : Type 0} where
  promotion-Asked :
      (s : CoinStore D B) (headers : HeaderView) (t h : ℕ) (hash : Bytes) (e : TxEntry)
      → first_ready headers t s.pending_claims ≡ some (h, hash)
      → entry_at s.tx_store t ≡ some e
      → e.inclusion ≡ Inclusion.unconfirmed
      → (contains (claim_tx t h) (resolve_pending_claims s headers).0.merkle_in_flight ≡ true)
        × (any (is_claim (claim_tx t h)) (resolve_pending_claims s headers).1.to_fetch ≡ true)
  unfolding resolve_pending_claims
  promotion-Asked s headers t h hash e first there waits =
      resolve_all-Asked headers s.updates s.pending_claims (start s.tx_store s.merkle_in_flight) t h
        hash first (ground (arith, there, waits))

  -- A claim of an unconfirmed transaction at the lowest claimed height whose header the chain has: after
  -- `resolve_pending_claims` the entry is confirmed there, unverified, and the fetch of its proof is
  -- listed and in flight.
  pub resolve_pending_claims-Asked :
      (s : CoinStore D B) (headers : HeaderView) (t h : ℕ) (hash : Bytes) (e : TxEntry)
      → first_ready headers t s.pending_claims ≡ some (h, hash)
      → entry_at s.tx_store t ≡ some e
      → e.inclusion ≡ Inclusion.unconfirmed
      → (entry_at (resolve_pending_claims s headers).0.tx_store t
          ≡ some (record e { inclusion = Inclusion.confirmed_unverified h hash }))
        × (contains (claim_tx t h) (resolve_pending_claims s headers).0.merkle_in_flight ≡ true)
        × (any (is_claim (claim_tx t h)) (resolve_pending_claims s headers).1.to_fetch ≡ true)
  resolve_pending_claims-Asked s headers t h hash e first there waits = (
    ground (arith, resolve_pending_claims-promoted s headers t, first, there, waits),
    (promotion-Asked s headers t h hash e first there waits).0,
    (promotion-Asked s headers t h hash e first there waits).1,
  )
