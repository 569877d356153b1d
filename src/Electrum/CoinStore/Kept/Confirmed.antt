-- ===== src/Electrum/CoinStore/Kept/Confirmed.antt =====
-- The passes over the claims and the entries keep the predicate of the transactions and the one
-- claim of each.
use bwk.Common.{ℕ, Bool, true, false, Option, none, some, List, [], ◌∷◌, ◌&&◌, Bool-cases, inl, inr}
use bwk.Common.OrdMap.{nat_ord, key_eq}
use bwk.Common.Sets.{BTreeSet, is_some, contains}
use bwk.Common.Text.{text_ord}
use bwk.Persist.Backend.{Bytes}
use bwk.Persist.RamStore.{get}
use bwk.Electrum.Types.{Bitcoin, ClaimAt, claim_ord}
use bwk.Electrum.Updates.{Update}
use bwk.Electrum.TxStore.{TxStore, TxEntry, Inclusion}
use bwk.Electrum.TxStore.Entries.{Every, update_inclusion-Every}
use bwk.Electrum.Claims.{PendingClaims, prune_pending_claim, remove_pending_claim}
use bwk.Electrum.Claims.Single.{Single, requeue-Single, prune-Single, remove-Single}
use bwk.Electrum.CoinStore.Chain.{
  HeaderView, Pass, claim_tx, inclusion_of, block_hash_at, promote_claim, promote_known,
  reverify_entry, reverify_entries, resolve_claim, resolve_txids, resolve_all, remove_claims,
  update_in_flight, queue_by, queue_claim, queue_claims, recheck_waiting, recheck_decided,
  resolve_by, reaches,
}
use bwk.Electrum.CoinStore.Kept.{Closed}

queue_by-Single :
    (i : Option Inclusion) (p : PendingClaims) (claim : ClaimAt)
    → Single p
    → Single (queue_by i (prune_pending_claim p claim) claim)
queue_by-Single none p claim h = requeue-Single p claim h
queue_by-Single (some Inclusion.unconfirmed) p claim h = requeue-Single p claim h
queue_by-Single (some (Inclusion.confirmed_unverified _ _)) p claim h = prune-Single p claim h
queue_by-Single (some (Inclusion.verified _ _)) p claim h = prune-Single p claim h
queue_by-Single (some (Inclusion.verify_failed _ _)) p claim h = prune-Single p claim h

queue_claim-Single :
    (s : TxStore) (p : PendingClaims) (claim : ClaimAt) → Single p → Single (queue_claim s p claim)
unfolding queue_claim
queue_claim-Single s p claim h = queue_by-Single (inclusion_of (get s claim.txid)) p claim h

pub queue_claims-Single :
    (s : TxStore) (claims : List ClaimAt) (p : PendingClaims)
    → Single p
    → Single (queue_claims s p claims)
unfolding queue_claims
queue_claims-Single s [] p h = h
queue_claims-Single s (claim ∷ claims) p h =
    queue_claims-Single s claims (queue_claim s p claim) (queue_claim-Single s p claim h)

pub remove_claims-Single :
    (claims : List ClaimAt) (p : PendingClaims) → Single p → Single (remove_claims claims p)
remove_claims-Single [] p h = h
remove_claims-Single (claim ∷ claims) p h =
    remove_claims-Single claims (remove_pending_claim p claim) (remove-Single p claim h)

module _ {bitcoin : Bitcoin} (Q : ℕ → TxEntry → Type 0) (c : Closed bitcoin Q) where
  promote_claim-Every :
      (txid h : ℕ) (hash : Bytes) (p : Pass)
      → Every Q p.tx_store
      → Every Q (promote_claim txid h hash p).tx_store
  unfolding promote_claim
  promote_claim-Every txid h hash p q =
      update_inclusion-Every Q p.tx_store txid (Inclusion.confirmed_unverified h hash)
        (λ e k. c.confirmed txid e h hash k) q

  recheck_waiting-Every :
      (current : Option Bytes) (txid h : ℕ) (hash : Bytes) (p : Pass)
      → Every Q p.tx_store
      → Every Q (recheck_waiting current txid h hash p).tx_store
  recheck_waiting-Every none txid h hash p q = q
  recheck_waiting-Every (some current) txid h hash p q =
      elim (Bool-cases (contains (claim_tx txid h) p.in_flight)) [
        | inl asked ↦ rw (asked) q
        | inr fresh ↦ elim (Bool-cases (key_eq current hash)) [
          | inl same ↦ rw (fresh, same) q
          | inr other ↦ rw (fresh, other) (promote_claim-Every txid h current p q)
        ]
      ]

  recheck_decided-Every :
      (current : Option Bytes) (txid h : ℕ) (hash : Bytes) (p : Pass)
      → Every Q p.tx_store
      → Every Q (recheck_decided current txid h hash p).tx_store
  recheck_decided-Every none txid h hash p q = q
  recheck_decided-Every (some current) txid h hash p q = elim (Bool-cases (key_eq current hash)) [
    | inl same ↦ rw (same) q
    | inr other ↦ rw (other) (promote_claim-Every txid h current p q)
  ]

  reverify_entry-Every :
      (headers : HeaderView) (txid : ℕ) (i : Inclusion) (p : Pass)
      → Every Q p.tx_store
      → Every Q (reverify_entry headers txid i p).tx_store
  unfolding reverify_entry
  reverify_entry-Every headers txid Inclusion.unconfirmed p q = q
  reverify_entry-Every headers txid (Inclusion.confirmed_unverified h hash) p q =
      recheck_waiting-Every (block_hash_at headers h) txid h hash p q
  reverify_entry-Every headers txid (Inclusion.verified h hash) p q =
      recheck_decided-Every (block_hash_at headers h) txid h hash p q
  reverify_entry-Every headers txid (Inclusion.verify_failed h hash) p q =
      recheck_decided-Every (block_hash_at headers h) txid h hash p q

  pub reverify_entries-Every :
      (headers : HeaderView) (entries : List (ℕ × Inclusion)) (p : Pass)
      → Every Q p.tx_store
      → Every Q (reverify_entries headers entries p).tx_store
  unfolding reverify_entries
  reverify_entries-Every headers [] p q = q
  reverify_entries-Every headers ((txid, i) ∷ entries) p q =
      reverify_entries-Every headers entries (reverify_entry headers txid i p)
        (reverify_entry-Every headers txid i p q)

  promote_known-Every :
      (txid h : ℕ) (hash : Option Bytes) (p : Pass)
      → Every Q p.tx_store
      → Every Q (promote_known txid h hash p).tx_store
  promote_known-Every txid h none p q = q
  promote_known-Every txid h (some hash) p q = promote_claim-Every txid h hash p q

  resolve_by-Every :
      (i : Option Inclusion) (us : List Update) (h : ℕ) (hash : Option Bytes) (ready : Bool)
      (txid : ℕ) (p : Pass)
      → Every Q p.tx_store
      → Every Q (resolve_by i us h hash ready txid p).tx_store
  resolve_by-Every none us h hash ready txid p q = elim (Bool-cases (update_in_flight us txid)) [
    | inl waits ↦ rw (waits) q
    | inr gone ↦ rw (gone) q
  ]
  resolve_by-Every (some Inclusion.unconfirmed) us h hash true txid p q =
      promote_known-Every txid h hash p q
  resolve_by-Every (some Inclusion.unconfirmed) us h hash false txid p q = q
  resolve_by-Every (some (Inclusion.confirmed_unverified _ _)) us h hash ready txid p q = q
  resolve_by-Every (some (Inclusion.verified _ _)) us h hash ready txid p q = q
  resolve_by-Every (some (Inclusion.verify_failed _ _)) us h hash ready txid p q = q

  resolve_txids-Every :
      (us : List Update) (h : ℕ) (hash : Option Bytes) (ready : Bool) (txids : BTreeSet ℕ)
      (p : Pass)
      → Every Q p.tx_store
      → Every Q (resolve_txids us h hash ready txids p).tx_store
  unfolding resolve_txids resolve_claim
  resolve_txids-Every us h hash ready [] p q = q
  resolve_txids-Every us h hash ready ((txid, u) ∷ txids) p q =
      resolve_txids-Every us h hash ready txids (resolve_claim us h hash ready txid p)
        (resolve_by-Every (inclusion_of (get p.tx_store txid)) us h hash ready txid p q)

  pub resolve_all-Every :
      (headers : HeaderView) (us : List Update) (pending : PendingClaims) (p : Pass)
      → Every Q p.tx_store
      → Every Q (resolve_all headers us pending p).tx_store
  unfolding resolve_all
  resolve_all-Every headers us [] p q = q
  resolve_all-Every headers us ((h, txids) ∷ pending) p q =
      let hash = block_hash_at headers h in
      let ready = reaches headers.tip h && is_some hash in
      resolve_all-Every headers us pending (resolve_txids us h hash ready txids p)
        (resolve_txids-Every us h hash ready txids p q)
