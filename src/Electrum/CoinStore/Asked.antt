-- ===== src/Electrum/CoinStore/Asked.antt =====
-- The proof of every promoted claim is asked for, and stays in flight.
use bwk.Common.{
  ℕ, Bool, true, false, Option, none, some, List, [], ◌∷◌, ◌++◌, ◌≡◌, ◌&&◌, ◌||◌, arith, any,
  Bool-cases, inl, inr,
}
use bwk.Common.OrdMap.{nat_ord, key_eq, lookup-insert}
use bwk.Common.Sets.{BTreeSet, is_some, contains}
use bwk.Persist.Backend.{Bytes}
use bwk.Persist.RamStore.{get}
use bwk.Electrum.Types.{ClaimAt, claim_ord}
use bwk.Electrum.Updates.{Update}
use bwk.Electrum.TxStore.{Inclusion}
use bwk.Electrum.Claims.{PendingClaims}
use bwk.Electrum.CoinStore.Chain.{
  HeaderView, Pass, claim_tx, inclusion_of, block_hash_at, promote_claim, resolve_by, resolve_claim,
  resolve_txids, resolve_all, update_in_flight, reaches,
}

any_last :
    (test : ClaimAt → Bool) (claims : List ClaimAt) (c : ClaimAt)
    → any test (claims ++ c ∷ []) ≡ (any test claims || test c)
any_last test [] c = ground arith
any_last test (d ∷ claims) c = ground (arith, any_last test claims c)

abbrev pub is_claim : ClaimAt → ClaimAt → Bool
is_claim a b = key_eq a b

-- The fetch is listed, and in flight.
abbrev pub Asked : ClaimAt → Pass → Type 0
Asked claim p = (contains claim p.in_flight ≡ true) × (any (is_claim claim) p.to_fetch ≡ true)

pub promote_claim-Asked :
    (txid h : ℕ) (hash : Bytes) (p : Pass) → Asked (claim_tx txid h) (promote_claim txid h hash p)
unfolding promote_claim
promote_claim-Asked txid h hash p =
    let claim = claim_tx txid h in
    (
      ground (arith, lookup-insert claim claim tt p.in_flight, claim_ord.cmp-refl claim),
      ground (arith, any_last (is_claim claim) p.to_fetch claim, claim_ord.cmp-refl claim),
    )

promote_claim_keeps_Asked :
    (claim : ClaimAt) (txid h : ℕ) (hash : Bytes) (p : Pass)
    → Asked claim p
    → Asked claim (promote_claim txid h hash p)
unfolding promote_claim
promote_claim_keeps_Asked claim txid h hash p a = (
  ground (arith, lookup-insert (claim_tx txid h) claim tt p.in_flight, a.0),
  ground (arith, any_last (is_claim claim) p.to_fetch (claim_tx txid h), a.1),
)

resolve_by_keeps_Asked :
    (claim : ClaimAt) (i : Option Inclusion) (us : List Update) (h : ℕ) (hash : Option Bytes)
    (ready : Bool) (txid : ℕ) (p : Pass)
    → Asked claim p
    → Asked claim (resolve_by i us h hash ready txid p)
resolve_by_keeps_Asked claim none us h hash ready txid p a =
    elim (Bool-cases (update_in_flight us txid)) [
      | inl waits ↦ rw (waits) a
      | inr gone ↦ rw (gone) a
    ]
resolve_by_keeps_Asked claim (some Inclusion.unconfirmed) us h none true txid p a = a
resolve_by_keeps_Asked claim (some Inclusion.unconfirmed) us h (some hash) true txid p a =
    promote_claim_keeps_Asked claim txid h hash p a
resolve_by_keeps_Asked claim (some Inclusion.unconfirmed) us h hash false txid p a = a
resolve_by_keeps_Asked claim (some (Inclusion.confirmed_unverified _ _)) us h hash r txid p a = a
resolve_by_keeps_Asked claim (some (Inclusion.verified _ _)) us h hash r txid p a = a
resolve_by_keeps_Asked claim (some (Inclusion.verify_failed _ _)) us h hash r txid p a = a

pub resolve_txids_keeps_Asked :
    (claim : ClaimAt) (us : List Update) (h : ℕ) (hash : Option Bytes) (ready : Bool)
    (txids : BTreeSet ℕ) (p : Pass)
    → Asked claim p
    → Asked claim (resolve_txids us h hash ready txids p)
unfolding resolve_txids resolve_claim
resolve_txids_keeps_Asked claim us h hash ready [] p a = a
resolve_txids_keeps_Asked claim us h hash ready ((txid, u) ∷ txids) p a =
    resolve_txids_keeps_Asked claim us h hash ready txids (resolve_claim us h hash ready txid p)
      (resolve_by_keeps_Asked claim (inclusion_of (get p.tx_store txid)) us h hash ready txid p a)

pub resolve_all_keeps_Asked :
    (claim : ClaimAt) (headers : HeaderView) (us : List Update) (pending : PendingClaims) (p : Pass)
    → Asked claim p
    → Asked claim (resolve_all headers us pending p)
unfolding resolve_all
resolve_all_keeps_Asked claim headers us [] p a = a
resolve_all_keeps_Asked claim headers us ((h, txids) ∷ pending) p a =
    let hash = block_hash_at headers h in
    let ready = reaches headers.tip h && is_some hash in
    resolve_all_keeps_Asked claim headers us pending (resolve_txids us h hash ready txids p)
      (resolve_txids_keeps_Asked claim us h hash ready txids p a)
