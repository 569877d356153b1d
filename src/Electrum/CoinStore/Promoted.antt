-- ===== src/Electrum/CoinStore/Promoted.antt =====
-- What `resolve_pending_claims` does to each entry: a claim whose header the chain has is promoted,
-- and its proof is asked for.
use bwk.Common.{
  ℕ, Bool, true, false, Option, none, some, List, [], ◌∷◌, ◌≡◌, ◌&&◌, arith, refl, Bool-cases,
  Option-cases, inl, inr, if◌then◌else◌,
}
use bwk.Common.OrdMap.{nat_ord, key_eq, lookup}
use bwk.Common.Sets.{BTreeSet, is_some, contains}
use bwk.Persist.Backend.{Bytes}
use bwk.Persist.RamStore.{get}
use bwk.Electrum.Types.{claim_ord}
use bwk.Electrum.Updates.{Update}
use bwk.Electrum.TxStore.{TxEntry, Inclusion, set_inclusion}
use bwk.Electrum.TxStore.Kept.{entry_at, map_entry, entry_at-update_inclusion}
use bwk.Electrum.Claims.{PendingClaims}
use bwk.Electrum.CoinStore.{CoinStore}
use bwk.Electrum.CoinStore.Chain.{
  HeaderView, Pass, start, inclusion_of, block_hash_at, promote_claim, resolve_by, resolve_claim,
  resolve_txids, resolve_all, reaches,
}
use bwk.Electrum.CoinStore.Passes.{resolve_pending_claims}

-- The block that the chain has for a claim at the height, if it reaches there.
abbrev pub ready_block : HeaderView → ℕ → Option Bytes
ready_block headers h =
    if reaches headers.tip h && is_some (block_hash_at headers h)
    then block_hash_at headers h
    else none

-- The lowest height that the transaction is claimed at and whose header the chain has.
abbrev pub first_ready : HeaderView → ℕ → PendingClaims → Option (ℕ × Bytes)
first_ready headers t [] = none
first_ready headers t ((h, txids) ∷ pending) = elim (ready_block headers h) [
  | none ↦ first_ready headers t pending
  | some hash ↦ if contains t txids then some (h, hash) else first_ready headers t pending
]

abbrev pub promote_by : Inclusion → ℕ → Bytes → TxEntry → TxEntry
promote_by Inclusion.unconfirmed h hash e = record e {
  inclusion = Inclusion.confirmed_unverified h hash;
}
promote_by _ h hash e = e

-- An unconfirmed entry moves to the block.
abbrev pub promoted : Option (ℕ × Bytes) → Option TxEntry → Option TxEntry
promoted none entry = entry
promoted (some (h, hash)) none = none
promoted (some (h, hash)) (some e) = some (promote_by e.inclusion h hash e)

abbrev pub block_of : ℕ → Bool → Option Bytes → Option (ℕ × Bytes)
block_of h true (some hash) = some (h, hash)
block_of h _ _ = none

entry_at-promote_claim :
    (txid h : ℕ) (hash : Bytes) (p : Pass) (t : ℕ)
    → entry_at (promote_claim txid h hash p).tx_store t ≡ (
        if key_eq t txid
        then map_entry
            (set_inclusion (Inclusion.confirmed_unverified h hash))
            (entry_at p.tx_store t)
        else entry_at p.tx_store t)
unfolding promote_claim
entry_at-promote_claim txid h hash p t =
    entry_at-update_inclusion p.tx_store txid t (Inclusion.confirmed_unverified h hash)

-- What one claim does to the entries of other transactions, and to its own.
entry_at-resolve_other :
    (us : List Update) (h : ℕ) (hash : Option Bytes) (ready : Bool) (txid : ℕ) (p : Pass) (t : ℕ)
    (i : Option Inclusion)
    → key_eq t txid ≡ false
    → entry_at (resolve_by i us h hash ready txid p).tx_store t ≡ entry_at p.tx_store t
entry_at-resolve_other us h hash ready txid p t none e = ground arith
entry_at-resolve_other us h none true txid p t (some Inclusion.unconfirmed) e = refl
entry_at-resolve_other us h (some hash) true txid p t (some Inclusion.unconfirmed) e =
    ground (arith, entry_at-promote_claim txid h hash p t, e)
entry_at-resolve_other us h hash false txid p t (some Inclusion.unconfirmed) e = refl
entry_at-resolve_other us h hash ready txid p t (some (Inclusion.confirmed_unverified _ _)) e = refl
entry_at-resolve_other us h hash ready txid p t (some (Inclusion.verified _ _)) e = refl
entry_at-resolve_other us h hash ready txid p t (some (Inclusion.verify_failed _ _)) e = refl

entry_at-resolve_found :
    (us : List Update) (h : ℕ) (hash : Option Bytes) (ready : Bool) (txid : ℕ) (p : Pass)
    (entry : TxEntry) (i : Inclusion)
    → entry_at p.tx_store txid ≡ some entry
    → entry.inclusion ≡ i
    → entry_at (resolve_by (some i) us h hash ready txid p).tx_store txid
      ≡ promoted (block_of h ready hash) (some entry)
entry_at-resolve_found us h none true txid p entry Inclusion.unconfirmed e q = e
entry_at-resolve_found us h (some hash) true txid p entry Inclusion.unconfirmed e q =
    ground (arith, entry_at-promote_claim txid h hash p txid, nat_ord.cmp-refl txid, e, q)
entry_at-resolve_found us h hash false txid p entry Inclusion.unconfirmed e q = e
entry_at-resolve_found us h hash ready txid p entry (Inclusion.confirmed_unverified a b) e q =
    ground (arith, e, q)
entry_at-resolve_found us h hash ready txid p entry (Inclusion.verified a b) e q =
    ground (arith, e, q)
entry_at-resolve_found us h hash ready txid p entry (Inclusion.verify_failed a b) e q =
    ground (arith, e, q)

entry_at-resolve_own :
    (us : List Update) (h : ℕ) (hash : Option Bytes) (ready : Bool) (txid : ℕ) (p : Pass)
    (entry : Option TxEntry)
    → entry_at p.tx_store txid ≡ entry
    → entry_at (resolve_by (inclusion_of entry) us h hash ready txid p).tx_store txid
      ≡ promoted (block_of h ready hash) entry
entry_at-resolve_own us h hash ready txid p none e = ground (arith, e)
entry_at-resolve_own us h hash ready txid p (some entry) e =
    entry_at-resolve_found us h hash ready txid p entry entry.inclusion e refl

pub entry_at-resolve_claim :
    (us : List Update) (h : ℕ) (hash : Option Bytes) (ready : Bool) (txid : ℕ) (p : Pass) (t : ℕ)
    → entry_at (resolve_claim us h hash ready txid p).tx_store t ≡ (
        if key_eq t txid
        then promoted (block_of h ready hash) (entry_at p.tx_store t)
        else entry_at p.tx_store t)
unfolding resolve_claim get
entry_at-resolve_claim us h hash ready txid p t = elim (Bool-cases (key_eq t txid)) [
  | inl same ↦
      let here : t ≡ txid = nat_ord.cmp-eq t txid (ground arith) in
      let own = entry_at-resolve_own us h hash ready txid p (entry_at p.tx_store txid) refl in
      ground (arith, own, here, same)
  | inr other ↦ ground (
    arith,
    entry_at-resolve_other us h hash ready txid p t (inclusion_of (entry_at p.tx_store txid)) other,
    other,
  )
]

-- An entry that was moved is not moved again.
promoted_once :
    (b : ℕ × Bytes) (b' : Option (ℕ × Bytes)) (entry : Option TxEntry)
    → promoted b' (promoted (some b) entry) ≡ promoted (some b) entry
promoted_once (h, hash) none entry = refl
promoted_once (h, hash) (some (h', hash')) none = refl
promoted_once (h, hash) (some (h', hash')) (some e) = ground arith

promoted_again :
    (b : Option (ℕ × Bytes)) (entry : Option TxEntry)
    → promoted b (promoted b entry) ≡ promoted b entry
promoted_again none entry = refl
promoted_again (some b) entry = promoted_once b (some b) entry

pub entry_at-resolve_txids :
    (us : List Update) (h : ℕ) (hash : Option Bytes) (ready : Bool) (txids : BTreeSet ℕ) (p : Pass)
    (t : ℕ)
    → entry_at (resolve_txids us h hash ready txids p).tx_store t ≡ (
        if contains t txids
        then promoted (block_of h ready hash) (entry_at p.tx_store t)
        else entry_at p.tx_store t)
unfolding resolve_txids lookup
entry_at-resolve_txids us h hash ready [] p t = refl
entry_at-resolve_txids us h hash ready ((txid, u) ∷ txids) p t = ground (
  arith,
  entry_at-resolve_txids us h hash ready txids (resolve_claim us h hash ready txid p) t,
  entry_at-resolve_claim us h hash ready txid p t,
  promoted_again (block_of h ready hash) (entry_at p.tx_store t),
)

entry_at-resolve_all :
    (headers : HeaderView) (us : List Update) (pending : PendingClaims) (p : Pass) (t : ℕ)
    → entry_at (resolve_all headers us pending p).tx_store t
      ≡ promoted (first_ready headers t pending) (entry_at p.tx_store t)
unfolding resolve_all
entry_at-resolve_all headers us [] p t = refl
entry_at-resolve_all headers us ((h, txids) ∷ pending) p t =
    let hash = block_hash_at headers h in
    let ready = reaches headers.tip h && is_some hash in
    let later = entry_at-resolve_all headers us pending (resolve_txids us h hash ready txids p) t in
    let now = entry_at-resolve_txids us h hash ready txids p t in
    elim (Bool-cases (reaches headers.tip h)) [
      | inr short ↦ ground (arith, later, now, short)
      | inl reached ↦ elim (Option-cases (block_hash_at headers h)) [
        | inl missing ↦ ground (arith, later, now, missing, reached)
        | inr (b, known) ↦ elim (Bool-cases (contains t txids)) [
          | inl hit ↦ ground (
            arith,
            later,
            now,
            promoted_once (h, b) (first_ready headers t pending) (entry_at p.tx_store t),
            reached,
            known,
            hit,
          )
          | inr miss ↦ ground (arith, later, now, reached, known, miss)
        ]
      ]
    ]

module _ {D B : Type 0} where
  -- After `resolve_pending_claims` an unconfirmed entry with a claim whose header the chain has is
  -- confirmed in the block of the lowest such height, and every other entry is as it was.
  pub resolve_pending_claims-promoted :
      (s : CoinStore D B) (headers : HeaderView) (t : ℕ)
      → entry_at (resolve_pending_claims s headers).0.tx_store t
        ≡ promoted (first_ready headers t s.pending_claims) (entry_at s.tx_store t)
  unfolding resolve_pending_claims
  resolve_pending_claims-promoted s headers t =
      entry_at-resolve_all headers s.updates s.pending_claims (start s.tx_store s.merkle_in_flight)
        t
