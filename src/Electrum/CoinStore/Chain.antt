-- ===== src/Electrum/CoinStore/Chain.antt =====
-- What `CoinStore` does against the validated chain: the claims are queued, promoted and dropped,
-- the entries of a replaced block are demoted, and the times of confirmation are stamped.
use bwk.Common.{
  ℕ, Bool, true, false, Option, none, some, List, [], ◌∷◌, ◌++◌, ◌==◌, ◌&&◌, any, leb, map,
  if◌then◌else◌,
}
use bwk.Common.OrdMap.{nat_ord, key_eq, insert}
use bwk.Common.Sets.{BTreeSet, is_some, contains}
use bwk.Common.Text.{text_ord}
use bwk.Persist.Backend.{Bytes}
use bwk.Persist.RamStore.{get}
use bwk.Electrum.Types.{ClaimAt, claim_ord}
use bwk.Electrum.Updates.{Update}
use bwk.Electrum.TxStore.{TxStore, TxEntry, Inclusion, height, update_inclusion}
use bwk.Electrum.Claims.{
  PendingClaims, insert_pending_claim, prune_pending_claim, remove_pending_claim,
}

-- What the passes read of a header.
pub record HeaderFacts : Type 0 where
  pub block_hash : Bytes
  pub merkle_root : Bytes
  pub time : ℕ

-- What the passes read of the header store.
pub record HeaderView : Type 0 where
  pub is_validated : Bool
  pub has_failed : Bool
  pub tip : Option ℕ
  pub header : ℕ → Option HeaderFacts

abbrev pub hash_of : Option HeaderFacts → Option Bytes
hash_of none = none
hash_of (some h) = some h.block_hash

abbrev pub block_hash_at : HeaderView → ℕ → Option Bytes
block_hash_at headers height = hash_of (headers.header height)

pub record ChainUpdateOutcome : Type 0 where
  pub to_fetch : List ClaimAt
  pub changed : Bool

abbrev pub inclusion_of : Option TxEntry → Option Inclusion
inclusion_of none = none
inclusion_of (some e) = some e.inclusion

-- `snapshot_inclusions`.
abbrev pub snapshot_inclusions : TxStore → List (ℕ × Inclusion)
snapshot_inclusions s = map (λ e. (e.0, e.1.inclusion)) s.cache

abbrev pub claim_tx : ℕ → ℕ → ClaimAt
claim_tx txid height = record { txid = txid; height = height }

-- What a pass carries along.
pub record Pass : Type 0 where
  pub tx_store : TxStore
  pub in_flight : BTreeSet ClaimAt
  pub to_fetch : List ClaimAt
  pub to_remove : List ClaimAt
  pub changed : Bool

abbrev pub start : TxStore → BTreeSet ClaimAt → Pass
start tx_store in_flight = record {
  tx_store = tx_store;
  in_flight = in_flight;
  to_fetch = [];
  to_remove = [];
  changed = false;
}

-- Ask for the proof of the claim.
abbrev pub fetch : ClaimAt → Pass → Pass
fetch claim p = record p {
  in_flight = insert claim tt p.in_flight;
  to_fetch = p.to_fetch ++ claim ∷ [];
}

unfoldable pub promote_claim : ℕ → ℕ → Bytes → Pass → Pass
promote_claim txid height hash p = record (fetch (claim_tx txid height) p) {
  tx_store = update_inclusion p.tx_store txid (Inclusion.confirmed_unverified height hash);
  changed = true;
}

-- An entry that waits for its proof, by the hash that the chain has at its height: asked for again, or
-- moved to the block that is there now. A fetch in flight is left alone.
abbrev pub recheck_waiting : Option Bytes → ℕ → ℕ → Bytes → Pass → Pass
recheck_waiting none txid height hash p = p
recheck_waiting (some current) txid height hash p =
    if contains (claim_tx txid height) p.in_flight
    then p
    else if key_eq current hash
    then fetch (claim_tx txid height) p
    else promote_claim txid height current p

-- An entry whose proof was decided.
abbrev pub recheck_decided : Option Bytes → ℕ → ℕ → Bytes → Pass → Pass
recheck_decided none txid height hash p = p
recheck_decided (some current) txid height hash p =
    if key_eq current hash then p else promote_claim txid height current p

-- One entry of the snapshot.
unfoldable pub reverify_entry : HeaderView → ℕ → Inclusion → Pass → Pass
unfolding promote_claim
reverify_entry headers txid Inclusion.unconfirmed p = p
reverify_entry headers txid (Inclusion.confirmed_unverified h hash) p =
    recheck_waiting (block_hash_at headers h) txid h hash p
reverify_entry headers txid (Inclusion.verified h hash) p =
    recheck_decided (block_hash_at headers h) txid h hash p
reverify_entry headers txid (Inclusion.verify_failed h hash) p =
    recheck_decided (block_hash_at headers h) txid h hash p

unfoldable pub reverify_entries : HeaderView → List (ℕ × Inclusion) → Pass → Pass
unfolding reverify_entry
reverify_entries headers [] p = p
reverify_entries headers ((txid, inclusion) ∷ entries) p =
    reverify_entries headers entries (reverify_entry headers txid inclusion p)

abbrev pub waits_for : ℕ → Update → Bool
waits_for txid u = any (λ t. t.0 == txid) u.txs

unfoldable pub update_in_flight : List Update → ℕ → Bool
update_in_flight updates txid = any (waits_for txid) updates

abbrev pub drop_claim : ClaimAt → Pass → Pass
drop_claim claim p = record p { to_remove = p.to_remove ++ claim ∷ [] }

abbrev pub promote_known : ℕ → ℕ → Option Bytes → Pass → Pass
promote_known txid height none p = p
promote_known txid height (some hash) p = promote_claim txid height hash p

-- One pending claim, by the inclusion of its transaction; `ready` where the chain has the header of
-- the height.
abbrev pub resolve_by : Option Inclusion → List Update → ℕ → Option Bytes → Bool → ℕ → Pass → Pass
resolve_by none updates height hash ready txid p =
    if update_in_flight updates txid then p else drop_claim (claim_tx txid height) p
resolve_by (some Inclusion.unconfirmed) updates height hash ready txid p =
    if ready then drop_claim (claim_tx txid height) (promote_known txid height hash p) else p
resolve_by (some _) updates height hash ready txid p = drop_claim (claim_tx txid height) p

unfoldable pub resolve_claim : List Update → ℕ → Option Bytes → Bool → ℕ → Pass → Pass
unfolding promote_claim update_in_flight
resolve_claim updates height hash ready txid p =
    resolve_by (inclusion_of (get p.tx_store txid)) updates height hash ready txid p

abbrev pub reaches : Option ℕ → ℕ → Bool
reaches none height = false
reaches (some tip) height = leb height tip

-- The loop over the claims of a height.
unfoldable pub resolve_txids : List Update → ℕ → Option Bytes → Bool → BTreeSet ℕ → Pass → Pass
unfolding resolve_claim
resolve_txids updates height hash ready [] p = p
resolve_txids updates height hash ready ((txid, u) ∷ txids) p =
    resolve_txids updates height hash ready txids (resolve_claim updates height hash ready txid p)

unfoldable pub resolve_all : HeaderView → List Update → PendingClaims → Pass → Pass
unfolding resolve_txids
resolve_all headers updates [] p = p
resolve_all headers updates ((height, txids) ∷ pending) p =
    let hash = block_hash_at headers height in
    let ready = reaches headers.tip height && is_some hash in
    resolve_all headers updates pending (resolve_txids updates height hash ready txids p)

abbrev pub remove_claims : List ClaimAt → PendingClaims → PendingClaims
remove_claims [] pending = pending
remove_claims (claim ∷ claims) pending = remove_claims claims (remove_pending_claim pending claim)

-- The claim is queued where the entry has not moved on.
abbrev pub queue_by : Option Inclusion → PendingClaims → ClaimAt → PendingClaims
queue_by none pruned claim = insert_pending_claim pruned claim
queue_by (some Inclusion.unconfirmed) pruned claim = insert_pending_claim pruned claim
queue_by (some _) pruned claim = pruned

unfoldable pub queue_claim : TxStore → PendingClaims → ClaimAt → PendingClaims
queue_claim s pending claim =
    queue_by (inclusion_of (get s claim.txid)) (prune_pending_claim pending claim) claim

unfoldable pub queue_claims : TxStore → PendingClaims → List ClaimAt → PendingClaims
unfolding queue_claim
queue_claims s pending [] = pending
queue_claims s pending (claim ∷ claims) = queue_claims s (queue_claim s pending claim) claims

abbrev pub same_set : BTreeSet ℕ → BTreeSet ℕ → Bool
same_set [] [] = true
same_set ((a, _) ∷ s) ((b, _) ∷ t) = (a == b) && same_set s t
same_set _ _ = false

abbrev pub same_claims : PendingClaims → PendingClaims → Bool
same_claims [] [] = true
same_claims ((a, s) ∷ p) ((b, t) ∷ q) = (a == b) && same_set s t && same_claims p q
same_claims _ _ = false
