-- ===== src/Electrum/Claims.antt =====
-- The pending claims of `CoinStore` in electrum/src/coin_store.rs: the transactions that the server
-- reports at a height whose header is not known yet, by height.
pub mod Queue
pub mod Single
use bwk.Common.{
  ℕ, Bool, true, false, Option, none, some, List, [], ◌∷◌, ◌==◌, is_empty, map, if◌then◌else◌,
}
use bwk.Common.OrdMap.{nat_ord, lookup, insert, remove}
use bwk.Common.Sets.{BTreeSet, contains, insert_under, keys_of}
use bwk.Electrum.Types.{ClaimAt}

abbrev pub PendingClaims : Type 0
PendingClaims = List (ℕ × BTreeSet ℕ)

unfoldable pub insert_pending_claim : PendingClaims → ClaimAt → PendingClaims
insert_pending_claim p claim = insert_under claim.height claim.txid p

-- A height without claims is dropped.
abbrev pub retain_entry : ℕ → BTreeSet ℕ → PendingClaims → PendingClaims
retain_entry height [] rest = rest
retain_entry height (t ∷ set) rest = (height, t ∷ set) ∷ rest

-- The transaction keeps its claim at the given height only.
unfoldable pub prune_pending_claim : PendingClaims → ClaimAt → PendingClaims
prune_pending_claim [] keep = []
prune_pending_claim ((height, set) ∷ p) keep =
    let rest = prune_pending_claim p keep in
    let set' = if height == keep.height then set else remove keep.txid set in
    retain_entry height set' rest

unfoldable pub drop_all_pending_claims : PendingClaims → ℕ → PendingClaims
drop_all_pending_claims [] txid = []
drop_all_pending_claims ((height, set) ∷ p) txid =
    let rest = drop_all_pending_claims p txid in retain_entry height (remove txid set) rest

unfoldable pub pending_claim_height : PendingClaims → ℕ → Option ℕ
pending_claim_height [] txid = none
pending_claim_height ((height, set) ∷ p) txid =
    let rest = pending_claim_height p txid in if contains txid set then some height else rest

unfoldable pub remove_pending_claim : PendingClaims → ClaimAt → PendingClaims
remove_pending_claim p claim = elim (lookup claim.height p) [
  | none ↦ p
  | some set ↦
      let set' = remove claim.txid set in
      if is_empty set' then remove claim.height p else insert claim.height set' p
]

unfoldable pub pending_claim_heights : PendingClaims → List ℕ
pending_claim_heights p = keys_of p
