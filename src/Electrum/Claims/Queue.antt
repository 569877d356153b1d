-- ===== src/Electrum/Claims/Queue.antt =====
-- Which claims the operations on the queue keep: a transaction has one pending claim at most.
use bwk.Common.{
  ℕ, Bool, true, false, Option, none, some, [], ◌∷◌, ◌==◌, ◌&&◌, ◌||◌, not, is_empty, ◌≡◌, arith,
  refl, if◌then◌else◌, Option-cases, inl, inr, Ordering, compare,
}
use bwk.Common.OrdMap.{
  nat_ord, key_eq, Sorted, Below, lookup, insert, remove, lookup-insert, lookup-remove,
}
use bwk.Common.Sets.{BTreeSet, contains, Below-lookup}
use bwk.Electrum.Types.{ClaimAt}
use bwk.Electrum.Claims.{
  PendingClaims, insert_pending_claim, retain_entry, prune_pending_claim, drop_all_pending_claims,
  remove_pending_claim,
}

abbrev in_set : ℕ → Option (BTreeSet ℕ) → Bool
in_set t none = false
in_set t (some set) = contains t set

-- Is the transaction claimed at the height?
abbrev pub claimed : PendingClaims → ℕ → ℕ → Bool
claimed p h t = in_set t (lookup h p)

pub claimed-insert :
    (p : PendingClaims) (c : ClaimAt) (h t : ℕ)
    → claimed (insert_pending_claim p c) h t
      ≡ ((key_eq h c.height && key_eq t c.txid) || claimed p h t)
unfolding insert_pending_claim lookup
claimed-insert p c h t = elim (Option-cases (lookup c.height p)) [
  | inl absent ↦
      let fresh : BTreeSet ℕ = [] in
      ground (
        arith,
        lookup-insert c.height h (insert c.txid tt fresh) p,
        lookup-insert c.txid t tt fresh,
        nat_ord.cmp-eq h c.height,
      )
  | inr (set, present) ↦ ground (
    arith,
    lookup-insert c.height h (insert c.txid tt set) p,
    lookup-insert c.txid t tt set,
    nat_ord.cmp-eq h c.height,
  )
]

retain_entry-Below :
    (a height : ℕ) (set : BTreeSet ℕ) (rest : PendingClaims)
    → compare a height ≡ Ordering.lt
    → Below a rest
    → Below a (retain_entry height set rest)
retain_entry-Below a height [] rest h b = b
retain_entry-Below a height (t ∷ set) rest h b = (h, b)

retain_entry-Sorted :
    (height : ℕ) (set : BTreeSet ℕ) (rest : PendingClaims)
    → Below height rest
    → Sorted rest
    → Sorted (retain_entry height set rest)
retain_entry-Sorted height [] rest b s = s
retain_entry-Sorted height (t ∷ set) rest b s = (b, s)

claimed-retain_entry :
    (height : ℕ) (set : BTreeSet ℕ) (rest : PendingClaims) (h t : ℕ)
    → Below height rest
    → claimed (retain_entry height set rest) h t
      ≡ (if key_eq h height then contains t set else claimed rest h t)
unfolding lookup
claimed-retain_entry height [] rest h t b =
    ground (arith, nat_ord.cmp-eq h height, Below-lookup height rest b)
claimed-retain_entry height (u ∷ set) rest h t b = ground arith

Below-prune :
    (p : PendingClaims) (c : ClaimAt) (a : ℕ) → Below a p → Below a (prune_pending_claim p c)
unfolding prune_pending_claim
Below-prune [] c a b = tt
Below-prune ((height, set) ∷ p) c a b =
    retain_entry-Below a height (if height == c.height then set else remove c.txid set)
      (prune_pending_claim p c) b.0 (Below-prune p c a b.1)

pub prune-Sorted : (p : PendingClaims) (c : ClaimAt) → Sorted p → Sorted (prune_pending_claim p c)
unfolding prune_pending_claim
prune-Sorted [] c s = tt
prune-Sorted ((height, set) ∷ p) c s =
    retain_entry-Sorted height (if height == c.height then set else remove c.txid set)
      (prune_pending_claim p c) (Below-prune p c height s.0) (prune-Sorted p c s.1)

pub claimed-prune :
    (p : PendingClaims) (c : ClaimAt) (h t : ℕ)
    → Sorted p
    → claimed (prune_pending_claim p c) h t
      ≡ (claimed p h t && (key_eq h c.height || not (key_eq t c.txid)))
unfolding prune_pending_claim lookup
claimed-prune [] c h t s = refl
claimed-prune ((height, set) ∷ p) c h t s = ground (
  arith,
  claimed-retain_entry height (if height == c.height then set else remove c.txid set)
      (prune_pending_claim p c) h t (Below-prune p c height s.0),
  claimed-prune p c h t s.1,
  lookup-remove c.txid t set,
  nat_ord.cmp-eq h height,
)

Below-drop_all :
    (p : PendingClaims) (txid a : ℕ) → Below a p → Below a (drop_all_pending_claims p txid)
unfolding drop_all_pending_claims
Below-drop_all [] txid a b = tt
Below-drop_all ((height, set) ∷ p) txid a b =
    retain_entry-Below a height (remove txid set) (drop_all_pending_claims p txid) b.0
      (Below-drop_all p txid a b.1)

pub drop_all-Sorted :
    (p : PendingClaims) (txid : ℕ) → Sorted p → Sorted (drop_all_pending_claims p txid)
unfolding drop_all_pending_claims
drop_all-Sorted [] txid s = tt
drop_all-Sorted ((height, set) ∷ p) txid s =
    retain_entry-Sorted height (remove txid set) (drop_all_pending_claims p txid)
      (Below-drop_all p txid height s.0) (drop_all-Sorted p txid s.1)

pub claimed-drop_all :
    (p : PendingClaims) (txid h t : ℕ)
    → Sorted p
    → claimed (drop_all_pending_claims p txid) h t ≡ (claimed p h t && not (key_eq t txid))
unfolding drop_all_pending_claims lookup
claimed-drop_all [] txid h t s = refl
claimed-drop_all ((height, set) ∷ p) txid h t s = ground (
  arith,
  claimed-retain_entry height (remove txid set) (drop_all_pending_claims p txid) h t
      (Below-drop_all p txid height s.0),
  claimed-drop_all p txid h t s.1,
  lookup-remove txid t set,
  nat_ord.cmp-eq h height,
)

is_empty-lookup : (set : BTreeSet ℕ) (t : ℕ) → is_empty set ≡ true → lookup t set ≡ none
unfolding lookup
is_empty-lookup [] t h = refl
is_empty-lookup (u ∷ set) t h = absurd (ground arith)

pub claimed-remove :
    (p : PendingClaims) (c : ClaimAt) (h t : ℕ)
    → claimed (remove_pending_claim p c) h t
      ≡ (claimed p h t && not (key_eq h c.height && key_eq t c.txid))
unfolding remove_pending_claim
claimed-remove p c h t = elim (Option-cases (lookup c.height p)) [
  | inl absent ↦ ground (arith, nat_ord.cmp-eq h c.height)
  | inr (set, present) ↦ ground (
    arith,
    lookup-insert c.height h (remove c.txid set) p,
    lookup-remove c.height h p,
    lookup-remove c.txid t set,
    is_empty-lookup (remove c.txid set) t,
    nat_ord.cmp-eq h c.height,
  )
]
