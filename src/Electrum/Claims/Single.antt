-- ===== src/Electrum/Claims/Single.antt =====
-- A transaction has one pending claim at most.
use bwk.Common.{ℕ, true, none, some, [], ◌∷◌, ◌≡◌, ◌↔◌, ◌≢◌, arith, Option-cases, inl, inr}
use bwk.Common.OrdMap.{nat_ord, Sorted, lookup, insert, remove, insert-Sorted, remove-Sorted}
use bwk.Common.Sets.{insert_under, Below-lookup}
use bwk.Electrum.Types.{ClaimAt}
use bwk.Electrum.Claims.{
  PendingClaims, insert_pending_claim, prune_pending_claim, drop_all_pending_claims,
  pending_claim_height, remove_pending_claim,
}
use bwk.Electrum.Claims.Queue.{
  claimed, claimed-insert, claimed-prune, prune-Sorted, claimed-drop_all, drop_all-Sorted,
  claimed-remove,
}

-- The heights are sorted, and no transaction is claimed at two of them.
pub record Single (p : PendingClaims) : Type 0 where
  pub sorted : Sorted p
  pub one : (h j t : ℕ) → claimed p h t ≡ true → claimed p j t ≡ true → h ≡ j

pub Single-subset :
    (p q : PendingClaims)
    → Single p
    → Sorted q
    → ((h t : ℕ) → claimed q h t ≡ true → claimed p h t ≡ true)
    → Single q
Single-subset p q s sorted sub = record {
  sorted = sorted;
  one = λ h j t a b. s.one h j t (sub h t a) (sub j t b);
}

insert_pending_claim-Sorted :
    (p : PendingClaims) (c : ClaimAt) → Sorted p → Sorted (insert_pending_claim p c)
unfolding insert_pending_claim
insert_pending_claim-Sorted p c s = elim (Option-cases (lookup c.height p)) [
  | inl absent ↦ rw (absent, insert_under) (insert-Sorted c.height (insert c.txid tt []) p s)
  | inr (set, present) ↦
      rw (present, insert_under) (insert-Sorted c.height (insert c.txid tt set) p s)
]

remove_pending_claim-Sorted :
    (p : PendingClaims) (c : ClaimAt) → Sorted p → Sorted (remove_pending_claim p c)
unfolding remove_pending_claim
remove_pending_claim-Sorted p c s = elim (Option-cases (lookup c.height p)) [
  | inl absent ↦ ground arith
  | inr (set, present) ↦
      ground (arith, remove-Sorted c.height p s, insert-Sorted c.height (remove c.txid set) p s)
]

-- A claim is queued alone.
pub requeue-Single :
    (p : PendingClaims) (c : ClaimAt)
    → Single p
    → Single (insert_pending_claim (prune_pending_claim p c) c)
requeue-Single p c s = record {
  sorted = insert_pending_claim-Sorted (prune_pending_claim p c) c (prune-Sorted p c s.sorted);
  one = λ h j t a b. ground (
    arith,
    claimed-insert (prune_pending_claim p c) c h t,
    claimed-insert (prune_pending_claim p c) c j t,
    claimed-prune p c h t s.sorted,
    claimed-prune p c j t s.sorted,
    nat_ord.cmp-eq h c.height,
    nat_ord.cmp-eq j c.height,
    nat_ord.cmp-eq t c.txid,
    s.one h j t,
  );
}

pub prune-Single : (p : PendingClaims) (c : ClaimAt) → Single p → Single (prune_pending_claim p c)
prune-Single p c s =
    Single-subset p (prune_pending_claim p c) s (prune-Sorted p c s.sorted)
      (λ h t a. ground (arith, claimed-prune p c h t s.sorted))

pub drop_all-Single :
    (p : PendingClaims) (txid : ℕ) → Single p → Single (drop_all_pending_claims p txid)
drop_all-Single p txid s =
    Single-subset p (drop_all_pending_claims p txid) s (drop_all-Sorted p txid s.sorted)
      (λ h t a. ground (arith, claimed-drop_all p txid h t s.sorted))

pub remove-Single : (p : PendingClaims) (c : ClaimAt) → Single p → Single (remove_pending_claim p c)
remove-Single p c s =
    Single-subset p (remove_pending_claim p c) s (remove_pending_claim-Sorted p c s.sorted)
      (λ h t a. ground (arith, claimed-remove p c h t))

pub empty-Single : Single []
unfolding lookup
empty-Single = record { sorted = tt; one = λ h j t a b. absurd (ground arith) }

height_claimed :
    (p : PendingClaims) (t h : ℕ)
    → Sorted p
    → pending_claim_height p t ≡ some h
    → claimed p h t ≡ true
unfolding pending_claim_height lookup
height_claimed [] t h s e = absurd (ground arith)
height_claimed ((j, set) ∷ p) t h s e =
    ground (
      arith,
      height_claimed p t h s.1,
      nat_ord.cmp-eq h j,
      nat_ord.cmp-refl j,
      Below-lookup j p s.0,
    )

claimed_height :
    (p : PendingClaims) (t h : ℕ) → claimed p h t ≡ true → pending_claim_height p t ≢ none
unfolding pending_claim_height lookup
claimed_height [] t h c = absurd (ground arith)
claimed_height ((j, set) ∷ p) t h c = ground (arith, claimed_height p t h)

-- `pending_claim_height` finds the height of the one claim.
pub pending_claim_height-claimed :
    (p : PendingClaims) (t h : ℕ)
    → Single p
    → (pending_claim_height p t ≡ some h) ↔ (claimed p h t ≡ true)
pending_claim_height-claimed p t h s = (
  height_claimed p t h s.sorted,
  λ c. elim (Option-cases (pending_claim_height p t)) [
    | inl absent ↦ absurd (claimed_height p t h c absent)
    | inr (j, e) ↦ ground (arith, height_claimed p t j s.sorted e, s.one h j t c)
  ],
)
