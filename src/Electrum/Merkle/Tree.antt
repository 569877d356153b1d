-- ===== src/Electrum/Merkle/Tree.antt =====
-- Merkle trees, and what an accepted branch says of the tree of its root.
use bwk.Common.{
  ℕ, zero, suc, Bool, true, List, [], ◌∷◌, ◌++◌, ◌==◌, ◌/◌, ◌%◌, ◌^◌, ◌<◌, ◌≡◌, ◌≢◌, ◌⊎◌, inl, inr,
  arith, length, length-append, All, if◌then◌else◌, Bool-cases, refl, ap, subst,
}
use bwk.Common.OrdMap.{key_eq}
use bwk.Common.Text.{text_ord}
use bwk.Persist.Backend.{Bytes}
use bwk.Electrum.Types.{Bitcoin}
use bwk.Electrum.Merkle.{level, fold_branch, verify_merkle_branch}

-- A full tree of the given depth, over the ids of its transactions.
pub data Tree : ℕ → Type 0 where
  leaf : Bytes → Tree 0
  node : {n : ℕ} → Tree n → Tree n → Tree (suc n)

-- The index `n` levels up.
abbrev pub halve : ℕ → ℕ → ℕ
halve zero idx = idx
halve (suc n) idx = halve n (idx / 2)

abbrev pub is_left : ℕ → ℕ → Bool
is_left n idx = halve n idx % 2 == 0

abbrev pub leaf_at : {n : ℕ} → Tree n → ℕ → Bytes
leaf_at (leaf b) idx = b
leaf_at (node {n = n} l r) idx = if is_left n idx then leaf_at l idx else leaf_at r idx

module _ (bitcoin : Bitcoin) where
  abbrev pub root : {n : ℕ} → Tree n → Bytes
  root (leaf b) = b
  root (node l r) = bitcoin.sha256d (root l ++ root r)

  -- The siblings on the way from a leaf to the root.
  abbrev pub branch_of : {n : ℕ} → Tree n → ℕ → List Bytes
  branch_of (leaf b) idx = []
  branch_of (node {n = n} l r) idx =
      if is_left n idx then branch_of l idx ++ root r ∷ [] else branch_of r idx ++ root l ∷ []

  fold_branch-append :
      (b sibling : Bytes) (branch : List Bytes) (idx : ℕ)
      → fold_branch bitcoin b (branch ++ sibling ∷ []) idx
        ≡ level bitcoin (fold_branch bitcoin b branch idx) sibling (halve (length branch) idx)
  unfolding fold_branch
  fold_branch-append b sibling [] idx = refl
  fold_branch-append b sibling (s ∷ branch) idx =
      fold_branch-append (level bitcoin b s idx) sibling branch (idx / 2)

  length-branch_of : {n : ℕ} (t : Tree n) (idx : ℕ) → length (branch_of t idx) ≡ n
  length-branch_of (leaf b) idx = refl
  length-branch_of (node {n = n} l r) idx = ground (
    arith,
    length-append (branch_of l idx) (root r ∷ []),
    length-append (branch_of r idx) (root l ∷ []),
    length-branch_of l idx,
    length-branch_of r idx,
  )

  fold_branch-branch_of :
      {n : ℕ} (t : Tree n) (idx : ℕ)
      → fold_branch bitcoin (leaf_at t idx) (branch_of t idx) idx ≡ root t
  unfolding fold_branch
  fold_branch-branch_of (leaf b) idx = refl
  fold_branch-branch_of (node {n = n} l r) idx = elim (Bool-cases (is_left n idx)) [
    | inl left ↦ ground (
      arith,
      fold_branch-append (leaf_at l idx) (root r) (branch_of l idx) idx,
      length-branch_of l idx,
      fold_branch-branch_of l idx,
    )
    | inr right ↦ ground (
      arith,
      fold_branch-append (leaf_at r idx) (root l) (branch_of r idx) idx,
      length-branch_of r idx,
      fold_branch-branch_of r idx,
    )
  ]

  -- Two different inputs with one hash.
  abbrev pub Collision : Type 0
  Collision = (x : Bytes) × (y : Bytes) × (x ≢ y) × (bitcoin.sha256d x ≡ bitcoin.sha256d y)

-- `[u8; 32]`.
abbrev pub Sized : Bytes → Type 0
Sized b = length b ≡ 32

abbrev pub AllSized : {n : ℕ} → Tree n → Type 0
AllSized (leaf b) = Sized b
AllSized (node l r) = AllSized l × AllSized r

-- The last sibling of a branch.
unsnoc :
    (n : ℕ) (branch : List Bytes)
    → length branch ≡ suc n
    → (init : List Bytes) × (s : Bytes) × (branch ≡ init ++ s ∷ []) × (length init ≡ n)
unsnoc n [] h = absurd (omega (arith, h))
unsnoc zero (b ∷ []) h = ([], b, refl, refl)
unsnoc zero (b ∷ c ∷ branch) h = absurd (omega (arith, h))
unsnoc (suc n) (b ∷ branch) h =
    let (init, s, e, l) = unsnoc n branch (omega (arith, h)) in
    (b ∷ init, s, ap (λ t. b ∷ t) e, omega (arith, l))

append_parts : (a b c d : Bytes) → length a ≡ length b → a ++ c ≡ b ++ d → (a ≡ b) × (c ≡ d)
append_parts [] [] c d l e = (refl, e)
append_parts [] (y ∷ b) c d l e = absurd (omega (arith, l))
append_parts (x ∷ a) [] c d l e = absurd (omega (arith, l))
append_parts (x ∷ a) (y ∷ b) c d l e = ground (arith, append_parts a b c d)

All-init : (init : List Bytes) (s : Bytes) → All Sized (init ++ s ∷ []) → All Sized init × Sized s
All-init [] s h = (tt, h.0)
All-init (b ∷ init) s h = ((h.0, (All-init init s h.1).0), (All-init init s h.1).1)

module _ (bitcoin : Bitcoin) (hash_sized : (x : Bytes) → Sized (bitcoin.sha256d x)) where
  root-Sized : {n : ℕ} (t : Tree n) → AllSized t → Sized (root bitcoin t)
  root-Sized (leaf b) h = h
  root-Sized (node l r) h = hash_sized (root bitcoin l ++ root bitcoin r)

  fold_branch-Sized :
      (b : Bytes) (branch : List Bytes) (idx : ℕ)
      → Sized b
      → Sized (fold_branch bitcoin b branch idx)
  unfolding fold_branch
  fold_branch-Sized b [] idx h = h
  fold_branch-Sized b (s ∷ branch) idx h =
      fold_branch-Sized (level bitcoin b s idx) branch (idx / 2)
        (hash_sized (if idx % 2 == 0 then b ++ s else s ++ b))

  -- One hash of two pairs: the pairs are the same, or they collide.
  same_pair :
      (a b c d : Bytes)
      → length a ≡ length b
      → bitcoin.sha256d (a ++ c) ≡ bitcoin.sha256d (b ++ d)
      → ((a ≡ b) × (c ≡ d)) ⊎ Collision bitcoin
  same_pair a b c d l e = elim (Bool-cases (key_eq (a ++ c) (b ++ d))) [
    | inl same ↦ inl (append_parts a b c d l (text_ord.cmp-eq (a ++ c) (b ++ d) (ground arith)))
    | inr differ ↦ inr (a ++ c, b ++ d, λ q. ground (arith, text_ord.cmp-refl (a ++ c), q), e)
  ]

  fold_branch-leaf_at :
      {n : ℕ} (t : Tree n) (b : Bytes) (branch : List Bytes) (idx : ℕ)
      → AllSized t
      → Sized b
      → All Sized branch
      → length branch ≡ n
      → fold_branch bitcoin b branch idx ≡ root bitcoin t
      → (b ≡ leaf_at t idx) ⊎ Collision bitcoin
  unfolding fold_branch
  fold_branch-leaf_at (leaf c) b [] idx ht hb hs l e = inl e
  fold_branch-leaf_at (leaf c) b (s ∷ branch) idx ht hb hs l e = absurd (omega (arith, l))
  fold_branch-leaf_at (node {n = n} left right) b branch idx ht hb hs l e =
      let (init, s, shape, li) = unsnoc n branch l in
      let sized = All-init init s (subst (All Sized) shape hs) in
      let x = fold_branch bitcoin b init idx in
      let x_sized = fold_branch-Sized b init idx hb in
      let top : level bitcoin x s (halve n idx) ≡ root bitcoin (node left right) =
        ground (arith, fold_branch-append bitcoin b s init idx, shape, li, e) in
      elim (Bool-cases (is_left n idx)) [
        | inl hit ↦
            elim (same_pair x (root bitcoin left) s (root bitcoin right)
              (ground (arith, x_sized, root-Sized left ht.0)) (ground (arith, top))) [
                | inl (p, _) ↦ elim (fold_branch-leaf_at left b init idx ht.0 hb sized.0 li p) [
                  | inl q ↦ inl (ground (arith, q))
                  | inr c ↦ inr c
                ]
                | inr c ↦ inr c
              ]
        | inr miss ↦
            elim (same_pair s (root bitcoin left) x (root bitcoin right)
              (ground (arith, sized.1, root-Sized left ht.0)) (ground (arith, top))) [
                | inl (_, p) ↦ elim (fold_branch-leaf_at right b init idx ht.1 hb sized.0 li p) [
                  | inl q ↦ inl (ground (arith, q))
                  | inr c ↦ inr c
                ]
                | inr c ↦ inr c
              ]
      ]

-- For a full tree over 32-byte ids, under a hash of 32 bytes: the branch of a
-- leaf verifies for the id there, and a branch of the tree's depth that verifies for an id at a
-- position shows that the id is the leaf there, unless two inputs with one hash are at hand.
pub verify_merkle_branch-leaf_at :
    {n : ℕ} (bitcoin : Bitcoin) (t : Tree n) (txid pos : ℕ) (branch : List Bytes)
    → ((x : Bytes) → Sized (bitcoin.sha256d x))
    → AllSized t
    → Sized (bitcoin.txid_bytes txid)
    → All Sized branch
    → length branch ≡ n
    → pos < 2 ^ n
    → (bitcoin.txid_bytes txid ≡ leaf_at t pos
        → verify_merkle_branch bitcoin txid (branch_of bitcoin t pos) pos (root bitcoin t) ≡ true)
      × (verify_merkle_branch bitcoin txid branch pos (root bitcoin t) ≡ true
          → (bitcoin.txid_bytes txid ≡ leaf_at t pos) ⊎ Collision bitcoin)
unfolding verify_merkle_branch
verify_merkle_branch-leaf_at {n = n} bitcoin t txid pos branch hash ht hb hs l below = (
  λ here. ground (
    arith,
    length-branch_of bitcoin t pos,
    fold_branch-branch_of bitcoin t pos,
    text_ord.cmp-refl (root bitcoin t),
    here,
    below,
  ),
  λ v. fold_branch-leaf_at bitcoin hash t (bitcoin.txid_bytes txid) branch pos ht hb hs l (
      text_ord.cmp-eq (fold_branch bitcoin (bitcoin.txid_bytes txid) branch pos) (root bitcoin t)
        (ground (arith, v))),
)
