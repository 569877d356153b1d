-- ===== src/Electrum/HeaderStore/Checked.antt =====
-- What the check of one header of a batch shows, and the window of ancestors above the stored headers.
use bwk.Common.{
  ℕ, suc, Bool, true, false, Option, none, some, List, [], ◌∷◌, ◌≡◌, ◌≢◌, ◌==◌, ◌++◌, ◌≤◌, ◌%◌,
  arith, refl, subst, if◌then◌else◌, Result, ok, err, u32_mod,
}
use bwk.Common.OrdMap.{nat_ord, lookup, lookup-insert}
use bwk.Persist.Backend.{Bytes}
use bwk.Persist.RamStore.{store_insert}
use bwk.Electrum.Headers.{Header, check_pow, validate_append, last}
use bwk.Electrum.HeaderStore.{HeaderStore, Chain, MutateError, decoded, interval_of, push_ancestor}
use bwk.Electrum.HeaderStore.Mutations.{Change, checked, check_batch, fail}
use bwk.Electrum.HeaderStore.Linked.{validate_append-linkage}
use bwk.Electrum.HeaderStore.Appended.{LinkedStore, Holds, checked-Holds}

last_append : (xs : List Header) (x : Header) → last (xs ++ x ∷ []) ≡ some x
last_append [] x = refl
last_append (y ∷ []) x = refl
last_append (y ∷ z ∷ xs) x = last_append (z ∷ xs) x

-- The newest ancestor is never dropped from a window.
last-push_ancestor :
    (max : ℕ) (ancestors : List Header) (x : Header)
    → max ≢ 0
    → last (push_ancestor max ancestors x) ≡ some x
last-push_ancestor max [] x positive = ground arith
last-push_ancestor max (y ∷ []) x positive = ground arith
last-push_ancestor max (y ∷ z ∷ ancestors) x positive =
    ground (arith, last_append (z ∷ ancestors) x)

module _ {B : Type 0} (c : Chain B) where
  -- Nothing is stored at the height or above, and the last ancestor is the header right below.
  abbrev pub Above : ℕ → List Header → HeaderStore B → Type 0
  Above h ancestors s =
      ((j : ℕ) → h ≤ j → lookup j s.store.cache ≡ none)
      × ((j : ℕ) (lower : Header)
          → h ≡ suc j
          → decoded c.deserialize (lookup j s.store.cache) ≡ some lower
          → last ancestors ≡ some lower)

  -- The first header of an empty store.
  abbrev pub Anchored : Bool → HeaderStore B → Type 0
  Anchored anchor s = anchor ≡ true → (j : ℕ) → lookup j s.store.cache ≡ none

  -- What a checked header names.
  abbrev pub Names : ℕ → Header → HeaderStore B → Type 0
  Names h header s =
      (j : ℕ) (lower : Header)
      → h ≡ suc j
      → decoded c.deserialize (lookup j s.store.cache) ≡ some lower
      → header.prev_blockhash ≡ c.consensus.block_hash lower

  map-Holds :
      {A : Type 0} (P R : A → HeaderStore B → Type 0)
      (o : Option (HeaderStore B × Result MutateError A))
      → ((a : A) (s : HeaderStore B) → P a s → R a s)
      → Holds c P o
      → Holds c R o
  map-Holds P R none k h = tt
  map-Holds P R (some (s, ok a)) k h = k a s h
  map-Holds P R (some (s, err e)) k h = h

  anchor-Holds :
      (P : Unit {0} → HeaderStore B → Type 0) (boundary : Bool) (check : Change B (Unit {0}))
      (s : HeaderStore B)
      → LinkedStore c s
      → Holds c P (check s)
      → Holds c P ((if boundary then check else fail MutateError.bad_anchor) s)
  anchor-Holds P true check s l h = h
  anchor-Holds P false check s l h = l

  pub check_batch-Holds :
      (anchor : Bool) (h : ℕ) (ancestors : List Header) (header : Header) (now_secs : ℕ)
      (s : HeaderStore B)
      → LinkedStore c s
      → Above h ancestors s
      → Anchored anchor s
      → Holds c
          (λ u s'. (s' ≡ s) × Names h header s)
          (check_batch c anchor h ancestors header now_secs s)
  check_batch-Holds true h ancestors header now_secs s l a empty =
      let check = check_pow c.consensus (c.consensus.params c.network) header in
      let P : Unit {0} → HeaderStore B → Type 0 = λ u s'. (s' ≡ s) × Names h header s in
      anchor-Holds P (h % (interval_of c % u32_mod) == 0) (checked (some check)) s l (
        map-Holds (λ u s'. (s' ≡ s) × (some check ≡ some (ok tt))) P (checked (some check) s)
          (λ u s' done. (done.0, λ j lower at below. absurd (ground (arith, empty refl j, below))))
          (checked-Holds c (some check) s l))
  check_batch-Holds false h ancestors header now_secs s l a empty =
      let check = validate_append c.consensus c.network ancestors h header now_secs in
      map-Holds (λ u s'. (s' ≡ s) × (check ≡ some (ok tt))) (λ u s'. (s' ≡ s) × Names h header s)
        (checked check s)
        (λ u s' done. (
          done.0,
          λ j lower at below.
              validate_append-linkage c ancestors j header lower now_secs
                (subst
                  (λ i.
                    validate_append c.consensus c.network ancestors i header now_secs
                    ≡ some (ok tt))
                  at done.1)
                (a.1 j lower at below),
        ))
        (checked-Holds c check s l)

  -- The window stays above the stored headers.
  pub put-Above :
      (h : ℕ) (raw : Bytes) (header : Header) (ancestors : List Header) (s : HeaderStore B)
      → interval_of c ≢ 0
      → c.deserialize raw ≡ some header
      → Above h ancestors s
      → Above
          (suc h)
          (push_ancestor (interval_of c) ancestors header)
          (record s { store = (store_insert s.store h raw).0 })
  unfolding store_insert
  put-Above h raw header ancestors s positive decodes a = (
    λ j above. ground (arith, lookup-insert h j raw s.store.cache, nat_ord.cmp-eq j h, a.0 j),
    λ j lower at below. ground (
      arith,
      lookup-insert h j raw s.store.cache,
      nat_ord.cmp-refl j,
      decodes,
      below,
      last-push_ancestor (interval_of c) ancestors header positive,
    ),
  )
