-- ===== src/Electrum/HeaderStore/Appended.antt =====
-- What the changes of the header store keep of its cache.
use bwk.Common.{
  ℕ, suc, Option, none, some, List, [], ◌∷◌, ◌≡◌, ◌==◌, arith, refl, sym, subst, ◌∙◌, Bool-cases,
  Option-cases, inl, inr, Result, ok, err, is_empty,
}
use bwk.Common.OrdMap.{nat_ord, lookup, insert, lookup-remove}
use bwk.Persist.Types.{PersistError}
use bwk.Persist.Backend.{Bytes}
use bwk.Persist.RamStore.{RamStore, store_insert, store_remove, flush, keys}
use bwk.Persist.RamStore.Cached.{cache-flush}
use bwk.Electrum.Headers.{Header, Check, validate_append}
use bwk.Electrum.HeaderStore.{HeaderStore, Chain, MutateError, collect_ancestors, interval_of}
use bwk.Electrum.HeaderStore.Mutations.{
  Change, after_change, ◌>>=◌, checked, flushed, finish, with_writer, remove_each, flush_store,
  clear_inner, holds_checkpoint, hold_checkpoint, state_after, refuse, store_header, append_inner,
  append,
}
use bwk.Electrum.HeaderStore.Linked.{Linked, Linked-part, insert-Linked}

module _ {B : Type 0} (c : Chain B) where
  abbrev pub LinkedStore : HeaderStore B → Type 0
  LinkedStore s = Linked c s.store.cache

  -- A result keeps the chain linked, and a success has the property.
  abbrev pub Yields :
      {A : Type 0} → (A → HeaderStore B → Type 0) → HeaderStore B × Result MutateError A → Type 0
  Yields P (s, ok a) = P a s
  Yields P (s, err e) = LinkedStore s

  abbrev pub Holds :
      {A : Type 0}
      → (A → HeaderStore B → Type 0)
      → Option (HeaderStore B × Result MutateError A)
      → Type 0
  Holds P none = Unit
  Holds P (some r) = Yields P r

  bind-Yields :
      {A C : Type 0} (P : A → HeaderStore B → Type 0) (R : C → HeaderStore B → Type 0)
      (next : A → Change B C) (r : HeaderStore B × Result MutateError A)
      → Yields P r
      → ((a : A) (s : HeaderStore B) → P a s → Holds R (next a s))
      → Holds R (after_change next r)
  bind-Yields P R next (s, ok a) h k = k a s h
  bind-Yields P R next (s, err e) h k = h

  pub bind-Holds :
      {A C : Type 0} (P : A → HeaderStore B → Type 0) (R : C → HeaderStore B → Type 0)
      (m : Change B A) (next : A → Change B C) (s : HeaderStore B)
      → Holds P (m s)
      → ((a : A) (s' : HeaderStore B) → P a s' → Holds R (next a s'))
      → Holds R ((m >>= next) s)
  bind-Holds P R m next s h k = elim (Option-cases (m s)) [
    | inl panics ↦ rw (panics, ◌>>=◌) tt
    | inr (r, runs) ↦ rw (runs, ◌>>=◌) (bind-Yields P R next r (rw (runs) at h) k)
  ]

  pub checked-Holds :
      (check : Check) (s : HeaderStore B)
      → LinkedStore s
      → Holds (λ u s'. (s' ≡ s) × (check ≡ some (ok tt))) (checked check s)
  checked-Holds none s l = tt
  checked-Holds (some (ok u)) s l = (refl, refl)
  checked-Holds (some (err e)) s l = l

  flushed-Yields :
      (s : HeaderStore B) (r : (B × RamStore ℕ Bytes) × Result PersistError (Unit {0}))
      → Linked c r.0.1.cache
      → Yields (λ u s'. LinkedStore s') (flushed s r)
  flushed-Yields s ((rows, store), ok u) l = l
  flushed-Yields s ((rows, store), err e) l = l

  pub flush_store-Holds :
      (s : HeaderStore B) → LinkedStore s → Holds (λ u s'. LinkedStore s') (flush_store c s)
  flush_store-Holds s l =
      flushed-Yields s (flush c.backend c.codec s.rows s.store)
        (subst (Linked c) (sym (cache-flush c.backend c.codec s.rows s.store)) l)

  remove_each_part :
      (heights : List ℕ) (store : RamStore ℕ Bytes) (h : ℕ) (raw : Bytes)
      → lookup h (remove_each heights store).cache ≡ some raw
      → lookup h store.cache ≡ some raw
  unfolding store_remove
  remove_each_part [] store h raw e = e
  remove_each_part (k ∷ heights) store h raw e =
      let rest = remove_each_part heights (store_remove store k).0 h raw e in
      ground (arith, lookup-remove k h store.cache, rest)

  clear_inner-Holds :
      (s : HeaderStore B) → LinkedStore s → Holds (λ u s'. LinkedStore s') (clear_inner c s)
  unfolding clear_inner
  clear_inner-Holds s l =
      flush_store-Holds (record s { store = remove_each (keys s.store) s.store })
        (Linked-part c s.store.cache (remove_each (keys s.store) s.store).cache l
          (remove_each_part (keys s.store) s.store))

  pub hold_checkpoint-Holds :
      (h : ℕ) (raw : Bytes) (s : HeaderStore B)
      → LinkedStore s
      → Holds (λ u s'. s' ≡ s) (hold_checkpoint c h raw s)
  unfolding hold_checkpoint
  hold_checkpoint-Holds h raw s l = elim (Bool-cases (holds_checkpoint c c.checkpoint h raw)) [
    | inl holds ↦ rw (holds, hold_checkpoint) refl
    | inr refused ↦
        rw (refused, hold_checkpoint)
          (bind-Holds (λ u s'. LinkedStore s') (λ u s'. s' ≡ s) (clear_inner c) (λ _. refuse c) s
            (clear_inner-Holds s l) (λ u s' l'. l'))
  ]

  store_header-Holds :
      (h : ℕ) (raw : Bytes) (s : HeaderStore B)
      → Linked c (insert h raw s.store.cache)
      → Holds (λ u s'. LinkedStore s') (store_header c h raw s)
  unfolding store_insert
  store_header-Holds h raw s l =
      let stored = record s { store = (store_insert s.store h raw).0 } in
      bind-Holds (λ u s'. LinkedStore s') (λ u s'. LinkedStore s') (flush_store c)
        (λ _ s'. some (
          record s' {
            validation_state = state_after c (is_empty s.store.cache) s'.validation_state;
          },
          ok tt,
        ))
        stored (flush_store-Holds stored l) (λ u s' l'. l')

  append_inner-Holds :
      (h : ℕ) (raw : Bytes) (incoming : Header) (now_secs : ℕ) (s : HeaderStore B)
      → c.deserialize raw ≡ some incoming
      → LinkedStore s
      → lookup (suc h) s.store.cache ≡ none
      → Holds (λ u s'. LinkedStore s') (append_inner c h raw incoming now_secs s)
  append_inner-Holds h raw incoming now_secs s decodes l top =
      let max = interval_of c in
      let ancestors = collect_ancestors c.deserialize h max s.store.cache in
      let check = validate_append c.consensus c.network ancestors h incoming now_secs in
      bind-Holds (λ u s'. (s' ≡ s) × (check ≡ some (ok tt))) (λ u s'. LinkedStore s')
        (checked check) (λ _. hold_checkpoint c h raw >>= (λ _. store_header c h raw)) s
        (checked-Holds check s l)
        (λ u s1 done.
          bind-Holds (λ v s'. s' ≡ s1) (λ v s'. LinkedStore s') (hold_checkpoint c h raw)
            (λ _. store_header c h raw) s1
            (hold_checkpoint-Holds h raw s1 (subst LinkedStore (sym done.0) l))
            (λ v s2 same2. store_header-Holds h raw s2 (
              subst (λ (x : HeaderStore B). Linked c (insert h raw x.store.cache))
                (sym (same2 ∙ done.0))
                (insert-Linked c s.store.cache h max now_secs raw incoming l top decodes done.1))))

  pub finish-Linked :
      (r : HeaderStore B × Result MutateError (Unit {0}))
      → Yields (λ u s'. LinkedStore s') r
      → LinkedStore (finish r).0
  finish-Linked (s, ok u) l = l
  finish-Linked (s, err e) l = l

  -- `append` of a header at a height right below no stored one, on a linked chain: whatever it
  -- returns, the stored chain is linked.
  pub append-Linked :
      (token h now_secs : ℕ) (raw : Bytes) (s s' : HeaderStore B)
      (r : Result MutateError (Unit {0}))
      → Linked c s.store.cache
      → lookup (suc h) s.store.cache ≡ none
      → append c token h raw now_secs s ≡ some (s', r)
      → Linked c s'.store.cache
  unfolding append with_writer
  append-Linked token h now_secs raw s s' r l top e = elim (Option-cases (c.deserialize raw)) [
    | inl malformed ↦ let same : s ≡ s' = ground (arith, e, malformed) in subst LinkedStore same l
    | inr (incoming, decodes) ↦ elim (Bool-cases (s.writer_token == token)) [
      | inr superseded ↦
          let same : s ≡ s' = ground (arith, e, decodes, superseded) in subst LinkedStore same l
      | inl writer ↦ elim (Option-cases (append_inner c h raw incoming now_secs s)) [
        | inl panics ↦ absurd (ground (arith, e, decodes, writer, panics))
        | inr (done, runs) ↦
            let same : (finish done).0 ≡ s' = ground (arith, e, decodes, writer, runs) in
            let kept = append_inner-Holds h raw incoming now_secs s decodes l top in
            subst LinkedStore same (finish-Linked done (rw (runs) at kept))
      ]
    ]
  ]
