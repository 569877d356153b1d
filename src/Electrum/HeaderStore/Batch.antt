-- ===== src/Electrum/HeaderStore/Batch.antt =====
-- A batch of headers above the stored ones keeps the chain linked.
use bwk.Common.{
  ℕ, suc, Bool, true, false, none, some, List, [], ◌∷◌, ◌≡◌, ◌≢◌, ◌==◌, ◌+◌, ◌<◌, ◌≤◌, ◌&&◌, arith,
  refl, sym, subst, ◌∙◌, Bool-cases, Option-cases, inl, inr, ltb, length, if◌then◌else◌, Result,
  is_empty, add32, u32_mod,
}
use bwk.Common.OrdMap.{nat_ord, lookup}
use bwk.Persist.Backend.{Bytes}
use bwk.Persist.RamStore.{store_insert}
use bwk.Electrum.Headers.{Header, last}
use bwk.Electrum.HeaderStore.{
  HeaderStore, Chain, HeaderValidationState, MutateError, collect_ancestors, interval_of,
  push_ancestor,
}
use bwk.Electrum.HeaderStore.Mutations.{
  Change, ◌>>=◌, put, finish, with_writer, flush_store, hold_checkpoint, check_batch, append_each,
  append_batch_inner, append_batch, set_state,
}
use bwk.Electrum.HeaderStore.Linked.{Linked, insert-Linked_naming, last-collect_ancestors}
use bwk.Electrum.HeaderStore.Appended.{
  LinkedStore, Holds, bind-Holds, hold_checkpoint-Holds, flush_store-Holds, finish-Linked,
}
use bwk.Electrum.HeaderStore.Checked.{Above, Anchored, Names, check_batch-Holds, put-Above}

lookup_empty : (m : List (ℕ × Bytes)) → is_empty m ≡ true → (j : ℕ) → lookup j m ≡ none
unfolding lookup
lookup_empty [] e j = refl
lookup_empty (x ∷ m) e j = absurd (ground (arith, e))

module _ {B : Type 0} (c : Chain B) where
  abbrev Kept : Unit {0} → HeaderStore B → Type 0
  Kept u s = LinkedStore c s

  -- One header, and what follows on the store that has it.
  append_one-Holds :
      (anchor : Bool) (h : ℕ) (raw : Bytes) (header : Header) (ancestors : List Header)
      (now_secs : ℕ) (rest : Change B (Unit {0})) (s : HeaderStore B)
      → c.deserialize raw ≡ some header
      → LinkedStore c s
      → Above c h ancestors s
      → Anchored c anchor s
      → ((s' : HeaderStore B)
          → s' ≡ record s { store = (store_insert s.store h raw).0 }
          → LinkedStore c s'
          → Holds c Kept (rest s'))
      → Holds c Kept (
          (check_batch c anchor h ancestors header now_secs
              >>= (λ _. hold_checkpoint c h raw >>= (λ _. put h raw >>= (λ _. rest))))
            s)
  unfolding store_insert
  append_one-Holds anchor h raw header ancestors now_secs rest s decodes l a empty next =
      let stored = record s { store = (store_insert s.store h raw).0 } in
      bind-Holds c (λ u s'. (s' ≡ s) × Names c h header s) Kept
        (check_batch c anchor h ancestors header now_secs)
        (λ _. hold_checkpoint c h raw >>= (λ _. put h raw >>= (λ _. rest))) s
        (check_batch-Holds c anchor h ancestors header now_secs s l a empty)
        (λ u s1 done.
          bind-Holds c (λ v s'. s' ≡ s1) Kept (hold_checkpoint c h raw)
            (λ _. put h raw >>= (λ _. rest)) s1
            (hold_checkpoint-Holds c h raw s1 (subst (LinkedStore c) (sym done.0) l))
            (λ v s2 same.
              subst (λ (x : HeaderStore B). Holds c Kept ((put h raw >>= (λ _. rest)) x))
                (sym (same ∙ done.0))
                (next stored refl (
                  insert-Linked_naming c s.store.cache h raw header l (a.0 (suc h) (omega arith))
                    decodes done.1))))

  next_height : (h n : ℕ) → h + suc n < u32_mod → add32 h 1 ≡ suc h
  next_height h n fits = ground arith

  append_each-Holds :
      (anchor : Bool) (h : ℕ) (raws : List Bytes) (ancestors : List Header) (now_secs : ℕ)
      (s : HeaderStore B)
      → interval_of c ≢ 0
      → h + length raws < u32_mod
      → LinkedStore c s
      → Above c h ancestors s
      → Anchored c anchor s
      → Holds c (λ u s'. LinkedStore c s') (append_each c anchor h raws ancestors now_secs s)
  unfolding append_each store_insert
  append_each-Holds anchor h [] ancestors now_secs s positive fits l a empty = l
  append_each-Holds anchor h (raw ∷ raws) ancestors now_secs s positive fits l a empty =
      elim (Option-cases (c.deserialize raw)) [
        | inl malformed ↦ rw (malformed, append_each) l
        | inr (header, decodes) ↦
            rw (decodes, append_each)
              (append_one-Holds (anchor && ltb 0 h) h raw header ancestors now_secs
                (append_each c false (add32 h 1) raws
                  (push_ancestor (interval_of c) ancestors header) now_secs)
                s decodes l a (λ e. empty (ground (arith, e)))
                (λ s' here l'.
                  append_each-Holds false (add32 h 1) raws
                    (push_ancestor (interval_of c) ancestors header) now_secs s' positive
                    (ground (arith, next_height h (length raws) fits, fits)) l'
                    (subst (λ i. Above c i (push_ancestor (interval_of c) ancestors header) s')
                      (sym (next_height h (length raws) fits))
                      (subst (Above c (suc h) (push_ancestor (interval_of c) ancestors header))
                        (sym here) (put-Above c h raw header ancestors s positive decodes a)))
                    (λ e. absurd (ground (arith, e)))))
      ]

  window : ℕ → HeaderStore B → List Header
  window start s =
      if is_empty s.store.cache
      then []
      else collect_ancestors c.deserialize start (interval_of c) s.store.cache

  window-Above :
      (start : ℕ) (s : HeaderStore B)
      → ((j : ℕ) → start ≤ j → lookup j s.store.cache ≡ none)
      → Above c start (window start s) s
  unfolding window
  window-Above start s free = (
    free,
    λ j lower at below. elim (Bool-cases (is_empty s.store.cache)) [
      | inl none_stored ↦ absurd (ground (arith, lookup_empty s.store.cache none_stored j, below))
      | inr some_stored ↦
          let there =
            subst
              (λ i.
                last (collect_ancestors c.deserialize i (interval_of c) s.store.cache) ≡ some lower)
              (sym at) (last-collect_ancestors c j (interval_of c) s.store.cache lower below) in
          ground (arith, some_stored, there)
    ],
  )

  append_batch_inner-Holds :
      (start : ℕ) (raws : List Bytes) (now_secs : ℕ) (s : HeaderStore B)
      → interval_of c ≢ 0
      → start + length raws < u32_mod
      → LinkedStore c s
      → ((j : ℕ) → start ≤ j → lookup j s.store.cache ≡ none)
      → Holds c Kept (append_batch_inner c start raws now_secs s)
  unfolding window
  append_batch_inner-Holds start raws now_secs s positive fits l free =
      let state = set_state HeaderValidationState.valid in
      bind-Holds c Kept Kept
        (append_each c (is_empty s.store.cache) start raws (window start s) now_secs)
        (λ _. flush_store c >>= (λ _. state)) s
        (append_each-Holds (is_empty s.store.cache) start raws (window start s) now_secs s positive
          fits l (window-Above start s free) (lookup_empty s.store.cache))
        (λ u s1 l1.
          bind-Holds c Kept Kept (flush_store c) (λ _. state) s1 (flush_store-Holds c s1 l1)
            (λ v s2 l2. l2))

  -- `append_batch` of headers at heights where nothing is stored, nor above, below the last height of
  -- a `u32`, on a linked chain, for a retarget interval above 0: whatever it returns, the stored chain
  -- is linked.
  pub append_batch-Linked :
      (token start now_secs : ℕ) (raws : List Bytes) (s s' : HeaderStore B)
      (r : Result MutateError (Unit {0}))
      → interval_of c ≢ 0
      → start + length raws < u32_mod
      → Linked c s.store.cache
      → ((j : ℕ) → start ≤ j → lookup j s.store.cache ≡ none)
      → append_batch c token start raws now_secs s ≡ some (s', r)
      → Linked c s'.store.cache
  unfolding append_batch with_writer
  append_batch-Linked token start now_secs raws s s' r positive fits l free e =
      elim (Bool-cases (is_empty raws)) [
        | inl nothing ↦
            let same : s ≡ s' = ground (arith, e, nothing) in subst (LinkedStore c) same l
        | inr some_raws ↦ elim (Bool-cases (s.writer_token == token)) [
          | inr superseded ↦
              let same : s ≡ s' = ground (arith, e, some_raws, superseded) in
              subst (LinkedStore c) same l
          | inl writer ↦ elim (Option-cases (append_batch_inner c start raws now_secs s)) [
            | inl panics ↦ absurd (ground (arith, e, some_raws, writer, panics))
            | inr (done, runs) ↦
                let same : (finish done).0 ≡ s' = ground (arith, e, some_raws, writer, runs) in
                let kept_linked =
                  append_batch_inner-Holds start raws now_secs s positive fits l free in
                subst (LinkedStore c) same (finish-Linked c done (rw (runs) at kept_linked))
          ]
        ]
      ]
