-- ===== src/Electrum/HeaderStore/Adopted.antt =====
-- A candidate branch that validates and has more work replaces the chain above its fork, and the chain
-- stays linked.
use bwk.Common.{
  ℕ, true, none, some, List, [], ◌∷◌, ◌≡◌, ◌⊎◌, ap, ◌==◌, ◌+◌, ◌<◌, arith, refl, sym, subst,
  Bool-cases, Option-cases, Result-cases, inl, inr, ltb, leb, any, if◌then◌else◌, Result, ok,
  saturating_add32, u32_mod,
}
use bwk.Common.OrdMap.{nat_ord, lookup, lookup-insert, lookup-remove, key_eq}
use bwk.Common.Sets.{keys_of}
use bwk.Persist.Backend.{Bytes}
use bwk.Persist.RamStore.{RamStore, store_insert, store_remove, keys}
use bwk.Electrum.HeaderStore.{HeaderStore, Chain, HeaderValidationState, MutateError}
use bwk.Electrum.HeaderStore.Branch.{
  Headers, HeaderBranch, retain_below, validate_branch, active_work, has_more_work_than_active,
}
use bwk.Electrum.HeaderStore.Mutations.{
  ◌>>=◌, put, finish, remove_each, with_writer, flush_store, hold_checkpoint, above, put_each,
  replace_branch, set_state,
}
use bwk.Electrum.HeaderStore.Reorg.{adopt_branch}
use bwk.Electrum.HeaderStore.Linked.{Linked, Linked-part}
use bwk.Electrum.HeaderStore.Appended.{
  LinkedStore, Holds, bind-Holds, hold_checkpoint-Holds, flush_store-Holds, finish-Linked,
}
use bwk.Electrum.HeaderStore.Joined.{
  Within, Listed, Joined, lookup-retain_below, validate_branch-Joined,
}

lookup-remove_each :
    (heights : List ℕ) (store : RamStore ℕ Bytes) (j : ℕ)
    → lookup j (remove_each heights store).cache
      ≡ (if any (λ k. k == j) heights then none else lookup j store.cache)
unfolding store_remove
lookup-remove_each [] store j = refl
lookup-remove_each (k ∷ heights) store j = ground (
  arith,
  lookup-remove_each heights (store_remove store k).0 j,
  lookup-remove k j store.cache,
  nat_ord.cmp-eq j k,
  nat_ord.cmp-refl j,
)

module _ {B : Type 0} (c : Chain B) where
  any-above :
      (fork_h j : ℕ) (raw : Bytes) (m : Headers)
      → lookup j m ≡ some raw
      → fork_h < j
      → any (λ k. k == j) (above c fork_h (keys_of m)) ≡ true
  unfolding lookup
  any-above fork_h j raw [] e over = absurd (ground (arith, e))
  any-above fork_h j raw ((k, r) ∷ m) e over = elim (Bool-cases (key_eq j k)) [
    | inl same ↦ ground (arith, nat_ord.cmp-eq j k, same, over)
    | inr other ↦
        let there : lookup j m ≡ some raw = ground (arith, e, other) in
        ground (arith, any-above fork_h j raw m there over)
  ]

  abbrev Kept : Unit {0} → HeaderStore B → Type 0
  Kept u s = LinkedStore c s

  put_each-Holds :
      (t headers : Headers) (s : HeaderStore B)
      → Linked c t
      → Within s.store.cache t
      → Listed headers t
      → Holds c Kept (put_each c headers s)
  unfolding put_each store_insert
  put_each-Holds t [] s linked within listed = Linked-part c t s.store.cache linked within
  put_each-Holds t ((h, raw) ∷ headers) s linked within listed =
      let stored = record s { store = (store_insert s.store h raw).0 } in
      bind-Holds c (λ v s'. s' ≡ s) Kept (hold_checkpoint c h raw)
        (λ _. put h raw >>= (λ _. put_each c headers)) s
        (hold_checkpoint-Holds c h raw s (Linked-part c t s.store.cache linked within))
        (λ v s1 same.
          subst (λ (x : HeaderStore B). Holds c Kept ((put h raw >>= (λ _. put_each c headers)) x))
            (sym same)
            (put_each-Holds t headers stored linked
              (λ j r e. ground (
                arith,
                lookup-insert h j raw s.store.cache,
                nat_ord.cmp-eq j h,
                within j r,
                listed.0,
                e,
              ))
              listed.1))

  remove_each-Within :
      (fork_h : ℕ) (store : RamStore ℕ Bytes) (t : Headers)
      → Within (retain_below fork_h store.cache) t
      → Within (remove_each (above c fork_h (keys_of store.cache)) store).cache t
  remove_each-Within fork_h store t within j raw e =
      elim (Bool-cases (any (λ k. k == j) (above c fork_h (keys_of store.cache)))) [
        | inl removed ↦ absurd (
            ground (
              arith,
              lookup-remove_each (above c fork_h (keys_of store.cache)) store j,
              removed,
              e,
            ))
        | inr stays ↦
            let there : lookup j store.cache ≡ some raw = ground (
              arith,
              lookup-remove_each (above c fork_h (keys_of store.cache)) store j,
              stays,
              e,
            ) in
            elim (Bool-cases (leb j fork_h)) [
              | inl low ↦
                  within j raw
                    (ground (arith, lookup-retain_below fork_h j store.cache, low, there))
              | inr high ↦ absurd (
                  ground
                    (arith, any-above fork_h j raw store.cache there (ground (arith, high)), stays))
            ]
      ]

  replace_branch-Linked :
      (token fork_h : ℕ) (headers : Headers) (s s' : HeaderStore B)
      (r : Result MutateError (Unit {0}))
      → LinkedStore c s
      → Joined c (retain_below fork_h s.store.cache) headers
      → replace_branch c token fork_h headers s ≡ some (s', r)
      → LinkedStore c s'
  unfolding replace_branch with_writer keys
  replace_branch-Linked token fork_h headers s s' r l (t, linked, within, listed) e =
      let cut = record s { store = remove_each (above c fork_h (keys_of s.store.cache)) s.store } in
      let state = set_state HeaderValidationState.valid in
      let body = put_each c headers >>= (λ _. flush_store c >>= (λ _. state)) in
      let held : Holds c Kept (body cut) =
        bind-Holds c Kept Kept (put_each c headers) (λ _. flush_store c >>= (λ _. state)) cut
          (put_each-Holds t headers cut linked (remove_each-Within fork_h s.store t within) listed)
          (λ u s1 l1.
            bind-Holds c Kept Kept (flush_store c) (λ _. state) s1 (flush_store-Holds c s1 l1)
              (λ v s2 l2. l2)) in
      elim (Bool-cases (s.writer_token == token)) [
        | inr superseded ↦
            let same : s ≡ s' = ground (arith, e, superseded) in subst (LinkedStore c) same l
        | inl writer ↦ elim (Option-cases (body cut)) [
          | inl panics ↦ absurd (ground (arith, e, writer, panics))
          | inr (done, runs) ↦
              let same : (finish done).0 ≡ s' = ground (arith, e, writer, runs) in
              subst (LinkedStore c) same (finish-Linked c done (rw (runs) at held))
        ]
      ]

  -- The candidate validates, and has more work than the active chain above the fork.
  abbrev pub Heavier : Headers → ℕ → ℕ → Headers → ℕ → Type 0
  Heavier active fork_h incoming_h buffer now_secs =
      (branch : HeaderBranch) × (work : ℕ) × (validate_branch c active fork_h incoming_h buffer
          now_secs
        ≡ some (ok branch))
      × (active_work c (saturating_add32 fork_h 1) active ≡ ok work)
      × (work < branch.chainwork)

  -- On a linked chain, for a fork below the last height but one of a `u32`: whatever the end of a
  -- reorganisation returns, the stored chain is linked, and it is the one before unless the
  -- candidate validates and has more work than the active chain above the fork.
  pub adopt_branch-Linked :
      (token fork_h incoming_h now_secs : ℕ) (buffer : Headers) (s s' : HeaderStore B)
      (r : Result MutateError (Unit {0}))
      → fork_h + 1 < u32_mod
      → Linked c s.store.cache
      → adopt_branch c token fork_h incoming_h buffer now_secs s ≡ some (s', r)
      → Linked c s'.store.cache
        × ((s'.store.cache ≡ s.store.cache)
            ⊎ Heavier s.store.cache fork_h incoming_h buffer now_secs)
  unfolding adopt_branch has_more_work_than_active
  adopt_branch-Linked token fork_h incoming_h now_secs buffer s s' r fits l e =
      let stays : s ≡ s'
          → Linked c s'.store.cache
            × ((s'.store.cache ≡ s.store.cache)
                ⊎ Heavier s.store.cache fork_h incoming_h buffer now_secs) =
        λ same. (
          subst (LinkedStore c) same l,
          inl (ap (λ (x : HeaderStore B). x.store.cache) (sym same)),
        ) in
      elim (Option-cases (validate_branch c s.store.cache fork_h incoming_h buffer now_secs)) [
        | inl panics ↦ absurd (ground (arith, e, panics))
        | inr (found, validates) ↦ elim (Result-cases found) [
          | inr (x, fails) ↦ stays (ground (arith, e, validates, fails))
          | inl (branch, valid) ↦
              elim (Result-cases (active_work c (saturating_add32 fork_h 1) s.store.cache)) [
                | inr (x, malformed) ↦ stays (ground (arith, e, validates, valid, malformed))
                | inl (work, adds) ↦ elim (Bool-cases (ltb work branch.chainwork)) [
                  | inr lighter ↦ stays (ground (arith, e, validates, valid, adds, lighter))
                  | inl more ↦
                      let held : validate_branch c s.store.cache fork_h incoming_h buffer now_secs
                          ≡ some (ok branch) =
                        ground (arith, validates, valid) in
                      (
                        replace_branch-Linked token fork_h branch.headers s s' r l
                            (validate_branch-Joined c s.store.cache fork_h incoming_h now_secs
                              buffer branch fits l held)
                            (ground (arith, e, validates, valid, adds, more)),
                        inr (branch, work, held, adds, ground (arith, more)),
                      )
                ]
              ]
        ]
      ]
