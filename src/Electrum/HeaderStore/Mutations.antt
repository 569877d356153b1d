-- ===== src/Electrum/HeaderStore/Mutations.antt =====
-- The changes of the header store: a closure runs on the store only for the token of its one writer.
use bwk.Common.{
  ℕ, Bool, true, false, Option, none, some, List, [], ◌∷◌, ◌++◌, ◌==◌, ◌%◌, ◌&&◌, ltb, is_empty,
  if◌then◌else◌, Result, ok, err, add32, u32_mod,
}
use bwk.Common.OrdMap.{nat_ord, key_eq}
use bwk.Common.Text.{text_ord}
use bwk.Persist.Types.{PersistError}
use bwk.Persist.Backend.{Bytes}
use bwk.Persist.RamStore.{RamStore, store_insert, store_remove, flush, keys}
use bwk.Electrum.Headers.{Header, HeaderError, Checkpoint, Check, check_pow, validate_append}
use bwk.Electrum.HeaderStore.{
  HeaderStore, Chain, HeaderValidationState, InvalidCause, MutateError, tick, checkpoint_refused,
  interval_of, collect_ancestors, push_ancestor,
}

-- A change that may fail with an error, after what it did to the store, or panic.
abbrev pub Change : Type 0 → Type 0 → Type 0
Change B A = HeaderStore B → Option (HeaderStore B × Result MutateError A)

abbrev pub remove_each : List ℕ → RamStore ℕ Bytes → RamStore ℕ Bytes
remove_each [] store = store
remove_each (h ∷ heights) store = remove_each heights (store_remove store h).0

module _ {B : Type 0} where
  abbrev pub after_change :
      {A C : Type 0}
      → (A → Change B C)
      → HeaderStore B × Result MutateError A
      → Option (HeaderStore B × Result MutateError C)
  after_change next (s, ok a) = next a s
  after_change next (s, err e) = some (s, err e)

  infixl 5 ◌>>=◌
  abbrev pub ◌>>=◌ : {A C : Type 0} → Change B A → (A → Change B C) → Change B C
  (m >>= next) s = elim (m s) [ none ↦ none | some r ↦ after_change next r ]

  abbrev pub read : {A : Type 0} → (HeaderStore B → A) → Change B A
  read f s = some (s, ok (f s))

  abbrev pub write : (HeaderStore B → HeaderStore B) → Change B (Unit {0})
  write f s = some (f s, ok tt)

  abbrev pub fail : {A : Type 0} → MutateError → Change B A
  fail e s = some (s, err e)

  abbrev pub checked : Check → Change B (Unit {0})
  checked none s = none
  checked (some (ok u)) s = some (s, ok tt)
  checked (some (err e)) s = some (s, err (MutateError.validate e))

  abbrev pub put : ℕ → Bytes → Change B (Unit {0})
  put h raw = write (λ s. record s { store = (store_insert s.store h raw).0 })

  abbrev pub set_state : HeaderValidationState → Change B (Unit {0})
  set_state v = write (λ s. record s { validation_state = v })

  -- What a flush left.
  abbrev pub flushed :
      HeaderStore B
      → (B × RamStore ℕ Bytes) × Result PersistError (Unit {0})
      → HeaderStore B × Result MutateError (Unit {0})
  flushed s ((rows, store), ok u) = (record s { rows = rows; store = store }, ok tt)
  flushed s ((rows, store), err e) =
      (record s { rows = rows; store = store }, err (MutateError.persist e))

  abbrev pub finish :
      HeaderStore B × Result MutateError (Unit {0}) → HeaderStore B × Result MutateError (Unit {0})
  finish (s, ok u) = (record s { sent = s.sent ++ tick ∷ [] }, ok tt)
  finish (s, err e) = (s, err e)

  -- `with_writer`, and the tick of the listeners after a success.
  unfoldable pub with_writer : ℕ → Change B (Unit {0}) → Change B (Unit {0})
  with_writer token f s =
      if s.writer_token == token
      then elim (f s) [ none ↦ none | some r ↦ some (finish r) ]
      else some (s, ok tt)

module _ {B : Type 0} (c : Chain B) where
  abbrev pub flush_store : Change B (Unit {0})
  flush_store s = some (flushed s (flush c.backend c.codec s.rows s.store))

  unfoldable pub clear_inner : Change B (Unit {0})
  unfolding keys
  clear_inner = do
    _ ← write (λ s. record s { store = remove_each (keys s.store) s.store })
    flush_store

  abbrev is_block : Option Header → Bytes → Bool
  is_block none hash = false
  is_block (some hdr) hash = key_eq (c.consensus.block_hash hdr) hash

  unfoldable pub holds_checkpoint : Option Checkpoint → ℕ → Bytes → Bool
  holds_checkpoint none h raw = true
  holds_checkpoint (some p) h raw =
      if h == p.height then is_block (c.deserialize raw) p.hash else true

  abbrev pub refuse : Change B (Unit {0})
  refuse = do
    _ ← set_state (HeaderValidationState.invalid InvalidCause.checkpoint_missing)
    _ ← write (λ s. record s { sent = s.sent ++ tick ∷ checkpoint_refused ∷ [] })
    fail MutateError.not_checkpoint

  -- A chain with another block at the checkpoint is cleared and refused.
  unfoldable pub hold_checkpoint : ℕ → Bytes → Change B (Unit {0})
  unfolding holds_checkpoint clear_inner
  hold_checkpoint h raw =
      if holds_checkpoint c.checkpoint h raw then write (λ s. s) else clear_inner >>= (λ _. refuse)

  -- One header on a chain that is invalid does not make it valid.
  abbrev pub state_after : Bool → HeaderValidationState → HeaderValidationState
  state_after was_empty HeaderValidationState.validating = HeaderValidationState.validating
  state_after false (HeaderValidationState.invalid cause) = HeaderValidationState.invalid cause
  state_after _ _ = HeaderValidationState.valid

  -- The header is stored and saved.
  abbrev pub store_header : ℕ → Bytes → Change B (Unit {0})
  store_header h raw = do
    was_empty ← read (λ s. is_empty s.store.cache)
    _ ← put h raw
    _ ← flush_store
    write (λ s. record s { validation_state = state_after was_empty s.validation_state })

  abbrev pub append_inner : ℕ → Bytes → Header → ℕ → Change B (Unit {0})
  append_inner h raw incoming now_secs = do
    ancestors ← read (λ s. collect_ancestors c.deserialize h (interval_of c) s.store.cache)
    _ ← checked (validate_append c.consensus c.network ancestors h incoming now_secs)
    _ ← hold_checkpoint h raw
    store_header h raw

  unfoldable pub append : ℕ → ℕ → Bytes → ℕ → Change B (Unit {0})
  unfolding with_writer hold_checkpoint
  append token h raw now_secs = elim (c.deserialize raw) [
    | none ↦ fail (MutateError.validate HeaderError.malformed_header)
    | some incoming ↦ with_writer token (append_inner h raw incoming now_secs)
  ]

  -- The first header of an empty store above the genesis block is an anchor.
  abbrev pub check_batch : Bool → ℕ → List Header → Header → ℕ → Change B (Unit {0})
  check_batch anchor h ancestors header now_secs =
      if anchor
      then (if h % (interval_of c % u32_mod) == 0
          then checked (some (check_pow c.consensus (c.consensus.params c.network) header))
          else fail MutateError.bad_anchor)
      else checked (validate_append c.consensus c.network ancestors h header now_secs)

  -- The loop of `append_batch`; `anchor` is whether the first header may be one.
  unfoldable pub append_each : Bool → ℕ → List Bytes → List Header → ℕ → Change B (Unit {0})
  unfolding hold_checkpoint
  append_each anchor h [] ancestors now_secs = write (λ s. s)
  append_each anchor h (raw ∷ raws) ancestors now_secs = elim (c.deserialize raw) [
    | none ↦ fail (MutateError.validate HeaderError.malformed_header)
    | some header ↦ do
      _ ← check_batch (anchor && ltb 0 h) h ancestors header now_secs
      _ ← hold_checkpoint h raw
      _ ← put h raw
      append_each false (add32 h 1) raws (push_ancestor (interval_of c) ancestors header) now_secs
  ]

  abbrev pub append_batch_inner : ℕ → List Bytes → ℕ → Change B (Unit {0})
  append_batch_inner start raws now_secs = do
    was_empty ← read (λ s. is_empty s.store.cache)
    ancestors ← read (λ s.
        if was_empty
        then []
        else collect_ancestors c.deserialize start (interval_of c) s.store.cache)
    _ ← append_each was_empty start raws ancestors now_secs
    _ ← flush_store
    set_state HeaderValidationState.valid

  unfoldable pub append_batch : ℕ → ℕ → List Bytes → ℕ → Change B (Unit {0})
  unfolding with_writer append_each
  append_batch token start raws now_secs =
      if is_empty raws
      then write (λ s. s)
      else with_writer token (append_batch_inner start raws now_secs)

  -- The heights above the fork.
  abbrev pub above : ℕ → List ℕ → List ℕ
  above fork_h [] = []
  above fork_h (h ∷ heights) =
      let rest = above fork_h heights in if ltb fork_h h then h ∷ rest else rest

  unfoldable pub put_each : List (ℕ × Bytes) → Change B (Unit {0})
  unfolding hold_checkpoint
  put_each [] = write (λ s. s)
  put_each ((h, raw) ∷ branch) = do _ ← hold_checkpoint h raw; _ ← put h raw; put_each branch

  unfoldable pub replace_branch : ℕ → ℕ → List (ℕ × Bytes) → Change B (Unit {0})
  unfolding with_writer put_each keys
  replace_branch token fork_h branch = with_writer token (do
    _ ← write (λ s. record s { store = remove_each (above fork_h (keys s.store)) s.store })
    _ ← put_each branch
    _ ← flush_store
    set_state HeaderValidationState.valid)

  unfoldable pub wipe : ℕ → Change B (Unit {0})
  unfolding clear_inner
  wipe token s = if s.writer_token == token then clear_inner s else some (s, ok tt)
