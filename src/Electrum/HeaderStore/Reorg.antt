-- ===== src/Electrum/HeaderStore/Reorg.antt =====
-- Where the checks of a range lead: `sanity_check` of a reloaded chain, `prepend` below the stored
-- floor, and the end of `resolve_reorg`, once the branch is fetched.
use bwk.Common.{
  ℕ, Bool, true, false, Option, none, some, List, [], ◌∷◌, ◌==◌, ◌+◌, ◌-◌, ◌%◌, ◌&&◌, not, ltb,
  length, if◌then◌else◌, Result, ok, err, add32,
}
use bwk.Common.OrdMap.{nat_ord, key_eq, lookup, insert}
use bwk.Common.Sets.{keys_of}
use bwk.Common.Text.{text_ord}
use bwk.Persist.Backend.{Bytes}
use bwk.Persist.RamStore.{get}
use bwk.Electrum.Headers.{Header, Checkpoint, last, expected_genesis}
use bwk.Electrum.HeaderStore.{Chain, InvalidCause, MutateError, backfill_chunk}
use bwk.Electrum.HeaderStore.Views.{first}
use bwk.Electrum.HeaderStore.Mutations.{
  Change, ◌>>=◌, read, checked, put_each, flush_store, with_writer, replace_branch,
  holds_checkpoint,
}
use bwk.Electrum.HeaderStore.Branch.{
  Headers, replay_validate, validate_branch, has_more_work_than_active,
}

-- A check of a reloaded chain that may panic.
abbrev pub Sanity : Type 0
Sanity = Option (Result InvalidCause (Unit {0}))

abbrev insane : Sanity
insane = some (err InvalidCause.sanity)

-- `(low..).zip(raws)`.
abbrev pub from_height : ℕ → List Bytes → Headers → Headers
from_height low [] headers = headers
from_height low (raw ∷ raws) headers = from_height (low + 1) raws (insert low raw headers)

abbrev pub under : ℕ → Headers → Headers
under floor [] = []
under floor ((h, raw) ∷ headers) =
    let rest = under floor headers in if ltb h floor then (h, raw) ∷ rest else rest

module _ {B : Type 0} (c : Chain B) where
  abbrev is_genesis : Option Header → Bytes → Bool
  is_genesis none genesis = false
  is_genesis (some hdr) genesis = key_eq (c.consensus.block_hash hdr) genesis

  abbrev pub genesis_holds : Headers → Bool
  genesis_holds headers = elim (expected_genesis c.consensus c.network) [
    | none ↦ true
    | some genesis ↦ elim (lookup 0 headers) [
      | none ↦ true
      | some raw ↦ is_genesis (c.deserialize raw) genesis
    ]
  ]

  abbrev pub contradicts : Option Checkpoint → Headers → Bool
  contradicts none headers = false
  contradicts (some p) headers = elim (lookup p.height headers) [
    | none ↦ false
    | some raw ↦ not (holds_checkpoint c (some p) p.height raw)
  ]

  -- The checks of a range whose lowest and highest heights are these.
  abbrev pub check_range : ℕ → ℕ → Headers → Sanity
  check_range min max headers =
      if not (max - min + 1 == length headers)
      then insane
      else if not (min == 0) && (backfill_chunk c == 0)
      then none
      else if not (min == 0) && not (min % backfill_chunk c == 0)
      then insane
      else if not (genesis_holds headers)
      then insane
      else if contradicts c.checkpoint headers
      then some (err InvalidCause.checkpoint_missing)
      else some (ok tt)

  unfoldable pub sanity_check : Headers → Sanity
  sanity_check headers = elim (first (keys_of headers)) [
    | none ↦ some (ok tt)
    | some min ↦ elim (last (keys_of headers)) [
      | none ↦ none
      | some max ↦ check_range min max headers
    ]
  ]

  abbrev pub found : Option Bytes → Change B Bytes
  found none s = some (s, err MutateError.unlinked)
  found (some raw) s = some (s, ok raw)

  unfoldable pub prepend : ℕ → ℕ → List Bytes → ℕ → Change B (Unit {0})
  unfolding with_writer put_each get
  prepend token low raws now_secs =
      let floor = add32 low (length raws) in
      with_writer token (do
        stored ← read (λ s. get s.store floor)
        floor_raw ← found stored
        _ ← checked (replay_validate c (insert floor floor_raw (from_height low raws [])) now_secs)
        _ ← put_each c (under floor (from_height low raws []))
        flush_store c)

  -- The candidate replaces the active chain above the fork where it validates and has more work.
  unfoldable pub adopt_branch : ℕ → ℕ → ℕ → Headers → ℕ → Change B (Unit {0})
  unfolding replace_branch
  adopt_branch token fork_h incoming_h buffer now_secs s =
      elim (validate_branch c s.store.cache fork_h incoming_h buffer now_secs) [
        | none ↦ none
        | some r ↦ elim r [
          | err e ↦ some (s, ok tt)
          | ok branch ↦ elim (has_more_work_than_active c branch s.store.cache fork_h) [
            | err e ↦ some (s, ok tt)
            | ok more ↦
                if more then replace_branch c token fork_h branch.headers s else some (s, ok tt)
          ]
        ]
      ]
