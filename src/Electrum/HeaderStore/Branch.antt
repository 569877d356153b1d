-- ===== src/Electrum/HeaderStore/Branch.antt =====
-- The validation of a range of headers on its own: a reloaded chain (`sanity_check`,
-- `replay_validate`) and a candidate branch (`HeaderBranch`).
use bwk.Common.{
  ℕ, zero, suc, Bool, Option, none, some, List, [], ◌∷◌, ◌==◌, ◌+◌, ◌-◌, ltb, leb, if◌then◌else◌,
  Result, ok, err, saturating_add32,
}
use bwk.Common.OrdMap.{nat_ord, lookup, insert}
use bwk.Common.Sets.{keys_of}
use bwk.Common.Text.{text_ord}
use bwk.Persist.Backend.{Bytes}
use bwk.Electrum.Headers.{Header, HeaderError, Check, and_check, check_pow, validate_append}
use bwk.Electrum.HeaderStore.{Chain, interval_of, collect_ancestors, push_ancestor}
use bwk.Electrum.HeaderStore.Views.{first}

abbrev pub Headers : Type 0
Headers = List (ℕ × Bytes)

pub record HeaderBranch : Type 0 where
  pub headers : Headers
  pub chainwork : ℕ

-- The entries up to the height.
abbrev pub retain_below : ℕ → Headers → Headers
retain_below fork_h [] = []
retain_below fork_h ((h, raw) ∷ headers) =
    let rest = retain_below fork_h headers in if leb h fork_h then (h, raw) ∷ rest else rest

module _ {B : Type 0} (c : Chain B) where
  abbrev pub replay_one : ℕ → List Header → ℕ → Header → ℕ → Check
  replay_one min ancestors h header now_secs =
      if h == 0
      then validate_append c.consensus c.network [] h header now_secs
      else if ltb min h
      then validate_append c.consensus c.network ancestors h header now_secs
      else some (check_pow c.consensus (c.consensus.params c.network) header)

  -- The loop of `replay_validate`, without its progress.
  unfoldable pub replay_each : ℕ → Headers → List Header → ℕ → Check
  replay_each min [] ancestors now_secs = some (ok tt)
  replay_each min ((h, raw) ∷ headers) ancestors now_secs = elim (c.deserialize raw) [
    | none ↦ some (err HeaderError.malformed_header)
    | some header ↦ elim (replay_one min ancestors h header now_secs) [
      | none ↦ none
      | some check ↦
          and_check check
            (replay_each min headers (push_ancestor (interval_of c) ancestors header) now_secs)
    ]
  ]

  unfoldable pub replay_validate : Headers → ℕ → Check
  unfolding replay_each
  replay_validate headers now_secs = elim (first (keys_of headers)) [
    | none ↦ some (ok tt)
    | some min ↦ replay_each min headers [] now_secs
  ]

  -- The candidate so far: the active chain below, its own headers, and their work.
  pub record Candidate : Type 0 where
    pub combined : Headers
    pub headers : Headers
    pub chainwork : ℕ

  -- The loop over `count` heights from `h` on.
  unfoldable pub validate_each :
      ℕ → ℕ → Headers → ℕ → Candidate → Option (Result HeaderError HeaderBranch)
  validate_each zero h buffer now_secs x =
      some (ok (record { headers = x.headers; chainwork = x.chainwork }))
  validate_each (suc count) h buffer now_secs x = elim (lookup h buffer) [
    | none ↦ some (err HeaderError.missing_ancestor)
    | some raw ↦ elim (c.deserialize raw) [
      | none ↦ some (err HeaderError.malformed_header)
      | some header ↦
          elim (validate_append c.consensus c.network
            (collect_ancestors c.deserialize h (interval_of c) x.combined) h header now_secs) [
              | none ↦ none
              | some check ↦ elim check [
                | err e ↦ some (err e)
                | ok u ↦ validate_each count (h + 1) buffer now_secs (record {
                  combined = insert h raw x.combined;
                  headers = insert h raw x.headers;
                  chainwork = x.chainwork + c.work header;
                })
              ]
            ]
    ]
  ]

  unfoldable pub validate_branch :
      Headers → ℕ → ℕ → Headers → ℕ → Option (Result HeaderError HeaderBranch)
  unfolding validate_each
  validate_branch active fork_h incoming_h buffer now_secs =
      let start = saturating_add32 fork_h 1 in
      validate_each (incoming_h + 1 - start) start buffer now_secs
        (record { combined = retain_below fork_h active; headers = []; chainwork = 0 })

  -- The work of the active chain from the height on.
  unfoldable pub active_work : ℕ → Headers → Result HeaderError ℕ
  active_work from [] = ok 0
  active_work from ((h, raw) ∷ headers) =
      if ltb h from then active_work from headers else elim (c.deserialize raw) [
        | none ↦ err HeaderError.malformed_header
        | some header ↦ elim (active_work from headers) [
          | err e ↦ err e
          | ok rest ↦ ok (c.work header + rest)
        ]
      ]

  unfoldable pub has_more_work_than_active : HeaderBranch → Headers → ℕ → Result HeaderError Bool
  unfolding active_work
  has_more_work_than_active branch active fork_h =
      elim (active_work (saturating_add32 fork_h 1) active) [
        | err e ↦ err e
        | ok work ↦ ok (ltb work branch.chainwork)
      ]
