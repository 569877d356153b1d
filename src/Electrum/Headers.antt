-- ===== src/Electrum/Headers.antt =====
-- The checks of a block header: electrum/src/header_validator.rs and electrum/src/checkpoint.rs. What
-- the crate `bitcoin` computes (hashes, targets, the next work, the parameters of a network) is a
-- parameter. A panic is `none`: an index out of range, or a remainder by zero.
pub mod Median
pub mod Rules
pub mod Checks
pub mod Accept
use bwk.Common.{
  ℕ, Bool, true, false, Option, none, some, List, [], ◌∷◌, ◌+◌, ◌-◌, ◌/◌, ◌%◌, min, ◌==◌, ltb, leb,
  length, get_elem?, drop, map, is_empty, Result, ok, err, ◌>>=◌, if◌then◌else◌, saturating_add64,
  u32_mod,
}
use bwk.Common.OrdMap.{key_eq}
use bwk.Common.Text.{text_ord}
use bwk.Common.Sort.{sort_by}
use bwk.Persist.Backend.{Bytes}

abbrev pub max_future_block_time : ℕ
max_future_block_time = 7200

abbrev pub mtp_window : ℕ
mtp_window = 11

pub data HeaderError : Type 0 where
  pow : HeaderError
  prev_hash_mismatch : HeaderError
  bad_retarget : HeaderError
  bits_mismatch : HeaderError
  mtp_violation : HeaderError
  timestamp_too_far_in_future : HeaderError
  genesis_mismatch : HeaderError
  missing_ancestor : HeaderError
  malformed_header : HeaderError

pub data Network : Type 0 where
  bitcoin : Network
  testnet : Network
  testnet4 : Network
  signet : Network
  regtest : Network

pub record Header : Type 0 where
  pub version : ℕ
  pub prev_blockhash : Bytes
  pub merkle_root : Bytes
  pub time : ℕ
  pub bits : ℕ
  pub nonce : ℕ

pub record Params : Type 0 where
  pub pow_target_timespan : ℕ
  pub pow_target_spacing : ℕ
  pub no_pow_retargeting : Bool
  pub max_attainable_target : ℕ

-- The functions of the crate `bitcoin`.
pub record Consensus : Type 0 where
  pub params : Network → Params
  pub genesis_hash : Network → Bytes
  pub block_hash : Header → Bytes
  pub target : Header → ℕ
  pub validate_pow : Header → ℕ → Bool
  pub from_next_work_required : ℕ → ℕ → Params → ℕ

-- A check that may panic.
abbrev pub Check : Type 0
Check = Option (Result HeaderError (Unit {0}))

-- `?` before a check.
abbrev pub and_check : Result HeaderError (Unit {0}) → Check → Check
and_check (ok u) next = next
and_check (err e) next = some (err e)

abbrev pub require : Bool → HeaderError → Result HeaderError (Unit {0})
require true e = ok tt
require false e = err e

abbrev pub last {ℓ} : {A : Type ℓ} → List A → Option A
last [] = none
last (x ∷ []) = some x
last (x ∷ y ∷ xs) = last (y ∷ xs)

-- `timespan / spacing`, which panics on a spacing of zero.
unfoldable pub retarget_interval : Params → ℕ
retarget_interval params = params.pow_target_timespan / params.pow_target_spacing

unfoldable pub median_time : List ℕ → Option ℕ
unfolding sort_by
median_time times = get_elem? (sort_by leb times) (length times / 2)

abbrev pub relaxed : Network → Bool
relaxed testnet = true
relaxed testnet4 = true
relaxed _ = false

abbrev pub is_regtest : Network → Bool
is_regtest regtest = true
is_regtest _ = false

-- The times of the last ancestors of the window.
unfoldable pub window_times : List Header → List ℕ
window_times ancestors =
    let window = min (length ancestors) mtp_window in
    map (λ h. h.time) (drop (length ancestors - window) ancestors)

unfoldable pub check_mtp : Network → List Header → Header → Check
unfolding median_time window_times
check_mtp network ancestors incoming =
    if is_regtest network
    then some (ok tt)
    else if is_empty ancestors
    then some (ok tt)
    else elim (median_time (window_times ancestors)) [
      | none ↦ none
      | some median ↦ some (if leb incoming.time median then err mtp_violation else ok tt)
    ]

unfoldable pub check_future_cap : Header → ℕ → Result HeaderError (Unit {0})
check_future_cap incoming now_secs =
    if ltb (saturating_add64 now_secs max_future_block_time) incoming.time
    then err timestamp_too_far_in_future
    else ok tt

module _ (consensus : Consensus) where
  unfoldable pub expected_genesis : Network → Option Bytes
  expected_genesis regtest = none
  expected_genesis bitcoin = some (consensus.genesis_hash bitcoin)
  expected_genesis signet = some (consensus.genesis_hash signet)
  expected_genesis testnet = some (consensus.genesis_hash testnet)
  expected_genesis testnet4 = some (consensus.genesis_hash testnet4)

  unfoldable pub check_pow : Params → Header → Result HeaderError (Unit {0})
  check_pow params incoming =
      let target = min (consensus.target incoming) params.max_attainable_target in
      require (consensus.validate_pow incoming target) pow

  unfoldable pub check_linkage : Header → Header → Result HeaderError (Unit {0})
  check_linkage prev incoming =
      require (key_eq incoming.prev_blockhash (consensus.block_hash prev)) prev_hash_mismatch

  unfoldable pub check_genesis : Network → Header → Result HeaderError (Unit {0})
  unfolding expected_genesis
  check_genesis network incoming = elim (expected_genesis network) [
    | none ↦ ok tt
    | some g ↦ require (key_eq (consensus.block_hash incoming) g) genesis_mismatch
  ]

  -- The bits that the header at a retarget boundary must have.
  unfoldable pub check_boundary : Params → List Header → Header → Header → Check
  unfolding retarget_interval
  check_boundary params ancestors prev incoming =
      let interval = retarget_interval params in
      if ltb (length ancestors) interval
      then some (err missing_ancestor)
      else elim (get_elem? ancestors (length ancestors - interval)) [
        | none ↦ none
        | some period_start ↦
            let actual_timespan = prev.time - period_start.time in
            let expected = consensus.from_next_work_required prev.bits actual_timespan params in
            some (require (incoming.bits == expected) bad_retarget)
      ]

  unfoldable pub check_retarget : Params → List Header → ℕ → Header → Header → Check
  unfolding check_boundary
  check_retarget params ancestors incoming_height prev incoming =
      if params.no_pow_retargeting
      then some (ok tt)
      else if retarget_interval params == 0
      then none
      else if incoming_height % retarget_interval params == 0
      then check_boundary params ancestors prev incoming
      else some (require (incoming.bits == prev.bits) bits_mismatch)

  unfoldable pub validate_append : Network → List Header → ℕ → Header → ℕ → Check
  unfolding check_pow check_linkage check_genesis check_retarget check_mtp check_future_cap
  validate_append network ancestors incoming_height incoming now_secs =
      let params = consensus.params network in
      and_check (check_future_cap incoming now_secs) (
        if incoming_height == 0
        then and_check (check_genesis network incoming) (some (check_pow params incoming))
        else elim (last ancestors) [
          | none ↦ some (err missing_ancestor)
          | some prev ↦ and_check (check_pow params incoming) (
              and_check (check_linkage prev incoming) (
                if relaxed network
                then check_mtp network ancestors incoming
                else elim (check_retarget params ancestors incoming_height prev incoming) [
                  | none ↦ none
                  | some checked ↦ and_check checked (check_mtp network ancestors incoming)
                ]))
        ])

-- A block that the consumer vouches for.
pub record Checkpoint : Type 0 where
  pub height : ℕ
  pub hash : Bytes

-- The height is no multiple of the interval.
pub data CheckpointError : Type 0 where
  not_retarget_boundary : ℕ → ℕ → CheckpointError

unfoldable pub new : Params → ℕ → Bytes → Result CheckpointError Checkpoint
unfolding retarget_interval
new mainnet height hash =
    let interval = retarget_interval mainnet % u32_mod in
    if height % interval == 0
    then ok (record { height = height; hash = hash })
    else err (not_retarget_boundary height interval)
