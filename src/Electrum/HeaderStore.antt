-- ===== src/Electrum/HeaderStore.antt =====
-- `HeaderStore` of electrum/src/header_store.rs: the validated header chain on a `RamStore`, and the
-- operations of its worker that change it. The threads, the connection and the progress events are
-- not modelled. The crate `bitcoin` is a parameter, and so is the clock; `none` is a panic.
pub mod Views
pub mod Mutations
pub mod Branch
pub mod Reorg
pub mod Linked
pub mod Appended
pub mod Checked
pub mod Batch
pub mod Joined
pub mod Adopted
use bwk.Common.{
  ℕ, zero, suc, Bool, true, false, Option, none, some, List, [], ◌∷◌, ◌++◌, ◌==◌, ◌-◌, ◌&&◌, not,
  ltb, leb, length, if◌then◌else◌, Result, ok, err, drop, saturating_sub, u32_mod, ◌%◌,
}
use bwk.Common.OrdMap.{nat_ord, lookup}
use bwk.Persist.Types.{PersistError}
use bwk.Persist.Backend.{Bytes, PersistenceBackend}
use bwk.Persist.RamStore.{RamStore, Codec}
use bwk.Electrum.Headers.{
  Header, HeaderError, Network, Consensus, Checkpoint, Check, retarget_interval,
}

pub data InvalidCause : Type 0 where
  validator : HeaderError → InvalidCause
  store_read : PersistError → InvalidCause
  sanity : InvalidCause
  checkpoint_missing : InvalidCause

pub data HeaderValidationState : Type 0 where
  unchecked : HeaderValidationState
  validating : HeaderValidationState
  valid : HeaderValidationState
  invalid : InvalidCause → HeaderValidationState

pub data MutateError : Type 0 where
  validate : HeaderError → MutateError
  persist : PersistError → MutateError
  bad_anchor : MutateError
  not_checkpoint : MutateError
  unlinked : MutateError

-- What the store sends: a tick to its listeners, the refusal of a chain, a wake to its worker.
pub data Event : Type 0 where
  tick : Event
  checkpoint_refused : Event
  wake : Event

-- What stays as it is: the network and the crates, the checkpoint, and the backend with its codec.
pub record Chain (B : Type 0) : Type 0 where
  pub consensus : Consensus
  pub network : Network
  pub deserialize : Bytes → Option Header
  pub work : Header → ℕ
  pub checkpoint : Option Checkpoint
  pub backend : PersistenceBackend B
  pub codec : Codec ℕ Bytes

pub record HeaderStore (B : Type 0) : Type 0 where
  pub store : RamStore ℕ Bytes
  pub rows : B
  pub validation_state : HeaderValidationState
  pub writer_token : ℕ
  pub extend_down : Option ℕ
  pub sent : List Event

abbrev pub interval_of : {B : Type 0} → Chain B → ℕ
interval_of c = retarget_interval (c.consensus.params c.network)

module _ (decode : Bytes → Option Header) where
  abbrev pub decoded : Option Bytes → Option Header
  decoded none = none
  decoded (some raw) = decode raw

  -- Downward from `k`, to the first gap or to `lo`; the oldest first.
  -- For a window above 0; with 0 the source's index would pass height 0, where this stops.
  unfoldable pub collect_down : ℕ → ℕ → ℕ → List (ℕ × Bytes) → List Header → List Header
  collect_down zero k lo headers found = found
  collect_down (suc fuel) k lo headers found = elim (decoded (lookup k headers)) [
    | none ↦ found
    | some hdr ↦ if k == lo then hdr ∷ found else collect_down fuel (k - 1) lo headers (hdr ∷ found)
  ]

  -- The run of headers that ends below the height, `max` of them at most.
  unfoldable pub collect_ancestors : ℕ → ℕ → List (ℕ × Bytes) → List Header
  unfolding collect_down
  collect_ancestors h max headers =
      if h == 0 then [] else collect_down h (h - 1) (saturating_sub h (max % u32_mod)) headers []

-- The window of the ancestors after a header.
abbrev pub push_ancestor : ℕ → List Header → Header → List Header
push_ancestor max ancestors header =
    let pushed = ancestors ++ header ∷ [] in
    if ltb max (length pushed) then drop 1 pushed else pushed

abbrev pub max_deferred : ℕ
max_deferred = 4096

unfoldable pub push_deferred : List (ℕ × Bytes) → ℕ × Bytes → List (ℕ × Bytes)
push_deferred deferred item =
    if leb max_deferred (length deferred) then deferred else deferred ++ item ∷ []

module _ {B : Type 0} (c : Chain B) where
  unfoldable pub backfill_chunk : ℕ
  backfill_chunk = interval_of c % u32_mod

  -- A remainder by zero panics.
  unfoldable pub snap : ℕ → Option ℕ
  unfolding backfill_chunk
  snap h = if backfill_chunk == 0 then none else some (h - h % backfill_chunk)

  unfoldable pub backfill_floor : ℕ → Option ℕ
  unfolding snap
  backfill_floor tip_h = elim (snap tip_h) [
    | none ↦ none
    | some boundary ↦ some (saturating_sub boundary backfill_chunk)
  ]
