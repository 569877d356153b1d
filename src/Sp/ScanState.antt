-- ===== src/Sp/ScanState.antt =====
-- `ScanState` of sp/src/scan/state.rs, the progress of a scan, and `find_fork` of sp/src/scan/mod.rs,
-- which reads the hashes it keeps. The backend, the codec of the hashes, `serde_json` and the queries
-- of the chain are parameters.
pub mod Kept
pub mod Window
pub mod Fork
pub mod Restart
use mathlib.Core.Option
use mathlib.Core.Option.{get_or}
use bwk.Common.{
  ℕ, Bool, true, false, Option, none, some, List, [], ◌∷◌, ◌++◌, ◌+◌, ◌-◌, min, ltb, ◌==◌, map,
  Result, ok, err, ◌>>=◌, select_by, if◌then◌else◌, add32, saturating_sub,
}
use bwk.Common.OrdMap.{Ord, key_eq, nat_ord, lookup}
use bwk.Common.Text.{Text, text_ord, codes}
use bwk.Persist.Types.{PersistError, account_store_key, block_hashes_store_key}
use bwk.Persist.Backend.{Bytes, Written, PersistenceBackend, flush_batch}
use bwk.Persist.RamStore.{
  RamStore, Codec, empty, open_store, keys, values, store_insert, store_remove, flush,
}

abbrev pub reorg_depth : ℕ
reorg_depth = 6

abbrev pub last_scanned_height_row : Text
last_scanned_height_row = codes "last_scanned_height"

abbrev pub birthday_height_row : Text
birthday_height_row = codes "birthday_height"

abbrev pub last_spend_height_row : Text
last_spend_height_row = codes "last_spend_height"

pub record ScanState : Type 0 where
  pub last_scanned_height : Option ℕ
  pub block_hashes : RamStore ℕ Bytes
  pub last_spend_height : Option ℕ
  pub birthday_height : ℕ

-- `serde_json` at one type.
pub record Json (A : Type 0) : Type 0 where
  pub to_vec : A → Result PersistError Bytes
  pub from_slice : Bytes → Result PersistError A

unfoldable pub with_backend : ℕ → ScanState
unfolding empty
with_backend birthday_height = record {
  last_scanned_height = none;
  block_hashes = empty block_hashes_store_key;
  last_spend_height = none;
  birthday_height = birthday_height;
}

module _ {B : Type 0} (backend : PersistenceBackend B) (codec : Codec ℕ Bytes) (json : Json ℕ)
    (json_option : Json (Option ℕ)) where
  -- A row that is read, or the default where it is absent.
  abbrev read_row : {A : Type 0} → Json A → A → Option Bytes → Result PersistError A
  read_row format default none = ok default
  read_row format default (some bytes) = format.from_slice bytes

  unfoldable pub load_from_backend : ℕ → B → Result PersistError ScanState
  unfolding open_store
  load_from_backend birthday_height b = do
    scanned_row ← backend.get_row b account_store_key last_scanned_height_row
    last_scanned_height ← read_row json_option none scanned_row
    birthday_row ← backend.get_row b account_store_key birthday_height_row
    birthday ← read_row json birthday_height birthday_row
    spend_row ← backend.get_row b account_store_key last_spend_height_row
    last_spend_height ← read_row json_option none spend_row
    block_hashes ← open_store backend codec b block_hashes_store_key
    ok (record {
      last_scanned_height = last_scanned_height;
      block_hashes = block_hashes;
      last_spend_height = last_spend_height;
      birthday_height = birthday;
    })

  -- The rows of the three scalar fields.
  unfoldable pub scalar_rows : ScanState → Result PersistError (List (Text × Bytes))
  scalar_rows s = do
    last_scanned_height ← json_option.to_vec s.last_scanned_height
    birthday_height ← json.to_vec s.birthday_height
    last_spend_height ← json_option.to_vec s.last_spend_height
    ok (
        (last_scanned_height_row, last_scanned_height)
        ∷ (birthday_height_row, birthday_height)
        ∷ (last_spend_height_row, last_spend_height)
        ∷ [])

  unfoldable pub try_persist : B → ScanState → (B × ScanState) × Result PersistError (Unit {0})
  try_persist b s =
      let ((b', hashes), flushed) = flush backend codec b s.block_hashes in
      let s' = record s { block_hashes = hashes } in
      elim flushed [
        | err e ↦ ((b', s'), err e)
        | ok u ↦ elim (scalar_rows s') [
          | err e ↦ ((b', s'), err e)
          | ok rows ↦
              let (b'', written) = flush_batch backend b' account_store_key rows [] in
              ((b'', s'), written)
        ]
      ]

-- The entries from the highest key down, the order of `iter().rev()`.
abbrev pub rev {ℓ} : {A : Type ℓ} → List A → List A
rev [] = []
rev (x ∷ xs) = rev xs ++ (x ∷ [])

abbrev pub next_back {ℓ} : {A : Type ℓ} → List A → Option A
next_back [] = none
next_back (x ∷ xs) = some x

unfoldable pub last_block_hash : ScanState → Option Bytes
unfolding values
last_block_hash s = next_back (rev (values s.block_hashes))

-- Is the height past the frontier?
abbrev pub past : ℕ → Option ℕ → Bool
past height none = true
past height (some h) = ltb h height

unfoldable pub advance_spend_frontier : ScanState → ℕ → ScanState
advance_spend_frontier s height =
    if past height s.last_spend_height then record s { last_spend_height = some height } else s

abbrev pub remove_all : List ℕ → RamStore ℕ Bytes → RamStore ℕ Bytes
remove_all [] hashes = hashes
remove_all (h ∷ hs) hashes = remove_all hs (store_remove hashes h).0

unfoldable pub drop_block_hashes : (ℕ → Bool) → RamStore ℕ Bytes → RamStore ℕ Bytes
unfolding keys
drop_block_hashes drop hashes = remove_all (select_by drop (keys hashes)) hashes

unfoldable pub clear_progress : ScanState → ScanState
clear_progress s = record s {
  last_scanned_height = none;
  block_hashes = drop_block_hashes (λ h. true) s.block_hashes;
  last_spend_height = none;
}

unfoldable pub advance_frontier : ScanState → ℕ → Bytes → ScanState
advance_frontier s height block_hash =
    if past height s.last_scanned_height
    then record s {
      last_scanned_height = some height;
      block_hashes =
          let floor = saturating_sub (add32 height 1) reorg_depth in
          drop_block_hashes (λ h. ltb h floor) (store_insert s.block_hashes height block_hash).0;
    }
    else s

unfoldable pub roll_back : ScanState → ℕ → ScanState
roll_back s fork_height = record s {
  last_scanned_height = some fork_height;
  last_spend_height = Option.map (λ h. min h fork_height) s.last_spend_height;
  block_hashes = drop_block_hashes (λ h. ltb fork_height h) s.block_hashes;
}

unfoldable pub set_last_scanned_height : ScanState → ℕ → ScanState
set_last_scanned_height s height =
    if past height s.last_scanned_height then record s { last_scanned_height = some height } else s

unfoldable pub next_scan_start : ScanState → ℕ
next_scan_start s = get_or (Option.map (λ h. add32 h 1) s.last_scanned_height) s.birthday_height

unfoldable pub next_spend_start : ScanState → ℕ
next_spend_start s = get_or (Option.map (λ h. add32 h 1) s.last_spend_height) s.birthday_height

-- The errors of the scan that stand here: the chain cannot be read, or no kept hash matches it.
pub data ScanError : Type 0 where
  unreadable : Text → ScanError
  reorg_too_deep : ℕ → ScanError

-- What a scan reads of the chain: a height as a valid block height, and the hash of its block.
pub record Chain : Type 0 where
  pub from_consensus : ℕ → Result ScanError ℕ
  pub block_hash : ℕ → Result ScanError Bytes

-- The loop of `find_fork`, from the highest kept height down.
unfoldable pub find_fork_from : Chain → ℕ → List (ℕ × Bytes) → Result ScanError (Option ℕ)
find_fork_from chain depth [] = err (reorg_too_deep (reorg_depth - 1))
find_fork_from chain depth ((height, hash) ∷ scanned) = do
  at ← chain.from_consensus height
  block ← chain.block_hash at
  elim (key_eq block hash) [
    | true ↦ ok (if ltb 0 depth then some height else none)
    | false ↦ find_fork_from chain (depth + 1) scanned
  ]

unfoldable pub find_fork : Chain → List (ℕ × Bytes) → Result ScanError (Option ℕ)
unfolding find_fork_from
find_fork chain [] = ok none
find_fork chain (entry ∷ scanned) = find_fork_from chain 0 (rev (entry ∷ scanned))
