-- ===== src/Persist/RamStore.antt =====
-- `RamStore` of persist/src/storage/ram.rs: a cache of the rows of one store, written back on
-- `flush`. The backend's state is passed beside the store. The two `HashSet`s are maps to `Unit`,
-- walked in the order of the keys, where a `HashSet` promises none.
pub mod Synced
pub mod Flushed
pub mod Edits
pub mod Restart
pub mod Cached
use bwk.Common.{
  ℕ, Bool, true, false, Option, none, some, List, [], ◌∷◌, ◌++◌, map, ◌&&◌, length, is_empty,
  if◌then◌else◌, Result, ok, err, ◌>>=◌,
}
use bwk.Common.OrdMap.{Ord, lookup, insert, remove}
use bwk.Common.Text.{Text}
use bwk.Persist.Types.{PersistError}
use bwk.Persist.Backend.{Bytes, Written, PersistenceBackend, flush_batch}

abbrev pub HashSet : Type 0 → Type 0
HashSet K = List (K × Unit {0})

pub record RamStore (K V : Type 0) : Type 0 where
  pub cache : List (K × V)
  pub dirty : HashSet K
  pub removed : HashSet K
  pub store_key : Text

-- The encoders and decoders of keys and values.
pub record Codec (K V : Type 0) : Type 0 where
  pub encode_k : K → Text
  pub decode_k : Text → Result PersistError K
  pub encode_v : V → Result PersistError Bytes
  pub decode_v : Bytes → Result PersistError V

abbrev pub is_some {ℓ} : {A : Type ℓ} → Option A → Bool
is_some none = false
is_some (some a) = true

module _ {K V : Type 0} ⦃o : Ord K⦄ where
  unfoldable pub empty : Text → RamStore K V
  empty store_key = record { cache = []; dirty = []; removed = []; store_key = store_key }

  -- The loop of `open` over the rows.
  unfoldable pub load_rows :
      Codec K V → List (Text × Bytes) → List (K × V) → Result PersistError (List (K × V))
  load_rows codec [] cache = ok cache
  load_rows codec ((key, bytes) ∷ rows) cache = do
    k ← codec.decode_k key
    v ← codec.decode_v bytes
    load_rows codec rows (insert k v cache)

  unfoldable pub open_store :
      {B : Type 0}
      → PersistenceBackend B
      → Codec K V
      → B
      → Text
      → Result PersistError (RamStore K V)
  unfolding load_rows
  open_store backend codec b store_key = do
    rows ← backend.get_rows b store_key
    cache ← load_rows codec rows []
    ok (record { cache = cache; dirty = []; removed = []; store_key = store_key })

  unfoldable pub get : RamStore K V → K → Option V
  get s k = lookup k s.cache

  unfoldable pub contains_key : RamStore K V → K → Bool
  contains_key s k = is_some (lookup k s.cache)

  unfoldable pub len : RamStore K V → ℕ
  len s = length s.cache

  unfoldable pub keys : RamStore K V → List K
  keys s = map (λ e. e.0) s.cache

  unfoldable pub values : RamStore K V → List V
  values s = map (λ e. e.1) s.cache

  -- Mark a key as written.
  abbrev mark_dirty : K → RamStore K V → RamStore K V
  mark_dirty k s = record s { removed = remove k s.removed; dirty = insert k tt s.dirty }

  unfoldable pub store_insert : RamStore K V → K → V → RamStore K V × Option V
  store_insert s k v = (record (mark_dirty k s) { cache = insert k v s.cache }, lookup k s.cache)

  unfoldable pub store_remove : RamStore K V → K → RamStore K V × Option V
  store_remove s k =
      let s' = record s { dirty = remove k s.dirty; cache = remove k s.cache } in
      elim (lookup k s.cache) [
        | none ↦ (s', none)
        | some prev ↦ (record s' { removed = insert k tt s'.removed }, some prev)
      ]

  unfoldable pub modify : RamStore K V → K → (V → V) → RamStore K V × Bool
  modify s k f = elim (lookup k s.cache) [
    | none ↦ (s, false)
    | some v ↦ (record (mark_dirty k s) { cache = insert k (f v) s.cache }, true)
  ]

  -- The rows of the dirty keys; a key that is not cached is passed over.
  unfoldable pub dirty_rows :
      Codec K V → HashSet K → List (K × V) → Result PersistError (List (Text × Bytes))
  dirty_rows codec [] cache = ok []
  dirty_rows codec ((k, u) ∷ dirty) cache = elim (lookup k cache) [
    | none ↦ dirty_rows codec dirty cache
    | some v ↦ do
      bytes ← codec.encode_v v
      rows ← dirty_rows codec dirty cache
      ok ((codec.encode_k k, bytes) ∷ rows)
  ]

  unfoldable pub removed_rows : Codec K V → HashSet K → List Text
  removed_rows codec removed = map (λ e. codec.encode_k e.0) removed

  abbrev cleared :
      {B : Type 0} → RamStore K V → Written B → (B × RamStore K V) × Result PersistError (Unit {0})
  cleared s (b, ok u) = ((b, record s { dirty = []; removed = [] }), ok tt)
  cleared s (b, err e) = ((b, s), err e)

  unfoldable pub flush :
      {B : Type 0}
      → PersistenceBackend B
      → Codec K V
      → B
      → RamStore K V
      → (B × RamStore K V) × Result PersistError (Unit {0})
  unfolding dirty_rows removed_rows
  flush backend codec b s =
      if is_empty s.dirty && is_empty s.removed
      then ((b, s), ok tt)
      else elim (dirty_rows codec s.dirty s.cache) [
        | err e ↦ ((b, s), err e)
        | ok inserts ↦
            cleared s (flush_batch backend b s.store_key inserts (removed_rows codec s.removed))
      ]
