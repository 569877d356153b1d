-- ===== src/Persist/RamStore/Edits.antt =====
-- Sequences of edits of a `RamStore` between two flushes, after the writing methods of
-- persist/src/storage/ram.rs.
use bwk.Common.{List, [], ◌∷◌}
use bwk.Common.OrdMap.{Ord}
use bwk.Persist.Backend.{PersistenceBackend}
use bwk.Persist.Backend.Flush.{RowLaws}
use bwk.Persist.RamStore.{RamStore, Codec, store_insert, store_remove, modify}
use bwk.Persist.RamStore.Synced.{Synced, store_insert-Synced, store_remove-Synced, modify-Synced}

-- A call that changes the store.
pub data Edit (K V : Type 0) : Type 0 where
  inserting : K → V → Edit K V
  removing : K → Edit K V
  modifying : K → (V → V) → Edit K V

module _ {K V : Type 0} ⦃o : Ord K⦄ where
  abbrev pub edit : Edit K V → RamStore K V → RamStore K V
  edit (inserting k v) s = (store_insert s k v).0
  edit (removing k) s = (store_remove s k).0
  edit (modifying k f) s = (modify s k f).0

  abbrev pub edit_all : List (Edit K V) → RamStore K V → RamStore K V
  edit_all [] s = s
  edit_all (e ∷ es) s = edit_all es (edit e s)

  module _ {B : Type 0} (codec : Codec K V) {backend : PersistenceBackend B}
      (laws : RowLaws backend) (b : B) where
    edit-Synced :
        (e : Edit K V) (s : RamStore K V) → Synced codec laws b s → Synced codec laws b (edit e s)
    edit-Synced (inserting k v) s h = store_insert-Synced codec laws b s h k v
    edit-Synced (removing k) s h = store_remove-Synced codec laws b s h k
    edit-Synced (modifying k f) s h = modify-Synced codec laws b s h k f

    -- Any sequence of inserts, removals and modifications keeps the store and its rows in agreement:
    -- a key in neither set has the row of its cached value, a dirty key is cached, a removed one is not.
    pub edit_all-Synced :
        (es : List (Edit K V)) (s : RamStore K V)
        → Synced codec laws b s
        → Synced codec laws b (edit_all es s)
    edit_all-Synced [] s h = h
    edit_all-Synced (e ∷ es) s h = edit_all-Synced es (edit e s) (edit-Synced e s h)
