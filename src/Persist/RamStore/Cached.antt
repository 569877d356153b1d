-- ===== src/Persist/RamStore/Cached.antt =====
-- A flush leaves the cache, whatever it returns.
use bwk.Common.{◌≡◌, ◌&&◌, arith, Bool-cases, Result-cases, inl, inr, is_empty}
use bwk.Common.OrdMap.{Ord}
use bwk.Persist.Backend.{PersistenceBackend, flush_batch}
use bwk.Persist.RamStore.{RamStore, Codec, flush, dirty_rows, removed_rows}

module _ {K V B : Type 0} ⦃o : Ord K⦄ where
  pub cache-flush :
      (backend : PersistenceBackend B) (codec : Codec K V) (b : B) (s : RamStore K V)
      → (flush backend codec b s).0.1.cache ≡ s.cache
  unfolding flush
  cache-flush backend codec b s = elim (Bool-cases (is_empty s.dirty && is_empty s.removed)) [
    | inl clean ↦ ground arith
    | inr pending ↦ elim (Result-cases (dirty_rows codec s.dirty s.cache)) [
      | inr (e, failed) ↦ ground arith
      | inl (rows, encoded) ↦
          ground (arith, flush_batch backend b s.store_key rows (removed_rows codec s.removed))
    ]
  ]
