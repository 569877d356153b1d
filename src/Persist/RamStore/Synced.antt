-- ===== src/Persist/RamStore/Synced.antt =====
-- What a `RamStore` and the rows of its backend agree on between two flushes.
use bwk.Common.{Option, none, some, ◌≡◌, ◌≢◌, arith, ok, Option-cases, inl, inr}
use bwk.Common.OrdMap.{Ord, lookup, lookup-insert, lookup-remove}
use bwk.Common.Text.{text_ord}
use bwk.Persist.Backend.{Bytes, PersistenceBackend}
use bwk.Persist.Backend.Flush.{RowLaws}
use bwk.Persist.RamStore.{RamStore, Codec, store_insert, store_remove, modify}

module _ {K V B : Type 0} ⦃o : Ord K⦄ (codec : Codec K V) {backend : PersistenceBackend B}
    (laws : RowLaws backend) where
  -- A row is the encoding of what the cache holds.
  abbrev pub Holds : Option V → Option Bytes → Type 0
  Holds none r = r ≡ none
  Holds (some v) r = (bytes : Bytes) × (codec.encode_v v ≡ ok bytes) × (r ≡ some bytes)

  abbrev pub row_of : B → RamStore K V → K → Option Bytes
  row_of b s k = laws.row b s.store_key (codec.encode_k k)

  -- Outside the two sets the rows are the cache; a dirty key is cached, a removed one is not.
  pub record Synced (b : B) (s : RamStore K V) : Type 0 where
    pub clean :
        (k : K)
        → lookup k s.dirty ≡ none
        → lookup k s.removed ≡ none
        → Holds (lookup k s.cache) (row_of b s k)
    pub pending : (k : K) → lookup k s.dirty ≢ none → lookup k s.cache ≢ none
    pub dropped : (k : K) → lookup k s.removed ≢ none → lookup k s.cache ≡ none

  module _ (b : B) (s : RamStore K V) (h : Synced b s) where
    -- `insert` keeps the agreement: the key is dirty until the next flush.
    pub store_insert-Synced : (k : K) (v : V) → Synced b (store_insert s k v).0
    unfolding store_insert
    store_insert-Synced k v = record {
      clean = λ j d r. ground (
        arith,
        lookup-insert k j tt s.dirty,
        lookup-insert k j v s.cache,
        lookup-remove k j s.removed,
        h.clean j,
      );
      pending = λ j d e.
          ground (arith, lookup-insert k j tt s.dirty, lookup-insert k j v s.cache, h.pending j);
      dropped = λ j r.
          ground (arith, lookup-insert k j v s.cache, lookup-remove k j s.removed, h.dropped j);
    }

    pub store_remove-Synced : (k : K) → Synced b (store_remove s k).0
    unfolding store_remove
    store_remove-Synced k = elim (Option-cases (lookup k s.cache)) [
      | inl absent ↦
          rw (absent, store_remove)
            (record {
              clean = λ j d r. ground (
                arith,
                lookup-remove k j s.dirty,
                lookup-remove k j s.cache,
                h.clean j,
                h.pending j,
                o.cmp-eq j k,
              );
              pending = λ j d e.
                  ground (arith, lookup-remove k j s.dirty, lookup-remove k j s.cache, h.pending j);
              dropped = λ j r. ground (arith, lookup-remove k j s.cache, h.dropped j);
            })
      | inr (v, present) ↦
          rw (present, store_remove)
            (record {
              clean = λ j d r. ground (
                arith,
                lookup-remove k j s.dirty,
                lookup-insert k j tt s.removed,
                lookup-remove k j s.cache,
                h.clean j,
              );
              pending = λ j d e.
                  ground (arith, lookup-remove k j s.dirty, lookup-remove k j s.cache, h.pending j);
              dropped = λ j r.
                  ground
                    (arith, lookup-remove k j s.cache, lookup-insert k j tt s.removed, h.dropped j);
            })
    ]

    pub modify-Synced : (k : K) (f : V → V) → Synced b (modify s k f).0
    unfolding modify store_insert
    modify-Synced k f = elim (Option-cases (lookup k s.cache)) [
      | inl absent ↦ rw (absent, modify) h
      | inr (v, present) ↦ rw (present, modify) (store_insert-Synced k (f v))
    ]
