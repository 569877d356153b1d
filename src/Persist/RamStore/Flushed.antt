-- ===== src/Persist/RamStore/Flushed.antt =====
-- A successful `flush` makes the rows of the backend those of the cache.
use bwk.Common.{
  true, false, Option, none, some, List, [], ◌∷◌, ◌≡◌, refl, ◌≢◌, arith, ok, Option-cases,
  Result-cases, ◌⊎◌, Bool-cases, inl, inr, is_empty, ◌&&◌, if◌then◌else◌,
}
use bwk.Common.OrdMap.{Ord, key_eq, lookup}
use bwk.Common.Text.{Text, text_ord}
use bwk.Persist.Backend.{Bytes, PersistenceBackend, flush_batch}
use bwk.Persist.Backend.Flush.{RowLaws, last_row, member, flush_batch-row}
use bwk.Persist.RamStore.{HashSet, RamStore, Codec, dirty_rows, removed_rows, flush, is_some}
use bwk.Persist.RamStore.Synced.{Holds, Synced, row_of}

module _ {K V B : Type 0} ⦃o : Ord K⦄ (codec : Codec K V) {backend : PersistenceBackend B}
    (laws : RowLaws backend)
    (one_key : (j k : K) → codec.encode_k j ≡ codec.encode_k k → j ≡ k) where
  key_eq-encode_k : (j k : K) → key_eq (codec.encode_k j) (codec.encode_k k) ≡ key_eq j k
  key_eq-encode_k j k = ground (
    arith,
    text_ord.cmp-eq (codec.encode_k j) (codec.encode_k k),
    one_key j k,
    o.cmp-eq j k,
    o.cmp-refl j,
    text_ord.cmp-refl (codec.encode_k j),
  )

  member-removed_rows :
      (k : K) (removed : HashSet K)
      → member (codec.encode_k k) (removed_rows codec removed) ≡ is_some (lookup k removed)
  unfolding removed_rows lookup
  member-removed_rows k [] = refl
  member-removed_rows k ((j, u) ∷ removed) =
      ground (arith, key_eq-encode_k k j, member-removed_rows k removed)

  -- The rows of the batch say nothing of a key that is not dirty.
  last_row-clean :
      (k : K) (dirty : HashSet K) (cache : List (K × V)) (rows : List (Text × Bytes))
      (old : Option Bytes)
      → dirty_rows codec dirty cache ≡ ok rows
      → lookup k dirty ≡ none
      → last_row (codec.encode_k k) rows old ≡ old
  unfolding dirty_rows lookup
  last_row-clean k [] cache rows old e d = let same : rows ≡ [] = ground arith in rw same
  last_row-clean k ((j, u) ∷ dirty) cache rows old e d = elim (Option-cases (lookup j cache)) [
    | inl absent ↦
        last_row-clean k dirty cache rows old (rw (absent, dirty_rows) at e) (ground arith)
    | inr (v, present) ↦ elim (Result-cases (codec.encode_v v)) [
      | inr (x, failed) ↦ absurd (ground arith)
      | inl (bytes, encoded) ↦ elim (Result-cases (dirty_rows codec dirty cache)) [
        | inr (x, failed) ↦ absurd (ground arith)
        | inl (rest, later) ↦
            let split : rows ≡ (codec.encode_k j, bytes) ∷ rest = ground arith in
            let other : key_eq (codec.encode_k k) (codec.encode_k j) ≡ false =
              ground (arith, key_eq-encode_k k j) in
            rw (split, other) (last_row-clean k dirty cache rest old later (ground arith))
      ]
    ]
  ]

  -- The last row of a dirty key is the encoding of its value.
  last_row-dirty :
      (k : K) (dirty : HashSet K) (cache : List (K × V)) (rows : List (Text × Bytes))
      (old : Option Bytes) (v : V)
      → dirty_rows codec dirty cache ≡ ok rows
      → lookup k dirty ≢ none
      → lookup k cache ≡ some v
      → Holds codec laws (some v) (last_row (codec.encode_k k) rows old)
  unfolding dirty_rows lookup
  last_row-dirty k [] cache rows old v e d c = absurd (d refl)
  last_row-dirty k ((j, u) ∷ dirty) cache rows old v e d c = elim (Option-cases (lookup j cache)) [
    | inl absent ↦
        last_row-dirty k dirty cache rows old v (rw (absent, dirty_rows) at e)
          (λ n. ground (arith, o.cmp-eq k j)) c
    | inr (w, present) ↦ elim (Result-cases (codec.encode_v w)) [
      | inr (x, failed) ↦ absurd (ground arith)
      | inl (bytes, encoded) ↦ elim (Result-cases (dirty_rows codec dirty cache)) [
        | inr (x, failed) ↦ absurd (ground arith)
        | inl (rest, later) ↦
            let split : rows ≡ (codec.encode_k j, bytes) ∷ rest = ground arith in
            rw split (elim (Option-cases (lookup k dirty)) [
              | inl again ↦
                  let same : key_eq k j ≡ true = ground arith in
                  let found : key_eq (codec.encode_k k) (codec.encode_k j) ≡ true =
                    rw (key_eq-encode_k k j) same in
                  let value : w ≡ v = ground (arith, o.cmp-eq k j) in
                  rw
                    (
                      last_row-clean k dirty cache rest
                          (if key_eq (codec.encode_k k) (codec.encode_k j) then some bytes else old)
                          later again,
                      found,
                    )
                    (bytes, rw value at encoded, refl)
              | inr (u', more) ↦
                  last_row-dirty k dirty cache rest
                    (if key_eq (codec.encode_k k) (codec.encode_k j) then some bytes else old) v
                    later (λ n. ground arith) c
            ])
      ]
    ]
  ]

  -- The batch of a flush turns every row into what the cache holds.
  batch-Holds :
      (b : B) (s : RamStore K V) (rows : List (Text × Bytes))
      → Synced codec laws b s
      → dirty_rows codec s.dirty s.cache ≡ ok rows
      → (k : K)
      → Holds codec laws (lookup k s.cache) (
          last_row (codec.encode_k k) rows (
            if member (codec.encode_k k) (removed_rows codec s.removed)
            then none
            else row_of codec laws b s k))
  batch-Holds b s rows h e k =
      let old =
        if member (codec.encode_k k) (removed_rows codec s.removed)
        then none
        else row_of codec laws b s k in
      elim (Option-cases (lookup k s.dirty)) [
        | inl untouched ↦
            rw (last_row-clean k s.dirty s.cache rows old e untouched)
              (elim (Option-cases (lookup k s.removed)) [
                | inl kept ↦ rw (member-removed_rows k s.removed, kept) (h.clean k untouched kept)
                | inr (u, gone) ↦
                    let absent : lookup k s.cache ≡ none = h.dropped k (λ n. ground arith) in
                    rw (absent, member-removed_rows k s.removed, gone) refl
              ])
        | inr (u, touched) ↦ elim (Option-cases (lookup k s.cache)) [
          | inl absent ↦ absurd (h.pending k (λ n. ground arith) absent)
          | inr (v, present) ↦
              rw present (last_row-dirty k s.dirty s.cache rows old v e (λ n. ground arith) present)
        ]
      ]

  -- `flush` succeeds with nothing to write, or by its batch.
  flush-cases :
      (b b' : B) (s s' : RamStore K V)
      → flush backend codec b s ≡ ((b', s'), ok tt)
      → ((s.dirty ≡ []) × (s.removed ≡ []) × (b' ≡ b) × (s' ≡ s))
        ⊎ ((rows : List (Text × Bytes)) × (dirty_rows codec s.dirty s.cache ≡ ok rows)
            × ((flush_batch backend b s.store_key rows (removed_rows codec s.removed)).1 ≡ ok tt)
            × (b' ≡ (flush_batch backend b s.store_key rows (removed_rows codec s.removed)).0)
            × (s' ≡ record s { dirty = []; removed = [] }))
  unfolding flush
  flush-cases b b' s s' e = elim (Bool-cases (is_empty s.dirty && is_empty s.removed)) [
    | inl idle ↦ inl (ground arith, ground arith, ground arith, ground arith)
    | inr busy ↦ elim (Result-cases (dirty_rows codec s.dirty s.cache)) [
      | inr (x, failed) ↦ absurd (ground arith)
      | inl (rows, encoded) ↦
          let batch = flush_batch backend b s.store_key rows (removed_rows codec s.removed) in
          elim (Result-cases batch.1) [
            | inr (x, failed) ↦ absurd (ground arith)
            | inl (u, written) ↦ inr (rows, encoded, ground arith, ground arith, ground arith)
          ]
    ]
  ]

  -- Let a store agree with its rows and `flush` succeed on it. Then its cache is kept, no key is
  -- dirty or removed, and the row of every key is the encoding of its cached value, or absent where
  -- the key is not cached.
  pub flush-Holds :
      (b b' : B) (s s' : RamStore K V)
      → Synced codec laws b s
      → flush backend codec b s ≡ ((b', s'), ok tt)
      → (s'.cache ≡ s.cache)
        × (s'.dirty ≡ [])
        × (s'.removed ≡ [])
        × ((k : K) → Holds codec laws (lookup k s.cache) (row_of codec laws b' s k))
  unfolding lookup
  flush-Holds b b' s s' h e = elim (flush-cases b b' s s' e) [
    | inl (none_dirty, none_removed, same_b, same_s) ↦ (
      ground arith,
      ground arith,
      ground arith,
      λ k. rw same_b (h.clean k (ground arith) (ground arith)),
    )
    | inr (rows, encoded, written, same_b, same_s) ↦ (
      ground arith,
      ground arith,
      ground arith,
      λ k.
          rw
            (
              same_b,
              flush_batch-row backend laws s.store_key b rows (removed_rows codec s.removed) written
                  (codec.encode_k k),
            )
            (batch-Holds b s rows h encoded k),
    )
  ]
