-- ===== src/Sp/ScanState/Restart.antt =====
-- `load_from_backend` after `try_persist`, of sp/src/scan/state.rs: the next start of the program
-- resumes the scan where it stopped.
use bwk.Common.{
  ℕ, Option, none, some, List, [], ◌∷◌, ◌≡◌, ◌≢◌, refl, sym, ap, subst, ◌∙◌, arith, ok,
  Result-cases, inl, inr,
}
use bwk.Common.OrdMap.{nat_ord}
use bwk.Common.Text.{Text, text_ord}
use bwk.Persist.Types.{account_store_key, block_hashes_store_key}
use bwk.Persist.Backend.{Bytes, PersistenceBackend, flush_batch}
use bwk.Persist.Backend.Flush.{RowLaws, last_row, flush_batch-row, flush_batch-other}
use bwk.Persist.RamStore.{RamStore, Codec, flush, get}
use bwk.Persist.RamStore.Synced.{Synced, Holds, row_of}
use bwk.Persist.RamStore.Flushed.{flush-Holds}
use bwk.Persist.RamStore.Restart.{Inverse, one_key, open_store-Holds}
use bwk.Sp.ScanState.{
  ScanState, Json, load_from_backend, try_persist, scalar_rows, last_scanned_height_row,
  birthday_height_row, last_spend_height_row,
}
use bwk.Sp.ScanState.Window.{kept}

-- Reading is the inverse of writing.
abbrev pub JsonInverse : {A : Type 0} → Json A → Type 0
JsonInverse {A = A} json =
    (a : A) (bytes : Bytes) → json.to_vec a ≡ ok bytes → json.from_slice bytes ≡ ok a

module _ {B : Type 0} {backend : PersistenceBackend B} (laws : RowLaws backend)
    (codec : Codec ℕ Bytes) (json : Json ℕ) (json_option : Json (Option ℕ)) where
  scalar_rows-ok :
      (s : ScanState) (rows : List (Text × Bytes))
      → scalar_rows backend codec json json_option s ≡ ok rows
      → (scanned birthday spend : Bytes) × (json_option.to_vec s.last_scanned_height ≡ ok scanned)
        × (json.to_vec s.birthday_height ≡ ok birthday)
        × (json_option.to_vec s.last_spend_height ≡ ok spend)
        × (rows
            ≡ (last_scanned_height_row, scanned)
              ∷ (birthday_height_row, birthday)
              ∷ (last_spend_height_row, spend)
              ∷ [])
  unfolding scalar_rows
  scalar_rows-ok s rows e = elim (Result-cases (json_option.to_vec s.last_scanned_height)) [
    | inr (x, failed) ↦ absurd (ground arith)
    | inl (scanned, scanned_ok) ↦ elim (Result-cases (json.to_vec s.birthday_height)) [
      | inr (x, failed) ↦ absurd (ground arith)
      | inl (birthday, birthday_ok) ↦ elim (Result-cases (json_option.to_vec s.last_spend_height)) [
        | inr (x, failed) ↦ absurd (ground arith)
        | inl (spend, spend_ok) ↦
            (scanned, birthday, spend, scanned_ok, birthday_ok, spend_ok, ground arith)
      ]
    ]
  ]

  try_persist-ok :
      (b b' : B) (s s' : ScanState)
      → try_persist backend codec json json_option b s ≡ ((b', s'), ok tt)
      → (b1 : B) × (hashes : RamStore ℕ Bytes) × (rows : List (Text × Bytes)) × (flush backend codec
            b s.block_hashes
          ≡ ((b1, hashes), ok tt))
        × (scalar_rows backend codec json json_option s ≡ ok rows)
        × ((flush_batch backend b1 account_store_key rows []).1 ≡ ok tt)
        × (b' ≡ (flush_batch backend b1 account_store_key rows []).0)
  unfolding try_persist scalar_rows
  try_persist-ok b b' s s' e =
      let flushed = flush backend codec b s.block_hashes in
      elim (Result-cases flushed.1) [
        | inr (x, failed) ↦ absurd (ground arith)
        | inl (u, written) ↦ elim (Result-cases (scalar_rows backend codec json json_option s)) [
          | inr (x, failed) ↦ absurd (ground arith)
          | inl (rows, scalars) ↦
              (flushed.0.0, flushed.0.1, rows, ground arith, scalars, ground arith, ground arith)
        ]
      ]

  module _ (json_ok : JsonInverse json) (json_option_ok : JsonInverse json_option)
      (inverse : Inverse codec) where
    -- What the backend holds after a successful `try_persist`.
    Persisted : B → ScanState → Type 0
    Persisted b s =
        ((bytes : Bytes) × (laws.row b account_store_key last_scanned_height_row ≡ some bytes)
          × (json_option.from_slice bytes ≡ ok s.last_scanned_height))
        × ((bytes : Bytes) × (laws.row b account_store_key birthday_height_row ≡ some bytes)
            × (json.from_slice bytes ≡ ok s.birthday_height))
        × ((bytes : Bytes) × (laws.row b account_store_key last_spend_height_row ≡ some bytes)
            × (json_option.from_slice bytes ≡ ok s.last_spend_height))
        × ((h : ℕ)
            → Holds codec laws (kept s h) (laws.row b block_hashes_store_key (codec.encode_k h)))

    try_persist-Persisted :
        (b b' : B) (s s' : ScanState)
        → Synced codec laws b s.block_hashes
        → s.block_hashes.store_key ≡ block_hashes_store_key
        → try_persist backend codec json json_option b s ≡ ((b', s'), ok tt)
        → Persisted b' s
    unfolding Persisted
    try_persist-Persisted b b' s s' synced named e =
        let (b1, hashes, rows, flushed, scalars, written, same_b) = try_persist-ok b b' s s' e in
        let (scanned, birthday, spend, scanned_ok, birthday_ok, spend_ok, same_rows) =
          scalar_rows-ok s rows scalars in
        let (same_cache, clean, no_removed, holds) =
          flush-Holds codec laws (one_key codec inverse) b b1 s.block_hashes hashes synced
            flushed in
        let row = flush_batch-row backend laws account_store_key b1 rows [] written in
        let stored : (k : Text)
            → laws.row b' account_store_key k
              ≡ last_row k
                  ((last_scanned_height_row, scanned)
                    ∷ (birthday_height_row, birthday)
                    ∷ (last_spend_height_row, spend)
                    ∷ [])
                  (laws.row b1 account_store_key k) =
          λ k.
            ap (λ x. laws.row x account_store_key k) same_b
            ∙ row k
            ∙ ap (λ l. last_row k l (laws.row b1 account_store_key k)) same_rows in
        let hash_row : (h : ℕ)
            → laws.row b' block_hashes_store_key (codec.encode_k h)
              ≡ row_of codec laws b1 s.block_hashes h =
          λ h.
            ap (λ x. laws.row x block_hashes_store_key (codec.encode_k h)) same_b
            ∙ flush_batch-other backend laws account_store_key block_hashes_store_key
                (λ n. absurd (ground arith)) b1 rows [] written (codec.encode_k h)
            ∙ ap (λ x. laws.row b1 x (codec.encode_k h)) (sym named) in
        (
          (
            scanned,
            stored last_scanned_height_row,
            json_option_ok s.last_scanned_height scanned scanned_ok,
          ),
          (birthday, stored birthday_height_row, json_ok s.birthday_height birthday birthday_ok),
          (spend, stored last_spend_height_row, json_option_ok s.last_spend_height spend spend_ok),
          λ h. subst (λ r. Holds codec laws (kept s h) r) (sym (hash_row h)) (holds h),
        )

    -- Let `try_persist` succeed on a state whose hashes agree with their rows, let decoding invert
    -- encoding, let every row of the hashes have an encoded height, and let the rows be readable.
    -- Then `load_from_backend` succeeds, with both frontiers, the birthday and every kept hash.
    pub load_from_backend-try_persist :
        (b b' : B) (s s' : ScanState) (fallback : ℕ) (scanned birthday spend : Option Bytes)
        (rows : List (Text × Bytes))
        → Synced codec laws b s.block_hashes
        → s.block_hashes.store_key ≡ block_hashes_store_key
        → try_persist backend codec json json_option b s ≡ ((b', s'), ok tt)
        → ((key : Text)
            → laws.row b' block_hashes_store_key key ≢ none
            → (h : ℕ) × (codec.encode_k h ≡ key))
        → backend.get_row b' account_store_key last_scanned_height_row ≡ ok scanned
        → backend.get_row b' account_store_key birthday_height_row ≡ ok birthday
        → backend.get_row b' account_store_key last_spend_height_row ≡ ok spend
        → backend.get_rows b' block_hashes_store_key ≡ ok rows
        → (t : ScanState) × (load_from_backend backend codec json json_option fallback b' ≡ ok t)
          × (t.last_scanned_height ≡ s.last_scanned_height)
          × (t.birthday_height ≡ s.birthday_height)
          × (t.last_spend_height ≡ s.last_spend_height)
          × ((h : ℕ) → kept t h ≡ kept s h)
    unfolding load_from_backend Persisted get
    load_from_backend-try_persist b b' s s' fallback scanned birthday spend rows synced named e
          encoded read1 read2 read3 read4 =
        let ((x1, row1, from1), (x2, row2, from2), (x3, row3, from3), holds) =
          try_persist-Persisted b b' s s' synced named e in
        let store = record (s.block_hashes) { store_key = block_hashes_store_key } in
        let (opened, open_ok, same) =
          open_store-Holds codec inverse laws b' store rows holds encoded read4 in
        let some1 : scanned ≡ some x1 =
          laws.get_row-ok b' account_store_key last_scanned_height_row scanned read1 ∙ row1 in
        let some2 : birthday ≡ some x2 =
          laws.get_row-ok b' account_store_key birthday_height_row birthday read2 ∙ row2 in
        let some3 : spend ≡ some x3 =
          laws.get_row-ok b' account_store_key last_spend_height_row spend read3 ∙ row3 in
        (
          record {
            last_scanned_height = s.last_scanned_height;
            block_hashes = opened;
            last_spend_height = s.last_spend_height;
            birthday_height = s.birthday_height;
          },
          rw (read1, some1, from1, read2, some2, from2, read3, some3, from3, open_ok) refl,
          refl,
          refl,
          refl,
          same,
        )
