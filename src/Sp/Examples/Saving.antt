-- ===== src/Sp/Examples/Saving.antt =====
-- A `ScanState` saved to the backend in memory, and the lemma on its restart.
use bwk.Common.{
  ℕ, Option, none, some, List, [], ◌∷◌, ◌≡◌, ◌≢◌, refl, arith, Result, ok, err, Bool-cases, inl,
  inr,
}
use bwk.Common.OrdMap.{nat_ord, key_eq, lookup, insert, remove}
use bwk.Common.Text.{Text, text_ord}
use bwk.Persist.Types.{PersistError, serde, account_store_key, block_hashes_store_key}
use bwk.Persist.Backend.{Bytes, validate_store_name, delete_all, put_all, flush_batch}
use bwk.Persist.Memory.{Memory, memory, memory_laws}
use bwk.Persist.RamStore.{RamStore, Codec, store_insert, flush, dirty_rows, removed_rows}
use bwk.Persist.RamStore.Synced.{Synced, store_insert-Synced}
use bwk.Persist.RamStore.Restart.{Inverse}
use bwk.Sp.ScanState.{
  ScanState, Json, load_from_backend, try_persist, scalar_rows, last_scanned_height_row,
  birthday_height_row, last_spend_height_row,
}
use bwk.Sp.ScanState.Window.{kept}
use bwk.Sp.ScanState.Restart.{JsonInverse, load_from_backend-try_persist}

abbrev single : List ℕ → Result PersistError ℕ
single (n ∷ []) = ok n
single _ = err (serde [])

-- A height is written as one character, a hash as it is.
abbrev hashes : Codec ℕ Bytes
hashes = record {
  encode_k = λ k. k ∷ [];
  decode_k = single;
  encode_v = λ v. ok v;
  decode_v = λ v. ok v;
}

hash-value : (v bytes : Bytes) → hashes.encode_v v ≡ ok bytes → hashes.decode_v bytes ≡ ok v
hash-value v bytes e = ground arith

abbrev hashes_inverse : Inverse hashes
hashes_inverse = record { key = λ k. refl; value = hash-value }

abbrev number : Json ℕ
number = record { to_vec = λ n. ok (n ∷ []); from_slice = single }

abbrev optional : List ℕ → Result PersistError (Option ℕ)
optional [] = ok none
optional (n ∷ bytes) = ok (some n)

abbrev number_option_to_vec : Option ℕ → Result PersistError Bytes
number_option_to_vec none = ok []
number_option_to_vec (some n) = ok (n ∷ [])

abbrev number_option : Json (Option ℕ)
number_option = record { to_vec = number_option_to_vec; from_slice = optional }

number-Inverse : JsonInverse number
number-Inverse n bytes e = ground arith

number_option-Inverse : JsonInverse number_option
number_option-Inverse none bytes e = ground arith
number_option-Inverse (some n) bytes e = ground arith

abbrev no_rows : Memory
no_rows = λ store. ([], tt)

abbrev no_hashes : RamStore ℕ Bytes
no_hashes = record { cache = []; dirty = []; removed = []; store_key = block_hashes_store_key }

abbrev stopped : ScanState
stopped = record {
  last_scanned_height = some 100;
  block_hashes = (store_insert no_hashes 100 (7 ∷ [])).0;
  last_spend_height = none;
  birthday_height = 90;
}

no_hashes-Synced : Synced hashes memory_laws no_rows no_hashes
unfolding lookup
no_hashes-Synced = record {
  clean = λ k d r. refl;
  pending = λ k d e. d refl;
  dropped = λ k r. refl;
}

stopped-Synced : Synced hashes memory_laws no_rows stopped.block_hashes
stopped-Synced =
    store_insert-Synced hashes memory_laws no_rows no_hashes no_hashes-Synced 100 (7 ∷ [])

abbrev persisted : (Memory × ScanState) × Result PersistError (Unit {0})
persisted = try_persist memory hashes number number_option no_rows stopped

saving : Unit {0}
unfolding store_insert lookup insert remove try_persist scalar_rows flush flush_batch
    validate_store_name delete_all put_all dirty_rows removed_rows
saving = tt

stopped-key : stopped.block_hashes.store_key ≡ block_hashes_store_key
unfolding saving
stopped-key = refl

persisted-pair : persisted ≡ ((persisted.0.0, persisted.0.1), ok tt)
unfolding saving
persisted-pair = refl

encoded_rows :
    (key : Text)
    → lookup key (persisted.0.0 block_hashes_store_key).0 ≢ none
    → (h : ℕ) × (hashes.encode_k h ≡ key)
unfolding saving
encoded_rows key present = elim (Bool-cases (key_eq key (100 ∷ []))) [
  | inl hit ↦ (100, ground (arith, text_ord.cmp-eq key (100 ∷ [])))
  | inr miss ↦ absurd (present (ground arith))
]

load_from_backend-try_persist_example :
    (t : ScanState) × (load_from_backend memory hashes number number_option 0 persisted.0.0 ≡ ok t)
    × (t.last_scanned_height ≡ stopped.last_scanned_height)
    × (t.birthday_height ≡ stopped.birthday_height)
    × (t.last_spend_height ≡ stopped.last_spend_height)
    × ((h : ℕ) → kept t h ≡ kept stopped h)
load_from_backend-try_persist_example =
    load_from_backend-try_persist memory_laws hashes number number_option number-Inverse
      number_option-Inverse hashes_inverse no_rows persisted.0.0 stopped persisted.0.1 0
      (lookup last_scanned_height_row (persisted.0.0 account_store_key).0)
      (lookup birthday_height_row (persisted.0.0 account_store_key).0)
      (lookup last_spend_height_row (persisted.0.0 account_store_key).0)
      (persisted.0.0 block_hashes_store_key).0 stopped-Synced stopped-key persisted-pair
      encoded_rows refl refl refl refl
