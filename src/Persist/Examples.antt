-- ===== src/Persist/Examples.antt =====
-- The lemmas of the cached store on a run over the backend in memory.
use bwk.Common.{
  ℕ, ◌+◌, none, List, [], ◌∷◌, ◌≡◌, refl, ◌≢◌, arith, Result, ok, err, Bool-cases, inl, inr,
}
use bwk.Common.OrdMap.{key_eq, lookup, insert, remove, nat_ord}
use bwk.Common.Text.{Text, text_ord, codes}
use bwk.Persist.Types.{PersistError, serde}
use bwk.Persist.Backend.{Bytes, validate_store_name, delete_all, put_all, flush_batch}
use bwk.Persist.Memory.{Memory, memory, memory_laws}
use bwk.Persist.RamStore.{
  RamStore, Codec, open_store, flush, get, store_insert, store_remove, modify, dirty_rows,
  removed_rows,
}
use bwk.Persist.RamStore.Synced.{Holds, Synced, row_of}
use bwk.Persist.RamStore.Edits.{Edit, inserting, removing, modifying, edit_all, edit_all-Synced}
use bwk.Persist.RamStore.Flushed.{flush-Holds}
use bwk.Persist.RamStore.Restart.{Inverse, open_store-flush, one_key}

abbrev single : List ℕ → Result PersistError ℕ
single (n ∷ []) = ok n
single _ = err (serde [])

-- A number is written as one character or byte.
abbrev numbers : Codec ℕ ℕ
numbers = record {
  encode_k = λ k. k ∷ [];
  decode_k = single;
  encode_v = λ v. ok (v ∷ []);
  decode_v = single;
}

single-value : (v : ℕ) (bytes : Bytes) → numbers.encode_v v ≡ ok bytes → single bytes ≡ ok v
single-value v bytes e = ground arith

abbrev numbers_inverse : Inverse numbers
numbers_inverse = record { key = λ k. refl; value = single-value }

abbrev no_rows : Memory
no_rows = λ store. ([], tt)

abbrev fresh : RamStore ℕ ℕ
fresh = record { cache = []; dirty = []; removed = []; store_key = codes "statuses" }

abbrev edits : List (Edit ℕ ℕ)
edits = inserting 1 10 ∷ inserting 2 20 ∷ modifying 2 (λ v. v + 1) ∷ removing 1 ∷ []

abbrev edited : RamStore ℕ ℕ
edited = edit_all edits fresh

abbrev flushed : (Memory × RamStore ℕ ℕ) × Result PersistError (Unit {0})
flushed = flush memory numbers no_rows edited

fresh-Synced : Synced numbers memory_laws no_rows fresh
unfolding lookup
fresh-Synced = record { clean = λ k d r. refl; pending = λ k d e. d refl; dropped = λ k r. refl }

edited-Synced : Synced numbers memory_laws no_rows edited
edited-Synced = edit_all-Synced numbers memory_laws no_rows edits fresh fresh-Synced

edit_all-Synced_example : Synced numbers memory_laws no_rows edited
edit_all-Synced_example = edit_all-Synced numbers memory_laws no_rows edits fresh fresh-Synced

-- The run of the flush on `edited` succeeds.
program : Unit {0}
unfolding store_insert store_remove modify lookup insert remove flush flush_batch
    validate_store_name delete_all put_all dirty_rows removed_rows
program = tt

flushed-ok : flushed.1 ≡ ok tt
unfolding program
flushed-ok = refl

flushed-rows : (flushed.0.0 (codes "statuses")).0 ≡ (2 ∷ [], 21 ∷ []) ∷ []
unfolding program
flushed-rows = refl

flushed-pair : flushed ≡ ((flushed.0.0, flushed.0.1), ok tt)
unfolding program
flushed-pair = refl

flush-Holds_example :
    (flushed.0.1.cache ≡ edited.cache)
    × (flushed.0.1.dirty ≡ [])
    × (flushed.0.1.removed ≡ [])
    × ((k : ℕ)
        → Holds numbers memory_laws
            (lookup k edited.cache)
            (row_of numbers memory_laws flushed.0.0 edited k))
flush-Holds_example =
    flush-Holds numbers memory_laws (one_key numbers numbers_inverse) no_rows flushed.0.0 edited
      flushed.0.1 edited-Synced flushed-pair

named_rows :
    (key : Text) → lookup key (flushed.0.0 (codes "statuses")).0 ≢ none → (k : ℕ) × ((k ∷ []) ≡ key)
unfolding program lookup
named_rows key present = elim (Bool-cases (key_eq key (2 ∷ []))) [
  | inl hit ↦ (2, ground (arith, text_ord.cmp-eq key (2 ∷ [])))
  | inr miss ↦ absurd (present (ground arith))
]

open_store-flush_example :
    (opened : RamStore ℕ ℕ) × (open_store memory numbers flushed.0.0 edited.store_key ≡ ok opened)
    × ((k : ℕ) → get opened k ≡ get edited k)
unfolding store_insert store_remove modify lookup insert
open_store-flush_example =
    open_store-flush numbers numbers_inverse memory_laws no_rows flushed.0.0 edited flushed.0.1
      (flushed.0.0 (codes "statuses")).0 edited-Synced flushed-pair named_rows refl
