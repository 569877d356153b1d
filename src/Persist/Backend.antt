-- ===== src/Persist/Backend.antt =====
-- The trait `PersistenceBackend` of persist/src/backend/mod.rs, with its default methods
-- `validate_store_name` and `flush_batch`. A backend is its state and the operations on it; a write
-- returns the new state, also where it fails.
pub mod Flush
use bwk.Common.{
  ℕ, Bool, true, false, Option, none, some, List, [], ◌∷◌, any, if◌then◌else◌, Result, ok, err,
}
use bwk.Common.OrdMap.{key_eq}
use bwk.Common.Text.{Text, text_ord}
use bwk.Persist.Types.{PersistError, unknown_store, known_stores}

abbrev pub Bytes : Type 0
Bytes = List ℕ

-- The result of a write.
abbrev pub Written : Type 0 → Type 0
Written B = B × Result PersistError (Unit {0})

pub record PersistenceBackend (B : Type 0) : Type 0 where
  pub get_row : B → Text → Text → Result PersistError (Option Bytes)
  pub get_rows : B → Text → Result PersistError (List (Text × Bytes))
  pub put_row : B → Text → Text → Bytes → Written B
  pub delete_row : B → Text → Text → Written B

unfoldable pub validate_store_name : Text → Result PersistError (Unit {0})
validate_store_name store =
    if any (λ known. key_eq known store) known_stores then ok tt else err (unknown_store store)

module _ {B : Type 0} where
  -- `?` between two writes.
  abbrev pub and_then : Written B → (B → Written B) → Written B
  and_then (b, ok u) next = next b
  and_then (b, err e) next = (b, err e)

  module _ (backend : PersistenceBackend B) where
    unfoldable pub delete_all : B → Text → List Text → Written B
    delete_all b store [] = (b, ok tt)
    delete_all b store (key ∷ keys) =
        and_then (backend.delete_row b store key) (λ b'. delete_all b' store keys)

    unfoldable pub put_all : B → Text → List (Text × Bytes) → Written B
    put_all b store [] = (b, ok tt)
    put_all b store ((key, bytes) ∷ rows) =
        and_then (backend.put_row b store key bytes) (λ b'. put_all b' store rows)

    unfoldable pub flush_batch : B → Text → List (Text × Bytes) → List Text → Written B
    unfolding validate_store_name delete_all put_all
    flush_batch b store inserts removed = elim (validate_store_name store) [
      | err e ↦ (b, err e)
      | ok u ↦ and_then (delete_all b store removed) (λ b'. put_all b' store inserts)
    ]
