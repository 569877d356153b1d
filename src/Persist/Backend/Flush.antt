-- ===== src/Persist/Backend/Flush.antt =====
-- What a successful `flush_batch` leaves in a backend whose rows behave as a map.
use bwk.Common.{
  Bool, Option, none, some, List, [], ◌∷◌, ◌≡◌, ◌≢◌, refl, any, if◌then◌else◌, ok, err, arith,
  Result-cases, inl, inr, ◌∙◌, ap,
}
use bwk.Common.OrdMap.{key_eq, lookup}
use bwk.Common.Text.{Text, text_ord}
use bwk.Persist.Backend.{
  Bytes, Written, PersistenceBackend, and_then, validate_store_name, delete_all, put_all,
  flush_batch,
}

-- No key stands twice.
abbrev pub Distinct : List (Text × Bytes) → Type 0
Distinct [] = Unit
Distinct ((key, bytes) ∷ rows) = (lookup key rows ≡ none) × Distinct rows

-- The documented behaviour of the row operations, over what a store holds under a key.
pub record RowLaws {B : Type 0} (backend : PersistenceBackend B) : Type 0 where
  pub row : B → Text → Text → Option Bytes
  pub put_row-ok :
      (b : B) (store key : Text) (bytes : Bytes)
      → (backend.put_row b store key bytes).1 ≡ ok tt
      → (k : Text)
      → row (backend.put_row b store key bytes).0 store k
        ≡ (if key_eq k key then some bytes else row b store k)
  pub delete_row-ok :
      (b : B) (store key : Text)
      → (backend.delete_row b store key).1 ≡ ok tt
      → (k : Text)
      → row (backend.delete_row b store key).0 store k
        ≡ (if key_eq k key then none else row b store k)
  pub put_row-other :
      (b : B) (store key : Text) (bytes : Bytes) (other : Text)
      → other ≢ store
      → (k : Text) → row (backend.put_row b store key bytes).0 other k ≡ row b other k
  pub delete_row-other :
      (b : B) (store key : Text) (other : Text)
      → other ≢ store
      → (k : Text) → row (backend.delete_row b store key).0 other k ≡ row b other k
  pub get_row-ok :
      (b : B) (store key : Text) (r : Option Bytes)
      → backend.get_row b store key ≡ ok r
      → r ≡ row b store key
  pub get_rows-ok :
      (b : B) (store : Text) (rows : List (Text × Bytes))
      → backend.get_rows b store ≡ ok rows
      → Distinct rows × ((k : Text) → lookup k rows ≡ row b store k)

-- A sequence of two writes succeeds only by both.
pub and_then-ok :
    {B : Type 0} (w : Written B) (next : B → Written B)
    → (and_then w next).1 ≡ ok tt
    → (w.1 ≡ ok tt) × (and_then w next ≡ next w.0) × ((next w.0).1 ≡ ok tt)
and_then-ok (b, ok u) next e = (refl, refl, e)
and_then-ok (b, err x) next e = absurd (ground arith)

abbrev pub member : Text → List Text → Bool
member k keys = any (λ j. key_eq k j) keys

-- The last row of the batch with the key.
abbrev pub last_row : Text → List (Text × Bytes) → Option Bytes → Option Bytes
last_row k [] old = old
last_row k ((key, bytes) ∷ rows) old = last_row k rows (if key_eq k key then some bytes else old)

module _ {B : Type 0} (backend : PersistenceBackend B) (laws : RowLaws backend) (store : Text) where
  delete_all-row :
      (b : B) (keys : List Text)
      → (delete_all backend b store keys).1 ≡ ok tt
      → (k : Text)
      → laws.row (delete_all backend b store keys).0 store k
        ≡ (if member k keys then none else laws.row b store k)
  unfolding delete_all
  delete_all-row b [] e k = refl
  delete_all-row b (key ∷ keys) e k =
      let gone = backend.delete_row b store key in
      let (deleted, same, later) = and_then-ok gone (λ b'. delete_all backend b' store keys) e in
      rw same (
        ground
          (arith, delete_all-row gone.0 keys later k, laws.delete_row-ok b store key deleted k))

  put_all-row :
      (b : B) (rows : List (Text × Bytes))
      → (put_all backend b store rows).1 ≡ ok tt
      → (k : Text)
      → laws.row (put_all backend b store rows).0 store k ≡ last_row k rows (laws.row b store k)
  unfolding put_all
  put_all-row b [] e k = refl
  put_all-row b ((key, bytes) ∷ rows) e k =
      let written = backend.put_row b store key bytes in
      let (stored, same, later) = and_then-ok written (λ b'. put_all backend b' store rows) e in
      rw same (
        put_all-row written.0 rows later k
        ∙ ap (last_row k rows) (laws.put_row-ok b store key bytes stored k))

  -- A key of the batch holds its last insert, else nothing if it was removed, else what it held.
  pub flush_batch-row :
      (b : B) (inserts : List (Text × Bytes)) (removed : List Text)
      → (flush_batch backend b store inserts removed).1 ≡ ok tt
      → (k : Text)
      → laws.row (flush_batch backend b store inserts removed).0 store k
        ≡ last_row k inserts (if member k removed then none else laws.row b store k)
  unfolding flush_batch
  flush_batch-row b inserts removed e k = elim (Result-cases (validate_store_name store)) [
    | inr (x, refused) ↦ absurd (ground arith)
    | inl (u, known) ↦
        let gone = delete_all backend b store removed in
        let (deleted, same, later) =
          and_then-ok gone (λ b'. put_all backend b' store inserts)
            (rw (known, flush_batch) at e) in
        rw (known, flush_batch)
          (rw same (
            put_all-row gone.0 inserts later k
            ∙ ap (last_row k inserts) (delete_all-row b removed deleted k)))
  ]

  module _ (other : Text) (apart : other ≢ store) where
    delete_all-other :
        (b : B) (keys : List Text)
        → (delete_all backend b store keys).1 ≡ ok tt
        → (k : Text) → laws.row (delete_all backend b store keys).0 other k ≡ laws.row b other k
    unfolding delete_all
    delete_all-other b [] e k = refl
    delete_all-other b (key ∷ keys) e k =
        let gone = backend.delete_row b store key in
        let (deleted, same, later) = and_then-ok gone (λ b'. delete_all backend b' store keys) e in
        rw same
          (delete_all-other gone.0 keys later k ∙ laws.delete_row-other b store key other apart k)

    put_all-other :
        (b : B) (rows : List (Text × Bytes))
        → (put_all backend b store rows).1 ≡ ok tt
        → (k : Text) → laws.row (put_all backend b store rows).0 other k ≡ laws.row b other k
    unfolding put_all
    put_all-other b [] e k = refl
    put_all-other b ((key, bytes) ∷ rows) e k =
        let written = backend.put_row b store key bytes in
        let (stored, same, later) = and_then-ok written (λ b'. put_all backend b' store rows) e in
        rw same (
          put_all-other written.0 rows later k ∙ laws.put_row-other b store key bytes other apart k)

    -- A successful batch leaves the other stores as they are.
    pub flush_batch-other :
        (b : B) (inserts : List (Text × Bytes)) (removed : List Text)
        → (flush_batch backend b store inserts removed).1 ≡ ok tt
        → (k : Text)
        → laws.row (flush_batch backend b store inserts removed).0 other k ≡ laws.row b other k
    unfolding flush_batch
    flush_batch-other b inserts removed e k = elim (Result-cases (validate_store_name store)) [
      | inr (x, refused) ↦ absurd (ground arith)
      | inl (u, known) ↦
          let gone = delete_all backend b store removed in
          let (deleted, same, later) =
            and_then-ok gone (λ b'. put_all backend b' store inserts)
              (rw (known, flush_batch) at e) in
          rw (known, flush_batch)
            (rw same (put_all-other gone.0 inserts later k ∙ delete_all-other b removed deleted k))
    ]
