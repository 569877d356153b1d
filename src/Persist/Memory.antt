-- ===== src/Persist/Memory.antt =====
-- A backend in memory with the documented behaviour of persist/src/backend/mod.rs, for the examples.
use bwk.Common.{Option, none, List, [], ◌∷◌, ◌≡◌, refl, ◌≢◌, arith, ok, ap, sym, if◌then◌else◌}
use bwk.Common.OrdMap.{
  key_eq, lookup, insert, remove, lookup-insert, lookup-remove, insert-Sorted, remove-Sorted,
  Sorted, Below,
}
use bwk.Common.Text.{Text, text_ord}
use bwk.Persist.Backend.{Bytes, PersistenceBackend}
use bwk.Persist.Backend.Flush.{RowLaws, Distinct}

-- The sorted rows of each store.
abbrev pub Memory : Type 0
Memory = Text → (rows : List (Text × Bytes)) × Sorted rows

-- Another value at one store.
abbrev pub change : Memory → Text → (rows : List (Text × Bytes)) × Sorted rows → Memory
change m store rows s = if key_eq s store then rows else m s

abbrev pub memory : PersistenceBackend Memory
memory = record {
  get_row = λ m store key. ok (lookup key (m store).0);
  get_rows = λ m store. ok (m store).0;
  put_row = λ m store key bytes. (
    change m store (insert key bytes (m store).0, insert-Sorted key bytes (m store).0 (m store).1),
    ok tt,
  );
  delete_row = λ m store key.
      (change m store (remove key (m store).0, remove-Sorted key (m store).0 (m store).1), ok tt);
}

pub change-same :
    (m : Memory) (store : Text) (rows : (rows : List (Text × Bytes)) × Sorted rows)
    → change m store rows store ≡ rows
change-same m store rows = ground (arith, text_ord.cmp-refl store)

pub change-other :
    (m : Memory) (store : Text) (rows : (rows : List (Text × Bytes)) × Sorted rows) (other : Text)
    → other ≢ store
    → change m store rows other ≡ m other
change-other m store rows other apart = ground (arith, text_ord.cmp-eq other store)

pub Below-lookup : (a : Text) (rows : List (Text × Bytes)) → Below a rows → lookup a rows ≡ none
unfolding lookup
Below-lookup a [] h = refl
Below-lookup a ((key, bytes) ∷ rows) (h, below) = ground (arith, Below-lookup a rows)

pub Sorted-Distinct : (rows : List (Text × Bytes)) → Sorted rows → Distinct rows
Sorted-Distinct [] h = tt
Sorted-Distinct ((key, bytes) ∷ rows) (below, h) =
    (Below-lookup key rows below, Sorted-Distinct rows h)

pub get_memory_row :
    (m : Memory) (store key : Text) (r : Option Bytes)
    → memory.get_row m store key ≡ ok r
    → r ≡ lookup key (m store).0
get_memory_row m store key r e = ground arith

pub get_memory_rows :
    (m : Memory) (store : Text) (rows : List (Text × Bytes))
    → memory.get_rows m store ≡ ok rows
    → Distinct rows × ((k : Text) → lookup k rows ≡ lookup k (m store).0)
get_memory_rows m store rows e =
    let same : (m store).0 ≡ rows = ground arith in
    (rw same at (Sorted-Distinct (m store).0 (m store).1), λ k. ap (lookup k) (sym same))

abbrev pub memory_laws : RowLaws memory
memory_laws = record {
  row = λ m store key. lookup key (m store).0;
  put_row-ok = λ m store key bytes e k.
      rw
        (change-same m store
          (insert key bytes (m store).0, insert-Sorted key bytes (m store).0 (m store).1))
        (lookup-insert key k bytes (m store).0);
  delete_row-ok = λ m store key e k.
      rw (change-same m store (remove key (m store).0, remove-Sorted key (m store).0 (m store).1))
        (lookup-remove key k (m store).0);
  put_row-other = λ m store key bytes other apart k.
      ap (λ r. lookup k r.0)
        (change-other m store
          (insert key bytes (m store).0, insert-Sorted key bytes (m store).0 (m store).1) other
          apart);
  delete_row-other = λ m store key other apart k.
      ap (λ r. lookup k r.0)
        (change-other m store (remove key (m store).0, remove-Sorted key (m store).0 (m store).1)
          other apart);
  get_row-ok = λ m store key r e. get_memory_row m store key r e;
  get_rows-ok = λ m store rows e. get_memory_rows m store rows e;
}
