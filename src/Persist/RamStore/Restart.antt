-- ===== src/Persist/RamStore/Restart.antt =====
-- `open` on what a `flush` left: the next start of the program reads the cache back.
use bwk.Common.{
  false, Option, none, some, List, [], ◌∷◌, ◌≡◌, refl, ◌≢◌, arith, ok, Bool-cases, inl, inr, ap,
  ◌∙◌, sym,
}
use bwk.Common.OrdMap.{Ord, key_eq, lookup, insert, lookup-insert}
use bwk.Common.Text.{Text, text_ord}
use bwk.Persist.Backend.{Bytes, PersistenceBackend}
use bwk.Persist.Backend.Flush.{RowLaws, Distinct}
use bwk.Persist.RamStore.{RamStore, Codec, load_rows, open_store, flush, get}
use bwk.Persist.RamStore.Synced.{Holds, Synced, row_of}
use bwk.Persist.RamStore.Flushed.{flush-Holds}

-- Decoding is the inverse of encoding.
pub record Inverse {K V : Type 0} (codec : Codec K V) : Type 0 where
  pub key : (k : K) → codec.decode_k (codec.encode_k k) ≡ ok k
  pub value : (v : V) (bytes : Bytes) → codec.encode_v v ≡ ok bytes → codec.decode_v bytes ≡ ok v

module _ {K V : Type 0} ⦃o : Ord K⦄ (codec : Codec K V) (inverse : Inverse codec) where
  -- Is the row one that the codec wrote?
  abbrev Encoded : Text → Bytes → Type 0
  Encoded key bytes = (k : K) × (codec.encode_k k ≡ key) × (v : V) × (codec.encode_v v ≡ ok bytes)

  pub one_key : (j k : K) → codec.encode_k j ≡ codec.encode_k k → j ≡ k
  one_key j k e = ground (arith, inverse.key j, inverse.key k)

  -- What the loaded cache holds under a key, from its row.
  abbrev Loaded : Option Bytes → Option V → Option V → Type 0
  Loaded none before after = after ≡ before
  Loaded (some bytes) before after = (v : V) × (codec.decode_v bytes ≡ ok v) × (after ≡ some v)

  load_rows-Loaded :
      (rows : List (Text × Bytes)) (cache : List (K × V))
      → Distinct rows
      → ((key : Text) (bytes : Bytes) → lookup key rows ≡ some bytes → Encoded key bytes)
      → (loaded : List (K × V)) × (load_rows codec rows cache ≡ ok loaded)
        × ((k : K) → Loaded (lookup (codec.encode_k k) rows) (lookup k cache) (lookup k loaded))
  unfolding load_rows lookup
  load_rows-Loaded [] cache d h = (cache, refl, λ k. refl)
  load_rows-Loaded ((key, bytes) ∷ rows) cache (fresh, d) h =
      let (k0, named, v, encoded) = h key bytes (ground (arith, text_ord.cmp-refl key)) in
      let decoded : codec.decode_v bytes ≡ ok v = inverse.value v bytes encoded in
      let found : codec.decode_k key ≡ ok k0 = ground (arith, inverse.key k0) in
      let (loaded, same, each) =
        load_rows-Loaded rows (insert k0 v cache) d
          (λ key' bytes' e. h key' bytes' (ground (arith, text_ord.cmp-eq key' key))) in
      (
        loaded,
        rw (found, decoded) same,
        λ k. elim (Bool-cases (key_eq (codec.encode_k k) key)) [
          | inl hit ↦
              let same_key : codec.encode_k k ≡ key =
                ground (arith, text_ord.cmp-eq (codec.encode_k k) key) in
              let here : k ≡ k0 = one_key k k0 (same_key ∙ sym named) in
              let later : lookup (codec.encode_k k) rows ≡ none = rw same_key fresh in
              let left : lookup k loaded ≡ lookup k (insert k0 v cache) = rw later at (each k) in
              rw hit (v, decoded, left ∙ ground (arith, lookup-insert k0 k v cache, o.cmp-refl k))
          | inr miss ↦
              let apart : key_eq k k0 ≡ false =
                ground (arith, o.cmp-eq k k0, text_ord.cmp-refl key) in
              let before : lookup k (insert k0 v cache) ≡ lookup k cache =
                ground (arith, lookup-insert k0 k v cache) in
              rw miss (rw before at (each k))
        ],
      )

  module _ {B : Type 0} {backend : PersistenceBackend B} (laws : RowLaws backend) where
    Holds-Encoded :
        (k : K) (key : Text) (cached : Option V) (bytes : Bytes) (row : Option Bytes)
        → codec.encode_k k ≡ key
        → row ≡ some bytes
        → Holds codec laws cached row
        → Encoded key bytes
    Holds-Encoded k key none bytes row e r h = absurd (ground arith)
    Holds-Encoded k key (some v) bytes row e r (written, encoded, same) = (k, e, v, ground arith)

    Loaded-Holds :
        (cached after : Option V) (row : Option Bytes)
        → Holds codec laws cached row
        → Loaded row none after
        → after ≡ cached
    Loaded-Holds none after none h l = l
    Loaded-Holds none after (some bytes) h l = absurd (ground arith)
    Loaded-Holds (some v) after none (bytes, encoded, same) l = absurd (ground arith)
    Loaded-Holds (some v) after (some bytes) (written, encoded, same) (w, decoded, l) =
        ground (arith, inverse.value v bytes)

  -- Rows that hold what a cache holds are read back as that cache.
  pub open_store-Holds :
      {B : Type 0} {backend : PersistenceBackend B} (laws : RowLaws backend) (b : B)
      (s : RamStore K V) (rows : List (Text × Bytes))
      → ((k : K) → Holds codec laws (lookup k s.cache) (row_of codec laws b s k))
      → ((key : Text) → laws.row b s.store_key key ≢ none → (k : K) × (codec.encode_k k ≡ key))
      → backend.get_rows b s.store_key ≡ ok rows
      → (opened : RamStore K V) × (open_store backend codec b s.store_key ≡ ok opened)
        × ((k : K) → get opened k ≡ get s k)
  unfolding open_store get lookup
  open_store-Holds {backend = backend} laws b' s rows holds named read =
      let (distinct, agree) = laws.get_rows-ok b' s.store_key rows read in
      let (loaded, same, each) = load_rows-Loaded rows [] distinct (λ key bytes row.
        let held : laws.row b' s.store_key key ≡ some bytes = sym (agree key) ∙ row in
        let (k, is_key) = named key (λ n. ground arith) in
        Holds-Encoded laws k key (lookup k s.cache) bytes (row_of codec laws b' s k) is_key
          (ap (laws.row b' s.store_key) is_key ∙ held) (holds k)) in
      (
        record { cache = loaded; dirty = []; removed = []; store_key = s.store_key },
        rw (read, same) refl,
        λ k.
            Loaded-Holds laws (lookup k s.cache) (lookup k loaded) (lookup (codec.encode_k k) rows)
              (rw (agree (codec.encode_k k)) (holds k)) (each k),
      )

  -- Let `flush` succeed on a store that agrees with its rows, let decoding invert encoding, let the
  -- key of every row be an encoded one, and let the rows be readable. Then `open` on the flushed rows
  -- succeeds and `get` of every key is what it was before the flush.
  pub open_store-flush :
      {B : Type 0} {backend : PersistenceBackend B} (laws : RowLaws backend) (b b' : B)
      (s s' : RamStore K V) (rows : List (Text × Bytes))
      → Synced codec laws b s
      → flush backend codec b s ≡ ((b', s'), ok tt)
      → ((key : Text) → laws.row b' s.store_key key ≢ none → (k : K) × (codec.encode_k k ≡ key))
      → backend.get_rows b' s.store_key ≡ ok rows
      → (opened : RamStore K V) × (open_store backend codec b' s.store_key ≡ ok opened)
        × ((k : K) → get opened k ≡ get s k)
  open_store-flush laws b b' s s' rows h e named read =
      let (same_cache, clean, kept, holds) = flush-Holds codec laws one_key b b' s s' h e in
      open_store-Holds laws b' s rows holds named read
