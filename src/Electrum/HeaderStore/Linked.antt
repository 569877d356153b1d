-- ===== src/Electrum/HeaderStore/Linked.antt =====
-- The stored chain is linked: each header names the hash of the one below it.
use bwk.Common.{
  ℕ, zero, suc, none, some, List, [], ◌∷◌, ◌≡◌, ◌-◌, ◌%◌, arith, refl, subst, Bool-cases,
  Option-cases, Result-cases, inl, inr, Result, ok, err, saturating_sub, u32_mod,
}
use bwk.Common.OrdMap.{nat_ord, key_eq, lookup, insert, lookup-insert}
use bwk.Common.Text.{text_ord}
use bwk.Persist.Backend.{Bytes}
use bwk.Electrum.Headers.{
  Header, HeaderError, Check, and_check, check_future_cap, check_pow, check_linkage,
  validate_append, last,
}
use bwk.Electrum.HeaderStore.{Chain, decoded, collect_down, collect_ancestors}

module _ {B : Type 0} (c : Chain B) where
  -- Of two stored neighbours that decode, the upper one names the lower one's hash.
  abbrev pub Linked : List (ℕ × Bytes) → Type 0
  Linked m =
      (h : ℕ) (lower upper : Header)
      → decoded c.deserialize (lookup h m) ≡ some lower
      → decoded c.deserialize (lookup (suc h) m) ≡ some upper
      → upper.prev_blockhash ≡ c.consensus.block_hash lower

  last-collect_down :
      (fuel k lo : ℕ) (m : List (ℕ × Bytes)) (x : Header) (xs : List Header)
      → last (collect_down c.deserialize fuel k lo m (x ∷ xs)) ≡ last (x ∷ xs)
  unfolding collect_down
  last-collect_down zero k lo m x xs = refl
  last-collect_down (suc fuel) k lo m x xs =
      elim (Option-cases (decoded c.deserialize (lookup k m))) [
        | inl gap ↦ ground (arith, gap)
        | inr (hdr, there) ↦ ground (arith, there, last-collect_down fuel (k - 1) lo m hdr (x ∷ xs))
      ]

  -- The last ancestor is the header right below.
  pub last-collect_ancestors :
      (h max : ℕ) (m : List (ℕ × Bytes)) (lower : Header)
      → decoded c.deserialize (lookup h m) ≡ some lower
      → last (collect_ancestors c.deserialize (suc h) max m) ≡ some lower
  unfolding collect_ancestors collect_down
  last-collect_ancestors h max m lower e =
      ground
        (arith, e, last-collect_down h (h - 1) (saturating_sub (suc h) (max % u32_mod)) m lower [])

  and_check-ok :
      (first : Result HeaderError (Unit {0})) (next : Check)
      → and_check first next ≡ some (ok tt)
      → (first ≡ ok tt) × (next ≡ some (ok tt))
  and_check-ok (ok u) next e = (refl, e)
  and_check-ok (err x) next e = absurd (ground (arith, e))

  pub validate_append-linkage :
      (ancestors : List Header) (h : ℕ) (incoming lower : Header) (now_secs : ℕ)
      → validate_append c.consensus c.network ancestors (suc h) incoming now_secs ≡ some (ok tt)
      → last ancestors ≡ some lower
      → incoming.prev_blockhash ≡ c.consensus.block_hash lower
  unfolding validate_append check_linkage
  validate_append-linkage ancestors h incoming lower now_secs e below =
      elim (Result-cases (check_future_cap incoming now_secs)) [
        | inr (x, late) ↦ absurd (ground (arith, e, late))
        | inl (u, timely) ↦
            elim (Result-cases (check_pow c.consensus (c.consensus.params c.network) incoming)) [
              | inr (x, weak) ↦ absurd (ground (arith, e, timely, below, weak))
              | inl (v, worked) ↦
                  elim (Bool-cases
                    (key_eq incoming.prev_blockhash (c.consensus.block_hash lower))) [
                      | inl same ↦
                          text_ord.cmp-eq incoming.prev_blockhash (c.consensus.block_hash lower)
                            (ground (arith, same))
                      | inr other ↦ absurd (ground (arith, e, timely, below, worked, other))
                    ]
            ]
      ]

  -- A part of a linked chain is linked.
  pub Linked-part :
      (m n : List (ℕ × Bytes))
      → Linked m
      → ((h : ℕ) (raw : Bytes) → lookup h n ≡ some raw → lookup h m ≡ some raw)
      → Linked n
  Linked-part m n linked part h lower upper a b = elim (Option-cases (lookup h n)) [
    | inl gap ↦ absurd (ground (arith, a, gap))
    | inr (r, there) ↦ elim (Option-cases (lookup (suc h) n)) [
      | inl gap ↦ absurd (ground (arith, b, gap))
      | inr (q, here) ↦
          linked h lower upper (ground (arith, a, there, part h r there))
            (ground (arith, b, here, part (suc h) q here))
    ]
  ]

  -- A header on top of a linked chain that names the one below, if any.
  pub insert-Linked_naming :
      (m : List (ℕ × Bytes)) (h : ℕ) (raw : Bytes) (incoming : Header)
      → Linked m
      → lookup (suc h) m ≡ none
      → c.deserialize raw ≡ some incoming
      → ((j : ℕ) (lower : Header)
          → h ≡ suc j
          → decoded c.deserialize (lookup j m) ≡ some lower
          → incoming.prev_blockhash ≡ c.consensus.block_hash lower)
      → Linked (insert h raw m)
  insert-Linked_naming m h raw incoming linked top decodes names j lower upper a b =
      elim (Bool-cases (key_eq j h)) [
        | inl same ↦
            absurd (ground (arith, lookup-insert h (suc j) raw m, nat_ord.cmp-eq j h, top, b, same))
        | inr other ↦ elim (Bool-cases (key_eq (suc j) h)) [
          | inr apart ↦
              linked j lower upper (ground (arith, lookup-insert h j raw m, a, other))
                (ground (arith, lookup-insert h (suc j) raw m, b, apart))
          | inl next ↦
              let at : h ≡ suc j = ground (arith, nat_ord.cmp-eq (suc j) h, next) in
              let same : incoming ≡ upper =
                ground (arith, lookup-insert h (suc j) raw m, b, next, decodes) in
              let below : decoded c.deserialize (lookup j m) ≡ some lower =
                ground (arith, lookup-insert h j raw m, a, other) in
              subst (λ (x : Header). x.prev_blockhash ≡ c.consensus.block_hash lower) same
                (names j lower at below)
        ]
      ]

  -- A valid header on top of a linked chain.
  pub insert-Linked :
      (m : List (ℕ × Bytes)) (h max now_secs : ℕ) (raw : Bytes) (incoming : Header)
      → Linked m
      → lookup (suc h) m ≡ none
      → c.deserialize raw ≡ some incoming
      → validate_append c.consensus c.network
          (collect_ancestors c.deserialize h max m)
          h
          incoming
          now_secs
        ≡ some (ok tt)
      → Linked (insert h raw m)
  insert-Linked m h max now_secs raw incoming linked top decodes valid =
      insert-Linked_naming m h raw incoming linked top decodes (λ j lower at below.
        validate_append-linkage (collect_ancestors c.deserialize (suc j) max m) j incoming lower
          now_secs
          (subst
            (λ i.
              validate_append c.consensus c.network (collect_ancestors c.deserialize i max m) i
                incoming now_secs
              ≡ some (ok tt))
            at valid)
          (last-collect_ancestors j max m lower below))
