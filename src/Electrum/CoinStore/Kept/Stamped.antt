-- ===== src/Electrum/CoinStore/Kept/Stamped.antt =====
-- Confirming in a reported header and stamping the times keep the predicate of the transactions.
use bwk.Common.{
  ℕ, Option, none, some, List, [], ◌∷◌, ◌≡◌, ◌≢◌, arith, All, All-weaken, Bool-cases, Option-cases,
  inl, inr, subst,
}
use bwk.Common.OrdMap.{nat_ord, key_eq, lookup}
use bwk.Common.Sets.{BTreeSet, is_some, Sorted-lookup}
use bwk.Persist.Backend.{Bytes}
use bwk.Persist.RamStore.{get}
use bwk.Electrum.Types.{Bitcoin}
use bwk.Electrum.Updates.{Update}
use bwk.Electrum.TxStore.{
  TxStore, TxEntry, Inclusion, height, set_inclusion, set_timestamp, update_inclusion,
  update_timestamp,
}
use bwk.Electrum.TxStore.Kept.{entry_at, entry_at-update_inclusion, entry_at-update_timestamp}
use bwk.Electrum.TxStore.Entries.{Every, update_inclusion-Every, update_timestamp-Every}
use bwk.Electrum.Claims.Single.{Single, remove-Single}
use bwk.Electrum.CoinStore.Chain.{HeaderFacts, claim_tx, inclusion_of, update_in_flight}
use bwk.Electrum.CoinStore.Passes.{
  Confirming, confirm_by, confirm_claim, confirm_claims, stamps_of, stamp_each,
}
use bwk.Electrum.CoinStore.Kept.{Closed}

-- The entry of the transaction, if any, has a height.
abbrev pub Stampable : TxStore → ℕ × ℕ → Type 0
Stampable s (txid, time) = (e : TxEntry) → entry_at s txid ≡ some e → height e.inclusion ≢ none

confirmed-Stampable :
    (s : TxStore) (txid h time : ℕ) (hash : Bytes)
    → Stampable (update_inclusion s txid (Inclusion.confirmed_unverified h hash)) (txid, time)
unfolding height
confirmed-Stampable s txid h time hash e present = elim (Option-cases (entry_at s txid)) [
  | inl absent ↦ absurd (
      ground (
        arith,
        entry_at-update_inclusion s txid txid (Inclusion.confirmed_unverified h hash),
        nat_ord.cmp-refl txid,
        present,
      ))
  | inr (old, there) ↦
      let same : set_inclusion (Inclusion.confirmed_unverified h hash) old ≡ e = ground (
        arith,
        entry_at-update_inclusion s txid txid (Inclusion.confirmed_unverified h hash),
        nat_ord.cmp-refl txid,
        present,
        there,
      ) in
      subst (λ (x : TxEntry). height x.inclusion ≢ none) same
        (λ none_there. ground (arith, none_there))
]

-- Another stamp leaves the heights.
Stampable-update_timestamp :
    (s : TxStore) (txid time : ℕ) (stamp : ℕ × ℕ)
    → Stampable s stamp
    → Stampable (update_timestamp s txid time) stamp
Stampable-update_timestamp s txid time (t, x) h e present = elim (Option-cases (entry_at s t)) [
  | inl absent ↦ absurd (ground (arith, entry_at-update_timestamp s txid t time, present, absent))
  | inr (old, there) ↦ elim (Bool-cases (key_eq t txid)) [
    | inr other ↦ h e (ground (arith, entry_at-update_timestamp s txid t time, present, other))
    | inl same ↦
        let set : set_timestamp time old ≡ e =
          ground (arith, entry_at-update_timestamp s txid t time, present, there, same) in
        subst (λ (y : TxEntry). height y.inclusion ≢ none) set (h old there)
  ]
]

later-Stampable :
    (s : TxStore) (txid time : ℕ) (stamps : List (ℕ × ℕ))
    → All (Stampable s) stamps
    → All (Stampable (update_timestamp s txid time)) stamps
later-Stampable s txid time stamps h =
    All-weaken (Stampable s) (Stampable (update_timestamp s txid time))
      (λ stamp. Stampable-update_timestamp s txid time stamp) stamps h

stamps_of-Stampable :
    (s : TxStore) (block_time : ℕ → Option ℕ) (entries : List (ℕ × TxEntry))
    → All (λ x. lookup x.0 s.cache ≡ some x.1) entries
    → All (Stampable s) (stamps_of block_time entries)
unfolding stamps_of
stamps_of-Stampable s block_time [] h = tt
stamps_of-Stampable s block_time ((txid, entry) ∷ entries) h =
    elim (Bool-cases (is_some entry.timestamp)) [
      | inl stamped ↦ rw (stamped, stamps_of) (stamps_of-Stampable s block_time entries h.1)
      | inr bare ↦ elim (Option-cases (height entry.inclusion)) [
        | inl unconfirmed ↦
            rw (bare, unconfirmed, stamps_of) (stamps_of-Stampable s block_time entries h.1)
        | inr (at, known) ↦ elim (Option-cases (block_time at)) [
          | inl missing ↦
              rw (bare, known, missing, stamps_of) (stamps_of-Stampable s block_time entries h.1)
          | inr (time, found) ↦
              rw (bare, known, found, stamps_of)
                (
                  λ e present.
                      let same : entry ≡ e = ground (arith, h.0, present) in
                      subst (λ (x : TxEntry). height x.inclusion ≢ none) same
                        (λ q. ground (arith, q, known)),
                  stamps_of-Stampable s block_time entries h.1,
                )
        ]
      ]
    ]

module _ {bitcoin : Bitcoin} (Q : ℕ → TxEntry → Type 0) (c : Closed bitcoin Q) where
  stamp_each-Every :
      (stamps : List (ℕ × ℕ)) (s : TxStore)
      → All (Stampable s) stamps
      → Every Q s
      → Every Q (stamp_each stamps s)
  stamp_each-Every [] s h q = q
  stamp_each-Every ((txid, time) ∷ stamps) s h q =
      stamp_each-Every stamps (update_timestamp s txid time)
        (later-Stampable s txid time stamps h.1)
        (update_timestamp-Every Q s txid time
          (λ e present k. c.stamped txid e time (h.0 e present) k) q)

  pub stamps-Every :
      (block_time : ℕ → Option ℕ) (s : TxStore)
      → Every Q s
      → Every Q (stamp_each (stamps_of block_time s.cache) s)
  stamps-Every block_time s q =
      stamp_each-Every (stamps_of block_time s.cache) s
        (stamps_of-Stampable s block_time s.cache (Sorted-lookup s.cache q.0)) q

  -- What the confirmation of a height keeps.
  abbrev pub Confirmed : Confirming → Type 0
  Confirmed x = Every Q x.tx_store × Single x.pending

  confirm_by-Confirmed :
      (i : Option Inclusion) (header : HeaderFacts) (h : ℕ) (us : List Update) (txid : ℕ)
      (x : Confirming)
      → Confirmed x
      → Confirmed (confirm_by i header h us txid x)
  confirm_by-Confirmed none header h us txid x (q, s) =
      elim (Bool-cases (update_in_flight us txid)) [
        | inl waits ↦ rw (waits) (q, s)
        | inr gone ↦ rw (gone) (q, remove-Single x.pending (claim_tx txid h) s)
      ]
  confirm_by-Confirmed (some Inclusion.unconfirmed) header h us txid x (q, s) =
      let i = Inclusion.confirmed_unverified h header.block_hash in
      (
        update_timestamp-Every Q (update_inclusion x.tx_store txid i) txid header.time
            (λ e present k.
              c.stamped txid e header.time
                (confirmed-Stampable x.tx_store txid h header.time header.block_hash e present) k)
            (update_inclusion-Every Q x.tx_store txid i
              (λ e k. c.confirmed txid e h header.block_hash k) q),
        remove-Single x.pending (claim_tx txid h) s,
      )
  confirm_by-Confirmed (some (Inclusion.confirmed_unverified _ _)) header h us txid x (q, s) =
      (q, remove-Single x.pending (claim_tx txid h) s)
  confirm_by-Confirmed (some (Inclusion.verified _ _)) header h us txid x (q, s) =
      (q, remove-Single x.pending (claim_tx txid h) s)
  confirm_by-Confirmed (some (Inclusion.verify_failed _ _)) header h us txid x (q, s) =
      (q, remove-Single x.pending (claim_tx txid h) s)

  pub confirm_claims-Confirmed :
      (header : HeaderFacts) (h : ℕ) (us : List Update) (txids : BTreeSet ℕ) (x : Confirming)
      → Confirmed x
      → Confirmed (confirm_claims header h us txids x)
  unfolding confirm_claims confirm_claim
  confirm_claims-Confirmed header h us [] x k = k
  confirm_claims-Confirmed header h us ((txid, u) ∷ txids) x k =
      confirm_claims-Confirmed header h us txids (confirm_claim header h us txid x)
        (confirm_by-Confirmed (inclusion_of (get x.tx_store txid)) header h us txid x k)
