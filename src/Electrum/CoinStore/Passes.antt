-- ===== src/Electrum/CoinStore/Passes.antt =====
-- The operations of `CoinStore` that run the passes over its claims and entries, and those that read
-- the confirmations: `record_reported_heights`, `reverify_remined_entries`,
-- `resolve_pending_claims`, `confirm_pending_claims` and `stamp_confirmation_times`.
use bwk.Common.{ℕ, Bool, true, false, Option, none, some, List, [], ◌∷◌, not, if◌then◌else◌}
use bwk.Common.OrdMap.{nat_ord, lookup, insert, remove}
use bwk.Common.Sets.{BTreeSet, is_some, contains, keys_of}
use bwk.Common.Text.{Text, text_ord}
use bwk.Persist.RamStore.{get}
use bwk.Electrum.Types.{ClaimAt, claim_ord}
use bwk.Electrum.Updates.{Update}
use bwk.Electrum.History.{PaymentStatus}
use bwk.Electrum.TxStore.{
  TxStore, TxEntry, Inclusion, height, to_payment_status, update_inclusion, update_timestamp,
  persist,
}
use bwk.Electrum.Claims.{PendingClaims, pending_claim_height, remove_pending_claim}
use bwk.Electrum.CoinStore.{CoinStore, Coins, Wallet}
use bwk.Electrum.CoinStore.Generate.{spk_of}
use bwk.Electrum.CoinStore.Chain.{
  HeaderFacts, HeaderView, ChainUpdateOutcome, Pass, start, claim_tx, inclusion_of,
  snapshot_inclusions, reverify_entries, resolve_all, remove_claims, update_in_flight, queue_claims,
  same_claims,
}

-- The transactions of a height, confirmed in the block of its header.
pub record Confirming : Type 0 where
  pub tx_store : TxStore
  pub pending : PendingClaims
  pub changed : Bool

-- One claim, by the inclusion of its transaction: confirmed and stamped where it waits for that, and
-- still queued where it has not come.
abbrev pub confirm_by :
    Option Inclusion → HeaderFacts → ℕ → List Update → ℕ → Confirming → Confirming
confirm_by none header reported_height updates txid c =
    if update_in_flight updates txid
    then c
    else record c { pending = remove_pending_claim c.pending (claim_tx txid reported_height) }
confirm_by (some Inclusion.unconfirmed) header reported_height updates txid c =
    let confirmed =
      update_inclusion c.tx_store txid
        (Inclusion.confirmed_unverified reported_height header.block_hash) in
    record {
      tx_store = update_timestamp confirmed txid header.time;
      pending = remove_pending_claim c.pending (claim_tx txid reported_height);
      changed = true;
    }
confirm_by (some _) header reported_height updates txid c = record c {
  pending = remove_pending_claim c.pending (claim_tx txid reported_height);
}

unfoldable pub confirm_claim : HeaderFacts → ℕ → List Update → ℕ → Confirming → Confirming
confirm_claim header reported_height updates txid c =
    confirm_by (inclusion_of (get c.tx_store txid)) header reported_height updates txid c

unfoldable pub confirm_claims : HeaderFacts → ℕ → List Update → BTreeSet ℕ → Confirming → Confirming
unfolding confirm_claim
confirm_claims header reported_height updates [] c = c
confirm_claims header reported_height updates ((txid, u) ∷ txids) c =
    confirm_claims header reported_height updates txids
      (confirm_claim header reported_height updates txid c)

-- The confirmed entries without a time, with the time of their block.
unfoldable pub stamps_of : (ℕ → Option ℕ) → List (ℕ × TxEntry) → List (ℕ × ℕ)
stamps_of block_time [] = []
stamps_of block_time ((txid, entry) ∷ entries) =
    let rest = stamps_of block_time entries in
    if is_some entry.timestamp then rest else elim (height entry.inclusion) [
      | none ↦ rest
      | some h ↦ elim (block_time h) [ none ↦ rest | some time ↦ (txid, time) ∷ rest ]
    ]

abbrev pub stamp_each : List (ℕ × ℕ) → TxStore → TxStore
stamp_each [] s = s
stamp_each ((txid, time) ∷ stamps) s = stamp_each stamps (update_timestamp s txid time)

-- The claim of every entry whose proof is not verified.
abbrev pub claims_of : List (ℕ × Inclusion) → List ClaimAt
claims_of [] = []
claims_of ((txid, Inclusion.confirmed_unverified h hash) ∷ entries) =
    claim_tx txid h ∷ claims_of entries
claims_of ((txid, _) ∷ entries) = claims_of entries

abbrev pub unconfirmed_txids : List (ℕ × Inclusion) → BTreeSet ℕ
unconfirmed_txids [] = []
unconfirmed_txids ((txid, Inclusion.unconfirmed) ∷ entries) =
    insert txid tt (unconfirmed_txids entries)
unconfirmed_txids ((txid, _) ∷ entries) = unconfirmed_txids entries

abbrev pub spks_of : {D : Type 0} → BTreeSet ℕ → Coins D → BTreeSet Text → BTreeSet Text
spks_of unconfirmed [] spks = spks
spks_of unconfirmed ((op, e) ∷ coins) spks =
    spks_of unconfirmed coins
      (if contains op.txid unconfirmed then insert (spk_of e) tt spks else spks)

abbrev pub outcome_of : Pass → ChainUpdateOutcome
outcome_of p = record { to_fetch = p.to_fetch; changed = p.changed }

abbrev pub shown_status : Bool → PaymentStatus → PaymentStatus
shown_status false PaymentStatus.confirmed_unverified = PaymentStatus.verified
shown_status _ status = status

module _ {D B : Type 0} where
  unfoldable pub record_reported_heights : CoinStore D B → List ClaimAt → CoinStore D B × Bool
  unfolding queue_claims
  record_reported_heights s reported =
      let pending = queue_claims s.tx_store s.pending_claims reported in
      (record s { pending_claims = pending }, not (same_claims s.pending_claims pending))

  unfoldable pub reverify_remined_entries :
      CoinStore D B → HeaderView → CoinStore D B × ChainUpdateOutcome
  unfolding reverify_entries
  reverify_remined_entries s headers =
      let p =
        reverify_entries headers (snapshot_inclusions s.tx_store)
          (start s.tx_store s.merkle_in_flight) in
      (record s { tx_store = p.tx_store; merkle_in_flight = p.in_flight }, outcome_of p)

  unfoldable pub resolve_pending_claims :
      CoinStore D B → HeaderView → CoinStore D B × ChainUpdateOutcome
  unfolding resolve_all
  resolve_pending_claims s headers =
      let p =
        resolve_all headers s.updates s.pending_claims (start s.tx_store s.merkle_in_flight) in
      (
        record s {
          tx_store = p.tx_store;
          merkle_in_flight = p.in_flight;
          pending_claims = remove_claims p.to_remove s.pending_claims;
        },
        outcome_of p,
      )

  unfoldable pub confirm_pending_claims : CoinStore D B → ℕ → HeaderFacts → CoinStore D B × Bool
  unfolding confirm_claims
  confirm_pending_claims s reported_height header = elim (lookup reported_height s.pending_claims) [
    | none ↦ (s, false)
    | some txids ↦
        let c =
          confirm_claims header reported_height s.updates txids
            (record { tx_store = s.tx_store; pending = s.pending_claims; changed = false }) in
        (record s { tx_store = c.tx_store; pending_claims = c.pending }, c.changed)
  ]

  -- Nothing is saved where nothing is stamped.
  abbrev pub stamp_all : Wallet D B → CoinStore D B → List (ℕ × ℕ) → CoinStore D B
  stamp_all w s [] = s
  stamp_all w s (stamp ∷ stamps) =
      let (rows, tx_store) =
        persist w.backend w.codec s.rows (stamp_each (stamp ∷ stamps) s.tx_store) in
      record s { tx_store = tx_store; rows = rows }

  unfoldable pub stamp_confirmation_times :
      Wallet D B → CoinStore D B → (ℕ → Option ℕ) → CoinStore D B
  unfolding stamps_of
  stamp_confirmation_times w s block_time = stamp_all w s (stamps_of block_time s.tx_store.cache)

  unfoldable pub clear_merkle_in_flight : CoinStore D B → ClaimAt → CoinStore D B
  clear_merkle_in_flight s claim = record s { merkle_in_flight = remove claim s.merkle_in_flight }

  -- A pending claim reads as confirmed; without a header scanner, as verified.
  unfoldable pub payment_status : Wallet D B → CoinStore D B → TxEntry → PaymentStatus
  payment_status w s entry =
      shown_status s.header_scanner
        (elim (pending_claim_height s.pending_claims (w.bitcoin.compute_txid entry.tx)) [
          | none ↦ to_payment_status entry.inclusion
          | some h ↦ PaymentStatus.confirmed_unverified
        ])

  unfoldable pub confirmed_unverified_claims : CoinStore D B → List ClaimAt
  confirmed_unverified_claims s = claims_of (snapshot_inclusions s.tx_store)

  unfoldable pub spks_with_unconfirmed_txs : CoinStore D B → List Text
  spks_with_unconfirmed_txs s =
      keys_of (spks_of (unconfirmed_txids (snapshot_inclusions s.tx_store)) s.store [])
