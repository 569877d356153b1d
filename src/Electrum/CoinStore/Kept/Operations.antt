-- ===== src/Electrum/CoinStore/Kept/Operations.antt =====
-- The operations of the coin store on claims and entries, as a whole.
use bwk.Common.{ℕ, false, Option, List, [], ◌∷◌, Option-cases, inl, inr}
use bwk.Common.OrdMap.{nat_ord, lookup}
use bwk.Electrum.Types.{ClaimAt}
use bwk.Electrum.TxStore.{TxEntry}
use bwk.Electrum.TxStore.Entries.{Every}
use bwk.Electrum.CoinStore.{CoinStore, Wallet}
use bwk.Electrum.CoinStore.Chain.{HeaderFacts, HeaderView, start, snapshot_inclusions, resolve_all}
use bwk.Electrum.CoinStore.Passes.{
  Confirming, stamps_of, stamp_each, stamp_all, record_reported_heights, reverify_remined_entries,
  resolve_pending_claims, confirm_pending_claims, stamp_confirmation_times, clear_merkle_in_flight,
}
use bwk.Electrum.CoinStore.Kept.{Closed, Kept}
use bwk.Electrum.CoinStore.Kept.Derived.{persist-Every}
use bwk.Electrum.CoinStore.Kept.Confirmed.{
  queue_claims-Single, remove_claims-Single, reverify_entries-Every, resolve_all-Every,
}
use bwk.Electrum.CoinStore.Kept.Stamped.{stamps-Every, confirm_claims-Confirmed}

module _ {D B : Type 0} (w : Wallet D B) (Q : ℕ → TxEntry → Type 0) (c : Closed w.bitcoin Q)
    (s : CoinStore D B) (k : Kept w Q s) where
  pub record_reported_heights-Kept :
      (reported : List ClaimAt) → Kept w Q (record_reported_heights s reported).0
  unfolding record_reported_heights
  record_reported_heights-Kept reported = record {
    entries = k.entries;
    carried = k.carried;
    claims = queue_claims-Single s.tx_store reported s.pending_claims k.claims;
  }

  pub reverify_remined_entries-Kept :
      (headers : HeaderView) → Kept w Q (reverify_remined_entries s headers).0
  unfolding reverify_remined_entries
  reverify_remined_entries-Kept headers = record {
    entries =
        reverify_entries-Every Q c headers (snapshot_inclusions s.tx_store)
          (start s.tx_store s.merkle_in_flight) k.entries;
    carried = k.carried;
    claims = k.claims;
  }

  pub resolve_pending_claims-Kept :
      (headers : HeaderView) → Kept w Q (resolve_pending_claims s headers).0
  unfolding resolve_pending_claims
  resolve_pending_claims-Kept headers =
      let begin = start s.tx_store s.merkle_in_flight in
      let p = resolve_all headers s.updates s.pending_claims begin in
      record {
        entries = resolve_all-Every Q c headers s.updates s.pending_claims begin k.entries;
        carried = k.carried;
        claims = remove_claims-Single p.to_remove s.pending_claims k.claims;
      }

  pub confirm_pending_claims-Kept :
      (h : ℕ) (header : HeaderFacts) → Kept w Q (confirm_pending_claims s h header).0
  unfolding confirm_pending_claims
  confirm_pending_claims-Kept h header = elim (Option-cases (lookup h s.pending_claims)) [
    | inl absent ↦ rw (absent, confirm_pending_claims) k
    | inr (txids, present) ↦
        let begin : Confirming = record {
          tx_store = s.tx_store;
          pending = s.pending_claims;
          changed = false;
        } in
        let (entries, claims) =
          confirm_claims-Confirmed Q c header h s.updates txids begin (k.entries, k.claims) in
        rw (present, confirm_pending_claims)
          (record { entries = entries; carried = k.carried; claims = claims })
  ]

  stamp_all-Kept :
      (stamps : List (ℕ × ℕ))
      → Every Q (stamp_each stamps s.tx_store)
      → Kept w Q (stamp_all w s stamps)
  stamp_all-Kept [] q = k
  stamp_all-Kept (stamp ∷ stamps) q = record {
    entries = persist-Every w Q c s.rows (stamp_each (stamp ∷ stamps) s.tx_store) q;
    carried = k.carried;
    claims = k.claims;
  }

  pub stamp_confirmation_times-Kept :
      (block_time : ℕ → Option ℕ) → Kept w Q (stamp_confirmation_times w s block_time)
  unfolding stamp_confirmation_times
  stamp_confirmation_times-Kept block_time =
      stamp_all-Kept (stamps_of block_time s.tx_store.cache)
        (stamps-Every Q c block_time s.tx_store k.entries)

  pub clear_merkle_in_flight-Kept : (claim : ClaimAt) → Kept w Q (clear_merkle_in_flight s claim)
  unfolding clear_merkle_in_flight
  clear_merkle_in_flight-Kept claim = record {
    entries = k.entries;
    carried = k.carried;
    claims = k.claims;
  }
