-- ===== src/Electrum/Reconcile/Sound.antt =====
-- An entry is verified by a proof only.
use bwk.Common.{ℕ, true, Option, none, some, List, ◌≡◌, ◌≢◌, refl}
use bwk.Common.OrdMap.{nat_ord}
use bwk.Common.Text.{text_ord}
use bwk.Persist.Backend.{Bytes}
use bwk.Electrum.TxStore.{TxEntry, Inclusion, height, unconfirmed_entry}
use bwk.Electrum.Merkle.{verify_merkle_branch}
use bwk.Electrum.CoinStore.{Wallet}
use bwk.Electrum.CoinStore.Chain.{HeaderFacts, HeaderView}
use bwk.Electrum.CoinStore.Kept.{Closed}

module _ {D B : Type 0} (w : Wallet D B) (Seen : HeaderView → Type 0) where
  -- A branch leads from the transaction to the merkle root of the header that a validated chain had
  -- at the height, whose block has the hash.
  abbrev pub Proven : ℕ → ℕ → Bytes → Type 0
  Proven txid h hash =
      (v : HeaderView) × Seen v
      × (v.is_validated ≡ true)
      × ((facts : HeaderFacts) × (v.header h ≡ some facts)
          × (facts.block_hash ≡ hash)
          × ((branch : List Bytes) × (pos : ℕ) × (verify_merkle_branch w.bitcoin txid branch pos
                  facts.merkle_root
                ≡ true)))

  -- An unconfirmed entry has no time, and a verified one its proof.
  abbrev pub Status : ℕ → Inclusion → Option ℕ → Type 0
  Status txid Inclusion.unconfirmed timestamp = timestamp ≡ none
  Status txid (Inclusion.verified h hash) timestamp = Proven txid h hash
  Status txid _ timestamp = Unit

  abbrev pub Sound : ℕ → TxEntry → Type 0
  Sound txid e = (w.bitcoin.compute_txid e.tx ≡ txid) × Status txid e.inclusion e.timestamp

  Status-stamp :
      (txid time : ℕ) (i : Inclusion) (t : Option ℕ)
      → height i ≢ none
      → Status txid i t
      → Status txid i (some time)
  unfolding height
  Status-stamp txid time Inclusion.unconfirmed t h s = absurd (h refl)
  Status-stamp txid time (Inclusion.confirmed_unverified a b) t h s = tt
  Status-stamp txid time (Inclusion.verified a b) t h s = s
  Status-stamp txid time (Inclusion.verify_failed a b) t h s = tt

  pub Sound-Closed : Closed w.bitcoin Sound
  unfolding unconfirmed_entry
  Sound-Closed = record {
    demoted = λ k e q. (q.0, refl);
    confirmed = λ k e h hash q. (q.0, tt);
    stamped = λ k e time h q. (q.0, Status-stamp k time e.inclusion e.timestamp h q.1);
    described = λ k e inputs outputs q. q;
    keyed = λ k e q. q.0;
    fresh = λ k tx q. (q, refl);
  }
