-- ===== src/Electrum/HeaderStore/Views.antt =====
-- What the header store answers: its tip, its headers, and the view that the reconciler reads.
use bwk.Common.{ℕ, Bool, true, false, Option, none, some, List, [], ◌∷◌, ◌++◌, leb, if◌then◌else◌}
use bwk.Common.Fault.{◌>>=◌}
use bwk.Common.OrdMap.{nat_ord}
use bwk.Common.Sets.{is_some}
use bwk.Persist.Backend.{Bytes}
use bwk.Persist.RamStore.{keys, get}
use bwk.Electrum.Headers.{Header, last}
use bwk.Electrum.CoinStore.Chain.{HeaderFacts, HeaderView}
use bwk.Electrum.HeaderStore.{
  HeaderStore, Chain, HeaderValidationState, InvalidCause, decoded, wake,
}

abbrev pub first : List ℕ → Option ℕ
first [] = none
first (h ∷ heights) = some h

abbrev is_valid : HeaderValidationState → Bool
is_valid HeaderValidationState.valid = true
is_valid _ = false

abbrev failed_reason : HeaderValidationState → Option InvalidCause
failed_reason (HeaderValidationState.invalid cause) = some cause
failed_reason _ = none

-- The lowest height that is asked for wins.
abbrev pub asked_below : Option ℕ → ℕ → Bool
asked_below none height = false
asked_below (some lowest) height = leb lowest height

module _ {B : Type 0} where
  unfoldable pub is_validated : HeaderStore B → Bool
  is_validated s = is_valid s.validation_state

  unfoldable pub validation_failed_reason : HeaderStore B → Option InvalidCause
  validation_failed_reason s = failed_reason s.validation_state

  unfoldable pub min_height : HeaderStore B → Option ℕ
  unfolding keys
  min_height s = first (keys s.store)

  unfoldable pub tip : HeaderStore B → Option ℕ
  unfolding keys
  tip s = last (keys s.store)

  unfoldable pub request_extend_down : HeaderStore B → ℕ → HeaderStore B
  unfolding min_height
  request_extend_down s height = elim (min_height s) [
    | none ↦ s
    | some floor ↦
        if leb floor height
        then s
        else if asked_below s.extend_down height
        then s
        else record s { extend_down = some height; sent = s.sent ++ wake ∷ [] }
  ]

  module _ (c : Chain B) where
    unfoldable pub header : HeaderStore B → ℕ → Option Header
    unfolding get
    header s h = decoded c.deserialize (get s.store h)

    unfoldable pub block_hash : HeaderStore B → ℕ → Option Bytes
    unfolding header
    block_hash s h = do hdr ← header s h; some (c.consensus.block_hash hdr)

    unfoldable pub tip_hash : HeaderStore B → Option Bytes
    unfolding tip block_hash
    tip_hash s = do t ← tip s; block_hash s t

    unfoldable pub merkle_root_and_hash : HeaderStore B → ℕ → Option (Bytes × Bytes)
    unfolding header
    merkle_root_and_hash s h = do
      hdr ← header s h
      some (hdr.merkle_root, c.consensus.block_hash hdr)

    abbrev facts_of : Option Header → Option HeaderFacts
    facts_of none = none
    facts_of (some hdr) = some (record {
      block_hash = c.consensus.block_hash hdr;
      merkle_root = hdr.merkle_root;
      time = hdr.time;
    })

    -- What the reconciler reads of the store.
    abbrev pub view_of : HeaderStore B → HeaderView
    view_of s = record {
      is_validated = is_validated s;
      has_failed = is_some (validation_failed_reason s);
      tip = tip s;
      header = λ h. facts_of (header s h);
    }
