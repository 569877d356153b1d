-- ===== src/Electrum/Reconcile.antt =====
-- The pass of electrum/src/reconcile.rs between the coin store and the validated chain: what a chain
-- tick and the outcome of a merkle fetch do. The threads and the loop around these handlers are not
-- modelled; each handler takes the view of the header store that it reads, which may change between
-- two of them. `none` is a panic.
pub mod Sound
pub mod Steps
pub mod Handlers
pub mod Outcomes
pub mod Runs
use bwk.Common.{
  ℕ, Bool, true, false, Option, none, some, List, [], ◌∷◌, ◌++◌, ◌%◌, ◌==◌, ◌&&◌, ◌||◌, not,
  if◌then◌else◌,
}
use bwk.Common.Fault.{◌>>=◌}
use bwk.Common.OrdMap.{nat_ord, key_eq}
use bwk.Common.Text.{text_ord}
use bwk.Persist.Backend.{Bytes}
use bwk.Persist.RamStore.{get}
use bwk.Electrum.Types.{ClaimAt}
use bwk.Electrum.TxStore.{Inclusion, update_inclusion, persist}
use bwk.Electrum.Claims.{pending_claim_heights}
use bwk.Electrum.Merkle.{verify_merkle_branch}
use bwk.Electrum.CoinStore.{CoinStore, Wallet}
use bwk.Electrum.CoinStore.Generate.{generate}
use bwk.Electrum.CoinStore.Chain.{HeaderFacts, HeaderView, claim_tx, inclusion_of, block_hash_at}
use bwk.Electrum.CoinStore.Passes.{
  reverify_remined_entries, resolve_pending_claims, stamp_confirmation_times,
  clear_merkle_in_flight, confirmed_unverified_claims,
}

pub record MerkleProof : Type 0 where
  pub txid : ℕ
  pub height : ℕ
  pub branch : List Bytes
  pub pos : ℕ

pub data MerkleOutcome : Type 0 where
  proof : MerkleProof → MerkleOutcome
  failed : ℕ → ℕ → MerkleOutcome

-- What the pass sends: notifications, and requests to the header store.
pub data Message : Type 0 where
  header_store_failed : Message
  header_store_updated : Message
  merkle_proof_failed : ℕ → ℕ → Message
  fetch_merkle : ClaimAt → Message
  request_extend_down : ℕ → Message

pub record Reconciler (D B : Type 0) : Type 0 where
  pub coins : CoinStore D B
  pub sent : List Message

pub record MerkleTarget : Type 0 where
  pub txid : ℕ
  pub height : ℕ
  pub block_hash : Bytes
  pub expected_root : Bytes

abbrev pub fetches : List ClaimAt → List Message
fetches [] = []
fetches (claim ∷ claims) = fetch_merkle claim ∷ fetches claims

abbrev pub first_height : List ℕ → List Message
first_height [] = []
first_height (h ∷ heights) = request_extend_down h ∷ []

-- The hash that an entry is claimed at, where it waits for a proof at this height.
abbrev pub waiting_hash : Option Inclusion → ℕ → Option Bytes
waiting_hash (some (Inclusion.confirmed_unverified h hash)) height =
    if h == height then some hash else none
waiting_hash _ height = none

abbrev pub replaced : Option Bytes → Option Bytes → Bool
replaced (some hash) (some current) = not (key_eq current hash)
replaced _ _ = false

abbrev pub time_of : Option HeaderFacts → Option ℕ
time_of none = none
time_of (some h) = some h.time

-- The message of a chain that may not be read, if any.
abbrev pub refusal : HeaderView → List Message
refusal headers = if headers.has_failed then header_store_failed ∷ [] else []

module _ {D B : Type 0} where
  abbrev pub send : List Message → Reconciler D B → Reconciler D B
  send messages r = record r { sent = r.sent ++ messages }

  unfoldable pub resolve_tx_merkle_target : HeaderView → CoinStore D B → ℕ → ℕ → Option MerkleTarget
  resolve_tx_merkle_target headers s txid height = do
    facts ← headers.header height
    hash ← waiting_hash (inclusion_of (get s.tx_store txid)) height
    if key_eq hash facts.block_hash
        then some (record {
          txid = txid;
          height = height;
          block_hash = facts.block_hash;
          expected_root = facts.merkle_root;
        })
        else none

module _ {D B : Type 0} (w : Wallet D B) where
  abbrev pub persist_store : CoinStore D B → CoinStore D B
  persist_store s =
      let (rows, tx_store) = persist w.backend w.codec s.rows s.tx_store in
      record s { rows = rows; tx_store = tx_store }

  -- Save and derive the coins again, then send the messages.
  unfoldable pub save_and_send : List Message → Reconciler D B → Option (Reconciler D B)
  save_and_send messages r = do
    coins ← generate w (persist_store r.coins)
    some (record { coins = coins; sent = r.sent ++ messages })

  unfoldable pub commit_chain_update : Bool → Reconciler D B → Option (Reconciler D B)
  unfolding save_and_send
  commit_chain_update changed r =
      if changed then save_and_send (header_store_updated ∷ []) r else some r

  unfoldable pub on_chain_update : HeaderView → Reconciler D B → Option (Reconciler D B)
  unfolding commit_chain_update
  on_chain_update headers r =
      if headers.is_validated
      then (let (s, reverified) = reverify_remined_entries r.coins headers in
          let (s', promoted) = resolve_pending_claims s headers in
          do
            next ←
                commit_chain_update (reverified.changed || promoted.changed)
                  (record r { coins = s' })
            some (
                send
                  (first_height (pending_claim_heights s'.pending_claims)
                    ++ fetches (reverified.to_fetch ++ promoted.to_fetch))
                  next))
      else some (send (refusal headers) r)

  -- The pass is run again where the block of a claim was replaced.
  unfoldable pub retry_reorged_merkle_claim :
      HeaderView → ClaimAt → Reconciler D B → Option (Reconciler D B)
  unfolding on_chain_update
  retry_reorged_merkle_claim headers claim r =
      let stored = waiting_hash (inclusion_of (get r.coins.tx_store claim.txid)) claim.height in
      if replaced stored (block_hash_at headers claim.height)
      then on_chain_update headers r
      else some r

  abbrev pub set_coins_inclusion : ℕ → Inclusion → CoinStore D B → CoinStore D B
  set_coins_inclusion txid inclusion s = record s {
    tx_store = update_inclusion s.tx_store txid inclusion;
  }

  unfoldable pub apply_tx_merkle :
      MerkleTarget → List Bytes → ℕ → Reconciler D B → Option (Reconciler D B)
  unfolding commit_chain_update save_and_send
  apply_tx_merkle target branch pos r =
      if verify_merkle_branch w.bitcoin target.txid branch pos target.expected_root
      then commit_chain_update true (record r {
        coins =
            set_coins_inclusion target.txid (Inclusion.verified target.height target.block_hash)
              r.coins;
      })
      else save_and_send (merkle_proof_failed target.txid target.height ∷ []) (record r {
        coins =
            set_coins_inclusion target.txid
              (Inclusion.verify_failed target.height target.block_hash) r.coins;
      })

  unfoldable pub handle_tx_merkle :
      HeaderView → MerkleProof → Reconciler D B → Option (Reconciler D B)
  unfolding apply_tx_merkle retry_reorged_merkle_claim
  handle_tx_merkle headers p r =
      let claim = claim_tx p.txid p.height in
      let freed = record r { coins = clear_merkle_in_flight r.coins claim } in
      if headers.is_validated
      then elim (resolve_tx_merkle_target headers freed.coins p.txid p.height) [
        | none ↦ retry_reorged_merkle_claim headers claim freed
        | some target ↦ apply_tx_merkle target p.branch p.pos freed
      ]
      else some (send (refusal headers) freed)

  unfoldable pub handle_merkle_outcome :
      HeaderView → MerkleOutcome → Reconciler D B → Option (Reconciler D B)
  unfolding handle_tx_merkle
  handle_merkle_outcome headers (proof p) r = handle_tx_merkle headers p r
  handle_merkle_outcome headers (failed txid height) r =
      let claim = claim_tx txid height in
      retry_reorged_merkle_claim headers claim
        (record r { coins = clear_merkle_in_flight r.coins claim })

  unfoldable pub stamp_times : HeaderView → Reconciler D B → Reconciler D B
  stamp_times headers r = record r {
    coins = stamp_confirmation_times w r.coins (λ h. time_of (headers.header (h % 4_294_967_296)));
  }

  unfoldable pub requeue_confirmed_unverified : Reconciler D B → Reconciler D B
  requeue_confirmed_unverified r = send (fetches (confirmed_unverified_claims r.coins)) r
