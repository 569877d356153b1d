-- ===== src/Electrum/Addresses.antt =====
-- `AddressStore` of electrum/src/address_store.rs: the addresses that are derived and watched. The
-- derivation is a parameter. What the store sends and saves is a list of events, in order: the
-- notification to the owner, the watch tips to the transaction listener, and the tips to the account
-- store. `unimplemented!()` is `none`.
pub mod Watched
pub mod Calls
pub mod Tips
use bwk.Common.{
  ℕ, zero, suc, Bool, true, false, Option, none, some, List, [], ◌∷◌, ◌++◌, ◌+◌, ◌-◌, ltb, add32,
  saturating_add32, if◌then◌else◌,
}
use bwk.Common.OrdMap.{Ord, key_eq, lookup, insert}
use bwk.Common.Sets.{BTreeSet}
use bwk.Common.Text.{Text, text_ord}
use bwk.Coin.{KeyChain}

pub data AddressStatus : Type 0 where
  not_used : AddressStatus
  used : AddressStatus
  reused : AddressStatus
  unknown : AddressStatus

pub record AddressTip : Type 0 where
  pub recv : ℕ
  pub change : ℕ

pub record AddressEntry : Type 0 where
  pub status : AddressStatus
  pub address : Text
  pub account : KeyChain
  pub index : ℕ
  pub funding_txids : BTreeSet ℕ
  pub spending_txids : BTreeSet ℕ

-- The derived addresses of the two keychains, and their scripts.
pub record SpkDerivator : Type 0 where
  pub receive_at : ℕ → Text
  pub change_at : ℕ → Text
  pub script_pubkey : Text → Text

pub data Event : Type 0 where
  address_tip_changed : Event
  watch : AddressTip → Event
  save : AddressTip → Event

pub record AddressStore : Type 0 where
  pub store : List (Text × AddressEntry)
  pub recv_generated_tip : ℕ
  pub change_generated_tip : ℕ
  pub tx_listener : Bool
  pub look_ahead : ℕ
  pub sent : List Event

abbrev pub recover_gap : ℕ
recover_gap = 10_000

unfoldable pub recv_watch_tip : AddressStore → ℕ
recv_watch_tip s = add32 (add32 s.recv_generated_tip s.look_ahead) 1

unfoldable pub change_watch_tip : AddressStore → ℕ
change_watch_tip s = add32 (add32 s.change_generated_tip s.look_ahead) 1

unfoldable pub update_watch_tip : AddressStore → AddressStore
unfolding recv_watch_tip change_watch_tip
update_watch_tip s =
    let watched =
      if s.tx_listener
      then watch (record { recv = recv_watch_tip s; change = change_watch_tip s }) ∷ []
      else [] in
    let saved =
      save (record { recv = s.recv_generated_tip; change = s.change_generated_tip }) ∷ [] in
    record s { sent = s.sent ++ watched ++ saved }

unfoldable pub notify : AddressStore → AddressStore
unfolding update_watch_tip
notify s = update_watch_tip (record s { sent = s.sent ++ address_tip_changed ∷ [] })

module _ (derivator : SpkDerivator) where
  abbrev pub script_at : KeyChain → ℕ → Text
  script_at KeyChain.receive i = derivator.script_pubkey (derivator.receive_at i)
  script_at KeyChain.change i = derivator.script_pubkey (derivator.change_at i)
  script_at (KeyChain.custom n) i = []

  abbrev pub address_at : KeyChain → ℕ → Text
  address_at KeyChain.receive i = derivator.receive_at i
  address_at KeyChain.change i = derivator.change_at i
  address_at (KeyChain.custom n) i = []

  -- A fresh entry.
  abbrev pub entry_at : KeyChain → ℕ → AddressEntry
  entry_at account i = record {
    status = not_used;
    address = address_at account i;
    account = account;
    index = i;
    funding_txids = [];
    spending_txids = [];
  }

  -- `or_insert_with`.
  abbrev or_insert : Text → AddressEntry → List (Text × AddressEntry) → List (Text × AddressEntry)
  or_insert script entry store = elim (lookup script store) [
    | none ↦ insert script entry store
    | some e ↦ store
  ]

  -- The loop over the `count` indices from `i` on.
  unfoldable pub populate :
      KeyChain → ℕ → ℕ → List (Text × AddressEntry) → List (Text × AddressEntry)
  populate account zero i store = store
  populate account (suc count) i store =
      populate account count (suc i) (or_insert (script_at account i) (entry_at account i) store)

  unfoldable pub populate_maybe : AddressStore → AddressStore
  unfolding populate
  populate_maybe s =
      let received = populate KeyChain.receive (add32 (recv_watch_tip s) 1) 0 s.store in
      record s { store = populate KeyChain.change (add32 (change_watch_tip s) 1) 0 received }

  unfoldable pub with_account_store : ℕ → ℕ → ℕ → AddressStore
  unfolding populate_maybe update_watch_tip
  with_account_store recv_tip change_tip look_ahead = update_watch_tip (
      populate_maybe (record {
        store = [];
        recv_generated_tip = recv_tip;
        change_generated_tip = change_tip;
        tx_listener = false;
        look_ahead = look_ahead;
        sent = [];
      }))

  unfoldable pub update_recv : AddressStore → ℕ → AddressStore
  unfolding populate_maybe notify
  update_recv s index =
      let tip = if ltb s.recv_generated_tip index then index else s.recv_generated_tip in
      notify (populate_maybe (record s { recv_generated_tip = tip }))

  unfoldable pub update_change : AddressStore → ℕ → AddressStore
  unfolding populate_maybe notify
  update_change s index =
      let tip = if ltb s.change_generated_tip index then index else s.change_generated_tip in
      notify (populate_maybe (record s { change_generated_tip = tip }))

  unfoldable pub new_recv_addr : AddressStore → AddressStore × Text
  unfolding update_recv
  new_recv_addr s =
      let tip = add32 s.recv_generated_tip 1 in
      let s' = update_recv (record s { recv_generated_tip = tip }) tip in
      (s', derivator.receive_at s'.recv_generated_tip)

  unfoldable pub next_change_index : AddressStore → AddressStore × ℕ
  unfolding update_change
  next_change_index s =
      let index = add32 s.change_generated_tip 1 in
      (update_change (record s { change_generated_tip = index }) index, index)

  unfoldable pub new_change_addr : AddressStore → AddressStore × Text
  unfolding next_change_index
  new_change_addr s = let (s', index) = next_change_index s in (s', derivator.change_at index)

  unfoldable pub init : AddressStore → AddressStore
  unfolding populate_maybe notify
  init s = notify (record (populate_maybe s) { tx_listener = true })

  -- The first of the `count` indices from `i` on with the script.
  unfoldable pub find_from : KeyChain → Text → ℕ → ℕ → Option ℕ
  find_from account spk zero i = none
  find_from account spk (suc count) i = elim (key_eq (script_at account i) spk) [
    | true ↦ some i
    | false ↦ find_from account spk count (suc i)
  ]

  -- The inclusive range of the recovery gap past a watch tip.
  abbrev gap_from : KeyChain → Text → ℕ → Option ℕ
  gap_from account spk watch_tip =
      let start = saturating_add32 watch_tip 1 in
      let end = saturating_add32 start recover_gap in find_from account spk (end + 1 - start) start

  unfoldable pub locate_spk : AddressStore → Text → Option (KeyChain × ℕ)
  unfolding find_from
  locate_spk s spk = elim (gap_from KeyChain.receive spk (recv_watch_tip s)) [
    | some i ↦ some (KeyChain.receive, i)
    | none ↦ elim (gap_from KeyChain.change spk (change_watch_tip s)) [
      | some i ↦ some (KeyChain.change, i)
      | none ↦ none
    ]
  ]

  -- The tip of the keychain moves to the index.
  abbrev update_at : AddressStore → KeyChain → ℕ → Option AddressStore
  update_at s KeyChain.receive index = some (update_recv s index)
  update_at s KeyChain.change index = some (update_change s index)
  update_at s (KeyChain.custom n) index = none

  unfoldable pub recv_coin_at : AddressStore → Text → Option AddressStore
  unfolding locate_spk
  recv_coin_at s spk = elim (lookup spk s.store) [
    | some entry ↦ update_at s entry.account entry.index
    | none ↦ elim (locate_spk s spk) [
      | some (account, index) ↦ update_at s account index
      | none ↦ some s
    ]
  ]

unfoldable pub get_entry : AddressStore → Text → Option AddressEntry
get_entry s spk = lookup spk s.store
