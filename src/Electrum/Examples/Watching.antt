-- ===== src/Electrum/Examples/Watching.antt =====
-- A run of an `AddressStore` with a look-ahead of two, and the lemmas on it.
use bwk.Common.{false, none, some, List, [], ◌∷◌, ◌≡◌, ◌≢◌, refl, arith, ◌≤◌}
use bwk.Common.OrdMap.{lookup, insert}
use bwk.Common.Text.{text_ord}
use bwk.Coin.{KeyChain}
use bwk.Electrum.Addresses.{
  AddressStore, AddressEntry, SpkDerivator, script_at, recv_coin_at, new_recv_addr, recv_watch_tip,
  change_watch_tip, with_account_store, populate, populate_maybe, update_recv, update_change,
  update_watch_tip, notify, locate_spk, find_from,
}
use bwk.Electrum.Addresses.Watched.{Watched}
use bwk.Electrum.Addresses.Calls.{
  Call, coin_at, recv_addr, change_addr, initialise, call_all, call_all-with_account_store,
}
use bwk.Electrum.Addresses.Tips.{new_recv_addr_fresh, recv_coin_at_tips}

abbrev derivator : SpkDerivator
derivator = record {
  receive_at = λ i. 1 ∷ i ∷ [];
  change_at = λ i. 2 ∷ i ∷ [];
  script_pubkey = λ address. address;
}

abbrev start : AddressStore
start = with_account_store derivator 0 0 2

abbrev calls : List Call
calls = recv_addr ∷ coin_at (1 ∷ 3 ∷ []) ∷ change_addr ∷ initialise ∷ []

call_all-with_account_store_example :
    (s : AddressStore) × (call_all derivator calls start ≡ some s) × Watched derivator s
call_all-with_account_store_example = call_all-with_account_store derivator 0 0 2 calls

run : Unit {0}
unfolding with_account_store populate populate_maybe update_recv update_change update_watch_tip
    notify recv_coin_at locate_spk find_from recv_watch_tip change_watch_tip new_recv_addr lookup
    insert
run = tt

abbrev empty_store : AddressStore
empty_store = record {
  store = [];
  recv_generated_tip = 0;
  change_generated_tip = 0;
  tx_listener = false;
  look_ahead = 2;
  sent = [];
}

new_recv_addr_fresh_example :
    ((new_recv_addr derivator empty_store).0.recv_generated_tip ≡ 1)
    × ((new_recv_addr derivator empty_store).1 ≡ derivator.receive_at 1)
    × (lookup (script_at derivator KeyChain.receive 1) (new_recv_addr derivator empty_store).0.store
        ≢ none)
    × (recv_watch_tip (new_recv_addr derivator empty_store).0 ≡ 4)
unfolding lookup
new_recv_addr_fresh_example =
    new_recv_addr_fresh derivator empty_store (λ spk e h. absurd (ground arith)) (omega arith)

-- A coin at the third receive script, which is watched.
abbrev after : AddressStore
after = elim (recv_coin_at derivator start (1 ∷ 3 ∷ [])) [ none ↦ start | some s ↦ s ]

after-some : recv_coin_at derivator start (1 ∷ 3 ∷ []) ≡ some after
unfolding run
after-some = refl

after-tip : after.recv_generated_tip ≡ 3
unfolding run
after-tip = refl

recv_coin_at_tips_example :
    (start.recv_generated_tip ≤ after.recv_generated_tip)
    × (start.change_generated_tip ≤ after.change_generated_tip)
    × ((e : AddressEntry)
        → lookup (1 ∷ 3 ∷ []) start.store ≡ some e
        → (e.account ≡ KeyChain.receive)
        → e.index ≤ after.recv_generated_tip)
    × ((e : AddressEntry)
        → lookup (1 ∷ 3 ∷ []) start.store ≡ some e
        → (e.account ≡ KeyChain.change)
        → e.index ≤ after.change_generated_tip)
recv_coin_at_tips_example = recv_coin_at_tips derivator start after (1 ∷ 3 ∷ []) after-some
