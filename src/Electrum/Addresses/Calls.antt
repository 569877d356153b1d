-- ===== src/Electrum/Addresses/Calls.antt =====
-- The calls of an `AddressStore` of electrum/src/address_store.rs: they return, and keep the watched
-- scripts.
use bwk.Common.{
  ℕ, true, false, Option, some, List, [], ◌∷◌, ◌≡◌, inl, inr, refl, arith, add32, if◌then◌else◌,
  Option-cases, ltb,
}
use bwk.Common.Fault.{◌>>=◌}
use bwk.Common.OrdMap.{lookup}
use bwk.Common.Text.{Text, text_ord}
use bwk.Coin.{KeyChain}
use bwk.Electrum.Addresses.{
  AddressStore, SpkDerivator, populate_maybe, recv_watch_tip, change_watch_tip, notify,
  update_watch_tip, update_recv, update_change, new_recv_addr, new_change_addr, next_change_index,
  init, recv_coin_at, locate_spk, update_at, with_account_store,
}
use bwk.Electrum.Addresses.Watched.{Watched, AllDerived, Standard, populate_maybe-Watched}

-- A call that changes the store.
pub data Call : Type 0 where
  coin_at : Text → Call
  recv_addr : Call
  change_addr : Call
  initialise : Call

module _ (derivator : SpkDerivator) where
  abbrev pub call : Call → AddressStore → Option AddressStore
  call (coin_at spk) s = recv_coin_at derivator s spk
  call recv_addr s = some (new_recv_addr derivator s).0
  call change_addr s = some (new_change_addr derivator s).0
  call initialise s = some (init derivator s)

  abbrev pub call_all : List Call → AddressStore → Option AddressStore
  call_all [] s = some s
  call_all (c ∷ cs) s = call c s >>= call_all cs

  notify-Watched : (s : AddressStore) → Watched derivator s → Watched derivator (notify s)
  unfolding notify update_watch_tip recv_watch_tip change_watch_tip
  notify-Watched s w = record { receive = w.receive; change = w.change; derived = w.derived }

  -- The listener and the events do not matter.
  update_watch_tip-Watched :
      (s : AddressStore) → Watched derivator s → Watched derivator (update_watch_tip s)
  unfolding update_watch_tip recv_watch_tip change_watch_tip
  update_watch_tip-Watched s w = record {
    receive = w.receive;
    change = w.change;
    derived = w.derived;
  }

  init-Watched :
      (s : AddressStore) → AllDerived derivator s.store → Watched derivator (init derivator s)
  unfolding init recv_watch_tip change_watch_tip
  init-Watched s h =
      let w = populate_maybe-Watched derivator s h in
      notify-Watched (record (populate_maybe derivator s) { tx_listener = true })
        (record { receive = w.receive; change = w.change; derived = w.derived })

  pub update_recv-Watched :
      (s : AddressStore) (index : ℕ)
      → AllDerived derivator s.store
      → Watched derivator (update_recv derivator s index)
  unfolding update_recv
  update_recv-Watched s index h =
      let tip = if ltb s.recv_generated_tip index then index else s.recv_generated_tip in
      let moved = record s { recv_generated_tip = tip } in
      notify-Watched (populate_maybe derivator moved) (populate_maybe-Watched derivator moved h)

  update_change-Watched :
      (s : AddressStore) (index : ℕ)
      → AllDerived derivator s.store
      → Watched derivator (update_change derivator s index)
  unfolding update_change
  update_change-Watched s index h =
      let tip = if ltb s.change_generated_tip index then index else s.change_generated_tip in
      let moved = record s { change_generated_tip = tip } in
      notify-Watched (populate_maybe derivator moved) (populate_maybe-Watched derivator moved h)

  -- The update returns for the two standard keychains.
  update_at-Watched :
      (s : AddressStore) (account : KeyChain) (index : ℕ)
      → Standard account
      → AllDerived derivator s.store
      → (s' : AddressStore) × (update_at derivator s account index ≡ some s') × Watched derivator s'
  update_at-Watched s KeyChain.receive index std h =
      (update_recv derivator s index, refl, update_recv-Watched s index h)
  update_at-Watched s KeyChain.change index std h =
      (update_change derivator s index, refl, update_change-Watched s index h)
  update_at-Watched s (KeyChain.custom n) index std h = absurd std

  locate_spk-Standard :
      (s : AddressStore) (spk : Text) (account : KeyChain) (index : ℕ)
      → locate_spk derivator s spk ≡ some (account, index)
      → Standard account
  unfolding locate_spk
  locate_spk-Standard s spk KeyChain.receive index e = tt
  locate_spk-Standard s spk KeyChain.change index e = tt
  locate_spk-Standard s spk (KeyChain.custom n) index e = absurd (ground arith)

  recv_coin_at-Watched :
      (s : AddressStore) (spk : Text)
      → Watched derivator s
      → (s' : AddressStore) × (recv_coin_at derivator s spk ≡ some s') × Watched derivator s'
  unfolding recv_coin_at
  recv_coin_at-Watched s spk w = elim (Option-cases (lookup spk s.store)) [
    | inr (entry, present) ↦
        let (s', same, w') =
          update_at-Watched s entry.account entry.index (w.derived spk entry present).0 w.derived in
        (s', rw (present, recv_coin_at) same, w')
    | inl absent ↦ elim (Option-cases (locate_spk derivator s spk)) [
      | inl foreign ↦ (s, rw (absent, foreign, recv_coin_at) refl, w)
      | inr ((account, index), located) ↦
          let (s', same, w') =
            update_at-Watched s account index (locate_spk-Standard s spk account index located)
              w.derived in
          (s', rw (absent, located, recv_coin_at) same, w')
    ]
  ]

  call-Watched :
      (c : Call) (s : AddressStore)
      → Watched derivator s
      → (s' : AddressStore) × (call c s ≡ some s') × Watched derivator s'
  unfolding new_recv_addr new_change_addr next_change_index init
  call-Watched (coin_at spk) s w = recv_coin_at-Watched s spk w
  call-Watched recv_addr s w =
      let tip = add32 s.recv_generated_tip 1 in
      (
        (new_recv_addr derivator s).0,
        refl,
        update_recv-Watched (record s { recv_generated_tip = tip }) tip w.derived,
      )
  call-Watched change_addr s w =
      let tip = add32 s.change_generated_tip 1 in
      (
        (new_change_addr derivator s).0,
        refl,
        update_change-Watched (record s { change_generated_tip = tip }) tip w.derived,
      )
  call-Watched initialise s w = (init derivator s, refl, init-Watched s w.derived)

  with_account_store-Watched :
      (recv change look_ahead : ℕ)
      → Watched derivator (with_account_store derivator recv change look_ahead)
  unfolding with_account_store lookup
  with_account_store-Watched recv change look_ahead =
      let fresh : AddressStore = record {
        store = [];
        recv_generated_tip = recv;
        change_generated_tip = change;
        tx_listener = false;
        look_ahead = look_ahead;
        sent = [];
      } in
      update_watch_tip-Watched (populate_maybe derivator fresh)
        (populate_maybe-Watched derivator fresh (λ spk e h. absurd (ground arith)))

  call_all-Watched :
      (cs : List Call) (s : AddressStore)
      → Watched derivator s
      → (s' : AddressStore) × (call_all cs s ≡ some s') × Watched derivator s'
  call_all-Watched [] s w = (s, refl, w)
  call_all-Watched (c ∷ cs) s w =
      let (s1, same, w1) = call-Watched c s w in
      let (s2, later, w2) = call_all-Watched cs s1 w1 in (s2, rw same later, w2)

  -- From a new store, any sequence of received coins, fresh addresses and initialisations returns,
  -- so no entry of another keychain is ever met. Afterwards every script of both keychains up to its
  -- watch tip is in the store, and every entry stands under the script of its keychain and index.
  pub call_all-with_account_store :
      (recv change look_ahead : ℕ) (cs : List Call)
      → (s : AddressStore) × (call_all cs (with_account_store derivator recv change look_ahead)
          ≡ some s)
        × Watched derivator s
  call_all-with_account_store recv change look_ahead cs =
      call_all-Watched cs (with_account_store derivator recv change look_ahead)
        (with_account_store-Watched recv change look_ahead)
