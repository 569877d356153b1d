-- ===== src/Electrum/Addresses/Tips.antt =====
-- How the calls of an `AddressStore` of electrum/src/address_store.rs move its tips.
use bwk.Common.{
  ℕ, none, some, ◌≡◌, ◌≢◌, inl, inr, ap, ◌∙◌, arith, subst, ◌+◌, ◌≤◌, ◌<◌, add32, u32_mod,
  if◌then◌else◌, Option-cases, ltb,
}
use bwk.Common.OrdMap.{lookup}
use bwk.Common.Text.{Text, text_ord}
use bwk.Coin.{KeyChain}
use bwk.Electrum.Addresses.{
  AddressStore, AddressEntry, SpkDerivator, script_at, populate_maybe, recv_watch_tip, notify,
  update_watch_tip, update_recv, update_change, new_recv_addr, recv_coin_at, locate_spk, update_at,
}
use bwk.Electrum.Addresses.Watched.{AllDerived}
use bwk.Electrum.Addresses.Calls.{update_recv-Watched}

module _ (derivator : SpkDerivator) where
  -- A fresh receive address is the one after the tip, where the tip and the window past it fit a
  -- `u32`. It moves the tip by one, its script is in the store, and the watch tip stays the
  -- look-ahead and one past it.
  pub new_recv_addr_fresh :
      (s : AddressStore)
      → AllDerived derivator s.store
      → s.recv_generated_tip + s.look_ahead + 3 < u32_mod
      → ((new_recv_addr derivator s).0.recv_generated_tip ≡ s.recv_generated_tip + 1)
        × ((new_recv_addr derivator s).1 ≡ derivator.receive_at (s.recv_generated_tip + 1))
        × (lookup
              (script_at derivator KeyChain.receive (s.recv_generated_tip + 1))
              (new_recv_addr derivator s).0.store
            ≢ none)
        × (recv_watch_tip (new_recv_addr derivator s).0 ≡ s.recv_generated_tip + s.look_ahead + 2)
  unfolding new_recv_addr update_recv notify update_watch_tip populate_maybe recv_watch_tip
  new_recv_addr_fresh s h small =
      let tip = add32 s.recv_generated_tip 1 in
      let next : tip ≡ s.recv_generated_tip + 1 = omega (arith, small) in
      let w = update_recv-Watched derivator (record s { recv_generated_tip = tip }) tip h in
      let kept : (new_recv_addr derivator s).0.recv_generated_tip ≡ s.recv_generated_tip + 1 =
        ground (arith, next) in
      let watch : recv_watch_tip (new_recv_addr derivator s).0
          ≡ s.recv_generated_tip + s.look_ahead + 2 =
        ground (arith, next) in
      (
        kept,
        ap derivator.receive_at kept,
        w.receive (s.recv_generated_tip + 1) (omega (arith, small, watch)),
        watch,
      )

  -- An update moves no tip back, and the tip of its keychain to the index at least.
  Forward : AddressStore → AddressStore → KeyChain → ℕ → Type 0
  Forward s s' account index =
      (s.recv_generated_tip ≤ s'.recv_generated_tip)
      × (s.change_generated_tip ≤ s'.change_generated_tip)
      × (account ≡ KeyChain.receive → index ≤ s'.recv_generated_tip)
      × (account ≡ KeyChain.change → index ≤ s'.change_generated_tip)

  update_at-Forward :
      (s s' : AddressStore) (account : KeyChain) (index : ℕ)
      → update_at derivator s account index ≡ some s'
      → Forward s s' account index
  unfolding Forward update_recv update_change notify update_watch_tip populate_maybe
  update_at-Forward s s' KeyChain.receive index e =
      let recv : s'.recv_generated_tip
          ≡ (if ltb s.recv_generated_tip index then index else s.recv_generated_tip) =
        ground arith in
      let change : s'.change_generated_tip ≡ s.change_generated_tip = ground arith in
      (
        ground (arith, recv),
        omega (arith, change),
        λ a. ground (arith, recv),
        λ a. absurd (ground arith),
      )
  update_at-Forward s s' KeyChain.change index e =
      let recv : s'.recv_generated_tip ≡ s.recv_generated_tip = ground arith in
      let change : s'.change_generated_tip
          ≡ (if ltb s.change_generated_tip index then index else s.change_generated_tip) =
        ground arith in
      (
        omega (arith, recv),
        ground (arith, change),
        λ a. absurd (ground arith),
        λ a. ground (arith, change),
      )
  update_at-Forward s s' (KeyChain.custom n) index e = absurd (ground arith)

  -- A received coin moves no tip back, and where its script is in the store, the tip of the entry's
  -- keychain is then at least the entry's index.
  pub recv_coin_at_tips :
      (s s' : AddressStore) (spk : Text)
      → recv_coin_at derivator s spk ≡ some s'
      → (s.recv_generated_tip ≤ s'.recv_generated_tip)
        × (s.change_generated_tip ≤ s'.change_generated_tip)
        × ((e : AddressEntry)
            → lookup spk s.store ≡ some e
            → (e.account ≡ KeyChain.receive)
            → e.index ≤ s'.recv_generated_tip)
        × ((e : AddressEntry)
            → lookup spk s.store ≡ some e
            → (e.account ≡ KeyChain.change)
            → e.index ≤ s'.change_generated_tip)
  unfolding recv_coin_at Forward
  recv_coin_at_tips s s' spk e = elim (Option-cases (lookup spk s.store)) [
    | inr (entry, present) ↦
        let (r, c, in_recv, in_change) =
          update_at-Forward s s' entry.account entry.index (ground arith) in
        (
          r,
          c,
          λ x found standard.
              let same : entry ≡ x = ground arith in
              subst (λ y. y.index ≤ s'.recv_generated_tip) same
                (in_recv (ap (λ y. y.account) same ∙ standard)),
          λ x found standard.
              let same : entry ≡ x = ground arith in
              subst (λ y. y.index ≤ s'.change_generated_tip) same
                (in_change (ap (λ y. y.account) same ∙ standard)),
        )
    | inl absent ↦ elim (Option-cases (locate_spk derivator s spk)) [
      | inl foreign ↦
          let same : s ≡ s' = ground arith in
          (
            omega (arith, ap (λ x. x.recv_generated_tip) same),
            omega (arith, ap (λ x. x.change_generated_tip) same),
            λ x found. absurd (ground arith),
            λ x found. absurd (ground arith),
          )
      | inr ((account, index), located) ↦
          let (r, c, in_recv, in_change) = update_at-Forward s s' account index (ground arith) in
          (r, c, λ x found. absurd (ground arith), λ x found. absurd (ground arith))
    ]
  ]
