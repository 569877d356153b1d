-- ===== src/Electrum/Addresses/Watched.antt =====
-- Every script up to the watch tips is in the store, and every entry is derived from its index.
use bwk.Common.{
  ℕ, zero, suc, none, some, List, subst, ◌≡◌, ◌≢◌, ◌⊎◌, inl, inr, arith, ◌+◌, ◌≤◌, ◌<◌, add32,
  Option-cases, Bool-cases, ltb,
}
use bwk.Common.OrdMap.{key_eq, lookup, lookup-insert}
use bwk.Common.Text.{Text, text_ord}
use bwk.Coin.{KeyChain}
use bwk.Electrum.Addresses.{
  AddressStore, AddressEntry, SpkDerivator, script_at, entry_at, or_insert, populate,
  populate_maybe, recv_watch_tip, change_watch_tip,
}

abbrev pub Standard : KeyChain → Type 0
Standard (KeyChain.custom n) = ⊥
Standard _ = Unit

module _ (derivator : SpkDerivator) where
  -- The entry stands under the script of its keychain and index.
  abbrev pub Derived : Text → AddressEntry → Type 0
  Derived spk e = Standard e.account × (script_at derivator e.account e.index ≡ spk)

  abbrev pub AllDerived : List (Text × AddressEntry) → Type 0
  AllDerived store = (spk : Text) (e : AddressEntry) → lookup spk store ≡ some e → Derived spk e

  or_insert_kept :
      (script spk : Text) (e x : AddressEntry) (store : List (Text × AddressEntry))
      → lookup spk store ≡ some x
      → lookup spk (or_insert derivator script e store) ≡ some x
  or_insert_kept script spk e x store h =
      ground (arith, lookup-insert script spk e store, text_ord.cmp-eq spk script)

  or_insert_self :
      (script : Text) (e : AddressEntry) (store : List (Text × AddressEntry))
      → (x : AddressEntry) × (lookup script (or_insert derivator script e store) ≡ some x)
  or_insert_self script e store = elim (Option-cases (lookup script store)) [
    | inl absent ↦
        (e, ground (arith, lookup-insert script script e store, text_ord.cmp-refl script))
    | inr (x, present) ↦ (x, ground arith)
  ]

  or_insert_cases :
      (script spk : Text) (e x : AddressEntry) (store : List (Text × AddressEntry))
      → lookup spk (or_insert derivator script e store) ≡ some x
      → (lookup spk store ≡ some x) ⊎ ((script ≡ spk) × (e ≡ x))
  or_insert_cases script spk e x store h = elim (Option-cases (lookup script store)) [
    | inr (y, present) ↦ inl (ground arith)
    | inl absent ↦ elim (Bool-cases (key_eq spk script)) [
      | inl hit ↦ inr (
        ground (arith, text_ord.cmp-eq spk script),
        ground (arith, lookup-insert script spk e store),
      )
      | inr miss ↦ inl (ground (arith, lookup-insert script spk e store))
    ]
  ]

  populate_kept :
      (account : KeyChain) (count i : ℕ) (store : List (Text × AddressEntry)) (spk : Text)
      (x : AddressEntry)
      → lookup spk store ≡ some x
      → lookup spk (populate derivator account count i store) ≡ some x
  unfolding populate
  populate_kept account zero i store spk x h = h
  populate_kept account (suc count) i store spk x h =
      populate_kept account count (suc i)
        (or_insert derivator (script_at derivator account i) (entry_at derivator account i) store)
        spk x
        (or_insert_kept (script_at derivator account i) spk (entry_at derivator account i) x store
          h)

  populate_covers :
      (account : KeyChain) (count i j : ℕ) (store : List (Text × AddressEntry))
      → i ≤ j
      → j < i + count
      → lookup (script_at derivator account j) (populate derivator account count i store) ≢ none
  unfolding populate
  populate_covers account zero i j store low high e = omega (arith, low, high)
  populate_covers account (suc count) i j store low high e = elim (Bool-cases (ltb i j)) [
    | inl later ↦
        populate_covers account count (suc i) j
          (or_insert derivator (script_at derivator account i) (entry_at derivator account i) store)
          (ground arith) (omega (arith, high)) e
    | inr here ↦
        let same : i ≡ j = ground arith in
        let (x, present) =
          or_insert_self (script_at derivator account i) (entry_at derivator account i) store in
        let rest = populate derivator account count (suc i) (
          or_insert derivator (script_at derivator account i) (entry_at derivator account i)
            store) in
        let held =
          populate_kept account count (suc i)
            (or_insert derivator (script_at derivator account i) (entry_at derivator account i)
              store)
            (script_at derivator account i) x present in
        let moved = subst (λ k. lookup (script_at derivator account k) rest ≡ some x) same held in
        absurd (ground arith)
  ]

  populate-AllDerived :
      (account : KeyChain) (count i : ℕ) (store : List (Text × AddressEntry))
      → Standard account
      → AllDerived store
      → AllDerived (populate derivator account count i store)
  unfolding populate
  populate-AllDerived account zero i store std h = h
  populate-AllDerived account (suc count) i store std h =
      let entry = entry_at derivator account i in
      let script = script_at derivator account i in
      populate-AllDerived account count (suc i) (or_insert derivator script entry store) std
        (λ spk x e. elim (or_insert_cases script spk entry x store e) [
          | inl old ↦ h spk x old
          | inr (same_script, same_entry) ↦ subst (λ y. Derived spk y) same_entry (std, same_script)
        ])

  -- Up to both watch tips, and derived.
  pub record Watched (s : AddressStore) : Type 0 where
    pub receive :
        (i : ℕ)
        → i < add32 (recv_watch_tip s) 1
        → lookup (script_at derivator KeyChain.receive i) s.store ≢ none
    pub change :
        (i : ℕ)
        → i < add32 (change_watch_tip s) 1
        → lookup (script_at derivator KeyChain.change i) s.store ≢ none
    pub derived : AllDerived s.store

  pub populate_maybe-Watched :
      (s : AddressStore) → AllDerived s.store → Watched (populate_maybe derivator s)
  unfolding populate_maybe recv_watch_tip change_watch_tip
  populate_maybe-Watched s h =
      let received = populate derivator KeyChain.receive (add32 (recv_watch_tip s) 1) 0 s.store in
      record {
        receive = λ i small e.
            elim (Option-cases (lookup (script_at derivator KeyChain.receive i) received)) [
              | inl absent ↦
                  populate_covers KeyChain.receive (add32 (recv_watch_tip s) 1) 0 i s.store
                    (omega arith) (omega (arith, small)) absent
              | inr (x, present) ↦
                  let held =
                    populate_kept KeyChain.change (add32 (change_watch_tip s) 1) 0 received
                      (script_at derivator KeyChain.receive i) x present in
                  absurd (ground arith)
            ];
        change = λ i small.
            populate_covers KeyChain.change (add32 (change_watch_tip s) 1) 0 i received
              (omega arith) (omega (arith, small));
        derived =
            populate-AllDerived KeyChain.change (add32 (change_watch_tip s) 1) 0 received tt
              (populate-AllDerived KeyChain.receive (add32 (recv_watch_tip s) 1) 0 s.store tt h);
      }
