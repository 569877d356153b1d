-- ===== src/Electrum/CoinStore/Generate/Spent.antt =====
-- Which of the generated coins are spent.
use Prim.Native.String.{String}
use bwk.Common.{
  ℕ, suc, Bool, true, false, Option, none, some, List, [], ◌∷◌, ◌≡◌, ◌≢◌, ◌||◌, arith, refl, any,
  Bool-cases, Option-cases, inl, inr, subst, All,
}
use bwk.Common.OrdMap.{key_eq, lookup, insert, lookup-insert, insert-All}
use bwk.Common.Sets.{lookup-All}
use bwk.Common.Text.{text_ord}
use bwk.Coin.{OutPoint, TxIn, TxOut}
use bwk.Electrum.Types.{outpoint_ord}
use bwk.Electrum.TxStore.{TxEntry, Inclusion, coin_status, to_coin_status}
use bwk.Electrum.Addresses.{AddressEntry, get_entry}
use bwk.Electrum.CoinStore.{CoinEntry, CoinStore, Coins, Wallet, is_spent, spent_status}
use bwk.Electrum.CoinStore.Generate.{
  derived_script, coin_of, receive_outputs, receive_all, set_spent, Spending, spend_input,
  spend_inputs, spend_all, populate_labels, generate_from, generate,
}
use bwk.Electrum.CoinStore.Generate.Metadata.{as_u32}

-- Does the transaction spend the outpoint?
abbrev pub spends_in : OutPoint → List TxIn → Bool
spends_in op input = any (λ i. key_eq op i.previous_output) input

abbrev pub spends : OutPoint → List (ℕ × TxEntry) → Bool
spends op entries = any (λ e. spends_in op e.1.tx.input) entries

module _ {D : Type 0} where
  abbrev pub marked : Bool → Option (CoinEntry D) → Option (CoinEntry D)
  marked b none = none
  marked false (some e) = some e
  marked true (some e) = some (set_spent e)

  lookup-spend_input :
      (txid : ℕ) (inp : TxIn) (r : Spending D) (op : OutPoint)
      → lookup op (spend_input txid inp r).0
        ≡ marked (key_eq op inp.previous_output) (lookup op r.0)
  lookup-spend_input txid inp (coins, spending) op =
      elim (Option-cases (lookup inp.previous_output coins)) [
        | inl absent ↦ ground (arith, absent, outpoint_ord.cmp-eq op inp.previous_output)
        | inr (e, present) ↦ ground (
          arith,
          present,
          outpoint_ord.cmp-eq op inp.previous_output,
          lookup-insert inp.previous_output op (set_spent e) coins,
        )
      ]

  marked_twice : (a b : Bool) (e : Option (CoinEntry D)) → marked b (marked a e) ≡ marked (a || b) e
  marked_twice true true none = refl
  marked_twice true false none = refl
  marked_twice false b none = refl
  marked_twice true true (some e) = refl
  marked_twice true false (some e) = refl
  marked_twice false b (some e) = refl

  lookup-spend_inputs :
      (txid : ℕ) (input : List TxIn) (r : Spending D) (op : OutPoint)
      → lookup op (spend_inputs txid input r).0 ≡ marked (spends_in op input) (lookup op r.0)
  unfolding spend_inputs
  lookup-spend_inputs txid [] r op = ground arith
  lookup-spend_inputs txid (inp ∷ input) r op = ground (
    arith,
    lookup-spend_inputs txid input (spend_input txid inp r) op,
    lookup-spend_input txid inp r op,
    marked_twice (key_eq op inp.previous_output) (spends_in op input) (lookup op r.0),
  )

  lookup-spend_all :
      (entries : List (ℕ × TxEntry)) (r : Spending D) (op : OutPoint)
      → lookup op (spend_all entries r).0 ≡ marked (spends op entries) (lookup op r.0)
  unfolding spend_all
  lookup-spend_all [] r op = ground arith
  lookup-spend_all ((txid, entry) ∷ entries) r op = ground (
    arith,
    lookup-spend_all entries (spend_inputs txid entry.tx.input r) op,
    lookup-spend_inputs txid entry.tx.input r op,
    marked_twice (spends_in op entry.tx.input) (spends op entries) (lookup op r.0),
  )

  abbrev spent_at : Option (CoinEntry D) → Bool
  spent_at none = false
  spent_at (some e) = is_spent e

  spent_at-populate_labels :
      (labels : List (OutPoint × String)) (coins : Coins D) (op : OutPoint)
      → spent_at (lookup op (populate_labels labels coins)) ≡ spent_at (lookup op coins)
  unfolding populate_labels lookup is_spent
  spent_at-populate_labels labels [] op = refl
  spent_at-populate_labels labels ((at, e) ∷ coins) op =
      ground (arith, spent_at-populate_labels labels coins op)

  populate_labels_absent :
      (labels : List (OutPoint × String)) (coins : Coins D) (op : OutPoint)
      → lookup op coins ≡ none
      → lookup op (populate_labels labels coins) ≡ none
  unfolding populate_labels lookup
  populate_labels_absent labels [] op h = refl
  populate_labels_absent labels ((at, e) ∷ coins) op h =
      ground (arith, populate_labels_absent labels coins op)

spent_status-coin_status :
    (i : Inclusion) (header_scanner : Bool) → spent_status (coin_status i header_scanner) ≡ false
unfolding coin_status to_coin_status
spent_status-coin_status Inclusion.unconfirmed scans = refl
spent_status-coin_status (Inclusion.confirmed_unverified h hash) true = refl
spent_status-coin_status (Inclusion.confirmed_unverified h hash) false = refl
spent_status-coin_status (Inclusion.verified h hash) scans = refl
spent_status-coin_status (Inclusion.verify_failed h hash) scans = refl

module _ {D B : Type 0} (w : Wallet D B) where
  abbrev Unspent : OutPoint × CoinEntry D → Type 0
  Unspent c = is_spent c.1 ≡ false

  coin_of-Unspent :
      (s : CoinStore D B) (entry : TxEntry) (op : OutPoint) (txout : TxOut) (addr : AddressEntry)
      (e : CoinEntry D)
      → coin_of w s entry op txout addr ≡ some e
      → is_spent e ≡ false
  unfolding coin_of is_spent
  coin_of-Unspent s entry op txout addr e h =
      elim (Option-cases (derived_script w.derivator addr.account addr.index)) [
        | inl custom ↦ absurd (ground (arith, h))
        | inr (spk, derived) ↦ elim (Bool-cases (key_eq spk txout.script_pubkey)) [
          | inr differs ↦ absurd (ground (arith, h))
          | inl same ↦
              let status : coin_status entry.inclusion s.header_scanner ≡ e.coin.status =
                ground (arith, h, derived, same) in
              subst (λ c. spent_status c ≡ false) status
                (spent_status-coin_status entry.inclusion s.header_scanner)
        ]
      ]

  receive_outputs-Unspent :
      (s : CoinStore D B) (entry : TxEntry) (i : ℕ) (output : List TxOut) (coins coins' : Coins D)
      → receive_outputs w s entry i output coins ≡ some coins'
      → All Unspent coins
      → All Unspent coins'
  unfolding receive_outputs
  receive_outputs-Unspent s entry i [] coins coins' h u =
      let same : coins ≡ coins' = ground (arith, h) in subst (All Unspent) same u
  receive_outputs-Unspent s entry i (txout ∷ output) coins coins' h u =
      elim (Option-cases (get_entry s.address_store txout.script_pubkey)) [
        | inl foreign ↦
            receive_outputs-Unspent s entry (suc i) output coins coins' (ground (arith, h, foreign))
              u
        | inr (addr, ours) ↦
            let op : OutPoint = record {
              txid = w.bitcoin.compute_txid entry.tx;
              vout = as_u32 i;
            } in
            elim (Option-cases (coin_of w s entry op txout addr)) [
              | inl panics ↦ absurd (ground (arith, h, ours))
              | inr (coin, made) ↦
                  receive_outputs-Unspent s entry (suc i) output (insert op coin coins) coins'
                    (ground (arith, h, ours, made))
                    (insert-All Unspent op coin coins
                      (coin_of-Unspent s entry op txout addr coin made) u)
            ]
      ]

  receive_all-Unspent :
      (s : CoinStore D B) (entries : List (ℕ × TxEntry)) (coins coins' : Coins D)
      → receive_all w s entries coins ≡ some coins'
      → All Unspent coins
      → All Unspent coins'
  unfolding receive_all
  receive_all-Unspent s [] coins coins' h u =
      let same : coins ≡ coins' = ground (arith, h) in subst (All Unspent) same u
  receive_all-Unspent s ((txid, entry) ∷ entries) coins coins' h u =
      elim (Option-cases (receive_outputs w s entry 0 entry.tx.output coins)) [
        | inl panics ↦ absurd (ground (arith, h))
        | inr (received, returns) ↦
            receive_all-Unspent s entries received coins' (ground (arith, h, returns))
              (receive_outputs-Unspent s entry 0 entry.tx.output coins received returns u)
      ]

  spent_at-marked :
      (b : Bool) (e : Option (CoinEntry D))
      → spent_at e ≡ false
      → e ≢ none
      → spent_at (marked b e) ≡ b
  unfolding is_spent
  spent_at-marked b none h n = absurd (n refl)
  spent_at-marked true (some e) h n = refl
  spent_at-marked false (some e) h n = h

  -- After `generate` returns, a coin is spent exactly when a stored transaction has it as an input.
  pub is_spent-generate :
      (s s' : CoinStore D B) (op : OutPoint) (e : CoinEntry D)
      → generate w s ≡ some s'
      → lookup op s'.store ≡ some e
      → is_spent e ≡ spends op s.tx_store.cache
  unfolding generate generate_from
  is_spent-generate s s' op e h found = elim (Option-cases (receive_all w s s.tx_store.cache [])) [
    | inl panics ↦ absurd (ground (arith, h))
    | inr (received, returns) ↦
        let spent = spend_all s.tx_store.cache (received, []) in
        let coins = populate_labels s.label_store spent.0 in
        let same : coins ≡ s'.store = ground (arith, h, returns) in
        let there : lookup op coins ≡ some e = ground (arith, same, found) in
        let marks = lookup-spend_all s.tx_store.cache (received, []) op in
        elim (Option-cases (lookup op received)) [
          | inl absent ↦
              let gone =
                populate_labels_absent s.label_store spent.0 op (ground (arith, marks, absent)) in
              absurd (ground (arith, gone, there))
          | inr (c, got) ↦
              let fresh =
                lookup-All Unspent op c received
                  (receive_all-Unspent s s.tx_store.cache [] received returns tt) got in
              let b = spends op s.tx_store.cache in
              let mark = spent_at-marked b (some c) fresh (λ q. ground (arith, q)) in
              ground
                (arith, spent_at-populate_labels s.label_store spent.0 op, marks, mark, got, there)
        ]
  ]
