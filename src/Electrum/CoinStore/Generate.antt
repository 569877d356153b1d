-- ===== src/Electrum/CoinStore/Generate.antt =====
-- `generate` and `populate_tx_metadata`: the coins, the statuses of the addresses and the metadata
-- of the transactions, derived again from the transaction store; with the notifications of what
-- changed. A `HashSet` of outpoints is walked nowhere, so that it is a `BTreeSet` here.
pub mod Events
pub mod Follow
pub mod Spent
pub mod Metadata
use Prim.Native.String.{String}
use bwk.Common.{
  ℕ, zero, suc, Bool, true, false, Option, none, some, List, [], ◌∷◌, ◌++◌, length, map,
  if◌then◌else◌,
}
use bwk.Common.Fault.{◌>>=◌}
use bwk.Common.OrdMap.{nat_ord, key_eq, lookup, insert}
use bwk.Common.Sets.{BTreeSet, insert_under}
use bwk.Common.Text.{Text, text_ord}
use bwk.Coin.{KeyChain, Coin, CoinStatus, CoinSpendInfo, OutPoint, TxIn, TxOut}
use bwk.Electrum.Types.{outpoint_ord}
use bwk.Electrum.TxStore.{TxStore, TxEntry, height, coin_status, transactions, persist}
use bwk.Electrum.Addresses.{AddressStore, AddressEntry, AddressStatus, SpkDerivator, get_entry}
use bwk.Electrum.CoinStore.{CoinEntry, CoinStore, Coins, Wallet, Notification}
use Events.{coin_events}
use Metadata.{as_u32, populate_tx_metadata}

-- `unimplemented!()` for a custom keychain.
abbrev pub derived_script : SpkDerivator → KeyChain → ℕ → Option Text
derived_script derivator KeyChain.receive i =
    some (derivator.script_pubkey (derivator.receive_at i))
derived_script derivator KeyChain.change i = some (derivator.script_pubkey (derivator.change_at i))
derived_script derivator (KeyChain.custom n) i = none

-- `assert!`.
abbrev pub assert : Bool → Option (Unit {0})
assert true = some tt
assert false = none

module _ {D B : Type 0} (w : Wallet D B) where
  unfoldable pub coin_of :
      CoinStore D B → TxEntry → OutPoint → TxOut → AddressEntry → Option (CoinEntry D)
  coin_of s entry outpoint txout addr = do
    spk ← derived_script w.derivator addr.account addr.index
    _ ← assert (key_eq spk txout.script_pubkey)
    some (record {
      coin = record {
        txout = txout;
        outpoint = outpoint;
        height = height entry.inclusion;
        sequence = 0;
        status = coin_status entry.inclusion s.header_scanner;
        label = lookup outpoint s.label_store;
        satisfaction_size = w.satisfaction;
        spend_info = CoinSpendInfo.bip32 (addr.account, addr.index) w.descriptor;
      };
      address = addr.address;
    })

  -- The loop over the outputs of a transaction, the first of them at index `i`.
  unfoldable pub receive_outputs :
      CoinStore D B → TxEntry → ℕ → List TxOut → Coins D → Option (Coins D)
  unfolding coin_of
  receive_outputs s entry i [] coins = some coins
  receive_outputs s entry i (txout ∷ output) coins =
      elim (get_entry s.address_store txout.script_pubkey) [
        | none ↦ receive_outputs s entry (suc i) output coins
        | some addr ↦
            let outpoint : OutPoint = record {
              txid = w.bitcoin.compute_txid entry.tx;
              vout = as_u32 i;
            } in
            do
              coin ← coin_of s entry outpoint txout addr
              receive_outputs s entry (suc i) output (insert outpoint coin coins)
      ]

  unfoldable pub receive_all : CoinStore D B → List (ℕ × TxEntry) → Coins D → Option (Coins D)
  unfolding receive_outputs
  receive_all s [] coins = some coins
  receive_all s ((txid, entry) ∷ entries) coins = do
    received ← receive_outputs s entry 0 entry.tx.output coins
    receive_all s entries received

-- The coins, and the spending transactions of each script.
abbrev pub Spending : Type 0 → Type 0
Spending D = Coins D × List (Text × BTreeSet ℕ)

module _ {D : Type 0} where
  abbrev pub set_spent : CoinEntry D → CoinEntry D
  set_spent e = record e { coin = record e.coin { status = CoinStatus.spent } }

  abbrev pub spk_of : CoinEntry D → Text
  spk_of e = e.coin.txout.script_pubkey

  abbrev pub spend_input : ℕ → TxIn → Spending D → Spending D
  spend_input txid inp (coins, spending) = elim (lookup inp.previous_output coins) [
    | none ↦ (coins, spending)
    | some e ↦
        (insert inp.previous_output (set_spent e) coins, insert_under (spk_of e) txid spending)
  ]

  unfoldable pub spend_inputs : ℕ → List TxIn → Spending D → Spending D
  spend_inputs txid [] r = r
  spend_inputs txid (inp ∷ input) r = spend_inputs txid input (spend_input txid inp r)

  unfoldable pub spend_all : List (ℕ × TxEntry) → Spending D → Spending D
  unfolding spend_inputs
  spend_all [] r = r
  spend_all ((txid, entry) ∷ entries) r = spend_all entries (spend_inputs txid entry.tx.input r)

  unfoldable pub outpoints_of :
      Coins D → List (Text × BTreeSet OutPoint) → List (Text × BTreeSet OutPoint)
  outpoints_of [] m = m
  outpoints_of ((op, e) ∷ coins) m = outpoints_of coins (insert_under (spk_of e) op m)

  unfoldable pub funding_of : Coins D → List (Text × BTreeSet ℕ) → List (Text × BTreeSet ℕ)
  funding_of [] m = m
  funding_of ((op, e) ∷ coins) m = funding_of coins (insert_under (spk_of e) op.txid m)

  unfoldable pub populate_labels : List (OutPoint × String) → Coins D → Coins D
  populate_labels labels coins =
      map (λ c. (c.0, record c.1 { coin = record c.1.coin { label = lookup c.0 labels } })) coins

abbrev pub status_of : ℕ → AddressStatus
status_of zero = AddressStatus.not_used
status_of (suc zero) = AddressStatus.used
status_of (suc (suc n)) = AddressStatus.reused

abbrev pub or_empty : Option (BTreeSet ℕ) → BTreeSet ℕ
or_empty none = []
or_empty (some set) = set

abbrev pub set_entry :
    Text
    → BTreeSet OutPoint
    → List (Text × BTreeSet ℕ)
    → List (Text × BTreeSet ℕ)
    → List (Text × AddressEntry)
    → List (Text × AddressEntry)
set_entry spk ops funding spending store = elim (lookup spk store) [
  | none ↦ store
  | some e ↦
      insert spk
        (record e {
          status = status_of (length ops);
          funding_txids = or_empty (lookup spk funding);
          spending_txids = or_empty (lookup spk spending);
        })
        store
]

unfoldable pub set_statuses :
    List (Text × BTreeSet OutPoint)
    → List (Text × BTreeSet ℕ)
    → List (Text × BTreeSet ℕ)
    → List (Text × AddressEntry)
    → List (Text × AddressEntry)
set_statuses [] funding spending store = store
set_statuses ((spk, ops) ∷ outpoints) funding spending store =
    set_statuses outpoints funding spending (set_entry spk ops funding spending store)

module _ {D B : Type 0} (w : Wallet D B) where
  -- The state after the coins are derived: the rest of `generate`.
  unfoldable pub generate_from : CoinStore D B → Coins D → CoinStore D B
  unfolding spend_all outpoints_of funding_of populate_labels set_statuses
  generate_from s received =
      let (spent, spending) = spend_all s.tx_store.cache (received, []) in
      let outpoints = outpoints_of spent [] in
      let coins = populate_labels s.label_store spent in
      let addresses = record s.address_store {
        store = set_statuses outpoints (funding_of spent []) spending s.address_store.store;
      } in
      let (rows, tx_store) =
        persist w.backend w.codec s.rows (populate_tx_metadata w.bitcoin addresses s.tx_store) in
      let events = if s.generated then coin_events s.store coins else [] in
      record s {
        store = coins;
        spk_to_outpoint = outpoints;
        address_store = addresses;
        tx_store = tx_store;
        rows = rows;
        sent = s.sent ++ events ++ Notification.coin_update ∷ [];
        generated = true;
      }

  unfoldable pub generate : CoinStore D B → Option (CoinStore D B)
  unfolding generate_from receive_all
  generate s = do received ← receive_all w s s.tx_store.cache []; some (generate_from s received)
