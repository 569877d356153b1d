-- ===== src/Electrum/Examples/Proving.antt =====
-- The lemmas on the coin store's parts at the received transaction of the run, and at its spend.
use bwk.Common.{
  ◌%◌, u64_mod, ℕ, true, false, Option, none, some, [], ◌∷◌, ◌≡◌, ◌⊎◌, refl, arith, any, length,
}
use bwk.Common.OrdMap.{nat_ord, lookup}
use bwk.Common.Sets.{contains, is_some, collect}
use bwk.Coin.{KeyChain, OutPoint, CoinStatus, CoinSpendInfo}
use bwk.Persist.Backend.{Bytes}
use bwk.Electrum.Types.{outpoint_ord, claim_ord, Transaction, Bitcoin}
use bwk.Electrum.Updates.{SpkHistory, HistoryDiff, Heights, Update, insert_history}
use bwk.Electrum.Updates.Diff.{Diffed, insert_history-Diffed}
use bwk.Electrum.TxStore.{Inclusion, insert_updates, unconfirmed_entry}
use bwk.Electrum.TxStore.Kept.{entry_at}
use bwk.Electrum.Merkle.{verify_merkle_branch}
use bwk.Electrum.Merkle.Tree.{
  Tree, leaf, node, leaf_at, root, branch_of, Collision, verify_merkle_branch-leaf_at,
}
use bwk.Electrum.CoinStore.{CoinStore, CoinEntry, is_spent}
use bwk.Electrum.CoinStore.Balance.{spendable_coins}
use bwk.Electrum.CoinStore.Balance.Totals.{total, in_block, in_mempool, spendable_coins-total}
use bwk.Electrum.CoinStore.Asked.{is_claim}
use bwk.Electrum.CoinStore.Chain.{claim_tx}
use bwk.Electrum.CoinStore.Passes.{resolve_pending_claims}
use bwk.Electrum.CoinStore.Progress.{resolve_pending_claims-Asked}
use bwk.Electrum.CoinStore.Generate.{generate}
use bwk.Electrum.CoinStore.Generate.Events.{coin_events}
use bwk.Electrum.CoinStore.Generate.Follow.{follow, unspent, follow-coin_events}
use bwk.Electrum.CoinStore.Generate.Spent.{spends, is_spent-generate}
use bwk.Electrum.Examples.Verifying.{program, bitcoin, wallet, view, waiting, gift}

-- Transaction 7 moves to height 5, 8 is gone, 9 is new.
abbrev previous : Heights
previous = (7, none) ∷ (8, some 3) ∷ []

abbrev reported : Heights
reported = (9, some 4) ∷ (7, some 5) ∷ []

insert_history-Diffed_example :
    (r : SpkHistory × HistoryDiff) × (insert_history (record { history = previous ∷ [] }) reported
      ≡ some r)
    × Diffed previous (collect reported) r
insert_history-Diffed_example =
    insert_history-Diffed (record { history = previous ∷ [] }) previous reported refl
      ((refl, tt), (tt, tt))

-- The received transaction arrives.
abbrev update : Update
update = record { spk = 1 ∷ 0 ∷ []; txs = (7, some gift) ∷ [] }

-- A hash of 32 zeros, ids of 32 equal numbers, and a block of two transactions.
abbrev id : ℕ → Bytes
id n =
    n ∷ n ∷ n ∷ n ∷ n ∷ n ∷ n ∷ n ∷ n ∷ n ∷ n ∷ n ∷ n ∷ n ∷ n ∷ n ∷ n ∷ n ∷ n ∷ n ∷ n ∷ n ∷ n ∷ n
    ∷ n ∷ n ∷ n ∷ n ∷ n ∷ n ∷ n ∷ n ∷ []

abbrev hashes : Bitcoin
hashes = record bitcoin { txid_bytes = λ txid. id txid; sha256d = λ b. id (length b) }

abbrev tree : Tree 1
tree = node (leaf (id 7)) (leaf (id 8))

verify_merkle_branch-leaf_at_example :
    (id 8 ≡ leaf_at tree 1
      → verify_merkle_branch hashes 8 (branch_of hashes tree 1) 1 (root hashes tree) ≡ true)
    × (verify_merkle_branch hashes 8 (id 7 ∷ []) 1 (root hashes tree) ≡ true
        → (id 8 ≡ leaf_at tree 1) ⊎ Collision hashes)
verify_merkle_branch-leaf_at_example =
    verify_merkle_branch-leaf_at hashes tree 8 1 (id 7 ∷ []) (λ x. refl) (refl, refl) refl
      (refl, tt) refl (omega arith)

resolve_pending_claims-Asked_example :
    (entry_at (resolve_pending_claims waiting.coins view).0.tx_store 7
      ≡ some (record (unconfirmed_entry bitcoin gift) {
        outputs = (0, true) ∷ [];
        inclusion = Inclusion.confirmed_unverified 5 (9 ∷ []);
      }))
    × (contains (claim_tx 7 5) (resolve_pending_claims waiting.coins view).0.merkle_in_flight
        ≡ true)
    × (any (is_claim (claim_tx 7 5)) (resolve_pending_claims waiting.coins view).1.to_fetch ≡ true)
unfolding program
resolve_pending_claims-Asked_example =
    resolve_pending_claims-Asked waiting.coins view 7 5 (9 ∷ [])
      (record (unconfirmed_entry bitcoin gift) { outputs = (0, true) ∷ [] }) refl refl refl

-- The received coin is spent by transaction 8.
abbrev coin : OutPoint
coin = record { txid = 7; vout = 0 }

abbrev spender : Transaction
spender = record gift {
  lock_time = 8;
  input = record { previous_output = coin; script_sig = []; sequence = 0; witness = [] } ∷ [];
  output = [];
}

abbrev spending : CoinStore ℕ (Unit {0})
spending = record waiting.coins {
  tx_store =
      insert_updates bitcoin waiting.coins.tx_store
        (record { spk = 1 ∷ 0 ∷ []; txs = (8, some spender) ∷ [] } ∷ []);
}

abbrev generated : Option (CoinStore ℕ (Unit {0})) → CoinStore ℕ (Unit {0})
generated none = spending
generated (some s) = s

abbrev spent : CoinStore ℕ (Unit {0})
spent = generated (generate wallet spending)

generates : is_some (generate wallet spending) ≡ true
unfolding program
generates = refl

generated-some : (o : Option (CoinStore ℕ (Unit {0}))) → is_some o ≡ true → o ≡ some (generated o)
generated-some none h = absurd (ground arith)
generated-some (some s) h = refl

abbrev spent_entry : CoinEntry ℕ
spent_entry = record {
  coin = record {
    txout = record { value = 5000; script_pubkey = 1 ∷ 0 ∷ [] };
    outpoint = coin;
    height = none;
    sequence = 0;
    status = CoinStatus.spent;
    label = none;
    satisfaction_size = 108;
    spend_info = CoinSpendInfo.bip32 (KeyChain.receive, 0) 0;
  };
  address = 1 ∷ 0 ∷ [];
}

spent_there : lookup coin spent.store ≡ some spent_entry
unfolding program
spent_there = refl

is_spent-generate_example : is_spent spent_entry ≡ spends coin spending.tx_store.cache
is_spent-generate_example =
    is_spent-generate wallet spending spent coin spent_entry
      (generated-some (generate wallet spending) generates) spent_there

spent_now : is_spent spent_entry ≡ true
unfolding program
spent_now = refl

follow-coin_events_example :
    follow (coin_events waiting.coins.store spent.store) coin (unspent waiting.coins.store coin)
    ≡ unspent spent.store coin
unfolding program
follow-coin_events_example =
    follow-coin_events waiting.coins.store spent.store coin (tt, tt) (tt, tt) refl

told : follow (coin_events waiting.coins.store spent.store) coin true ≡ false
unfolding program
told = refl

spendable_coins-total_example :
    ((spendable_coins waiting.coins).confirmed_balance
      ≡ total in_block waiting.coins.store % u64_mod)
    × ((spendable_coins waiting.coins).unconfirmed_balance
        ≡ total in_mempool waiting.coins.store % u64_mod)
spendable_coins-total_example = spendable_coins-total waiting.coins

received_total : total in_mempool waiting.coins.store ≡ 5000
unfolding program
received_total = refl
