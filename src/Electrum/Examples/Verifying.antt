-- ===== src/Electrum/Examples/Verifying.antt =====
-- A received transaction from the server's report to its verified proof, and the lemmas on the run.
use bwk.Common.{
  ℕ, true, false, Option, none, some, List, [], ◌∷◌, ◌++◌, ◌≡◌, ◌↔◌, refl, arith, All, ok, err,
  if◌then◌else◌, ◌==◌,
}
use bwk.Common.OrdMap.{nat_ord, lookup, insert, remove}
use bwk.Common.Sets.{collect, is_some}
use bwk.Common.Text.{text_ord}
use bwk.Persist.Types.{PersistError, txs_store_key}
use bwk.Persist.Backend.{PersistenceBackend, flush_batch, put_all, delete_all, validate_store_name}
use bwk.Persist.RamStore.{
  Codec, empty, get, store_insert, store_remove, modify, contains_key, flush, dirty_rows,
  removed_rows, values,
}
use bwk.Electrum.Types.{Transaction, Bitcoin, ClaimAt}
use bwk.Electrum.Updates.{
  insert_history, new, diff_new, diff_removed, from_diff, is_complete, missing,
}
use bwk.Electrum.TxStore.{
  TxStore, TxEntry, Inclusion, height, coin_status, to_coin_status, transactions, remove_tx,
  update_inclusion, update_timestamp, inner_get, unconfirmed_entry, insert_tx, insert_txs,
  insert_updates, update, persist,
}
use bwk.Electrum.TxStore.Entries.{Every}
use bwk.Electrum.Claims.{
  insert_pending_claim, prune_pending_claim, drop_all_pending_claims, pending_claim_height,
  remove_pending_claim, pending_claim_heights,
}
use bwk.Electrum.Claims.Queue.{claimed}
use bwk.Electrum.Merkle.{fold_branch, verify_merkle_branch}
use bwk.Electrum.Addresses.{
  SpkDerivator, recv_coin_at, recv_watch_tip, change_watch_tip, with_account_store, populate,
  populate_maybe, update_recv, update_change, update_watch_tip, notify, get_entry, find_from,
  locate_spk,
}
use bwk.Electrum.CoinStore.{Wallet, new_store, is_spent}
use bwk.Electrum.CoinStore.Generate.{
  coin_of, receive_outputs, receive_all, spend_inputs, spend_all, outpoints_of, funding_of,
  populate_labels, set_statuses, generate_from, generate,
}
use bwk.Electrum.CoinStore.Generate.Events.{event_of, present_events, absent_events, coin_events}
use bwk.Electrum.CoinStore.Generate.Metadata.{collect_txouts, populate_each, populate_tx_metadata}
use bwk.Electrum.CoinStore.Listener.{
  update_spk_history, apply_complete, fold_histories, handle_history_response, receive_txs,
  handle_txs_response,
}
use bwk.Electrum.CoinStore.Chain.{
  HeaderFacts, HeaderView, promote_claim, reverify_entry, reverify_entries, resolve_claim,
  resolve_txids, resolve_all, update_in_flight, queue_claim, queue_claims,
}
use bwk.Electrum.CoinStore.Passes.{
  record_reported_heights, reverify_remined_entries, resolve_pending_claims, stamps_of,
  stamp_confirmation_times, clear_merkle_in_flight, confirmed_unverified_claims,
}
use bwk.Electrum.Reconcile.{
  Reconciler, MerkleProof, resolve_tx_merkle_target, save_and_send, commit_chain_update,
  on_chain_update, retry_reorged_merkle_claim, apply_tx_merkle, handle_tx_merkle,
  handle_merkle_outcome, stamp_times, requeue_confirmed_unverified, proof,
}
use bwk.Electrum.Reconcile.Sound.{Sound}
use bwk.Electrum.Reconcile.Steps.{
  Call, call, run, begin, history, txs, report, chain_tick, outcome, stamp, requeue,
}
use bwk.Electrum.Reconcile.Runs.{Reads, run-Sound, run-claimed}

-- The definitions that the run computes.
unfoldable pub program : Unit {0}
unfolding run call new_store handle_history_response fold_histories update_spk_history
    insert_history new diff_new diff_removed from_diff is_complete missing collect recv_coin_at
    find_from locate_spk recv_watch_tip change_watch_tip with_account_store populate populate_maybe
    update_recv update_change update_watch_tip notify get_entry apply_complete handle_txs_response
    receive_txs generate generate_from coin_of receive_outputs receive_all spend_inputs spend_all
    outpoints_of funding_of populate_labels set_statuses is_spent event_of present_events
    absent_events coin_events collect_txouts populate_each populate_tx_metadata coin_status
    to_coin_status height transactions remove_tx update_inclusion update_timestamp inner_get
    unconfirmed_entry insert_tx insert_txs insert_updates update persist empty get store_insert
    store_remove modify contains_key flush dirty_rows removed_rows values flush_batch put_all
    delete_all validate_store_name insert_pending_claim prune_pending_claim drop_all_pending_claims
    remove_pending_claim pending_claim_heights queue_claim queue_claims record_reported_heights
    promote_claim reverify_entry reverify_entries resolve_claim resolve_txids resolve_all
    update_in_flight reverify_remined_entries resolve_pending_claims stamps_of
    stamp_confirmation_times clear_merkle_in_flight confirmed_unverified_claims fold_branch
    verify_merkle_branch resolve_tx_merkle_target save_and_send commit_chain_update on_chain_update
    retry_reorged_merkle_claim apply_tx_merkle handle_tx_merkle handle_merkle_outcome stamp_times
    requeue_confirmed_unverified lookup insert remove
program = tt

-- A transaction's id is its lock time; one transaction makes a tree with no hash in it.
abbrev pub bitcoin : Bitcoin
bitcoin = record {
  compute_txid = λ tx. tx.lock_time;
  weight = λ tx. 400;
  txid_bytes = λ txid. txid ∷ [];
  sha256d = λ b. b;
}

abbrev pub noop : PersistenceBackend (Unit {0})
noop = record {
  get_row = λ b store key. ok none;
  get_rows = λ b store. ok [];
  put_row = λ b store key bytes. (b, ok tt);
  delete_row = λ b store key. (b, ok tt);
}

abbrev pub codec : Codec ℕ TxEntry
codec = record {
  encode_k = λ k. k ∷ [];
  decode_k = λ t. ok 0;
  encode_v = λ e. ok [];
  decode_v = λ b. err (PersistError.serde []);
}

abbrev pub derivator : SpkDerivator
derivator = record {
  receive_at = λ i. 1 ∷ i ∷ [];
  change_at = λ i. 2 ∷ i ∷ [];
  script_pubkey = λ address. address;
}

abbrev pub wallet : Wallet ℕ (Unit {0})
wallet = record {
  bitcoin = bitcoin;
  derivator = derivator;
  descriptor = 0;
  satisfaction = 108;
  backend = noop;
  codec = codec;
}

abbrev pub gift : Transaction
gift = record {
  version = 2;
  lock_time = 7;
  input = [];
  output = record { value = 5000; script_pubkey = 1 ∷ 0 ∷ [] } ∷ [];
}

abbrev pub block : HeaderFacts
block = record { block_hash = 9 ∷ []; merkle_root = 7 ∷ []; time = 1000 }

abbrev pub view : HeaderView
view = record {
  is_validated = true;
  has_failed = false;
  tip = some 5;
  header = λ h. if h == 5 then some block else none;
}

abbrev merkle_proof : MerkleProof
merkle_proof = record { txid = 7; height = 5; branch = []; pos = 0 }

abbrev pub claim : ClaimAt
claim = record { txid = 7; height = 5 }

abbrev reported : List Call
reported =
    history ((1 ∷ 0 ∷ [], (7, some 5) ∷ []) ∷ []) ∷ txs (gift ∷ []) ∷ report (claim ∷ []) ∷ []

abbrev proved : List Call
proved = chain_tick view ∷ outcome view (proof merkle_proof) ∷ stamp view ∷ requeue ∷ []

abbrev no_transactions : TxStore
no_transactions = empty txs_store_key

abbrev pub start : Reconciler ℕ (Unit {0})
start = begin wallet 0 0 2 no_transactions tt true

abbrev after : Option (Reconciler ℕ (Unit {0})) → Reconciler ℕ (Unit {0})
after none = start
after (some r) = r

abbrev settled : Reconciler ℕ (Unit {0})
settled = after (run wallet start (reported ++ proved))

abbrev Seen : HeaderView → Type 0
Seen v = v ≡ view

after-some : (o : Option (Reconciler ℕ (Unit {0}))) → is_some o ≡ true → o ≡ some (after o)
after-some none h = absurd (ground arith)
after-some (some r) h = refl

returns : is_some (run wallet start (reported ++ proved)) ≡ true
unfolding program
returns = refl

loaded : Every (Sound wallet Seen) no_transactions
unfolding empty
loaded = (tt, tt)

reads : All (Reads wallet Seen) (reported ++ proved)
reads = (tt, (tt, (tt, (refl, (refl, (refl, (tt, tt)))))))

-- The transaction ends verified in the block, with the block's time.
abbrev verified_entry : TxEntry
verified_entry = record {
  tx = gift;
  inclusion = Inclusion.verified 5 (9 ∷ []);
  inputs = [];
  outputs = (0, true) ∷ [];
  fees = 0;
  weight = 400;
  timestamp = some 1000;
}

settled_entry : lookup 7 settled.coins.tx_store.cache ≡ some verified_entry
unfolding program
settled_entry = refl

run-Sound_example : Sound wallet Seen 7 verified_entry
run-Sound_example =
    run-Sound wallet Seen 0 0 2 no_transactions tt true loaded (reported ++ proved) settled reads
      (after-some (run wallet start (reported ++ proved)) returns) 7 verified_entry settled_entry

abbrev pub waiting : Reconciler ℕ (Unit {0})
waiting = after (run wallet start reported)

waits : is_some (run wallet start reported) ≡ true
unfolding program
waits = refl

run-claimed_example :
    (pending_claim_height waiting.coins.pending_claims 7 ≡ some 5)
    ↔ (claimed waiting.coins.pending_claims 5 7 ≡ true)
run-claimed_example =
    run-claimed wallet Seen 0 0 2 no_transactions tt true loaded reported waiting
      (tt, (tt, (tt, tt))) (after-some (run wallet start reported) waits) 7 5

waiting_claim : claimed waiting.coins.pending_claims 5 7 ≡ true
unfolding program
waiting_claim = refl
