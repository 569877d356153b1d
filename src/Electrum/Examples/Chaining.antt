-- ===== src/Electrum/Examples/Chaining.antt =====
-- A header appended above a stored one, and the lemma on the linked chain.
use bwk.Common.{
  ℕ, false, Option, none, some, List, [], ◌∷◌, ◌≡◌, ◌≢◌, ◌⊎◌, ◌≤◌, refl, arith, Result, ok, leb,
}
use bwk.Common.OrdMap.{nat_ord, lookup, insert, remove}
use bwk.Persist.Types.{headers_store_key}
use bwk.Persist.Backend.{Bytes, flush_batch, validate_store_name}
use bwk.Persist.RamStore.{RamStore, empty, keys, store_insert, flush}
use bwk.Electrum.Headers.{Header, Network, retarget_interval, validate_append}
use bwk.Electrum.HeaderStore.{
  HeaderStore, HeaderValidationState, Chain, interval_of, collect_ancestors, MutateError,
}
use bwk.Electrum.HeaderStore.Mutations.{append, append_batch, replace_branch}
use bwk.Electrum.HeaderStore.Branch.{validate_branch, active_work, has_more_work_than_active}
use bwk.Electrum.HeaderStore.Reorg.{adopt_branch}
use bwk.Electrum.HeaderStore.Batch.{append_batch-Linked}
use bwk.Electrum.HeaderStore.Adopted.{Heavier, adopt_branch-Linked}
use bwk.Electrum.HeaderStore.Linked.{Linked}
use bwk.Electrum.HeaderStore.Appended.{append-Linked}

-- A header's time and the hash it names; its own hash is its time.
abbrev decode : Bytes → Option Header
decode (time ∷ prev ∷ []) = some (record {
  version = 2;
  prev_blockhash = prev ∷ [];
  merkle_root = [];
  time = time;
  bits = 10;
  nonce = 1;
})
decode _ = none

abbrev chain : Chain (Unit {0})
chain = record {
  consensus = record {
    params = λ network. record {
      pow_target_timespan = 1209600;
      pow_target_spacing = 600;
      no_pow_retargeting = false;
      max_attainable_target = 1000;
    };
    genesis_hash = λ network. [];
    block_hash = λ h. h.time ∷ [];
    target = λ h. h.bits;
    validate_pow = λ h target. leb h.nonce target;
    from_next_work_required = λ bits timespan params. bits;
  };
  network = Network.bitcoin;
  deserialize = decode;
  work = λ h. 1;
  checkpoint = none;
  backend = record {
    get_row = λ b store key. ok none;
    get_rows = λ b store. ok [];
    put_row = λ b store key bytes. (b, ok tt);
    delete_row = λ b store key. (b, ok tt);
  };
  codec = record {
    encode_k = λ k. k ∷ [];
    decode_k = λ t. ok 0;
    encode_v = λ e. ok e;
    decode_v = λ b. ok b;
  };
}

abbrev stored : List (ℕ × Bytes)
stored = (1, 100 ∷ 0 ∷ []) ∷ []

abbrev opened : RamStore ℕ Bytes
opened = empty headers_store_key

abbrev store : HeaderStore (Unit {0})
store = record {
  store = record opened { cache = stored };
  rows = tt;
  validation_state = HeaderValidationState.valid;
  writer_token = 3;
  extend_down = none;
  sent = [];
}

abbrev second : Bytes
second = 200 ∷ 100 ∷ []

abbrev appended : Option (HeaderStore (Unit {0}) × Result MutateError (Unit {0}))
appended = append chain 3 2 second 200 store

abbrev after :
    Option (HeaderStore (Unit {0}) × Result MutateError (Unit {0})) → HeaderStore (Unit {0})
after none = store
after (some r) = r.0

appends : appended ≡ some (after appended, ok tt)
unfolding append lookup validate_append collect_ancestors flush store_insert insert empty
    flush_batch validate_store_name remove
appends = refl

stored-Linked : Linked chain stored
unfolding lookup
stored-Linked h lower upper below above = absurd (ground (arith, below, above))

free : lookup 3 stored ≡ none
unfolding lookup
free = refl

append-Linked_example : Linked chain (after appended).store.cache
append-Linked_example =
    append-Linked chain 3 2 200 second store (after appended) (ok tt) stored-Linked free appends

both : lookup 2 (after appended).store.cache ≡ some second
unfolding append lookup validate_append collect_ancestors flush store_insert insert empty
    flush_batch validate_store_name remove
both = refl

-- The header comes in a batch.
batches : append_batch chain 3 2 (second ∷ []) 200 store ≡ some (after appended, ok tt)
unfolding append append_batch lookup validate_append collect_ancestors flush store_insert insert
    empty flush_batch validate_store_name remove
batches = refl

interval : interval_of chain ≢ 0
unfolding retarget_interval
interval e = absurd (ground (arith, e))

free_above : (j : ℕ) → 2 ≤ j → lookup j stored ≡ none
unfolding lookup
free_above j over = ground (arith, over)

append_batch-Linked_example : Linked chain (after appended).store.cache
append_batch-Linked_example =
    append_batch-Linked chain 3 2 200 (second ∷ []) store (after appended) (ok tt) interval
      (omega arith) stored-Linked free_above batches

-- A branch of one header above a fork at height 1, over an active chain that ends there.
adopts : adopt_branch chain 3 1 2 ((2, second) ∷ []) 200 store ≡ some (after appended, ok tt)
unfolding append adopt_branch has_more_work_than_active active_work validate_branch replace_branch
    keys lookup validate_append collect_ancestors flush store_insert insert empty flush_batch
    validate_store_name remove
adopts = refl

adopt_branch-Linked_example :
    Linked chain (after appended).store.cache
    × (((after appended).store.cache ≡ stored) ⊎ Heavier chain stored 1 2 ((2, second) ∷ []) 200)
adopt_branch-Linked_example =
    adopt_branch-Linked chain 3 1 2 200 ((2, second) ∷ []) store (after appended) (ok tt)
      (omega arith) stored-Linked adopts
