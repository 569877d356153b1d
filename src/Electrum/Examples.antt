-- ===== src/Electrum/Examples.antt =====
-- Two accounts with a shared transaction, and a header after one ancestor: the lemmas on them.
mod Watching
mod Listening
mod Verifying
mod Proving
mod Chaining
use mathlib.Core.List.{Perm}
use bwk.Common.{ℕ, false, none, some, List, [], ◌∷◌, ◌≡◌, ◌≢◌, ◌↔◌, refl, arith, min, leb}
use bwk.Common.OrdMap.{nat_ord, lookup, insert}
use bwk.Common.Text.{Text}
use bwk.Common.Sort.{Ordered, sort_by, insert_sorted}
use bwk.Electrum.History.{
  TxContribution, Account, Payment, PaymentStatus, PaymentType, default_contribution, entry,
  add_account, add_accounts, add_contribution, payment_of, payments_of, aggregate_payments,
  not_after, compare_payments, direction, merge, verified, confirmed_unverified, send,
}
use bwk.Electrum.History.Sums.{total, worst, u64_max, add_accounts-total}
use bwk.Electrum.History.Status.{severity}
use bwk.Electrum.History.Amounts.{Balanced, payment_of-Balanced}
use bwk.Electrum.History.Sorting.{Newest, aggregate_payments-Ordered}
use bwk.Electrum.Headers.{Network, Header, Consensus, retarget_interval, validate_append}
use bwk.Electrum.Headers.Checks.{Decided}
use bwk.Electrum.Headers.Accept.{Accepted, validate_append-Accepted}

abbrev no_contribution : TxContribution ℕ
no_contribution = default_contribution

abbrev spend : TxContribution ℕ
spend = record no_contribution {
  owned_in = 5000;
  height = some 10;
  status = verified;
  tx = some (record { output = 1000 ∷ 3900 ∷ [] });
}

abbrev change : TxContribution ℕ
change = record no_contribution {
  owned_out = 3900;
  owned_vouts = (1, tt) ∷ [];
  status = confirmed_unverified;
}

abbrev gift : TxContribution ℕ
gift = record no_contribution { owned_out = 70; owned_vouts = (0, tt) ∷ [] }

abbrev accounts : List (Account ℕ ℕ)
accounts = ((1, spend) ∷ []) ∷ ((1, change) ∷ (2, gift) ∷ []) ∷ []

abbrev to_string : ℕ → Text
to_string n = n ∷ []

add_accounts-total_example :
    ((entry 1 (add_accounts accounts [])).owned_in
      ≡ min (total 1 (λ c. c.owned_in) accounts) u64_max)
    × ((entry 1 (add_accounts accounts [])).owned_out
        ≡ min (total 1 (λ c. c.owned_out) accounts) u64_max)
    × (severity (entry 1 (add_accounts accounts [])).status ≡ worst 1 accounts)
add_accounts-total_example = add_accounts-total 1 accounts

abbrev sent : TxContribution ℕ
sent = record spend { owned_out = 3900; owned_vouts = (1, tt) ∷ [] }

payment_of-Balanced_example :
    ((payment_of to_string (1, sent) ≡ none) ↔ ((sent.owned_in ≡ 0) × (sent.owned_out ≡ 0)))
    × ((p : Payment)
        → payment_of to_string (1, sent) ≡ some p
        → Balanced to_string 1 sent p.payment_type p.amount × (p.txid ≡ to_string 1))
payment_of-Balanced_example = payment_of-Balanced to_string 1 sent (omega arith) (omega arith)

aggregate_payments-Ordered_example :
    Perm (aggregate_payments to_string accounts) (payments_of to_string (add_accounts accounts []))
    × Newest (aggregate_payments to_string accounts)
aggregate_payments-Ordered_example = aggregate_payments-Ordered to_string accounts

program : Unit {0}
unfolding aggregate_payments add_accounts add_account add_contribution payments_of payment_of
    direction not_after compare_payments sort_by insert_sorted merge insert lookup
program = tt

-- The unconfirmed gift comes before the confirmed payment, whose change is netted.
two_payments :
    aggregate_payments to_string accounts
    ≡ record {
      txid = 2 ∷ [];
      payment_type = PaymentType.receive;
      status = PaymentStatus.unconfirmed;
      amount = 70;
      label = [];
      height = none;
      timestamp = none;
    }
      ∷ record {
        txid = 1 ∷ [];
        payment_type = send;
        status = confirmed_unverified;
        amount = 1100;
        label = [];
        height = some 10;
        timestamp = none;
      }
      ∷ []
unfolding program
two_payments = refl

abbrev consensus : Consensus
consensus = record {
  params = λ network. record {
    pow_target_timespan = 1209600;
    pow_target_spacing = 600;
    no_pow_retargeting = false;
    max_attainable_target = 1000;
  };
  genesis_hash = λ network. [];
  block_hash = λ h. h.time ∷ [];
  target = λ h. h.bits;
  validate_pow = λ h target. leb h.nonce target;
  from_next_work_required = λ bits timespan params. bits;
}

abbrev genesis : Header
genesis = record {
  version = 1;
  prev_blockhash = [];
  merkle_root = [];
  time = 100;
  bits = 5;
  nonce = 3;
}

abbrev next_header : Header
next_header = record {
  version = 1;
  prev_blockhash = 100 ∷ [];
  merkle_root = [];
  time = 101;
  bits = 5;
  nonce = 4;
}

interval-positive : retarget_interval (consensus.params Network.signet) ≢ 0
unfolding retarget_interval
interval-positive e = absurd (ground arith)

validate_append-Accepted_example :
    Decided
      (validate_append consensus Network.signet (genesis ∷ []) 1 next_header 50)
      (Accepted consensus Network.signet (genesis ∷ []) 1 genesis next_header 50)
validate_append-Accepted_example =
    validate_append-Accepted consensus Network.signet (genesis ∷ []) 1 genesis next_header 50
      interval-positive (λ e. absurd (ground arith)) refl
