-- ===== src/Electrum/History.antt =====
-- `aggregate_payments` of electrum/src/history.rs, with `Payment` and `PaymentStatus` of
-- electrum/src/coin_store.rs. An account is the contributions that it reports; the transactions,
-- `Txid` and its text are those of the crate `bitcoin`.
pub mod Status
pub mod Sums
pub mod Amounts
pub mod Sorting
use bwk.Common.{
  ℕ, Bool, true, false, Option, none, some, List, [], ◌∷◌, ◌==◌, ◌&&◌, ltb, length, if◌then◌else◌,
  compare, Ordering, saturating_add64, sub64,
}
use bwk.Common.OrdMap.{Ord, nat_ord, lookup, insert}
use bwk.Common.Text.{Text, text_ord, compare_text, then_cmp}
use bwk.Common.Sort.{sort_by}

pub data PaymentType : Type 0 where
  receive : PaymentType
  send : PaymentType
  to_self : PaymentType

pub data PaymentStatus : Type 0 where
  unconfirmed : PaymentStatus
  confirmed_unverified : PaymentStatus
  verified : PaymentStatus
  verify_failed : PaymentStatus

unfoldable pub merge : PaymentStatus → PaymentStatus → PaymentStatus
merge verify_failed _ = verify_failed
merge unconfirmed verify_failed = verify_failed
merge confirmed_unverified verify_failed = verify_failed
merge verified verify_failed = verify_failed
merge confirmed_unverified unconfirmed = confirmed_unverified
merge confirmed_unverified confirmed_unverified = confirmed_unverified
merge confirmed_unverified verified = confirmed_unverified
merge unconfirmed confirmed_unverified = confirmed_unverified
merge verified confirmed_unverified = confirmed_unverified
merge verified unconfirmed = verified
merge verified verified = verified
merge unconfirmed verified = verified
merge unconfirmed unconfirmed = unconfirmed

pub record Payment : Type 0 where
  pub txid : Text
  pub payment_type : PaymentType
  pub status : PaymentStatus
  pub amount : ℕ
  pub label : Text
  pub height : Option ℕ
  pub timestamp : Option ℕ

-- A transaction is one of the crate `bitcoin`, known by its outputs.
pub record Transaction (O : Type 0) : Type 0 where
  pub output : List O

pub record TxContribution (O : Type 0) : Type 0 where
  pub owned_in : ℕ
  pub owned_out : ℕ
  pub owned_vouts : List (ℕ × Unit {0})
  pub height : Option ℕ
  pub status : PaymentStatus
  pub timestamp : Option ℕ
  pub label : Option Text
  pub tx : Option (Transaction O)

-- The contributions of an account, by transaction.
abbrev pub Account : Type 0 → Type 0 → Type 0
Account Txid O = List (Txid × TxContribution O)

abbrev pub or_else {ℓ} : {A : Type ℓ} → Option A → Option A → Option A
or_else none later = later
or_else (some a) later = some a

-- `BTreeSet::extend`.
abbrev pub extend : List (ℕ × Unit {0}) → List (ℕ × Unit {0}) → List (ℕ × Unit {0})
extend vouts [] = vouts
extend vouts ((vout, u) ∷ more) = extend (insert vout tt vouts) more

abbrev pub unwrap_or_default : Option Text → Text
unwrap_or_default none = []
unwrap_or_default (some label) = label

module _ {O : Type 0} where
  abbrev pub default_contribution : TxContribution O
  default_contribution = record {
    owned_in = 0;
    owned_out = 0;
    owned_vouts = [];
    height = none;
    status = unconfirmed;
    timestamp = none;
    label = none;
    tx = none;
  }

  unfoldable pub add_contribution : TxContribution O → TxContribution O → TxContribution O
  unfolding merge
  add_contribution f contrib = record {
    owned_in = saturating_add64 f.owned_in contrib.owned_in;
    owned_out = saturating_add64 f.owned_out contrib.owned_out;
    owned_vouts = extend f.owned_vouts contrib.owned_vouts;
    height = or_else f.height contrib.height;
    status = merge f.status contrib.status;
    timestamp = or_else f.timestamp contrib.timestamp;
    label = or_else f.label contrib.label;
    tx = or_else f.tx contrib.tx;
  }

  -- The direction and the amount of a transaction that concerns the accounts.
  unfoldable pub direction : TxContribution O → PaymentType × ℕ
  direction f =
      if f.owned_in == 0
      then (receive, f.owned_out)
      else if ltb f.owned_in f.owned_out
      then (receive, sub64 f.owned_out f.owned_in)
      else let outflow = sub64 f.owned_in f.owned_out in
        elim f.tx [
          | none ↦ (send, outflow)
          | some t ↦
              if length f.owned_vouts == length t.output
              then (to_self, outflow)
              else (send, outflow)
        ]

  module _ {Txid : Type 0} ⦃o : Ord Txid⦄ where
    -- The entry of the transaction, or the default one.
    abbrev pub entry : Txid → List (Txid × TxContribution O) → TxContribution O
    entry txid by_txid = elim (lookup txid by_txid) [ none ↦ default_contribution | some f ↦ f ]

    unfoldable pub add_account :
        Account Txid O → List (Txid × TxContribution O) → List (Txid × TxContribution O)
    unfolding add_contribution
    add_account [] by_txid = by_txid
    add_account ((txid, contrib) ∷ account) by_txid =
        add_account account (insert txid (add_contribution (entry txid by_txid) contrib) by_txid)

    unfoldable pub add_accounts :
        List (Account Txid O) → List (Txid × TxContribution O) → List (Txid × TxContribution O)
    unfolding add_account
    add_accounts [] by_txid = by_txid
    add_accounts (account ∷ accounts) by_txid = add_accounts accounts (add_account account by_txid)

  module _ {Txid : Type 0} (to_string : Txid → Text) where
    -- The payment of an entry that some account owns a part of.
    unfoldable pub payment_of : Txid × TxContribution O → Option Payment
    unfolding direction
    payment_of (txid, f) =
        if (f.owned_in == 0) && (f.owned_out == 0)
        then none
        else let (payment_type, amount) = direction f in
          some (record {
            txid = to_string txid;
            payment_type = payment_type;
            status = f.status;
            amount = amount;
            label = unwrap_or_default f.label;
            height = f.height;
            timestamp = f.timestamp;
          })

    unfoldable pub payments_of : List (Txid × TxContribution O) → List Payment
    unfolding payment_of
    payments_of [] = []
    payments_of (e ∷ by_txid) =
        let rest = payments_of by_txid in elim (payment_of e) [ none ↦ rest | some p ↦ p ∷ rest ]

-- Unconfirmed payments first, then by descending height, then by txid.
unfoldable pub compare_payments : Payment → Payment → Ordering
compare_payments a b = elim a.height [
  | none ↦ elim b.height [ none ↦ compare_text a.txid b.txid | some hb ↦ Ordering.lt ]
  | some ha ↦ elim b.height [
    | none ↦ Ordering.gt
    | some hb ↦ then_cmp (compare hb ha) (compare_text a.txid b.txid)
  ]
]

-- The test of the stable sort.
unfoldable pub not_after : Payment → Payment → Bool
unfolding compare_payments
not_after a b = elim (compare_payments a b) [ Ordering.gt ↦ false | _ ↦ true ]

unfoldable pub aggregate_payments :
    {O Txid : Type 0} ⦃o : Ord Txid⦄ → (Txid → Text) → List (Account Txid O) → List Payment
unfolding payments_of add_accounts not_after sort_by
aggregate_payments to_string accounts =
    sort_by not_after (payments_of to_string (add_accounts accounts []))
