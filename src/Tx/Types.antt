-- ===== src/Tx/Types.antt =====
-- The data of tx/src/transaction.rs and of the recipients it handles (tx/src/recipient.rs).
--
-- A weight is its weight units and an amount its satoshis. `Recipient` is what the code reads of a
-- `dyn RecipientProvider`: the answers of the trait's getters, with the script it would create.
use bwk.Common.{ℕ, Bool, Option, List, [], ◌==◌}
use bwk.Coin.{Coin}

pub data Error : Type 0 where
  satisfaction fees_null no_inputs no_outputs single_max address_network add_input : Error
  not_enough_for_fee derivator descriptor input output coin_selection coin_selection_fee : Error
  coin_selection_requires_feerate no_sp_provider sp_partial_secret change_already_added : Error
  pay_to_anchor not_change : Error
  missing_change : ℕ → Error
  disproportionate_fees : ℕ → ℕ → ℕ → ℕ → Error

pub data Warning : Type 0 where
  change_under_dust : ℕ → Warning
  max_under_dust : ℕ → Warning
  change_create_dust : ℕ → Warning
  max_create_dust : ℕ → Warning
  disproportionate_fees : ℕ → ℕ → Warning

unfoldable pub to_warning : Error → Option Warning
to_warning (Error.disproportionate_fees fee paid_outputs max_percent max_amount) =
    Option.some (Warning.disproportionate_fees fee paid_outputs)
to_warning _ = Option.none

pub data Fees : Type 0 where
  sats : ℕ → Fees
  milli_sats_vb : ℕ → Fees

unfoldable pub is_null : Fees → Bool
is_null (sats f) = f == 0
is_null (milli_sats_vb f) = f == 0

pub data Amount : Type 0 where
  value : ℕ → Amount
  max : Option ℕ → Amount
  anchor : Amount

pub data Drain : Type 0 where
  change max none : Drain

pub record FeeResult : Type 0 where
  pub fees : Option ℕ
  pub max : Option ℕ
  pub change : Option ℕ
  pub warnings : List Warning
  pub error : Option Error

pub record Recipient : Type 0 where
  pub output_weight : ℕ
  pub script : List ℕ
  pub is_silent_payment : Bool
  pub is_change : Bool
  pub amount : Amount

unfoldable pub set_amount : Recipient → Amount → Recipient
set_amount r a = record r { amount = a }

pub record TxTemplate (D : Type 0) : Type 0 where
  pub inputs : List (Coin D)
  pub outputs : List Recipient
  pub fees : Fees
  pub dust_threshold : ℕ

pub record TransactionResult (D : Type 0) : Type 0 where
  pub tx_template : TxTemplate D
  pub change : Option ℕ
  pub fees : Option ℕ
  pub warnings : List Warning
  pub error : Option Error

unfoldable pub from_template : {D : Type 0} → TxTemplate D → TransactionResult D
from_template t = record {
  tx_template = t;
  change = Option.none;
  fees = Option.none;
  warnings = [];
  error = Option.none;
}
