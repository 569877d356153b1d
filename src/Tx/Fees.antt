-- ===== src/Tx/Fees.antt =====
-- `process_fees` of tx/src/transaction.rs: how the gap between inputs and outputs is split into the
-- fee and a drain (the change, or the output that takes all).
--
-- `to_vbytes_ceil` is `Weight::to_vbytes_ceil` of the `bitcoin` crate. The arithmetic on `u64` wraps,
-- as in the release build.
pub mod Conservation
pub mod Dust
pub mod Underflow
use bwk.Common.{
  ℕ, Bool, true, false, Option, none, some, List, [], ◌∷◌, ◌-◌, ◌/◌, ltb, leb, if◌then◌else◌, sub64,
  mul64,
}
use bwk.Tx.Types.{
  Fees, sats, milli_sats_vb, Drain, FeeResult, Warning, change_under_dust, max_under_dust,
  change_create_dust, max_create_dust, Error, add_input, not_enough_for_fee,
}

abbrev pub failed : Error → FeeResult
failed e = record { fees = none; max = none; change = none; warnings = []; error = some e }

-- The fee takes the whole allowance, and `lost` is what a drain would have received.
abbrev pub under_dust : Drain → ℕ → List Warning
under_dust Drain.change lost = change_under_dust lost ∷ []
under_dust Drain.max lost = max_under_dust lost ∷ []
under_dust Drain.none lost = []

abbrev pub create_dust : Drain → ℕ → List Warning
create_dust Drain.change lost = change_create_dust lost ∷ []
create_dust Drain.max lost = max_create_dust lost ∷ []
create_dust Drain.none lost = []

abbrev all_to_fee : ℕ → List Warning → FeeResult
all_to_fee allowance ws = record {
  fees = some allowance;
  max = none;
  change = none;
  warnings = ws;
  error = none;
}

abbrev with_drain : Drain → ℕ → ℕ → ℕ → FeeResult
with_drain Drain.none allowance wo_change with_change = record {
  fees = some wo_change;
  max = none;
  change = none;
  warnings = [];
  error = none;
}
with_drain Drain.change allowance wo_change with_change = record {
  fees = some with_change;
  max = none;
  change = some (sub64 allowance with_change);
  warnings = [];
  error = none;
}
with_drain Drain.max allowance wo_change with_change = record {
  fees = some wo_change;
  max = some (sub64 allowance wo_change);
  change = none;
  warnings = [];
  error = none;
}

-- The fee of a weight, absolute or by the rate in millisatoshis a virtual byte.
unfoldable pub fee_for : (ℕ → ℕ) → Fees → ℕ → ℕ
fee_for to_vbytes_ceil (sats fee) weight = fee
fee_for to_vbytes_ceil (milli_sats_vb rate) weight = mul64 (to_vbytes_ceil weight) rate / 1000

-- The two thresholds, once the allowance covers the fee without change.
split_allowance : Drain → ℕ → ℕ → ℕ → ℕ → FeeResult
split_allowance drain dust allowance wo_change with_change =
    if ltb (sub64 allowance wo_change) dust
    then all_to_fee allowance (under_dust drain (sub64 allowance wo_change))
    else if ltb (sub64 allowance with_change) dust
    then all_to_fee allowance (create_dust drain (sub64 allowance wo_change))
    else with_drain drain allowance wo_change with_change

unfoldable pub process_fees : (ℕ → ℕ) → Fees → ℕ → ℕ → ℕ → ℕ → Drain → ℕ → FeeResult
unfolding split_allowance
process_fees to_vbytes_ceil fees weight_wo_change weight_with_change sum_inputs sum_outputs drain
      dust =
    if ltb sum_inputs sum_outputs
    then failed add_input
    else let allowance = sub64 sum_inputs sum_outputs in
      let wo_change = fee_for to_vbytes_ceil fees weight_wo_change in
      let with_change = fee_for to_vbytes_ceil fees weight_with_change in
      if ltb allowance wo_change
      then failed not_enough_for_fee
      else split_allowance drain dust allowance wo_change with_change
