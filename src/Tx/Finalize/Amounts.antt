-- ===== src/Tx/Finalize/Amounts.antt =====
-- The amounts of prepared outputs, and what a transaction pays out.
use mathlib.Core.List.{append-nil}
use bwk.Common.{
  ℕ, true, Option, none, some, List, [], ◌∷◌, ◌++◌, map, ◌≡◌, ◌+◌, ◌*◌, ◌≤◌, ◌⊎◌, arith, All, refl,
  Bool-cases, inl, inr, sum, ok, if◌then◌else◌,
}
use bwk.Tx.Types.{Amount, Recipient}
use bwk.Tx.Checks.{output_amount}
use bwk.Tx.Checks.Laws.{outputs_value, paid_value}
use bwk.Tx.Finalize.{
  SpProvider, Psbt, output_bitcoin_amount, bitcoin_sats, created_output, prepare_outputs,
}
use bwk.Tx.Finalize.Filled.{Filled}

-- What the transaction pays out.
abbrev pub paid_out : {P O : Type 0} → Psbt P O → ℕ
paid_out psbt = sum (map (λ o. o.value) psbt.unsigned_tx.output)

abbrev pub amounts : List Recipient → List Amount
amounts outputs = map (λ r. r.amount) outputs

pub created_value :
    (outputs : List Recipient)
    → sum (map (λ o. o.value) (map created_output outputs))
      ≡ sum (map bitcoin_sats (amounts outputs))
created_value [] = refl
created_value (o ∷ outputs) = ground (arith, created_value outputs)

pub amounts_value :
    (outputs : List Recipient)
    → sum (map bitcoin_sats (amounts outputs)) ≡ sum (map output_bitcoin_amount outputs)
amounts_value [] = refl
amounts_value (o ∷ outputs) = ground (arith, amounts_value outputs)

-- The providers of silent payments set scripts only.
abbrev pub KeepsAmounts : {D S : Type 0} → Option (SpProvider D S) → Type 0
KeepsAmounts none = Unit
KeepsAmounts {S = S} (some p) =
    (outputs : List Recipient) (secret : S)
    → map (λ r. r.amount) (p.derive_sp_scripts outputs secret) ≡ map (λ r. r.amount) outputs

-- The part of an output that is not change.
abbrev pub paid_part : Recipient → ℕ
paid_part r = if r.is_change then 0 else output_amount r

pub paid_value-sum : (outputs : List Recipient) → paid_value outputs ≡ sum (map paid_part outputs)
paid_value-sum [] = refl
paid_value-sum (o ∷ outputs) = ground (arith, paid_value-sum outputs)

-- The change, as an output or none.
abbrev pub as_outputs : Option Recipient → List Recipient
as_outputs none = []
as_outputs (some change) = change ∷ []

abbrev pub change_value : Option Recipient → ℕ
change_value none = 0
change_value (some change) = output_amount change

abbrev pub ChangeFilled : Option Recipient → Type 0
ChangeFilled none = Unit
ChangeFilled (some change) = Filled change

-- The fee is within the percentage of what is paid, or within the amount.
abbrev pub FeeIsSane : ℕ → ℕ → ℕ → ℕ → Type 0
FeeIsSane fee paid pct amount = (paid ≡ 0) ⊎ ((fee * 100 ≤ paid * pct) ⊎ (fee ≤ amount))

pub sums-append :
    (outputs : List Recipient) (change : Option Recipient)
    → All Filled outputs
    → ChangeFilled change
    → All Filled (outputs ++ as_outputs change)
      × (outputs_value (outputs ++ as_outputs change) ≡ outputs_value outputs + change_value change)
sums-append [] none f g = (tt, omega arith)
sums-append [] (some change) f g = ground (arith, g)
sums-append (o ∷ outputs) change f g = ground (arith, sums-append outputs change f.1 g, f.0)

paid_value_change :
    (outputs : List Recipient) (change : Recipient)
    → change.is_change ≡ true
    → paid_value (outputs ++ change ∷ []) ≡ paid_value outputs
paid_value_change [] change h = ground arith
paid_value_change (o ∷ outputs) change h = ground (arith, paid_value_change outputs change h)

pub prepare_outputs-ok :
    (outputs prepared : List Recipient) (change : Option Recipient)
    → prepare_outputs outputs change ≡ ok prepared
    → (prepared ≡ outputs ++ as_outputs change) × (paid_value prepared ≡ paid_value outputs)
unfolding prepare_outputs
prepare_outputs-ok outputs prepared none e =
    (ground (arith, e, append-nil outputs), ground (arith, e, append-nil outputs))
prepare_outputs-ok outputs prepared (some change) e = elim (Bool-cases change.is_change) [
  | inr other ↦ absurd (ground (arith, e, other))
  | inl is ↦ ground (arith, e, is, paid_value_change outputs change is)
]
