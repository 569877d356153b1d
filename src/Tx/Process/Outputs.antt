-- ===== src/Tx/Process/Outputs.antt =====
-- The loop of `process_transaction` over the outputs, against the list of the positions of outputs
-- that take all, and the write of the maximal amount.
use bwk.Common.{
  ℕ, zero, suc, Option, none, some, List, [], ◌∷◌, ◌≡◌, refl, ◌+◌, ◌%◌, ◌<◌, ◌≤◌, arith, u64_mod,
  add64, Result, ok, err, ◌⊎◌, inr,
}
use bwk.Tx.Types.{Error, single_max, Amount, value, anchor, Recipient, set_amount}
use bwk.Tx.Checks.Laws.{outputs_value}
use bwk.Tx.Process.{scan_outputs, set_output}

-- The amount of an output that is given, where a maximal output counts nothing.
abbrev pub fixed_sats : Amount → ℕ
fixed_sats (value v) = v
fixed_sats (Amount.max v) = 0
fixed_sats anchor = 0

abbrev pub fixed_value : List Recipient → ℕ
fixed_value [] = 0
fixed_value (o ∷ os) = fixed_sats o.amount + fixed_value os

abbrev positions_step : Amount → ℕ → List ℕ → List ℕ
positions_step (value v) pos rest = rest
positions_step (Amount.max v) pos rest = pos ∷ rest
positions_step anchor pos rest = rest

-- Where the maximal outputs stand.
abbrev pub max_positions : ℕ → List Recipient → List ℕ
max_positions pos [] = []
max_positions pos (o ∷ os) = positions_step o.amount pos (max_positions (suc pos) os)

-- What the loop answers, by the maximal outputs found before and after.
abbrev answer : ℕ → Option ℕ → List ℕ → Result Error (ℕ × Option ℕ)
answer total maxed [] = ok (total, maxed)
answer total none (p ∷ []) = ok (total, some p)
answer total none (p ∷ q ∷ ps) = err single_max
answer total (some m) (p ∷ ps) = err single_max

scan_outputs-answer :
    (pos : ℕ) (os : List Recipient) (total : ℕ) (maxed : Option ℕ)
    → total < u64_mod
    → scan_outputs pos os (total, maxed)
      ≡ answer ((total + fixed_value os) % u64_mod) maxed (max_positions pos os)
unfolding scan_outputs
scan_outputs-answer pos [] total none h = ground arith
scan_outputs-answer pos [] total (some m) h = ground arith
scan_outputs-answer pos (o ∷ os) total none h = ground (
  arith,
  scan_outputs-answer (suc pos) os (add64 total (fixed_sats o.amount)) none,
  scan_outputs-answer (suc pos) os total none,
  scan_outputs-answer (suc pos) os total (some pos),
)
scan_outputs-answer pos (o ∷ os) total (some m) h = ground (
  arith,
  scan_outputs-answer (suc pos) os (add64 total (fixed_sats o.amount)) (some m),
  scan_outputs-answer (suc pos) os total (some m),
)

-- The loop adds up the given amounts modulo 2 ^ 64 and finds the one maximal output; it fails
-- exactly when two outputs or more are maximal.
pub scan_outputs-max_positions :
    (os : List Recipient)
    → scan_outputs 0 os (0, none) ≡ answer (fixed_value os % u64_mod) none (max_positions 0 os)
scan_outputs-max_positions os = ground (arith, scan_outputs-answer 0 os 0 none)

-- Without a maximal output the outputs are worth their given amounts.
pub outputs_value_fixed :
    (pos : ℕ) (os : List Recipient) → max_positions pos os ≡ [] → outputs_value os ≡ fixed_value os
outputs_value_fixed pos [] h = refl
outputs_value_fixed pos (o ∷ os) h = ground (arith, outputs_value_fixed (suc pos) os)

pub max_positions-ge :
    (pos : ℕ) (os : List Recipient) {p : ℕ} {ps : List ℕ} → max_positions pos os ≡ p ∷ ps → pos ≤ p
max_positions-ge pos [] h = absurd (ground arith)
max_positions-ge pos (o ∷ os) {p} {ps} h =
    ground (arith, max_positions-ge (suc pos) os {p = p} {ps = ps})

-- The outputs with the amount written at a position, if it exists.
abbrev pub write_amount : List Recipient → ℕ → Amount → List Recipient
write_amount [] i a = []
write_amount (o ∷ os) zero a = record o { amount = a } ∷ os
write_amount (o ∷ os) (suc i) a = o ∷ write_amount os i a

-- With one maximal output the write of its amount succeeds, and adds that amount.
pub set_output_max :
    (pos i : ℕ) (os : List Recipient) (v : ℕ)
    → max_positions pos os ≡ (pos + i) ∷ []
    → (set_output os i (Amount.max (some v)) ≡ some (write_amount os i (Amount.max (some v))))
      × (outputs_value (write_amount os i (Amount.max (some v))) ≡ fixed_value os + v)
unfolding set_output set_amount
set_output_max pos i [] v h = absurd (ground arith)
set_output_max pos zero (o ∷ os) v h =
    ground (
      arith,
      max_positions-ge (suc pos) os {p = pos + 0} {ps = []},
      outputs_value_fixed (suc pos) os,
    )
set_output_max pos (suc i) (o ∷ os) v h = ground (arith, set_output_max (suc pos) i os v)

-- What a success of the loop found.
abbrev pub Found : List Recipient → ℕ → Option ℕ → Type 0
Found os total maxed =
    (total ≡ fixed_value os % u64_mod)
    × (((maxed ≡ none) × (max_positions 0 os ≡ []))
        ⊎ ((p : ℕ) × (maxed ≡ some p) × (max_positions 0 os ≡ p ∷ [])))

pub scan_outputs-Found :
    (os : List Recipient) {total : ℕ} {maxed : Option ℕ}
    → scan_outputs 0 os (0, none) ≡ ok (total, maxed)
    → Found os total maxed
scan_outputs-Found os {total} {maxed} h = go (max_positions 0 os) refl
  where
    go : (ps : List ℕ) → max_positions 0 os ≡ ps → Found os total maxed
    go [] e = ground (arith, scan_outputs-max_positions os)
    go (p ∷ []) e = (
      ground (arith, scan_outputs-max_positions os),
      inr (p, ground (arith, scan_outputs-max_positions os), e),
    )
    go (p ∷ q ∷ ps) e = absurd (ground (arith, scan_outputs-max_positions os))
