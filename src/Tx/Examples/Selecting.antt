-- ===== src/Tx/Examples/Selecting.antt =====
-- The coin selection at concrete inputs.
use bwk.Common.{ℕ, none, some, List, Option, [], ◌∷◌, ◌≡◌, refl, ◌+◌, ◌/◌, arith}
use bwk.Common.Sort.{sort_by}
use bwk.Common.OrdMap.{nat_ord, insert}
use bwk.Tx.Select.{
  CoinCandidate, Selection, select, choose, cj_selection, all_coins_combinations, discard_dust,
  add_masks, picked, fees, new, fewest_inputs,
}
use bwk.Tx.Select.Target.{Pays, select-Pays, select_complete}

abbrev vbytes : ℕ → ℕ
vbytes w = (w + 3) / 4

abbrev first_draw : ℕ → ℕ → ℕ
first_draw k n = 0

abbrev candidate : ℕ → ℕ → CoinCandidate
candidate txid sat = record {
  outpoint = record { txid = txid; vout = 0 };
  value_sat = sat;
  satisfaction_weight = 108;
}

-- The last coin is dust at this rate.
abbrev candidates : List CoinCandidate
candidates = candidate 1 60000 ∷ candidate 2 40000 ∷ candidate 3 100 ∷ []

abbrev both : Selection
both = record {
  spendable_amount = 99864;
  fees = 136;
  outpoints = record { txid = 1; vout = 0 } ∷ record { txid = 2; vout = 0 } ∷ [];
}

program : Unit {0}
unfolding select choose cj_selection all_coins_combinations discard_dust add_masks picked fees new
    sort_by insert fewest_inputs
program = tt

both_run : select first_draw vbytes candidates 70000 1000 1000 5000000 500 ≡ some (some both, none)
unfolding program
both_run = refl

select-Pays_example : Pays first_draw vbytes candidates 70000 1000 1000 5000000 500 both
unfolding program
select-Pays_example =
    select-Pays first_draw vbytes candidates 70000 1000 1000 5000000 500 {s = both} {cj = none}
      (omega arith) (omega arith) (omega arith) refl

select_complete_example :
    (s : Selection) × (cj : Option Selection) × (select first_draw vbytes candidates 70000 1000 1000
        5000000 500
      ≡ some (some s, cj))
unfolding program
select_complete_example =
    select_complete first_draw vbytes candidates 70000 1000 1000 5000000 500 3 (omega arith)
      (omega arith) (omega arith) (omega arith) (omega arith) (omega arith) (omega arith)
      (omega arith) (omega arith) (λ k n h. h)
