-- ===== src/Tx/Select/Values.antt =====
-- What a `Selection` is worth: the values of its coins, less their fees.
use bwk.Common.{
  ℕ, suc, List, [], ◌∷◌, ◌++◌, map, ◌≡◌, ◌∙◌, ◌+◌, ◌*◌, ◌/◌, ◌%◌, ◌<◌, ◌≤◌, arith, u64_mod, sum,
  All, ltb, mul64, add64, sub64, true,
}
use mathlib.Core.List.{append_assoc, append-nil}
use bwk.Tx.Select.{CoinCandidate, Selection, fees, collect, new, discard_dust, picked}

abbrev pub values : List CoinCandidate → ℕ
values coins = sum (map (λ c. c.value_sat) coins)

module _ (to_vb : ℕ → ℕ) (feerate : ℕ) where
  -- What the weight of an input costs: 164 weight units and those of its satisfaction.
  abbrev pub input_fee : CoinCandidate → ℕ
  input_fee c = (to_vb ((164 + c.satisfaction_weight) % u64_mod) * feerate) % u64_mod / 1000

  abbrev pub input_fees : List CoinCandidate → ℕ
  input_fees coins = sum (map input_fee coins)

  -- A coin that `discard_dust` keeps: its value is more than twice its fee.
  abbrev pub IsWorthwhile : CoinCandidate → Type 0
  IsWorthwhile c = fees to_vb c feerate * 2 < c.value_sat

  discard_dust-step :
      (c : CoinCandidate) → ltb (mul64 (fees to_vb c feerate) 2) c.value_sat ≡ true → IsWorthwhile c
  unfolding fees
  discard_dust-step c h = ground arith

  pub discard_dust-IsWorthwhile :
      (coins : List CoinCandidate) → All IsWorthwhile (discard_dust to_vb coins feerate)
  unfolding discard_dust
  discard_dust-IsWorthwhile [] = tt
  discard_dust-IsWorthwhile (c ∷ cs) =
      ground (arith, discard_dust-step c, discard_dust-IsWorthwhile cs)

  collect-value :
      (coins : List CoinCandidate) (s : Selection)
      → All IsWorthwhile coins
      → s.spendable_amount + s.fees + values coins < u64_mod
      → (collect to_vb coins feerate s).spendable_amount + (collect to_vb coins feerate s).fees
        ≡ s.spendable_amount + s.fees + values coins
  unfolding collect
  collect-value [] s h b = omega arith
  collect-value (c ∷ cs) s h b =
      let fee = fees to_vb c feerate in
      ground (
        arith,
        collect-value cs (record {
          spendable_amount = add64 s.spendable_amount (sub64 c.value_sat fee);
          fees = add64 s.fees fee;
          outpoints = s.outpoints ++ c.outpoint ∷ [];
        }),
      )

  collect-fees :
      (coins : List CoinCandidate) (s : Selection)
      → All IsWorthwhile coins
      → s.fees + values coins < u64_mod
      → (collect to_vb coins feerate s).fees ≡ s.fees + input_fees coins
  unfolding collect fees
  collect-fees [] s h b = omega arith
  collect-fees (c ∷ cs) s h b =
      let fee = fees to_vb c feerate in
      ground (
        arith,
        collect-fees cs (record {
          spendable_amount = add64 s.spendable_amount (sub64 c.value_sat fee);
          fees = add64 s.fees fee;
          outpoints = s.outpoints ++ c.outpoint ∷ [];
        }),
      )

  collect-outpoints :
      (coins : List CoinCandidate) (s : Selection)
      → (collect to_vb coins feerate s).outpoints ≡ s.outpoints ++ map (λ c. c.outpoint) coins
  unfolding collect
  collect-outpoints [] s = rw append-nil
  collect-outpoints (c ∷ cs) s =
      let fee = fees to_vb c feerate in
      collect-outpoints cs (record {
        spendable_amount = add64 s.spendable_amount (sub64 c.value_sat fee);
        fees = add64 s.fees fee;
        outpoints = s.outpoints ++ c.outpoint ∷ [];
      })
      ∙ append_assoc s.outpoints (c.outpoint ∷ []) (map (λ x. x.outpoint) cs)

  -- A selection of worthwhile coins splits their values into the fees of the inputs and what can be
  -- spent, and names their outpoints in order.
  pub new-values :
      (coins : List CoinCandidate)
      → All IsWorthwhile coins
      → values coins < u64_mod
      → ((new to_vb coins feerate).spendable_amount + (new to_vb coins feerate).fees ≡ values coins)
        × ((new to_vb coins feerate).fees ≡ input_fees coins)
        × ((new to_vb coins feerate).outpoints ≡ map (λ c. c.outpoint) coins)
  unfolding new
  new-values coins h b = (
    ground (arith, collect-value coins (record { spendable_amount = 0; fees = 0; outpoints = [] })),
    ground (arith, collect-fees coins (record { spendable_amount = 0; fees = 0; outpoints = [] })),
    collect-outpoints coins _,
  )

  pub picked-All :
      (mask i : ℕ) (coins : List CoinCandidate)
      → All IsWorthwhile coins
      → All IsWorthwhile (picked mask i coins)
  unfolding picked
  picked-All mask i [] h = tt
  picked-All mask i (c ∷ cs) h = ground (arith, picked-All mask (suc i) cs h.1)

pub picked-values-le :
    (mask i : ℕ) (coins : List CoinCandidate) → values (picked mask i coins) ≤ values coins
unfolding picked
picked-values-le mask i [] = omega arith
picked-values-le mask i (c ∷ cs) = ground (arith, picked-values-le mask (suc i) cs)
