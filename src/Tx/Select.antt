-- ===== src/Tx/Select.antt =====
-- The coin selection of tx/src/coin_selection.rs: every combination of the coins that are not dust,
-- and the choice of one for a target.
--
-- `to_vbytes_ceil` is `Weight::to_vbytes_ceil` of the `bitcoin` crate, and `random k n` the `k`-th
-- draw of `random_range(0..n)`. A panic of the standard library is `none`.
pub mod Values
pub mod Combinations
pub mod Choice
pub mod Returns
pub mod Target
use bwk.Common.{
  ℕ, zero, suc, Bool, true, false, Option, none, some, List, [], ◌∷◌, ◌++◌, map, ◌+◌, ◌-◌, ◌*◌, ◌/◌,
  ◌%◌, ◌^◌, ltb, leb, ◌==◌, ◌&&◌, ◌||◌, add64, sub64, mul64, length, select_by, get_elem?, is_empty,
  if◌then◌else◌,
}
use bwk.Common.Fault.{◌>>=◌}
use bwk.Common.OrdMap.{nat_ord, insert}
use bwk.Common.Sort.{sort_by}
use bwk.Coin.{Coin, OutPoint}

-- What the trait `CoinCandidate` reads of a coin.
pub record CoinCandidate : Type 0 where
  pub outpoint : OutPoint
  pub value_sat : ℕ
  pub satisfaction_weight : ℕ

unfoldable pub candidate_of : {D : Type 0} → Coin D → CoinCandidate
candidate_of c = record {
  outpoint = c.outpoint;
  value_sat = c.txout.value;
  satisfaction_weight = c.satisfaction_size;
}

pub record Selection : Type 0 where
  pub spendable_amount : ℕ
  pub fees : ℕ
  pub outpoints : List OutPoint

abbrev pub per_input_fixed_wu : ℕ
per_input_fixed_wu = 164

-- A `BTreeMap<u64, Selection>`, sorted by the spendable amount.
abbrev pub Selections : Type 0
Selections = List (ℕ × Selection)

abbrev head : Selections → Option Selection
head [] = none
head ((k, s) ∷ m) = some s

-- `range(lo..hi)` panics where `hi` is below `lo`.
unfoldable pub range : ℕ → ℕ → Selections → Option Selections
range lo hi m = if ltb hi lo then none else some (select_by (λ e. leb lo e.0 && ltb e.0 hi) m)

unfoldable pub range_from : ℕ → Selections → Selections
range_from lo m = select_by (λ e. leb lo e.0) m

-- The comparison of the sorts: by the number of inputs, then the fees of one entry with themselves.
abbrev fewer_inputs : ℕ × Selection → ℕ × Selection → Bool
fewer_inputs a b = leb (length a.1.outpoints) (length b.1.outpoints)

unfoldable pub fewest_inputs : Selections → Option Selection
unfolding sort_by
fewest_inputs m = head (sort_by fewer_inputs m)

-- Bit `i` of a mask.
abbrev pub bit : ℕ → ℕ → Bool
bit mask i = (mask / 2 ^ i) % 2 == 1

unfoldable pub picked : ℕ → ℕ → List CoinCandidate → List CoinCandidate
picked mask i [] = []
picked mask i (c ∷ cs) = let rest = picked mask (suc i) cs in if bit mask i then c ∷ rest else rest

module _ (to_vbytes_ceil : ℕ → ℕ) where
  unfoldable pub fees : CoinCandidate → ℕ → ℕ
  fees c feerate =
      mul64 (to_vbytes_ceil (add64 per_input_fixed_wu c.satisfaction_weight)) feerate / 1000

  -- The loop of `Selection::new`.
  unfoldable pub collect : List CoinCandidate → ℕ → Selection → Selection
  collect [] feerate s = s
  collect (c ∷ cs) feerate s =
      let fee = fees c feerate in
      collect cs feerate (record {
        spendable_amount = add64 s.spendable_amount (sub64 c.value_sat fee);
        fees = add64 s.fees fee;
        outpoints = s.outpoints ++ c.outpoint ∷ [];
      })

  unfoldable pub new : List CoinCandidate → ℕ → Selection
  unfolding collect
  new coins feerate =
      collect coins feerate (record { spendable_amount = 0; fees = 0; outpoints = [] })

  unfoldable pub discard_dust : List CoinCandidate → ℕ → List CoinCandidate
  discard_dust coins feerate = select_by (λ c. ltb (mul64 (fees c feerate) 2) c.value_sat) coins

  -- The loop over `count` masks from `mask` on.
  unfoldable pub add_masks : ℕ → ℕ → List CoinCandidate → ℕ → Selections → Selections
  add_masks zero mask coins feerate m = m
  add_masks (suc count) mask coins feerate m =
      let sel = new (picked mask 0 coins) feerate in
      add_masks count (suc mask) coins feerate (insert sel.spendable_amount sel m)

  -- The combinations of coins that are given, dust discarded before.
  unfoldable pub combinations : List CoinCandidate → ℕ → Option Selections
  combinations coins feerate =
      let n = length coins in
      if n == 0 || ltb 20 n then none else some (add_masks (2 ^ n - 1) 1 coins feerate [])

  unfoldable pub all_coins_combinations : List CoinCandidate → ℕ → Option Selections
  unfolding combinations
  all_coins_combinations coins feerate = combinations (discard_dust coins feerate) feerate

-- The first choice: a selection of which a tiny change can be dropped.
unfoldable pub tight_selection : Selections → ℕ → ℕ → Option (Option Selection)
unfolding range
tight_selection m target dust = do found ← range target (add64 target dust) m; some (head found)

abbrev pub or_else : Option Selection → Option (Option Selection) → Option (Option Selection)
or_else (some s) other = some (some s)
or_else none other = other

-- The four choices in turn; each waits for the failure of those before it.
unfoldable pub choose : Selections → ℕ → ℕ → ℕ → ℕ → Option (Option Selection)
unfolding tight_selection range range_from fewest_inputs
choose m target min_change max_change dust = do
  tight ← tight_selection m target dust
  or_else tight (do
    change_range ← range (add64 target min_change) (add64 target max_change) m
    or_else (fewest_inputs change_range) (
        or_else (fewest_inputs (range_from (add64 target max_change) m))
          (some (fewest_inputs (range_from target m)))))

module _ (random : ℕ → ℕ → ℕ) where
  -- An element at a random index, where there is one.
  abbrev pub drawn : ℕ → Selections → Option Selections
  drawn k [] = some []
  drawn k (e ∷ m) = do x ← get_elem? (e ∷ m) (random k (length (e ∷ m))); some (x ∷ [])

  -- The rounds `2..6` of the search for equal outputs, `rounds` of them from `i` on.
  unfoldable pub cj_candidates : ℕ → ℕ → Selections → ℕ → ℕ → Option Selections
  unfolding range
  cj_candidates zero i m chunk_min chunk_max = some []
  cj_candidates (suc rounds) i m chunk_min chunk_max =
      let later = cj_candidates rounds (suc i) m chunk_min chunk_max in
      do
        candidates ← range (mul64 chunk_min i) (mul64 chunk_max i) m
        one ← drawn i candidates
        rest ← later
        some (one ++ rest)

  unfoldable pub cj_selection : Selections → ℕ → ℕ → ℕ → Option (Option Selection)
  unfolding cj_candidates
  cj_selection m target feerate min_change =
      if ltb min_change target && ltb feerate 10_000
      then (do
        like ← cj_candidates 4 2 m (mul64 target 90 / 100) (mul64 target 110 / 100)
        one ← drawn 0 like
        some (head one))
      else some none

  module _ (to_vbytes_ceil : ℕ → ℕ) where
    unfoldable pub select :
        List CoinCandidate → ℕ → ℕ → ℕ → ℕ → ℕ → Option (Option Selection × Option Selection)
    select coins target feerate min_change max_change dust =
        elim (all_coins_combinations to_vbytes_ceil coins feerate) [
          | none ↦ some (none, none)
          | some selections ↦ do
            selection ← choose selections target min_change max_change dust
            cj ← cj_selection selections target feerate min_change
            some (selection, cj)
        ]
