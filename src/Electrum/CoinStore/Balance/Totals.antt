-- ===== src/Electrum/CoinStore/Balance/Totals.antt =====
-- The balances of the spendable coins as sums over the store.
use bwk.Common.{
  ℕ, Bool, true, false, List, [], ◌∷◌, ◌≡◌, ◌+◌, ◌%◌, ◌<◌, arith, refl, ◌∙◌, ap, u64_mod,
  if◌then◌else◌,
}
use bwk.Common.Sort.{sort_by, insert_sorted}
use bwk.Coin.{CoinStatus}
use bwk.Electrum.CoinStore.{CoinEntry, Coins, CoinStore}
use bwk.Electrum.CoinStore.Balance.{
  CoinState, spendable, not_after, no_coins, count_by, count_each, spendable_coins,
}

abbrev pub in_block : CoinStatus → Bool
in_block CoinStatus.confirmed = true
in_block CoinStatus.confirmed_unverified = true
in_block _ = false

abbrev pub in_mempool : CoinStatus → Bool
in_mempool CoinStatus.unconfirmed = true
in_mempool _ = false

module _ {D : Type 0} where
  abbrev value_if : (CoinStatus → Bool) → CoinEntry D → ℕ
  value_if counts e = if counts e.coin.status then e.coin.txout.value else 0

  total_of : (CoinStatus → Bool) → List (CoinEntry D) → ℕ
  total_of counts [] = 0
  total_of counts (e ∷ entries) = value_if counts e + total_of counts entries

  -- The value of the coins in the store whose status counts.
  abbrev pub total : (CoinStatus → Bool) → Coins D → ℕ
  total counts [] = 0
  total counts ((op, e) ∷ coins) = value_if counts e + total counts coins

  total_of-insert_sorted :
      (counts : CoinStatus → Bool) (e : CoinEntry D) (entries : List (CoinEntry D))
      → total_of counts (insert_sorted not_after e entries)
        ≡ value_if counts e + total_of counts entries
  unfolding total_of insert_sorted
  total_of-insert_sorted counts e [] = refl
  total_of-insert_sorted counts e (x ∷ entries) =
      ground (arith, total_of-insert_sorted counts e entries)

  total_of-sort_by :
      (counts : CoinStatus → Bool) (entries : List (CoinEntry D))
      → total_of counts (sort_by not_after entries) ≡ total_of counts entries
  unfolding total_of sort_by
  total_of-sort_by counts [] = refl
  total_of-sort_by counts (e ∷ entries) =
      total_of-insert_sorted counts e (sort_by not_after entries)
      ∙ ap (λ n. value_if counts e + n) (total_of-sort_by counts entries)

  total_of-spendable :
      (coins : Coins D)
      → (total_of in_block (spendable coins) ≡ total in_block coins)
        × (total_of in_mempool (spendable coins) ≡ total in_mempool coins)
  unfolding total_of
  total_of-spendable [] = (refl, refl)
  total_of-spendable ((op, e) ∷ coins) = ground (arith, total_of-spendable coins)

  count_each-total_of :
      (entries : List (CoinEntry D)) (state : CoinState D)
      → ((count_each entries state).confirmed_balance % u64_mod
          ≡ (state.confirmed_balance + total_of in_block entries) % u64_mod)
        × ((count_each entries state).unconfirmed_balance % u64_mod
            ≡ (state.unconfirmed_balance + total_of in_mempool entries) % u64_mod)
  unfolding count_each total_of
  count_each-total_of [] state = (ground arith, ground arith)
  count_each-total_of (e ∷ entries) state =
      ground (arith, count_each-total_of entries (count_by e.coin.status e.coin.txout.value state))

  count_each_below :
      (entries : List (CoinEntry D)) (state : CoinState D)
      → state.confirmed_balance < u64_mod
      → state.unconfirmed_balance < u64_mod
      → ((count_each entries state).confirmed_balance < u64_mod)
        × ((count_each entries state).unconfirmed_balance < u64_mod)
  unfolding count_each
  count_each_below [] state b u = (b, u)
  count_each_below (e ∷ entries) state b u =
      count_each_below entries (count_by e.coin.status e.coin.txout.value state) (ground arith)
        (ground arith)

  -- The confirmed balance of `spendable_coins` is the sum, modulo 2^64, of the stored coins that are
  -- confirmed, with a proof or without, and the unconfirmed one of those that are unconfirmed; what is
  -- being spent counts for neither.
  pub spendable_coins-total :
      {B : Type 0} (s : CoinStore D B)
      → ((spendable_coins s).confirmed_balance ≡ total in_block s.store % u64_mod)
        × ((spendable_coins s).unconfirmed_balance ≡ total in_mempool s.store % u64_mod)
  unfolding spendable_coins
  spendable_coins-total s =
      let sorted = sort_by not_after (spendable s.store) in
      ground (
        arith,
        count_each-total_of sorted no_coins,
        count_each_below sorted no_coins (omega arith) (omega arith),
        total_of-sort_by in_block (spendable s.store),
        total_of-sort_by in_mempool (spendable s.store),
        total_of-spendable s.store,
      )
