-- ===== src/Electrum/CoinStore/Balance.antt =====
-- `spendable_coins` of electrum/src/coin_store.rs, with `CoinState` of electrum/src/coin_state.rs.
pub mod Totals
use bwk.Common.{
  ℕ, Bool, true, false, List, [], ◌∷◌, ◌≡◌, ◌+◌, ◌%◌, arith, refl, add64, u64_mod, if◌then◌else◌,
  Ordering,
}
use bwk.Common.OrdMap.{key_eq}
use bwk.Common.Sets.{insert_all, collect}
use bwk.Common.Sort.{sort_by}
use bwk.Coin.{Coin, CoinStatus, OutPoint}
use bwk.Electrum.Types.{outpoint_ord, compare_outpoints}
use bwk.Electrum.CoinStore.{CoinEntry, Coins, CoinStore}

pub record CoinState (D : Type 0) : Type 0 where
  pub coins : List (OutPoint × Coin D)
  pub confirmed_coins : ℕ
  pub confirmed_balance : ℕ
  pub unconfirmed_coins : ℕ
  pub unconfirmed_balance : ℕ

abbrev is_spendable : CoinStatus → Bool
is_spendable CoinStatus.spent = false
is_spendable _ = true

abbrev at_most : Ordering → Bool
at_most Ordering.gt = false
at_most _ = true

module _ {D : Type 0} where
  abbrev pub not_after : CoinEntry D → CoinEntry D → Bool
  not_after a b = at_most (compare_outpoints a.coin.outpoint b.coin.outpoint)

  abbrev pub spendable : Coins D → List (CoinEntry D)
  spendable [] = []
  spendable ((op, e) ∷ coins) =
      let rest = spendable coins in if is_spendable e.coin.status then e ∷ rest else rest

  -- The loop over the sorted coins: the coin counts for what its status says.
  abbrev pub count_by : CoinStatus → ℕ → CoinState D → CoinState D
  count_by CoinStatus.unconfirmed value state = record state {
    unconfirmed_coins = add64 state.unconfirmed_coins 1;
    unconfirmed_balance = add64 state.unconfirmed_balance value;
  }
  count_by CoinStatus.confirmed value state = record state {
    confirmed_coins = add64 state.confirmed_coins 1;
    confirmed_balance = add64 state.confirmed_balance value;
  }
  count_by CoinStatus.confirmed_unverified value state = record state {
    confirmed_coins = add64 state.confirmed_coins 1;
    confirmed_balance = add64 state.confirmed_balance value;
  }
  count_by _ value state = state

  unfoldable pub count_each : List (CoinEntry D) → CoinState D → CoinState D
  count_each [] state = state
  count_each (e ∷ entries) state =
      count_each entries (count_by e.coin.status e.coin.txout.value state)

  abbrev by_outpoint : List (CoinEntry D) → List (OutPoint × Coin D)
  by_outpoint [] = []
  by_outpoint (e ∷ entries) = (e.coin.outpoint, e.coin) ∷ by_outpoint entries

  abbrev pub no_coins : CoinState D
  no_coins = record {
    coins = [];
    confirmed_coins = 0;
    confirmed_balance = 0;
    unconfirmed_coins = 0;
    unconfirmed_balance = 0;
  }

  unfoldable pub spendable_coins : {B : Type 0} → CoinStore D B → CoinState D
  unfolding count_each collect sort_by
  spendable_coins s =
      let sorted = sort_by not_after (spendable s.store) in
      record (count_each sorted no_coins) { coins = collect (by_outpoint sorted) }
