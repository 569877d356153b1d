-- ===== src/Electrum/History/Sorting.antt =====
-- The order of the payments that `aggregate_payments` of electrum/src/history.rs returns.
use mathlib.Core.List.{Perm}
use bwk.Common.{
  ℕ, Option, none, some, true, false, List, [], ◌∷◌, ◌≡◌, ◌≢◌, ◌<◌, ◌⊎◌, arith, All, All-weaken,
  Option-cases, inl, inr, Ordering,
}
use bwk.Common.OrdMap.{Ord}
use bwk.Common.Text.{Text, compare_text, compare_text-eq, compare_text_trans, compare_text-flip}
use bwk.Common.Sort.{sort_by-perm, sort_by-Ordered, Ordered}
use bwk.Electrum.History.{
  Account, Payment, compare_payments, not_after, aggregate_payments, payments_of, add_accounts,
}

not_after_total : (a b : Payment) → not_after a b ≡ false → not_after b a ≡ true
unfolding not_after compare_payments
not_after_total a b h = ground (arith, compare_text-flip a.txid b.txid)

not_after_chain :
    (a b c : Payment) → not_after a b ≡ true → not_after b c ≡ true → not_after a c ≡ true
unfolding not_after compare_payments
not_after_chain a b c h k = ground (
  arith,
  compare_text-eq a.txid b.txid,
  compare_text-eq b.txid c.txid,
  compare_text_trans a.txid b.txid c.txid,
)

-- Heights in descending order, unconfirmed first; `Tie` orders payments of one height.
abbrev HeightsDescend : Option ℕ → Option ℕ → Type 0 → Type 0
HeightsDescend none none Tie = Tie
HeightsDescend none (some hb) Tie = Unit
HeightsDescend (some ha) none Tie = ⊥
HeightsDescend (some ha) (some hb) Tie = (hb < ha) ⊎ ((ha ≡ hb) × Tie)

-- A payment may stand before another: no lower height, and at one height no later text of the id.
abbrev pub StandsBefore : Payment → Payment → Type 0
StandsBefore a b = HeightsDescend a.height b.height (compare_text a.txid b.txid ≢ Ordering.gt)

not_after-StandsBefore : (a b : Payment) → not_after a b ≡ true → StandsBefore a b
unfolding not_after compare_payments
not_after-StandsBefore a b h = elim (Option-cases a.height) [
  | inl none_a ↦ elim (Option-cases b.height) [
    | inl none_b ↦ ground (arith, h, none_a, none_b)
    | inr (hb, some_b) ↦ ground (arith, none_a, some_b)
  ]
  | inr (ha, some_a) ↦ elim (Option-cases b.height) [
    | inl none_b ↦ absurd (ground (arith, h, some_a, none_b))
    | inr (hb, some_b) ↦ ground (arith, h, some_a, some_b)
  ]
]

-- Every payment may stand before all those after it.
abbrev pub Newest : List Payment → Type 0
Newest [] = Unit
Newest (p ∷ ps) = All (StandsBefore p) ps × Newest ps

Ordered-Newest : (ps : List Payment) → Ordered not_after ps → Newest ps
Ordered-Newest [] s = tt
Ordered-Newest (p ∷ ps) s = (
  All-weaken (λ q. not_after p q ≡ true) (StandsBefore p) (not_after-StandsBefore p) ps s.0,
  Ordered-Newest ps s.1,
)

-- The history is the payments of the summed entries, each once. Of two of them the unconfirmed one
-- stands first, else the one of the larger height; at one height, or where both are unconfirmed,
-- the one whose id has no later text.
pub aggregate_payments-Ordered :
    {O Txid : Type 0} ⦃o : Ord Txid⦄ (to_string : Txid → Text) (accounts : List (Account Txid O))
    → Perm
        (aggregate_payments to_string accounts)
        (payments_of to_string (add_accounts accounts []))
      × Newest (aggregate_payments to_string accounts)
unfolding aggregate_payments
aggregate_payments-Ordered to_string accounts =
    let payments = payments_of to_string (add_accounts accounts []) in
    (
      sort_by-perm not_after payments,
      Ordered-Newest _ (sort_by-Ordered not_after not_after_total not_after_chain payments),
    )
