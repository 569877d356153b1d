-- ===== src/Electrum/History/Sums.antt =====
-- What the accounts contribute to a transaction, as sums over all of them.
use Prim.Native.Nat.{max}
use bwk.Common.{
  ℕ, List, [], ◌∷◌, ◌≡◌, refl, arith, ◌+◌, ◌-◌, ◌≤◌, min, if◌then◌else◌, u64_mod, subst, Bool-cases,
  inl, inr,
}
use bwk.Common.OrdMap.{Ord, key_eq, lookup, insert, lookup-insert}
use bwk.Electrum.History.{
  TxContribution, Account, entry, add_contribution, add_account, add_accounts,
}
use bwk.Electrum.History.Status.{severity, severity-merge}

abbrev pub u64_max : ℕ
u64_max = u64_mod - 1

module _ {O Txid : Type 0} ⦃o : Ord Txid⦄ (t : Txid) where
  -- The sum of a number over the contributions of an account to the transaction.
  abbrev pub account_total : (TxContribution O → ℕ) → Account Txid O → ℕ
  account_total amount [] = 0
  account_total amount ((txid, contrib) ∷ account) =
      (if key_eq t txid then amount contrib else 0) + account_total amount account

  abbrev pub total : (TxContribution O → ℕ) → List (Account Txid O) → ℕ
  total amount [] = 0
  total amount (account ∷ accounts) = account_total amount account + total amount accounts

  abbrev account_worst : Account Txid O → ℕ
  account_worst [] = 0
  account_worst ((txid, contrib) ∷ account) =
      max (if key_eq t txid then severity contrib.status else 0) (account_worst account)

  -- The severity of the worst status that an account reports for the transaction.
  abbrev pub worst : List (Account Txid O) → ℕ
  worst [] = 0
  worst (account ∷ accounts) = max (account_worst account) (worst accounts)

  abbrev InRange : TxContribution O → Type 0
  InRange f = (f.owned_in ≤ u64_max) × (f.owned_out ≤ u64_max)

  -- The entry grew by the sums, which stop at the largest `u64`.
  abbrev Grown : TxContribution O → TxContribution O → ℕ → ℕ → ℕ → Type 0
  Grown before after ins outs status =
      (after.owned_in ≡ min (before.owned_in + ins) u64_max)
      × (after.owned_out ≡ min (before.owned_out + outs) u64_max)
      × (severity after.status ≡ max (severity before.status) status)

  Grown-same : (f : TxContribution O) → InRange f → Grown f f 0 0 0
  Grown-same f small = ground arith

  Grown-add :
      (f c : TxContribution O)
      → Grown f (add_contribution f c) c.owned_in c.owned_out (severity c.status)
  unfolding add_contribution
  Grown-add f c = (refl, refl, severity-merge f.status c.status)

  Grown-then :
      (f g h : TxContribution O) (ins outs status ins' outs' status' : ℕ)
      → Grown f g ins outs status
      → Grown g h ins' outs' status'
      → Grown f h (ins + ins') (outs + outs') (max status status')
  Grown-then f g h ins outs status ins' outs' status' (i, o, s) (i', o', s') =
      (omega (arith, i, i'), omega (arith, o, o'), omega (arith, s, s'))

  Grown-InRange :
      (f g : TxContribution O) (ins outs status : ℕ) → Grown f g ins outs status → InRange g
  Grown-InRange f g ins outs status (i, o, s) = (omega (arith, i), omega (arith, o))

  entry-insert :
      (txid : Txid) (f : TxContribution O) (m : List (Txid × TxContribution O))
      → entry t (insert txid f m) ≡ (if key_eq t txid then f else entry t m)
  entry-insert txid f m = ground (arith, lookup-insert txid t f m)

  entry-Grown :
      (txid : Txid) (c : TxContribution O) (m : List (Txid × TxContribution O))
      → InRange (entry t m)
      → Grown
          (entry t m)
          (entry t (insert txid (add_contribution (entry txid m) c) m))
          (if key_eq t txid then c.owned_in else 0)
          (if key_eq t txid then c.owned_out else 0)
          (if key_eq t txid then severity c.status else 0)
  entry-Grown txid c m small = elim (Bool-cases (key_eq t txid)) [
    | inl hit ↦
        let same : t ≡ txid = ground (arith, o.cmp-eq t txid) in
        rw (entry-insert txid (add_contribution (entry txid m) c) m, hit)
          (subst
            (λ x.
              Grown (entry t m) (add_contribution (entry x m) c) c.owned_in c.owned_out
                (severity c.status))
            same (Grown-add (entry t m) c))
    | inr miss ↦
        rw (entry-insert txid (add_contribution (entry txid m) c) m, miss)
          (Grown-same (entry t m) small)
  ]

  add_account-Grown :
      (account : Account Txid O) (m : List (Txid × TxContribution O))
      → InRange (entry t m)
      → Grown
          (entry t m)
          (entry t (add_account account m))
          (account_total (λ c. c.owned_in) account)
          (account_total (λ c. c.owned_out) account)
          (account_worst account)
  unfolding add_account
  add_account-Grown [] m small = Grown-same (entry t m) small
  add_account-Grown ((txid, c) ∷ account) m small =
      let added = insert txid (add_contribution (entry txid m) c) m in
      let first = entry-Grown txid c m small in
      Grown-then (entry t m) (entry t added) (entry t (add_account account added)) _ _ _ _ _ _ first
        (add_account-Grown account added (Grown-InRange (entry t m) (entry t added) _ _ _ first))

  add_accounts-Grown :
      (accounts : List (Account Txid O)) (m : List (Txid × TxContribution O))
      → InRange (entry t m)
      → Grown
          (entry t m)
          (entry t (add_accounts accounts m))
          (total (λ c. c.owned_in) accounts)
          (total (λ c. c.owned_out) accounts)
          (worst accounts)
  unfolding add_accounts
  add_accounts-Grown [] m small = Grown-same (entry t m) small
  add_accounts-Grown (account ∷ accounts) m small =
      let added = add_account account m in
      let first = add_account-Grown account m small in
      Grown-then (entry t m) (entry t added) (entry t (add_accounts accounts added)) _ _ _ _ _ _
        first
        (add_accounts-Grown accounts added (Grown-InRange (entry t m) (entry t added) _ _ _ first))

  -- What is owned of a transaction after all accounts are added: the sum of the owned inputs, and of
  -- the owned outputs, over every account, both capped at the largest `u64`, and the worst of the
  -- reported statuses. None of the three depends on the order of the accounts.
  pub add_accounts-total :
      (accounts : List (Account Txid O))
      → ((entry t (add_accounts accounts [])).owned_in
          ≡ min (total (λ c. c.owned_in) accounts) u64_max)
        × ((entry t (add_accounts accounts [])).owned_out
            ≡ min (total (λ c. c.owned_out) accounts) u64_max)
        × (severity (entry t (add_accounts accounts [])).status ≡ worst accounts)
  unfolding lookup
  add_accounts-total accounts =
      let (i, o, s) = add_accounts-Grown accounts [] (omega arith, omega arith) in
      (omega (arith, i), omega (arith, o), omega (arith, s))
