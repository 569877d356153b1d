-- ===== src/Electrum/History/Amounts.antt =====
-- The direction and the amount that `aggregate_payments` of electrum/src/history.rs derives.
use bwk.Common.{
  ℕ, none, some, ◌≡◌, ◌≢◌, ◌↔◌, ◌⊎◌, ◌≤◌, refl, arith, ◌+◌, ◌<◌, ◌==◌, ltb, ◌&&◌, length, u64_mod,
  Option-cases, Bool-cases, inl, inr,
}
use bwk.Common.Text.{Text}
use bwk.Electrum.History.{
  TxContribution, Transaction, Payment, PaymentType, receive, send, to_self, payment_of, direction,
}

module _ {O Txid : Type 0} (to_string : Txid → Text) (txid : Txid) (f : TxContribution O) where
  -- Every output of the carried transaction is owned.
  abbrev pub OwnsAll : Type 0
  OwnsAll = (t : Transaction O) × (f.tx ≡ some t) × (length f.owned_vouts ≡ length t.output)

  -- A receive spends nothing owned or gains; any other payment spends owned value and gains none.
  -- The amount is the owned outputs less the owned inputs of a receive, and the reverse otherwise.
  abbrev pub Balanced : PaymentType → ℕ → Type 0
  Balanced receive amount =
      ((f.owned_in ≡ 0) ⊎ (f.owned_in < f.owned_out)) × (amount + f.owned_in ≡ f.owned_out)
  Balanced send amount =
      (f.owned_in ≢ 0)
      × (f.owned_out ≤ f.owned_in)
      × (amount + f.owned_out ≡ f.owned_in)
      × (¬ OwnsAll)
  Balanced to_self amount =
      (f.owned_in ≢ 0) × (f.owned_out ≤ f.owned_in) × (amount + f.owned_out ≡ f.owned_in) × OwnsAll

  direction-Balanced :
      f.owned_in < u64_mod → f.owned_out < u64_mod → Balanced (direction f).0 (direction f).1
  unfolding direction
  direction-Balanced small_in small_out = elim (Bool-cases (f.owned_in == 0)) [
    | inl nothing ↦ rw (nothing, direction) (ground arith)
    | inr some_in ↦ elim (Bool-cases (ltb f.owned_in f.owned_out)) [
      | inl gain ↦ rw (some_in, gain, direction) (ground arith)
      | inr loss ↦ elim (Option-cases f.tx) [
        | inl missing ↦
            rw (some_in, loss, missing, direction)
              (ground arith, ground arith, ground arith, λ (t, e, all). absurd (ground (arith, e)))
        | inr (t, carried) ↦ elim (Bool-cases (length f.owned_vouts == length t.output)) [
          | inl own ↦
              rw (some_in, loss, carried, direction)
                (rw own (ground arith, ground arith, ground arith, (t, refl, ground arith)))
          | inr other ↦
              rw (some_in, loss, carried, direction)
                (rw other (
                  ground arith,
                  ground arith,
                  ground arith,
                  λ (t', e, all). ground (arith, e, all),
                ))
        ]
      ]
    ]
  ]

  -- An entry whose owned values fit a `u64` makes no payment exactly when nothing of it is owned.
  -- Any other makes one under its id: a receive where no input is owned or more outputs than inputs
  -- are, by value, whose amount is the gain; otherwise a payment whose amount is the loss, to self
  -- exactly when as many outputs are owned as the carried transaction has.
  pub payment_of-Balanced :
      f.owned_in < u64_mod
      → f.owned_out < u64_mod
      → ((payment_of to_string (txid, f) ≡ none) ↔ ((f.owned_in ≡ 0) × (f.owned_out ≡ 0)))
        × ((p : Payment)
            → payment_of to_string (txid, f) ≡ some p
            → Balanced p.payment_type p.amount × (p.txid ≡ to_string txid))
  unfolding payment_of
  payment_of-Balanced small_in small_out =
      elim (Bool-cases ((f.owned_in == 0) && (f.owned_out == 0))) [
        | inl nothing ↦
            rw (nothing, payment_of) ((λ e. ground arith, λ e. refl), λ p e. absurd (ground arith))
        | inr some_owned ↦
            rw (some_owned, payment_of)
              (
                (λ e. absurd (ground arith), λ e. absurd (ground arith)),
                λ p e.
                    let same_type : p.payment_type ≡ (direction f).0 = ground arith in
                    let same_amount : p.amount ≡ (direction f).1 = ground arith in
                    (
                      rw (same_type, same_amount) (direction-Balanced small_in small_out),
                      ground arith,
                    ),
              )
      ]
