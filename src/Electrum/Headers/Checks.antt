-- ===== src/Electrum/Headers/Checks.antt =====
-- When the checks of electrum/src/header_validator.rs on the clock and on the median pass.
use bwk.Common.{
  ℕ, Bool, true, false, some, List, [], ◌∷◌, ◌≡◌, ◌≢◌, ◌↔◌, ◌⊎◌, inl, inr, refl, arith, suc, zero,
  ◌-◌, ◌≤◌, ◌<◌, min, leb, length, drop, is_empty, Result, ok, err, if◌then◌else◌, Bool-cases,
  u64_mod, ◌+◌,
}
use bwk.Common.Text.{text_ord}
use bwk.Electrum.Headers.{
  Network, Header, Check, HeaderError, check_mtp, check_future_cap, window_times, is_regtest,
  mtp_window, require, and_check,
}
use bwk.Electrum.Headers.Rules.{is_regtest-regtest, PastLast, window_times-PastLast}
use bwk.Electrum.Headers.Median.{median_time-below}

-- The check returns, and passes exactly under the condition.
abbrev pub Decided : Check → Type 0 → Type 0
Decided check P = (r : Result HeaderError (Unit {0})) × (check ≡ some r) × ((r ≡ ok tt) ↔ P)

-- A check after another passes exactly when both do.
pub and_check-Decided :
    {P Q : Type 0} (first : Result HeaderError (Unit {0})) (next : Check)
    → (first ≡ ok tt) ↔ P
    → Decided next Q
    → Decided (and_check first next) (P × Q)
and_check-Decided (ok u) next (to, from) (r, same, decided) =
    (r, same, (λ e. (to refl, decided.0 e), λ both. decided.1 both.1))
and_check-Decided (err x) next (to, from) (r, same, decided) =
    (err x, refl, (λ e. absurd (ground arith), λ both. from both.0))

pub require-ok : (test : Bool) (e : HeaderError) → (require test e ≡ ok tt) ↔ (test ≡ true)
require-ok true e = (λ h. refl, λ h. refl)
require-ok false e = ground arith

-- The median rule, which the regression network does not ask for.
abbrev pub PastMedian : Network → List Header → Header → Type 0
PastMedian network ancestors incoming =
    (network ≡ Network.regtest) ⊎ PastLast ancestors incoming.time

drop-some : {A : Type 0} (n : ℕ) (xs : List A) → n < length xs → drop n xs ≢ []
drop-some n [] h e = omega (arith, h)
drop-some zero (x ∷ xs) h e = ground arith
drop-some (suc n) (x ∷ xs) h e = drop-some n xs (omega (arith, h)) e

window_times-some : (ancestors : List Header) → ancestors ≢ [] → window_times ancestors ≢ []
unfolding window_times
window_times-some [] h e = h refl
window_times-some (a ∷ ancestors) h e =
    let n = length (a ∷ ancestors) - min (length (a ∷ ancestors)) mtp_window in
    let left : drop n (a ∷ ancestors) ≢ [] = drop-some n (a ∷ ancestors) (omega arith) in
    ground (arith, left)

pub check_mtp-Decided :
    (network : Network) (ancestors : List Header) (incoming : Header)
    → ancestors ≢ []
    → Decided (check_mtp network ancestors incoming) (PastMedian network ancestors incoming)
unfolding check_mtp
check_mtp-Decided network ancestors incoming some_ancestor =
    elim (Bool-cases (is_regtest network)) [
      | inl skipped ↦
          rw (skipped, check_mtp)
            (ok tt, refl, (λ e. inl ((is_regtest-regtest network).0 skipped), λ p. refl))
      | inr pinned ↦
          let filled : is_empty ancestors ≡ false = ground arith in
          let (m, found, half) =
            median_time-below (window_times ancestors)
              (window_times-some ancestors some_ancestor) in
          rw (pinned, filled, found, check_mtp)
            (
              (if leb incoming.time m then err HeaderError.mtp_violation else ok tt),
              refl,
              ground (
                arith,
                half incoming.time,
                window_times-PastLast ancestors incoming.time,
                is_regtest-regtest network,
              ),
            )
    ]

pub check_future_cap-ok :
    (incoming : Header) (now_secs : ℕ)
    → (check_future_cap incoming now_secs ≡ ok tt)
      ↔ (incoming.time ≤ min (now_secs + 7200) (u64_mod - 1))
unfolding check_future_cap
check_future_cap-ok incoming now_secs = ground arith
