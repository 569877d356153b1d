-- ===== src/Electrum/History/Status.antt =====
-- The order of severity behind `PaymentStatus::merge` of electrum/src/coin_store.rs.
use bwk.Common.{ℕ, ◌≡◌, arith}
use Prim.Native.Nat.{max}
use bwk.Electrum.History.{
  PaymentStatus, unconfirmed, confirmed_unverified, verified, verify_failed, merge,
}

-- A doubtful confirmation counts for more than a verified one.
abbrev pub severity : PaymentStatus → ℕ
severity unconfirmed = 0
severity verified = 1
severity confirmed_unverified = 2
severity verify_failed = 3

pub severity-merge : (a b : PaymentStatus) → severity (merge a b) ≡ max (severity a) (severity b)
unfolding merge
severity-merge a b = ground arith
