-- ===== src/Electrum/Types.antt =====
-- What the Electrum crate's stores read of the crate `bitcoin`: transactions, and the orders of
-- outpoints and of claims. A transaction id and a block hash are the numbers that their bytes spell.
use bwk.Common.{ℕ, List, ◌≡◌, arith, compare, Ordering}
use bwk.Common.OrdMap.{Ord}
use bwk.Common.Text.{then_cmp}
use bwk.Persist.Backend.{Bytes}
use bwk.Coin.{OutPoint, TxIn, TxOut}

pub record Transaction : Type 0 where
  pub version : ℕ
  pub lock_time : ℕ
  pub input : List TxIn
  pub output : List TxOut

-- What the code calls of a transaction, and the hash of the merkle trees.
pub record Bitcoin : Type 0 where
  pub compute_txid : Transaction → ℕ
  pub weight : Transaction → ℕ
  pub txid_bytes : ℕ → Bytes
  pub sha256d : Bytes → Bytes

-- A claim that the transaction is confirmed at the height.
pub record ClaimAt : Type 0 where
  pub txid : ℕ
  pub height : ℕ

abbrev pub compare_outpoints : OutPoint → OutPoint → Ordering
compare_outpoints a b = then_cmp (compare a.txid b.txid) (compare a.vout b.vout)

pub compare_outpoints-eq : (a b : OutPoint) → compare_outpoints a b ≡ Ordering.eq → a ≡ b
compare_outpoints-eq a b h = ground arith

pub compare_outpoints_refl : (a : OutPoint) → compare_outpoints a a ≡ Ordering.eq
compare_outpoints_refl a = ground arith

pub compare_outpoints_trans :
    (a b c : OutPoint)
    → compare_outpoints a b ≡ Ordering.lt
    → compare_outpoints b c ≡ Ordering.lt
    → compare_outpoints a c ≡ Ordering.lt
compare_outpoints_trans a b c h k = ground arith

pub compare_outpoints-flip :
    (a b : OutPoint) → compare_outpoints a b ≡ Ordering.gt → compare_outpoints b a ≡ Ordering.lt
compare_outpoints-flip a b h = ground arith

instance abbrev pub outpoint_ord : Ord OutPoint
outpoint_ord = record {
  cmp = compare_outpoints;
  cmp-eq = compare_outpoints-eq;
  cmp-refl = compare_outpoints_refl;
  cmp-trans = compare_outpoints_trans;
  cmp-flip = compare_outpoints-flip;
}

abbrev pub compare_claims : ClaimAt → ClaimAt → Ordering
compare_claims a b = then_cmp (compare a.txid b.txid) (compare a.height b.height)

pub compare_claims-eq : (a b : ClaimAt) → compare_claims a b ≡ Ordering.eq → a ≡ b
compare_claims-eq a b h = ground arith

pub compare_claims_refl : (a : ClaimAt) → compare_claims a a ≡ Ordering.eq
compare_claims_refl a = ground arith

pub compare_claims_trans :
    (a b c : ClaimAt)
    → compare_claims a b ≡ Ordering.lt
    → compare_claims b c ≡ Ordering.lt
    → compare_claims a c ≡ Ordering.lt
compare_claims_trans a b c h k = ground arith

pub compare_claims-flip :
    (a b : ClaimAt) → compare_claims a b ≡ Ordering.gt → compare_claims b a ≡ Ordering.lt
compare_claims-flip a b h = ground arith

instance abbrev pub claim_ord : Ord ClaimAt
claim_ord = record {
  cmp = compare_claims;
  cmp-eq = compare_claims-eq;
  cmp-refl = compare_claims_refl;
  cmp-trans = compare_claims_trans;
  cmp-flip = compare_claims-flip;
}
