-- ===== src/Electrum/Merkle.antt =====
-- `verify_merkle_branch` of electrum/src/header_store.rs: a transaction id is folded upward through
-- the siblings of its branch, and the last node is compared with the root.
pub mod Tree
use bwk.Common.{
  ℕ, Bool, true, false, List, [], ◌∷◌, ◌++◌, ◌==◌, ◌&&◌, ◌/◌, ◌%◌, ◌^◌, ltb, leb, length,
  if◌then◌else◌,
}
use bwk.Common.OrdMap.{key_eq}
use bwk.Common.Text.{text_ord}
use bwk.Persist.Backend.{Bytes}
use bwk.Electrum.Types.{Bitcoin}

module _ (bitcoin : Bitcoin) where
  -- One level: the node is the left one where the bit of the index is 0.
  abbrev pub level : Bytes → Bytes → ℕ → Bytes
  level node sibling idx =
      bitcoin.sha256d (if idx % 2 == 0 then node ++ sibling else sibling ++ node)

  unfoldable pub fold_branch : Bytes → List Bytes → ℕ → Bytes
  fold_branch node [] idx = node
  fold_branch node (sibling ∷ branch) idx = fold_branch (level node sibling idx) branch (idx / 2)

  unfoldable pub verify_merkle_branch : ℕ → List Bytes → ℕ → Bytes → Bool
  unfolding fold_branch
  verify_merkle_branch txid branch pos expected_root =
      if ltb (length branch) 32 && leb (2 ^ length branch) pos
      then false
      else key_eq (fold_branch (bitcoin.txid_bytes txid) branch pos) expected_root
