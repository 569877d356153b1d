-- ===== src/Persist/Types.antt =====
-- The store names and the errors of persist/src/lib.rs.
use bwk.Common.{ℕ, List, [], ◌∷◌}
use bwk.Common.Text.{Text, codes}

pub data PersistError : Type 0 where
  io : Text → PersistError
  serde : Text → PersistError
  sqlite : Text → PersistError
  sqlite_disabled : PersistError
  unknown_store : Text → PersistError
  db_version_too_new : ℕ → ℕ → PersistError
  already_open : Text → PersistError

abbrev pub account_store_key : Text
account_store_key = codes "account"

abbrev pub transactions_store_key : Text
transactions_store_key = codes "transactions.v2"

abbrev pub labels_store_key : Text
labels_store_key = codes "labels"

abbrev pub statuses_store_key : Text
statuses_store_key = codes "statuses"

abbrev pub coins_store_key : Text
coins_store_key = codes "coins"

abbrev pub txs_store_key : Text
txs_store_key = codes "txs"

abbrev pub block_hashes_store_key : Text
block_hashes_store_key = codes "block_hashes"

abbrev pub signers_store_key : Text
signers_store_key = codes "signers"

abbrev pub headers_store_key : Text
headers_store_key = codes "headers"

abbrev pub known_stores : List Text
known_stores =
    account_store_key ∷ transactions_store_key ∷ labels_store_key ∷ statuses_store_key
    ∷ coins_store_key ∷ txs_store_key ∷ block_hashes_store_key ∷ signers_store_key
    ∷ headers_store_key ∷ []
