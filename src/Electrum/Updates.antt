-- ===== src/Electrum/Updates.antt =====
-- `SpkHistory`, `HistoryDiff` and `Update` of electrum/src/coin_store.rs: the history that the
-- server reports for a script, what changed since the last report, and the transactions to fetch.
pub mod Diff
use bwk.Common.{
  ℕ, Bool, true, false, Option, none, some, List, [], ◌∷◌, ◌++◌, ◌==◌, ◌&&◌, is_empty, map,
  if◌then◌else◌,
}
use bwk.Common.OrdMap.{nat_ord, lookup, insert}
use bwk.Common.Sets.{is_some, collect, keys_of}
use bwk.Common.Text.{Text}
use bwk.Common.Fault.{◌>>=◌}
use bwk.Electrum.Types.{Transaction}

-- The height of each transaction, `none` in the mempool.
abbrev pub Heights : Type 0
Heights = List (ℕ × Option ℕ)

pub record SpkHistory : Type 0 where
  pub history : List Heights

pub record HistoryDiff : Type 0 where
  pub added : Heights
  pub changed : Heights
  pub removed : Heights

unfoldable pub new : SpkHistory
new = record { history = [] ∷ [] }

abbrev pub no_diff : HistoryDiff
no_diff = record { added = []; changed = []; removed = [] }

abbrev pub same_height : Option ℕ → Option ℕ → Bool
same_height none none = true
same_height (some a) (some b) = a == b
same_height _ _ = false

-- `none` is a failed `expect`.
abbrev pub last {ℓ} : {A : Type ℓ} → List A → Option A
last [] = none
last (x ∷ []) = some x
last (x ∷ y ∷ xs) = last (y ∷ xs)

-- What one entry of the new history adds to the difference.
abbrev pub diff_entry : Heights → ℕ → Option ℕ → HistoryDiff → HistoryDiff
diff_entry previous txid height d = elim (lookup txid previous) [
  | none ↦ record d { added = insert txid height d.added }
  | some prev_height ↦
      if same_height height prev_height
      then d
      else record d { changed = insert txid height d.changed }
]

-- The loop over the new history.
unfoldable pub diff_new : Heights → Heights → HistoryDiff → HistoryDiff
diff_new previous [] d = d
diff_new previous ((txid, height) ∷ entries) d =
    diff_new previous entries (diff_entry previous txid height d)

-- The loop over the previous history.
unfoldable pub diff_removed : Heights → Heights → HistoryDiff → HistoryDiff
diff_removed entries [] d = d
diff_removed entries ((txid, height) ∷ previous) d = diff_removed entries previous (
    if is_some (lookup txid entries)
    then d
    else record d { removed = insert txid height d.removed })

-- After the last report: an empty one, or one with transactions.
abbrev pub insert_after : SpkHistory → Heights → Heights → SpkHistory × HistoryDiff
insert_after s [] [] = (s, no_diff)
insert_after s [] entries =
    (record { history = s.history ++ entries ∷ [] }, record no_diff { added = entries })
insert_after s previous entries = (
  record { history = s.history ++ entries ∷ [] },
  diff_removed entries previous (diff_new previous entries no_diff),
)

unfoldable pub insert_history : SpkHistory → Heights → Option (SpkHistory × HistoryDiff)
unfolding diff_removed diff_new collect
insert_history s reported = do
  previous ← last s.history
  some (insert_after s previous (collect reported))

pub record Update : Type 0 where
  pub spk : Text
  pub txs : List (ℕ × Option Transaction)

unfoldable pub from_diff : Text → HistoryDiff → Update
from_diff spk d = record { spk = spk; txs = map (λ txid. (txid, none)) (keys_of d.added) }

abbrev pub all_received : List (ℕ × Option Transaction) → Bool
all_received [] = true
all_received ((txid, tx) ∷ txs) = is_some tx && all_received txs

unfoldable pub is_complete : Update → Bool
is_complete u = all_received u.txs

abbrev pub missing_of : List (ℕ × Option Transaction) → List ℕ
missing_of [] = []
missing_of ((txid, none) ∷ txs) = txid ∷ missing_of txs
missing_of ((txid, some tx) ∷ txs) = missing_of txs

unfoldable pub missing : Update → List ℕ
missing u = missing_of u.txs
