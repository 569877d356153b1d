-- ===== src/Electrum/Updates/Diff.antt =====
-- The difference of two reported histories, by transaction.
use bwk.Common.{ℕ, Option, none, some, List, [], ◌∷◌, ◌++◌, ◌≡◌, arith, refl, ap, if◌then◌else◌}
use bwk.Common.Fault.{◌>>=◌}
use bwk.Common.OrdMap.{Sorted, nat_ord, lookup, insert, lookup-insert}
use bwk.Common.Sets.{collect, collect-Sorted, Below-lookup, is_some}
use bwk.Electrum.Updates.{
  Heights, SpkHistory, HistoryDiff, no_diff, same_height, last, diff_entry, diff_new, diff_removed,
  insert_after, insert_history,
}

-- What the difference says of a transaction, from what it had and what it has.
abbrev pub expected_added : Option (Option ℕ) → Option (Option ℕ) → Option (Option ℕ)
expected_added none n = n
expected_added (some _) n = none

abbrev pub expected_changed : Option (Option ℕ) → Option (Option ℕ) → Option (Option ℕ)
expected_changed (some p) (some n) = if same_height n p then none else some n
expected_changed _ _ = none

abbrev pub expected_removed : Option (Option ℕ) → Option (Option ℕ) → Option (Option ℕ)
expected_removed (some p) none = some p
expected_removed _ _ = none

-- What was there, if nothing new is.
abbrev pub or_before : Option (Option ℕ) → Option (Option ℕ) → Option (Option ℕ)
or_before none before = before
or_before (some h) before = some h

diff_new-added :
    (previous entries : Heights) (d : HistoryDiff) (t : ℕ)
    → Sorted entries
    → lookup t (diff_new previous entries d).added
      ≡ or_before (expected_added (lookup t previous) (lookup t entries)) (lookup t d.added)
unfolding diff_new lookup
diff_new-added previous [] d t s = ground arith
diff_new-added previous ((txid, height) ∷ entries) d t s = ground (
  arith,
  diff_new-added previous entries (diff_entry previous txid height d) t s.1,
  lookup-insert txid t height d.added,
  nat_ord.cmp-eq t txid,
  Below-lookup txid entries s.0,
)

diff_new-changed :
    (previous entries : Heights) (d : HistoryDiff) (t : ℕ)
    → Sorted entries
    → lookup t (diff_new previous entries d).changed
      ≡ or_before (expected_changed (lookup t previous) (lookup t entries)) (lookup t d.changed)
unfolding diff_new lookup
diff_new-changed previous [] d t s = ground arith
diff_new-changed previous ((txid, height) ∷ entries) d t s = ground (
  arith,
  diff_new-changed previous entries (diff_entry previous txid height d) t s.1,
  lookup-insert txid t height d.changed,
  nat_ord.cmp-eq t txid,
  Below-lookup txid entries s.0,
)

diff_new-removed :
    (previous entries : Heights) (d : HistoryDiff)
    → (diff_new previous entries d).removed ≡ d.removed
unfolding diff_new
diff_new-removed previous [] d = refl
diff_new-removed previous ((txid, height) ∷ entries) d =
    ground (arith, diff_new-removed previous entries (diff_entry previous txid height d))

diff_removed-removed :
    (entries previous : Heights) (d : HistoryDiff) (t : ℕ)
    → Sorted previous
    → lookup t (diff_removed entries previous d).removed
      ≡ or_before (expected_removed (lookup t previous) (lookup t entries)) (lookup t d.removed)
unfolding diff_removed lookup
diff_removed-removed entries [] d t s = ground arith
diff_removed-removed entries ((txid, height) ∷ previous) d t s = ground (
  arith,
  diff_removed-removed entries previous
      (if is_some (lookup txid entries)
        then d
        else record d { removed = insert txid height d.removed })
      t s.1,
  lookup-insert txid t height d.removed,
  nat_ord.cmp-eq t txid,
  Below-lookup txid previous s.0,
)

diff_removed_kept :
    (entries previous : Heights) (d : HistoryDiff)
    → ((diff_removed entries previous d).added ≡ d.added)
      × ((diff_removed entries previous d).changed ≡ d.changed)
unfolding diff_removed
diff_removed_kept entries [] d = (refl, refl)
diff_removed_kept entries ((txid, height) ∷ previous) d = ground (
  arith,
  diff_removed_kept entries previous (
      if is_some (lookup txid entries)
      then d
      else record d { removed = insert txid height d.removed }),
)

-- The transactions of the three maps, and the new last report.
abbrev pub Diffed : Heights → Heights → SpkHistory × HistoryDiff → Type 0
Diffed previous entries (s, d) =
    (latest : Heights) × (last s.history ≡ some latest)
    × ((t : ℕ)
        → (lookup t latest ≡ lookup t entries)
          × (lookup t d.added ≡ expected_added (lookup t previous) (lookup t entries))
          × (lookup t d.changed ≡ expected_changed (lookup t previous) (lookup t entries))
          × (lookup t d.removed ≡ expected_removed (lookup t previous) (lookup t entries)))

last-append : (xs : List Heights) (x : Heights) → last (xs ++ x ∷ []) ≡ some x
last-append [] x = refl
last-append (y ∷ []) x = refl
last-append (y ∷ z ∷ xs) x = last-append (z ∷ xs) x

insert_after-Diffed :
    (s : SpkHistory) (previous entries : Heights)
    → last s.history ≡ some previous
    → Sorted previous
    → Sorted entries
    → Diffed previous entries (insert_after s previous entries)
unfolding lookup
insert_after-Diffed s [] [] h p e = ([], h, λ t. ground arith)
insert_after-Diffed s [] ((txid, height) ∷ entries) h p e =
    ((txid, height) ∷ entries, last-append s.history ((txid, height) ∷ entries), λ t. ground arith)
insert_after-Diffed s ((k, v) ∷ previous) entries h p e = (
  entries,
  last-append s.history entries,
  λ t. ground (
    arith,
    diff_removed_kept entries ((k, v) ∷ previous) (diff_new ((k, v) ∷ previous) entries no_diff),
    diff_removed-removed entries ((k, v) ∷ previous) (diff_new ((k, v) ∷ previous) entries no_diff)
        t p,
    diff_new-removed ((k, v) ∷ previous) entries no_diff,
    diff_new-added ((k, v) ∷ previous) entries no_diff t e,
    diff_new-changed ((k, v) ∷ previous) entries no_diff t e,
  ),
)

-- On a history with a last report `insert` returns; a transaction is added where only the new report
-- has it, removed where only the last one has it, changed where both have it at other heights, and
-- the new report is then the last one, as a map.
pub insert_history-Diffed :
    (s : SpkHistory) (previous reported : Heights)
    → last s.history ≡ some previous
    → Sorted previous
    → (r : SpkHistory × HistoryDiff) × (insert_history s reported ≡ some r)
      × Diffed previous (collect reported) r
unfolding insert_history
insert_history-Diffed s previous reported h p = (
  insert_after s previous (collect reported),
  ap (λ o. o >>= (λ q. some (insert_after s q (collect reported)))) h,
  insert_after-Diffed s previous (collect reported) h p (collect-Sorted reported),
)
