-- ===== src/Sp/Examples.antt =====
-- Runs of a `ScanState` and of `find_fork`, with the lemmas on them.
mod Saving
use bwk.Common.{
  true, none, some, List, [], ◌∷◌, ◌≡◌, refl, arith, ◌-◌, ◌≤◌, ◌<◌, ◌==◌, length, ok, All, add32,
  if◌then◌else◌,
}
use bwk.Common.OrdMap.{lookup, insert, remove}
use bwk.Persist.Backend.{Bytes}
use bwk.Persist.RamStore.{store_insert, store_remove, keys, empty}
use bwk.Sp.ScanState.{
  ScanState, Chain, with_backend, advance_frontier, roll_back, drop_block_hashes, last_block_hash,
  next_scan_start, find_fork, find_fork_from, rev, advance_spend_frontier, past,
}
use bwk.Sp.ScanState.Window.{
  Progress, advancing, rolling_back, advancing_spend, move_all, AllInRange, Window,
  with_backend-Window, move_all-Window, length-move_all,
}
use bwk.Sp.ScanState.Fork.{hash_at, Reorged, find_fork-roll_back}

abbrev moves : List Progress
moves =
    advancing 100 (1 ∷ [])
    ∷ advancing 101 (2 ∷ [])
    ∷ advancing_spend 100
    ∷ advancing 103 (4 ∷ [])
    ∷ rolling_back 102
    ∷ advancing 103 (5 ∷ [])
    ∷ []

moves-AllInRange : AllInRange moves
moves-AllInRange = (omega arith, (omega arith, (tt, (omega arith, (tt, (omega arith, tt))))))

abbrev moved : ScanState
moved = move_all moves (with_backend 90)

program : Unit {0}
unfolding with_backend empty advance_frontier advance_spend_frontier roll_back store_insert
    store_remove drop_block_hashes keys insert remove lookup
program = tt

moved-hashes : moved.block_hashes.cache ≡ (100, 1 ∷ []) ∷ (101, 2 ∷ []) ∷ (103, 5 ∷ []) ∷ []
unfolding program
moved-hashes = refl

moved-Window : Window moved
moved-Window = move_all-Window moves (with_backend 90) moves-AllInRange (with_backend-Window 90)

length-move_all_example : length moved.block_hashes.cache ≤ 6
length-move_all_example = length-move_all 90 moves moves-AllInRange

-- The chain replaced the block at 103.
abbrev chain : Chain
chain = record {
  from_consensus = λ h. ok h;
  block_hash = λ h. if h == 103 then ok (9 ∷ []) else ok ((h - 99) ∷ []);
}

moved-fork : find_fork chain moved.block_hashes.cache ≡ ok (some 101)
unfolding program find_fork find_fork_from
moved-fork = refl

find_fork-roll_back_example :
    (next_scan_start (roll_back moved 101) ≡ add32 101 1)
    × ((hash : Bytes) × (hash_at chain 101 ≡ ok hash)
        × (last_block_hash (roll_back moved 101) ≡ some hash))
    × (find_fork chain (roll_back moved 101).block_hashes.cache ≡ ok none)
    × All (λ e. 101 < e.0 → Reorged chain e) (rev moved.block_hashes.cache)
find_fork-roll_back_example = find_fork-roll_back chain moved 101 moved-Window.sorted moved-fork
