-- ===== src/Sp/ScanState/Window.antt =====
-- The hashes that a `ScanState` keeps: at most `reorg_depth` consecutive heights, none of them past
-- the frontier.
use bwk.Common.{
  ℕ, true, Option, none, some, List, [], ◌∷◌, ◌≡◌, ◌≢◌, refl, arith, ◌+◌, ◌-◌, ◌≤◌, ◌<◌, length,
  inl, inr, if◌then◌else◌, ltb, u32_mod, add32, saturating_sub, Bool-cases,
}
use bwk.Common.OrdMap.{nat_ord, key_eq, lookup, lookup-insert, insert-Sorted, Sorted, compare-eq}
use bwk.Persist.Backend.{Bytes}
use bwk.Persist.RamStore.{store_insert, empty, values}
use bwk.Sp.ScanState.{
  ScanState, reorg_depth, past, advance_frontier, roll_back, set_last_scanned_height,
  clear_progress, advance_spend_frontier, with_backend, last_block_hash,
}
use bwk.Sp.ScanState.Kept.{
  lookup-drop_block_hashes, drop_block_hashes-Sorted, length-between, rev-highest, next_back-rev,
}

abbrev pub kept : ScanState → ℕ → Option Bytes
kept s h = lookup h s.block_hashes.cache

pub record Window (s : ScanState) : Type 0 where
  pub sorted : Sorted s.block_hashes.cache
  pub top : ℕ
  pub within : (h : ℕ) → kept s h ≢ none → (h ≤ top) × (top < h + reorg_depth)
  pub scanned : (h : ℕ) → kept s h ≢ none → (l : ℕ) × (s.last_scanned_height ≡ some l) × (h ≤ l)

-- A call that moves a frontier.
pub data Progress : Type 0 where
  advancing : ℕ → Bytes → Progress
  advancing_spend : ℕ → Progress
  setting : ℕ → Progress
  rolling_back : ℕ → Progress
  clearing : Progress

-- The last height of a `u32` is left out: the code adds one to it.
abbrev pub InRange : Progress → Type 0
InRange (advancing height hash) = height + 1 < u32_mod
InRange _ = Unit

abbrev pub move : Progress → ScanState → ScanState
move (advancing height hash) s = advance_frontier s height hash
move (advancing_spend height) s = advance_spend_frontier s height
move (setting height) s = set_last_scanned_height s height
move (rolling_back fork) s = roll_back s fork
move clearing s = clear_progress s

pub with_backend-Window : (birthday : ℕ) → Window (with_backend birthday)
unfolding with_backend empty lookup
with_backend-Window birthday = record {
  sorted = tt;
  top = 0;
  within = λ h k. absurd (k refl);
  scanned = λ h k. absurd (k refl);
}

module _ (s : ScanState) (w : Window s) where
  -- What an advance past the frontier keeps.
  kept-advance_frontier :
      (height : ℕ) (hash : Bytes)
      → height + 1 < u32_mod
      → past height s.last_scanned_height ≡ true
      → (h : ℕ)
      → kept (advance_frontier s height hash) h ≡ (
          if ltb h (height + 1 - reorg_depth)
          then none
          else if key_eq h height
          then some hash
          else kept s h)
  unfolding advance_frontier store_insert
  kept-advance_frontier height hash small ahead h = ground (
    arith,
    lookup-drop_block_hashes (λ j. ltb j (saturating_sub (add32 height 1) reorg_depth))
        (store_insert s.block_hashes height hash).0 h,
    lookup-insert height h hash s.block_hashes.cache,
  )

  advance_frontier-Window :
      (height : ℕ) (hash : Bytes) → height + 1 < u32_mod → Window (advance_frontier s height hash)
  unfolding advance_frontier store_insert
  advance_frontier-Window height hash small =
      elim (Bool-cases (past height s.last_scanned_height)) [
        | inr behind ↦ rw (behind, advance_frontier) w
        | inl ahead ↦
            rw (ahead, advance_frontier)
              (record {
                sorted =
                    drop_block_hashes-Sorted
                      (λ j. ltb j (saturating_sub (add32 height 1) reorg_depth))
                      (store_insert s.block_hashes height hash).0
                      (insert-Sorted height hash s.block_hashes.cache w.sorted);
                top = height;
                within = λ h k. ground (
                  arith,
                  kept-advance_frontier height hash small ahead h,
                  w.scanned h,
                  compare-eq h height,
                );
                scanned = λ h k. (
                  height,
                  refl,
                  ground (
                    arith,
                    kept-advance_frontier height hash small ahead h,
                    w.scanned h,
                    compare-eq h height,
                  ),
                );
              })
      ]

  roll_back-Window : (fork : ℕ) → Window (roll_back s fork)
  unfolding roll_back
  roll_back-Window fork = record {
    sorted = drop_block_hashes-Sorted (λ h. ltb fork h) s.block_hashes w.sorted;
    top = w.top;
    within = λ h k.
        ground (arith, lookup-drop_block_hashes (λ h. ltb fork h) s.block_hashes h, w.within h);
    scanned = λ h k.
        (fork, refl, ground (arith, lookup-drop_block_hashes (λ h. ltb fork h) s.block_hashes h));
  }

  clear_progress-Window : Window (clear_progress s)
  unfolding clear_progress
  clear_progress-Window = record {
    sorted = drop_block_hashes-Sorted (λ h. true) s.block_hashes w.sorted;
    top = w.top;
    within = λ h k. absurd (k (lookup-drop_block_hashes (λ h. true) s.block_hashes h));
    scanned = λ h k. absurd (k (lookup-drop_block_hashes (λ h. true) s.block_hashes h));
  }

  set_last_scanned_height-Window : (height : ℕ) → Window (set_last_scanned_height s height)
  unfolding set_last_scanned_height
  set_last_scanned_height-Window height = elim (Bool-cases (past height s.last_scanned_height)) [
    | inr behind ↦ rw (behind, set_last_scanned_height) w
    | inl ahead ↦
        rw (ahead, set_last_scanned_height)
          (record {
            sorted = w.sorted;
            top = w.top;
            within = w.within;
            scanned = λ h k. (height, refl, ground (arith, w.scanned h k));
          })
  ]

  advance_spend_frontier-Window : (height : ℕ) → Window (advance_spend_frontier s height)
  unfolding advance_spend_frontier
  advance_spend_frontier-Window height = elim (Bool-cases (past height s.last_spend_height)) [
    | inr behind ↦ rw (behind, advance_spend_frontier) w
    | inl ahead ↦
        rw (ahead, advance_spend_frontier)
          (record { sorted = w.sorted; top = w.top; within = w.within; scanned = w.scanned })
  ]

  -- Let a state keep hashes of at most `reorg_depth` consecutive heights, none past its frontier,
  -- sorted by height. So does the state after an advance of either frontier, a roll back or a reset,
  -- where an advance to the last height of a `u32` is left out.
  pub move-Window : (p : Progress) → InRange p → Window (move p s)
  move-Window (advancing height hash) small = advance_frontier-Window height hash small
  move-Window (advancing_spend height) small = advance_spend_frontier-Window height
  move-Window (setting height) small = set_last_scanned_height-Window height
  move-Window (rolling_back fork) small = roll_back-Window fork
  move-Window clearing small = clear_progress-Window

  -- A state within its window keeps at most `reorg_depth` hashes.
  pub length-Window : length s.block_hashes.cache ≤ reorg_depth
  length-Window =
      let bound : length s.block_hashes.cache ≤ (w.top + 1) - (w.top + 1 - reorg_depth) =
        length-between s.block_hashes.cache (w.top + 1 - reorg_depth) (w.top + 1) w.sorted
          (λ h k. omega (arith, w.within h k)) in
      omega (arith, bound)

  -- In a state within its window, an advance past the frontier moves it to `height` and leaves
  -- the block's hash as the last one, where `height` is not the last of a `u32`.
  last_block_hash-advance_frontier :
      (height : ℕ) (hash : Bytes)
      → height + 1 < u32_mod
      → past height s.last_scanned_height ≡ true
      → ((advance_frontier s height hash).last_scanned_height ≡ some height)
        × (last_block_hash (advance_frontier s height hash) ≡ some hash)
  unfolding last_block_hash values advance_frontier
  last_block_hash-advance_frontier height hash small ahead =
      let (rest, same) =
        rev-highest (advance_frontier s height hash).block_hashes.cache height hash
          (advance_frontier-Window height hash small).sorted
          (ground (
            arith,
            kept-advance_frontier height hash small ahead height,
            compare-eq height height,
            nat_ord.cmp-refl height,
          ))
          (λ j k. ground (
            arith,
            kept-advance_frontier height hash small ahead j,
            w.scanned j,
            compare-eq j height,
          )) in
      (
        rw (ahead, advance_frontier) refl,
        next_back-rev (advance_frontier s height hash).block_hashes.cache rest height hash same,
      )

abbrev pub move_all : List Progress → ScanState → ScanState
move_all [] s = s
move_all (p ∷ ps) s = move_all ps (move p s)

abbrev pub AllInRange : List Progress → Type 0
AllInRange [] = Unit
AllInRange (p ∷ ps) = InRange p × AllInRange ps

pub move_all-Window :
    (ps : List Progress) (s : ScanState) → AllInRange ps → Window s → Window (move_all ps s)
move_all-Window [] s small w = w
move_all-Window (p ∷ ps) s small w =
    move_all-Window ps (move p s) small.1 (move-Window s w p small.0)

-- From a new state, any sequence of advances, roll backs and resets keeps at most `reorg_depth`
-- hashes, where no advance is to the last height of a `u32`.
pub length-move_all :
    (birthday : ℕ) (ps : List Progress)
    → AllInRange ps
    → length (move_all ps (with_backend birthday)).block_hashes.cache ≤ reorg_depth
length-move_all birthday ps small =
    length-Window (move_all ps (with_backend birthday))
      (move_all-Window ps (with_backend birthday) small (with_backend-Window birthday))
