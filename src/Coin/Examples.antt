-- ===== src/Coin/Examples.antt =====
-- Keychain numbers at a concrete input.
use bwk.Common.{ℕ, ◌≡◌, ◌≢◌, ◌↔◌}
use bwk.Coin.{to_u32, from_u32}
use bwk.Coin.Laws.{to_u32-from_u32}

to_u32-from_u32_example : (to_u32 (from_u32 1) ≡ 1) ↔ (◌≢◌ {A = ℕ} 1 1)
to_u32-from_u32_example = to_u32-from_u32 1
