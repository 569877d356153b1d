-- ===== src/Electrum/CoinStore/Generate/Events.antt =====
-- `coin_events`: the notifications from one coin map to the next.
use bwk.Common.{Bool, false, Option, none, some, List, [], ◌∷◌, ◌++◌, ◌&&◌, not, if◌then◌else◌}
use bwk.Common.OrdMap.{lookup}
use bwk.Common.Sets.{contains, is_some}
use bwk.Coin.{OutPoint}
use bwk.Electrum.Types.{outpoint_ord}
use bwk.Electrum.CoinStore.{CoinEntry, Coins, Notification, is_spent}

module _ {D : Type 0} where
  abbrev pub received : OutPoint → CoinEntry D → Notification
  received op e = Notification.coin_received op e.coin.txout.value e.coin.height

  abbrev pub was_spent : Option (CoinEntry D) → Bool
  was_spent none = false
  was_spent (some e) = is_spent e

  -- The events of a coin that is there, after what was there before.
  unfoldable pub event_of : Option (CoinEntry D) → OutPoint → CoinEntry D → List Notification
  unfolding is_spent
  event_of before op e =
      let arrived = if is_some before then [] else received op e ∷ [] in
      let spent =
        if is_spent e && not (was_spent before) then Notification.coin_spent op ∷ [] else [] in
      arrived ++ spent

  unfoldable pub present_events : Coins D → Coins D → List Notification
  unfolding event_of
  present_events previous [] = []
  present_events previous ((op, e) ∷ coins) =
      event_of (lookup op previous) op e ++ present_events previous coins

  -- The coins that left unspent.
  unfoldable pub absent_events : Coins D → Coins D → List Notification
  unfolding is_spent
  absent_events coins [] = []
  absent_events coins ((op, e) ∷ previous) =
      let rest = absent_events coins previous in
      if not (contains op coins) && not (is_spent e)
      then Notification.coin_spent op ∷ rest
      else rest

  unfoldable pub coin_events : Coins D → Coins D → List Notification
  unfolding present_events absent_events
  coin_events previous coins = present_events previous coins ++ absent_events coins previous
