-- ===== src/Electrum/Examples/Listening.antt =====
-- Two listeners of a `Fanout`, one of them gone, and the lemmas on them.
use bwk.Common.{ℕ, [], ◌∷◌, ◌++◌, ◌≡◌, refl}
use bwk.Electrum.Fanout.{Channels, Fanout, notify_with, retain_sent, sender_send}
use bwk.Electrum.Fanout.Delivery.{alive, reaching, notify_with-alive}

abbrev channels : Channels ℕ
channels = record { next_listener_id = 2; next_channel = 2; dropped = 1 ∷ []; delivered = [] }

abbrev fanout : Fanout
fanout = record { listeners = (0, 0) ∷ (1, 1) ∷ [] }

notify_with-alive_example : notify_with channels fanout 7 ≡ (
  record channels { delivered = [] ++ reaching 7 (alive channels fanout.listeners) },
  record { listeners = alive channels fanout.listeners },
)
notify_with-alive_example = notify_with-alive channels fanout 7

-- The gone listener is pruned.
pruned : (notify_with channels fanout 7).1.listeners ≡ (0, 0) ∷ []
unfolding notify_with retain_sent sender_send
pruned = refl
