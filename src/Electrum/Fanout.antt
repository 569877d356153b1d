-- ===== src/Electrum/Fanout.antt =====
-- `Fanout` of electrum/src/fanout.rs: one event for every registered listener. The channels of the
-- standard library are numbered; a send to a channel whose receiver is dropped fails, any other is
-- delivered, in the order of the sends.
pub mod Delivery
use bwk.Common.{
  ℕ, suc, Bool, true, false, not, List, [], ◌∷◌, ◌++◌, ◌==◌, ◌+◌, any, select_by, if◌then◌else◌,
}

pub record Channels (T : Type 0) : Type 0 where
  pub next_listener_id : ℕ
  pub next_channel : ℕ
  pub dropped : List ℕ
  pub delivered : List (ℕ × T)

pub record Fanout : Type 0 where
  pub listeners : List (ℕ × ℕ)

module _ {T : Type 0} where
  abbrev pub is_gone : Channels T → ℕ → Bool
  is_gone channels c = any (λ d. d == c) channels.dropped

  unfoldable pub sender_send : Channels T → ℕ → T → Channels T × Bool
  sender_send channels c event =
      if is_gone channels c
      then (channels, false)
      else (record channels { delivered = channels.delivered ++ (c, event) ∷ [] }, true)

  -- `ListenerId::next`.
  unfoldable pub next : Channels T → Channels T × ℕ
  next channels = (
    record channels { next_listener_id = channels.next_listener_id + 1 },
    channels.next_listener_id,
  )

  unfoldable pub register_as : Channels T → Fanout → ℕ → (Channels T × Fanout) × ℕ
  register_as channels f id =
      let c = channels.next_channel in
      let others = select_by (λ l. not (l.0 == id)) f.listeners in
      ((record channels { next_channel = c + 1 }, record { listeners = others ++ (id, c) ∷ [] }), c)

  unfoldable pub register : Channels T → Fanout → (Channels T × Fanout) × ℕ
  unfolding next register_as
  register channels f = let (channels', id) = next channels in register_as channels' f id

  unfoldable pub register_sender : Channels T → Fanout → ℕ → Channels T × Fanout
  unfolding next
  register_sender channels f sender =
      let (channels', id) = next channels in
      (channels', record { listeners = f.listeners ++ (id, sender) ∷ [] })

  -- `retain` by the success of the send.
  unfoldable pub retain_sent : List (ℕ × ℕ) → Channels T → T → Channels T × List (ℕ × ℕ)
  retain_sent [] channels event = (channels, [])
  retain_sent ((id, c) ∷ listeners) channels event =
      let (channels', sent) = sender_send channels c event in
      let (channels'', kept) = retain_sent listeners channels' event in
      (channels'', if sent then (id, c) ∷ kept else kept)

  unfoldable pub notify_with : Channels T → Fanout → T → Channels T × Fanout
  unfolding retain_sent
  notify_with channels f event =
      let (channels', kept) = retain_sent f.listeners channels event in
      (channels', record { listeners = kept })

  -- The send to the first listener with the id, which a failure removes.
  unfoldable pub send_to : List (ℕ × ℕ) → Channels T → ℕ → T → Channels T × List (ℕ × ℕ)
  send_to [] channels id event = (channels, [])
  send_to ((other, c) ∷ listeners) channels id event =
      let (channels', rest) = send_to listeners channels id event in
      let (reached, sent) = sender_send channels c event in
      if other == id
      then (reached, if sent then (other, c) ∷ listeners else listeners)
      else (channels', (other, c) ∷ rest)

  unfoldable pub notify_one : Channels T → Fanout → ℕ → T → Channels T × Fanout
  unfolding send_to
  notify_one channels f id event =
      let (channels', listeners) = send_to f.listeners channels id event in
      (channels', record { listeners = listeners })
