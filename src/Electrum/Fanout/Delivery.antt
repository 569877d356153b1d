-- ===== src/Electrum/Fanout/Delivery.antt =====
-- Whom an event of `Fanout` reaches.
use bwk.Common.{
  ℕ, true, false, not, List, [], ◌∷◌, ◌++◌, ◌≡◌, refl, sym, ap, ◌∙◌, arith, ◌==◌, ◌+◌, select_by,
  map, Bool-cases, inl, inr,
}
use bwk.Electrum.Fanout.{
  Channels, Fanout, is_gone, sender_send, register_as, retain_sent, notify_with, send_to,
  notify_one,
}

++_assoc : {A : Type 0} (xs ys zs : List A) → (xs ++ ys) ++ zs ≡ xs ++ (ys ++ zs)
++_assoc [] ys zs = refl
++_assoc (x ∷ xs) ys zs = ap (λ l. x ∷ l) (++_assoc xs ys zs)

++_nil : {A : Type 0} (xs : List A) → xs ++ [] ≡ xs
++_nil [] = refl
++_nil (x ∷ xs) = ap (λ l. x ∷ l) (++_nil xs)

module _ {T : Type 0} where
  -- The listeners whose receivers are still there.
  abbrev pub alive : Channels T → List (ℕ × ℕ) → List (ℕ × ℕ)
  alive channels listeners = select_by (λ l. not (is_gone channels l.1)) listeners

  abbrev pub reaching : T → List (ℕ × ℕ) → List (ℕ × T)
  reaching event listeners = map (λ l. (l.1, event)) listeners

  retain_sent-alive :
      (listeners : List (ℕ × ℕ)) (channels : Channels T) (event : T)
      → retain_sent listeners channels event ≡ (
        record channels {
          delivered = channels.delivered ++ reaching event (alive channels listeners);
        },
        alive channels listeners,
      )
  unfolding retain_sent sender_send
  retain_sent-alive [] channels event =
      ap (λ d. (record channels { delivered = d }, [])) (sym (++_nil channels.delivered))
  retain_sent-alive ((id, c) ∷ listeners) channels event = elim (Bool-cases (is_gone channels c)) [
    | inl lost ↦ rw (lost, sender_send) (retain_sent-alive listeners channels event)
    | inr there ↦
        let sent : Channels T = record channels {
          delivered = channels.delivered ++ (c, event) ∷ [];
        } in
        let later = reaching event (alive channels listeners) in
        let kept = (id, c) ∷ alive channels listeners in
        rw (there, sender_send)
          (ap (λ r. (r.0, (id, c) ∷ r.1)) (retain_sent-alive listeners sent event)
            ∙ ap (λ d. (record channels { delivered = d }, kept))
                (++_assoc channels.delivered ((c, event) ∷ []) later))
  ]

  -- `notify_with` delivers the event once to every listener whose receiver is there, in the order of
  -- registration, and keeps exactly these listeners.
  pub notify_with-alive :
      (channels : Channels T) (f : Fanout) (event : T)
      → notify_with channels f event ≡ (
        record channels {
          delivered = channels.delivered ++ reaching event (alive channels f.listeners);
        },
        record { listeners = alive channels f.listeners },
      )
  unfolding notify_with
  notify_with-alive channels f event =
      ap (λ r. (r.0, record { listeners = r.1 })) (retain_sent-alive f.listeners channels event)

  -- The only listener with the id is the last one.
  send_to_last :
      (listeners : List (ℕ × ℕ)) (channels : Channels T) (id c : ℕ) (event : T)
      → is_gone channels c ≡ false
      → (let others = select_by (λ l. not (l.0 == id)) listeners in
          send_to (others ++ (id, c) ∷ []) channels id event ≡ (
            record channels { delivered = channels.delivered ++ (c, event) ∷ [] },
            others ++ (id, c) ∷ [],
          ))
  unfolding send_to sender_send
  send_to_last [] channels id c event there =
      let self : (id == id) ≡ true = ground arith in rw (self, there, sender_send) refl
  send_to_last ((other, d) ∷ listeners) channels id c event there =
      elim (Bool-cases (other == id)) [
        | inl same ↦ rw same (send_to_last listeners channels id c event there)
        | inr apart ↦
            rw (apart, send_to)
              (rw apart (
                ap (λ r. (r.0, (other, d) ∷ r.1))
                  (send_to_last listeners channels id c event there)))
      ]

  -- Registering under an id replaces the channel that was there: the next event to the id reaches
  -- the fresh channel and no other, and the listeners stay, while its receiver is not dropped.
  notify_one-register_as :
      (channels : Channels T) (f : Fanout) (id : ℕ) (event : T)
      → is_gone channels channels.next_channel ≡ false
      → (let ((channels', f'), c) = register_as channels f id in
          notify_one channels' f' id event
          ≡ (record channels' { delivered = channels'.delivered ++ (c, event) ∷ [] }, f'))
  unfolding notify_one register_as
  notify_one-register_as channels f id event there =
      ap (λ r. (r.0, record { listeners = r.1 }))
        (send_to_last f.listeners (record channels { next_channel = channels.next_channel + 1 }) id
          channels.next_channel event there)
