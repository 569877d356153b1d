-- ===== src/Electrum/CoinStore/Generate/Follow.antt =====
-- A listener that keeps the unspent outpoints from the notifications alone.
use bwk.Common.{
  Bool, true, false, Option, none, some, List, [], ◌∷◌, ◌++◌, ◌≡◌, ◌&&◌, not, arith, refl,
  Bool-cases, inl, inr, if◌then◌else◌,
}
use bwk.Common.OrdMap.{Sorted, key_eq, lookup}
use bwk.Common.Sets.{contains, Below-lookup}
use bwk.Coin.{OutPoint}
use bwk.Electrum.Types.{outpoint_ord}
use bwk.Electrum.CoinStore.{
  CoinEntry, Coins, Notification, coin_received, coin_spent, coin_update, is_spent,
}
use bwk.Electrum.CoinStore.Generate.Events.{
  was_spent, event_of, present_events, absent_events, coin_events,
}

-- Does the listener take the outpoint for unspent, after what it took it for?
abbrev pub follow : List Notification → OutPoint → Bool → Bool
follow [] op known = known
follow (coin_received other amount height ∷ events) op known =
    follow events op (if key_eq op other then true else known)
follow (coin_spent other ∷ events) op known =
    follow events op (if key_eq op other then false else known)
follow (coin_update ∷ events) op known = follow events op known

follow-append :
    (xs ys : List Notification) (op : OutPoint) (known : Bool)
    → follow (xs ++ ys) op known ≡ follow ys op (follow xs op known)
follow-append [] ys op known = refl
follow-append (coin_received other amount height ∷ xs) ys op known =
    follow-append xs ys op (if key_eq op other then true else known)
follow-append (coin_spent other ∷ xs) ys op known =
    follow-append xs ys op (if key_eq op other then false else known)
follow-append (coin_update ∷ xs) ys op known = follow-append xs ys op known

module _ {D : Type 0} where
  abbrev pub unspent_entry : Option (CoinEntry D) → Bool
  unspent_entry none = false
  unspent_entry (some e) = not (is_spent e)

  abbrev pub unspent : Coins D → OutPoint → Bool
  unspent coins op = unspent_entry (lookup op coins)

  -- What a present coin turns the knowledge to.
  abbrev present_known : Option (CoinEntry D) → Option (CoinEntry D) → Bool → Bool
  present_known before none known = known
  present_known none (some e) known = not (is_spent e)
  present_known (some b) (some e) known = if is_spent e && not (is_spent b) then false else known

  abbrev absent_known : Bool → Option (CoinEntry D) → Bool → Bool
  absent_known there none known = known
  absent_known there (some b) known = if not there && not (is_spent b) then false else known

  follow-event_of :
      (before : Option (CoinEntry D)) (at op : OutPoint) (e : CoinEntry D) (known : Bool)
      → follow (event_of before at e) op known
        ≡ (if key_eq op at then present_known before (some e) known else known)
  unfolding event_of
  follow-event_of none at op e known = ground arith
  follow-event_of (some b) at op e known = ground arith

  follow-present_events :
      (previous coins : Coins D) (op : OutPoint) (known : Bool)
      → Sorted coins
      → follow (present_events previous coins) op known
        ≡ present_known (lookup op previous) (lookup op coins) known
  unfolding present_events lookup
  follow-present_events previous [] op known s = refl
  follow-present_events previous ((at, e) ∷ coins) op known s = ground (
    arith,
    follow-append (event_of (lookup at previous) at e) (present_events previous coins) op known,
    follow-event_of (lookup at previous) at op e known,
    follow-present_events previous coins op (follow (event_of (lookup at previous) at e) op known)
        s.1,
    Below-lookup at coins s.0,
    outpoint_ord.cmp-eq op at,
  )

  follow-absent_events :
      (coins previous : Coins D) (op : OutPoint) (known : Bool)
      → Sorted previous
      → follow (absent_events coins previous) op known
        ≡ absent_known (contains op coins) (lookup op previous) known
  unfolding absent_events lookup
  follow-absent_events coins [] op known s = refl
  follow-absent_events coins ((at, b) ∷ previous) op known s = elim (Bool-cases (key_eq op at)) [
    | inl same ↦
        let here : op ≡ at = outpoint_ord.cmp-eq op at (ground (arith, same)) in
        ground (
          arith,
          follow-absent_events coins previous op known s.1,
          follow-absent_events coins previous op false s.1,
          Below-lookup at previous s.0,
          here,
          same,
        )
    | inr other ↦ ground (arith, follow-absent_events coins previous op known s.1, other)
  ]

  -- For two sorted coin maps and an outpoint whose coin did not turn from spent to unspent: a
  -- listener that knows whether the outpoint was unspent knows from `coin_events` whether it is.
  pub follow-coin_events :
      (previous coins : Coins D) (op : OutPoint)
      → Sorted previous
      → Sorted coins
      → was_spent (lookup op previous) && unspent coins op ≡ false
      → follow (coin_events previous coins) op (unspent previous op) ≡ unspent coins op
  unfolding coin_events
  follow-coin_events previous coins op p c stays = ground (
    arith,
    follow-append (present_events previous coins) (absent_events coins previous) op
        (unspent previous op),
    follow-present_events previous coins op (unspent previous op) c,
    follow-absent_events coins previous op
        (follow (present_events previous coins) op (unspent previous op)) p,
    stays,
  )

  -- A coin that turned from spent to unspent is not notified: the listener still takes it for spent.
  pub follow-coin_events_returned :
      (previous coins : Coins D) (op : OutPoint)
      → Sorted previous
      → Sorted coins
      → was_spent (lookup op previous) && unspent coins op ≡ true
      → follow (coin_events previous coins) op (unspent previous op) ≡ false
  unfolding coin_events
  follow-coin_events_returned previous coins op p c back = ground (
    arith,
    follow-append (present_events previous coins) (absent_events coins previous) op
        (unspent previous op),
    follow-present_events previous coins op (unspent previous op) c,
    follow-absent_events coins previous op
        (follow (present_events previous coins) op (unspent previous op)) p,
    back,
  )
