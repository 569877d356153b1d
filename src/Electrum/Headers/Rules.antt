-- ===== src/Electrum/Headers/Rules.antt =====
-- The networks and the window of ancestors that electrum/src/header_validator.rs treats apart, by
-- their own description.
use bwk.Common.{
  ℕ, suc, zero, true, List, [], ◌∷◌, ◌++◌, ◌≡◌, ◌↔◌, ◌⊎◌, inl, inr, refl, arith, ◌-◌, ◌/◌, ◌<◌, ◌≤◌,
  min, map, length, length-append, drop, sym, subst, ap, ◌∙◌,
}
use bwk.Electrum.Headers.{
  Network, testnet, testnet4, bitcoin, signet, regtest, Header, relaxed, is_regtest, window_times,
}
use bwk.Electrum.Headers.Median.{below}

-- The networks that do not ask for the bits.
abbrev pub IsTestnet : Network → Type 0
IsTestnet network = (network ≡ Network.testnet) ⊎ (network ≡ Network.testnet4)

pub relaxed-IsTestnet : (network : Network) → (relaxed network ≡ true) ↔ IsTestnet network
relaxed-IsTestnet bitcoin = ground arith
relaxed-IsTestnet testnet = (λ e. inl refl, λ p. refl)
relaxed-IsTestnet testnet4 = (λ e. inr refl, λ p. refl)
relaxed-IsTestnet signet = ground arith
relaxed-IsTestnet regtest = ground arith

pub is_regtest-regtest :
    (network : Network) → (is_regtest network ≡ true) ↔ (network ≡ Network.regtest)
is_regtest-regtest bitcoin = ground arith
is_regtest-regtest testnet = ground arith
is_regtest-regtest testnet4 = ground arith
is_regtest-regtest signet = ground arith
is_regtest-regtest regtest = (λ e. refl, λ p. refl)

-- The time is past those of more than half of the last 11 headers, or of all where there are fewer.
abbrev pub PastLast : List Header → ℕ → Type 0
PastLast ancestors time =
    (older : List Header) × (recent : List Header) × (ancestors ≡ older ++ recent)
    × (length recent ≡ min 11 (length ancestors))
    × (length recent / 2 < below time (map (λ h. h.time) recent))

take_drop :
    (n : ℕ) (xs : List Header)
    → n ≤ length xs
    → (older : List Header) × (xs ≡ older ++ drop n xs) × (length older ≡ n)
take_drop zero xs h = ([], refl, refl)
take_drop (suc n) [] h = absurd (omega arith)
take_drop (suc n) (x ∷ xs) h =
    let (older, same, size) = take_drop n xs (omega arith) in
    (x ∷ older, ap (λ l. x ∷ l) same, omega arith)

drop-append : (older recent : List Header) → drop (length older) (older ++ recent) ≡ recent
drop-append [] recent = refl
drop-append (x ∷ older) recent = drop-append older recent

length-map : (xs : List Header) → length (map (λ h. h.time) xs) ≡ length xs
length-map [] = refl
length-map (x ∷ xs) = ground (arith, length-map xs)

window_times-append :
    (older recent : List Header) {n : ℕ}
    → length (older ++ recent) ≡ n
    → length recent ≡ min 11 n
    → window_times (older ++ recent) ≡ map (λ h. h.time) recent
unfolding window_times
window_times-append older recent {n} size long =
    let whole = length-append older recent in
    let start : length older ≡ length (older ++ recent) - min (length (older ++ recent)) 11 =
      omega arith in
    ap (map (λ h. h.time))
      (ap (λ k. drop k (older ++ recent)) (sym start) ∙ drop-append older recent)

pub window_times-PastLast :
    (ancestors : List Header) (time : ℕ)
    → (length (window_times ancestors) / 2 < below time (window_times ancestors))
      ↔ PastLast ancestors time
unfolding window_times
window_times-PastLast ancestors time =
    let n = length ancestors - min 11 (length ancestors) in
    let (older, same, size) = take_drop n ancestors (omega arith) in
    let recent = drop n ancestors in
    let whole = length-append older recent in
    let total : length (older ++ recent) ≡ length ancestors = ap length (sym same) in
    let window : min (length ancestors) 11 ≡ min 11 (length ancestors) = omega arith in
    (
      λ past. (
        older,
        recent,
        same,
        omega (arith, whole, total, size),
        ground (arith, window, past, length-map recent),
      ),
      λ (o, r, split, long, half).
          let times : window_times ancestors ≡ map (λ h. h.time) r =
            ap window_times split ∙ window_times-append o r (ap length (sym split)) long in
          subst (λ l. length l / 2 < below time l) (sym times)
            (subst (λ k. k / 2 < below time (map (λ h. h.time) r)) (sym (length-map r)) half),
    )
