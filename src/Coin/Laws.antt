-- ===== src/Coin/Laws.antt =====
-- What the conversions and the descriptor derivation of coin/src/lib.rs promise.
use bwk.Common.{
  ℕ, zero, suc, ◌≡◌, refl, true, some, List, [], ◌∷◌, arith, ◌≢◌, not, Option-cases, ok, ◌⊎◌, inl,
  inr, ◌↔◌,
}
use bwk.Coin.{
  KeyChain, receive, change, custom, to_u32, from_u32, Coin, Script, source, silent_payment, is_sp,
  is_bip32, Miniscript, derive_descriptor,
}

-- Reading a number as a keychain and writing it back gives the number, except for 1: the change
-- keychain is written as 0.
pub to_u32-from_u32 : (n : ℕ) → (to_u32 (from_u32 n) ≡ n) ↔ (n ≢ 1)
unfolding to_u32 from_u32
to_u32-from_u32 zero = (λ h. omega arith, λ h. refl)
to_u32-from_u32 (suc zero) = (λ h. absurd (omega arith), λ h. absurd (h refl))
to_u32-from_u32 (suc (suc n)) = (λ h. omega arith, λ h. refl)

-- A coin is either a descriptor coin or a silent payment coin, and it is classified as a silent
-- payment exactly in the second case.
pub source-silent_payment :
    {D : Type 0} (s : Script) (c : Coin D)
    → (is_bip32 c ≡ not (is_sp c)) × ((source s c ≡ silent_payment) ↔ (is_sp c ≡ true))
unfolding is_bip32 is_sp source
source-silent_payment s c = ground arith

-- A descriptor is derived exactly from a descriptor of at least two paths: its first path for the
-- receive keychain, its second for the change keychain, never for a custom one.
abbrev DerivesFrom : {D DD P : Type 0} → Miniscript D DD P → D → KeyChain → ℕ → DD → Type 0
DerivesFrom {D} m d kc index dd =
    (recv : D) × (change_d : D) × (rest : List D) × (m.into_single_descriptors d
      ≡ some (recv ∷ change_d ∷ rest))
    × ((kc ≡ receive) × (m.at_derivation_index recv index ≡ some dd)
        ⊎ (kc ≡ change) × (m.at_derivation_index change_d index ≡ some dd))

-- A success of the derivation comes from the path of the keychain, out of a descriptor that has at
-- least two paths; custom keychains never succeed.
derive_descriptor-DerivesFrom :
    {D DD P : Type 0} (m : Miniscript D DD P) (d : D) (kc : KeyChain) (index : ℕ) {dd : DD}
    → derive_descriptor m d kc index ≡ ok dd
    → DerivesFrom m d kc index dd
unfolding derive_descriptor
derive_descriptor-DerivesFrom {D} m d kc index {dd} h =
    elim (Option-cases (m.into_single_descriptors d)) [
      | inl failed ↦ absurd (ground arith)
      | inr (ds, found) ↦ paths ds found kc h
    ]
  where
    paths :
        (ds : List D)
        → m.into_single_descriptors d ≡ some ds
        → (k : KeyChain) → derive_descriptor m d k index ≡ ok dd
        → DerivesFrom m d k index dd
    paths (r ∷ c ∷ rest) e receive h' = (r, c, rest, e, inl (refl, ground arith))
    paths (r ∷ c ∷ rest) e change h' = (r, c, rest, e, inr (refl, ground arith))
    paths (r ∷ c ∷ rest) e (custom k) h' = absurd (ground arith)
    paths (r ∷ []) e k h' = absurd (ground arith)
    paths [] e k h' = absurd (ground arith)
