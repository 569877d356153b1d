-- ===== src/Common/Text.antt =====
-- Strings as their code points, in the order of the standard library: lexicographic.
use Prim.Native.Nat.{ℕ, compare, Ordering}
use Prim.Native.Char.{code}
use Prim.Native.String.{String}
use mathlib.Core.Path.{◌≡◌, refl}
use mathlib.Core.List.{List, [], ◌∷◌}
use native.Mathlib.Omega.{arith}
use bwk.Common.OrdMap.{Ord}

abbrev pub Text : Type 0
Text = List ℕ

-- The code points of a literal.
abbrev pub codes : String → Text
codes String.[] = []
codes (String.◌∷◌ c s) = code c ∷ codes s

-- `Ordering::then`.
abbrev pub then_cmp : Ordering → Ordering → Ordering
then_cmp Ordering.lt later = Ordering.lt
then_cmp Ordering.eq later = later
then_cmp Ordering.gt later = Ordering.gt

abbrev pub compare_text : Text → Text → Ordering
compare_text [] [] = Ordering.eq
compare_text [] (b ∷ bs) = Ordering.lt
compare_text (a ∷ as_) [] = Ordering.gt
compare_text (a ∷ as_) (b ∷ bs) = then_cmp (compare a b) (compare_text as_ bs)

pub compare_text-eq : (s t : Text) → compare_text s t ≡ Ordering.eq → s ≡ t
compare_text-eq [] [] h = refl
compare_text-eq [] (b ∷ t) h = absurd (ground arith)
compare_text-eq (a ∷ s) [] h = absurd (ground arith)
compare_text-eq (a ∷ s) (b ∷ t) h = ground (arith, compare_text-eq s t)

pub compare_text_refl : (s : Text) → compare_text s s ≡ Ordering.eq
compare_text_refl [] = refl
compare_text_refl (a ∷ s) = ground (arith, compare_text_refl s)

pub compare_text_trans :
    (s t u : Text)
    → compare_text s t ≡ Ordering.lt
    → compare_text t u ≡ Ordering.lt
    → compare_text s u ≡ Ordering.lt
compare_text_trans [] [] u h k = absurd (ground arith)
compare_text_trans [] (b ∷ t) [] h k = absurd (ground arith)
compare_text_trans [] (b ∷ t) (c ∷ u) h k = refl
compare_text_trans (a ∷ s) [] u h k = absurd (ground arith)
compare_text_trans (a ∷ s) (b ∷ t) [] h k = absurd (ground arith)
compare_text_trans (a ∷ s) (b ∷ t) (c ∷ u) h k = ground (arith, compare_text_trans s t u)

pub compare_text-flip :
    (s t : Text) → compare_text s t ≡ Ordering.gt → compare_text t s ≡ Ordering.lt
compare_text-flip [] [] h = absurd (ground arith)
compare_text-flip [] (b ∷ t) h = absurd (ground arith)
compare_text-flip (a ∷ s) [] h = refl
compare_text-flip (a ∷ s) (b ∷ t) h = ground (arith, compare_text-flip s t)

instance abbrev pub text_ord : Ord Text
text_ord = record {
  cmp = compare_text;
  cmp-eq = compare_text-eq;
  cmp-refl = compare_text_refl;
  cmp-trans = compare_text_trans;
  cmp-flip = compare_text-flip;
}
