-- ===== src/Common/Sums.antt =====
-- A sum over a list does not see its order.
use mathlib.Core.Path.{◌≡◌, refl, sym, ap, ◌∙◌}
use mathlib.Core.List.{List, [], ◌∷◌, map, foldr, Perm}
use mathlib.Core.List.Perm
use native.Mathlib.Omega.{arith}
use native.Mathlib.Decide.{ℕ_discrete}
use Prim.Native.Nat.{ℕ, ◌+◌}
use bwk.Common.Lists.{sum}

module _ {ℓ} {A : Type ℓ} (f : A → ℕ) where
  sum-map : (xs : List A) → sum (map f xs) ≡ foldr (λ a n. f a + n) 0 xs
  sum-map [] = refl
  sum-map (x ∷ xs) = ap (λ n. f x + n) (sum-map xs)

  pub sum-map_perm : {xs ys : List A} → Perm xs ys → sum (map f xs) ≡ sum (map f ys)
  sum-map_perm {xs} {ys} p =
      sum-map xs
      ∙ Perm.foldr-eq (hlevel ℕ_discrete) (λ a n. f a + n) (λ a b n. omega arith) p 0
      ∙ sym (sum-map ys)
