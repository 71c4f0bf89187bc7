-- ===== src/Base/Count.antt =====
-- How many elements of a list a test picks. Two lists have the same elements, as often, where every
-- test picks equally many.
use Prim.Native.Nat.{ℕ, ◌+◌}
use mathlib.Core.Path.{◌≡◌, refl, ◌∙◌}
use mathlib.Core.Bool.{Bool, true, false}
use mathlib.Core.List.{List, [], ◌∷◌, ◌++◌, Perm, Permᴰ}
use mathlib.Core.Logic.{∥∥₁_elim}
use native.Mathlib.Nat.{ℕ_set}
use native.Mathlib.Omega.{arith}

abbrev pub one_if : Bool → ℕ
one_if true = 1
one_if false = 0

module _ {A : Type 0} (p : A → Bool) where
  abbrev pub count : List A → ℕ
  count [] = 0
  count (x ∷ xs) = one_if (p x) + count xs

  pub count-append : (xs ys : List A) → count (xs ++ ys) ≡ count xs + count ys
  count-append [] ys = omega arith
  count-append (x ∷ xs) ys = omega (arith, count-append xs ys)

  pub count-append_one : (xs : List A) (y : A) → count (xs ++ y ∷ []) ≡ count xs + one_if (p y)
  count-append_one [] y = omega arith
  count-append_one (x ∷ xs) y = omega (arith, count-append_one xs y)

  same : (x y : A) → x ≡ y → one_if (p x) ≡ one_if (p y)
  same x y e = cc

  count-permᴰ : {xs ys : List A} → Permᴰ xs ys → count xs ≡ count ys
  count-permᴰ Permᴰ.nil = refl
  count-permᴰ (Permᴰ.cons {a = a} {b = b} e d) = omega (arith, same a b e, count-permᴰ d)
  count-permᴰ (Permᴰ.swap {a = a} {b = b} {a' = a'} {b' = b'} e f) =
      omega (arith, same a b' e, same b a' f)
  count-permᴰ (Permᴰ.trans d e) = count-permᴰ d ∙ count-permᴰ e

  pub count-perm : {xs ys : List A} → Perm xs ys → count xs ≡ count ys
  count-perm d = ∥∥₁_elim d (ℕ_set _ _) count-permᴰ
