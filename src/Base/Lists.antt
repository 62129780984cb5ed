-- ===== src/Base/Lists.antt =====
-- Lists measured by native numbers, and membership of texts as a Boolean test.
use Prim.Native.Nat.{ℕ, suc, ◌+◌}
use mathlib.Core.Path.{◌≡◌, refl, ap}
use mathlib.Core.Bool.{Bool, true, false, ◌&&◌, ◌||◌}
use mathlib.Core.List.{List, [], ◌∷◌, ◌++◌}
use native.Mathlib.Omega.{arith}
use tugtainer.Base.Tests.{if◌then◌else◌}
use tugtainer.Base.Strings.{Text, ◌==◌, eq_iff}

module _ {ℓ} {A : Type ℓ} where
  abbrev pub length : List A → ℕ
  length [] = 0
  length (x ∷ xs) = suc (length xs)

  pub length-append : (xs ys : List A) → length (xs ++ ys) ≡ length xs + length ys
  length-append [] ys = omega arith
  length-append (x ∷ xs) ys = omega (arith, length-append xs ys)

  -- `[x for x in xs if keep(x)]`.
  unfoldable pub select : (A → Bool) → List A → List A
  select keep [] = []
  select keep (x ∷ xs) = let rest = select keep xs in if keep x then x ∷ rest else rest

  -- `any(test(x) for x in xs)`.
  unfoldable pub any : (A → Bool) → List A → Bool
  any test [] = false
  any test (x ∷ xs) = test x || any test xs

  unfoldable pub all : (A → Bool) → List A → Bool
  all test [] = true
  all test (x ∷ xs) = test x && all test xs

-- `x in xs`.
unfoldable pub elem : Text → List Text → Bool
elem x [] = false
elem x (y ∷ ys) = y == x || elem x ys

pub elem-append : (x : Text) (xs ys : List Text) → elem x (xs ++ ys) ≡ (elem x xs || elem x ys)
unfolding elem
elem-append x [] ys = refl
elem-append x (y ∷ xs) ys = ground (arith, elem-append x xs ys)

pub elem-cons : (x y : Text) (ys : List Text) → elem x (y ∷ ys) ≡ (y == x || elem x ys)
unfolding elem
elem-cons x y ys = refl

pub elem-select :
    (keep : Text → Bool) (x : Text) (xs : List Text)
    → elem x (select keep xs) ≡ (keep x && elem x xs)
unfolding elem select
elem-select keep x [] = ground arith
elem-select keep x (y ∷ xs) = ground (arith, elem-select keep x xs, eq_iff y x, ap {B = Bool} keep)

-- `s.add(x)`: a set is a list with no duplicate.
unfoldable pub add : Text → List Text → List Text
add x s = if elem x s then s else s ++ x ∷ []

pub elem-add : (x y : Text) (s : List Text) → elem y (add x s) ≡ (x == y || elem y s)
unfolding add elem
elem-add x y s = ground (arith, elem-append y s (x ∷ []), eq_iff x y)
