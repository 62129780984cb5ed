-- ===== src/Graph/Missing.antt =====
-- A count of the nodes that a walk has not met yet.
use tugtainer.Base.{
  ℕ, ◌+◌, ◌≤◌, ◌<◌, ◌≡◌, true, false, List, [], ◌∷◌, Text, elem, add, elem-add, length, eq_iff,
  arith, eq_refl, if◌then◌else◌,
}

-- How many of the nodes are not collected yet.
pub missing : List Text → List Text → ℕ
missing affected [] = 0
missing affected (x ∷ xs) = (if elem x affected then 0 else 1) + missing affected xs

pub missing-add-le :
    (affected : List Text) (node : Text) (xs : List Text)
    → missing (add node affected) xs ≤ missing affected xs
unfolding missing
missing-add-le affected node [] = omega arith
missing-add-le affected node (x ∷ xs) =
    ground (arith, missing-add-le affected node xs, elem-add node x affected)

pub missing-add-lt :
    (affected : List Text) (node : Text) (xs : List Text)
    → elem node affected ≡ false
    → elem node xs ≡ true
    → missing (add node affected) xs < missing affected xs
unfolding missing elem
missing-add-lt affected node [] new h = cc
missing-add-lt affected node (x ∷ xs) new h = ground (
  arith,
  missing-add-lt affected node xs,
  missing-add-le affected node xs,
  elem-add node x affected,
  eq_iff x node,
  eq_refl node,
)

pub missing_mono :
    (a b xs : List Text)
    → ((x : Text) → elem x a ≡ true → elem x b ≡ true)
    → missing b xs ≤ missing a xs
unfolding missing
missing_mono a b [] h = omega arith
missing_mono a b (x ∷ xs) h = ground (arith, h x, missing_mono a b xs h)

pub missing-le-length : (a xs : List Text) → missing a xs ≤ length xs
unfolding missing
missing-le-length a [] = omega arith
missing-le-length a (x ∷ xs) = ground (arith, missing-le-length a xs)
