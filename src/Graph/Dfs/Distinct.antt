-- ===== src/Graph/Dfs/Distinct.antt =====
-- Lists that hold no text twice.
use tugtainer.Base.{
  ◌≡◌, refl, inl, inr, Bool, false, List, [], ◌∷◌, ◌++◌, Text, elem, elem-append, eq_iff, arith,
  Bool-cases, select, elem-select,
}

-- No text twice.
abbrev pub Distinct : List Text → Type 0
Distinct [] = Unit
Distinct (x ∷ xs) = (elem x xs ≡ false) × Distinct xs

pub Distinct-snoc :
    (xs : List Text) (x : Text) → Distinct xs → elem x xs ≡ false → Distinct (xs ++ x ∷ [])
unfolding elem
Distinct-snoc [] x d h = (refl, tt)
Distinct-snoc (y ∷ xs) x d h = (
  ground (arith, d.0, elem-append y xs (x ∷ []), eq_iff x y, eq_iff y x),
  Distinct-snoc xs x d.1 (ground (arith, h)),
)

pub Distinct-select :
    (keep : Text → Bool) (xs : List Text) → Distinct xs → Distinct (select keep xs)
unfolding select
Distinct-select keep [] d = tt
Distinct-select keep (x ∷ xs) d = elim (Bool-cases (keep x)) [
  | inl kept ↦ rw kept (ground (arith, d.0, elem-select keep x xs), Distinct-select keep xs d.1)
  | inr gone ↦ rw gone (Distinct-select keep xs d.1)
]
