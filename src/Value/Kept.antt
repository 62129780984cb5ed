-- ===== src/Value/Kept.antt =====
-- What `drop_empty_keys` and `subtract_dict` of backend/util leave under a key.
use tugtainer.Base.{
  ◌≡◌, refl, arith, Bool, true, false, not, ◌&&◌, Option, none, some, is_some, List, [], ◌∷◌, Text,
  Dict, lookup, or_else, ◌==◌, eq_iff, keys, put, ◌||◌, elem, ap, inl, inr, Bool-cases,
  if◌then◌else◌,
}
use tugtainer.Value.{Value, is_empty, drop_empty_keys, without, subtract_dict}

-- No key stands twice, as in any dictionary.
abbrev pub is_dict {ℓ} : {V : Type ℓ} → Dict V → Bool
is_dict [] = true
is_dict ((k, v) ∷ d) = not (elem k (keys d)) && is_dict d

abbrev pub kept_value : Option Value → Option Value
kept_value none = none
kept_value (some v) = if is_empty v then none else some v

lookup-none {ℓ} : {V : Type ℓ} (k : Text) (d : Dict V) → elem k (keys d) ≡ false → lookup k d ≡ none
unfolding lookup elem keys
lookup-none k [] h = refl
lookup-none k ((j, v) ∷ d) h = ground (arith, lookup-none k d)

elem-same : (j k : Text) (l : List Text) → (j == k) ≡ true → elem j l ≡ elem k l
elem-same j k l h = rw ((eq_iff j k).0 h)

pub lookup-drop_empty_keys :
    (k : Text) (cfg : Dict Value)
    → is_dict cfg ≡ true
    → lookup k (drop_empty_keys cfg) ≡ kept_value (lookup k cfg)
unfolding drop_empty_keys lookup
lookup-drop_empty_keys k [] h = refl
lookup-drop_empty_keys k ((j, v) ∷ cfg) h =
    ground
      (arith, lookup-drop_empty_keys k cfg, lookup-none k cfg, eq_iff j k, elem-same j k (keys cfg))

pub lookup-without :
    (k : Text) (d1 d2 : Dict Text)
    → is_dict d1 ≡ true
    → lookup k (without d1 d2) ≡ (if is_some (lookup k d2) then none else lookup k d1)
unfolding without lookup
lookup-without k [] d2 h = ground arith
lookup-without k ((j, v) ∷ d1) d2 h = elim (Bool-cases (j == k)) [
  | inl same ↦ ground (
    arith,
    lookup-without k d1 d2,
    lookup-none k d1,
    elem-same j k (keys d1),
    ap {B = Option Text} (λ (x : Text). lookup x d2) ((eq_iff j k).0 same),
  )
  | inr other ↦ ground (arith, lookup-without k d1 d2)
]

-- `subtract_dict(d1, d2) or {}` finds what the first has and the second has not.
pub lookup-subtract_dict :
    (k : Text) (d1 : Dict Text) (d2 : Option (Dict Text))
    → is_dict d1 ≡ true
    → lookup k (or_else (subtract_dict (some d1) d2) [])
      ≡ (if is_some (lookup k (or_else d2 [])) then none else lookup k d1)
unfolding subtract_dict lookup
lookup-subtract_dict k [] d2 h = ground arith
lookup-subtract_dict k (x ∷ d1) none h = refl
lookup-subtract_dict k (x ∷ d1) (some []) h = refl
lookup-subtract_dict k (x ∷ d1) (some (y ∷ d2)) h = lookup-without k (x ∷ d1) (y ∷ d2) h

elem-keys-put {ℓ} :
    {V : Type ℓ} (j k : Text) (v : V) (d : Dict V)
    → elem j (keys (put k v d)) ≡ (k == j || elem j (keys d))
unfolding put keys elem
elem-keys-put j k v [] = refl
elem-keys-put j k v ((i, w) ∷ d) =
    ground (arith, elem-keys-put j k v d, eq_iff i k, eq_iff i j, eq_iff k j)

pub put-IsDict {ℓ} :
    {V : Type ℓ} (k : Text) (v : V) (d : Dict V) → is_dict d ≡ true → is_dict (put k v d) ≡ true
unfolding put keys elem
put-IsDict k v [] h = refl
put-IsDict k v ((i, w) ∷ d) h =
    ground (arith, put-IsDict k v d, elem-keys-put i k v d, eq_iff i k, eq_iff k i)
