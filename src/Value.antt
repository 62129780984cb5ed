-- ===== src/Value.antt =====
-- The values of the dictionaries that the backend sends, and backend/util: is_empty.py,
-- drop_empty_keys.py and subtract_dict.py.
pub mod Kept
use tugtainer.Base.{
  ℤ, Bool, true, false, not, Option, none, some, is_some, List, [], ◌∷◌, Text, Dict, lookup, strip,
  is_empty as is_empty_text, if◌then◌else◌,
}

-- What stands under a key: JSON's scalars, and the containers of texts that the code builds.
pub data Value : Type 0 where
  null : Value
  bool : Bool → Value
  number : ℤ → Value
  text : Text → Value
  texts : List Text → Value
  lists : List (List Text) → Value
  dict : Dict Text → Value

abbrev pub is_none_left {ℓ} : {A : Type ℓ} → List A → Bool
is_none_left [] = true
is_none_left (x ∷ xs) = false

-- is_empty
unfoldable pub is_empty : Value → Bool
is_empty null = true
is_empty (bool b) = false
is_empty (number n) = false
is_empty (text s) = is_empty_text (strip s)
is_empty (texts l) = is_none_left l
is_empty (lists l) = is_none_left l
is_empty (dict d) = is_none_left d

-- drop_empty_keys
unfoldable pub drop_empty_keys : Dict Value → Dict Value
unfolding is_empty
drop_empty_keys [] = []
drop_empty_keys ((k, v) ∷ cfg) =
    let rest = drop_empty_keys cfg in if is_empty v then rest else (k, v) ∷ rest

-- `{k: v for k, v in d1.items() if k not in d2}`
unfoldable pub without : Dict Text → Dict Text → Dict Text
without [] d2 = []
without ((k, v) ∷ d1) d2 =
    let rest = without d1 d2 in if is_some (lookup k d2) then rest else (k, v) ∷ rest

-- subtract_dict: a first dictionary that is missing or empty gives none.
unfoldable pub subtract_dict : Option (Dict Text) → Option (Dict Text) → Option (Dict Text)
unfolding without
subtract_dict none d2 = none
subtract_dict (some []) d2 = none
subtract_dict (some (x ∷ d1)) none = some (x ∷ d1)
subtract_dict (some (x ∷ d1)) (some []) = some (x ∷ d1)
subtract_dict (some (x ∷ d1)) (some (y ∷ d2)) = some (without (x ∷ d1) (y ∷ d2))

-- `None`, or the value.
abbrev pub opt_text : Option Text → Value
opt_text none = null
opt_text (some s) = text s

abbrev pub opt_texts : Option (List Text) → Value
opt_texts none = null
opt_texts (some l) = texts l
