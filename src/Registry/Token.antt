-- ===== src/Registry/Token.antt =====
-- `get_registry_bearer_token` of backend/core/check_actions/check_actions_util.py up to its request: which
-- address it asks for a token.
use tugtainer.Base.{
  ℕ, zero, suc, ◌+◌, ◌/◌, ◌%◌, Bool, true, false, ◌&&◌, ◌||◌, Option, none, some, List, [], ◌∷◌,
  ◌++◌, Text, Dict, codes, lookup, put, or_else, eqb, leb, ltb, has_char, split, starts_with,
  if◌then◌else◌,
}
use tugtainer.Docker.{truthy}
use tugtainer.Create.Fields.{split_pair}

-- How many characters are still to drop, behind one.
abbrev left : ℕ → (found : Bool) → ℕ
left (suc n) found = n
left zero true = 6
left zero false = 0

abbrev keep_if_none_left : ℕ → (found : Bool) → ℕ → Text → Text
keep_if_none_left (suc n) found c rest = rest
keep_if_none_left zero true c rest = rest
keep_if_none_left zero false c rest = c ∷ rest

-- `s.replace("Bearer ", "")`, with the number of characters still to drop.
unfoldable remove_bearer : ℕ → Text → Text
unfolding starts_with
remove_bearer n [] = []
remove_bearer n (c ∷ s) =
    let found = starts_with (c ∷ s) (codes "Bearer ") in
    keep_if_none_left n found c (remove_bearer (left n found) s)

-- `s.replace('"', "")`
unfoldable remove_quotes : Text → Text
remove_quotes [] = []
remove_quotes (c ∷ s) = let rest = remove_quotes s in if eqb c b'"' then rest else c ∷ rest

abbrev put_item : Bool → Text × Text → Dict Text → Option (Dict Text)
put_item true (k, v) items = some (put k v items)
put_item false kv items = none

abbrev and_then : Option (Dict Text) → (Dict Text → Option (Dict Text)) → Option (Dict Text)
and_then none f = none
and_then (some d) f = f d

-- `dict(item.split("=", 1) for item in …)`, which raises `ValueError` at an item with no "=".
unfoldable items_of : Dict Text → List Text → Option (Dict Text)
unfolding has_char split_pair
items_of items [] = some items
items_of items (item ∷ rest) =
    and_then (put_item (has_char b'=' item) (split_pair item) items) (λ d. items_of d rest)

-- UTF-8
abbrev tail_byte : ℕ → ℕ
tail_byte n = 128 + n % 64

unfoldable utf8 : ℕ → List ℕ
utf8 c =
    if ltb c 0x80
    then c ∷ []
    else if ltb c 0x800
    then (192 + c / 64) ∷ tail_byte c ∷ []
    else if ltb c 0x10000
    then (224 + c / 4096) ∷ tail_byte (c / 64) ∷ tail_byte c ∷ []
    else (240 + c / 262144) ∷ tail_byte (c / 4096) ∷ tail_byte (c / 64) ∷ tail_byte c ∷ []

abbrev hex_digit : ℕ → ℕ
hex_digit n = if ltb n 10 then 48 + n else 55 + n

unfoldable percent : List ℕ → Text → Text
percent [] s = s
percent (byte ∷ bytes) s = b'%' ∷ hex_digit (byte / 16) ∷ hex_digit (byte % 16) ∷ percent bytes s

unfoldable is_plain : ℕ → Bool
is_plain c =
    leb b'a' c && leb c b'z'
    || (leb b'A' c && leb c b'Z'
        || (leb b'0' c && leb c b'9' || (eqb c b'_' || (eqb c b'.' || (eqb c b'-' || eqb c b'~')))))

-- `quote_plus`
unfoldable pub quote_plus : Text → Text
unfolding utf8 percent is_plain
quote_plus [] = []
quote_plus (c ∷ s) =
    let rest = quote_plus s in
    if is_plain c then c ∷ rest else (if eqb c b' ' then b'+' ∷ rest else percent (utf8 c) rest)

abbrev scope_or : Option Text → (repo : Text) → Text
scope_or none repo = codes "repository:" ++ (repo ++ codes ":pull")
scope_or (some scope) repo = scope

-- A service that is missing is coded as "None".
abbrev url_with : (realm : Text) → (service : Option Text) → (scope : Text) → Text
url_with realm service scope =
    realm
    ++ (codes "?service="
        ++ (quote_plus (or_else service (codes "None")) ++ (codes "&scope=" ++ quote_plus scope)))

abbrev url_of_realm : Option Text → Dict Text → (repo : Text) → Option Text
url_of_realm none items repo = none
url_of_realm (some realm) items repo = some (
    url_with realm (lookup (codes "service") items)
      (scope_or (truthy (lookup (codes "scope") items)) repo))

abbrev url_of_items : Option (Dict Text) → (repo : Text) → Option Text
url_of_items none repo = none
url_of_items (some items) repo = url_of_realm (lookup (codes "realm") items) items repo

-- None where the header is read with an exception.
unfoldable pub token_url : (auth_header repo : Text) → Option Text
unfolding remove_bearer remove_quotes items_of quote_plus split
token_url auth_header repo =
    url_of_items (items_of [] (split b',' (remove_quotes (remove_bearer zero auth_header)))) repo
