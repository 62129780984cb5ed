-- ===== src/Command.antt =====
-- shared/schemas/command_validator.py: which docker commands the agent runs for the backend.
pub mod Accepted
use tugtainer.Base.{
  ℕ, zero, suc, ◌≡◌, Bool, true, false, not, ◌&&◌, ◌||◌, Option, none, some, List, [], ◌∷◌, ◌++◌,
  Text, codes, ◌==◌, starts_with, is_empty, elem, length, leb, eqb, lookup, if◌then◌else◌,
}

-- `[a-zA-Z0-9]` and `[a-zA-Z0-9_.-]`
unfoldable pub is_alnum : ℕ → Bool
is_alnum c = leb b'a' c && leb c b'z' || leb b'A' c && leb c b'Z' || leb b'0' c && leb c b'9'

unfoldable pub is_word : ℕ → Bool
unfolding is_alnum
is_word c = is_alnum c || eqb c b'_' || eqb c b'.' || eqb c b'-'

-- `[a-zA-Z0-9_.-]{0,n}$`, up to the end of the text.
unfoldable pub is_rest : ℕ → Text → Bool
unfolding is_word
is_rest n [] = true
is_rest zero (c ∷ s) = false
is_rest (suc n) (c ∷ s) = is_word c && is_rest n s

-- DOCKER_NAME_RE.fullmatch
unfoldable pub is_docker_name : Text → Bool
unfolding is_rest
is_docker_name [] = false
is_docker_name (c ∷ s) = is_alnum c && is_rest 127 s

-- A line feed that ends the text: `$` of a `match` also stands before it.
abbrev is_last_feed : ℕ → Text → Bool
is_last_feed c s = eqb c 10 && is_empty s

unfoldable pub is_rest_of_line : ℕ → Text → Bool
unfolding is_word
is_rest_of_line n [] = true
is_rest_of_line zero (c ∷ s) = is_last_feed c s
is_rest_of_line (suc n) (c ∷ s) = is_last_feed c s || is_word c && is_rest_of_line n s

-- ALIAS_RE.match
unfoldable pub is_alias : Text → Bool
unfolding is_rest_of_line
is_alias [] = false
is_alias (c ∷ s) = is_alnum c && is_rest_of_line 62 s

-- The first elements of a list, and what is behind them.
abbrev pub take : {A : Type 0} → ℕ → List A → List A
take zero xs = []
take (suc n) [] = []
take (suc n) (x ∷ xs) = x ∷ take n xs

abbrev pub drop : {A : Type 0} → ℕ → List A → List A
drop zero xs = xs
drop (suc n) [] = []
drop (suc n) (x ∷ xs) = drop n xs

-- A validator raises a ValueError or lets the value pass.
abbrev pub Validator : Type 0
Validator = Text → Bool

pub record CmdSchema : Type 0 where
  pub flags : List (Text × Validator)
  pub positional : List Validator

-- `zip(positional, positional_validators, strict=True)`, of lists of one length.
unfoldable pub all_pass : List Text → List Validator → Bool
all_pass (value ∷ values) (validator ∷ validators) = validator value && all_pass values validators
all_pass _ _ = true

-- Whether a list is as long as another.
unfoldable pub same_length : List Text → List Validator → Bool
same_length [] [] = true
same_length (v ∷ vs) (w ∷ ws) = same_length vs ws
same_length _ _ = false

abbrev is_nil : List Text → Bool
is_nil [] = true
is_nil (x ∷ xs) = false

-- `flags[part](value)`; the flag is one of the schema's.
abbrev pub passes : Option Validator → Text → Bool
passes none value = false
passes (some validator) value = validator value

-- The parameter is `ip_address` of Python's `ipaddress`, which raises or does not.
module _ (is_ip_address : Validator) where
  abbrev pub connect_schema : CmdSchema
  connect_schema = record {
    flags =
        (codes "--alias", is_alias)
        ∷ (codes "--ip", is_ip_address)
        ∷ (codes "--ip6", is_ip_address)
        ∷ [];
    positional = is_docker_name ∷ is_docker_name ∷ [];
  }

  -- COMMAND_SCHEMAS has the one key ("network", "connect").
  unfoldable pub schema_of : List Text → Option CmdSchema
  schema_of (a ∷ b ∷ []) =
      if a == codes "network" && b == codes "connect" then some connect_schema else none
  schema_of _ = none

  -- The loop over the sizes of a prefix, the longest first.
  unfoldable pub resolve : ℕ → List Text → Option (ℕ × CmdSchema)
  resolve zero cmd = none
  resolve (suc n) cmd = elim (schema_of (take (suc n) cmd)) [
    | none ↦ resolve n cmd
    | some schema ↦ some (suc n, schema)
  ]

  -- The loop over the arguments, and the tests behind it.
  unfoldable pub scan : CmdSchema → List Text → (positional : List Text) → Bool
  scan schema [] positional =
      same_length positional schema.positional && all_pass positional schema.positional
  scan schema (part ∷ []) positional =
      if starts_with part (codes "-") then false else scan schema [] (positional ++ part ∷ [])
  scan schema (part ∷ value ∷ rest) positional =
      let after = scan schema rest positional in
      let other = scan schema (value ∷ rest) (positional ++ part ∷ []) in
      if starts_with part (codes "-")
      then is_nil positional && passes (lookup part schema.flags) value && after
      else other

  -- resolve_command_schema and command_validator; `true` is a command that is returned, `false` a
  -- ValueError.
  unfoldable pub command_validator : List Text → Bool
  unfolding resolve scan
  command_validator cmd = elim (resolve (length cmd) cmd) [
    | none ↦ false
    | some found ↦ scan found.1 (drop found.0 cmd) []
  ]
