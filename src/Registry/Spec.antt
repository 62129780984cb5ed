-- ===== src/Registry/Spec.antt =====
-- What backend/core/check_actions/check_actions_util.py reads from the name of an image and from the settings,
-- and `get_basic_token` of backend/docker_config.py.
use tugtainer.Base.{
  ℕ, suc, Bool, true, false, not, ◌&&◌, ◌||◌, Option, none, some, List, [], ◌∷◌, ◌++◌, reverse,
  Text, Dict, codes, lookup, any, contains_text, eqb, ltb, has_char, is_empty, join, split, or_else,
  ◌==◌, if◌then◌else◌,
}
use tugtainer.Guard.Callers.{splitlines}

abbrev next : Option ℕ → Bool → Option ℕ
next (some i) found = some (suc i)
next none true = some 0
next none false = none

-- `s.rfind(c)`, which is none for −1.
unfoldable rfind : ℕ → Text → Option ℕ
rfind c [] = none
rfind c (d ∷ s) = next (rfind c s) (eqb d c)

-- Whether the first of two positions is there and is behind the second.
abbrev is_behind : Option ℕ → Option ℕ → Bool
is_behind none j = false
is_behind (some i) none = true
is_behind (some i) (some j) = ltb j i

-- What is before the first separator, and what is after it.
unfoldable cut : ℕ → Text → Text × Text
cut sep [] = ([], [])
cut sep (c ∷ s) = let (a, b) = cut sep s in if eqb c sep then ([], s) else (c ∷ a, b)

-- `s.rsplit(":", 1)`, where there is one.
unfoldable rsplit : Text → Text × Text
unfolding cut
rsplit s = let (b, a) = cut b':' (reverse s) in (reverse a, reverse b)

unfoldable count : ℕ → Text → ℕ
count c [] = 0
count c (d ∷ s) = let rest = count c s in if eqb d c then suc rest else rest

-- The name without its tag, and the tag.
unfoldable spec_and_tag : Text → Text × Text
unfolding rfind rsplit count has_char
spec_and_tag spec =
    if has_char b':' spec && (has_char b'/' spec && is_behind (rfind b':' spec) (rfind b'/' spec))
    then rsplit spec
    else if has_char b':' spec && (eqb (count b':' spec) 1 && not (has_char b'/' spec))
    then rsplit spec
    else (spec, codes "latest")

abbrev hub : Text
hub = codes "registry-1.docker.io"

abbrev is_registry : Text → Bool
is_registry part = has_char b'.' part || (has_char b':' part || part == codes "localhost")

abbrev registry_and_repo : Text → List Text → Text × Text
registry_and_repo spec [] = (hub, spec)
registry_and_repo spec (part ∷ parts) =
    if is_registry part then (part, join (codes "/") parts) else (hub, spec)

-- "Docker Hub website hosts are not the Registry API endpoint."
abbrev api_host : Text → Text
api_host registry =
    if registry == codes "docker.io" || registry == codes "index.docker.io" then hub else registry

abbrev with_library : Text → Text → Text
with_library registry repo =
    if registry == hub && not (has_char b'/' repo) then codes "library/" ++ repo else repo

pub record ImageSpec : Type 0 where
  pub registry : Text
  pub repo : Text
  pub tag : Text

unfoldable pub parse_image_spec : Text → ImageSpec
unfolding spec_and_tag split has_char join
parse_image_spec spec =
    let (name, tag) = spec_and_tag spec in
    let (registry, repo) = registry_and_repo name (split b'/' name) in
    record { registry = api_host registry; repo = with_library (api_host registry) repo; tag = tag }

-- "x and registry and (registry in x or x in registry)" for a line of the setting.
unfoldable pub is_insecure : (insecure_registries : Option Text) → (registry : Text) → Bool
unfolding splitlines any
is_insecure insecure_registries registry =
    any
      (λ x.
        not (is_empty x)
        && (not (is_empty registry) && (contains_text x registry || contains_text registry x)))
      (splitlines (or_else insecure_registries []))

-- An entry of "auths" in the file of docker.
abbrev pub AuthEntry : Type 0
AuthEntry = Dict Text

abbrev truthy_entry : Option AuthEntry → Option AuthEntry
truthy_entry (some (kv ∷ entry)) = some (kv ∷ entry)
truthy_entry _ = none

abbrev hub_entry : Text → Text
hub_entry registry =
    if registry == hub || registry == codes "docker.io"
    then codes "https://index.docker.io/v1/"
    else registry

unfoldable partial_match : Text → Dict AuthEntry → Option AuthEntry
partial_match registry [] = none
partial_match registry ((k, v) ∷ auths) =
    let rest = partial_match registry auths in
    if contains_text k registry || contains_text registry k then some v else rest

abbrev or_entry : Option AuthEntry → Option AuthEntry → Option AuthEntry
or_entry none entry = entry
or_entry (some entry) other = some entry

abbrev auth_of : Option AuthEntry → Option Text
auth_of none = none
auth_of (some entry) = lookup (codes "auth") entry

unfoldable pub get_basic_token : Dict AuthEntry → (registry : Text) → Option Text
unfolding partial_match
get_basic_token auths registry = auth_of (
    or_entry (truthy_entry (lookup registry auths)) (
      or_entry (truthy_entry (lookup (hub_entry registry) auths))
        (partial_match (hub_entry registry) auths)))
