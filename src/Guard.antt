-- ===== src/Guard.antt =====
-- backend/util/validate_url_against_ssrf.py, and its callers in backend/modules/hosts/hosts_util.py and
-- backend/modules/settings/settings_util.py.
pub mod Networks
pub mod Bounds
pub mod Passed
pub mod Callers
use tugtainer.Base.{
  ℕ, Bool, true, false, not, ◌&&◌, ◌||◌, Option, none, some, List, [], ◌∷◌, ◌++◌, map, Text, codes,
  add, any, decimal, elem, is_empty, leb, eqb, strip, if◌then◌else◌,
}
use tugtainer.Guard.Networks.{Address, Network, restricted4, restricted6, is_in_any}

-- The exceptions: of the guard, of the rest of the validation, and `ValueError`.
pub data UrlError : Type 0 where
  ssrf_error validation_error value_error : UrlError

pub data Verdict : Type 0 where
  passed : Verdict
  rejected : UrlError → Verdict

-- What `urlparse` makes of a text. The port is none where to read it raises `ValueError`.
pub record ParseResult : Type 0 where
  pub hostname : Option Text
  pub port : Option (Option ℕ)

-- `urlparse`, which may raise `ValueError`, `ip_address`, which is none where it raises, and the resolver
-- for "A" and "AAAA", whose failures count as no answer.
pub record Names : Type 0 where
  pub urlparse : Text → Option ParseResult
  pub ip_address : Text → Option Address
  pub resolve_a : Text → List Address
  pub resolve_aaaa : Text → List Address

unfoldable pub endpoint_of : Text → Option ℕ → Text
endpoint_of hostname none = hostname
endpoint_of hostname (some port) = hostname ++ (codes ":" ++ decimal port)

abbrev pub restricted_networks : List Network
restricted_networks = restricted4 ++ restricted6

module _ (names : Names) where
  open names use {urlparse, ip_address, resolve_a, resolve_aaaa}

  abbrev resolved_by : Text → Option Address → List Address
  resolved_by hostname (some address) = address ∷ []
  resolved_by hostname none = resolve_a hostname ++ resolve_aaaa hostname

  -- The set of addresses: of a hostname that is an address itself, or of the resolver.
  unfoldable pub resolved : Text → List Address
  resolved hostname = resolved_by hostname (ip_address hostname)

  module _ (allowed_networks : List Network) (allowed_endpoints : List Text) where
    -- The loops over the addresses.
    unfoldable pub verdict_of : List Address → Verdict
    verdict_of [] = rejected validation_error
    verdict_of (a ∷ addresses) =
        if any (is_in_any allowed_networks) (a ∷ addresses)
        then passed
        else if any (is_in_any restricted_networks) (a ∷ addresses)
        then rejected ssrf_error
        else passed

    abbrev with_port : Text → Option (Option ℕ) → Verdict
    with_port hostname none = rejected value_error
    with_port hostname (some port) =
        if elem (endpoint_of hostname port) allowed_endpoints
        then passed
        else verdict_of (resolved hostname)

    abbrev with_hostname : Option Text → Option (Option ℕ) → Verdict
    with_hostname none port = rejected validation_error
    with_hostname (some hostname) port =
        if is_empty hostname then rejected validation_error else with_port hostname port

    abbrev of_parsed : Option ParseResult → Verdict
    of_parsed none = rejected value_error
    of_parsed (some parsed) = with_hostname parsed.hostname parsed.port

    unfoldable pub validate_url_against_ssrf : Text → Verdict
    unfolding verdict_of resolved endpoint_of
    validate_url_against_ssrf url = of_parsed (urlparse url)
