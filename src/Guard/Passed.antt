-- ===== src/Guard/Passed.antt =====
-- Which URLs `validate_url_against_ssrf` of backend/util/validate_url_against_ssrf.py lets pass.
use tugtainer.Base.{
  ℕ, ◌≡◌, ◌↔◌, arith, Bool, true, false, ◌&&◌, ◌||◌, Option, some, List, [], ◌∷◌, Text, elem, any,
  all, is_empty,
}
use tugtainer.Guard.Networks.{Address, Network, is_in_any}
use tugtainer.Guard.Bounds.{is_unrestricted, is_address, any-restricted_networks}
use tugtainer.Guard.{Names, passed, endpoint_of, resolved, verdict_of, validate_url_against_ssrf}

abbrev pub is_any : List Address → Bool
is_any [] = false
is_any (a ∷ l) = true

module _ (names : Names) (allowed_networks : List Network) (allowed_endpoints : List Text) where
  verdict_passed :
      (l : List Address)
      → all is_address l ≡ true
      → (verdict_of names allowed_networks allowed_endpoints l ≡ passed)
        ↔ ((any (is_in_any allowed_networks) l || is_any l && all is_unrestricted l) ≡ true)
  unfolding verdict_of any
  verdict_passed [] h = ground arith
  verdict_passed (a ∷ l) h = ground (arith, any-restricted_networks (a ∷ l))

  module _ (url hostname : Text) (port : Option ℕ)
      (parsed : names.urlparse url ≡ some (record { hostname = some hostname; port = some port }))
      (named : is_empty hostname ≡ false)
      (addresses : all is_address (resolved names hostname) ≡ true) where
    -- A URL with a hostname and a readable port passes exactly when its endpoint is allowed, or an address
    -- of its host is in an allowed network, or its host has an address and none of its addresses is in the
    -- restricted networks of the code, which are written here as ranges of numbers. Reserved networks that
    -- the code does not list pass.
    pub validate_url_against_ssrf_passed :
        (validate_url_against_ssrf names allowed_networks allowed_endpoints url ≡ passed) ↔ (
          (elem (endpoint_of hostname port) allowed_endpoints
            || (any (is_in_any allowed_networks) (resolved names hostname)
                || is_any (resolved names hostname)
                  && all is_unrestricted (resolved names hostname)))
          ≡ true)
    unfolding validate_url_against_ssrf
    validate_url_against_ssrf_passed =
        ground (arith, parsed, verdict_passed (resolved names hostname))
