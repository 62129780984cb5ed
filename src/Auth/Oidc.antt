-- ===== src/Auth/Oidc.antt =====
-- backend/modules/auth/providers/auth_oidc_provider.py, with the provider of OpenID Connect as a parameter.
pub mod IdToken
use tugtainer.Base.{
  ℕ, Bool, true, false, not, ◌&&◌, ◌||◌, Option, none, some, List, [], ◌∷◌, ◌++◌, Text, codes, elem,
  select, is_empty, lower, ◌==◌, or_else,
}
use tugtainer.Docker.{truthy, first_of}
use tugtainer.Registry.Token.{quote_plus}
use tugtainer.Auth.Tokens.{
  Audience, many, Claims, Jwt, AuthConfig, Cookies, Response, redirected, raised, guarded,
  new_session, refreshed,
}
pub use IdToken.{Provider, is_one}
use IdToken.{exchange_oidc_code, ◌>>=◌}

abbrev pub oidc : Text
oidc = codes "oidc"

module _ (jwt : Jwt) (config : AuthConfig) (provider : Provider) where
  abbrev pub is_oidc_enabled : Bool
  is_oidc_enabled = not config.disable_auth && config.oidc_enabled

  abbrev is_in_set : Option Text → List Text → Bool
  is_in_set none set = false
  is_in_set (some t) set = elem t set

  abbrev folded : Option Text → Option Text
  folded none = none
  folded (some t) = some (provider.casefold t)

  abbrev is_nil : List Text → Bool
  is_nil [] = true
  is_nil (x ∷ l) = false

  -- `_enforce_oidc_identity_allowlist`: whether it raises nothing.
  unfoldable pub is_identity_allowed : Claims → Bool
  unfolding elem
  is_identity_allowed claims =
      is_nil config.oidc_allowed_emails && is_nil config.oidc_allowed_subjects
      || (is_in_set (folded claims.email) config.oidc_allowed_emails
          || is_in_set claims.sub config.oidc_allowed_subjects)

  abbrev pub user_id_of : Claims → Text
  user_id_of claims =
      or_else
        (first_of (truthy claims.email)
          (first_of (truthy claims.sub) (truthy claims.preferred_username)))
        (codes "unknown_user")

  -- What the callback learns of the user.
  unfoldable pub claims_of : (now : ℕ) → (code : Text) → Option Claims
  unfolding exchange_oidc_code
  claims_of now code = do
    discovery ← provider.discover now config.oidc_well_known_url
    exchange_oidc_code config provider now code discovery

  -- `_create_oidc_user_session`. The exception of the allowlist, with its status 403, is caught like any
  -- other.
  abbrev pub created : (now : ℕ) → Option Claims → Response
  created now none = raised 400
  created now (some claims) =
      guarded (is_identity_allowed claims) 400
        (new_session jwt config now oidc (some (user_id_of claims)) (some claims))

  abbrev pub has_code : (code state error : Text) → Bool
  has_code code state error = is_empty error && (not (is_empty code) && not (is_empty state))

  -- `callback`, with the parameters of the query, which are empty where they are missing.
  unfoldable pub callback : (now : ℕ) → Cookies → (code state error : Text) → Response
  unfolding claims_of is_identity_allowed
  callback now cookies code state error = guarded is_oidc_enabled 403 (
      guarded (has_code code state error) 400
        (guarded (is_one (truthy cookies.oidc_state) state) 400 (created now (claims_of now code))))

  abbrev query : (state : Text) → Text
  query state =
      codes "client_id="
      ++ (quote_plus config.oidc_client_id
          ++ (codes "&redirect_uri="
              ++ (quote_plus config.oidc_redirect_uri
                  ++ (codes "&scope="
                      ++ (quote_plus config.oidc_scopes
                          ++ (codes "&response_type=code&state=" ++ quote_plus state))))))

  abbrev pub to_endpoint : (state : Text) → Option Text → Response
  to_endpoint state none = raised 400
  to_endpoint state (some endpoint) = redirected (endpoint ++ (codes "?" ++ query state)) state

  abbrev pub is_complete : Bool
  is_complete =
      not (is_empty config.oidc_well_known_url)
      && (not (is_empty config.oidc_client_id) && not (is_empty config.oidc_redirect_uri))

  abbrev pub endpoint_at : (now : ℕ) → Option Text
  endpoint_at now = do
    discovery ← provider.discover now config.oidc_well_known_url
    discovery.authorization_endpoint

  unfoldable pub login_oidc : (now : ℕ) → Response
  unfolding quote_plus
  login_oidc now =
      guarded is_oidc_enabled 403
        (guarded is_complete 400 (to_endpoint (provider.token_urlsafe now) (endpoint_at now)))

  -- "preserve oidc user info"; an empty one counts as missing.
  unfoldable pub refresh_oidc : (now : ℕ) → Cookies → Response
  unfolding refreshed
  refresh_oidc now cookies = guarded is_oidc_enabled 403 (
      refreshed jwt config now oidc (λ p. some (or_else p.user_id (codes "unknown_user")))
        (λ p. p.user_info) cookies)
