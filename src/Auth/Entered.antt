-- ===== src/Auth/Entered.antt =====
-- Who is authorized (backend/modules/auth): requests in any order, from clients that cannot forge a token.
pub mod Rules
pub mod Sessions
pub mod Authorized
pub mod Lasting
use tugtainer.Base.{
  ℕ, ◌≡◌, refl, sym, ap, ◌∙◌, arith, Bool, true, false, not, ◌&&◌, Option, none, some, List, [],
  ◌∷◌, Text, codes, Bool-cases, ◌⊎◌, inl, inr, elem, eq_iff, ◌==◌, or_else, if◌then◌else◌,
}
use tugtainer.Docker.{truthy}
use tugtainer.Auth.Tokens.{
  Claims, TokenPayload, Jwt, AuthConfig, Cookies, refresh, access, Response, session, redirected,
  cookies_deleted, done, raised, not_implemented, guarded, new_session, with_token, verified,
  is_text, is_authorized_by, refreshed,
}
use tugtainer.Auth.Password.{
  is_password_enabled, Bcrypt, password, against, checked, is_password_enabled, if_set, is_done,
  login, refresh_password, set_password,
}
use tugtainer.Auth.Oidc.{
  is_oidc_enabled, Provider, oidc, claims_of, is_identity_allowed, created, is_one, is_oidc_enabled,
  to_endpoint, is_complete, endpoint_at, has_code, callback, login_oidc, refresh_oidc,
}
use tugtainer.Auth.{
  AuthProvider, Event, login_with, provider_callback, refresh_tokens, log_out, change_password,
  ask_authorized, Past, World, AuthProvider, by_password, by_oidc, logged_in, called_back,
  refreshed_with, authorized_with, logged_out, unless_disabled, auth_provider_by_name,
  active_auth_provider, with_issued, answer, after_event, is_authorized,
}

abbrev pub past_of : (now : ℕ) → Cookies → (file : Option Text) → Event → Past
past_of now cookies file event = record {
  now = now;
  cookies = cookies;
  password_file = file;
  event = event;
}

abbrev pub name_of : AuthProvider → Text
name_of by_password = password
name_of by_oidc = oidc

module _ (jwt : Jwt) (config : AuthConfig) (bcrypt : Bcrypt) (provider : Provider) where
  -- A request by which one enters: a login with a password that the file of that moment accepts, or the
  -- callback of a client that has its state, for a user whom the provider vouches for and the lists allow.
  abbrev pub IsEntry : (name : Option Text) → (user : Option Claims) → Past → Event → Type 0
  IsEntry name user past (login_with provider_name body) =
      (name ≡ some password)
      × (auth_provider_by_name provider_name ≡ some by_password)
      × (hash : Text) × (truthy past.password_file ≡ some hash)
      × (bcrypt.checkpw (or_else body []) hash ≡ some true)
  IsEntry name user past (provider_callback provider_name code state error) =
      (name ≡ some oidc)
      × (auth_provider_by_name provider_name ≡ some by_oidc)
      × (truthy past.cookies.oidc_state ≡ some state)
      × (claims : Claims) × (claims_of jwt config provider past.now code ≡ some claims)
      × (is_identity_allowed jwt config provider claims ≡ true)
      × (user ≡ some claims)
  IsEntry name user past other = true ≡ false

  abbrev pub Entered : (name : Option Text) → (user : Option Claims) → List Past → Type 0
  Entered name user [] = true ≡ false
  Entered name user (past ∷ history) = IsEntry name user past past.event ⊎ Entered name user history

  -- No client has a token that can be decoded and was not set as a cookie before.
  abbrev pub Presented : List Text → Cookies → Type 0
  Presented issued cookies =
      (token : Text)
      → (truthy cookies.access_token ≡ some token) ⊎ (truthy cookies.refresh_token ≡ some token)
      → (now : ℕ) (p : TokenPayload) → jwt.decode now token ≡ some p
      → elem token issued ≡ true

  -- The worlds that sequences of requests lead to.
  pub data Reach : World → Type 0 where
    start :
        (file : Option Text) → Reach (record { password_file = file; issued = []; history = [] })
    next :
        {w : World}
        → Reach w
        → (now : ℕ) (cookies : Cookies) (event : Event) → Presented w.issued cookies
        → Reach (after_event jwt config bcrypt provider now cookies event w)

  abbrev pub IsBacked : List Past → Text → Type 0
  IsBacked history token =
      (now : ℕ) (p : TokenPayload)
      → jwt.decode now token ≡ some p
      → Entered p.auth_provider p.user_info history

  abbrev pub AllBacked : World → Type 0
  AllBacked w = (token : Text) → elem token w.issued ≡ true → IsBacked w.history token

  abbrev pub is_enabled : AuthProvider → Bool
  is_enabled by_password = is_password_enabled jwt config bcrypt
  is_enabled by_oidc = is_oidc_enabled jwt config provider

  -- Which user a new token names, by the provider, where an old one is read.
  abbrev pub IsKept : AuthProvider → TokenPayload → (user : Option Claims) → Type 0
  IsKept by_password p user = user ≡ none
  IsKept by_oidc p user = user ≡ p.user_info

  -- The cookies have a token of the provider to refresh.
  abbrev pub IsRenewal : (now : ℕ) → Cookies → AuthProvider → (user : Option Claims) → Type 0
  IsRenewal now cookies by user =
      (token : Text) × (p : TokenPayload) × (truthy cookies.refresh_token ≡ some token)
      × (jwt.decode now token ≡ some p)
      × (p.auth_provider ≡ some (name_of by))
      × IsKept by p user

  -- What is known of a response.
  abbrev pub IsSound : List Past → Response → Type 0
  IsSound history (session access_token refresh_token) =
      IsBacked history access_token × IsBacked history refresh_token
  IsSound history other = Unit {0}

  -- What the cookies of an authorized request have.
  abbrev pub HasEntered : World → Cookies → (now : ℕ) → Type 0
  HasEntered w cookies now =
      (token : Text) × (p : TokenPayload) × (truthy cookies.access_token ≡ some token)
      × (jwt.decode now token ≡ some p)
      × Entered p.auth_provider p.user_info w.history
