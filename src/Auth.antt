-- ===== src/Auth.antt =====
-- backend/modules/auth: auth_util.py and auth_router.py over the two providers, and what a sequence of
-- requests does.
pub mod Tokens
pub mod Password
pub mod Oidc
pub mod Entered
use tugtainer.Base.{
  ℕ, Bool, true, false, ◌&&◌, Option, none, some, List, [], ◌∷◌, Text, codes, ◌==◌, elem,
  if◌then◌else◌,
}
use tugtainer.Docker.{truthy, first_of}
use tugtainer.Auth.Tokens.{
  Claims, TokenPayload, Jwt, AuthConfig, Cookies, Response, session, done, raised, not_implemented,
  cookies_deleted, guarded, is_authorized_by,
}
use tugtainer.Auth.Password.{
  Bcrypt, password, is_password_enabled, login, logout, refresh_password, set_password,
  password_validator,
}
use tugtainer.Auth.Oidc.{Provider, oidc, is_oidc_enabled, callback, login_oidc, refresh_oidc}

-- `AUTH_PROVIDERS`
pub data AuthProvider : Type 0 where
  by_password by_oidc : AuthProvider

abbrev named : Option Text → Option AuthProvider
named none = none
named (some name) =
    if name == password then some by_password else (if name == oidc then some by_oidc else none)

unfoldable pub auth_provider_by_name : Text → Option AuthProvider
auth_provider_by_name name = named (some name)

-- The requests. A login by a provider has the password of the body, which only one provider reads.
pub data Event : Type 0 where
  login_with : (provider : Text) → (body : Option Text) → Event
  provider_callback : (provider code state error : Text) → Event
  refresh_tokens : Event
  log_out : Event
  change_password : (plain confirm : Text) → Event
  ask_authorized : Event

-- A request of the past: its moment, its cookies, the file of the password at that time, and what it asked.
pub record Past : Type 0 where
  pub now : ℕ
  pub cookies : Cookies
  pub password_file : Option Text
  pub event : Event

-- The file of the password, the tokens that were set as cookies, and the past requests.
pub record World : Type 0 where
  pub password_file : Option Text
  pub issued : List Text
  pub history : List Past

module _ (jwt : Jwt) (config : AuthConfig) (bcrypt : Bcrypt) (provider : Provider) where
  abbrev decoded : (now : ℕ) → Option Text → Option TokenPayload
  decoded now none = none
  decoded now (some token) = jwt.decode now token

  abbrev provider_of : Option TokenPayload → Option TokenPayload → Option AuthProvider
  provider_of none none = none
  provider_of none (some p) = named p.auth_provider
  provider_of (some p) other = named p.auth_provider

  -- The provider that the first token names that can be decoded.
  unfoldable pub active_auth_provider : (now : ℕ) → Cookies → Option AuthProvider
  active_auth_provider now cookies =
      provider_of (decoded now (truthy cookies.access_token))
        (decoded now (truthy cookies.refresh_token))

  abbrev pub authorized_with : (now : ℕ) → Cookies → Option AuthProvider → Response
  authorized_with now cookies none = raised 401
  authorized_with now cookies (some by_password) =
      guarded (is_password_enabled jwt config bcrypt) 403
        (is_authorized_by jwt config now password cookies)
  authorized_with now cookies (some by_oidc) =
      guarded (is_oidc_enabled jwt config provider) 403
        (is_authorized_by jwt config now oidc cookies)

  abbrev pub unless_disabled : Bool → Response → Response
  unless_disabled true response = done 200
  unless_disabled false response = response

  -- `is_authorized`, on which the other routers depend.
  unfoldable pub is_authorized : (now : ℕ) → Cookies → Response
  unfolding active_auth_provider is_authorized_by
  is_authorized now cookies =
      unless_disabled config.disable_auth
        (authorized_with now cookies (active_auth_provider now cookies))

  -- FastAPI refuses the name of another provider.
  abbrev pub logged_in : (now : ℕ) → (file body : Option Text) → Option AuthProvider → Response
  logged_in now file body none = raised 422
  logged_in now file body (some by_password) = login jwt config bcrypt now file body
  logged_in now file body (some by_oidc) = login_oidc jwt config provider now

  abbrev pub called_back :
      (now : ℕ) → Cookies → (code state error : Text) → Option AuthProvider → Response
  called_back now cookies code state error none = raised 422
  called_back now cookies code state error (some by_password) = not_implemented
  called_back now cookies code state error (some by_oidc) =
      callback jwt config provider now cookies code state error

  abbrev pub refreshed_with : (now : ℕ) → Cookies → Option AuthProvider → Response
  refreshed_with now cookies none = raised 401
  refreshed_with now cookies (some by_password) = refresh_password jwt config bcrypt now cookies
  refreshed_with now cookies (some by_oidc) = refresh_oidc jwt config provider now cookies

  abbrev pub logged_out : Option AuthProvider → Response
  logged_out none = done 200
  logged_out (some other) = cookies_deleted

  -- FastAPI refuses a body that the validators of auth_schemas.py refuse.
  abbrev pub if_valid :
      Bool → Response × Option Text → (file : Option Text) → Response × Option Text
  if_valid true changed file = changed
  if_valid false changed file = (raised 422, file)

  -- The answer to a request, and the file after it.
  unfoldable pub answer :
      (now : ℕ) → Cookies → (file : Option Text) → Event → Response × Option Text
  unfolding login login_oidc callback refresh_password refresh_oidc set_password is_authorized
      active_auth_provider auth_provider_by_name password_validator
  answer now cookies file (login_with name body) =
      (logged_in now file body (auth_provider_by_name name), file)
  answer now cookies file (provider_callback name code state error) =
      (called_back now cookies code state error (auth_provider_by_name name), file)
  answer now cookies file refresh_tokens =
      (refreshed_with now cookies (active_auth_provider now cookies), file)
  answer now cookies file log_out = (logged_out (active_auth_provider now cookies), file)
  answer now cookies file (change_password plain confirm) =
      if_valid (password_validator plain && password_validator confirm)
        (set_password jwt config bcrypt now cookies plain file) file
  answer now cookies file ask_authorized = (is_authorized now cookies, file)

  abbrev pub with_issued : Response → List Text → List Text
  with_issued (session access_token refresh_token) issued = access_token ∷ refresh_token ∷ issued
  with_issued other issued = issued

  unfoldable pub after_event : (now : ℕ) → Cookies → Event → World → World
  unfolding answer
  after_event now cookies event w =
      let (response, file) = answer now cookies w.password_file event in
      record {
        password_file = file;
        issued = with_issued response w.issued;
        history =
            record { now = now; cookies = cookies; password_file = w.password_file; event = event }
            ∷ w.history;
      }
