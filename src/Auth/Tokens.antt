-- ===== src/Auth/Tokens.antt =====
-- backend/modules/auth/providers/auth_provider.py and auth_schemas.py: the tokens, and what a request and a
-- response have of them.
use tugtainer.Base.{
  ℕ, ◌+◌, ◌*◌, Bool, true, false, ◌&&◌, Option, none, some, List, Text, codes, ◌==◌,
}
use tugtainer.Docker.{truthy}

-- "aud": one text, or a list.
pub data Audience : Type 0 where
  one : Text → Audience
  many : List Text → Audience

-- The claims of an ID token, as far as they are read. A claim that is no text counts as missing, but for
-- "azp": none is a claim that is missing or null, `some none` one of another type.
pub record Claims : Type 0 where
  pub email : Option Text
  pub sub : Option Text
  pub preferred_username : Option Text
  pub azp : Option (Option Text)
  pub aud : Audience

-- The keys that a payload may lack are optional.
pub record TokenPayload : Type 0 where
  pub type : Option Text
  pub auth_provider : Option Text
  pub user_id : Option Text
  pub user_info : Option Claims
  pub exp : ℕ

-- jose, with the key and the algorithm of the configuration; a moment is a number of seconds.
pub record Jwt : Type 0 where
  pub encode : TokenPayload → Text
  pub decode : (now : ℕ) → Text → Option TokenPayload

abbrev pub access : Text
access = codes "access"

abbrev pub refresh : Text
refresh = codes "refresh"

-- The configuration.
pub record AuthConfig : Type 0 where
  pub disable_auth : Bool
  pub disable_password : Bool
  pub oidc_enabled : Bool
  pub access_token_lifetime_min : ℕ
  pub refresh_token_lifetime_min : ℕ
  pub oidc_well_known_url : Text
  pub oidc_client_id : Text
  pub oidc_client_secret : Text
  pub oidc_redirect_uri : Text
  pub oidc_scopes : Text
  pub oidc_allowed_emails : List Text
  pub oidc_allowed_subjects : List Text

pub record Cookies : Type 0 where
  pub access_token : Option Text
  pub refresh_token : Option Text
  pub oidc_state : Option Text

-- `session` sets both cookies of tokens, `redirected` one of the state, `raised` is an exception with its
-- status, and `not_implemented` NotImplementedError.
pub data Response : Type 0 where
  session : (access_token refresh_token : Text) → Response
  redirected : (url state : Text) → Response
  cookies_deleted : Response
  done : (status : ℕ) → Response
  raised : (status : ℕ) → Response
  not_implemented : Response

-- A step that may raise.
abbrev pub guarded : Bool → (status : ℕ) → Response → Response
guarded true status response = response
guarded false status response = raised status

module _ (jwt : Jwt) (config : AuthConfig) where
  -- `_create_token`
  abbrev pub create_token : (now lifetime_min : ℕ) → TokenPayload → Text
  create_token now lifetime_min payload =
      jwt.encode (record payload { exp = now + lifetime_min * 60 })

  abbrev pub payload_of :
      (type provider : Text) → (user_id : Option Text) → Option Claims → TokenPayload
  payload_of type provider user_id user_info = record {
    type = some type;
    auth_provider = some provider;
    user_id = user_id;
    user_info = user_info;
    exp = 0;
  }

  -- Both tokens, set as cookies.
  abbrev pub new_session :
      (now : ℕ) → (provider : Text) → (user_id : Option Text) → Option Claims → Response
  new_session now provider user_id user_info =
      session
        (create_token now config.access_token_lifetime_min
          (payload_of access provider user_id user_info))
        (create_token now config.refresh_token_lifetime_min
          (payload_of refresh provider user_id user_info))

  abbrev pub is_text : Option Text → Text → Bool
  is_text none t = false
  is_text (some s) t = s == t

  -- `_verify_token`, and the tests of the two providers on what it gives.
  abbrev pub verified :
      Option TokenPayload → (type provider : Text) → (TokenPayload → Response) → Response
  verified none type provider next = raised 401
  verified (some p) type provider next =
      guarded (is_text p.type type && is_text p.auth_provider provider) 401 (next p)

  abbrev pub with_token :
      (now : ℕ) → Option Text → (type provider : Text) → (TokenPayload → Response) → Response
  with_token now none type provider next = raised 401
  with_token now (some token) type provider next =
      verified (jwt.decode now token) type provider next

  -- `is_authorized` of a provider.
  unfoldable pub is_authorized_by : (now : ℕ) → (provider : Text) → Cookies → Response
  is_authorized_by now provider cookies =
      with_token now (truthy cookies.access_token) access provider (λ p. done 200)

  -- `refresh` of a provider that is enabled, with the user that the new tokens name.
  unfoldable pub refreshed :
      (now : ℕ)
      → (provider : Text) → (user_id : TokenPayload → Option Text)
      → (user_info : TokenPayload → Option Claims) → Cookies
      → Response
  refreshed now provider user_id user_info cookies =
      with_token now (truthy cookies.refresh_token) refresh provider
        (λ p. new_session now provider (user_id p) (user_info p))
