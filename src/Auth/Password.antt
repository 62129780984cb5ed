-- ===== src/Auth/Password.antt =====
-- backend/modules/auth/providers/auth_password_provider.py. Its state is the file of the password.
use tugtainer.Base.{
  ℕ, Bool, true, false, not, ◌&&◌, Option, none, some, [], Text, codes, any, leb, or_else,
  if◌then◌else◌,
}
use tugtainer.Docker.{truthy}
use tugtainer.Auth.Tokens.{
  Jwt, AuthConfig, Cookies, Response, done, raised, cookies_deleted, guarded, new_session,
  refreshed, is_authorized_by,
}

abbrev pub password : Text
password = codes "password"

-- bcrypt: `checkpw` raises `ValueError` where the stored text is no hash; a salt differs by the moment.
pub record Bcrypt : Type 0 where
  pub checkpw : (plain hashed : Text) → Option Bool
  pub hashpw : (now : ℕ) → (plain : Text) → Text

-- `password_validator` of auth_validators.py, with `\d` on the ASCII range.
unfoldable pub password_validator : Text → Bool
unfolding any
password_validator value =
    any (λ c. leb b'A' c && leb c b'Z') value
    && (any (λ c. leb b'a' c && leb c b'z') value && any (λ c. leb b'0' c && leb c b'9') value)

module _ (jwt : Jwt) (config : AuthConfig) (bcrypt : Bcrypt) where
  abbrev pub is_password_enabled : Bool
  is_password_enabled = not config.disable_auth && not config.disable_password

  abbrev pub checked : (now : ℕ) → Option Bool → Response
  checked now none = raised 500
  checked now (some right) = guarded right 401 (new_session jwt config now password none none)

  abbrev pub against : (now : ℕ) → (plain : Text) → Option Text → Response
  against now plain none = raised 401
  against now plain (some hash) = checked now (bcrypt.checkpw plain hash)

  -- `login`, with the file and the password of the body, which is missing where the body cannot be read.
  unfoldable pub login : (now : ℕ) → (file body : Option Text) → Response
  login now file body =
      guarded is_password_enabled 403 (against now (or_else body []) (truthy file))

  unfoldable pub logout : Response
  logout = cookies_deleted

  unfoldable pub refresh_password : (now : ℕ) → Cookies → Response
  unfolding refreshed
  refresh_password now cookies =
      guarded is_password_enabled 403
        (refreshed jwt config now password (λ p. none) (λ p. none) cookies)

  abbrev pub is_done : Response → Bool
  is_done (done status) = true
  is_done other = false

  abbrev written : (now : ℕ) → (plain : Text) → Response × Option Text
  written now plain = (done 201, some (bcrypt.hashpw now plain))

  abbrev pub if_set :
      (now : ℕ) → Cookies → (plain : Text) → Option Text → Option Text → Response × Option Text
  if_set now cookies plain none file = written now plain
  if_set now cookies plain (some hash) file =
      let answer = is_authorized_by jwt config now password cookies in
      if is_done answer then written now plain else (answer, file)

  -- `set_password`, and the file after it.
  unfoldable pub set_password :
      (now : ℕ) → Cookies → (plain : Text) → (file : Option Text) → Response × Option Text
  unfolding is_authorized_by
  set_password now cookies plain file = if_set now cookies plain (truthy file) file

  abbrev is_some : Option Text → Bool
  is_some none = false
  is_some (some t) = true

  unfoldable pub is_password_set : (file : Option Text) → Bool
  is_password_set file = is_some (truthy file)
