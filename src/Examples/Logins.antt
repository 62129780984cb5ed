-- ===== src/Examples/Logins.antt =====
-- A password is set, someone logs in with it and is authorized by the token; and a user of OpenID Connect whom
-- the lists do not allow.
use tugtainer.Base.{
  ℕ, Bool-cases, ◌⊎◌, lower, ◌≡◌, refl, sym, some_inj, ◌∙◌, ap, arith, Bool, true, false, ◌&&◌,
  Option, none, some, List, [], ◌∷◌, Text, codes, ◌==◌, eq_iff, elem, eqb, ltb, inl, inr,
  if◌then◌else◌,
}
use tugtainer.Auth.Tokens.{
  Claims, access, refresh, session, one, TokenPayload, Jwt, AuthConfig, Cookies, done,
}
use tugtainer.Auth.Password.{Bcrypt}
use tugtainer.Auth.Oidc.{Provider, is_identity_allowed}
use tugtainer.Auth.{
  World, answer, refresh_tokens, change_password, login_with, after_event, is_authorized,
}
use tugtainer.Auth.Entered.{Presented, Reach, start, next, HasEntered}
use tugtainer.Auth.Entered.Lasting.{session_lasts}
use tugtainer.Auth.Entered.Authorized.{is_authorized-HasEntered}

abbrev payload : (type : Text) → (exp : ℕ) → TokenPayload
payload type exp = record {
  type = some type;
  auth_provider = some (codes "password");
  user_id = none;
  user_info = none;
  exp = exp;
}

abbrev is : Option Text → Text → Bool
is none t = false
is (some s) t = s == t

abbrev is_none {ℓ} : {A : Type ℓ} → Option A → Bool
is_none none = true
is_none (some a) = false

abbrev is_payload : (type : Text) → (exp : ℕ) → TokenPayload → Bool
is_payload type exp p =
    is p.type type
    && (is p.auth_provider (codes "password")
        && (is_none p.user_id && (is_none p.user_info && eqb p.exp exp)))

is_lem : (o : Option Text) (t : Text) → is o t ≡ true → o ≡ some t
is_lem none t h = cc
is_lem (some s) t h = ap some ((eq_iff s t).0 h)

is_none_lem {ℓ} : {A : Type ℓ} (o : Option A) → is_none o ≡ true → o ≡ none
is_none_lem none h = refl
is_none_lem (some a) h = absurd (ground (arith, h))

is_payload_lem :
    (type : Text) (exp : ℕ) (p : TokenPayload) → is_payload type exp p ≡ true → payload type exp ≡ p
is_payload_lem type exp p h = ground (
  arith,
  h,
  is_lem p.type type,
  is_lem p.auth_provider (codes "password"),
  is_none_lem p.user_id,
  is_none_lem p.user_info,
)

-- Two payloads have tokens; what else is encoded cannot be decoded.
abbrev token_of : (is_access is_refresh : Bool) → Text
token_of true other = codes "A"
token_of false true = codes "R"
token_of false false = codes "-"

abbrev live : (now : ℕ) → TokenPayload → Option TokenPayload
live now p = if ltb now p.exp then some p else none

abbrev read : (now : ℕ) → Text → Option TokenPayload
read now token =
    if token == codes "A"
    then live now (payload access 60)
    else if token == codes "R"
    then live now (payload refresh 120)
    else none

abbrev jwt : Jwt
jwt = record {
  encode = λ p. token_of (is_payload access 60 p) (is_payload refresh 120 p);
  decode = read;
}

live_lem : (now : ℕ) (p q : TokenPayload) → live now p ≡ some q → p ≡ q
live_lem now p q h = elim (Bool-cases (ltb now p.exp)) [
  | inl early ↦ some_inj (rw early at h)
  | inr late ↦ absurd (ground (arith, rw late at h))
]

reads_token :
    (now : ℕ) (b c : Bool) (p q : TokenPayload)
    → is_payload access 60 p ≡ b
    → is_payload refresh 120 p ≡ c
    → read now (token_of b c) ≡ some q
    → q ≡ p
unfolding ◌==◌
reads_token now true c p q k l h =
    sym (live_lem now (payload access 60) q h) ∙ is_payload_lem access 60 p k
reads_token now false true p q k l h =
    sym (live_lem now (payload refresh 120) q h) ∙ is_payload_lem refresh 120 p l
reads_token now false false p q k l h = absurd (ground (arith, h))

reads_back : (now : ℕ) (p q : TokenPayload) → jwt.decode now (jwt.encode p) ≡ some q → q ≡ p
reads_back now p q h =
    reads_token now (is_payload access 60 p) (is_payload refresh 120 p) p q refl refl h

-- At 1 both tokens decode.
decodes_token :
    (b c : Bool) (p : TokenPayload)
    → is_payload access 60 p ≡ b
    → is_payload refresh 120 p ≡ c
    → (token_of b c ≡ codes "A") ⊎ (token_of b c ≡ codes "R")
    → read 1 (token_of b c) ≡ some p
unfolding ◌==◌
decodes_token true c p k l h = ap some (is_payload_lem access 60 p k)
decodes_token false true p k l h = ap some (is_payload_lem refresh 120 p l)
decodes_token false false p k l (inl h) = absurd (ground (arith, h))
decodes_token false false p k l (inr h) = absurd (ground (arith, h))

abbrev config : AuthConfig
config = record {
  disable_auth = false;
  disable_password = false;
  oidc_enabled = true;
  access_token_lifetime_min = 1;
  refresh_token_lifetime_min = 2;
  oidc_well_known_url = [];
  oidc_client_id = [];
  oidc_client_secret = [];
  oidc_redirect_uri = [];
  oidc_scopes = [];
  oidc_allowed_emails = codes "a@b.c" ∷ [];
  oidc_allowed_subjects = [];
}

abbrev bcrypt : Bcrypt
bcrypt = record { checkpw = λ plain hashed. some (plain == hashed); hashpw = λ now plain. plain }

abbrev provider : Provider
provider = record {
  discover = λ now url. none;
  exchange = λ now endpoint code redirect_uri client_id client_secret. none;
  unverified_header = λ token. none;
  fetch_jwks = λ now uri. none;
  decode = λ now token key algorithm audience issuer access_token. none;
  token_urlsafe = λ now. codes "s";
  casefold = lower;
}

abbrev claims_with : Text → Claims
claims_with email = record {
  email = some email;
  sub = none;
  preferred_username = none;
  azp = none;
  aud = one [];
}

-- Upper case in the address makes no difference.
allowed : is_identity_allowed jwt config provider (claims_with (codes "A@b.c")) ≡ true
unfolding is_identity_allowed lower ◌==◌
allowed = refl

not_allowed : is_identity_allowed jwt config provider (claims_with (codes "x@b.c")) ≡ false
unfolding is_identity_allowed lower ◌==◌
not_allowed = refl

abbrev no_cookies : Cookies
no_cookies = record { access_token = none; refresh_token = none; oidc_state = none }

abbrev cookies : Cookies
cookies = record {
  access_token = some (codes "A");
  refresh_token = some (codes "R");
  oidc_state = none;
}

abbrev secret : Text
secret = codes "Pass1"

abbrev fresh : World
fresh = record { password_file = none; issued = []; history = [] }

abbrev with_password : World
with_password =
    after_event jwt config bcrypt provider 0 no_cookies (change_password secret secret) fresh

abbrev with_login : World
with_login =
    after_event jwt config bcrypt provider 0 no_cookies
      (login_with (codes "password") (some secret)) with_password

shows_none : (issued : List Text) → Presented jwt config bcrypt provider issued no_cookies
shows_none issued token (inl h) now p k = absurd (ground (arith, h))
shows_none issued token (inr h) now p k = absurd (ground (arith, h))

reached : Reach jwt config bcrypt provider with_login
reached =
    next (next (start none) 0 no_cookies (change_password secret secret) (shows_none [])) 0
      no_cookies (login_with (codes "password") (some secret)) (shows_none _)

issued_both : with_login.issued ≡ codes "A" ∷ codes "R" ∷ []
unfolding after_event ◌==◌
issued_both = refl

shows_token : Presented jwt config bcrypt provider with_login.issued cookies
unfolding elem ◌==◌
shows_token token (inl h) now p k = rw (issued_both) (rw (sym (some_inj h)) (refl))
shows_token token (inr h) now p k = rw (issued_both) (rw (sym (some_inj h)) (refl))

authorized : is_authorized jwt config bcrypt provider 1 cookies ≡ done 200
unfolding is_authorized ◌==◌
authorized = refl

is_authorized-HasEntered_example : HasEntered jwt config bcrypt provider with_login cookies 1
is_authorized-HasEntered_example =
    is_authorized-HasEntered jwt config bcrypt provider reads_back with_login reached 1 cookies
      shows_token refl authorized

login_answer :
    (answer jwt config bcrypt provider 0 no_cookies with_password.password_file
      (login_with (codes "password") (some secret))).0
    ≡ session (codes "A") (codes "R")
unfolding answer after_event ◌==◌
login_answer = refl

abbrev other_file : Option Text
other_file = some (codes "Other1")

-- The password has been changed in the meantime.
session_lasts_example :
    (is_authorized jwt config bcrypt provider 1 cookies ≡ done 200)
    × (a r : Text) × ((answer jwt config bcrypt provider 1 cookies other_file refresh_tokens).0
        ≡ session a r)
session_lasts_example =
    session_lasts jwt config bcrypt provider 0 1 cookies (codes "A") (codes "R")
      (λ p h early. decodes_token (is_payload access 60 p) (is_payload refresh 120 p) p refl refl h)
      refl refl refl refl no_cookies with_password.password_file other_file
      (login_with (codes "password") (some secret)) login_answer
