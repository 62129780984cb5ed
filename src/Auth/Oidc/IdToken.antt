-- ===== src/Auth/Oidc/IdToken.antt =====
-- The ID token of auth_oidc_provider.py: the exchange of the code and the verification.
use tugtainer.Base.{
  ℕ, Bool, true, false, ◌&&◌, Option, none, some, List, [], ◌∷◌, Text, codes, elem, select, ◌==◌,
}
use tugtainer.Docker.{truthy}
use tugtainer.Auth.Tokens.{Audience, many, Claims, AuthConfig}

-- A key of the provider. Of "use" and "alg" none is a key that is missing, and `some none` a value that is no
-- text, null also; "kid" counts as missing where it is no text.
pub record SigningKey : Type 0 where
  pub kid : Option Text
  pub use_for : Option (Option Text)
  pub alg : Option (Option Text)
  pub material : Text

-- The discovery document; a value that is no text counts as missing.
pub record Discovery : Type 0 where
  pub authorization_endpoint : Option Text
  pub token_endpoint : Option Text
  pub issuer : Option Text
  pub jwks_uri : Option Text
  pub signing_algs : Option (List Text)

pub record Tokens : Type 0 where
  pub id_token : Option Text
  pub access_token : Option Text

pub record KeyHeader : Type 0 where
  pub alg : Option Text
  pub kid : Option Text

-- The provider, jose, and `str.casefold`. Each is none where it raises or where the status is not 200; a document of keys may
-- lack its list. `token_urlsafe` gives a state at random.
pub record Provider : Type 0 where
  pub discover : (now : ℕ) → (well_known_url : Text) → Option Discovery
  pub exchange :
      (now : ℕ) → (endpoint code redirect_uri client_id client_secret : Text) → Option Tokens
  pub unverified_header : Text → Option KeyHeader
  pub fetch_jwks : (now : ℕ) → (jwks_uri : Text) → Option (List SigningKey)
  pub decode :
      (now : ℕ)
      → (id_token : Text) → SigningKey
      → (algorithm audience issuer : Text) → (access_token : Option Text) → Option Claims
  pub token_urlsafe : (now : ℕ) → Text
  pub casefold : Text → Text

abbrev asymmetric_algorithms : List Text
asymmetric_algorithms =
    codes "RS256"
    ∷ codes "RS384"
    ∷ codes "RS512"
    ∷ codes "ES256"
    ∷ codes "ES384"
    ∷ codes "ES512"
    ∷ []

infixl 5 ◌>>=◌
abbrev pub ◌>>=◌ : {A B : Type 0} → Option A → (A → Option B) → Option B
none >>= f = none
some a >>= f = f a

abbrev require : {A : Type 0} → Bool → Option A → Option A
require true o = o
require false o = none

abbrev pub is_one : Option Text → Text → Bool
is_one none t = false
is_one (some s) t = s == t

-- Whether a value is absent or the expected one.
abbrev is_or_missing : Option (Option Text) → Text → Bool
is_or_missing none t = true
is_or_missing (some o) t = is_one o t

abbrev is_advertised : Text → Option (List Text) → Bool
is_advertised algorithm none = true
is_advertised algorithm (some algorithms) = elem algorithm algorithms

abbrev fits_kid : Option Text → Option Text → Bool
fits_kid none kid = true
fits_kid (some key_id) none = false
fits_kid (some key_id) (some kid) = kid == key_id

unfoldable pub is_matching : (algorithm : Text) → (key_id : Option Text) → SigningKey → Bool
is_matching algorithm key_id key =
    fits_kid key_id key.kid
    && (is_or_missing key.use_for (codes "sig") && is_or_missing key.alg algorithm)

abbrev the_only : List SigningKey → Option SigningKey
the_only (key ∷ []) = some key
the_only keys = none

-- A claim of any type, and whether it is the expected text.
abbrev is_given : Option (Option Text) → Text → Bool
is_given none t = false
is_given (some o) t = is_one o t

abbrev fits_party : Audience → Option (Option Text) → (client_id : Text) → Bool
fits_party (many (a ∷ b ∷ rest)) azp client_id = is_given azp client_id
fits_party audience azp client_id = is_or_missing azp client_id

module _ (config : AuthConfig) (provider : Provider) where
  abbrev checked_party : Claims → Option Claims
  checked_party claims =
      require (fits_party claims.aud claims.azp config.oidc_client_id) (some claims)

  -- `_verify_oidc_id_token`
  unfoldable pub verify_oidc_id_token :
      (now : ℕ) → (id_token : Text) → (access_token : Option Text) → Discovery → Option Claims
  unfolding elem select is_matching
  verify_oidc_id_token now id_token access_token discovery = do
    issuer ← truthy discovery.issuer
    jwks_uri ← truthy discovery.jwks_uri
    header ← provider.unverified_header id_token
    algorithm ← header.alg
    require (elem algorithm asymmetric_algorithms && is_advertised algorithm discovery.signing_algs)
        (do
          keys ← provider.fetch_jwks now jwks_uri
          key ← the_only (select (is_matching algorithm header.kid) keys)
          claims ←
              provider.decode now id_token key algorithm config.oidc_client_id issuer access_token
          checked_party claims)

  -- `_exchange_oidc_code`, without the access token of the provider, which nothing reads.
  unfoldable pub exchange_oidc_code : (now : ℕ) → (code : Text) → Discovery → Option Claims
  unfolding verify_oidc_id_token
  exchange_oidc_code now code discovery = do
    endpoint ← discovery.token_endpoint
    tokens ←
        provider.exchange now endpoint code config.oidc_redirect_uri config.oidc_client_id
          config.oidc_client_secret
    id_token ← truthy tokens.id_token
    verify_oidc_id_token now id_token tokens.access_token discovery
