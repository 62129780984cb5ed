-- ===== src/Registry.antt =====
-- `get_image_remote_digest` of backend/core/check_actions/check_actions_util.py: how a registry is asked
-- for the digest of an image.
pub mod Spec
pub mod Token
pub mod Exchanges
pub mod Explained
use tugtainer.Base.{
  ℕ, Bool, true, false, not, Option, none, some, List, [], ◌∷◌, ◌++◌, Text, Dict, codes, put,
  or_else, contains_text, eqb, leb, split, ◌||◌, if◌then◌else◌,
}
use tugtainer.Docker.{truthy, first_of}
use tugtainer.Registry.Spec.{ImageSpec, AuthEntry, parse_image_spec, is_insecure, get_basic_token}
use tugtainer.Registry.Token.{token_url}

-- The exceptions: `ClientSSLError` and `ClientConnectorError`, `ClientResponseError`, and all others.
pub data RegistryError : Type 0 where
  connection_error response_error other_error : RegistryError

-- The answer to a request for a token.
pub record TokenBody : Type 0 where
  pub token : Option Text
  pub access_token : Option Text

-- `json` is none where `resp.json()` raises.
pub record Response : Type 0 where
  pub status : ℕ
  pub www_authenticate : Option Text
  pub content_digest : Option Text
  pub etag : Option Text
  pub json : Option TokenBody

pub data Reply : Type 0 where
  response : Response → Reply
  broken : RegistryError → Reply

pub data Verb : Type 0 where
  head get : Verb

pub record Asked : Type 0 where
  pub verb : Verb
  pub url : Text
  pub headers : Dict Text
  pub ssl : Bool

-- What was asked, with the replies, the latest first.
abbrev pub Log : Type 0
Log = List (Asked × Reply)

pub data Outcome (A : Type 0) : Type 0 where
  ok : A → Outcome A
  failed : RegistryError → Outcome A

abbrev pub is_refused : ℕ → Bool
is_refused status = eqb status 401 || eqb status 403

abbrev pub asks_bearer : Response → Bool
asks_bearer resp = contains_text (or_else resp.www_authenticate []) (codes "Bearer")

-- The network: any function of what was asked before.
module _ (network : Log → Asked → Reply) (local_digest : Option Text) where
  abbrev digest_in : Response → Option Text
  digest_in resp =
      if eqb resp.status 304 then local_digest else first_of (truthy resp.content_digest) resp.etag

  abbrev pub on_resp : Response → Outcome (Option Text)
  on_resp resp = if leb 400 resp.status then failed response_error else ok (digest_in resp)

  abbrev pub finish : Reply → Outcome (Option Text)
  finish (broken e) = failed e
  finish (response resp) = on_resp resp

  module _ (repo : Text) (basic_token : Option Text) (ssl : Bool) where
    abbrev pub head_request : Text → Dict Text → Asked
    head_request url headers = record { verb = head; url = url; headers = headers; ssl = ssl }

    unfoldable pub head_again : Text → Dict Text → Log → Outcome (Option Text) × Log
    head_again url headers log =
        let a = head_request url headers in
        let reply = network log a in (finish reply, (a, reply) ∷ log)

    abbrev with_basic : Option Text → Dict Text
    with_basic none = []
    with_basic (some t) = (codes "Authorization", codes "Basic " ++ t) ∷ []

    abbrev pub token_request : Text → Asked
    token_request url = record {
      verb = get;
      url = url;
      headers = with_basic (truthy basic_token);
      ssl = ssl;
    }

    abbrev pub token_of : Option TokenBody → Outcome Text
    token_of none = failed other_error
    token_of (some body) = ok (or_else (first_of (truthy body.token) (truthy body.access_token)) [])

    abbrev pub got_token : Reply → Outcome Text
    got_token (broken e) = failed e
    got_token (response resp) =
        if leb 400 resp.status then failed response_error else token_of resp.json

    unfoldable pub get_registry_bearer_token : Option Text → Log → Outcome Text × Log
    get_registry_bearer_token none log = (failed other_error, log)
    get_registry_bearer_token (some url) log =
        let reply = network log (token_request url) in
        (got_token reply, (token_request url, reply) ∷ log)

    abbrev pub with_token : Text → Dict Text → Outcome Text → Log → Outcome (Option Text) × Log
    with_token url headers (failed e) log = (failed e, log)
    with_token url headers (ok t) log =
        head_again url (put (codes "Authorization") (codes "Bearer " ++ t) headers) log

    abbrev pub by_basic :
        Text → Dict Text → Response → Option Text → Log → Outcome (Option Text) × Log
    by_basic url headers resp none log = (on_resp resp, log)
    by_basic url headers resp (some t) log =
        head_again url (put (codes "Authorization") (codes "Basic " ++ t) headers) log

    abbrev pub by_bearer : Text → Dict Text → Response → Log → Outcome (Option Text) × Log
    by_bearer url headers resp log =
        let (token, log') =
          get_registry_bearer_token (token_url (or_else resp.www_authenticate []) repo) log in
        with_token url headers token log'

    abbrev pub answered : Text → Dict Text → Reply → Log → Outcome (Option Text) × Log
    answered url headers (broken e) log = (failed e, log)
    answered url headers (response resp) log =
        if is_refused resp.status
        then if asks_bearer resp
          then by_bearer url headers resp log
          else by_basic url headers resp (truthy basic_token) log
        else (on_resp resp, log)

    unfoldable pub do_request : Text → Dict Text → Log → Outcome (Option Text) × Log
    unfolding get_registry_bearer_token head_again
    do_request url headers log =
        let a = head_request url headers in
        let reply = network log a in answered url headers reply ((a, reply) ∷ log)

    abbrev raised : Option RegistryError → Outcome (Option Text)
    raised none = ok none
    raised (some e) = failed e

    -- What follows an attempt: only an error of the connection leads to the next one.
    abbrev pub after :
        Outcome (Option Text)
        → Log
        → (Log → Outcome (Option Text) × Log)
        → Outcome (Option Text) × Log
    after (failed connection_error) log next = next log
    after outcome log next = (outcome, log)

    -- The loop over the schemes, with the last error.
    unfoldable pub try_urls :
        Option RegistryError → List Text → Dict Text → Log → Outcome (Option Text) × Log
    unfolding do_request
    try_urls last_error [] headers log = (raised last_error, log)
    try_urls last_error (url ∷ urls) headers log =
        let (outcome, log') = do_request url headers log in
        after outcome log' (try_urls (some connection_error) urls headers)

-- `s.split("@")[-1]`
abbrev last : List Text → Text
last [] = []
last (t ∷ []) = t
last (t ∷ u ∷ ts) = last (u ∷ ts)

unfoldable pub short_digest : Option Text → Option Text
unfolding split
short_digest none = none
short_digest (some digest) = some (last (split b'@' digest))

abbrev accept : Text
accept =
    codes
      "application/vnd.oci.image.index.v1+json,application/vnd.docker.distribution.manifest.list.v2+json,application/vnd.oci.image.manifest.v1+json,application/vnd.docker.distribution.manifest.v2+json"

abbrev with_digest : Option Text → Dict Text
with_digest none = (codes "Accept", accept) ∷ []
with_digest (some digest) = (codes "Accept", accept) ∷ (codes "If-None-Match", digest) ∷ []

abbrev pub url_of : (scheme : Text) → ImageSpec → Text
url_of scheme image =
    scheme
    ++ (codes "://"
        ++ (image.registry ++ (codes "/v2/" ++ (image.repo ++ (codes "/manifests/" ++ image.tag)))))

abbrev pub urls_of : (insecure : Bool) → ImageSpec → List Text
urls_of true image = url_of (codes "https") image ∷ url_of (codes "http") image ∷ []
urls_of false image = url_of (codes "https") image ∷ []

module _ (network : Log → Asked → Reply) (insecure_registries : Option Text)
    (auths : Dict AuthEntry) where
  unfoldable pub get_image_remote_digest :
      (spec : Text) → (local_digest : Option Text) → Outcome (Option Text) × Log
  unfolding short_digest parse_image_spec is_insecure get_basic_token try_urls
  get_image_remote_digest spec local_digest =
      let image = parse_image_spec spec in
      let insecure = is_insecure insecure_registries image.registry in
      try_urls network (short_digest local_digest) image.repo (get_basic_token auths image.registry)
        (not insecure) none (urls_of insecure image)
        (with_digest (short_digest (truthy local_digest))) []
