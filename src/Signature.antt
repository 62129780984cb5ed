-- ===== src/Signature.antt =====
-- shared/util/signature.py: the backend signs its requests, the agent verifies them. Texts stand for their
-- bytes, as `encode` keeps texts apart and keeps their concatenation.
pub mod Verified
use tugtainer.Base.{
  ℕ, ℤ, pos, negsuc, suc, str, upper, decimal, ◌+◌, ◌-◌, ◌≡◌, Bool, true, false, not, Option, none,
  some, List, [], ◌∷◌, ◌++◌, Text, Dict, codes, lookup, put, or_else, ◌==◌, is_empty, ltb, leb,
  if◌then◌else◌,
}
use tugtainer.Docker.{truthy}
use tugtainer.Exec.{Error, invalid, Answer, value, error}

abbrev pub x_timestamp : Text
x_timestamp = codes "x-tugtainer-timestamp"

abbrev pub x_signature : Text
x_signature = codes "x-tugtainer-signature"

-- `abs(current - timestamp)`
abbrev pub age : ℕ → ℤ → ℕ
age current (pos t) = if leb t current then current - t else t - current
age current (negsuc t) = current + suc t

-- What the code calls: the coded HMAC of a text under a key (hmac, hashlib and base64), the objects that a
-- request carries with their truth value and their JSON (custom_json_dumps), and `int`.
pub record Crypto : Type 1 where
  pub Object : Type 0
  pub is_falsy : Object → Bool
  pub dumps : Object → Text
  pub encoded_hmac : (key message : Text) → Text
  pub int_of : Text → Option ℤ

module _ (crypto : Crypto) where
  open crypto use {Object, is_falsy, dumps, encoded_hmac, int_of}

  -- _get_obj_bytes
  unfoldable pub get_obj_bytes : Option Object → Text
  get_obj_bytes none = []
  get_obj_bytes (some obj) = if is_falsy obj then [] else dumps obj

  -- _get_req_signature
  unfoldable pub get_req_signature :
      Text → ℤ → (method path : Text) → (body params : Option Object) → Text
  unfolding get_obj_bytes upper
  get_req_signature secret_key timestamp method path body params =
      if is_empty secret_key
      then []
      else encoded_hmac secret_key (
          upper method ++ (path ++ (get_obj_bytes body ++ (get_obj_bytes params ++ str timestamp))))

  abbrev sign_with :
      Option Text → ℕ → (method path : Text) → (body params : Option Object) → Dict Text → Dict Text
  sign_with none now method path body params headers = headers
  sign_with (some secret_key) now method path body params headers =
      put x_signature (get_req_signature secret_key (pos now) method path body params) headers

  -- `now` is `int(time.time())`.
  unfoldable pub get_signature_headers :
      Option Text → (now : ℕ) → (method path : Text) → (body params : Option Object) → Dict Text
  unfolding get_req_signature
  get_signature_headers secret_key now method path body params =
      sign_with (truthy secret_key) now method path body params ((x_timestamp, decimal now) ∷ [])

  abbrev unauthorized : Answer Bool
  unauthorized = error (invalid (codes "401"))

  -- From the two headers on; `int` may raise.
  abbrev pub compare :
      Text
      → (ttl now : ℕ) → (signature : Text) → (method path : Text) → (body params : Option Object)
      → Option ℤ
      → Answer Bool
  compare secret_key ttl now signature method path body params none = error (invalid (codes "int"))
  compare secret_key ttl now signature method path body params (some timestamp) =
      if ltb ttl (age now timestamp)
      then unauthorized
      else (if get_req_signature secret_key timestamp method path body params == signature
          then value true
          else unauthorized)

  abbrev pub verify_with :
      Option Text
      → (ttl now : ℕ) → (timestamp signature : Option Text) → (method path : Text)
      → (body params : Option Object) → Answer Bool
  verify_with none ttl now timestamp signature method path body params = unauthorized
  verify_with (some secret_key) ttl now none signature method path body params = unauthorized
  verify_with (some secret_key) ttl now (some timestamp) none method path body params = unauthorized
  verify_with (some secret_key) ttl now (some timestamp) (some signature) method path body params =
      compare secret_key ttl now signature method path body params (int_of timestamp)

  unfoldable pub verify_signature_headers :
      Option Text
      → (ttl now : ℕ) → Dict Text
      → (method path : Text) → (body params : Option Object) → Answer Bool
  unfolding get_req_signature
  verify_signature_headers secret_key ttl now headers method path body params =
      verify_with (truthy secret_key) ttl now (truthy (lookup x_timestamp headers))
        (truthy (lookup x_signature headers)) method path body params
