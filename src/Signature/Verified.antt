-- ===== src/Signature/Verified.antt =====
-- Which requests pass shared/util/signature.py.
use Prim.Native.Nat.{◌/◌, ◌%◌}
use tugtainer.Base.{
  ◌++◌, str, ℕ, zero, suc, ◌+◌, ◌≤◌, ◌≡◌, refl, ap, ◌∙◌, true, false, Option, none, some, [], ◌∷◌,
  Text, Dict, lookup, put, ◌==◌, eq_refl, is_empty, ltb, arith,
}
use mathlib.Core.List.{append_assoc, append-nil}
use tugtainer.Docker.{truthy}
use tugtainer.Exec.{value}
use tugtainer.Base.{digits, decimal, pos, ℤ}
use tugtainer.Signature.{
  x_timestamp, x_signature, age, Crypto, get_obj_bytes, get_req_signature, get_signature_headers,
  compare, verify_with, verify_signature_headers,
}

digits-filled : (fuel n : ℕ) (c : ℕ) (acc : Text) → is_empty (digits fuel n (c ∷ acc)) ≡ false
unfolding digits
digits-filled zero n c acc = refl
digits-filled (suc fuel) n c acc =
    ground (arith, digits-filled fuel (n / 10) (48 + n % 10) (c ∷ acc))

decimal-filled : (n : ℕ) → is_empty (decimal n) ≡ false
unfolding decimal
decimal-filled n = ground (arith, digits-filled n (n / 10) (48 + n % 10) [])

module _ (crypto : Crypto) where
  open crypto use {Object, encoded_hmac, int_of}

  accepted :
      (secret : Text) (ttl now later : ℕ) (method path : Text) (body params : Option Object)
      → now ≤ later
      → later ≤ now + ttl
      → compare crypto secret ttl later
          (get_req_signature crypto secret (pos now) method path body params)
          method
          path
          body
          params
          (some (pos now))
        ≡ value true
  accepted secret ttl now later method path body params le ttl_le =
      let young : ltb ttl (age later (pos now)) ≡ false = ground (arith, le, ttl_le) in
      rw (young, eq_refl (get_req_signature crypto secret (pos now) method path body params)) refl

  headers_are :
      (c : ℕ) (cs : Text) (now : ℕ) (method path : Text) (body params : Option Object)
      → get_signature_headers crypto (some (c ∷ cs)) now method path body params
        ≡ (x_timestamp, decimal now)
          ∷ (x_signature, get_req_signature crypto (c ∷ cs) (pos now) method path body params)
          ∷ []
  unfolding get_signature_headers put ◌==◌
  headers_are c cs now method path body params = refl

  both_there :
      (secret : Text) (ttl later : ℕ) (ts sig : Text) (method path : Text)
      (body params : Option Object)
      → is_empty ts ≡ false
      → is_empty sig ≡ false
      → verify_with crypto
          (some secret)
          ttl
          later
          (truthy (some ts))
          (truthy (some sig))
          method
          path
          body
          params
        ≡ compare crypto secret ttl later sig method path body params (int_of ts)
  both_there secret ttl later [] sig method path body params h k = absurd (ground (arith, h))
  both_there secret ttl later (c ∷ ts) [] method path body params h k = absurd (ground (arith, k))
  both_there secret ttl later (c ∷ ts) (d ∷ sig) method path body params h k = refl

  verify_two :
      (c : ℕ) (cs : Text) (ttl later : ℕ) (ts sig : Text) (method path : Text)
      (body params : Option Object)
      → verify_signature_headers crypto
          (some (c ∷ cs))
          ttl
          later
          ((x_timestamp, ts) ∷ (x_signature, sig) ∷ [])
          method
          path
          body
          params
        ≡ verify_with crypto
            (some (c ∷ cs))
            ttl
            later
            (truthy (some ts))
            (truthy (some sig))
            method
            path
            body
            params
  unfolding verify_signature_headers lookup ◌==◌
  verify_two c cs ttl later ts sig method path body params = refl

  -- A request that is signed with a secret is accepted by an agent that has the same secret, for the same
  -- method, path, body and parameters, as long as no more time has passed than the agent allows, where
  -- the coded HMAC is not empty and `int` reads back the decimal digits of the timestamp.
  pub verify_signature_headers-get_signature_headers :
      (secret : Text) (ttl now later : ℕ) (method path : Text) (body params : Option Object)
      → is_empty secret ≡ false
      → is_empty (get_req_signature crypto secret (pos now) method path body params) ≡ false
      → int_of (decimal now) ≡ some (pos now)
      → now ≤ later
      → later ≤ now + ttl
      → verify_signature_headers crypto
          (some secret)
          ttl
          later
          (get_signature_headers crypto (some secret) now method path body params)
          method
          path
          body
          params
        ≡ value true
  verify_signature_headers-get_signature_headers [] ttl now later method path body params s g i le
        ttl_le =
      absurd (ground (arith, s))
  verify_signature_headers-get_signature_headers (c ∷ cs) ttl now later method path body params s g
        i le ttl_le =
      let sig = get_req_signature crypto (c ∷ cs) (pos now) method path body params in
      ap (λ h. verify_signature_headers crypto (some (c ∷ cs)) ttl later h method path body params)
        (headers_are c cs now method path body params)
      ∙ verify_two c cs ttl later (decimal now) sig method path body params
      ∙ both_there (c ∷ cs) ttl later (decimal now) sig method path body params (decimal-filled now)
          g
      ∙ ap (compare crypto (c ∷ cs) ttl later sig method path body params) i
      ∙ accepted (c ∷ cs) ttl now later method path body params le ttl_le

  -- The verification reads the body and the parameters by their bytes, one after the other.
  module _ (b p b' p' : Option Object)
      (same : get_obj_bytes crypto b ++ get_obj_bytes crypto p
        ≡ get_obj_bytes crypto b' ++ get_obj_bytes crypto p') where
    get_req_signature-same :
        (secret : Text) (t : ℤ) (method path : Text)
        → get_req_signature crypto secret t method path b p
          ≡ get_req_signature crypto secret t method path b' p'
    unfolding get_req_signature
    get_req_signature-same secret t method path = rw (
      ← append_assoc (get_obj_bytes crypto b) (get_obj_bytes crypto p) (str t),
      same,
      append_assoc (get_obj_bytes crypto b') (get_obj_bytes crypto p') (str t),
    )

    compare-same :
        (secret : Text) (ttl now : ℕ) (signature method path : Text) (t : Option ℤ)
        → compare crypto secret ttl now signature method path b p t
          ≡ compare crypto secret ttl now signature method path b' p' t
    compare-same secret ttl now signature method path none = refl
    compare-same secret ttl now signature method path (some t) =
        rw (get_req_signature-same secret t method path) refl

    verify_with-same :
        (secret : Option Text) (ttl now : ℕ) (timestamp signature : Option Text)
        (method path : Text)
        → verify_with crypto secret ttl now timestamp signature method path b p
          ≡ verify_with crypto secret ttl now timestamp signature method path b' p'
    verify_with-same none ttl now timestamp signature method path = refl
    verify_with-same (some secret) ttl now none signature method path = refl
    verify_with-same (some secret) ttl now (some timestamp) none method path = refl
    verify_with-same (some secret) ttl now (some timestamp) (some signature) method path =
        compare-same secret ttl now signature method path (int_of timestamp)

    pub verify_signature_headers-same :
        (secret : Option Text) (ttl now : ℕ) (headers : Dict Text) (method path : Text)
        → verify_signature_headers crypto secret ttl now headers method path b p
          ≡ verify_signature_headers crypto secret ttl now headers method path b' p'
    unfolding verify_signature_headers
    verify_signature_headers-same secret ttl now headers method path =
        verify_with-same (truthy secret) ttl now (truthy (lookup x_timestamp headers))
          (truthy (lookup x_signature headers)) method path

  -- The signature does not tell the body from the parameters: a request whose parameters are taken as its
  -- body is accepted alike.
  pub verify_signature_headers_moved :
      (secret : Option Text) (ttl now : ℕ) (headers : Dict Text) (method path : Text) (o : Object)
      → verify_signature_headers crypto secret ttl now headers method path (some o) none
        ≡ verify_signature_headers crypto secret ttl now headers method path none (some o)
  unfolding get_obj_bytes
  verify_signature_headers_moved secret ttl now headers method path o =
      verify_signature_headers-same (some o) none none (some o)
        (append-nil (get_obj_bytes crypto (some o))) secret ttl now headers method path
