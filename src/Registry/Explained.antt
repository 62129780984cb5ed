-- ===== src/Registry/Explained.antt =====
-- How a request for a digest ends (`get_image_remote_digest` of
-- backend/core/check_actions/check_actions_util.py).
use tugtainer.Base.{
  ◌≡◌, refl, arith, Bool, true, false, not, Option, none, some, List, [], ◌∷◌, Text, Dict, codes,
  all, elem, eq_refl,
}
use tugtainer.Registry.Spec.{ImageSpec, AuthEntry, parse_image_spec, is_insecure, get_basic_token}
use tugtainer.Registry.{
  RegistryError, connection_error, response_error, other_error, Reply, Asked, Log, Outcome, ok,
  failed, after, try_urls, urls_of, url_of, short_digest, get_image_remote_digest,
}
use tugtainer.Registry.Exchanges.{Explained, is_proper, Ended, requested}

module _ (network : Log → Asked → Reply) (l : Option Text) (repo : Text) (basic_token : Option Text)
    (ssl : Bool) (urls : List Text) where
  followed :
      (outcome : Outcome (Option Text)) (log : Log) (next : Log → Outcome (Option Text) × Log)
      → Ended network l repo basic_token ssl urls (outcome, log)
      → (Ended network l repo basic_token ssl urls (failed connection_error, log)
          → Ended network l repo basic_token ssl urls (next log))
      → Ended network l repo basic_token ssl urls
          (after network l repo basic_token ssl outcome log next)
  followed (ok digest) log next e f = e
  followed (failed connection_error) log next e f = f e
  followed (failed response_error) log next e f = e
  followed (failed other_error) log next e f = e

  -- What holds before a round of the loop: without a further address, the last error is explained.
  abbrev Before : Option RegistryError → List Text → Log → Type 0
  Before none [] log = true ≡ false
  Before (some e) [] log = Explained l repo (failed e) log
  Before last_error (url ∷ rest) log = Unit {0}

  next-Before :
      (rest : List Text) (log : Log)
      → Explained l repo (failed connection_error) log
      → Before (some connection_error) rest log
  next-Before [] log e = e
  next-Before (url ∷ rest) log e = tt

  first-Before : (insecure : Bool) (image : ImageSpec) → Before none (urls_of insecure image) []
  first-Before true image = tt
  first-Before false image = tt

  tried :
      (last_error : Option RegistryError) (rest : List Text) (headers : Dict Text) (log : Log)
      → all (λ url. elem url urls) rest ≡ true
      → all (is_proper ssl urls) log ≡ true
      → Before last_error rest log
      → Ended network l repo basic_token ssl urls
          (try_urls network l repo basic_token ssl last_error rest headers log)
  unfolding try_urls
  tried none [] headers log w p b = absurd (ground (arith, b))
  tried (some e) [] headers log w p b = (b, p)
  tried last_error (url ∷ rest) headers log w p b =
      let wanted : elem url urls ≡ true = unfold all in ground (arith, w) in
      let further : all (λ url. elem url urls) rest ≡ true = unfold all in ground (arith, w) in
      followed _ _ (try_urls network l repo basic_token ssl (some connection_error) rest headers)
        (requested network l repo basic_token ssl urls url wanted headers log p)
        (λ (e, p'). tried (some connection_error) rest headers _ further p' (next-Before rest _ e))

wanted_all :
    (insecure : Bool) (image : ImageSpec)
    → all (λ url. elem url (urls_of insecure image)) (urls_of insecure image) ≡ true
unfolding all elem
wanted_all true image =
    ground (arith, eq_refl (url_of (codes "https") image), eq_refl (url_of (codes "http") image))
wanted_all false image = ground (arith, eq_refl (url_of (codes "https") image))

module _ (network : Log → Asked → Reply) (insecure_registries : Option Text)
    (auths : Dict AuthEntry) where
  -- What comes of a request is what the last exchange with the registry says: a digest is that of an answer
  -- below 400, or the local one if that is 304, and an exception is that of the request, of a status from
  -- 400 on, or of a header or an answer from which no token can be read. Each request is made with the check
  -- of certificates, and each for the digest by https, unless the registry counts as insecure: then none
  -- checks certificates, and http is allowed.
  pub get_image_remote_digest-Explained :
      (spec : Text) (local_digest : Option Text)
      → Explained
          (short_digest local_digest)
          (parse_image_spec spec).repo
          (get_image_remote_digest network insecure_registries auths spec local_digest).0
          (get_image_remote_digest network insecure_registries auths spec local_digest).1
        × (all
              (is_proper (not (is_insecure insecure_registries (parse_image_spec spec).registry)) (
                urls_of
                  (is_insecure insecure_registries (parse_image_spec spec).registry)
                  (parse_image_spec spec)))
              (get_image_remote_digest network insecure_registries auths spec local_digest).1
            ≡ true)
  unfolding get_image_remote_digest
  get_image_remote_digest-Explained spec local_digest =
      tried network (short_digest local_digest) (parse_image_spec spec).repo
        (get_basic_token auths (parse_image_spec spec).registry)
        (not (is_insecure insecure_registries (parse_image_spec spec).registry))
        (urls_of (is_insecure insecure_registries (parse_image_spec spec).registry)
          (parse_image_spec spec))
        none _ _ []
        (wanted_all (is_insecure insecure_registries (parse_image_spec spec).registry)
          (parse_image_spec spec))
        (unfold all in refl)
        (first-Before network (short_digest local_digest) (parse_image_spec spec).repo
          (get_basic_token auths (parse_image_spec spec).registry)
          (not (is_insecure insecure_registries (parse_image_spec spec).registry)) []
          (is_insecure insecure_registries (parse_image_spec spec).registry)
          (parse_image_spec spec))
