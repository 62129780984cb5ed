-- ===== src/Registry/Exchanges.antt =====
-- What the exchange of a registry with `do_request` (backend/core/check_actions/check_actions_util.py) says of
-- the outcome.
use tugtainer.Base.{
  ◌≡◌, refl, Bool, true, false, not, ◌&&◌, ◌||◌, Option, none, some, List, [], ◌∷◌, Text, Dict, all,
  elem, or_else, eqb, leb, Bool-cases, inl, inr, if◌then◌else◌,
}
use tugtainer.Docker.{truthy, first_of}
use tugtainer.Registry.Token.{token_url}
use tugtainer.Registry.{
  connection_error, response_error, other_error, Response, Reply, response, broken, Verb, head, get,
  Asked, Log, Outcome, ok, failed, is_refused, asks_bearer, on_resp, finish, head_again,
  get_registry_bearer_token, got_token, with_token, by_basic, by_bearer, answered, do_request,
  head_request, token_request, TokenBody, token_of,
}

abbrev pub is_head : Verb → Bool
is_head head = true
is_head get = false

-- Where no token can be read: of the header of a refusal, or of the answer to the request for one.
abbrev IsUnreadable : (repo : Text) → Verb → Response → Type 0
IsUnreadable repo head resp =
    (is_refused resp.status && asks_bearer resp ≡ true)
    × (token_url (or_else resp.www_authenticate []) repo ≡ none)
IsUnreadable repo get resp = (leb 400 resp.status ≡ false) × (resp.json ≡ none)

-- What the last exchange says of the outcome.
abbrev pub Explained :
    (local_digest : Option Text) → (repo : Text) → Outcome (Option Text) → Log → Type 0
Explained l repo outcome [] = true ≡ false
Explained l repo (ok digest) ((a, broken e) ∷ log) = true ≡ false
Explained l repo (ok digest) ((a, response resp) ∷ log) =
    (is_head a.verb ≡ true)
    × (leb 400 resp.status ≡ false)
    × (digest
        ≡ (if eqb resp.status 304 then l else first_of (truthy resp.content_digest) resp.etag))
Explained l repo (failed e) ((a, broken e') ∷ log) = e ≡ e'
Explained l repo (failed connection_error) ((a, response resp) ∷ log) = true ≡ false
Explained l repo (failed response_error) ((a, response resp) ∷ log) = leb 400 resp.status ≡ true
Explained l repo (failed other_error) ((a, response resp) ∷ log) = IsUnreadable repo a.verb resp

-- A request with the wanted check of certificates, and to one of the wanted addresses where it is for the
-- digest.
abbrev pub is_proper : (ssl : Bool) → (urls : List Text) → Asked × Reply → Bool
is_proper ssl urls (a, reply) =
    (if ssl then a.ssl else not a.ssl) && (not (is_head a.verb) || elem a.url urls)

module _ (network : Log → Asked → Reply) (l : Option Text) (repo : Text) (basic_token : Option Text)
    (ssl : Bool) (urls : List Text) where
  abbrev pub Ended : Outcome (Option Text) × Log → Type 0
  Ended (outcome, log) = Explained l repo outcome log × (all (is_proper ssl urls) log ≡ true)

  finished :
      (a : Asked) (reply : Reply) (log : Log)
      → is_head a.verb ≡ true
      → all (is_proper ssl urls) ((a, reply) ∷ log) ≡ true
      → Ended (finish network l reply, (a, reply) ∷ log)
  finished a (broken e) log h p = (refl, p)
  finished a (response resp) log h p = elim (Bool-cases (leb 400 resp.status)) [
    | inl bad ↦ rw bad (bad, p)
    | inr good ↦ rw good ((h, good, refl), p)
  ]

  same_ssl : (if ssl then ssl else not ssl) ≡ true
  same_ssl = elim (Bool-cases ssl) [ inl h ↦ rw h refl | inr h ↦ rw h refl ]

  module _ (url : Text) (wanted : elem url urls ≡ true) where
    head_proper :
        (headers : Dict Text) (reply : Reply) (log : Log)
        → all (is_proper ssl urls) log ≡ true
        → all
            (is_proper ssl urls)
            ((head_request network l repo basic_token ssl url headers, reply) ∷ log)
          ≡ true
    unfolding all
    head_proper headers reply log p = rw (same_ssl, wanted) p

    again :
        (headers : Dict Text) (log : Log)
        → all (is_proper ssl urls) log ≡ true
        → Ended (head_again network l repo basic_token ssl url headers log)
    unfolding head_again
    again headers log p =
        finished (head_request network l repo basic_token ssl url headers) _ log refl
          (head_proper headers _ log p)

    basic :
        (headers : Dict Text) (resp : Response) (o : Option Text) (log : Log)
        → Ended (on_resp network l resp, log)
        → Ended (by_basic network l repo basic_token ssl url headers resp o log)
    basic headers resp none log e = e
    basic headers resp (some t) log (e, p) = again _ log p

    token_read :
        (headers : Dict Text) (token_address : Text) (resp : Response) (log : Log)
        → all (is_proper ssl urls) log ≡ true
        → leb 400 resp.status ≡ false
        → (o : Option TokenBody) → resp.json ≡ o
        → Ended (
            with_token network l repo basic_token ssl url headers
              (token_of network l repo basic_token ssl o)
              ((token_request network l repo basic_token ssl token_address, response resp) ∷ log))
    unfolding all
    token_read headers token_address resp log p good none h = ((good, h), rw same_ssl p)
    token_read headers token_address resp log p good (some body) h = again _ _ (rw same_ssl p)

    tokened :
        (headers : Dict Text) (token_address : Text) (reply : Reply) (log : Log)
        → all (is_proper ssl urls) log ≡ true
        → Ended (
            with_token network l repo basic_token ssl url headers
              (got_token network l repo basic_token ssl reply)
              ((token_request network l repo basic_token ssl token_address, reply) ∷ log))
    unfolding all
    tokened headers token_address (broken e) log p = (refl, rw same_ssl p)
    tokened headers token_address (response resp) log p = elim (Bool-cases (leb 400 resp.status)) [
      | inl bad ↦ rw bad (bad, rw same_ssl p)
      | inr good ↦ rw good (token_read headers token_address resp log p good resp.json refl)
    ]

    bearer :
        (headers : Dict Text) (resp : Response) (log : Log)
        → all
            (is_proper ssl urls)
            ((head_request network l repo basic_token ssl url headers, response resp) ∷ log)
          ≡ true
        → (is_refused resp.status && asks_bearer resp) ≡ true
        → (address : Option Text) → token_url (or_else resp.www_authenticate []) repo ≡ address
        → Ended (
            by_bearer network l repo basic_token ssl url headers resp
              ((head_request network l repo basic_token ssl url headers, response resp) ∷ log))
    unfolding get_registry_bearer_token
    bearer headers resp log p refused none h = rw h ((refused, h), p)
    bearer headers resp log p refused (some address) h = rw h (
        tokened headers address
          (network ((head_request network l repo basic_token ssl url headers, response resp) ∷ log)
            (token_request network l repo basic_token ssl address))
          ((head_request network l repo basic_token ssl url headers, response resp) ∷ log) p)

    answer :
        (headers : Dict Text) (reply : Reply) (log : Log)
        → all (is_proper ssl urls) log ≡ true
        → Ended (
            answered network l repo basic_token ssl url headers reply
              ((head_request network l repo basic_token ssl url headers, reply) ∷ log))
    answer headers (broken e) log p = (refl, head_proper headers (broken e) log p)
    answer headers (response resp) log p =
        let p' = head_proper headers (response resp) log p in
        let done =
          finished (head_request network l repo basic_token ssl url headers) (response resp) log
            refl p' in
        elim (Bool-cases (is_refused resp.status)) [
          | inr fine ↦ rw fine done
          | inl refused ↦ elim (Bool-cases (asks_bearer resp)) [
            | inl asks ↦
                rw (refused, asks) (bearer headers resp log p' (rw (refused, asks) refl) _ refl)
            | inr other ↦ rw (refused, other) (basic headers resp (truthy basic_token) _ done)
          ]
        ]

    pub requested :
        (headers : Dict Text) (log : Log)
        → all (is_proper ssl urls) log ≡ true
        → Ended (do_request network l repo basic_token ssl url headers log)
    unfolding do_request
    requested headers log p =
        answer headers (network log (head_request network l repo basic_token ssl url headers)) log p
