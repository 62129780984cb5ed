-- ===== src/Auth/Entered/Lasting.antt =====
-- That the tokens of a session of backend/modules/auth serve: by them one is authorized, and gets new ones,
-- until they expire.
use tugtainer.Base.{
  ℕ, ◌⊎◌, ◌+◌, ◌*◌, ◌≡◌, refl, sym, arith, Bool, true, false, Option, none, some, Text, eq_refl,
  ltb, inl, inr, ◌==◌, or_else, codes,
}
use tugtainer.Docker.{truthy}
use tugtainer.Auth.Tokens.{
  Claims, TokenPayload, Jwt, AuthConfig, Cookies, Response, session, redirected, cookies_deleted,
  done, raised, not_implemented, new_session, payload_of, access, refresh, is_authorized_by,
  refreshed, with_token, is_text,
}
use tugtainer.Auth.Password.{Bcrypt, password, refresh_password}
use tugtainer.Auth.Oidc.{Provider, oidc, refresh_oidc}
use tugtainer.Auth.{
  Event, refresh_tokens, AuthProvider, by_password, by_oidc, active_auth_provider, answer,
  auth_provider_by_name, is_authorized, authorized_with, unless_disabled, refreshed_with,
}
use tugtainer.Auth.Entered.{name_of, is_enabled}
use tugtainer.Auth.Entered.Rules.{is_plain, answer_rule}

module _ (jwt : Jwt) (config : AuthConfig) (bcrypt : Bcrypt) (provider : Provider) where
  abbrev IsIssued : (now : ℕ) → Response → Type 0
  IsIssued now (session a r) =
      (by : AuthProvider) × (user_id : Option Text) × (user : Option Claims) × (is_enabled jwt
          config bcrypt provider by
        ≡ true)
      × (new_session jwt config now (name_of by) user_id user ≡ session a r)
  IsIssued now other = Unit {0}

  plain-IsIssued : (now : ℕ) (r : Response) → is_plain r ≡ true → IsIssued now r
  plain-IsIssued now (session a r) h = absurd (ground (arith, h))
  plain-IsIssued now (redirected url state) h = tt
  plain-IsIssued now cookies_deleted h = tt
  plain-IsIssued now (done status) h = tt
  plain-IsIssued now (raised status) h = tt
  plain-IsIssued now not_implemented h = tt

  answer-IsIssued :
      (now : ℕ) (cookies : Cookies) (file : Option Text) (event : Event)
      → IsIssued now (answer jwt config bcrypt provider now cookies file event).0
  answer-IsIssued now cookies file event =
      answer_rule (IsIssued now) (plain-IsIssued now) jwt config bcrypt provider now cookies file
        event λ by user_id user enabled how. (by, user_id, user, enabled, refl)

  named_name : (by : AuthProvider) → auth_provider_by_name (name_of by) ≡ some by
  unfolding auth_provider_by_name ◌==◌
  named_name by_password = refl
  named_name by_oidc = refl

  fits : (s t : Text) → s ≡ t → is_text jwt config (some s) t ≡ true
  fits s t h = rw h (eq_refl t)

  unless_done :
      (b : Bool) (r : Response)
      → r ≡ done 200
      → unless_disabled jwt config bcrypt provider b r ≡ done 200
  unless_done true r h = refl
  unless_done false r h = h

  -- A token of a type and a provider passes the tests of that provider.
  with_token_lem :
      (later : ℕ) (shown : Option Text) (token type name : Text) (p : TokenPayload)
      (f : TokenPayload → Response)
      → shown ≡ some token
      → jwt.decode later token ≡ some p
      → p.type ≡ some type
      → p.auth_provider ≡ some name
      → with_token jwt config later shown type name f ≡ f p
  with_token_lem later shown token type name p f h k typed named =
      rw (h, k, typed, named, eq_refl type, eq_refl name) refl

  session_inj : {a b c d : Text} → session a b ≡ session c d → (a ≡ c) × (b ≡ d)
  session_inj h = (cc, cc)

  starts :
      (now : ℕ) (name : Text) (user_id : Option Text) (user : Option Claims) (response : Response)
      → response ≡ new_session jwt config now name user_id user
      → (a r : Text) × (response ≡ session a r)
  starts now name user_id user response h = (_, _, h)

  module _ (later : ℕ) (shown : Cookies) (p : TokenPayload) (token : Text)
      (k : jwt.decode later token ≡ some p) where
    active_by :
        (by : AuthProvider)
        → truthy shown.access_token ≡ some token
        → p.auth_provider ≡ some (name_of by)
        → active_auth_provider jwt config bcrypt provider later shown ≡ some by
    unfolding active_auth_provider auth_provider_by_name
    active_by by h named = rw (h, k, named) (named_name by)

    authorized_by :
        (by : AuthProvider)
        → is_enabled jwt config bcrypt provider by ≡ true
        → truthy shown.access_token ≡ some token
        → p.auth_provider ≡ some (name_of by)
        → p.type ≡ some access
        → authorized_with jwt config bcrypt provider later shown (some by) ≡ done 200
    unfolding is_authorized_by
    authorized_by by_password enabled h named typed =
        rw enabled (with_token_lem later _ token access password p _ h k typed named)
    authorized_by by_oidc enabled h named typed =
        rw enabled (with_token_lem later _ token access oidc p _ h k typed named)

    renewed_by :
        (by : AuthProvider)
        → is_enabled jwt config bcrypt provider by ≡ true
        → truthy shown.refresh_token ≡ some token
        → p.auth_provider ≡ some (name_of by)
        → p.type ≡ some refresh
        → (a r : Text) × (refreshed_with jwt config bcrypt provider later shown (some by)
            ≡ session a r)
    unfolding refresh_password refresh_oidc refreshed
    renewed_by by_password enabled h named typed =
        starts later password none none _
          (rw enabled (with_token_lem later _ token refresh password p _ h k typed named))
    renewed_by by_oidc enabled h named typed =
        starts later oidc (some (or_else p.user_id (codes "unknown_user"))) p.user_info _
          (rw enabled (with_token_lem later _ token refresh oidc p _ h k typed named))

  module _ (now later : ℕ) (shown : Cookies) (first second : Text)
      (decodes : (p : TokenPayload)
        → (jwt.encode p ≡ first) ⊎ (jwt.encode p ≡ second)
        → ltb later p.exp ≡ true
        → jwt.decode later (jwt.encode p) ≡ some p)
      (shows_first : truthy shown.access_token ≡ some first)
      (shows_second : truthy shown.refresh_token ≡ some second)
      (early : ltb later (now + config.access_token_lifetime_min * 60) ≡ true)
      (in_time : ltb later (now + config.refresh_token_lifetime_min * 60) ≡ true) where
    module _ (by : AuthProvider) (user_id : Option Text) (user : Option Claims)
        (enabled : is_enabled jwt config bcrypt provider by ≡ true)
        (same : new_session jwt config now (name_of by) user_id user ≡ session first second) where
      abbrev payload_at : (lifetime_min : ℕ) → (type : Text) → TokenPayload
      payload_at lifetime_min type = record (payload_of jwt config type (name_of by) user_id user) {
        exp = now + lifetime_min * 60;
      }

      decodes_first :
          jwt.decode later first ≡ some (payload_at config.access_token_lifetime_min access)
      decodes_first = rw (sym (session_inj same).0) (
          decodes (payload_at config.access_token_lifetime_min access) (inl (session_inj same).0)
            early)

      decodes_second :
          jwt.decode later second ≡ some (payload_at config.refresh_token_lifetime_min refresh)
      decodes_second = rw (sym (session_inj same).1) (
          decodes (payload_at config.refresh_token_lifetime_min refresh) (inr (session_inj same).1)
            in_time)

      active_issued : active_auth_provider jwt config bcrypt provider later shown ≡ some by
      active_issued =
          active_by later shown (payload_at config.access_token_lifetime_min access) first
            decodes_first by shows_first refl

      authorized_issued : is_authorized jwt config bcrypt provider later shown ≡ done 200
      unfolding is_authorized
      authorized_issued = unless_done config.disable_auth _ (
          rw active_issued (
            authorized_by later shown (payload_at config.access_token_lifetime_min access) first
              decodes_first by enabled shows_first refl refl))

      renewed_issued :
          (file : Option Text)
          → (a r : Text) × ((answer jwt config bcrypt provider later shown file refresh_tokens).0
              ≡ session a r)
      unfolding answer
      renewed_issued file = rw active_issued (
          renewed_by later shown (payload_at config.refresh_token_lifetime_min refresh) second
            decodes_second by enabled shows_second refl refl)

    -- The tokens that any answer sets as cookies serve until they expire: at a later moment before the end of
    -- both, whoever presents them is authorized, and a refresh answers with a new session, whatever the file
    -- of the password is by then. The premise is that a payload of which one of the two is the token
    -- is what this token decodes to until the payload expires; the configuration stays.
    pub session_lasts :
        (cookies : Cookies) (file file' : Option Text) (event : Event)
        → (answer jwt config bcrypt provider now cookies file event).0 ≡ session first second
        → (is_authorized jwt config bcrypt provider later shown ≡ done 200)
          × (a r : Text) × ((answer jwt config bcrypt provider later shown file' refresh_tokens).0
              ≡ session a r)
    session_lasts cookies file file' event e =
        let (by, user_id, user, enabled, same) = rw e at (answer-IsIssued now cookies file event) in
        let (a, r, renewed) = renewed_issued by user_id user enabled same file' in
        (authorized_issued by user_id user enabled same, a, r, renewed)
