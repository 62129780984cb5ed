-- ===== src/Auth/Entered/Rules.antt =====
-- The rule for what holds of each answer of backend/modules/auth/auth_router.py: it holds of the answers that
-- set no tokens, and of each session that the providers start or renew.
use tugtainer.Base.{
  ℕ, ◌≡◌, refl, ap, ◌∙◌, arith, Bool, true, false, ◌&&◌, Option, none, some, [], Text, Bool-cases,
  ◌⊎◌, inl, inr, or_else, eq_iff,
}
use tugtainer.Docker.{truthy}
use tugtainer.Auth.Tokens.{
  Claims, TokenPayload, Jwt, AuthConfig, Cookies, refresh, access, Response, session, done, raised,
  redirected, cookies_deleted, not_implemented, guarded, new_session, with_token, verified, is_text,
  is_authorized_by, refreshed,
}
use tugtainer.Auth.Password.{
  Bcrypt, password, is_password_enabled, checked, against, if_set, is_done, login, refresh_password,
  set_password, password_validator,
}
use tugtainer.Auth.Oidc.{
  Provider, oidc, claims_of, is_identity_allowed, created, is_one, is_oidc_enabled, to_endpoint,
  is_complete, endpoint_at, has_code, callback, login_oidc, refresh_oidc,
}
use tugtainer.Auth.{
  Event, login_with, provider_callback, refresh_tokens, log_out, change_password, ask_authorized,
  AuthProvider, by_password, by_oidc, logged_in, called_back, refreshed_with, authorized_with,
  logged_out, unless_disabled, if_valid, auth_provider_by_name, active_auth_provider, answer,
  is_authorized,
}
use tugtainer.Auth.Entered.{IsEntry, past_of, name_of, is_enabled, IsRenewal}

-- An answer that sets no tokens.
abbrev pub is_plain : Response → Bool
is_plain (session access_token refresh_token) = false
is_plain other = true

module _ (P : Response → Type 0) (jwt : Jwt) (config : AuthConfig) (bcrypt : Bcrypt)
    (provider : Provider) where
  -- The sessions that a request may start.
  abbrev pub Sessions : (now : ℕ) → Cookies → (file : Option Text) → Event → Type 0
  Sessions now cookies file event =
      (by : AuthProvider) (user_id : Option Text) (user : Option Claims)
      → is_enabled jwt config bcrypt provider by ≡ true
      → IsEntry jwt config bcrypt provider (some (name_of by)) user (past_of now cookies file event)
          event
        ⊎ IsRenewal jwt config bcrypt provider now cookies by user
      → P (new_session jwt config now (name_of by) user_id user)

module _ (P : Response → Type 0) (plain : (r : Response) → is_plain r ≡ true → P r) where
  guarded_rule : (b : Bool) (status : ℕ) (r : Response) → (b ≡ true → P r) → P (guarded b status r)
  guarded_rule true status r f = f refl
  guarded_rule false status r f = plain (raised status) refl

  module _ (jwt : Jwt) (config : AuthConfig) (now : ℕ) (type name : Text)
      (next : TokenPayload → Response) where
    is_text_lem : (o : Option Text) (t : Text) → is_text jwt config o t ≡ true → o ≡ some t
    is_text_lem none t h = cc
    is_text_lem (some s) t h = ap some ((eq_iff s t).0 h)

    verified_rule :
        (o : Option TokenPayload)
        → ((p : TokenPayload) → o ≡ some p → p.auth_provider ≡ some name → P (next p))
        → P (verified jwt config o type name next)
    verified_rule none f = plain (raised 401) refl
    verified_rule (some p) f =
        guarded_rule (is_text jwt config p.type type && is_text jwt config p.auth_provider name) 401
          (next p) λ fits. f p refl (is_text_lem p.auth_provider name (ground (arith, fits)))

    with_token_rule :
        (o : Option Text)
        → ((token : Text) (p : TokenPayload)
            → o ≡ some token
            → jwt.decode now token ≡ some p
            → p.auth_provider ≡ some name
            → P (next p))
        → P (with_token jwt config now o type name next)
    with_token_rule none f = plain (raised 401) refl
    with_token_rule (some token) f =
        verified_rule (jwt.decode now token) λ p k named. f token p refl k named

  module _ (jwt : Jwt) (config : AuthConfig) (bcrypt : Bcrypt) (provider : Provider) where
    module _ (now : ℕ) (cookies : Cookies) where
      authorized_by_rule : (name : Text) → P (is_authorized_by jwt config now name cookies)
      unfolding is_authorized_by
      authorized_by_rule name =
          with_token_rule jwt config now access name (λ p. done 200) (truthy cookies.access_token)
            λ token p h k named. plain (done 200) refl

      authorized_with_rule :
          (o : Option AuthProvider) → P (authorized_with jwt config bcrypt provider now cookies o)
      authorized_with_rule none = plain (raised 401) refl
      authorized_with_rule (some by_password) =
          guarded_rule _ 403 _ λ enabled. authorized_by_rule password
      authorized_with_rule (some by_oidc) = guarded_rule _ 403 _ λ enabled. authorized_by_rule oidc

      unless_disabled_rule :
          (disabled : Bool) (r : Response)
          → P r
          → P (unless_disabled jwt config bcrypt provider disabled r)
      unless_disabled_rule true r s = plain (done 200) refl
      unless_disabled_rule false r s = s

      is_authorized_rule : P (is_authorized jwt config bcrypt provider now cookies)
      unfolding is_authorized
      is_authorized_rule =
          unless_disabled_rule config.disable_auth _
            (authorized_with_rule (active_auth_provider jwt config bcrypt provider now cookies))

      if_set_rule :
          (text : Text) (o file : Option Text)
          → P (if_set jwt config bcrypt now cookies text o file).0
      if_set_rule text none file = plain (done 201) refl
      if_set_rule text (some hash) file =
          elim (Bool-cases
            (is_done jwt config bcrypt (is_authorized_by jwt config now password cookies))) [
              | inl yes' ↦ rw yes' (plain (done 201) refl)
              | inr no' ↦ rw no' (authorized_by_rule password)
            ]

      if_valid_rule :
          (valid : Bool) (changed : Response × Option Text) (file : Option Text)
          → P changed.0
          → P (if_valid jwt config bcrypt provider valid changed file).0
      if_valid_rule true changed file s = s
      if_valid_rule false changed file s = plain (raised 422) refl

      logged_out_rule : (o : Option AuthProvider) → P (logged_out jwt config bcrypt provider o)
      logged_out_rule none = plain (done 200) refl
      logged_out_rule (some other) = plain cookies_deleted refl

      to_endpoint_rule :
          (state : Text) (endpoint : Option Text)
          → P (to_endpoint jwt config provider state endpoint)
      to_endpoint_rule state none = plain (raised 400) refl
      to_endpoint_rule state (some endpoint) = plain (redirected _ state) refl

    module _ (now : ℕ) (cookies : Cookies) (file : Option Text) where
      checked_rule :
          (name : Text) (body : Option Text) (hash : Text)
          → Sessions P jwt config bcrypt provider now cookies file (login_with name body)
          → is_password_enabled jwt config bcrypt ≡ true
          → auth_provider_by_name name ≡ some by_password
          → truthy file ≡ some hash
          → (right : Option Bool) → bcrypt.checkpw (or_else body []) hash ≡ right
          → P (checked jwt config bcrypt now right)
      checked_rule name body hash f enabled n h none k = plain (raised 500) refl
      checked_rule name body hash f enabled n h (some right) k =
          guarded_rule right 401 _ λ is_right.
            f by_password none none enabled (inl (refl, n, hash, h, k ∙ ap some is_right))

      against_rule :
          (name : Text) (body : Option Text)
          → Sessions P jwt config bcrypt provider now cookies file (login_with name body)
          → is_password_enabled jwt config bcrypt ≡ true
          → auth_provider_by_name name ≡ some by_password
          → (hash : Option Text) → truthy file ≡ hash
          → P (against jwt config bcrypt now (or_else body []) hash)
      against_rule name body f enabled n none h = plain (raised 401) refl
      against_rule name body f enabled n (some hash) h =
          checked_rule name body hash f enabled n h (bcrypt.checkpw (or_else body []) hash) refl

      logged_in_rule :
          (name : Text) (body : Option Text)
          → Sessions P jwt config bcrypt provider now cookies file (login_with name body)
          → (o : Option AuthProvider) → auth_provider_by_name name ≡ o
          → P (logged_in jwt config bcrypt provider now file body o)
      unfolding login login_oidc
      logged_in_rule name body f none n = plain (raised 422) refl
      logged_in_rule name body f (some by_password) n =
          guarded_rule (is_password_enabled jwt config bcrypt) 403 _
            λ enabled. against_rule name body f enabled n (truthy file) refl
      logged_in_rule name body f (some by_oidc) n =
          guarded_rule (is_oidc_enabled jwt config provider) 403 _ λ enabled.
            guarded_rule (is_complete jwt config provider) 400 _ λ complete.
              to_endpoint_rule now cookies (provider.token_urlsafe now)
                (endpoint_at jwt config provider now)

      is_one_lem : (o : Option Text) (t : Text) → is_one o t ≡ true → o ≡ some t
      is_one_lem none t h = cc
      is_one_lem (some s) t h = ap some ((eq_iff s t).0 h)

      module _ (name code state error : Text)
          (f : Sessions P jwt config bcrypt provider now cookies file
            (provider_callback name code state error)) where
        created_rule :
            is_oidc_enabled jwt config provider ≡ true
            → auth_provider_by_name name ≡ some by_oidc
            → truthy cookies.oidc_state ≡ some state
            → (claims : Option Claims) → claims_of jwt config provider now code ≡ claims
            → P (created jwt config provider now claims)
        created_rule enabled n h none k = plain (raised 400) refl
        created_rule enabled n h (some claims) k =
            guarded_rule (is_identity_allowed jwt config provider claims) 400 _ λ allowed.
              f by_oidc _ (some claims) enabled (inl (refl, n, h, claims, k, allowed, refl))

        called_back_rule :
            (o : Option AuthProvider)
            → auth_provider_by_name name ≡ o
            → P (called_back jwt config bcrypt provider now cookies code state error o)
        unfolding callback
        called_back_rule none n = plain (raised 422) refl
        called_back_rule (some by_password) n = plain not_implemented refl
        called_back_rule (some by_oidc) n =
            guarded_rule (is_oidc_enabled jwt config provider) 403 _ λ enabled.
              guarded_rule (has_code jwt config provider code state error) 400 _ λ full.
                guarded_rule (is_one (truthy cookies.oidc_state) state) 400 _ λ same.
                  created_rule enabled n (is_one_lem (truthy cookies.oidc_state) state same)
                    (claims_of jwt config provider now code) refl

      refreshed_with_rule :
          Sessions P jwt config bcrypt provider now cookies file refresh_tokens
          → (o : Option AuthProvider) → P (refreshed_with jwt config bcrypt provider now cookies o)
      unfolding refresh_password refresh_oidc refreshed
      refreshed_with_rule f none = plain (raised 401) refl
      refreshed_with_rule f (some by_password) =
          guarded_rule (is_password_enabled jwt config bcrypt) 403 _ λ enabled.
            with_token_rule jwt config now refresh password _ (truthy cookies.refresh_token)
              λ token p h k named.
                f by_password none none enabled (inr (token, p, h, k, named, refl))
      refreshed_with_rule f (some by_oidc) =
          guarded_rule (is_oidc_enabled jwt config provider) 403 _ λ enabled.
            with_token_rule jwt config now refresh oidc _ (truthy cookies.refresh_token)
              λ token p h k named.
                f by_oidc _ p.user_info enabled (inr (token, p, h, k, named, refl))

      pub answer_rule :
          (event : Event)
          → Sessions P jwt config bcrypt provider now cookies file event
          → P (answer jwt config bcrypt provider now cookies file event).0
      unfolding answer set_password
      answer_rule (login_with name body) f =
          logged_in_rule name body f (auth_provider_by_name name) refl
      answer_rule (provider_callback name code state error) f =
          called_back_rule name code state error f (auth_provider_by_name name) refl
      answer_rule refresh_tokens f =
          refreshed_with_rule f (active_auth_provider jwt config bcrypt provider now cookies)
      answer_rule log_out f =
          logged_out_rule now cookies (active_auth_provider jwt config bcrypt provider now cookies)
      answer_rule (change_password text confirm) f =
          if_valid_rule now cookies (password_validator text && password_validator confirm) _ file
            (if_set_rule now cookies text (truthy file) file)
      answer_rule ask_authorized f = is_authorized_rule now cookies
