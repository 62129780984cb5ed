-- ===== src/Auth/Entered/Authorized.antt =====
-- Who is authorized by backend/modules/auth/auth_util.py, after any sequence of requests.
use tugtainer.Base.{
  ℕ, ◌≡◌, refl, ap, ◌∙◌, arith, Bool, true, false, Option, none, some, List, ◌∷◌, Text, Bool-cases,
  inl, inr, elem, eq_iff, ◌==◌,
}
use tugtainer.Docker.{truthy}
use tugtainer.Auth.Tokens.{
  TokenPayload, Jwt, AuthConfig, Cookies, access, Response, session, redirected, cookies_deleted,
  done, raised, not_implemented, guarded, with_token, verified, is_authorized_by,
}
use tugtainer.Auth.Password.{Bcrypt, password, is_password_enabled}
use tugtainer.Auth.Oidc.{Provider, oidc, is_oidc_enabled}
use tugtainer.Auth.{
  Past, World, AuthProvider, by_password, by_oidc, authorized_with, unless_disabled,
  active_auth_provider, with_issued, answer, after_event, is_authorized,
}
use tugtainer.Auth.Entered.{
  Presented, Reach, start, next, IsBacked, AllBacked, IsSound, HasEntered, past_of,
}
use tugtainer.Auth.Entered.Sessions.{answer-IsSound}

module _ (jwt : Jwt) (config : AuthConfig) (bcrypt : Bcrypt) (provider : Provider) where
  module _
      (reads_back : (now : ℕ) (p q : TokenPayload)
        → jwt.decode now (jwt.encode p) ≡ some q
        → q ≡ p) where
    issued-IsBacked :
        (history : List Past) (past : Past) (issued : List Text) (r : Response)
        → IsSound jwt config bcrypt provider (past ∷ history) r
        → ((token : Text)
            → elem token issued ≡ true
            → IsBacked jwt config bcrypt provider history token)
        → (token : Text) → elem token (with_issued jwt config bcrypt provider r issued) ≡ true
        → IsBacked jwt config bcrypt provider (past ∷ history) token
    unfolding elem
    issued-IsBacked history past issued (session first second) s b token h =
        elim (Bool-cases (first == token)) [
          | inl same ↦ λ now p k. s.0 now p (ap (jwt.decode now) ((eq_iff first token).0 same) ∙ k)
          | inr other ↦ elim (Bool-cases (second == token)) [
            | inl same ↦
                λ now p k. s.1 now p (ap (jwt.decode now) ((eq_iff second token).0 same) ∙ k)
            | inr older ↦ λ now p k. inr (b token (ground (arith, h, other, older)) now p k)
          ]
        ]
    issued-IsBacked history past issued (redirected url state) s b token h =
        λ now p k. inr (b token h now p k)
    issued-IsBacked history past issued cookies_deleted s b token h =
        λ now p k. inr (b token h now p k)
    issued-IsBacked history past issued (done status) s b token h =
        λ now p k. inr (b token h now p k)
    issued-IsBacked history past issued (raised status) s b token h =
        λ now p k. inr (b token h now p k)
    issued-IsBacked history past issued not_implemented s b token h =
        λ now p k. inr (b token h now p k)

    Reach-AllBacked :
        {w : World} → Reach jwt config bcrypt provider w → AllBacked jwt config bcrypt provider w
    unfolding after_event elem
    Reach-AllBacked (start file) token h = absurd (ground (arith, h))
    Reach-AllBacked (next {w} r now cookies event presented) token h =
        issued-IsBacked w.history (past_of now cookies w.password_file event) w.issued
          (answer jwt config bcrypt provider now cookies w.password_file event).0
          (answer-IsSound jwt config bcrypt provider reads_back w (Reach-AllBacked r) now cookies
            presented event)
          (Reach-AllBacked r) token h

    guarded_done :
        (b : Bool) (status : ℕ) (r : Response)
        → guarded b status r ≡ done 200
        → (b ≡ true) × (r ≡ done 200)
    guarded_done true status r h = (refl, h)
    guarded_done false status r h = absurd (ground (arith, h))

    module _ (w : World) (reached : Reach jwt config bcrypt provider w) (now : ℕ)
        (cookies : Cookies)
        (presented : Presented jwt config bcrypt provider w.issued cookies) where
      payload_entered :
          (name token : Text) (o : Option TokenPayload)
          → truthy cookies.access_token ≡ some token
          → jwt.decode now token ≡ o
          → verified jwt config o access name (λ p. done 200) ≡ done 200
          → HasEntered jwt config bcrypt provider w cookies now
      payload_entered name token none h k e = absurd (ground (arith, e))
      payload_entered name token (some p) h k e =
          (token, p, h, k, Reach-AllBacked reached token (presented token (inl h) now p k) now p k)

      token_entered :
          (name : Text) (o : Option Text)
          → truthy cookies.access_token ≡ o
          → with_token jwt config now o access name (λ p. done 200) ≡ done 200
          → HasEntered jwt config bcrypt provider w cookies now
      token_entered name none h e = absurd (ground (arith, e))
      token_entered name (some token) h e =
          payload_entered name token (jwt.decode now token) h refl e

      entered_by :
          (name : Text)
          → is_authorized_by jwt config now name cookies ≡ done 200
          → HasEntered jwt config bcrypt provider w cookies now
      unfolding is_authorized_by
      entered_by name e = token_entered name (truthy cookies.access_token) refl e

      provider_entered :
          (o : Option AuthProvider)
          → authorized_with jwt config bcrypt provider now cookies o ≡ done 200
          → HasEntered jwt config bcrypt provider w cookies now
      provider_entered none e = absurd (ground (arith, e))
      provider_entered (some by_password) e =
          entered_by password (guarded_done (is_password_enabled jwt config bcrypt) 403 _ e).1
      provider_entered (some by_oidc) e =
          entered_by oidc (guarded_done (is_oidc_enabled jwt config provider) 403 _ e).1

      unless_disabled_lem :
          (disabled : Bool) (r : Response)
          → disabled ≡ false
          → unless_disabled jwt config bcrypt provider disabled r ≡ done 200
          → r ≡ done 200
      unless_disabled_lem true r h e = absurd (ground (arith, h))
      unless_disabled_lem false r h e = e

      -- Whoever is authorized has entered: after any sequence of requests, to be let through takes an access
      -- token whose provider is that of an earlier login or callback, a login with a password that the hash
      -- of that moment accepts, or a callback of a client with its own state for a user whom the provider
      -- vouched for, the lists allow, and the token still names. The premises are that authentication is not
      -- disabled, that a client presents no token that was not set as a cookie before but decodes, and that
      -- what is encoded decodes to the same payload or not at all.
      pub is_authorized-HasEntered :
          config.disable_auth ≡ false
          → is_authorized jwt config bcrypt provider now cookies ≡ done 200
          → HasEntered jwt config bcrypt provider w cookies now
      unfolding is_authorized
      is_authorized-HasEntered enabled e =
          provider_entered (active_auth_provider jwt config bcrypt provider now cookies)
            (unless_disabled_lem config.disable_auth _ enabled e)
