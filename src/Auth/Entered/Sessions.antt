-- ===== src/Auth/Entered/Sessions.antt =====
-- That the tokens which a provider (backend/modules/auth/providers) gives out are those of someone who
-- entered.
use tugtainer.Base.{
  ℕ, ◌≡◌, refl, sym, arith, true, Option, none, some, List, [], ◌∷◌, Text, inl, inr,
}
use tugtainer.Auth.Tokens.{
  Claims, session, redirected, cookies_deleted, done, raised, not_implemented, TokenPayload, Jwt,
  AuthConfig, Cookies, Response, new_session,
}
use tugtainer.Auth.Password.{Bcrypt, password}
use tugtainer.Auth.Oidc.{Provider}
use tugtainer.Auth.{
  World, AuthProvider, answer, Event, login_with, provider_callback, refresh_tokens, log_out,
  change_password, ask_authorized, Past, by_password, by_oidc,
}
use tugtainer.Auth.Entered.Rules.{is_plain, Sessions, answer_rule}
use tugtainer.Auth.Entered.{
  Presented, AllBacked, IsKept, name_of, IsEntry, Entered, IsSound, past_of,
}

module _ (jwt : Jwt) (config : AuthConfig) (bcrypt : Bcrypt) (provider : Provider) where
  plain-IsSound :
      (history : List Past) (r : Response)
      → is_plain r ≡ true
      → IsSound jwt config bcrypt provider history r
  plain-IsSound history (session access_token refresh_token) h = absurd (ground (arith, h))
  plain-IsSound history (redirected url state) h = tt
  plain-IsSound history cookies_deleted h = tt
  plain-IsSound history (done status) h = tt
  plain-IsSound history (raised status) h = tt
  plain-IsSound history not_implemented h = tt

  password-IsEntry :
      (name : Option Text) (user : Option Claims) (past : Past) (event : Event)
      → name ≡ some password
      → IsEntry jwt config bcrypt provider name user past event
      → IsEntry jwt config bcrypt provider (some password) none past event
  password-IsEntry name user past (login_with provider_name body) h e = (refl, e.1, e.2, e.3, e.4)
  password-IsEntry name user past (provider_callback provider_name code state error) h e =
      absurd (ground (arith, h, e.0))
  password-IsEntry name user past refresh_tokens h e = e
  password-IsEntry name user past log_out h e = e
  password-IsEntry name user past (change_password plain confirm) h e = e
  password-IsEntry name user past ask_authorized h e = e

  -- A refresh hands on what is known of the token that it reads. The provider of the password names no
  -- user, the other keeps the one of the token.
  password-Entered :
      (name : Option Text) (user : Option Claims) (history : List Past)
      → name ≡ some password
      → Entered jwt config bcrypt provider name user history
      → Entered jwt config bcrypt provider (some password) none history
  password-Entered name user [] h e = e
  password-Entered name user (past ∷ history) h (inl e) =
      inl (password-IsEntry name user past past.event h e)
  password-Entered name user (past ∷ history) h (inr e) =
      inr (password-Entered name user history h e)

  kept-Entered :
      (by : AuthProvider) (p : TokenPayload) (user : Option Claims) (history : List Past)
      → p.auth_provider ≡ some (name_of by)
      → IsKept jwt config bcrypt provider by p user
      → Entered jwt config bcrypt provider p.auth_provider p.user_info history
      → Entered jwt config bcrypt provider (some (name_of by)) user history
  kept-Entered by_password p user history h k e =
      rw k (password-Entered p.auth_provider p.user_info history h e)
  kept-Entered by_oidc p user history h k e = rw (k, sym h) e

  module _
      (reads_back : (now : ℕ) (p q : TokenPayload)
        → jwt.decode now (jwt.encode p) ≡ some q
        → q ≡ p) where
    new_session-IsSound :
        (history : List Past) (now : ℕ) (name : Text) (user_id : Option Text) (user : Option Claims)
        → Entered jwt config bcrypt provider (some name) user history
        → IsSound jwt config bcrypt provider history (new_session jwt config now name user_id user)
    new_session-IsSound history now name user_id user e =
        (λ now p h. rw (reads_back now _ p h) e, λ now p h. rw (reads_back now _ p h) e)

    module _ (w : World) (backed : AllBacked jwt config bcrypt provider w) (now : ℕ)
        (cookies : Cookies)
        (presented : Presented jwt config bcrypt provider w.issued cookies) where
      Sessions-IsSound :
          (event : Event)
          → Sessions
              (IsSound jwt config bcrypt provider
                (past_of now cookies w.password_file event ∷ w.history))
              jwt
              config
              bcrypt
              provider
              now
              cookies
              w.password_file
              event
      Sessions-IsSound event by user_id user enabled (inl e) =
          new_session-IsSound (past_of now cookies w.password_file event ∷ w.history) now
            (name_of by) user_id user (inl e)
      Sessions-IsSound event by user_id user enabled (inr (token, p, h, k, named, kept)) =
          new_session-IsSound (past_of now cookies w.password_file event ∷ w.history) now
            (name_of by) user_id user
            (inr (
              kept-Entered by p user w.history named kept
                (backed token (presented token (inr h) now p k) now p k)))

      pub answer-IsSound :
          (event : Event)
          → IsSound jwt config bcrypt provider
              (past_of now cookies w.password_file event ∷ w.history)
              (answer jwt config bcrypt provider now cookies w.password_file event).0
      answer-IsSound event =
          answer_rule
            (IsSound jwt config bcrypt provider
              (past_of now cookies w.password_file event ∷ w.history))
            (plain-IsSound (past_of now cookies w.password_file event ∷ w.history)) jwt config
            bcrypt provider now cookies w.password_file event (Sessions-IsSound event)
