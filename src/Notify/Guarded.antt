-- ===== src/Notify/Guarded.antt =====
-- What backend/core/notifications_core.py hands to apprise.
use tugtainer.Base.{
  ◌≡◌, refl, ap, ◌∙◌, arith, Bool, true, false, ◌||◌, Option, none, some, inl, inr, Bool-cases,
  List, [], ◌∷◌, Text, add, any, elem, is_empty, strip, eq_iff, ◌++◌,
}
use tugtainer.ActionResult.{HostActionResult}
use tugtainer.Docker.{truthy}
use tugtainer.Guard.Networks.{Network}
use tugtainer.Guard.{Names}
use tugtainer.Guard.Callers.{
  fine, splitlines, stripped, as_set, split_notification_urls, check_urls,
  validate_notification_urls_against_ssrf,
}
use tugtainer.Notify.{
  Outside, Message, Rendered, rendered, template_error, render_raised, with_title, with_urls,
  or_setting, any_blocked, send_notification, send_check_notification,
}

module _ (p : Text → Bool) where
  any-elem : (x : Text) (l : List Text) → elem x l ≡ true → p x ≡ true → any p l ≡ true
  unfolding any elem
  any-elem x [] h q = cc
  any-elem x (y ∷ l) h q =
      ground (arith, any-elem x l, eq_iff y x, λ (e : y ≡ x). ap {B = Bool} p e)

  any-append : (l m : List Text) → any p (l ++ m) ≡ (any p l || any p m)
  unfolding any
  any-append [] m = refl
  any-append (x ∷ l) m = ground (arith, any-append l m)

  any-add : (x : Text) (l : List Text) → any p (add x l) ≡ (any p l || p x)
  unfolding add any
  any-add x l = ground (arith, any-elem x l, any-append l (x ∷ []))

  any-as_set : (seen l : List Text) → any p (as_set seen l) ≡ (any p seen || any p l)
  unfolding as_set any
  any-as_set seen [] = ground arith
  any-as_set seen (x ∷ l) = ground (arith, any-as_set (add x seen) l, any-add x seen)

module _ (names : Names) (allowed_networks : List Network) (allowed_endpoints : List Text)
    (outside : Outside) where
  check_urls-fine :
      (l : List Text)
      → any_blocked names allowed_networks allowed_endpoints outside l ≡ false
      → check_urls names allowed_networks allowed_endpoints l ≡ fine
  unfolding check_urls any_blocked any
  check_urls-fine [] h = refl
  check_urls-fine (url ∷ l) h = ground (arith, check_urls-fine l)

  accepted :
      (urls : Text)
      → any_blocked names allowed_networks allowed_endpoints outside (stripped (splitlines urls))
        ≡ false
      → validate_notification_urls_against_ssrf names allowed_networks allowed_endpoints urls ≡ fine
  unfolding validate_notification_urls_against_ssrf split_notification_urls any_blocked
  accepted urls h =
      check_urls-fine _ (any-as_set _ [] (stripped (splitlines urls)) ∙ unfold any in h)

  sent :
      (title body : Text) (urls : List Text) (m : Message)
      → (send_notification names allowed_networks allowed_endpoints outside title body urls).asked
        ≡ some m
      → (any_blocked names allowed_networks allowed_endpoints outside urls ≡ false)
        × (m.body ≡ body)
        × (m.urls ≡ urls)
  unfolding send_notification
  sent title body [] m h = absurd (ground (arith, h))
  sent title body (url ∷ urls) m h = ground (arith, h)

  -- What is known of a message for the lines of a text.
  abbrev Accepted : Text → Message → Type 0
  Accepted urls m =
      (m.urls ≡ stripped (splitlines urls))
      × (is_empty (strip m.body) ≡ false)
      × (validate_notification_urls_against_ssrf names allowed_networks allowed_endpoints urls
          ≡ fine)

  from_title :
      (urls : Text) (t b : Rendered) (m : Message)
      → (with_title names allowed_networks allowed_endpoints outside
          (stripped (splitlines urls))
          t
          b).asked
        ≡ some m
      → Accepted urls m
  from_title urls template_error b m h = absurd (ground (arith, h))
  from_title urls render_raised b m h = absurd (ground (arith, h))
  from_title urls (rendered title) template_error m h = absurd (ground (arith, h))
  from_title urls (rendered title) render_raised m h = absurd (ground (arith, h))
  from_title urls (rendered title) (rendered body) m h = elim (Bool-cases (is_empty (strip body))) [
    | inl blank ↦ absurd (ground (arith, h, blank))
    | inr full ↦
        let k : (send_notification names allowed_networks allowed_endpoints outside title body
              (stripped (splitlines urls))).asked
            ≡ some m =
          ground (arith, h, full) in
        let (free, same_body, same_urls) = sent title body (stripped (splitlines urls)) m k in
        (same_urls, ap (λ (x : Text). is_empty (strip x)) same_body ∙ full, accepted urls free)
  ]

  from_urls :
      (o : Option Text) (t b : Rendered) (m : Message)
      → (with_urls names allowed_networks allowed_endpoints outside (truthy o) t b).asked ≡ some m
      → (text : Text) × (o ≡ some text) × Accepted text m
  from_urls none t b m h = absurd (ground (arith, h))
  from_urls (some urls) t b m h = elim (Bool-cases (is_empty urls)) [
    | inl blank ↦ absurd (ground (arith, h, blank))
    | inr full ↦
        let k : (with_title names allowed_networks allowed_endpoints outside
              (stripped (splitlines urls)) t b).asked
            ≡ some m =
          rw full at h in
        let a = from_title urls t b m k in (urls, refl, a)
  ]

  module _ (title_setting body_setting urls_setting : Option Text) (results : List HostActionResult)
      (title_template body_template urls : Option (Option Text)) where
    -- apprise is asked to send only a message whose body is not blank, to the lines of the URLs that were
    -- given or are set, and only if `validate_notification_urls_against_ssrf`, by which the settings test
    -- URLs against forged requests, raises nothing for them: none resolves to a restricted address without
    -- its endpoint or one of its addresses being allowed. A URL that cannot be parsed, has no host or does
    -- not resolve is no obstacle.
    pub send_check_notification_guarded :
        (m : Message)
        → (send_check_notification names allowed_networks allowed_endpoints outside title_setting
            body_setting urls_setting results title_template body_template urls).asked
          ≡ some m
        → (text : Text) × (or_setting urls urls_setting ≡ some text)
          × (m.urls ≡ stripped (splitlines text))
          × (is_empty (strip m.body) ≡ false)
          × (validate_notification_urls_against_ssrf names allowed_networks allowed_endpoints text
              ≡ fine)
    unfolding send_check_notification
    send_check_notification_guarded m h =
        let (text, e, a) = from_urls (or_setting urls urls_setting) _ _ m h in
        (text, e, a.0, a.1, a.2)
