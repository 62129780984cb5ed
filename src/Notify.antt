-- ===== src/Notify.antt =====
-- backend/core/notifications_core.py
pub mod Guarded
use tugtainer.Base.{
  ℕ, ◌≡◌, Bool, true, false, not, ◌&&◌, ◌||◌, Option, none, some, List, [], ◌∷◌, Text, any,
  is_empty, strip, or_else, if◌then◌else◌,
}
use tugtainer.ActionResult.{
  Outcome, not_available, available, available_notified, updated, rolled_back, failed,
  ContainerActionResult, HostActionResult,
}
use tugtainer.Docker.{truthy}
use tugtainer.Guard.Networks.{Network}
use tugtainer.Guard.{Names, validate_url_against_ssrf}
use tugtainer.Guard.Callers.{splitlines, stripped, is_blocked}

abbrev is_worthy : Option Outcome → Bool
is_worthy (some available) = true
is_worthy (some updated) = true
is_worthy (some rolled_back) = true
is_worthy (some failed) = true
is_worthy _ = false

-- The filter that the templates may use.
unfoldable pub any_worthy : List ContainerActionResult → Bool
any_worthy = any (λ item. is_worthy item.result)

-- What a template renders to, and how it may fail.
pub data Rendered : Type 0 where
  rendered : Text → Rendered
  template_error render_raised : Rendered

-- What apprise does with a notification.
pub data Delivered : Type 0 where
  delivered not_delivered apprise_exception delivery_raised : Delivered

-- jinja2, in which a template may call `any_worthy`, and apprise.
pub record Outside : Type 0 where
  pub render :
      (any_worthy : List ContainerActionResult → Bool)
      → (template : Text) → List HostActionResult
      → Rendered
  pub async_notify : (title body : Text) → List Text → Delivered

-- How a notification ends: it returns, it raises TugNotificationException, or another exception.
pub data Ending : Type 0 where
  returned notification_exception other_exception : Ending

pub record Message : Type 0 where
  pub title : Text
  pub body : Text
  pub urls : List Text

-- What apprise was asked to send, and the ending.
pub record Sending : Type 0 where
  pub asked : Option Message
  pub ending : Ending

abbrev pub quiet : Ending → Sending
quiet e = record { asked = none; ending = e }

-- An argument with a sentinel as its default: what is not given comes from the settings.
abbrev pub or_setting : Option (Option Text) → Option Text → Option Text
or_setting none setting = setting
or_setting (some given) setting = given

abbrev ending_of : Delivered → Ending
ending_of delivered = returned
ending_of not_delivered = notification_exception
ending_of apprise_exception = notification_exception
ending_of delivery_raised = other_exception

module _ (names : Names) (allowed_networks : List Network) (allowed_endpoints : List Text)
    (outside : Outside) where
  unfoldable pub any_blocked : List Text → Bool
  any_blocked =
      any
        (λ url. is_blocked (validate_url_against_ssrf names allowed_networks allowed_endpoints url))

  unfoldable pub send_notification : (title body : Text) → (urls : List Text) → Sending
  unfolding any_blocked
  send_notification title body [] = quiet notification_exception
  send_notification title body (url ∷ urls) =
      if any_blocked (url ∷ urls) then quiet notification_exception else record {
        asked = some (record { title = title; body = body; urls = url ∷ urls });
        ending = ending_of (outside.async_notify title body (url ∷ urls));
      }

  -- A template that is missing or empty renders to nothing.
  unfoldable pub render_if : Option Text → List HostActionResult → Rendered
  unfolding any_worthy
  render_if none results = rendered []
  render_if (some template) results =
      if is_empty template then rendered [] else outside.render any_worthy template results

  abbrev pub with_body : (urls : List Text) → Text → Rendered → Sending
  with_body urls title template_error = quiet notification_exception
  with_body urls title render_raised = quiet other_exception
  with_body urls title (rendered body) =
      if is_empty (strip body) then quiet returned else send_notification title body urls

  abbrev pub with_title : (urls : List Text) → Rendered → Rendered → Sending
  with_title urls template_error body = quiet notification_exception
  with_title urls render_raised body = quiet other_exception
  with_title urls (rendered title) body = with_body urls title body

  abbrev pub with_urls : Option Text → Rendered → Rendered → Sending
  with_urls none title body = quiet notification_exception
  with_urls (some urls) title body = with_title (stripped (splitlines urls)) title body

  -- The settings, and what overrides them.
  unfoldable pub send_check_notification :
      (title_setting body_setting urls_setting : Option Text)
      → List HostActionResult
      → (title_template body_template urls : Option (Option Text)) → Sending
  unfolding send_notification render_if splitlines stripped
  send_check_notification title_setting body_setting urls_setting results title_template
        body_template urls =
      with_urls (truthy (or_setting urls urls_setting))
        (render_if (or_setting title_template title_setting) results)
        (render_if (or_setting body_template body_setting) results)
