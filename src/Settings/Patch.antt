-- ===== src/Settings/Patch.antt =====
-- What is checked before a change of the settings: `SettingsPatchRequestItem` of settings_schemas.py,
-- `validate_notification_urls` of settings_util.py and settings_validators.py; and `test_notification`.
use tugtainer.Base.{
  Bool, true, false, not, ◌&&◌, ◌||◌, Option, none, some, List, [], ◌∷◌, Text, codes, all, elem,
  is_empty, eqb, ◌==◌, pos, if◌then◌else◌,
}
use tugtainer.Guard.Callers.{Checked, fine, http_exception, split_notification_urls}
use tugtainer.Notify
use tugtainer.Notify.{Ending}
use tugtainer.Settings.{
  Numbers, Value, bool_value, int_value, str_value, value_str, Item, SettingModel,
  get_setting_typed_value,
}

-- The time zones and the schemes that are allowed, whether cronsim takes an expression, and the scheme that
-- `urlparse` finds, which is none where it raises `ValueError`.
pub record Rules : Type 0 where
  pub valid_timezones : List Text
  pub allow_schemes : List Text
  pub is_cron_expr : Text → Bool
  pub scheme_of : Text → Option Text

abbrev is_any : List Text → Bool
is_any [] = false
is_any (x ∷ l) = true

module _ (rules : Rules) where
  abbrev allows_scheme : Option Text → Bool
  allows_scheme none = false
  allows_scheme (some scheme) =
      not (is_empty scheme) && (not (is_any rules.allow_schemes) || elem scheme rules.allow_schemes)

  module _ (numbers : Numbers) where
    -- Whether it raises nothing.
    unfoldable pub validate_notification_urls : Value numbers → Bool
    unfolding split_notification_urls all elem
    validate_notification_urls (str_value urls) =
        all (λ url. allows_scheme (rules.scheme_of url)) (split_notification_urls urls)
    validate_notification_urls _ = false

    -- `isinstance(value, int) and value > 0`: a `bool` is an `int`.
    abbrev is_positive : Value numbers → Bool
    is_positive (bool_value b) = b
    is_positive (int_value (pos n)) = not (eqb n 0)
    is_positive _ = false

    abbrev is_natural : Value numbers → Bool
    is_natural (bool_value b) = true
    is_natural (int_value (pos n)) = true
    is_natural _ = false

    unfoldable pub validate_setting : Item numbers → Bool
    unfolding validate_notification_urls
    validate_setting item =
        if item.key == codes "CHECK_CRONTAB_EXPR" || item.key == codes "UPDATE_CRONTAB_EXPR"
        then rules.is_cron_expr (value_str numbers item.value)
        else if item.key == codes "TIMEZONE"
        then elem (value_str numbers item.value) rules.valid_timezones
        else if item.key == codes "REGISTRY_REQ_DELAY"
        then is_positive item.value
        else if item.key == codes "DELAY_UPDATE_FOR"
        then is_natural item.value
        else if item.key == codes "NOTIFICATION_URLS"
        then validate_notification_urls item.value
        else true

    -- The list of the settings, without the moments of their changes.
    unfoldable pub get_settings : List SettingModel → List (Text × (Value numbers × Text))
    get_settings [] = []
    get_settings (row ∷ rows) =
        (row.key, (get_setting_typed_value numbers row.value row.value_type, row.value_type))
        ∷ get_settings rows

abbrev after_test : Ending → Checked
after_test Notify.returned = fine
after_test Notify.notification_exception = http_exception 500
after_test Notify.other_exception = http_exception 500

abbrev sent_if : Checked → Ending → Checked
sent_if fine ending = after_test ending
sent_if other ending = other

-- `test_notification`, with the ending of `send_check_notification`.
unfoldable pub test_notification :
    (validate_urls : Text → Checked) → (urls : Text) → Ending → Checked
test_notification validate_urls urls ending = sent_if (validate_urls urls) ending
