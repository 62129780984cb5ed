-- ===== src/Examples/Settings.antt =====
-- A change of the time zone, alone and before a setting that there is not.
use tugtainer.Base.{
  ◌≡◌, refl, arith, true, none, some, List, [], ◌∷◌, Text, Dict, codes, lookup, put, elem, ◌==◌, ap,
  ◌∙◌, Bool-cases, inl, inr, some_inj,
}
use tugtainer.Guard.Callers.{Checked, fine}
use tugtainer.Settings.Cron.{Jobs}
use tugtainer.Settings.{
  SettingModel, Numbers, Value, str_value, Item, Session, find_setting, is_setting_key,
  get_setting_typed_value, change_system_settings, update_setting_value, set_row,
}
use tugtainer.Settings.Synced.{Synced, Changed, change_system_settings-Changed}

abbrev numbers : Numbers
numbers = record {
  Float = Unit {0};
  float_str = λ x. codes "1.0";
  float_of = λ t. none;
  int_of = λ t. none;
  is_float_true = λ x. true;
}

abbrev row_of : Text → SettingModel
row_of value = record { key = codes "TIMEZONE"; value = value; value_type = codes "str" }

abbrev table : List SettingModel
table = row_of (codes "UTC") ∷ []

abbrev values : Dict (Value numbers)
values = (codes "TIMEZONE", str_value (codes "UTC")) ∷ []

abbrev rome : Item numbers
rome = record { key = codes "TIMEZONE"; value = str_value (codes "Europe/Rome") }

abbrev unknown : Item numbers
unknown = record { key = codes "TIME"; value = str_value (codes "1") }

abbrev no_jobs : Jobs
no_jobs = record { jobs = []; stopped = [] }

abbrev validate_urls : Text → Checked
validate_urls t = fine

abbrev before : Session numbers
before = record { table = table; rows = table; pending = none; values = values }

-- The change of the first setting is rolled back with the failure of the second, but it stays in memory: the
-- query for the second flushes the first, and the listener stores its value.
failed_in_memory :
    lookup
      (codes "TIMEZONE")
      (change_system_settings numbers validate_urls []
        (rome ∷ unknown ∷ [])
        before
        no_jobs).1.0.values
    ≡ some (str_value (codes "Europe/Rome"))
unfolding change_system_settings lookup put update_setting_value is_setting_key elem find_setting
    set_row get_setting_typed_value ◌==◌
failed_in_memory = refl

failed_table :
    (change_system_settings numbers validate_urls [] (rome ∷ unknown ∷ []) before no_jobs).1.0.table
    ≡ table
unfolding change_system_settings find_setting ◌==◌
failed_table = refl

abbrev utc : Value numbers
utc = str_value (codes "UTC")

utc_value : some utc ≡ some (get_setting_typed_value numbers (codes "UTC") (codes "str"))
unfolding get_setting_typed_value ◌==◌
utc_value = refl

in_sync : Synced numbers values table
unfolding lookup find_setting
in_sync key row known h = elim (Bool-cases (codes "TIMEZONE" == key)) [
  | inl same ↦ rw same (
      utc_value
      ∙ ap (λ (r : SettingModel). some (get_setting_typed_value numbers r.value r.value_type))
          (some_inj (rw same at h)))
  | inr other ↦ absurd (ground (arith, h, other))
]

change_system_settings-Changed_example :
    Changed numbers
      (rome ∷ [])
      table
      no_jobs
      (change_system_settings numbers validate_urls [] (rome ∷ []) before no_jobs)
change_system_settings-Changed_example =
    change_system_settings-Changed numbers validate_urls [] (rome ∷ []) table values no_jobs in_sync
