-- ===== src/Settings.antt =====
-- backend/modules/settings: the settings in the database, the values of them that are kept in memory, and
-- their change by settings_router.py.
pub mod Cron
pub mod Synced
pub mod Patch
use tugtainer.Base.{
  ℕ, Bool, true, false, not, ◌&&◌, ◌||◌, Option, none, some, List, [], ◌∷◌, Text, Dict, codes,
  lookup, put, or_else, elem, lower, is_empty, ◌==◌, ℤ, pos, negsuc, str, if◌then◌else◌, leb, eqb,
}
use tugtainer.Guard.Callers.{Checked, fine, http_exception, raised}
use tugtainer.Settings.Cron.{Jobs, schedule_job, check_job, update_job}

-- A row of settings_model.py.
pub record SettingModel : Type 0 where
  pub key : Text
  pub value : Text
  pub value_type : Text

-- Python's floats, and `int` and `float` of a text, which are none where they raise.
pub record Numbers : Type 1 where
  pub Float : Type 0
  pub float_str : Float → Text
  pub float_of : Text → Option Float
  pub int_of : Text → Option ℤ
  pub is_float_true : Float → Bool

abbrev setting_keys : List Text
setting_keys =
    codes "CHECK_CRONTAB_EXPR"
    ∷ codes "UPDATE_CRONTAB_EXPR"
    ∷ codes "PULL_BEFORE_CHECK"
    ∷ codes "REGISTRY_REQ_DELAY"
    ∷ codes "TIMEZONE"
    ∷ codes "NOTIFICATION_URLS"
    ∷ codes "NOTIFICATION_TITLE_TEMPLATE"
    ∷ codes "NOTIFICATION_BODY_TEMPLATE"
    ∷ codes "UPDATE_ONLY_RUNNING"
    ∷ codes "INSECURE_REGISTRIES"
    ∷ codes "DELAY_UPDATE_FOR"
    ∷ []

-- Whether `ESettingKey(key)` raises no `ValueError`.
unfoldable pub is_setting_key : Text → Bool
unfolding elem
is_setting_key key = elem key setting_keys

unfoldable pub find_setting : Text → List SettingModel → Option SettingModel
find_setting key [] = none
find_setting key (row ∷ rows) = if row.key == key then some row else find_setting key rows

-- The object of a row is the one with its key.
unfoldable pub set_row : SettingModel → List SettingModel → List SettingModel
set_row row [] = []
set_row row (old ∷ rows) =
    let rest = set_row row rows in if old.key == row.key then row ∷ rows else old ∷ rest

module _ (numbers : Numbers) where
  open numbers use {Float, float_str, float_of, int_of, is_float_true}

  -- The values of settings; Python's `bool` is told from `int`.
  pub data Value : Type 0 where
    bool_value : Bool → Value
    int_value : ℤ → Value
    float_value : Float → Value
    str_value : Text → Value

  abbrev float_or : Option Float → Text → Value
  float_or none value = str_value value
  float_or (some x) value = float_value x

  abbrev int_or : Option ℤ → Text → Value
  int_or none value = str_value value
  int_or (some n) value = int_value n

  unfoldable pub get_setting_typed_value : (value value_type : Text) → Value
  unfolding lower
  get_setting_typed_value value value_type =
      if value_type == codes "bool"
      then bool_value (lower value == codes "true")
      else if value_type == codes "float"
      then float_or (float_of value) value
      else if value_type == codes "int"
      then int_or (int_of value) value
      else str_value value

  -- `type(value).__name__`
  abbrev pub type_name : Value → Text
  type_name (bool_value b) = codes "bool"
  type_name (int_value n) = codes "int"
  type_name (float_value x) = codes "float"
  type_name (str_value t) = codes "str"

  -- `str(value)`
  abbrev pub value_str : Value → Text
  value_str (bool_value true) = codes "True"
  value_str (bool_value false) = codes "False"
  value_str (int_value n) = str n
  value_str (float_value x) = float_str x
  value_str (str_value t) = t

  pub record Item : Type 0 where
    pub key : Text
    pub value : Value

  -- The table as it is committed, the rows as the session of the request has them, the row that is not
  -- flushed, and `SettingsStorage._VALUES`. There is at most one such row since each query flushes.
  pub record Session : Type 0 where
    pub table : List SettingModel
    pub rows : List SettingModel
    pub pending : Option SettingModel
    pub values : Dict Value

  -- `update_setting_value`, the listener of "after_update".
  unfoldable pub update_setting_value : SettingModel → Dict Value → Dict Value
  update_setting_value row values =
      if is_setting_key row.key
      then put row.key (get_setting_typed_value row.value row.value_type) values
      else values

  abbrev pub flushed : Option SettingModel → Dict Value → Dict Value
  flushed none values = values
  flushed (some row) values = update_setting_value row values

  -- The autoflush of a query, and that of a commit.
  unfoldable pub flush : Session → Session
  flush s = record s { pending = none; values = flushed s.pending s.values }

  abbrev stored_at : Text → Option SettingModel → Dict Value → Dict Value
  stored_at key none values = values
  stored_at key (some row) values =
      put key (get_setting_typed_value row.value row.value_type) values

  -- `SettingsStorage.load_one`, by a key of `ESettingKey`.
  unfoldable pub load_one : (key : Text) → List SettingModel → Dict Value → Dict Value
  unfolding find_setting
  load_one key rows values = stored_at key (find_setting key rows) values

  -- `SettingsStorage.load_all`
  unfoldable pub load_all : List SettingModel → Dict Value → Dict Value
  unfolding update_setting_value
  load_all [] values = values
  load_all (row ∷ rows) values = load_all rows (update_setting_value row values)

  module _ (validate_urls : Text → Checked) where
    abbrev validate_item : Item → Checked
    validate_item item =
        if item.key == codes "NOTIFICATION_URLS" then validate_urls (value_str item.value) else fine

    abbrev pub store_item : Item → SettingModel → Checked → Session → Checked × Session
    store_item item row fine s =
        let changed = record row { value = value_str item.value } in
        (fine, record s { rows = set_row changed s.rows; pending = some changed })
    store_item item row other s = (other, s)

    abbrev pub change_found : Item → Option SettingModel → Session → Checked × Session
    change_found item none s = (http_exception 404, s)
    change_found item (some row) s =
        if row.value_type == type_name item.value
        then store_item item row (validate_item item) s
        else (http_exception 400, s)

    -- A round of the loop.
    unfoldable pub change_item : Item → Session → Checked × Session
    unfolding flush find_setting set_row
    change_item item s = change_found item (find_setting item.key s.rows) (flush s)

    abbrev pub if_fine : Checked → Session → (Session → Checked × Session) → Checked × Session
    if_fine fine s next = next s
    if_fine other s next = (other, s)

    unfoldable pub change_items : List Item → Session → Checked × Session
    unfolding change_item
    change_items [] s = (fine, s)
    change_items (item ∷ items) s =
        let (checked, s') = change_item item s in if_fine checked s' (change_items items)

    -- The end of the transaction: a commit, or what the closing of the session rolls back.
    abbrev pub commit : Session → Session
    commit s = record (flush s) { table = s.rows }

    abbrev pub roll_back : Session → Session
    roll_back s = record s { rows = s.table; pending = none }

    -- `_get`: of the data a value that counts as true, or the stored one.
    abbrev is_true : Value → Bool
    is_true (bool_value b) = b
    is_true (int_value (pos n)) = not (eqb n 0)
    is_true (int_value (negsuc n)) = true
    is_true (float_value x) = is_float_true x
    is_true (str_value t) = not (is_empty t)

    abbrev text_in : Option Value → Option Text
    text_in none = none
    text_in (some value) = some (value_str value)

    unfoldable pub given_or_stored : Text → List Item → Dict Value → Option Text
    unfolding lookup
    given_or_stored key [] values = text_in (lookup key values)
    given_or_stored key (item ∷ items) values =
        let rest = given_or_stored key items values in
        if item.key == key && is_true item.value then some (value_str item.value) else rest

    abbrev pub scheduled : List Text → List Item → Dict Value → Jobs → Jobs
    scheduled valid_timezones items values jobs =
        let tz = given_or_stored (codes "TIMEZONE") items values in
        let checking =
          schedule_job valid_timezones check_job
            (given_or_stored (codes "CHECK_CRONTAB_EXPR") items values) tz jobs in
        schedule_job valid_timezones update_job
          (given_or_stored (codes "UPDATE_CRONTAB_EXPR") items values) tz checking

    abbrev pub concluded :
        List Text → List Item → Checked × Session → Jobs → Checked × (Session × Jobs)
    concluded valid_timezones items (fine, s) jobs =
        (fine, (commit s, scheduled valid_timezones items (commit s).values jobs))
    concluded valid_timezones items (other, s) jobs = (other, (roll_back s, jobs))

    unfoldable pub change_system_settings :
        (valid_timezones : List Text) → List Item → Session → Jobs → Checked × (Session × Jobs)
    unfolding change_items given_or_stored schedule_job
    change_system_settings valid_timezones items s jobs =
        concluded valid_timezones items (change_items items s) jobs
