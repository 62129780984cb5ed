-- ===== src/Settings/Synced.antt =====
-- What a change of the settings (backend/modules/settings/settings_router.py) leaves in the database and in
-- memory.
use tugtainer.Base.{
  ◌≡◌, refl, ◌∙◌, ap, arith, Bool, true, false, ◌&&◌, Option, none, some, List, [], ◌∷◌, Text, Dict,
  lookup, lookup-put, ◌==◌, eq_iff, ◌⊎◌, inl, inr, Bool-cases, if◌then◌else◌,
}
use tugtainer.Guard.Callers.{Checked, fine, http_exception, raised}
use tugtainer.Settings.Cron.{Jobs}
use tugtainer.Settings.{
  SettingModel, Numbers, is_setting_key, find_setting, set_row, Value, get_setting_typed_value,
  value_str, Item, Session, type_name, update_setting_value, flushed, flush, store_item,
  change_found, change_item, if_fine, change_items, change_system_settings, concluded,
}

find-set_row :
    (key : Text) (row found : SettingModel) (rows : List SettingModel)
    → find_setting key (set_row row rows) ≡ some found
    → ((row.key == key) ≡ true) × (found ≡ row)
      ⊎ ((row.key == key) ≡ false) × (find_setting key rows ≡ some found)
unfolding find_setting set_row
find-set_row key row found [] h = absurd (ground (arith, h))
find-set_row key row found (old ∷ rows) h = ground (
  arith,
  h,
  eq_iff row.key key,
  eq_iff old.key row.key,
  eq_iff old.key key,
  find-set_row key row found rows,
)

found_key :
    (key : Text) (row : SettingModel) (rows : List SettingModel)
    → find_setting key rows ≡ some row
    → row.key ≡ key
unfolding find_setting
found_key key row [] h = absurd (ground (arith, h))
found_key key row (old ∷ rows) h = ground (arith, h, eq_iff old.key key, found_key key row rows)

-- The row of a key with another text.
unfoldable pub with_text : Text → Text → List SettingModel → List SettingModel
with_text key text [] = []
with_text key text (row ∷ rows) =
    let rest = with_text key text rows in
    if row.key == key then record row { value = text } ∷ rows else row ∷ rest

set_row-found :
    (key text : Text) (row : SettingModel) (rows : List SettingModel)
    → find_setting key rows ≡ some row
    → set_row (record row { value = text }) rows ≡ with_text key text rows
unfolding find_setting set_row with_text
set_row-found key text row [] h = refl
set_row-found key text row (old ∷ rows) h = ground (
  arith,
  h,
  found_key key row (old ∷ rows) h,
  eq_iff old.key key,
  eq_iff old.key row.key,
  set_row-found key text row rows,
)

module _ (numbers : Numbers) where
  -- The value in memory of each setting that the code knows is that of its row.
  abbrev pub Synced : Dict (Value numbers) → List SettingModel → Type 0
  Synced values rows =
      (key : Text) (row : SettingModel)
      → is_setting_key key ≡ true
      → find_setting key rows ≡ some row
      → lookup key values ≡ some (get_setting_typed_value numbers row.value row.value_type)

  lookup-update_setting_value :
      (key : Text) (row : SettingModel) (values : Dict (Value numbers))
      → lookup key (update_setting_value numbers row values) ≡ (
          if is_setting_key row.key && row.key == key
          then some (get_setting_typed_value numbers row.value row.value_type)
          else lookup key values)
  unfolding update_setting_value
  lookup-update_setting_value key row values = ground (
    arith,
    lookup-put row.key key (get_setting_typed_value numbers row.value row.value_type) values,
  )

  set_row-Synced :
      (row : SettingModel) (values : Dict (Value numbers)) (rows : List SettingModel)
      → Synced values rows
      → Synced (update_setting_value numbers row values) (set_row row rows)
  set_row-Synced row values rows s key found known h = elim (find-set_row key row found rows h) [
    | inl (same, is_row) ↦
        let found_row : is_setting_key row.key ≡ true =
          ap {B = Bool} is_setting_key ((eq_iff row.key key).0 same) ∙ known in
        rw is_row (lookup-update_setting_value key row values ∙ ground (arith, same, found_row))
    | inr (other, before) ↦
        lookup-update_setting_value key row values ∙ ground (arith, other, s key found known before)
  ]

  -- What the changes are meant to make of the rows.
  abbrev pub with_values : List (Item numbers) → List SettingModel → List SettingModel
  with_values [] rows = rows
  with_values (item ∷ items) rows =
      with_values items (with_text item.key (value_str numbers item.value) rows)

  abbrev Ready : Session numbers → Type 0
  Ready s = Synced (flushed numbers s.pending s.values) s.rows

  -- What is left of the loop: the table is as before, and after a success the rows have the values.
  abbrev Left :
      List (Item numbers) → (table rows : List SettingModel) → Checked × Session numbers → Type 0
  Left items table rows (fine, s') =
      (s'.table ≡ table) × Ready s' × (s'.rows ≡ with_values items rows)
  Left items table rows (other, s') = s'.table ≡ table

  moved :
      (items : List (Item numbers)) (table table' rows rows' : List SettingModel) (c : Checked)
      (s : Session numbers)
      → table ≡ table'
      → rows ≡ rows'
      → Left items table rows (c, s)
      → Left items table' rows' (c, s)
  moved items table table' rows rows' fine s e f (p, r, q) =
      (p ∙ e, r, q ∙ ap (with_values items) f)
  moved items table table' rows rows' (http_exception n) s e f p = p ∙ e
  moved items table table' rows rows' (raised x) s e f p = p ∙ e

  -- What is promised of a change: after a success the table has the values, and the values in memory are
  -- those of the table; after a failure the table and the jobs are as before.
  abbrev pub Changed :
      List (Item numbers) → List SettingModel → Jobs → Checked × (Session numbers × Jobs) → Type 0
  Changed items table jobs (fine, (s', jobs')) =
      (s'.table ≡ with_values items table) × Synced s'.values s'.table
  Changed items table jobs (other, (s', jobs')) = (s'.table ≡ table) × (jobs' ≡ jobs)

  module _ (validate_urls : Text → Checked) where
    stored :
        (item : Item numbers) (row : SettingModel) (c : Checked) (s : Session numbers)
        → Synced s.values s.rows
        → find_setting item.key s.rows ≡ some row
        → Left (item ∷ []) s.table s.rows (store_item numbers validate_urls item row c s)
    stored item row fine s r h =
        (refl, set_row-Synced _ s.values s.rows r, set_row-found item.key _ row s.rows h)
    stored item row (http_exception n) s r h = refl
    stored item row (raised e) s r h = refl

    found :
        (item : Item numbers) (o : Option SettingModel) (s : Session numbers)
        → Synced s.values s.rows
        → find_setting item.key s.rows ≡ o
        → Left (item ∷ []) s.table s.rows (change_found numbers validate_urls item o s)
    found item none s r h = refl
    found item (some row) s r h =
        elim (Bool-cases (row.value_type == type_name numbers item.value)) [
          | inl typed ↦ rw typed (stored item row _ s r h)
          | inr other ↦ rw other refl
        ]

    one :
        (item : Item numbers) (s : Session numbers)
        → Ready s
        → Left (item ∷ []) s.table s.rows (change_item numbers validate_urls item s)
    unfolding change_item flush
    one item s r = found item (find_setting item.key s.rows) (flush numbers s) r refl

    followed :
        (item : Item numbers) (items : List (Item numbers)) (table rows : List SettingModel)
        (c : Checked) (s : Session numbers)
        → Left (item ∷ []) table rows (c, s)
        → (Ready s → Left items s.table s.rows (change_items numbers validate_urls items s))
        → Left
            (item ∷ items)
            table
            rows
            (if_fine numbers validate_urls c s (change_items numbers validate_urls items))
    followed item items table rows fine s (p, r, q) f = moved items _ _ _ _ _ _ p q (f r)
    followed item items table rows (http_exception n) s p f = p
    followed item items table rows (raised e) s p f = p

    all_items :
        (items : List (Item numbers)) (s : Session numbers)
        → Ready s
        → Left items s.table s.rows (change_items numbers validate_urls items s)
    unfolding change_items
    all_items [] s r = (refl, r, refl)
    all_items (item ∷ items) s r =
        followed item items s.table s.rows (change_item numbers validate_urls item s).0
          (change_item numbers validate_urls item s).1 (one item s r)
          (all_items items (change_item numbers validate_urls item s).1)

    ended :
        (valid_timezones : List Text) (items : List (Item numbers)) (table : List SettingModel)
        (jobs : Jobs) (c : Checked) (s : Session numbers)
        → Left items table table (c, s)
        → Changed items table jobs
            (concluded numbers validate_urls valid_timezones items (c, s) jobs)
    unfolding flush
    ended valid_timezones items table jobs fine s (p, r, q) = (q, r)
    ended valid_timezones items table jobs (http_exception n) s p = (p, refl)
    ended valid_timezones items table jobs (raised e) s p = (p, refl)

    -- Where a request starts with nothing changed and the values in memory are those of the table: a change
    -- of the settings that succeeds leaves in the table the given values, one after the other, and in memory
    -- the values of the table; one that fails leaves the table and the scheduled jobs as they were.
    pub change_system_settings-Changed :
        (valid_timezones : List Text) (items : List (Item numbers)) (table : List SettingModel)
        (values : Dict (Value numbers)) (jobs : Jobs)
        → Synced values table
        → Changed items table jobs (
            change_system_settings numbers validate_urls valid_timezones items
              (record { table = table; rows = table; pending = none; values = values })
              jobs)
    unfolding change_system_settings
    change_system_settings-Changed valid_timezones items table values jobs r =
        let s : Session numbers = record {
          table = table;
          rows = table;
          pending = none;
          values = values;
        } in
        ended valid_timezones items table jobs (change_items numbers validate_urls items s).0
          (change_items numbers validate_urls items s).1 (all_items items s r)
