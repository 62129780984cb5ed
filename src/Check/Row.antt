-- ===== src/Check/Row.antt =====
-- backend/modules/containers/containers_util.py: the row of one container is updated in place, or
-- inserted.
use tugtainer.Base.{
  ℕ, ◌≡◌, refl, Bool, true, false, ◌&&◌, Option, none, some, List, [], ◌∷◌, Text, or_else, eqb,
  eq_iff, eq_refl, ◌==◌, arith, if◌then◌else◌, Bool-cases, inl, inr,
}
use tugtainer.Db.{ContainersModel}

-- ContainerInsertOrUpdateData: `none` is an absent key. The key `hooks` is left out.
pub record ContainerInsertOrUpdateData : Type 0 where
  pub check_enabled : Option Bool
  pub update_enabled : Option Bool
  pub update_available : Option Bool
  pub checked_at : Option ℕ
  pub updated_at : Option ℕ
  pub remote_digests_changed_at : Option (Option ℕ)
  pub delay_update_for : Option (Option ℕ)
  pub local_digests : Option (List Text)
  pub remote_digests : Option (List Text)
  pub image_id : Option Text

-- A value that is given goes over one that is there.
abbrev pub over : {A : Type 0} → Option A → Option A → Option A
over none old = old
over (some new) old = some new

-- `for key, value in c_data.items(): setattr(container, key, value)`
unfoldable pub apply : ContainerInsertOrUpdateData → ContainersModel → ContainersModel
apply c_data row = record {
  host_id = row.host_id;
  name = row.name;
  check_enabled = or_else c_data.check_enabled row.check_enabled;
  update_enabled = or_else c_data.update_enabled row.update_enabled;
  update_available = or_else c_data.update_available row.update_available;
  checked_at = over c_data.checked_at row.checked_at;
  updated_at = over c_data.updated_at row.updated_at;
  remote_digests_changed_at =
      or_else c_data.remote_digests_changed_at row.remote_digests_changed_at;
  delay_update_for = or_else c_data.delay_update_for row.delay_update_for;
  image_id = over c_data.image_id row.image_id;
  local_digests = over c_data.local_digests row.local_digests;
  remote_digests = over c_data.remote_digests row.remote_digests;
}

-- The defaults of the columns.
abbrev pub blank : ℕ → Text → ContainersModel
blank host_id name = record {
  host_id = host_id;
  name = name;
  check_enabled = false;
  update_enabled = false;
  update_available = false;
  checked_at = none;
  updated_at = none;
  remote_digests_changed_at = none;
  delay_update_for = none;
  image_id = none;
  local_digests = none;
  remote_digests = none;
}

-- `ContainersModel.host_id == host_id and ContainersModel.name == c_name`
unfoldable pub is_row_of : ℕ → Text → ContainersModel → Bool
is_row_of host_id c_name row = eqb row.host_id host_id && row.name == c_name

-- `select(…).limit(1)`
unfoldable pub find_row : ℕ → Text → List ContainersModel → Option ContainersModel
unfolding is_row_of
find_row host_id c_name [] = none
find_row host_id c_name (row ∷ rows) =
    if is_row_of host_id c_name row then some row else find_row host_id c_name rows

unfoldable pub insert_or_update_container :
    ℕ → Text → ContainerInsertOrUpdateData → List ContainersModel → List ContainersModel
unfolding apply
insert_or_update_container host_id c_name c_data [] = apply c_data (blank host_id c_name) ∷ []
insert_or_update_container host_id c_name c_data (row ∷ rows) =
    if is_row_of host_id c_name row
    then apply c_data row ∷ rows
    else row ∷ insert_or_update_container host_id c_name c_data rows

is_row_of-apply :
    (h : ℕ) (n : Text) (d : ContainerInsertOrUpdateData) (row : ContainersModel)
    → is_row_of h n (apply d row) ≡ is_row_of h n row
unfolding is_row_of apply
is_row_of-apply h n d row = refl

-- Two places are the same.
abbrev pub same_place : ℕ → Text → ℕ → Text → Bool
same_place h n g m = eqb h g && n == m

pub is_row_of-same :
    (h g : ℕ) (n m : Text) (row : ContainersModel)
    → is_row_of h n row ≡ true
    → is_row_of g m row ≡ same_place h n g m
unfolding is_row_of
is_row_of-same h g n m row e = ground (arith, e, eq_iff row.name n, eq_iff row.name m, eq_iff n m)

blank_here : (h : ℕ) (n : Text) → is_row_of h n (blank h n) ≡ true
unfolding is_row_of
blank_here h n = ground (arith, eq_refl n)

pub apart :
    (h g : ℕ) (n m : Text) (row : ContainersModel)
    → is_row_of h n row ≡ false
    → is_row_of g m row ≡ true
    → same_place h n g m ≡ false
unfolding is_row_of
apart h g n m row e f = ground (arith, e, f, eq_iff row.name n, eq_iff row.name m, eq_iff n m)

if_nested :
    {A : Type 0} (b : Bool) (x y z : A)
    → (if b then x else y) ≡ (if b then x else (if b then z else y))
if_nested true x y z = refl
if_nested false x y z = refl

-- After the insertion the container's row has the given fields, and otherwise those that it had before,
-- or the defaults of the columns if there was none; each other row of the table is found as before.
pub find_row-insert_or_update_container :
    (h : ℕ) (n : Text) (d : ContainerInsertOrUpdateData) (rows : List ContainersModel) (g : ℕ)
    (m : Text)
    → find_row g m (insert_or_update_container h n d rows) ≡ (
        if same_place h n g m
        then some (apply d (or_else (find_row h n rows) (blank h n)))
        else find_row g m rows)
unfolding find_row insert_or_update_container
find_row-insert_or_update_container h n d [] g m =
    rw (is_row_of-apply g m d (blank h n), is_row_of-same h g n m (blank h n) (blank_here h n)) refl
find_row-insert_or_update_container h n d (row ∷ rows) g m = elim (Bool-cases (is_row_of h n row)) [
  | inl here ↦
      rw (here, is_row_of-apply g m d row, is_row_of-same h g n m row here)
        (if_nested (same_place h n g m) _ _ _)
  | inr there ↦ elim (Bool-cases (is_row_of g m row)) [
    | inl found ↦ rw (there, found, apart h g n m row there found) refl
    | inr missed ↦ rw (there, missed) (find_row-insert_or_update_container h n d rows g m)
  ]
]
