-- ===== src/Db.antt =====
-- The database rows that the core reads and writes: backend/modules/containers/containers_model.py and
-- backend/modules/hosts/hosts_model.py. A moment is a number of microseconds, the resolution of
-- Python's `datetime`.
use tugtainer.Base.{ℕ, Bool, Option, List, [], ◌∷◌, Text, Dict, put, select, eqb}

pub record ContainersModel : Type 0 where
  pub host_id : ℕ
  pub name : Text
  pub check_enabled : Bool
  pub update_enabled : Bool
  pub update_available : Bool
  pub checked_at : Option ℕ
  pub updated_at : Option ℕ
  pub remote_digests_changed_at : Option ℕ
  pub delay_update_for : Option ℕ
  pub image_id : Option Text
  pub local_digests : Option (List Text)
  pub remote_digests : Option (List Text)

pub record HostsModel : Type 0 where
  pub id : ℕ
  pub name : Text
  pub enabled : Bool
  pub prune : Bool
  pub prune_all : Bool
  pub url : Text
  pub secret : Option Text
  pub ssl : Bool
  pub timeout : ℕ
  pub container_hc_timeout : ℕ

-- `select(ContainersModel).where(ContainersModel.host_id == host.id)`
unfoldable pub rows_of : ℕ → List ContainersModel → List ContainersModel
rows_of host_id = select (λ row. eqb row.host_id host_id)

-- `{c.name: c for c in rows}`
unfoldable pub rows_by_name : List ContainersModel → Dict ContainersModel → Dict ContainersModel
rows_by_name [] acc = acc
rows_by_name (row ∷ rows) acc = rows_by_name rows (put row.name row acc)
