-- ===== src/Examples/Containers.antt =====
-- Two containers and their rows: the second needs the first by tugtainer's label.
use tugtainer.Base.{Bool, true, false, none, some, [], ◌∷◌, Text, codes, Dict}
use tugtainer.Docker.{Container, no_config}
use tugtainer.Docker.Labels.{tugtainer_depends_on_label, tugtainer_protected_label}
use tugtainer.Db.{ContainersModel, HostsModel}

abbrev pub container : Text → (status : Text) → Dict Text → Container
container name status labels = record {
  id = some name;
  name = name;
  image = none;
  config = some (record no_config { image = some name; labels = some labels });
  state = some (record { status = some status; health = none });
  host_config = none;
  networks = none;
  mounts = none;
}

abbrev pub db : Container
db = container (codes "db") (codes "running") []

abbrev pub api : Container
api = container (codes "api") (codes "running") ((tugtainer_depends_on_label, codes " db:x ,") ∷ [])

abbrev pub guarded : Container
guarded = container (codes "g") (codes "running") ((tugtainer_protected_label, codes "TRUE") ∷ [])

-- It needs itself.
abbrev pub selfish : Container
selfish = container (codes "s") (codes "running") ((tugtainer_depends_on_label, codes "s") ∷ [])

abbrev pub row : Text → (available : Bool) → ContainersModel
row name available = record {
  host_id = 1;
  name = name;
  check_enabled = true;
  update_enabled = true;
  update_available = available;
  checked_at = none;
  updated_at = none;
  remote_digests_changed_at = some 5;
  delay_update_for = none;
  image_id = none;
  local_digests = none;
  remote_digests = none;
}

abbrev pub host : HostsModel
host = record {
  id = 1;
  name = codes "h";
  enabled = true;
  prune = false;
  prune_all = false;
  url = codes "http://agent:8001";
  secret = none;
  ssl = true;
  timeout = 5;
  container_hc_timeout = 60;
}
