-- ===== src/Create/Fields.antt =====
-- The small mappers of backend/core/container_util, from what `docker inspect` shows to what
-- `docker create` takes: environment, devices, tmpfs, limits, logs, health check, labels, modes and
-- paths.
use tugtainer.Base.{
  ℕ, ◌/◌, eqb, Bool, true, false, not, ◌&&◌, ◌||◌, Option, none, some, List, [], ◌∷◌, ◌++◌, Text,
  Dict, codes, lower, upper, drop, starts_with, has_char, ◌==◌, is_empty, put, or_else, join, str,
  pos, decimal, if◌then◌else◌,
}
use tugtainer.Docker.{truthy}
use tugtainer.Inspect.{
  FilePath, Command, one, many, HealthCheck, Device, LogConfig, RestartPolicy, Ulimit,
}
use tugtainer.Value.{Value, null, bool, number, text, texts, opt_text}

-- `k, v = e.split("=", 1)`, of a text with an "=" in it.
unfoldable pub split_pair : Text → Text × Text
split_pair [] = ([], [])
split_pair (c ∷ s) = let (k, v) = split_pair s in if eqb c b'=' then ([], s) else (c ∷ k, v)

-- The loop of map_env_to_dict.
unfoldable pub env_from : Dict Text → List Text → Dict Text
unfolding split_pair
env_from env [] = env
env_from env (e ∷ es) =
    env_from (if has_char b'=' e then put (split_pair e).0 (split_pair e).1 env else env) es

unfoldable pub map_env_to_dict : Option (List Text) → Dict Text
unfolding env_from
map_env_to_dict env = env_from [] (or_else env [])

abbrev device_of : Option Text → Option Text → Text → List Text → List Text
device_of none inside permissions rest = rest
device_of (some on_host) none permissions rest = rest
device_of (some on_host) (some inside) permissions rest =
    (on_host ++ (codes ":" ++ (inside ++ (codes ":" ++ permissions)))) ∷ rest

unfoldable pub map_devices : List Device → List Text
map_devices [] = []
map_devices (dev ∷ devices) =
    device_of (truthy dev.path_on_host) (truthy dev.path_in_container)
      (or_else (truthy dev.cgroup_permissions) (codes "rwm")) (map_devices devices)

unfoldable pub map_devices_to_list : Option (List Device) → List Text
unfolding map_devices
map_devices_to_list devices = map_devices (or_else devices [])

unfoldable pub map_tmpfs : Dict Text → List Text
map_tmpfs [] = []
map_tmpfs ((k, v) ∷ tmpfs) = (if is_empty v then k else k ++ (codes ":" ++ v)) ∷ map_tmpfs tmpfs

unfoldable pub map_tmpfs_dict_to_list : Option (Dict Text) → List Text
unfolding map_tmpfs
map_tmpfs_dict_to_list tmpfs = map_tmpfs (or_else tmpfs [])

-- `name[len("RLIMIT_") :].lower()`, of Podman's names.
unfoldable pub ulimit_name : Text → Text
ulimit_name name = if starts_with (upper name) (codes "RLIMIT_") then lower (drop 7 name) else name

unfoldable pub map_ulimits : List Ulimit → List Text
unfolding ulimit_name
map_ulimits [] = []
map_ulimits (lim ∷ ulimits) =
    (ulimit_name (or_else lim.name [])
      ++ (codes "="
          ++ (str (or_else lim.soft (pos 0)) ++ (codes ":" ++ str (or_else lim.hard (pos 0))))))
    ∷ map_ulimits ulimits

unfoldable pub map_ulimits_to_arg : Option (List Ulimit) → List Text
unfolding map_ulimits
map_ulimits_to_arg ulimits = map_ulimits (or_else ulimits [])

-- `f"{k}={v}" for k, v in d.items()`
unfoldable pub pairs_of : Dict Text → List Text
pairs_of [] = []
pairs_of ((k, v) ∷ d) = (k ++ (codes "=" ++ v)) ∷ pairs_of d

abbrev log_config_of : Option LogConfig → LogConfig
log_config_of none = record { type = none; config = none }
log_config_of (some cfg) = cfg

unfoldable pub map_log_config_to_kwargs : Option LogConfig → Dict Value
unfolding pairs_of
map_log_config_to_kwargs cfg =
    (codes "log_driver", opt_text (log_config_of cfg).type)
    ∷ (codes "log_options", texts (pairs_of (or_else (log_config_of cfg).config [])))
    ∷ []

abbrev opt_number : Option ℕ → Value
opt_number none = null
opt_number (some n) = number (pos n)

-- `int(ns / 1_000_000_000) if ns else None`: exact below 2 ^ 23 seconds, where the quotient of floats
-- does not round up to a whole number.
unfoldable pub ns_to_sec : Option ℕ → Value
ns_to_sec none = null
ns_to_sec (some ns) = if eqb ns 0 then null else number (pos (ns / 1_000_000_000))

unfoldable pub health_cmd_of : Option Command → Value
health_cmd_of none = null
health_cmd_of (some (one test)) = null
health_cmd_of (some (many [])) = null
health_cmd_of (some (many (head ∷ []))) = null
health_cmd_of (some (many (head ∷ next ∷ rest))) = text (
    join (codes " ") (
      if head == codes "CMD" || head == codes "CMD-SHELL" then next ∷ rest else head ∷ next ∷ rest))

unfoldable pub map_healthcheck_to_kwargs : Option HealthCheck → Dict Value
unfolding health_cmd_of ns_to_sec
map_healthcheck_to_kwargs none = (codes "healthcheck", bool false) ∷ []
map_healthcheck_to_kwargs (some cfg) =
    (codes "healthcheck", bool true)
    ∷ (codes "health_cmd", health_cmd_of cfg.test)
    ∷ (codes "health_interval", ns_to_sec cfg.interval)
    ∷ (codes "health_timeout", ns_to_sec cfg.timeout)
    ∷ (codes "health_retries", opt_number cfg.retries)
    ∷ (codes "health_start_period", ns_to_sec cfg.start_period)
    ∷ []

-- A key that the CLI of docker takes: not empty, without a space or a tab.
unfoldable pub is_safe : Text → Bool
is_safe key = not (is_empty key) && (not (has_char b' ' key) && not (has_char 9 key))

-- The accepted and the rejected labels.
unfoldable pub filter_cli_safe_labels : Dict Text → Dict Text × Dict Text
unfolding is_safe
filter_cli_safe_labels [] = ([], [])
filter_cli_safe_labels ((key, value) ∷ labels) =
    let (accepted, rejected) = filter_cli_safe_labels labels in
    if is_safe key then ((key, value) ∷ accepted, rejected) else (accepted, (key, value) ∷ rejected)

abbrev retries_of : Option ℕ → Text
retries_of none = []
retries_of (some n) = if eqb n 0 then [] else codes ":" ++ decimal n

abbrev policy_str : Option Text → Option ℕ → Option Text
policy_str none count = none
policy_str (some name) count = some (name ++ retries_of count)

unfoldable pub get_container_restart_policy_str : Option RestartPolicy → Option Text
get_container_restart_policy_str none = none
get_container_restart_policy_str (some policy) =
    policy_str (truthy policy.name) policy.maximum_retry_count

unfoldable pub normalize_ns_mode : Option Text → Option Text
normalize_ns_mode none = none
normalize_ns_mode (some mode) = if is_empty mode || mode == codes "private" then none else some mode

-- normalize_path, of a `Path`: an empty path is ".".
unfoldable pub normalize_path : Option FilePath → Option Text
normalize_path none = none
normalize_path (some p) = if p.path == codes "." then none else some p.path
