-- ===== src/Create/Schema.antt =====
-- `CreateContainerRequestBodySchema` of shared/schemas/container_schemas.py: its fields, and what pydantic makes of
-- a dictionary by them.
use tugtainer.Base.{
  ◌≡◌, refl, sym, ap, ◌∙◌, arith, Bool, true, false, not, ◌&&◌, Option, none, some, some_inj, List,
  [], ◌∷◌, Text, Dict, codes, lookup, keys, elem, ◌==◌, eq_iff, Bool-cases, inl, inr,
}
use tugtainer.Exec.{Answer, value, error, invalid}
use tugtainer.Value.{Value, null, text, texts, dict, is_empty}
use tugtainer.Value.Kept.{is_dict, kept_value}

-- The types of the fields. All but the first may be `None`, which is the default; of the last the model knows
-- only the name.
pub data FieldType : Type 0 where
  required_str str_type str_list str_dict : FieldType
  other_type : Text → FieldType

unfoldable pub fields : Dict FieldType
fields =
    (codes "image", required_str)
    ∷ (codes "command", str_list)
    ∷ (codes "add_hosts", other_type (codes "tuple[str, str]"))
    ∷ (codes "blkio_weight", other_type (codes "int"))
    ∷ (codes "blkio_weight_device", str_list)
    ∷ (codes "cap_add", str_list)
    ∷ (codes "cap_drop", str_list)
    ∷ (codes "cgroup_parent", str_type)
    ∷ (codes "cgroupns", str_type)
    ∷ (codes "cidfile", other_type (codes "ValidPath"))
    ∷ (codes "cpu_period", other_type (codes "int"))
    ∷ (codes "cpu_quota", other_type (codes "int"))
    ∷ (codes "cpu_rt_period", other_type (codes "int"))
    ∷ (codes "cpu_rt_runtime", other_type (codes "int"))
    ∷ (codes "cpu_shares", other_type (codes "int"))
    ∷ (codes "cpus", other_type (codes "float"))
    ∷ (codes "cpuset_cpus", other_type (codes "list[int]"))
    ∷ (codes "cpuset_mems", other_type (codes "list[int]"))
    ∷ (codes "detach", other_type (codes "bool"))
    ∷ (codes "devices", str_list)
    ∷ (codes "device_cgroup_rules", str_list)
    ∷ (codes "device_read_bps", str_list)
    ∷ (codes "device_read_iops", str_list)
    ∷ (codes "device_write_bps", str_list)
    ∷ (codes "device_write_iops", str_list)
    ∷ (codes "content_trust", other_type (codes "bool"))
    ∷ (codes "dns", str_list)
    ∷ (codes "dns_options", str_list)
    ∷ (codes "dns_search", str_list)
    ∷ (codes "domainname", str_type)
    ∷ (codes "entrypoint", str_type)
    ∷ (codes "envs", str_dict)
    ∷ (codes "env_files", other_type (codes "ValidPath | list[ValidPath]"))
    ∷ (codes "env_host", other_type (codes "bool"))
    ∷ (codes "expose", other_type (codes "int | list[int]"))
    ∷ (codes "gpus", other_type (codes "int | str"))
    ∷ (codes "groups_add", str_list)
    ∷ (codes "healthcheck", other_type (codes "bool"))
    ∷ (codes "health_cmd", str_type)
    ∷ (codes "health_interval", other_type (codes "int"))
    ∷ (codes "health_retries", other_type (codes "int"))
    ∷ (codes "health_start_period", other_type (codes "int"))
    ∷ (codes "health_timeout", other_type (codes "int"))
    ∷ (codes "hostname", str_type)
    ∷ (codes "init", other_type (codes "bool"))
    ∷ (codes "interactive", other_type (codes "bool"))
    ∷ (codes "ip", str_type)
    ∷ (codes "ip6", str_type)
    ∷ (codes "ipc", str_type)
    ∷ (codes "isolation", str_type)
    ∷ (codes "kernel_memory", other_type (codes "int | str"))
    ∷ (codes "labels", str_dict)
    ∷ (codes "label_files", other_type (codes "list[ValidPath]"))
    ∷ (codes "link", str_list)
    ∷ (codes "link_local_ip", str_list)
    ∷ (codes "log_driver", str_type)
    ∷ (codes "log_options", str_list)
    ∷ (codes "mac_address", str_type)
    ∷ (codes "memory", other_type (codes "int | str"))
    ∷ (codes "memory_reservation", other_type (codes "int | str"))
    ∷ (codes "memory_swap", other_type (codes "int | str"))
    ∷ (codes "memory_swappiness", other_type (codes "int"))
    ∷ (codes "mounts", other_type (codes "list[list[str]]"))
    ∷ (codes "name", str_type)
    ∷ (codes "networks", str_list)
    ∷ (codes "network_aliases", str_list)
    ∷ (codes "oom_kill", other_type (codes "bool"))
    ∷ (codes "oom_score_adj", other_type (codes "int"))
    ∷ (codes "pid", str_type)
    ∷ (codes "pids_limit", other_type (codes "int"))
    ∷ (codes "platform", str_type)
    ∷ (codes "pod", str_type)
    ∷ (codes "privileged", other_type (codes "bool"))
    ∷ (codes "publish", other_type (codes "list[ValidPortMapping]"))
    ∷ (codes "publish_all", other_type (codes "bool"))
    ∷ (codes "pull", str_type)
    ∷ (codes "read_only", other_type (codes "bool"))
    ∷ (codes "restart", str_type)
    ∷ (codes "remove", other_type (codes "bool"))
    ∷ (codes "runtime", str_type)
    ∷ (codes "security_options", str_list)
    ∷ (codes "shm_size", other_type (codes "int | str"))
    ∷ (codes "sig_proxy", other_type (codes "bool"))
    ∷ (codes "stop_signal", other_type (codes "int | str"))
    ∷ (codes "stop_timeout", other_type (codes "int"))
    ∷ (codes "storage_options", str_list)
    ∷ (codes "sysctl", str_dict)
    ∷ (codes "systemd", other_type (codes "bool | Literal[\"always\"]"))
    ∷ (codes "tmpfs", other_type (codes "list[ValidPath]"))
    ∷ (codes "tty", other_type (codes "bool"))
    ∷ (codes "tz", str_type)
    ∷ (codes "ulimit", str_list)
    ∷ (codes "user", str_type)
    ∷ (codes "userns", str_type)
    ∷ (codes "uts", str_type)
    ∷ (
      codes "volumes",
      other_type (codes "list[tuple[ValidPath, ValidPath] | tuple[ValidPath, ValidPath, str]]"),
    )
    ∷ (codes "volume_driver", str_type)
    ∷ (codes "volumes_from", str_list)
    ∷ (codes "workdir", other_type (codes "ValidPath"))
    ∷ []

-- Whether a value is of a type as it stands.
abbrev pub fits : FieldType → Value → Bool
fits required_str (text s) = true
fits str_type null = true
fits str_type (text s) = true
fits str_list null = true
fits str_list (texts l) = true
fits str_dict null = true
fits str_dict (dict d) = true
fits t v = false

-- pydantic: what it makes of a value under a type, none where it raises `ValidationError`. A value of the type
-- stays as it is.
pub record Pydantic : Type 0 where
  pub parse : FieldType → Value → Option Value
  pub parse-fits : (t : FieldType) (v : Value) → fits t v ≡ true → parse t v ≡ some v

-- The value of each field, `None` where it was not set.
abbrev pub Body : Type 0
Body = Dict Value

abbrev pub with_field : Text → Option Value → Answer Body → Answer Body
with_field k none rest = error (invalid k)
with_field k (some v) (error e) = error e
with_field k (some v) (value body) = value ((k, v) ∷ body)

-- `model_dump()`
abbrev pub model_dump : Body → Dict Value
model_dump body = body

with_field_lem :
    (k : Text) (o : Option Value) (a : Answer Body) (body : Body)
    → with_field k o a ≡ value body
    → (v : Value) × (rest : Body) × (o ≡ some v) × (a ≡ value rest) × ((k, v) ∷ rest ≡ body)
with_field_lem k none a body h = absurd (ground (arith, h))
with_field_lem k (some v) (error e) body h = absurd (ground (arith, h))
with_field_lem k (some v) (value rest) body h = (v, rest, refl, refl, cc)

value_inj : {a b : Body} → value a ≡ value b → a ≡ b
value_inj h = cc

abbrev distinct : List Text → Bool
distinct [] = true
distinct (k ∷ ks) = not (elem k ks) && distinct ks

is_dict-keys {ℓ} : {V : Type ℓ} (d : Dict V) → is_dict d ≡ distinct (keys d)
unfolding keys
is_dict-keys [] = refl
is_dict-keys ((k, v) ∷ d) = rw (is_dict-keys d) refl

fields-IsDict : is_dict fields ≡ true
unfolding fields keys elem ◌==◌
fields-IsDict = refl

module _ (pydantic : Pydantic) where
  open pydantic use {parse, parse-fits}

  -- A field that the dictionary lacks has its default.
  abbrev field_value : FieldType → Option Value → Option Value
  field_value required_str none = none
  field_value t none = some null
  field_value t (some v) = parse t v

  abbrev pub parse_fields : Dict FieldType → Dict Value → Answer Body
  parse_fields [] cfg = value []
  parse_fields ((k, t) ∷ more) cfg =
      with_field k (field_value t (lookup k cfg)) (parse_fields more cfg)

  -- `model_validate`; a key that is no field is dropped.
  unfoldable pub model_validate : Dict Value → Answer Body
  unfolding fields lookup
  model_validate cfg = parse_fields fields cfg

  abbrev pub fits_given : FieldType → Option Value → Bool
  fits_given t none = true
  fits_given t (some v) = fits t v

  field_kept :
      (t : FieldType) (o : Option Value) (v : Value)
      → field_value t o ≡ some v
      → fits_given t o ≡ true
      → kept_value (some v) ≡ kept_value o
  unfolding is_empty
  field_kept required_str none v h f = absurd (ground (arith, h))
  field_kept str_type none v h f = ap kept_value (sym h)
  field_kept str_list none v h f = ap kept_value (sym h)
  field_kept str_dict none v h f = ap kept_value (sym h)
  field_kept (other_type name) none v h f = ap kept_value (sym h)
  field_kept t (some w) v h f = ap kept_value (sym h ∙ parse-fits t w f)

  lookup-parse_fields :
      (more : Dict FieldType) (cfg : Dict Value) (body : Body) (k : Text) (t : FieldType)
      → parse_fields more cfg ≡ value body
      → lookup k more ≡ some t
      → fits_given t (lookup k cfg) ≡ true
      → kept_value (lookup k body) ≡ kept_value (lookup k cfg)
  unfolding lookup
  lookup-parse_fields [] cfg body k t h found f = absurd (ground (arith, found))
  lookup-parse_fields ((j, u) ∷ more) cfg body k t h found f =
      let (v, rest, set, later, same_body) = with_field_lem j _ (parse_fields more cfg) body h in
      elim (Bool-cases (j == k)) [
        | inl same ↦
            rw (← same_body, same)
              (field_kept t (lookup k cfg) v
                (ap {B = Option Value} (λ (x : FieldType). field_value x (lookup k cfg))
                    (sym (some_inj (rw same at found)))
                  ∙ ap {B = Option Value} (λ (x : Text). field_value u (lookup x cfg))
                      (sym ((eq_iff j k).0 same))
                  ∙ set)
                f)
        | inr other ↦
            rw (← same_body, other)
              (lookup-parse_fields more cfg rest k t later (rw other at found) f)
      ]

  keys-parse_fields :
      (more : Dict FieldType) (cfg : Dict Value) (body : Body)
      → parse_fields more cfg ≡ value body
      → keys body ≡ keys more
  unfolding keys lookup
  keys-parse_fields [] cfg body h = ap {B = List Text} (λ (b : Body). keys b) (sym (value_inj h))
  keys-parse_fields ((j, u) ∷ more) cfg body h =
      let (v, rest, set, later, same_body) = with_field_lem j _ (parse_fields more cfg) body h in
      rw (← same_body) (ap (λ ks. j ∷ ks) (keys-parse_fields more cfg rest later))

  -- What was validated holds, under each field whose value is of its type, what was given.
  pub lookup-model_validate :
      (cfg : Dict Value) (body : Body) (k : Text) (t : FieldType)
      → model_validate cfg ≡ value body
      → lookup k fields ≡ some t
      → fits_given t (lookup k cfg) ≡ true
      → kept_value (lookup k (model_dump body)) ≡ kept_value (lookup k cfg)
  unfolding model_validate
  lookup-model_validate cfg body k t h found f = lookup-parse_fields fields cfg body k t h found f

  pub model_validate-IsDict :
      (cfg : Dict Value) (body : Body)
      → model_validate cfg ≡ value body
      → is_dict (model_dump body) ≡ true
  unfolding model_validate
  model_validate-IsDict cfg body h =
      is_dict-keys body
      ∙ ap distinct (keys-parse_fields fields cfg body h)
      ∙ sym (is_dict-keys fields)
      ∙ fields-IsDict
