-- ===== src/Inspect.antt =====
-- The fields of python_on_whales' `ContainerInspectResult` and `ImageInspectResult` that the code reads.
-- A name is never missing, as the code assumes by its casts.
use tugtainer.Base.{ℕ, ℤ, Bool, Option, none, List, Text, Dict}
use tugtainer.Value.{Value, null}

-- `Path` of pathlib, by what `str` makes of it.
pub record FilePath : Type 0 where
  pub path : Text

-- `list[str] | str`
pub data Command : Type 0 where
  one : Text → Command
  many : List Text → Command

pub record HealthCheck : Type 0 where
  pub test : Option Command
  pub interval : Option ℕ
  pub timeout : Option ℕ
  pub retries : Option ℕ
  pub start_period : Option ℕ

pub record Device : Type 0 where
  pub path_on_host : Option Text
  pub path_in_container : Option Text
  pub cgroup_permissions : Option Text

-- A group of capabilities may be a list or a text.
pub record DeviceRequest : Type 0 where
  pub driver : Option Text
  pub count : Option ℤ
  pub device_ids : Option (List Text)
  pub capabilities : Option (List Command)
  pub options : Option (Dict Text)

pub record LogConfig : Type 0 where
  pub type : Option Text
  pub config : Option (Dict Text)

pub record Mount : Type 0 where
  pub type : Option Text
  pub name : Option Text
  pub source : Option Text
  pub destination : Option Text
  pub driver : Option Text
  pub mode : Option Text
  pub rw : Option Bool
  pub propagation : Option Text

pub record RestartPolicy : Type 0 where
  pub name : Option Text
  pub maximum_retry_count : Option ℕ

pub record Ulimit : Type 0 where
  pub name : Option Text
  pub soft : Option ℤ
  pub hard : Option ℤ

pub record Health : Type 0 where
  pub status : Option Text

pub record State : Type 0 where
  pub status : Option Text
  pub health : Option Health

pub record ContainerConfig : Type 0 where
  pub image : Option Text
  pub labels : Option (Dict Text)
  pub hostname : Option Text
  pub mac_address : Option Text
  pub entrypoint : Option Command
  pub cmd : Option Command
  pub env : Option (List Text)
  pub healthcheck : Option HealthCheck
  pub working_dir : Option FilePath
  pub domainname : Value
  pub stop_signal : Value
  pub stop_timeout : Value
  pub systemd_mode : Value
  pub user : Value

pub record PortBinding : Type 0 where
  pub host_ip : Option Text
  pub host_port : Option Text

pub record HostConfig : Type 0 where
  pub dns : Option (List Text)
  pub dns_options : Option (List Text)
  pub dns_search : Option (List Text)
  pub links : Option (List Text)
  pub network_mode : Option Text
  pub port_bindings : Option (Dict (Option (List PortBinding)))
  pub publish_all_ports : Option Bool
  pub cgroup_parent : Option FilePath
  pub devices : Option (List Device)
  pub device_requests : Option (List DeviceRequest)
  pub log_config : Option LogConfig
  pub oom_kill_disable : Option Bool
  pub restart_policy : Option RestartPolicy
  pub tmpfs : Option (Dict Text)
  pub ulimits : Option (List Ulimit)
  pub userns_mode : Option Text
  pub uts_mode : Option Text
  -- Handed on as they are.
  pub blkio_weight : Value
  pub blkio_weight_device : Value
  pub cap_add : Value
  pub cap_drop : Value
  pub cpu_period : Value
  pub cpu_quota : Value
  pub cpu_realtime_period : Value
  pub cpu_realtime_runtime : Value
  pub cpu_shares : Value
  pub cpu_count : Value
  pub cpuset_cpus : Value
  pub cpuset_mems : Value
  pub device_cgroup_rules : Value
  pub blkio_device_read_bps : Value
  pub blkio_device_read_iops : Value
  pub blkio_device_write_bps : Value
  pub blkio_device_write_iops : Value
  pub cgroupns_mode : Value
  pub group_add : Value
  pub ipc_mode : Value
  pub isolation : Value
  pub kernel_memory : Value
  pub memory : Value
  pub memory_reservation : Value
  pub memory_swap : Value
  pub memory_swappiness : Value
  pub oom_score_adj : Value
  pub pids_limit : Value
  pub privileged : Value
  pub readonly_rootfs : Value
  pub runtime : Value
  pub security_opt : Value
  pub shm_size : Value
  pub storage_opt : Value
  pub sysctls : Value
  pub volume_driver : Value
  pub volumes_from : Value

pub record IpamConfig : Type 0 where
  pub ipv4_address : Option Text
  pub ipv6_address : Option Text

pub record Endpoint : Type 0 where
  pub aliases : Option (List Text)
  pub links : Option (List Text)
  pub ipam_config : Option IpamConfig
  pub mac_address : Option Text

pub record Container : Type 0 where
  pub id : Option Text
  pub name : Text
  pub image : Option Text
  pub config : Option ContainerConfig
  pub state : Option State
  pub host_config : Option HostConfig
  pub networks : Option (Dict Endpoint)
  pub mounts : Option (List Mount)

pub record ImageConfig : Type 0 where
  pub entrypoint : Option Command
  pub cmd : Option Command
  pub working_dir : Option FilePath
  pub labels : Option (Dict Text)

-- What `docker inspect` of an image yields, as far as the code reads it.
pub record Image : Type 0 where
  pub id : Option Text
  pub repo_digests : Option (List Text)
  pub config : Option ImageConfig

-- `ContainerConfig()` and `ContainerHostConfig()`: nothing is set.
abbrev pub no_config : ContainerConfig
no_config = record {
  image = none;
  labels = none;
  hostname = none;
  mac_address = none;
  entrypoint = none;
  cmd = none;
  env = none;
  healthcheck = none;
  working_dir = none;
  domainname = null;
  stop_signal = null;
  stop_timeout = null;
  systemd_mode = null;
  user = null;
}

abbrev pub no_host_config : HostConfig
no_host_config = record {
  dns = none;
  dns_options = none;
  dns_search = none;
  links = none;
  network_mode = none;
  port_bindings = none;
  publish_all_ports = none;
  cgroup_parent = none;
  devices = none;
  device_requests = none;
  log_config = none;
  oom_kill_disable = none;
  restart_policy = none;
  tmpfs = none;
  ulimits = none;
  userns_mode = none;
  uts_mode = none;
  blkio_weight = null;
  blkio_weight_device = null;
  cap_add = null;
  cap_drop = null;
  cpu_period = null;
  cpu_quota = null;
  cpu_realtime_period = null;
  cpu_realtime_runtime = null;
  cpu_shares = null;
  cpu_count = null;
  cpuset_cpus = null;
  cpuset_mems = null;
  device_cgroup_rules = null;
  blkio_device_read_bps = null;
  blkio_device_read_iops = null;
  blkio_device_write_bps = null;
  blkio_device_write_iops = null;
  cgroupns_mode = null;
  group_add = null;
  ipc_mode = null;
  isolation = null;
  kernel_memory = null;
  memory = null;
  memory_reservation = null;
  memory_swap = null;
  memory_swappiness = null;
  oom_score_adj = null;
  pids_limit = null;
  privileged = null;
  readonly_rootfs = null;
  runtime = null;
  security_opt = null;
  shm_size = null;
  storage_opt = null;
  sysctls = null;
  volume_driver = null;
  volumes_from = null;
}
