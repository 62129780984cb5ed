-- ===== src/Create/Dictionary.antt =====
-- The keyword arguments that a container is created with, of
-- backend/core/container_util/container_config.py: the dictionary before empty values are dropped.
use tugtainer.Base.{false, not, Option, List, [], ◌∷◌, ◌++◌, Text, Dict, codes, or_else, map}
use tugtainer.Inspect.{Container, ContainerConfig, HostConfig, Image}
use tugtainer.Net.{NetKwargs, config_of, host_config_of}
use tugtainer.Net.Ports.{PortMapping}
use tugtainer.Value.{Value, bool, text, texts, lists, dict, opt_text, opt_texts}
use tugtainer.Create.Fields.{
  map_env_to_dict, map_devices_to_list, map_tmpfs_dict_to_list, map_ulimits_to_arg,
  map_log_config_to_kwargs, map_healthcheck_to_kwargs, filter_cli_safe_labels,
  get_container_restart_policy_str, normalize_ns_mode, normalize_path,
}
use tugtainer.Create.Gpus.{map_device_requests_to_gpus}
use tugtainer.Create.Mounts.{map_mounts_to_arg}
use tugtainer.Create.Process.{
  Process, process_of, workdir_of, to_list, image_config, image_entrypoint, image_cmd,
}

abbrev port_value : PortMapping → List Text
port_value p = p.host ∷ p.container_port ∷ p.proto ∷ []

-- `**NET_KWARGS`
abbrev pub net_values : NetKwargs → Dict Value
net_values net =
    (codes "dns", texts net.dns)
    ∷ (codes "dns_options", texts net.dns_options)
    ∷ (codes "dns_search", texts net.dns_search)
    ∷ (codes "hostname", opt_text net.hostname)
    ∷ (codes "ip", opt_text net.ip)
    ∷ (codes "ip6", opt_text net.ip6)
    ∷ (codes "link", texts net.link)
    ∷ (codes "mac_address", opt_text net.mac_address)
    ∷ (codes "networks", texts net.networks)
    ∷ (codes "network_aliases", texts net.network_aliases)
    ∷ (codes "publish", lists (map port_value net.publish))
    ∷ (codes "publish_all", bool net.publish_all)
    ∷ []

abbrev pub first_values : Container → ContainerConfig → HostConfig → Process → Dict Value
first_values container config host_config process =
    (codes "image", opt_text config.image)
    ∷ (codes "name", text container.name)
    ∷ (codes "blkio_weight", host_config.blkio_weight)
    ∷ (codes "blkio_weight_device", host_config.blkio_weight_device)
    ∷ (codes "command", opt_texts process.command)
    ∷ (codes "cap_add", host_config.cap_add)
    ∷ (codes "cap_drop", host_config.cap_drop)
    ∷ (codes "cgroup_parent", opt_text (normalize_path host_config.cgroup_parent))
    ∷ (codes "cgroupns", host_config.cgroupns_mode)
    ∷ (codes "cpu_period", host_config.cpu_period)
    ∷ (codes "cpu_quota", host_config.cpu_quota)
    ∷ (codes "cpu_rt_period", host_config.cpu_realtime_period)
    ∷ (codes "cpu_rt_runtime", host_config.cpu_realtime_runtime)
    ∷ (codes "cpu_shares", host_config.cpu_shares)
    ∷ (codes "cpus", host_config.cpu_count)
    ∷ (codes "cpuset_cpus", host_config.cpuset_cpus)
    ∷ (codes "cpuset_mems", host_config.cpuset_mems)
    ∷ (codes "devices", texts (map_devices_to_list host_config.devices))
    ∷ (codes "device_cgroup_rules", host_config.device_cgroup_rules)
    ∷ (codes "device_read_bps", host_config.blkio_device_read_bps)
    ∷ (codes "device_read_iops", host_config.blkio_device_read_iops)
    ∷ (codes "device_write_bps", host_config.blkio_device_write_bps)
    ∷ (codes "device_write_iops", host_config.blkio_device_write_iops)
    ∷ []

abbrev pub environment_values : ContainerConfig → HostConfig → Process → Dict Value
environment_values config host_config process =
    (codes "domainname", config.domainname)
    ∷ (codes "entrypoint", opt_text process.entrypoint)
    ∷ (codes "envs", dict (map_env_to_dict config.env))
    ∷ (codes "gpus", opt_text (map_device_requests_to_gpus host_config.device_requests))
    ∷ (codes "groups_add", host_config.group_add)
    ∷ []

abbrev pub label_values : ContainerConfig → HostConfig → Dict Value
label_values config host_config =
    (codes "ipc", host_config.ipc_mode)
    ∷ (codes "isolation", host_config.isolation)
    ∷ (codes "kernel_memory", host_config.kernel_memory)
    ∷ (codes "labels", dict (filter_cli_safe_labels (or_else config.labels [])).0)
    ∷ []

abbrev pub limit_values : Container → ContainerConfig → HostConfig → Option Text → Dict Value
limit_values container config host_config workdir =
    (codes "memory", host_config.memory)
    ∷ (codes "memory_reservation", host_config.memory_reservation)
    ∷ (codes "memory_swap", host_config.memory_swap)
    ∷ (codes "memory_swappiness", host_config.memory_swappiness)
    ∷ (codes "mounts", lists (map_mounts_to_arg container.mounts))
    ∷ (codes "oom_kill", bool (not (or_else host_config.oom_kill_disable false)))
    ∷ (codes "oom_score_adj", host_config.oom_score_adj)
    ∷ (codes "pids_limit", host_config.pids_limit)
    ∷ (codes "privileged", host_config.privileged)
    ∷ (codes "read_only", host_config.readonly_rootfs)
    ∷ (codes "restart", opt_text (get_container_restart_policy_str host_config.restart_policy))
    ∷ (codes "runtime", host_config.runtime)
    ∷ (codes "security_options", host_config.security_opt)
    ∷ (codes "shm_size", host_config.shm_size)
    ∷ (codes "stop_signal", config.stop_signal)
    ∷ (codes "stop_timeout", config.stop_timeout)
    ∷ (codes "storage_options", host_config.storage_opt)
    ∷ (codes "sysctl", host_config.sysctls)
    ∷ (codes "systemd", config.systemd_mode)
    ∷ (codes "tmpfs", texts (map_tmpfs_dict_to_list host_config.tmpfs))
    ∷ (codes "ulimit", texts (map_ulimits_to_arg host_config.ulimits))
    ∷ (codes "user", config.user)
    ∷ (codes "userns", opt_text (normalize_ns_mode host_config.userns_mode))
    ∷ (codes "uts", opt_text (normalize_ns_mode host_config.uts_mode))
    ∷ (codes "volume_driver", host_config.volume_driver)
    ∷ (codes "volumes_from", host_config.volumes_from)
    ∷ (codes "workdir", opt_text workdir)
    ∷ []

abbrev pub process_from : ContainerConfig → Option Image → Process
process_from config image =
    process_of (to_list config.entrypoint) (to_list config.cmd)
      (image_entrypoint (image_config image)) (image_cmd (image_config image))

-- The pieces of `config_dict`, with what came of the networks and of the health check.
abbrev pub assembled : Container → Option Image → NetKwargs → (health : Dict Value) → Dict Value
assembled container image net health =
    let config = config_of container.config in
    let host_config = host_config_of container.host_config in
    let process = process_from config image in
    let workdir = workdir_of (image_config image) config.working_dir in
    first_values container config host_config process
    ++ (net_values net
        ++ (environment_values config host_config process
            ++ (health
                ++ (label_values config host_config
                    ++ (map_log_config_to_kwargs host_config.log_config
                        ++ limit_values container config host_config workdir)))))

unfoldable pub config_dict : Container → Option Image → NetKwargs → Dict Value
unfolding map_env_to_dict map_devices_to_list map_tmpfs_dict_to_list map_ulimits_to_arg
    map_log_config_to_kwargs map_healthcheck_to_kwargs filter_cli_safe_labels
    get_container_restart_policy_str normalize_ns_mode normalize_path map_device_requests_to_gpus
    map_mounts_to_arg process_of workdir_of
config_dict container image net =
    assembled container image net
      (map_healthcheck_to_kwargs (config_of container.config).healthcheck)
