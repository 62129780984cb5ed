-- ===== src/Net.antt =====
-- backend/core/container_util/get_container_net_kwargs.py: how a container that is made anew is attached to
-- its networks.
pub mod Ports
pub mod Connected
pub mod Attached
use tugtainer.Base.{
  ℕ, ◌≡◌, Bool, true, false, not, ◌&&◌, ◌||◌, Option, none, some, is_some, List, [], ◌∷◌, ◌++◌,
  Text, Dict, codes, ◌==◌, lookup, keys, or_else, is_empty, elem, select, starts_with,
  contains_text, if◌then◌else◌,
}
use tugtainer.Docker.{
  Container, ContainerConfig, HostConfig, Endpoint, IpamConfig, truthy, first_of, no_config,
  no_host_config,
}
use tugtainer.Net.Ports.{PortMapping, map_port_bindings_to_list}

-- The keyword arguments of the result.
pub record NetKwargs : Type 0 where
  pub dns : List Text
  pub dns_options : List Text
  pub dns_search : List Text
  pub hostname : Option Text
  pub ip : Option Text
  pub ip6 : Option Text
  pub link : List Text
  pub mac_address : Option Text
  pub networks : List Text
  pub network_aliases : List Text
  pub publish : List PortMapping
  pub publish_all : Bool

-- `container.host_config or ContainerHostConfig()`, and the same for the configuration.
abbrev pub host_config_of : Option HostConfig → HostConfig
host_config_of none = no_host_config
host_config_of (some h) = h

abbrev pub config_of : Option ContainerConfig → ContainerConfig
config_of none = no_config
config_of (some c) = c

-- `_cmd += [flag, value]` for each value.
unfoldable pub flags : Text → List Text → List Text
flags flag [] = []
flags flag (value ∷ values) = flag ∷ value ∷ flags flag values

abbrev pub flag_if : Text → Option Text → List Text
flag_if flag none = []
flag_if flag (some value) = flag ∷ value ∷ []

abbrev pub ip_flags : Option IpamConfig → List Text
ip_flags none = []
ip_flags (some ipam) =
    flag_if (codes "--ip") (truthy ipam.ipv4_address)
    ++ flag_if (codes "--ip6") (truthy ipam.ipv6_address)

-- The command for a network beside the main one.
unfoldable pub connect_command : Text → Text → Endpoint → List Text
unfolding flags
connect_command container_name net endpoint =
    codes "network"
    ∷ codes "connect"
    ∷ (flags (codes "--alias") (or_else endpoint.aliases [])
        ++ (flags (codes "--link") (or_else endpoint.links [])
            ++ (ip_flags endpoint.ipam_config ++ net ∷ container_name ∷ [])))

-- The loop over the networks: the commands, and the address that is kept where static addresses are used.
unfoldable pub connect_others : Text → Text → Dict Endpoint → List (List Text)
unfolding connect_command
connect_others container_name main [] = []
connect_others container_name main ((net, endpoint) ∷ networks) =
    let rest = connect_others container_name main networks in
    if net == main then rest else connect_command container_name net endpoint ∷ rest

abbrev mac_of : Option Text → Endpoint → Option Text
mac_of mac endpoint =
    if is_some endpoint.ipam_config then first_of (truthy mac) endpoint.mac_address else mac

unfoldable pub mac_address_of : Text → Option Text → Dict Endpoint → Option Text
mac_address_of main mac [] = mac
mac_address_of main mac ((net, endpoint) ∷ networks) =
    mac_address_of main (if net == main then mac else mac_of mac endpoint) networks

-- `NETWORK_MODE if NETWORK_MODE in networks else NETWORKS_KEYS[0]`
abbrev pub main_key : Option Text → Text → Dict Endpoint → Text
main_key none head networks = head
main_key (some mode) head networks = if elem mode (keys networks) then mode else head

-- "host", "none" or "container:<id>".
unfoldable pub is_unsupported : Option Text → Bool
is_unsupported none = false
is_unsupported (some mode) =
    mode == codes "host" || mode == codes "none" || starts_with mode (codes "container:")

abbrev cleared : NetKwargs → NetKwargs
cleared k = record {
  dns = [];
  dns_options = [];
  dns_search = [];
  hostname = none;
  ip = none;
  ip6 = none;
  link = [];
  mac_address = none;
  networks = k.networks;
  network_aliases = [];
  publish = [];
  publish_all = false;
}

abbrev pub or_list : List Text → List Text → List Text
or_list [] b = b
or_list (x ∷ xs) b = x ∷ xs

abbrev ipam_mac : ContainerConfig → Endpoint → Option Text
ipam_mac config endpoint =
    if is_some endpoint.ipam_config
    then first_of (truthy endpoint.mac_address) config.mac_address
    else none

abbrev ipam_ip : Option IpamConfig → Option Text
ipam_ip none = none
ipam_ip (some ipam) = ipam.ipv4_address

abbrev ipam_ip6 : Option IpamConfig → Option Text
ipam_ip6 none = none
ipam_ip6 (some ipam) = ipam.ipv6_address

-- The arguments before the values that do not go with the mode are dropped.
abbrev base : HostConfig → Option Text → NetKwargs
base host_config hostname = record {
  dns = or_else host_config.dns [];
  dns_options = or_else host_config.dns_options [];
  dns_search = or_else host_config.dns_search [];
  hostname = hostname;
  ip = none;
  ip6 = none;
  link = or_else host_config.links [];
  mac_address = none;
  networks = [];
  network_aliases = [];
  publish = map_port_bindings_to_list host_config.port_bindings;
  publish_all = or_else host_config.publish_all_ports false;
}

abbrev with_main : ContainerConfig → Text → Dict Endpoint → Endpoint → NetKwargs → NetKwargs
with_main config main networks endpoint k = record k {
  networks = main ∷ [];
  network_aliases = or_else endpoint.aliases [];
  link = or_list (or_else endpoint.links []) k.link;
  ip = ipam_ip endpoint.ipam_config;
  ip6 = ipam_ip6 endpoint.ipam_config;
  mac_address = mac_address_of main (ipam_mac config endpoint) networks;
}

-- The main network is one of those that are attached, so it is found.
abbrev attach : ContainerConfig → Text → Dict Endpoint → Option Endpoint → NetKwargs → NetKwargs
attach config main networks none k = k
attach config main networks (some endpoint) k = with_main config main networks endpoint k

abbrev only_mode : Option Text → NetKwargs → NetKwargs
only_mode none k = k
only_mode (some mode) k = record k { networks = mode ∷ [] }

abbrev attach_all : ContainerConfig → Option Text → Dict Endpoint → NetKwargs → NetKwargs
attach_all config mode [] k = only_mode (truthy mode) k
attach_all config mode ((net, endpoint) ∷ networks) k =
    let all_networks = (net, endpoint) ∷ networks in
    let main = main_key mode net all_networks in
    attach config main all_networks (lookup main all_networks) k

abbrev pub commands_for : Text → Option Text → Dict Endpoint → List (List Text)
commands_for container_name mode [] = []
commands_for container_name mode ((net, endpoint) ∷ networks) =
    connect_others container_name (main_key mode net ((net, endpoint) ∷ networks))
      ((net, endpoint) ∷ networks)

-- A generated hostname is a part of the identifier.
abbrev kept_hostname : Option Text → Text → Option Text
kept_hostname none id = none
kept_hostname (some hostname) id =
    if not (is_empty hostname) && contains_text id hostname then none else some hostname

-- `docker_client_api_version < version.parse("1.44")` is the parameter `is_old_api`.
unfoldable pub get_container_net_kwargs :
    Container → (is_old_api : Bool) → NetKwargs × List (List Text)
unfolding connect_others mac_address_of is_unsupported
get_container_net_kwargs container is_old_api =
    let config = config_of container.config in
    let host_config = host_config_of container.host_config in
    let mode = host_config.network_mode in
    let networks = or_else container.networks [] in
    let attached =
      attach_all config mode networks
        (base host_config (kept_hostname config.hostname (or_else container.id []))) in
    let fit = if is_unsupported mode then cleared attached else attached in
    (
      record fit { mac_address = if is_old_api then none else fit.mac_address },
      commands_for container.name mode networks,
    )
