-- ===== src/Examples/Networks.antt =====
-- A container on two networks.
use mathlib.Core.List.{Memᴰ}
use tugtainer.Base.{
  ◌≡◌, refl, lookup, ◌==◌, List, ◌⊎◌, ◌&&◌, Bool, false, none, some, [], ◌∷◌, Text, codes, all,
  or_else,
}
use tugtainer.Docker.{Container, Endpoint}
use tugtainer.Command.{is_alias, is_docker_name, command_validator}
use tugtainer.Command.Accepted.{no_links, ips_pass, command_validator-connect_command}
use tugtainer.Net.Connected.{read_connect, connection_of}
use tugtainer.Net.{connect_command, get_container_net_kwargs}
use tugtainer.Net.Attached.{IsCreatedIn, get_container_net_kwargs_attached}
use tugtainer.Examples.Containers.{api}

abbrev plain : Endpoint
plain = record {
  aliases = some (codes "a" ∷ []);
  links = none;
  ipam_config = none;
  mac_address = none;
}

abbrev linked : Endpoint
linked = record plain { links = some (codes "db:db" ∷ []) }

abbrev attached : Container
attached = record api { networks = some ((codes "n", plain) ∷ (codes "m", linked) ∷ []) }

-- An address test that knows no address.
abbrev is_ip : Text → Bool
is_ip s = false

command_validator-connect_command_example :
    command_validator is_ip (connect_command (codes "api") (codes "m") linked) ≡ (
      all is_alias (or_else linked.aliases [])
      && (no_links linked.links
          && (ips_pass is_ip linked.ipam_config
              && (is_docker_name (codes "m") && is_docker_name (codes "api")))))
command_validator-connect_command_example =
    command_validator-connect_command is_ip (codes "api") (codes "m") linked

found : lookup (codes "m") (or_else attached.networks []) ≡ some linked
unfolding lookup ◌==◌
found = refl

get_container_net_kwargs_attached_example :
    IsCreatedIn attached (codes "m") linked (get_container_net_kwargs attached false).0
    ⊎ (command : List Text) × Memᴰ command (get_container_net_kwargs attached false).1
      × (read_connect command ≡ some (connection_of attached.name (codes "m") linked))
get_container_net_kwargs_attached_example =
    get_container_net_kwargs_attached attached false (codes "m") linked found
