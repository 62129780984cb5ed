-- ===== src/Net/Connected.antt =====
-- What a command `docker network connect` asks for, read from its arguments: the description of the commands of
-- backend/core/container_util/get_container_net_kwargs.py.
use mathlib.Core.List.{append-nil}
use tugtainer.Base.{
  ◌≡◌, refl, ◌∙◌, ap, arith, ◌&&◌, Option, none, some, List, [], ◌∷◌, ◌++◌, Text, codes, ◌==◌,
  or_else, if◌then◌else◌,
}
use tugtainer.Docker.{Endpoint, IpamConfig, truthy}
use tugtainer.Net.{flags, flag_if, ip_flags, connect_command}

pub record Connection : Type 0 where
  pub aliases : List Text
  pub links : List Text
  pub ip : Option Text
  pub ip6 : Option Text
  pub network : Text
  pub container : Text

-- A flag with its value before other arguments. Of an address the first one counts.
abbrev with_flag : (flag value : Text) → Option Connection → Option Connection
with_flag flag value none = none
with_flag flag value (some c) =
    if flag == codes "--alias"
    then some (record c { aliases = value ∷ c.aliases })
    else if flag == codes "--link"
    then some (record c { links = value ∷ c.links })
    else if flag == codes "--ip"
    then some (record c { ip = some value })
    else if flag == codes "--ip6"
    then some (record c { ip6 = some value })
    else none

abbrev bare : (network container : Text) → Connection
bare network container = record {
  aliases = [];
  links = [];
  ip = none;
  ip6 = none;
  network = network;
  container = container;
}

-- The last two arguments are the network and the container.
unfoldable arguments : List Text → Option Connection
arguments [] = none
arguments (flag ∷ []) = none
arguments (network ∷ container ∷ []) = some (bare network container)
arguments (flag ∷ value ∷ x ∷ rest) = with_flag flag value (arguments (x ∷ rest))

unfoldable pub read_connect : List Text → Option Connection
unfolding arguments
read_connect [] = none
read_connect (first ∷ []) = none
read_connect (first ∷ second ∷ rest) =
    if first == codes "network" && second == codes "connect" then arguments rest else none

-- What an endpoint has.
abbrev ip_in : Option IpamConfig → Option Text
ip_in none = none
ip_in (some ipam) = truthy ipam.ipv4_address

abbrev ip6_in : Option IpamConfig → Option Text
ip6_in none = none
ip6_in (some ipam) = truthy ipam.ipv6_address

abbrev pub connection_of : (container network : Text) → Endpoint → Connection
connection_of container network endpoint = record {
  aliases = or_else endpoint.aliases [];
  links = or_else endpoint.links [];
  ip = ip_in endpoint.ipam_config;
  ip6 = ip6_in endpoint.ipam_config;
  network = network;
  container = container;
}

arguments-flag :
    (flag value : Text) (rest : List Text) (c : Connection)
    → arguments rest ≡ some c
    → arguments (flag ∷ value ∷ rest) ≡ with_flag flag value (some c)
unfolding arguments
arguments-flag flag value [] c h = absurd (ground (arith, h))
arguments-flag flag value (x ∷ rest) c h = ap (with_flag flag value) h

arguments-aliases :
    (values rest : List Text) (c : Connection)
    → arguments rest ≡ some c
    → arguments (flags (codes "--alias") values ++ rest)
      ≡ some (record c { aliases = values ++ c.aliases })
unfolding flags ◌==◌
arguments-aliases [] rest c h = h
arguments-aliases (value ∷ values) rest c h =
    arguments-flag (codes "--alias") value _ _ (arguments-aliases values rest c h)

arguments-links :
    (values rest : List Text) (c : Connection)
    → arguments rest ≡ some c
    → arguments (flags (codes "--link") values ++ rest)
      ≡ some (record c { links = values ++ c.links })
unfolding flags ◌==◌
arguments-links [] rest c h = h
arguments-links (value ∷ values) rest c h =
    arguments-flag (codes "--link") value _ _ (arguments-links values rest c h)

arguments-ips :
    (ip ip6 : Option Text) (network container : Text)
    → arguments
        ((flag_if (codes "--ip") ip ++ flag_if (codes "--ip6") ip6) ++ network ∷ container ∷ [])
      ≡ some (record (bare network container) { ip = ip; ip6 = ip6 })
unfolding arguments ◌==◌
arguments-ips none none network container = refl
arguments-ips none (some ip6) network container = refl
arguments-ips (some ip) none network container = refl
arguments-ips (some ip) (some ip6) network container = refl

arguments-ipam :
    (ipam : Option IpamConfig) (network container : Text)
    → arguments (ip_flags ipam ++ network ∷ container ∷ [])
      ≡ some (record (bare network container) { ip = ip_in ipam; ip6 = ip6_in ipam })
arguments-ipam none network container = arguments-ips none none network container
arguments-ipam (some ipam) network container =
    arguments-ips (truthy ipam.ipv4_address) (truthy ipam.ipv6_address) network container

-- The command for a network asks for the aliases, links and addresses of its endpoint.
pub read_connect-connect_command :
    (container network : Text) (endpoint : Endpoint)
    → read_connect (connect_command container network endpoint)
      ≡ some (connection_of container network endpoint)
unfolding read_connect connect_command ◌==◌
read_connect-connect_command container network endpoint =
    arguments-aliases (or_else endpoint.aliases []) _ _ (
      arguments-links (or_else endpoint.links []) _ _
        (arguments-ipam endpoint.ipam_config network container))
    ∙ rw (append-nil (or_else endpoint.aliases []), append-nil (or_else endpoint.links [])) refl
