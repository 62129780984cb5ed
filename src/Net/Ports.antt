-- ===== src/Net/Ports.antt =====
-- backend/core/container_util/map_port_bindings_to_list.py
use tugtainer.Base.{
  Option, none, some, List, [], ◌∷◌, ◌++◌, Text, Dict, codes, has_char, eqb, or_else, if◌then◌else◌,
}
use tugtainer.Docker.{PortBinding, truthy}

-- ValidPortMapping, with a host part, a container port and a protocol.
pub record PortMapping : Type 0 where
  pub host : Text
  pub container_port : Text
  pub proto : Text

-- `s.split("/", 1)`, or `s, "tcp"` where there is no slash.
unfoldable pub split_proto : Text → Text × Text
split_proto [] = ([], codes "tcp")
split_proto (c ∷ s) =
    let (port, proto) = split_proto s in if eqb c b'/' then ([], s) else (c ∷ port, proto)

abbrev pub host_str : Option Text → Text → Text
host_str none host_port = host_port
host_str (some host_ip) host_port =
    if has_char b':' host_ip
    then codes "[" ++ host_ip ++ codes "]:" ++ host_port
    else host_ip ++ codes ":" ++ host_port

abbrev map_entry : Text → Option Text → Option Text → List PortMapping → List PortMapping
map_entry port none host_ip rest = rest
map_entry port (some host_port) host_ip rest =
    let (container_port, proto) = split_proto port in
    record { host = host_str host_ip host_port; container_port = container_port; proto = proto }
    ∷ rest

unfoldable pub map_entries : Text → List PortBinding → List PortMapping
unfolding split_proto
map_entries port [] = []
map_entries port (entry ∷ entries) =
    map_entry port (truthy entry.host_port) (truthy entry.host_ip) (map_entries port entries)

unfoldable pub map_bindings : Dict (Option (List PortBinding)) → List PortMapping
unfolding map_entries
map_bindings [] = []
map_bindings ((port, entries) ∷ bindings) =
    map_entries port (or_else entries []) ++ map_bindings bindings

unfoldable pub map_port_bindings_to_list :
    Option (Dict (Option (List PortBinding))) → List PortMapping
unfolding map_bindings
map_port_bindings_to_list bindings = map_bindings (or_else bindings [])
