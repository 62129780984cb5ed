-- ===== src/Net/Attached.antt =====
-- The networks that `get_container_net_kwargs` of backend/core/container_util/get_container_net_kwargs.py
-- gives back to a container.
use mathlib.Core.List.{Memᴰ}
use mathlib.Core.List.Memᴰ
use tugtainer.Base.{
  ◌≡◌, refl, sym, ap, ◌∙◌, ◌⊎◌, inl, inr, Bool, true, false, Option, none, some, some_inj, List, [],
  ◌∷◌, if◌then◌else◌, Text, Dict, ◌==◌, eq_iff, lookup, keys, or_else, elem, arith, Bool-cases,
  Option-cases,
}
use tugtainer.Docker.{Container, Endpoint, IpamConfig}
use tugtainer.Net.Connected.{read_connect, connection_of, read_connect-connect_command}
use tugtainer.Net.{
  NetKwargs, or_list, connect_command, connect_others, main_key, is_unsupported, host_config_of,
  commands_for, get_container_net_kwargs,
}

connect_others-mem :
    (name main net : Text) (e : Endpoint) (networks : Dict Endpoint)
    → Memᴰ (net, e) networks
    → (net == main) ≡ false
    → Memᴰ (connect_command name net e) (connect_others name main networks)
unfolding connect_others
connect_others-mem name main net e [] m h = absurd (Memᴰ.not-nil m)
connect_others-mem name main net e ((n, f) ∷ networks) m h = elim (Memᴰ.cases_cons m) [
  | inl same ↦ rw (← ap (λ p. p.0) same, ← ap (λ p. p.1) same, h) (Memᴰ.head refl)
  | inr later ↦ elim (Bool-cases (n == main)) [
    | inl skip ↦ rw skip (connect_others-mem name main net e networks later h)
    | inr take ↦ rw take (Memᴰ.tail (connect_others-mem name main net e networks later h))
  ]
]

lookup-elem :
    (k : Text) (d : Dict Endpoint) → elem k (keys d) ≡ true → (e : Endpoint) × (lookup k d ≡ some e)
unfolding elem keys lookup
lookup-elem k [] h = absurd (ground (arith, h))
lookup-elem k ((j, e) ∷ d) h = elim (Bool-cases (j == k)) [
  | inl same ↦ (e, rw same refl)
  | inr other ↦ let (f, found) = lookup-elem k d (ground (arith, h, other)) in (f, rw other found)
]

lookup-mem : (k : Text) (e : Endpoint) (d : Dict Endpoint) → lookup k d ≡ some e → Memᴰ (k, e) d
unfolding lookup
lookup-mem k e [] h = absurd (ground (arith, h))
lookup-mem k e ((j, f) ∷ d) h = elim (Bool-cases (j == k)) [
  | inl same ↦ Memᴰ.head (
      ap {B = Text × Endpoint} (λ (x : Text). (x, e)) (sym ((eq_iff j k).0 same))
      ∙ ap {B = Text × Endpoint} (λ (x : Endpoint). (j, x)) (sym (some_inj (rw same at h))))
  | inr other ↦ Memᴰ.tail (lookup-mem k e d (rw other at h))
]

abbrev mode_of : Container → Option Text
mode_of c = (host_config_of c.host_config).network_mode

-- The links of the endpoint, or else those of the container.
abbrev links_of : Container → Endpoint → List Text
links_of c e = elim (or_else e.links []) [
  | [] ↦ or_else (host_config_of c.host_config).links []
  | link ∷ links ↦ link ∷ links
]

abbrev ipv4_of : Option IpamConfig → Option Text
ipv4_of none = none
ipv4_of (some ipam) = ipam.ipv4_address

abbrev ipv6_of : Option IpamConfig → Option Text
ipv6_of none = none
ipv6_of (some ipam) = ipam.ipv6_address

-- The arguments create the container in the network, with what the endpoint has unless the mode of the
-- network allows none of it.
abbrev pub IsCreatedIn : (c : Container) → (net : Text) → Endpoint → NetKwargs → Type 0
IsCreatedIn c net e k =
    (k.networks ≡ net ∷ [])
    × (k.network_aliases ≡ (if is_unsupported (mode_of c) then [] else or_else e.aliases []))
    × (k.link ≡ (if is_unsupported (mode_of c) then [] else links_of c e))
    × (k.ip ≡ (if is_unsupported (mode_of c) then none else ipv4_of e.ipam_config))
    × (k.ip6 ≡ (if is_unsupported (mode_of c) then none else ipv6_of e.ipam_config))

or_list_lem : (l m : List Text) → or_list l m ≡ elim l [ [] ↦ m | x ∷ xs ↦ x ∷ xs ]
or_list_lem [] m = refl
or_list_lem (x ∷ xs) m = refl

created_in :
    (c : Container) (old : Bool) (net : Text) (e : Endpoint) (networks : Dict Endpoint)
    (main : Text) (f : Endpoint)
    → c.networks ≡ some ((net, e) ∷ networks)
    → main_key (mode_of c) net ((net, e) ∷ networks) ≡ main
    → lookup main ((net, e) ∷ networks) ≡ some f
    → IsCreatedIn c main f (get_container_net_kwargs c old).0
unfolding get_container_net_kwargs
created_in c old net e networks main f h m found = elim (Bool-cases (is_unsupported (mode_of c))) [
  | inl off ↦ rw (h, off, m, found) (refl, refl, refl, refl, refl)
  | inr on ↦
      rw (h, on, m, found)
        (
          refl,
          refl,
          or_list_lem (or_else f.links []) (or_else (host_config_of c.host_config).links []),
          refl,
          refl,
        )
]

commands_of :
    (c : Container) (old : Bool) (networks : Dict Endpoint)
    → c.networks ≡ some networks
    → (get_container_net_kwargs c old).1 ≡ commands_for c.name (mode_of c) networks
unfolding get_container_net_kwargs
commands_of c old networks h = rw h refl

attached_to :
    (c : Container) (old : Bool) (all : Dict Endpoint) (net : Text) (e : Endpoint)
    → c.networks ≡ some all
    → lookup net all ≡ some e
    → IsCreatedIn c net e (get_container_net_kwargs c old).0
      ⊎ Memᴰ (connect_command c.name net e) (get_container_net_kwargs c old).1
attached_to c old [] net e h found = absurd (Memᴰ.not-nil (lookup-mem net e [] found))
attached_to c old ((n, f) ∷ networks) net e h found =
    let main = main_key (mode_of c) n ((n, f) ∷ networks) in
    elim (Bool-cases (net == main)) [
      | inl same ↦
          inl (created_in c old n f networks net e h (sym ((eq_iff net main).0 same)) found)
      | inr other ↦ inr (
          rw (commands_of c old ((n, f) ∷ networks) h) (
            connect_others-mem c.name main net e ((n, f) ∷ networks)
              (lookup-mem net e ((n, f) ∷ networks) found) other))
    ]

-- Each network of a container that is made anew is asked for, with what its endpoint has: the container is
-- created in it, with the aliases, links (or else the container's own) and addresses, none of which goes
-- with the modes host, none and container; or a command to connect it comes along, which read by docker's
-- flags asks for the aliases, the links and the addresses of the endpoint, on this network and for this
-- container. Whether the agent takes the command is another matter.
pub get_container_net_kwargs_attached :
    (c : Container) (is_old_api : Bool) (net : Text) (e : Endpoint)
    → lookup net (or_else c.networks []) ≡ some e
    → IsCreatedIn c net e (get_container_net_kwargs c is_old_api).0
      ⊎ (command : List Text) × Memᴰ command (get_container_net_kwargs c is_old_api).1
        × (read_connect command ≡ some (connection_of c.name net e))
get_container_net_kwargs_attached c is_old_api net e found = elim (Option-cases c.networks) [
  | inl missing ↦ absurd (Memᴰ.not-nil (lookup-mem net e [] (rw missing at found)))
  | inr (networks, h) ↦ elim (attached_to c is_old_api networks net e h (rw h at found)) [
    | inl created ↦ inl created
    | inr m ↦ inr (connect_command c.name net e, m, read_connect-connect_command c.name net e)
  ]
]
