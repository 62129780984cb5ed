-- ===== src/Command/Accepted.antt =====
-- Which of the commands of backend/core/container_util/get_container_net_kwargs.py pass
-- shared/schemas/command_validator.py.
use tugtainer.Base.{
  ℕ, zero, suc, ◌≤◌, ◌≡◌, refl, sym, ap, ◌∙◌, Bool, true, false, ◌&&◌, Option, none, some, List, [],
  ◌∷◌, ◌++◌, Text, codes, ◌==◌, starts_with, lookup, or_else, all, length, arith, Bool-cases, inl,
  inr,
}
use tugtainer.Docker.{Endpoint, IpamConfig, truthy}
use tugtainer.Command.{
  Validator, is_alnum, is_docker_name, is_alias, connect_schema, schema_of, resolve, scan,
  same_length, all_pass, passes, command_validator,
}
use tugtainer.Net.{flags, flag_if, ip_flags, connect_command}

is_nil : List Text → Bool
is_nil [] = true
is_nil (x ∷ xs) = false

abbrev pub no_links : Option (List Text) → Bool
no_links none = true
no_links (some []) = true
no_links (some (x ∷ xs)) = false

-- A value that is given passes.
abbrev pub passes_if : Validator → Option Text → Bool
passes_if validator none = true
passes_if validator (some value) = validator value

abbrev pub ips_pass : Validator → Option IpamConfig → Bool
ips_pass is_ip none = true
ips_pass is_ip (some ipam) =
    passes_if is_ip (truthy ipam.ipv4_address) && passes_if is_ip (truthy ipam.ipv6_address)

and_assoc : (a b c : Bool) → ((a && b) && c) ≡ (a && (b && c))
and_assoc a b c = ground arith

and_both : {a b c d : Bool} → a ≡ b → c ≡ d → (a && c) ≡ (b && d)
and_both h k = rw (h, k) refl

and_right : (a : Bool) {b c : Bool} → b ≡ c → (a && b) ≡ (a && c)
and_right a h = rw h refl

append_assoc : (xs ys zs : List Text) → ((xs ++ ys) ++ zs) ≡ (xs ++ (ys ++ zs))
append_assoc [] ys zs = refl
append_assoc (x ∷ xs) ys zs = ap (λ l. x ∷ l) (append_assoc xs ys zs)

module _ (is_ip : Validator) where
  abbrev go : List Text → Bool
  go args = scan is_ip (connect_schema is_ip) args []

  scan-flags :
      (flag : Text) (values rest : List Text)
      → starts_with flag (codes "-") ≡ true
      → go (flags flag values ++ rest)
        ≡ (all (passes (lookup flag (connect_schema is_ip).flags)) values && go rest)
  unfolding flags scan all
  scan-flags flag [] rest h = refl
  scan-flags flag (value ∷ values) rest h = rw h (ground (arith, scan-flags flag values rest h))

  scan-flag_if :
      (flag : Text) (value : Option Text) (rest : List Text)
      → starts_with flag (codes "-") ≡ true
      → go (flag_if flag value ++ rest)
        ≡ (passes_if (passes (lookup flag (connect_schema is_ip).flags)) value && go rest)
  unfolding scan
  scan-flag_if flag none rest h = refl
  scan-flag_if flag (some value) rest h = rw h refl

  dash_name : (s : Text) → starts_with s (codes "-") ≡ true → is_docker_name s ≡ false
  unfolding starts_with is_docker_name is_alnum
  dash_name [] h = refl
  dash_name (c ∷ s) h = ground (arith, h)

  scan-names :
      (net name : Text) → go (net ∷ name ∷ []) ≡ (is_docker_name net && is_docker_name name)
  unfolding scan same_length all_pass
  scan-names net name = elim (Bool-cases (starts_with net (codes "-"))) [
    | inl dash ↦ rw (dash, dash_name net dash) (ground arith)
    | inr plain ↦ elim (Bool-cases (starts_with name (codes "-"))) [
      | inl dash ↦ rw (plain, dash, dash_name name dash) (ground arith)
      | inr plain' ↦ rw (plain, plain') (ground arith)
    ]
  ]

  resolve-connect :
      (n : ℕ) (rest : List Text)
      → n ≤ length rest
      → resolve is_ip (suc (suc n)) (codes "network" ∷ codes "connect" ∷ rest)
        ≡ some (2, connect_schema is_ip)
  unfolding resolve schema_of ◌==◌
  resolve-connect zero rest h = refl
  resolve-connect (suc n) [] h = absurd (omega (arith, h))
  resolve-connect (suc n) (x ∷ rest) h = resolve-connect n (x ∷ rest) (omega (arith, h))

  command_validator-connect :
      (rest : List Text)
      → command_validator is_ip (codes "network" ∷ codes "connect" ∷ rest) ≡ go rest
  unfolding command_validator schema_of
  command_validator-connect rest = rw (resolve-connect (length rest) rest (omega arith)) refl

  scan-ips :
      (ipam : Option IpamConfig) (rest : List Text)
      → go (ip_flags ipam ++ rest) ≡ (ips_pass is_ip ipam && go rest)
  unfolding lookup ◌==◌ starts_with
  scan-ips none rest = refl
  scan-ips (some ipam) rest =
      ap go (
        append_assoc (flag_if (codes "--ip") (truthy ipam.ipv4_address))
          (flag_if (codes "--ip6") (truthy ipam.ipv6_address)) rest)
      ∙ scan-flag_if (codes "--ip") (truthy ipam.ipv4_address)
          (flag_if (codes "--ip6") (truthy ipam.ipv6_address) ++ rest) refl
      ∙ ap (λ b. passes_if is_ip (truthy ipam.ipv4_address) && b)
          (scan-flag_if (codes "--ip6") (truthy ipam.ipv6_address) rest refl)
      ∙ sym (
          and_assoc (passes_if is_ip (truthy ipam.ipv4_address))
            (passes_if is_ip (truthy ipam.ipv6_address)) (go rest))

  all-alias :
      (values : List Text)
      → all (passes (lookup (codes "--alias") (connect_schema is_ip).flags)) values
        ≡ all is_alias values
  unfolding all lookup ◌==◌
  all-alias [] = refl
  all-alias (v ∷ values) = and_right (is_alias v) (all-alias values)

  all-none :
      (values : List Text)
      → all (passes (lookup (codes "--link") (connect_schema is_ip).flags)) values ≡ is_nil values
  unfolding all is_nil lookup ◌==◌
  all-none [] = refl
  all-none (v ∷ values) = refl

  nil-links : (links : Option (List Text)) → is_nil (or_else links []) ≡ no_links links
  unfolding is_nil
  nil-links none = refl
  nil-links (some []) = refl
  nil-links (some (x ∷ xs)) = refl

  -- The agent runs the command that attaches a container to a further network exactly when the aliases,
  -- the addresses that are given and the two names are valid and the endpoint has no links: the
  -- validator does not know the flag `--link` that a link is written with.
  pub command_validator-connect_command :
      (name net : Text) (e : Endpoint)
      → command_validator is_ip (connect_command name net e) ≡ (
          all is_alias (or_else e.aliases [])
          && (no_links e.links
              && (ips_pass is_ip e.ipam_config && (is_docker_name net && is_docker_name name))))
  unfolding connect_command lookup ◌==◌ starts_with
  command_validator-connect_command name net e =
      let names = net ∷ name ∷ [] in
      let aliases = or_else e.aliases [] in
      let links = or_else e.links [] in
      command_validator-connect (
        flags (codes "--alias") aliases
        ++ (flags (codes "--link") links ++ (ip_flags e.ipam_config ++ names)))
      ∙ scan-flags (codes "--alias") aliases
          (flags (codes "--link") links ++ (ip_flags e.ipam_config ++ names)) refl
      ∙ and_both (all-alias aliases) (
          scan-flags (codes "--link") links (ip_flags e.ipam_config ++ names) refl
          ∙ and_both (all-none links ∙ nil-links e.links) (
              scan-ips e.ipam_config names
              ∙ and_right (ips_pass is_ip e.ipam_config) (scan-names net name)))
