-- ===== src/Plan/Maps.antt =====
-- The dependency graph: the maps of `build_update_plan` in
-- backend/core/update_actions/update_actions_plan.py.
use tugtainer.Base.{
  ◌≡◌, Option, none, some, List, [], ◌∷◌, Text, Dict, lookup, put, or_else, is_empty, elem, add,
  if◌then◌else◌,
}
use tugtainer.Docker.{Container}
use tugtainer.Docker.Labels.{
  get_service_name, get_compose_id, get_dependencies, tugtainer_depends_on_label,
  docker_compose_depends_on_label,
}

-- Python does not say in which order a set is iterated over. The plan must be right for each.
pub record SetOrder : Type 0 where
  pub iterate : List Text → List Text
  pub elem-iterate : (x : Text) (s : List Text) → elem x (iterate s) ≡ elem x s

-- `if srvn and compose_id: compose_service_names[compose_id][srvn] = c_name`
abbrev add_service : Option Text → Option Text → Text → Dict (Dict Text) → Dict (Dict Text)
add_service none compose_id c_name names = names
add_service (some srvn) none c_name names = names
add_service (some srvn) (some compose_id) c_name names =
    if is_empty srvn
    then names
    else put compose_id (put srvn c_name (or_else (lookup compose_id names) [])) names

unfoldable pub compose_service_names : List Container → Dict (Dict Text) → Dict (Dict Text)
compose_service_names [] names = names
compose_service_names (c ∷ cs) names =
    compose_service_names cs (add_service (get_service_name c) (get_compose_id c) c.name names)

-- `if d_name := neighbors.get(d): depends_on_map[c_name].add(d_name)`
abbrev add_neighbor : Option Text → List Text → List Text
add_neighbor none deps = deps
add_neighbor (some d_name) deps = if is_empty d_name then deps else add d_name deps

unfoldable pub add_neighbors : Dict Text → List Text → List Text → List Text
add_neighbors neighbors [] deps = deps
add_neighbors neighbors (d ∷ ds) deps =
    add_neighbors neighbors ds (add_neighbor (lookup d neighbors) deps)

-- The entry of one container in `depends_on_map`.
unfoldable pub depends_on : SetOrder → Dict (Dict Text) → Container → List Text
unfolding add_neighbors
depends_on order names c =
    let own = get_dependencies c tugtainer_depends_on_label in
    elim (get_compose_id c) [
      | none ↦ own
      | some compose_id ↦
          add_neighbors (or_else (lookup compose_id names) [])
            (order.iterate (get_dependencies c docker_compose_depends_on_label)) own
    ]

unfoldable pub depends_on_map :
    SetOrder → Dict (Dict Text) → List Container → Dict (List Text) → Dict (List Text)
unfolding depends_on
depends_on_map order names [] acc = acc
depends_on_map order names (c ∷ cs) acc =
    depends_on_map order names cs (put c.name (depends_on order names c) acc)

-- `for dep in deps: dependables_map[dep].add(name)`
unfoldable pub add_dependables : Text → List Text → Dict (List Text) → Dict (List Text)
add_dependables name [] acc = acc
add_dependables name (dep ∷ deps) acc =
    add_dependables name deps (put dep (add name (or_else (lookup dep acc) [])) acc)

unfoldable pub dependables_map : SetOrder → Dict (List Text) → Dict (List Text) → Dict (List Text)
unfolding add_dependables
dependables_map order [] acc = acc
dependables_map order ((name, deps) ∷ rest) acc =
    dependables_map order rest (add_dependables name (order.iterate deps) acc)
