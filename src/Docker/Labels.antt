-- ===== src/Docker/Labels.antt =====
-- The labels that steer an update: backend/const.py, backend/core/update_actions/update_actions_util.py
-- (`get_dependencies`, `get_compose_id`), backend/core/container_util/is_protected_container.py and
-- get_service_name.py.
use tugtainer.Base.{
  Bool, not, ◌||◌, Option, none, some, List, [], ◌∷◌, ◌++◌, Text, codes, lookup, or_else, ◌==◌,
  is_empty, split, strip, lower, add, if◌then◌else◌,
}
use tugtainer.Docker.{Container, labels_of}

abbrev pub tugtainer_depends_on_label : Text
tugtainer_depends_on_label = codes "dev.quenary.tugtainer.depends_on"

abbrev pub tugtainer_protected_label : Text
tugtainer_protected_label = codes "dev.quenary.tugtainer.protected"

abbrev pub docker_compose_depends_on_label : Text
docker_compose_depends_on_label = codes "com.docker.compose.depends_on"

unfoldable pub is_protected_container : Container → Bool
is_protected_container c =
    lower (or_else (lookup tugtainer_protected_label (labels_of c)) (codes "false")) == codes "true"

unfoldable pub get_service_name : Container → Option Text
get_service_name c = lookup (codes "com.docker.compose.service") (labels_of c)

-- `dep.strip().split(":")[0].strip()`
abbrev first : List Text → Text
first [] = []
first (part ∷ parts) = part

unfoldable pub dependency_name : Text → Text
dependency_name dep = strip (first (split b':' (strip dep)))

-- The loop over the comma separated entries.
unfoldable pub add_dependencies : List Text → List Text → List Text
unfolding dependency_name
add_dependencies dependencies [] = dependencies
add_dependencies dependencies (dep ∷ deps) =
    add_dependencies
      (if is_empty (dependency_name dep)
        then dependencies
        else add (dependency_name dep) dependencies)
      deps

unfoldable pub get_dependencies : Container → Text → List Text
unfolding add_dependencies
get_dependencies c label =
    let depends_on_label = or_else (lookup label (labels_of c)) [] in
    if is_empty depends_on_label then [] else add_dependencies [] (split b',' depends_on_label)

unfoldable pub get_compose_id : Container → Option Text
get_compose_id c =
    let proj = or_else (lookup (codes "com.docker.compose.project") (labels_of c)) [] in
    let fil = or_else (lookup (codes "com.docker.compose.project.config_files") (labels_of c)) [] in
    if not (is_empty proj) || not (is_empty fil) then some (proj ++ codes ":" ++ fil) else none
