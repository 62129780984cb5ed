-- ===== src/Create/Mounts.antt =====
-- backend/core/container_util/map_mounts_to_arg.py
use tugtainer.Base.{
  Bool, false, not, Option, none, some, List, [], ◌∷◌, ◌++◌, Text, codes, ◌==◌, elem, split,
  or_else, if◌then◌else◌,
}
use tugtainer.Docker.{truthy, first_of}
use tugtainer.Inspect.{Mount}

-- `f"{name}{value}"`, if there is a value.
abbrev pub opt_part : Text → Option Text → List Text
opt_part name none = []
opt_part name (some value) = (name ++ value) ∷ []

-- `mount.mode.split(",") if mount.mode else []`
abbrev mode_parts : Option Text → List Text
mode_parts none = []
mode_parts (some mode) = split b',' mode

-- The loop that stops at the first mode found.
unfoldable pub consistency : List Text → List Text → List Text
consistency [] parts = []
consistency (mode ∷ modes) parts =
    let rest = consistency modes parts in
    if elem mode parts then (codes "consistency=" ++ mode) ∷ [] else rest

abbrev consistency_modes : List Text
consistency_modes = codes "delegated" ∷ codes "cached" ∷ codes "consistent" ∷ []

unfoldable pub bind_parts : Mount → List Text
unfolding consistency
bind_parts mount =
    consistency consistency_modes (mode_parts (truthy mount.mode))
    ++ opt_part (codes "bind-propagation=") (truthy mount.propagation)

-- `driver = mount.driver or "local"`
abbrev driver_part : Text → List Text
driver_part driver = if driver == codes "local" then [] else (codes "volume-driver=" ++ driver) ∷ []

abbrev mount_type : Mount → Text
mount_type mount = or_else (truthy mount.type) (codes "volume")

-- A volume goes by its name, if it has one.
abbrev pub source_of : Mount → Option Text
source_of mount =
    if mount_type mount == codes "volume"
    then truthy (first_of (truthy mount.name) mount.source)
    else truthy mount.source

abbrev is_readonly : Option Bool → Bool
is_readonly none = false
is_readonly (some rw) = not rw

unfoldable pub mount_list : Mount → List Text
unfolding bind_parts
mount_list mount =
    let kind = mount_type mount in
    (codes "type=" ++ kind)
    ∷ (opt_part (codes "dst=") (truthy mount.destination)
        ++ ((if is_readonly mount.rw then codes "readonly" ∷ [] else [])
            ++ ((if kind == codes "bind" then bind_parts mount else [])
                ++ ((if kind == codes "volume"
                      then driver_part (or_else (truthy mount.driver) (codes "local"))
                      else [])
                    ++ opt_part (codes "source=") (source_of mount)))))

unfoldable pub map_mounts : List Mount → List (List Text)
unfolding mount_list
map_mounts [] = []
map_mounts (mount ∷ mounts) = mount_list mount ∷ map_mounts mounts

unfoldable pub map_mounts_to_arg : Option (List Mount) → List (List Text)
unfolding map_mounts
map_mounts_to_arg mounts = map_mounts (or_else mounts [])
