-- ===== src/Docker.antt =====
-- The inspected container, and the small readers of it in backend/core/container_util.
pub mod Labels
use tugtainer.Base.{
  ℕ, ◌≡◌, Bool, true, false, not, ◌&&◌, ◌||◌, Option, none, some, List, [], ◌∷◌, Text, codes, Dict,
  lookup, or_else, ◌==◌, is_empty, if◌then◌else◌,
}
pub use tugtainer.Inspect.{
  Health, State, ContainerConfig, PortBinding, HostConfig, IpamConfig, Endpoint, Container, Image,
  no_config, no_host_config,
}

-- An optional text that is empty counts as none; `a if a else b`, of two optional texts.
abbrev pub truthy : Option Text → Option Text
truthy none = none
truthy (some t) = if is_empty t then none else some t

abbrev pub first_of : Option Text → Option Text → Option Text
first_of none b = b
first_of (some t) b = some t

-- `container.config.labels if container.config and container.config.labels else {}`.
abbrev config_labels : Option ContainerConfig → Dict Text
config_labels none = []
config_labels (some config) = or_else config.labels []

unfoldable pub labels_of : Container → Dict Text
labels_of c = config_labels c.config

abbrev state_status : Option State → Text
state_status none = []
state_status (some state) = or_else state.status []

-- is_running_container
unfoldable pub is_running_container : Container → Bool
is_running_container c = state_status c.state == codes "running"

abbrev config_image : Option ContainerConfig → Option Text
config_image none = none
config_image (some config) = config.image

-- get_container_image_spec
unfoldable pub get_container_image_spec : Container → Option Text
get_container_image_spec c = config_image c.config

abbrev health_status : Option Health → Text
health_status none = codes "unknown"
health_status (some health) = elim health.status [
  | none ↦ codes "unknown"
  | some s ↦ if is_empty s then codes "unknown" else s
]

abbrev state_health : Option State → Option Health
state_health none = none
state_health (some state) = state.health

-- get_container_health_status_str
unfoldable pub get_container_health_status_str : Container → Text
get_container_health_status_str c = health_status (state_health c.state)

-- `bool(container.state and container.state.health)`
unfoldable pub has_healthcheck : Container → Bool
has_healthcheck c = elim (state_health c.state) [ none ↦ false | some h ↦ true ]
