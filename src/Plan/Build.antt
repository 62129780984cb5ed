-- ===== src/Plan/Build.antt =====
-- `build_update_plan` of backend/core/update_actions/update_actions_plan.py, put together, and the
-- `UpdatePlan` of update_actions_schema.py.
use tugtainer.Base.{
  ℕ, Option, none, some, List, [], ◌∷◌, Text, Dict, lookup, or_else, select, elem, add,
}
use tugtainer.Docker.{Container}
use tugtainer.Db.{ContainersModel, HostsModel, rows_of, rows_by_name}
use tugtainer.Graph.Bfs.{bfs}
use tugtainer.Graph.Dfs.{Walk, topological}
use tugtainer.Plan.Select.{PlanSettings, is_eligible, select_to_update}
use tugtainer.Plan.Maps.{SetOrder, compose_service_names, depends_on_map, dependables_map}

pub record UpdatePlan : Type 0 where
  pub to_update : List Text
  pub affected : List Text
  pub order : List Text

abbrev pub names : List Container → List Text
names [] = []
names (c ∷ cs) = c.name ∷ names cs

-- `a | b`
unfoldable pub union : List Text → List Text → List Text
union a [] = a
union a (x ∷ xs) = union (add x a) xs

-- `depends_on_map.get(node, set())` in the order of iteration, and the same for the reverse map.
unfoldable pub entry : SetOrder → Dict (List Text) → Text → List Text
entry order m node = order.iterate (or_else (lookup node m) [])

-- The maps over the eligible containers.
unfoldable pub depends : SetOrder → List Container → Dict (List Text)
unfolding compose_service_names depends_on_map
depends order containers = depends_on_map order (compose_service_names containers []) containers []

unfoldable pub dependables : SetOrder → List Container → Dict (List Text)
unfolding dependables_map depends
dependables order containers = dependables_map order (depends order containers) []

-- "filter only existing"
unfoldable pub existing : List Container → List Text → List Text
existing containers = select (λ item. elem item (names containers))

abbrev pub finish : List Container → List Text → List Text → Option Walk → Option UpdatePlan
finish containers to_update affected none = none
finish containers to_update affected (some walk) = some (record {
  to_update = existing containers to_update;
  affected = existing containers affected;
  order = existing containers walk.order;
})

-- From the eligible containers and the names to update. The fuel bounds the rounds of the breadth-first
-- loop and the depth of the depth-first walk; `none` means that it ran out.
unfoldable pub plan_for : SetOrder → ℕ → List Container → List Text → Option UpdatePlan
unfolding existing
plan_for order fuel containers to_update =
    elim (bfs (entry order (dependables order containers)) to_update fuel []
      (order.iterate to_update)) [
        | none ↦ none
        | some affected ↦ finish containers to_update affected (
            topological (entry order (depends order containers)) fuel
              (order.iterate (union affected to_update)))
      ]

unfoldable pub build_update_plan :
    SetOrder
    → ℕ
    → PlanSettings
    → (now : ℕ) → HostsModel
    → List ContainersModel
    → (containers manual_for : List Container) → Option UpdatePlan
unfolding plan_for
build_update_plan order fuel settings now host rows containers manual_for =
    let eligible = select (is_eligible settings) containers in
    plan_for order fuel eligible (
      select_to_update settings now (rows_by_name (rows_of host.id rows) []) eligible
        (select (is_eligible settings) manual_for))
