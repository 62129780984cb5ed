-- ===== src/Examples/Plans.antt =====
-- The plan for two containers, and for one that needs itself.
use tugtainer.Base.{
  ℕ, ◌≤◌, ◌<◌, ◌||◌, if◌then◌else◌, ◌≡◌, refl, ◌↔◌, true, false, none, some, List, [], ◌∷◌, Text,
  codes, elem, ◌==◌, lookup, put, keys, add, select, split, strip, lower, arith, eq_iff, eq_refl,
  or_else, Bool-cases, inl, inr,
}
use tugtainer.Docker.{Container, is_running_container, labels_of}
use tugtainer.Docker.Labels.{
  is_protected_container, get_service_name, get_compose_id, get_dependencies,
}
use tugtainer.Db.{ContainersModel, rows_of, rows_by_name}
use tugtainer.Graph.Bfs.{bfs, visit}
use tugtainer.Graph.Dfs.{topological}
use tugtainer.Plan.Select.{PlanSettings, is_eligible, select_to_update}
use tugtainer.Plan.Maps.{SetOrder, compose_service_names, depends_on_map, dependables_map}
use tugtainer.Plan.Build.{UpdatePlan, entry, depends, dependables, union, build_update_plan}
use tugtainer.Plan.Selected.{eligible, row_of, wanted, Eligible, Due}
use tugtainer.Plan.Contract.{
  Downstream, scheduled_updates, manual_updates, manual_fallback, plan-Eligible, plan_affected,
  plan_order, plan_sorted,
}
use tugtainer.Plan.Ends.{plan_ends, plan-cycle}
use tugtainer.Graph.Dfs.Distinct.{Distinct}
use tugtainer.Graph.Dfs.Order.Sorted.{before}
use tugtainer.Examples.Containers.{db, api, guarded, selfish, row, host}

abbrev pub settings : PlanSettings
settings = record { update_only_running = true; delay_update_for = 0 }

abbrev pub as_inserted : SetOrder
as_inserted = record { iterate = λ s. s; elem-iterate = λ x s. refl }

abbrev rows : List ContainersModel
rows = row (codes "db") true ∷ row (codes "api") false ∷ row (codes "s") true ∷ []

abbrev pub plan : UpdatePlan
plan = record {
  to_update = codes "db" ∷ [];
  affected = codes "api" ∷ [];
  order = codes "db" ∷ codes "api" ∷ [];
}

abbrev containers : List Container
containers = api ∷ db ∷ guarded ∷ []

scheduled_plan : build_update_plan as_inserted 5 settings 9 host rows containers [] ≡ some plan
unfolding build_update_plan select_to_update is_eligible is_protected_container is_running_container
    labels_of rows_of rows_by_name bfs visit topological entry depends dependables union lookup put
    select elem add lower ◌==◌ split strip keys get_service_name get_compose_id get_dependencies
    compose_service_names depends_on_map dependables_map
scheduled_plan = refl

-- "api" is asked for: its row has no update.
abbrev manual : UpdatePlan
manual = record {
  to_update = codes "db" ∷ [];
  affected = codes "api" ∷ [];
  order = codes "db" ∷ codes "api" ∷ [];
}

manual_plan :
    build_update_plan as_inserted 5 settings 9 host rows containers (api ∷ db ∷ []) ≡ some manual
unfolding build_update_plan select_to_update is_eligible is_protected_container is_running_container
    labels_of rows_of rows_by_name bfs visit topological entry depends dependables union lookup put
    select elem add lower ◌==◌ split strip keys get_service_name get_compose_id get_dependencies
    compose_service_names depends_on_map dependables_map
manual_plan = refl

asked : select (is_eligible settings) (api ∷ db ∷ []) ≡ api ∷ db ∷ []
unfolding build_update_plan select_to_update is_eligible is_protected_container is_running_container
    labels_of rows_of rows_by_name bfs visit topological entry depends dependables union lookup put
    select elem add lower ◌==◌ split strip keys get_service_name get_compose_id get_dependencies
    compose_service_names depends_on_map dependables_map
asked = refl

none_asked : select (is_eligible settings) (guarded ∷ []) ≡ []
unfolding build_update_plan select_to_update is_eligible is_protected_container is_running_container
    labels_of rows_of rows_by_name bfs visit topological entry depends dependables union lookup put
    select elem add lower ◌==◌ split strip keys get_service_name get_compose_id get_dependencies
    compose_service_names depends_on_map dependables_map
none_asked = refl

api_is_named :
    (elem (codes "api") plan.to_update
      || elem (codes "api") plan.affected
      || elem (codes "api") plan.order)
    ≡ true
unfolding elem ◌==◌
api_is_named = refl

api_in_order : elem (codes "api") plan.order ≡ true
unfolding elem ◌==◌
api_in_order = refl

db_in_order : elem (codes "db") plan.order ≡ true
unfolding elem ◌==◌
db_in_order = refl

api_needs_db :
    elem
      (codes "db")
      (entry as_inserted (depends as_inserted (eligible settings containers)) (codes "api"))
    ≡ true
unfolding build_update_plan select_to_update is_eligible is_protected_container is_running_container
    labels_of rows_of rows_by_name bfs visit topological entry depends dependables union lookup put
    select elem add lower ◌==◌ split strip keys get_service_name get_compose_id get_dependencies
    compose_service_names depends_on_map dependables_map
api_needs_db = refl

the_depends :
    depends as_inserted (eligible settings containers)
    ≡ (codes "api", codes "db" ∷ []) ∷ (codes "db", []) ∷ []
unfolding build_update_plan select_to_update is_eligible is_protected_container is_running_container
    labels_of rows_of rows_by_name bfs visit topological entry depends dependables union lookup put
    select elem add lower ◌==◌ split strip keys get_service_name get_compose_id get_dependencies
    compose_service_names depends_on_map dependables_map
the_depends = refl

-- "api" stands above "db".
unfoldable depth : Text → ℕ
depth x = if x == codes "api" then 1 else 0

not_api : (codes "db" == codes "api") ≡ false
unfolding ◌==◌
not_api = refl

falls_here :
    (x y : Text)
    → elem y (or_else (lookup x ((codes "api", codes "db" ∷ []) ∷ (codes "db", []) ∷ [])) []) ≡ true
    → depth y < depth x
unfolding lookup elem depth
falls_here x y d = elim (Bool-cases (codes "api" == x)) [
  | inl here ↦
      let db_y : (codes "db" == y) ≡ true = ground (arith, d, here) in
      rw
        (
          ← (eq_iff (codes "api") x).0 here,
          ← (eq_iff (codes "db") y).0 db_y,
          not_api,
          eq_refl (codes "api"),
        )
        (omega arith)
  | inr other ↦ absurd (ground (arith, d, other))
]

falls :
    (x y : Text)
    → elem y (entry as_inserted (depends as_inserted (eligible settings containers)) x) ≡ true
    → depth y < depth x
unfolding entry
falls x y d = falls_here x y (rw the_depends at d)

wanted_self :
    (x : Text)
    → (x == codes "s") ≡ true
    → elem x (wanted settings 9 host rows (selfish ∷ []) []) ≡ true
unfolding build_update_plan select_to_update is_eligible is_protected_container is_running_container
    labels_of rows_of rows_by_name bfs visit topological entry depends dependables union lookup put
    select elem add lower ◌==◌ split strip keys get_service_name get_compose_id get_dependencies
    compose_service_names depends_on_map dependables_map
wanted_self x h = rw ((eq_iff x (codes "s")).0 h) refl

needs_self :
    (x : Text)
    → (x == codes "s") ≡ true
    → (y : Text) × ((y == codes "s") ≡ true)
      × (elem x (entry as_inserted (depends as_inserted (eligible settings (selfish ∷ []))) y)
          ≡ true)
unfolding build_update_plan select_to_update is_eligible is_protected_container is_running_container
    labels_of rows_of rows_by_name bfs visit topological entry depends dependables union lookup put
    select elem add lower ◌==◌ split strip keys get_service_name get_compose_id get_dependencies
    compose_service_names depends_on_map dependables_map
needs_self x h = (codes "s", refl, rw ((eq_iff x (codes "s")).0 h) refl)

refl_s : (codes "s" == codes "s") ≡ true
unfolding ◌==◌
refl_s = refl

scheduled_updates_example : (elem (codes "db") plan.to_update ≡ true) ↔ (
    Eligible settings containers (codes "db")
    × ((r : ContainersModel) × (row_of host rows (codes "db") ≡ some r) × Due settings 9 r))
scheduled_updates_example =
    scheduled_updates as_inserted 5 settings 9 host rows containers plan scheduled_plan (codes "db")

plan_affected_example : (elem (codes "api") plan.affected ≡ true) ↔ (
    Eligible settings containers (codes "api")
    × (elem (codes "api") plan.to_update ≡ false)
    × Downstream as_inserted
        (eligible settings containers)
        (wanted settings 9 host rows containers [])
        (codes "api"))
plan_affected_example =
    plan_affected as_inserted 5 settings 9 host rows containers [] plan scheduled_plan (codes "api")

plan-Eligible_example : Eligible settings containers (codes "api")
plan-Eligible_example =
    plan-Eligible as_inserted 5 settings 9 host rows containers [] plan scheduled_plan (codes "api")
      api_is_named

plan_order_example :
    ((x : Text) → (elem x plan.to_update || elem x plan.affected) ≡ true → elem x plan.order ≡ true)
    × Distinct plan.order
plan_order_example = plan_order as_inserted 5 settings 9 host rows containers [] plan scheduled_plan

manual_updates_example : (elem (codes "api") manual.to_update ≡ true) ↔ (
    Eligible settings containers (codes "api")
    × Eligible settings (api ∷ db ∷ []) (codes "api")
    × ((r : ContainersModel) × (row_of host rows (codes "api") ≡ some r)
        × (r.update_available ≡ true)))
manual_updates_example =
    manual_updates as_inserted 5 settings 9 host rows containers (api ∷ db ∷ []) api (db ∷ [])
      manual asked manual_plan (codes "api")

manual_fallback_example :
    build_update_plan as_inserted 5 settings 9 host rows containers (guarded ∷ [])
    ≡ build_update_plan as_inserted 5 settings 9 host rows containers []
manual_fallback_example =
    manual_fallback as_inserted 5 settings 9 host rows containers (guarded ∷ []) none_asked

plan_sorted_example : before (codes "db") (codes "api") plan.order ≡ true
plan_sorted_example =
    plan_sorted as_inserted 5 settings 9 host rows containers [] plan scheduled_plan depth falls
      (codes "api") (codes "db") api_in_order db_in_order api_needs_db

plan_ends_example :
    (fuel : ℕ) × ((more : ℕ)
      → fuel ≤ more
      → (p : UpdatePlan) × (build_update_plan as_inserted more settings 9 host rows containers []
          ≡ some p))
plan_ends_example =
    plan_ends as_inserted settings 9 host rows containers [] depth (λ x y hx hy. falls x y)

plan-cycle_example : build_update_plan as_inserted 100 settings 9 host rows (selfish ∷ []) [] ≡ none
plan-cycle_example =
    plan-cycle as_inserted settings 9 host rows (selfish ∷ []) [] (λ x. x == codes "s") wanted_self
      needs_self (codes "s") refl_s 100
