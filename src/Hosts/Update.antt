-- ===== src/Hosts/Update.antt =====
-- backend/core/update_actions/update_host_containers.py
pub mod Ends
pub mod Ending
use tugtainer.Base.{
  ℕ, ◌≡◌, Bool, true, false, Option, none, some, List, [], ◌∷◌, Text, or_else, if◌then◌else◌,
}
use tugtainer.Docker.{Container}
use tugtainer.Db.{HostsModel}
use tugtainer.ActionResult.{ContainerActionResult, UpdatePlanResult, HostActionResult}
use tugtainer.Exec.{Answer, outcome, Exec, pure, ◌>>=◌, ◌>>◌, try_except, modify, get, of_fuel}
use tugtainer.Agent.{Call, version, list_containers, prune_images, Log, HostAgent}
use tugtainer.Progress.{
  ActionStatus, preparing, updating, pruning, done, host_result, TtlCache, update,
  is_allowed_start_cache, status_of, finished, get_host_cache_key,
}
use tugtainer.Create.{Pydantic, Body, configs}
use tugtainer.Plan.Select.{PlanSettings}
use tugtainer.Plan.Maps.{SetOrder}
use tugtainer.Plan.Build.{UpdatePlan, build_update_plan}
use tugtainer.Update.Run.{Run, Database, execute_update_plan}
use tugtainer.Hosts.PlanKey.{get_plan_cache_key}

-- What the code finds around it: pydantic, the cache, the order of sets, the settings,
-- and the fuel of the loops of the plan and of the wait.
pub record Around : Type 1 where
  pub pydantic : Pydantic
  pub ttl : TtlCache
  pub order : SetOrder
  pub settings : PlanSettings
  pub allow_hooks : Bool
  pub plan_fuel : ℕ
  pub fuel : ℕ

module _ (around : Around) where
  open around use {pydantic, ttl}

  abbrev pub HostRun : Type 0
  HostRun = Run Body ttl

  unfoldable pub ask : {A : Type 0} → Call Body → (Log Body → Answer A) → Exec HostRun A
  ask call answer s = (outcome (answer s.log), record s { log = call ∷ s.log })

  unfoldable pub cache_host : (ttl.Store → ttl.Store) → Exec HostRun (Unit {0})
  cache_host f = modify (λ s. record s { cache = f s.cache })

  module _ (client : HostAgent Body) (database : Database Body)
      (queried : Log Body → Answer (Unit {0})) (host : HostsModel) where
    -- The version of docker, or none if it cannot be had.
    unfoldable pub docker_version : Exec HostRun (Option Bool)
    unfolding ask
    docker_version =
        try_except (do v ← ask version client.versioned; pure (some v)) (λ e. pure none)

    unfoldable pub prune : Exec HostRun (Option Text)
    unfolding ask cache_host update
    prune = do
      cache_host (update ttl (get_host_cache_key host) (status_of pruning))
      try_except
          (do
            r ← ask (prune_images host.prune_all) (λ log. client.pruned log host.prune_all)
            pure (some r))
          (λ e. pure none)

    abbrev items_of : Option UpdatePlanResult → List ContainerActionResult
    items_of none = []
    items_of (some plan_res) = plan_res.items

    abbrev result_of : Option UpdatePlanResult → Option Text → HostActionResult
    result_of plan_res prune_result = record {
      host_id = host.id;
      host_name = host.name;
      items = items_of plan_res;
      prune_result = prune_result;
    }

    -- `build_update_plan(host, containers, manual_for)`, with the rows that the query finds.
    unfoldable pub planned : (manual : Bool) → List Container → HostRun → Option UpdatePlan
    unfolding build_update_plan
    planned manual containers s =
        build_update_plan around.order around.plan_fuel around.settings (database.now s.log) host
          s.rows containers (if manual then containers else [])

    -- From the plan on.
    unfoldable pub carry_out :
        (is_old_api : Option Bool)
        → List Container
        → UpdatePlan
        → Exec HostRun (Option HostActionResult)
    unfolding prune cache_host update get_plan_cache_key
    carry_out is_old_api containers plan = do
      cache_host (update ttl (get_host_cache_key host) (status_of updating))
      plan_res ←
          execute_update_plan (configs pydantic (or_else is_old_api false)) ttl client.agent
            database around.fuel host containers plan around.allow_hooks
            (get_plan_cache_key host plan)
      prune_result ← (if host.prune then prune else pure none)
      cache_host (
          update ttl (get_host_cache_key host)
            (finished done (host_result (result_of plan_res prune_result))))
      pure (some (result_of plan_res prune_result))

    -- The query of the rows, which may fail.
    unfoldable pub ask_rows : Exec HostRun (Unit {0})
    ask_rows s = (outcome (queried s.log), s)

    -- The body of the `try`.
    unfoldable pub update_host_body : (manual : Bool) → Exec HostRun (Option HostActionResult)
    unfolding docker_version planned carry_out cache_host ask ask_rows
    update_host_body manual = do
      cache_host (ttl.set (get_host_cache_key host) (status_of preparing))
      is_old_api ← docker_version
      containers ← ask list_containers client.listed
      ask_rows
      s ← get
      plan ← of_fuel (planned manual containers s)
      carry_out is_old_api containers plan

    -- `except Exception`
    unfoldable pub update_host_failed : Exec HostRun (Option HostActionResult)
    unfolding cache_host update
    update_host_failed = do
      cache_host (update ttl (get_host_cache_key host) (status_of ActionStatus.error))
      pure none

    unfoldable pub update_host_containers : (manual : Bool) → Exec HostRun (Option HostActionResult)
    update_host_containers manual = do
      s ← get
      if is_allowed_start_cache (ttl.get (get_host_cache_key host) s.cache)
          then try_except (update_host_body manual) (λ e. update_host_failed)
          else pure none
