-- ===== src/Update/Run.antt =====
-- `execute_update_plan` of backend/core/update_actions/update_actions_executor.py: the phases over all items.
pub mod Ending
pub mod Concluded
use tugtainer.Base.{
  any, ℕ, ◌≡◌, refl, Bool, true, false, not, ◌&&◌, ◌||◌, Option, none, some, List, [], ◌∷◌, ◌++◌,
  reverse, Text, Dict, lookup, put, keys, elem, map, if◌then◌else◌,
}
use tugtainer.Docker.{Container}
use tugtainer.Db.{ContainersModel, HostsModel}
use tugtainer.ActionResult.{ContainerActionResult, UpdatePlanResult}
use tugtainer.Exec.{
  Error, Answer, outcome, Result, ok, err, stuck, Exec, pure, raise, lift, ◌>>=◌, ◌>>◌, try_except,
  modify, get, if_some,
}
use tugtainer.Agent.{Log, Agent, Configs}
use tugtainer.Progress.{
  ActionStatus, preparing, updating, done, ActionProgress, plan_result, TtlCache, update,
  is_allowed_start_cache, status_of, finished,
}
use tugtainer.Plan.Build.{UpdatePlan}
use tugtainer.Update.Hooks.{ContainerHooks}
use tugtainer.Update.Item.{Item, St}
use tugtainer.Update.Prepare.{new_item, prepare}
use tugtainer.Update.Stop.{stop_item}
use tugtainer.Update.Step.{step}
use tugtainer.Update.Records.{has_result, update_containers_data_after_execution}

-- The items by the name under which the plan knows them: `items` and `items_map` in one, as names are
-- unique on a host.
abbrev pub Items : Type 0 → Type 0
Items Config = Dict (Item Config)

-- What the execution reads and writes beside the agent: the table and the cache.
pub record Run (Config : Type 0) (ttl : TtlCache) : Type 0 where
  pub items : Items Config
  pub log : Log Config
  pub rows : List ContainersModel
  pub cache : ttl.Store

-- The database at the two moments at which it is asked: it may fail.
pub record Database (Config : Type 0) : Type 0 where
  pub hooks_map : Log Config → List Text → Answer (Dict ContainerHooks)
  pub committed : Log Config → Answer (Unit {0})
  pub now : Log Config → ℕ

-- `[UpdatePlanItem(…) for c in containers if c.name in plan.to_update or c.name in plan.affected]`
unfoldable pub make_items : {Config : Type 0} → UpdatePlan → List Container → Items Config
make_items plan [] = []
make_items plan (c ∷ cs) =
    let rest = make_items plan cs in
    if elem c.name plan.to_update || elem c.name plan.affected
    then (c.name, new_item c) ∷ rest
    else rest

abbrev pub result_of : {Config : Type 0} → Item Config → ContainerActionResult
result_of item = record {
  container = item.container;
  result = item.result;
  image_spec = none;
  local_image = item.local_image;
  remote_image = item.remote_image;
  local_digests = [];
  remote_digests = [];
}

unfoldable pub results_of : {Config : Type 0} → Items Config → List ContainerActionResult
results_of [] = []
results_of ((name, item) ∷ items) = result_of item ∷ results_of items

module _ (configs : Configs) (ttl : TtlCache) where
  open configs use {Config}

  abbrev keep_item :
      Text → Result (Unit {0}) → St Config → Run Config ttl → Result (Unit {0}) × Run Config ttl
  keep_item name r t s = (r, record s { items = put name t.item s.items; log = t.log })

  abbrev run_item :
      Text → Exec (St Config) (Unit {0}) → Option (Item Config) → Exec (Run Config ttl) (Unit {0})
  run_item name m none s = (ok tt, s)
  run_item name m (some item) s =
      let (r, t) = m (record { item = item; log = s.log }) in keep_item name r t s

  -- `item = items_map.get(name); if item: …`
  unfoldable pub at_item : Text → Exec (St Config) (Unit {0}) → Exec (Run Config ttl) (Unit {0})
  at_item name m s = run_item name m (lookup name s.items) s

  -- `for name in names: f(name)`
  unfoldable pub for_each :
      List Text → (Text → Exec (Run Config ttl) (Unit {0})) → Exec (Run Config ttl) (Unit {0})
  for_each [] f = pure tt
  for_each (name ∷ names) f = do f name; for_each names f

  unfoldable pub cache_to : (ttl.Store → ttl.Store) → Exec (Run Config ttl) (Unit {0})
  cache_to f = modify (λ s. record s { cache = f s.cache })

  module _ (agent : Agent Config) (database : Database Config) (fuel : ℕ) (host : HostsModel)
      (containers : List Container) (plan : UpdatePlan) where
    -- A request of the database.
    unfoldable pub from_database : {A : Type 0} → (Log Config → Answer A) → Exec (Run Config ttl) A
    from_database answer s = (outcome (answer s.log), s)

    unfoldable pub prepare_all : Exec (Run Config ttl) (Unit {0})
    unfolding at_item for_each
    prepare_all = do
      s ← get
      for_each (keys s.items) (λ name.
          if elem name plan.to_update then at_item name (prepare configs agent) else pure tt)

    -- "from most dependent to most dependable"
    unfoldable pub stop_all : Dict ContainerHooks → Exec (Run Config ttl) (Unit {0})
    unfolding at_item for_each
    stop_all hooks_map = for_each (reverse plan.order) (λ name.
        at_item name (stop_item agent name (lookup name hooks_map) (elem name plan.to_update)))

    -- "from most dependable to most dependent"
    unfoldable pub update_all : Dict ContainerHooks → Exec (Run Config ttl) (Unit {0})
    unfolding at_item for_each
    update_all hooks_map = for_each plan.order (λ name. at_item name (
        step configs agent fuel host.container_hc_timeout (lookup name hooks_map)
          (elem name plan.to_update) (elem name plan.affected)))

    abbrev result_from : Run Config ttl → UpdatePlanResult
    result_from s = record { host_id = host.id; host_name = host.name; items = results_of s.items }

    -- With no result there is nothing to record.
    unfoldable pub record_result : UpdatePlanResult → Exec (Run Config ttl) (Unit {0})
    record_result result =
        let go : Exec (Run Config ttl) (Unit {0}) = (do
          from_database database.committed
          modify (λ s. record s {
            rows = update_containers_data_after_execution result (database.now s.log) s.rows;
          })) in
        if any has_result result.items then go else pure tt

    -- The phases, once the run is allowed and has something to update. With `allow_hooks` off there are
    -- no hooks.
    unfoldable pub run_phases :
        (allow_hooks : Bool) → (status_key : Text) → Exec (Run Config ttl) (Option UpdatePlanResult)
    unfolding prepare_all stop_all update_all record_result cache_to update
    run_phases allow_hooks status_key = do
      cache_to (ttl.set status_key (status_of preparing))
      modify (λ s. record s { items = make_items plan containers })
      s ← get
      hooks_map ←
          (if allow_hooks
            then from_database (λ log. database.hooks_map log (keys s.items))
            else pure [])
      prepare_all
      cache_to (update ttl status_key (status_of updating))
      stop_all hooks_map
      update_all hooks_map
      t ← get
      record_result (result_from t)
      cache_to (update ttl status_key (finished done (plan_result (result_from t))))
      pure (some (result_from t))

    abbrev is_nothing : List Text → Bool
    is_nothing [] = true
    is_nothing (x ∷ xs) = false

    -- execute_update_plan
    unfoldable pub execute_update_plan :
        (allow_hooks : Bool) → (status_key : Text) → Exec (Run Config ttl) (Option UpdatePlanResult)
    execute_update_plan allow_hooks status_key = do
      s ← get
      let go = run_phases allow_hooks status_key
      if not (is_allowed_start_cache (ttl.get status_key s.cache)) || is_nothing plan.to_update
          then pure none
          else go
