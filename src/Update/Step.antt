-- ===== src/Update/Step.antt =====
-- The updating phase of backend/core/update_actions/update_actions_executor.py, for one item.
pub mod Total
pub mod Results
pub mod Contract
use tugtainer.Base.{
  ℕ, ◌≡◌, refl, Bool, true, false, not, ◌&&◌, Option, none, some, or_else, List, [], ◌∷◌, Text,
  codes, if◌then◌else◌,
}
use tugtainer.Docker.{Container, Image, is_running_container}
use tugtainer.Exec.{
  Error, Result, ok, err, stuck, Exec, pure, raise, lift, ◌>>=◌, ◌>>◌, try_except, modify, get,
}
use tugtainer.Agent.{
  Call, inspect, exists_, stop, start, remove, create, tag_image, Log, Agent, request, Configs,
}
use tugtainer.ActionResult.{updated, rolled_back, failed}
use tugtainer.Update.Hooks.{
  ContainerHooks, HookName, post_update, pre_rollback, post_rollback, run_hooks,
  disconnect_all_networks,
}
use tugtainer.Update.Item.{
  Item, St, on_log, add_error, add_errors, set_container, set_result, can_update, refresh,
  start_item, await_health, attempt_start_with_health, run_commands,
}

module _ (configs : Configs) (agent : Agent configs.Config) (fuel timeout : ℕ)
    (hooks : Option ContainerHooks) where
  open configs use {Config, diff_container_config_with_image}

  -- `item.errors.extend(await run_hooks(client, item.name, hooks_map.get(item.name), …))`
  unfoldable pub run_item_hooks : HookName → Exec (St Config) (Unit {0})
  run_item_hooks hook_name = do
    s ← get
    hook_errors ← on_log (run_hooks agent s.item.container.name hooks hook_name)
    add_errors hook_errors

  unfoldable pub disconnect_item : Exec (St Config) (Unit {0})
  disconnect_item = do s ← get; on_log (disconnect_all_networks agent s.item.container true)

  unfoldable pub remove_item : Exec (St Config) (Unit {0})
  remove_item = do
    s ← get
    on_log (request (remove s.item.container.name) (λ log. agent.removed log s.item.container.name))

  unfoldable pub stop_current : Exec (St Config) (Unit {0})
  stop_current = do
    s ← get
    on_log (request (stop s.item.container.name) (λ log. agent.stopped log s.item.container.name))

  -- `item.container = await client.container.create(…)`
  unfoldable pub create_from : Config → Exec (St Config) (Unit {0})
  create_from config = do
    c ← on_log (request (create config) (λ log. agent.created log config))
    set_container c

  unfoldable pub refresh_if_found : Exec (St Config) (Unit {0})
  refresh_if_found = do
    s ← get
    here ←
        on_log
          (request (exists_ s.item.container.name) (λ log. agent.found log s.item.container.name))
    if here then refresh agent else pure tt

  -- The container is made anew from the merged configuration.
  unfoldable pub recreate : Config → Image → Exec (St Config) (Unit {0})
  recreate config remote_image = do
    refresh_if_found
    disconnect_item
    remove_item
    merged_config ← lift (diff_container_config_with_image config remote_image)
    create_from merged_config

  -- An unhealthy container is removed before the rollback.
  unfoldable pub remove_unhealthy : Exec (St Config) (Unit {0})
  remove_unhealthy = do
    run_item_hooks pre_rollback
    stop_current
    refresh agent
    disconnect_item
    remove_item

  unfoldable pub start_recreated : Exec (St Config) Bool
  start_recreated = do
    start_item agent
    run_commands agent
    refresh agent
    await_health agent fuel timeout

  -- The body of the `try`: `true` is `continue`, `false` goes on to the rollback.
  unfoldable pub update_body : Config → Image → Exec (St Config) Bool
  update_body config remote_image = do
    recreate config remote_image
    s ← get
    let rest : Exec (St Config) Bool = (do
      healthy ← start_recreated
      let good : Exec (St Config) Bool = (do
        set_result updated
        run_item_hooks post_update
        pure true)
      let bad : Exec (St Config) Bool = (do remove_unhealthy; pure false)
      if healthy then good else bad)
    let done : Exec (St Config) Bool = (do set_result updated; pure true)
    if s.item.was_running then rest else done

  -- "Cleanup after update error"
  unfoldable pub cleanup : Exec (St Config) (Unit {0})
  cleanup = do
    s ← get
    here ←
        on_log
          (request (exists_ s.item.container.name) (λ log. agent.found log s.item.container.name))
    let clear : Exec (St Config) (Unit {0}) = (do
      refresh agent
      t ← get
      if is_running_container t.item.container then run_item_hooks pre_rollback else pure tt
      stop_current
      refresh agent
      disconnect_item
      remove_item)
    if here then clear else pure tt

  unfoldable pub try_update : Config → Image → Exec (St Config) Bool
  try_update config remote_image =
      try_except (update_body config remote_image)
        (λ e. do add_error e; try_except cleanup add_error; pure false)

  unfoldable pub tag_previous : Image → Text → Exec (St Config) (Unit {0})
  tag_previous local_image image_spec =
      let id = or_else local_image.id (codes "None") in
      on_log (request (tag_image id image_spec) (λ log. agent.image_tagged log id image_spec))

  unfoldable pub restart : Exec (St Config) (Unit {0})
  restart = do start_item agent; run_commands agent; refresh agent

  unfoldable pub settle : Exec (St Config) Bool
  settle = do run_item_hooks post_rollback; await_health agent fuel timeout

  -- The second `try` of the rollback: `true` is `continue`.
  unfoldable pub restore : Config → Exec (St Config) Bool
  restore config = do create_from config; restart; set_result rolled_back; settle

  unfoldable pub roll_back : Config → Image → Text → Exec (St Config) Bool
  roll_back config local_image image_spec = do
    try_except (tag_previous local_image image_spec) add_error
    try_except (restore config) (λ e. do add_error e; set_result failed; pure false)

  -- An item that can be updated; `true` is `continue`.
  unfoldable pub update_item :
      Config → (local_image remote_image : Image) → Text → Exec (St Config) Bool
  update_item config local_image remote_image image_spec = do
    done ← try_update config remote_image
    if done then pure true else roll_back config local_image image_spec

  -- "Starting non-updatable containers", and those that cannot be updated.
  unfoldable pub start_again : Exec (St Config) (Unit {0})
  start_again = try_except (attempt_start_with_health agent fuel timeout) add_error

  -- The casts of the code: all three are there when `_can_update` holds, and a specification that is
  -- missing would have failed to be pulled.
  abbrev pub update_parts :
      Option Config → Option Image → Option Image → Option Text → Exec (St Config) Bool
  update_parts (some config) (some local_image) (some remote_image) image_spec =
      update_item config local_image remote_image (or_else image_spec [])
  update_parts _ _ _ _ = pure true

  -- "Updating containers": `true` is `continue`.
  unfoldable pub attempt : (in_update : Bool) → Item Config → Exec (St Config) Bool
  attempt in_update item =
      let blocked : Exec (St Config) Bool = (do start_again; pure true) in
      let go : Exec (St Config) Bool =
        update_parts item.config item.local_image item.remote_image item.image_spec in
      if in_update then (if can_update item then go else blocked) else pure false

  -- "Starting non-updatable containers", if the round was not continued before.
  unfoldable pub finish : (is_affected continued : Bool) → Exec (St Config) (Unit {0})
  finish is_affected continued = if not continued && is_affected then start_again else pure tt

  -- The body of the loop over `plan.order`.
  unfoldable pub step : (in_update is_affected : Bool) → Exec (St Config) (Unit {0})
  unfolding attempt finish
  step in_update is_affected = do
    s ← get
    continued ← attempt in_update s.item
    finish is_affected continued
