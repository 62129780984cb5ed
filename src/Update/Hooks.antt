-- ===== src/Update/Hooks.antt =====
-- backend/core/update_actions/hooks_executor.py, backend/enums/hook_name_enum.py, the `ContainerHooks` of
-- backend/modules/containers/containers_schemas.py and `disconnect_all_networks` of
-- backend/core/update_actions/update_actions_util.py.
use tugtainer.Base.{
  Bool, Option, none, some, List, [], ◌∷◌, ◌++◌, Text, keys, or_else, is_empty, if◌then◌else◌,
}
use tugtainer.Docker.{Container}
use tugtainer.Exec.{Error, Exec, pure, ◌>>=◌, ◌>>◌, try_except}
use tugtainer.Agent.{exec, disconnect, Log, Agent, request}

pub data HookName : Type 0 where
  pre_update post_update pre_stop pre_rollback post_rollback : HookName

pub record ContainerHooks : Type 0 where
  pub pre_update : List Text
  pub post_update : List Text
  pub pre_stop : List Text
  pub pre_rollback : List Text
  pub post_rollback : List Text

-- `getattr(hooks, hook_name.value)`
unfoldable pub commands_of : ContainerHooks → HookName → List Text
commands_of hooks pre_update = hooks.pre_update
commands_of hooks post_update = hooks.post_update
commands_of hooks pre_stop = hooks.pre_stop
commands_of hooks pre_rollback = hooks.pre_rollback
commands_of hooks post_rollback = hooks.post_rollback

module _ {Config : Type 0} (agent : Agent Config) where
  -- The loop over the commands: an error is collected, and the next command runs all the same.
  unfoldable pub run_commands_of : Text → List Text → List Error → Exec (Log Config) (List Error)
  run_commands_of container_name [] errors = pure errors
  run_commands_of container_name (command ∷ commands) errors = do
    errors' ←
        try_except
          (do
            request (exec container_name command) (λ log. agent.executed log container_name command)
            pure errors)
          (λ e. pure (errors ++ e ∷ []))
    run_commands_of container_name commands errors'

  unfoldable pub run_hooks :
      Text → Option ContainerHooks → HookName → Exec (Log Config) (List Error)
  unfolding run_commands_of commands_of
  run_hooks container_name none hook_name = pure []
  run_hooks container_name (some hooks) hook_name =
      run_commands_of container_name (commands_of hooks hook_name) []

  -- `for network in networks: try: disconnect … except: log`
  unfoldable pub disconnect_each : Text → Bool → List Text → Exec (Log Config) (Unit {0})
  disconnect_each name force [] = pure tt
  disconnect_each name force (network ∷ networks) = do
    try_except
        (request (disconnect network name force) (λ log. agent.disconnected log network name force))
        (λ e. pure tt)
    disconnect_each name force networks

  unfoldable pub disconnect_all_networks : Container → Bool → Exec (Log Config) (Unit {0})
  unfolding disconnect_each
  disconnect_all_networks container force =
      if is_empty container.name
      then pure tt
      else disconnect_each container.name force (keys (or_else container.networks []))
