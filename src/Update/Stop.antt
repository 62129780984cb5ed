-- ===== src/Update/Stop.antt =====
-- The stopping phase of backend/core/update_actions/update_actions_executor.py, for one item.
use tugtainer.Base.{Bool, ◌&&◌, Option, List, Text, if◌then◌else◌}
use tugtainer.Exec.{get, Error, Exec, pure, ◌>>=◌, ◌>>◌, try_except}
use tugtainer.Agent.{inspect, stop, Log, Agent, request}
use tugtainer.Update.Hooks.{ContainerHooks, pre_stop, pre_update, run_hooks}
use tugtainer.Update.Item.{St, on_log, add_error, add_errors, set_container, is_nil}

module _ {Config : Type 0} (agent : Agent Config) where
  -- The hooks that come before the stop; the second kind only for an updatable container, and only if
  -- the first went well.
  unfoldable pub hooks_before_stop :
      Text → Option ContainerHooks → Bool → Exec (Log Config) (List Error)
  hooks_before_stop name hooks in_update = do
    hook_errors ← run_hooks agent name hooks pre_stop
    if is_nil hook_errors && in_update
        then run_hooks agent name hooks pre_update
        else pure hook_errors

  unfoldable pub stop_and_inspect : Text → Exec (St Config) (Unit {0})
  stop_and_inspect name = do
    on_log (request (stop name) (λ log. agent.stopped log name))
    c ← on_log (request (inspect name) (λ log. agent.inspected log name))
    set_container c

  unfoldable pub stop_running : Text → Option ContainerHooks → Bool → Exec (St Config) (Unit {0})
  unfolding hooks_before_stop stop_and_inspect
  stop_running name hooks in_update = do
    hook_errors ← on_log (hooks_before_stop name hooks in_update)
    if is_nil hook_errors
        then try_except (stop_and_inspect name) add_error
        else add_errors hook_errors

  unfoldable pub stop_item : Text → Option ContainerHooks → Bool → Exec (St Config) (Unit {0})
  unfolding stop_running
  stop_item name hooks in_update = do
    s ← get
    if s.item.was_running then stop_running name hooks in_update else pure tt
