-- ===== src/Update/Item.antt =====
-- The `UpdatePlanItem` of backend/core/update_actions/update_actions_schema.py, and the parts that the
-- phases of backend/core/update_actions/update_actions_executor.py share.
use tugtainer.Base.{
  ℕ, Bool, true, false, ◌&&◌, Option, some, is_some, List, [], ◌∷◌, ◌++◌, Text, if◌then◌else◌,
}
use tugtainer.Docker.{Container, Image, is_running_container}
use tugtainer.Exec.{Error, unhealthy, Exec, pure, raise, ◌>>=◌, ◌>>◌, try_except, modify, get}
use tugtainer.Agent.{inspect, start, run_command, Log, Agent, request}
use tugtainer.ActionResult.{Outcome}
use tugtainer.Update.Wait.{wait_for_container_healthy}

abbrev pub is_nil : List Error → Bool
is_nil [] = true
is_nil (e ∷ es) = false

pub record Item (Config : Type 0) : Type 0 where
  pub container : Container
  pub image_spec : Option Text
  pub was_running : Bool
  pub config : Option Config
  pub commands : List (List Text)
  pub local_image : Option Image
  pub remote_image : Option Image
  pub result : Option Outcome
  pub errors : List Error

-- One item, and the requests so far.
pub record St (Config : Type 0) : Type 0 where
  pub item : Item Config
  pub log : Log Config

module _ {Config : Type 0} where
  -- Code that sends requests and leaves the item alone.
  unfoldable pub on_log : {A : Type 0} → Exec (Log Config) A → Exec (St Config) A
  on_log m s = let (r, log') = m s.log in (r, record { item = s.item; log = log' })

  abbrev pub set_container : Container → Exec (St Config) (Unit {0})
  set_container c = modify (λ s. record s { item = record s.item { container = c } })

  abbrev pub set_result : Outcome → Exec (St Config) (Unit {0})
  set_result r = modify (λ s. record s { item = record s.item { result = some r } })

  -- `item.errors.extend(errors)` and `item.errors.append(e)`
  abbrev pub add_errors : List Error → Exec (St Config) (Unit {0})
  add_errors errors =
      modify (λ s. record s { item = record s.item { errors = s.item.errors ++ errors } })

  abbrev pub add_error : Error → Exec (St Config) (Unit {0})
  add_error e = add_errors (e ∷ [])

  -- _can_update
  unfoldable pub can_update : Item Config → Bool
  can_update item =
      is_some item.local_image
      && is_some item.remote_image
      && is_some item.config
      && is_nil item.errors

  module _ (agent : Agent Config) where
    -- `item.container = await client.container.inspect(item.name)`
    unfoldable pub refresh : Exec (St Config) (Unit {0})
    refresh = do
      s ← get
      c ← on_log (
          request (inspect s.item.container.name)
            (λ log. agent.inspected log s.item.container.name))
      set_container c

    -- `await client.container.start(item.name)`
    unfoldable pub start_item : Exec (St Config) (Unit {0})
    start_item = do
      s ← get
      on_log
          (request (start s.item.container.name) (λ log. agent.started log s.item.container.name))

    -- The wait, with the container that it returns put into the item.
    unfoldable pub await_health : (fuel timeout : ℕ) → Exec (St Config) Bool
    await_health fuel timeout = do
      s ← get
      r ← on_log (wait_for_container_healthy agent fuel s.item.container timeout)
      set_container r.1
      pure r.0

    -- _attempt_start_with_health
    unfoldable pub attempt_start_with_health : (fuel timeout : ℕ) → Exec (St Config) (Unit {0})
    unfolding refresh start_item await_health
    attempt_start_with_health fuel timeout = do
      s ← get
      let go : Exec (St Config) (Unit {0}) = (do
        refresh
        t ← get
        let begin : Exec (St Config) (Unit {0}) = (do
          start_item
          healthy ← await_health fuel timeout
          if healthy then pure tt else raise (unhealthy s.item.container.name))
        if is_running_container t.item.container then pure tt else begin)
      if s.item.was_running then go else pure tt

    -- _run_commands, over the commands that are left.
    unfoldable pub run_each : List (List Text) → Exec (St Config) (Unit {0})
    run_each [] = pure tt
    run_each (c ∷ cs) = do
      try_except (on_log (request (run_command c) (λ log. agent.command_run log c))) add_error
      run_each cs

    unfoldable pub run_commands : Exec (St Config) (Unit {0})
    unfolding run_each
    run_commands = do s ← get; run_each s.item.commands
