-- ===== src/Update/Rules.antt =====
-- The parts of backend/core/update_actions/update_actions_executor.py end, and those that catch
-- exceptions raise none.
use tugtainer.Base.{ℕ, ◌<◌, Bool, Option, none, some, List, [], ◌∷◌, Text, arith}
use tugtainer.Docker.{Container}
use tugtainer.Exec.{Error, Answer, Exec}
use tugtainer.Exec.Laws.{
  NoRaise, Ends, Ends-bind, Ends-try, Ends-pure, Ends-raise, Ends-get, Ends-modify, Ends-if,
  no_raise_rules, ends_rules,
}
use tugtainer.Agent.{Call, Log, Agent, request, Configs}
use tugtainer.Update.Wait.Health.{ClockRuns, wait-Ends}
use tugtainer.Update.Hooks.{
  ContainerHooks, HookName, run_commands_of, run_hooks, disconnect_each, disconnect_all_networks,
}
use tugtainer.Update.Item.{
  on_log, refresh, start_item, await_health, attempt_start_with_health, run_each, run_commands,
}
use tugtainer.Update.Step.{
  run_item_hooks, disconnect_item, remove_item, stop_current, create_from, refresh_if_found,
}

module _ {Config A : Type 0} where
  pub Ends-request :
      (call : Call Config) (answer : Log Config → Answer A) → Ends (request call answer)
  unfolding request
  Ends-request call answer = record { at = λ log h. ground (arith, h) }

  pub Ends-on_log : (m : Exec (Log Config) A) → Ends m → Ends (on_log m)
  unfolding on_log
  Ends-on_log m h = record { at = λ s. h.at s.log }

  pub NoRaise-on_log : (m : Exec (Log Config) A) → NoRaise m → NoRaise (on_log m)
  unfolding on_log
  NoRaise-on_log m h = record { at = λ s. h.at s.log }

module _ {Config : Type 0} (agent : Agent Config) where
  pub NoRaise-run_commands_of :
      (name : Text) (commands : List Text) (errors : List Error)
      → NoRaise (run_commands_of agent name commands errors)
  unfolding run_commands_of
  NoRaise-run_commands_of name [] errors = search no_raise_rules
  NoRaise-run_commands_of name (command ∷ commands) errors =
      search (no_raise_rules, NoRaise-run_commands_of name commands)

  pub Ends-run_commands_of :
      (name : Text) (commands : List Text) (errors : List Error)
      → Ends (run_commands_of agent name commands errors)
  unfolding run_commands_of
  Ends-run_commands_of name [] errors = search ends_rules
  Ends-run_commands_of name (command ∷ commands) errors =
      search (ends_rules, Ends-request, Ends-run_commands_of name commands)

  -- Hooks never raise, whatever the agent answers.
  pub NoRaise-run_hooks :
      (name : Text) (hooks : Option ContainerHooks) (hook : HookName)
      → NoRaise (run_hooks agent name hooks hook)
  unfolding run_hooks
  NoRaise-run_hooks name none hook = search no_raise_rules
  NoRaise-run_hooks name (some hooks) hook = NoRaise-run_commands_of name _ []

  pub Ends-run_hooks :
      (name : Text) (hooks : Option ContainerHooks) (hook : HookName)
      → Ends (run_hooks agent name hooks hook)
  unfolding run_hooks
  Ends-run_hooks name none hook = search ends_rules
  Ends-run_hooks name (some hooks) hook = Ends-run_commands_of name _ []

  pub Ends-disconnect_each :
      (name : Text) (force : Bool) (networks : List Text)
      → Ends (disconnect_each agent name force networks)
  unfolding disconnect_each
  Ends-disconnect_each name force [] = search ends_rules
  Ends-disconnect_each name force (network ∷ networks) =
      Ends-bind _ _ (Ends-try _ _ (Ends-request _ _) (λ e. Ends-pure tt))
        (λ _. Ends-disconnect_each name force networks)

  pub Ends-disconnect_all_networks :
      (c : Container) (force : Bool) → Ends (disconnect_all_networks agent c force)
  unfolding disconnect_all_networks
  Ends-disconnect_all_networks c force = search (ends_rules, Ends-disconnect_each)

  pub Ends-run_each : (cs : List (List Text)) → Ends (run_each agent cs)
  unfolding run_each
  Ends-run_each [] = Ends-pure tt
  Ends-run_each (c ∷ cs) =
      Ends-bind _ _ (Ends-try _ _ (Ends-on_log _ (Ends-request _ _)) (λ e. Ends-modify _))
        (λ _. Ends-run_each cs)

  pub Ends-refresh : Ends (refresh agent)
  unfolding refresh
  Ends-refresh = search (ends_rules, Ends-on_log, Ends-request)

  pub Ends-start_item : Ends (start_item agent)
  unfolding start_item
  Ends-start_item = search (ends_rules, Ends-on_log, Ends-request)

  pub Ends-run_commands : Ends (run_commands agent)
  unfolding run_commands
  Ends-run_commands = search (ends_rules, Ends-run_each)

  module _ (runs : ClockRuns agent) (fuel timeout : ℕ) (le : timeout < fuel) where
    pub Ends-await_health : Ends (await_health agent fuel timeout)
    unfolding await_health
    Ends-await_health =
        search (ends_rules, Ends-on_log, λ (c : Container). wait-Ends agent runs fuel c timeout le)

    pub Ends-attempt_start_with_health : Ends (attempt_start_with_health agent fuel timeout)
    unfolding attempt_start_with_health
    Ends-attempt_start_with_health = Ends-bind _ _ Ends-get λ s.
        Ends-if _ _ _
          (Ends-bind _ _ Ends-refresh λ _. Ends-bind _ _ Ends-get λ t.
            Ends-if _ _ _ (Ends-pure tt) (
              Ends-bind _ _ Ends-start_item λ _.
                Ends-bind _ _ Ends-await_health
                  λ healthy. Ends-if _ _ _ (Ends-pure tt) (Ends-raise _)))
          (Ends-pure tt)

module _ (configs : Configs) (agent : Agent configs.Config) (fuel timeout : ℕ)
    (hooks : Option ContainerHooks) where
  pub Ends-run_item_hooks :
      (hook : HookName) → Ends (run_item_hooks configs agent fuel timeout hooks hook)
  unfolding run_item_hooks
  Ends-run_item_hooks hook = search (ends_rules, Ends-on_log, Ends-run_hooks)

  pub Ends-disconnect_item : Ends (disconnect_item configs agent fuel timeout hooks)
  unfolding disconnect_item
  Ends-disconnect_item = search (ends_rules, Ends-on_log, Ends-disconnect_all_networks)

  pub Ends-remove_item : Ends (remove_item configs agent fuel timeout hooks)
  unfolding remove_item
  Ends-remove_item = search (ends_rules, Ends-on_log, Ends-request)

  pub Ends-stop_current : Ends (stop_current configs agent fuel timeout hooks)
  unfolding stop_current
  Ends-stop_current = search (ends_rules, Ends-on_log, Ends-request)

  pub Ends-create_from :
      (config : configs.Config) → Ends (create_from configs agent fuel timeout hooks config)
  unfolding create_from
  Ends-create_from config = search (ends_rules, Ends-on_log, Ends-request)

  pub Ends-refresh_if_found : Ends (refresh_if_found configs agent fuel timeout hooks)
  unfolding refresh_if_found
  Ends-refresh_if_found = search (ends_rules, Ends-on_log, Ends-request, Ends-refresh)
