-- ===== src/Update/Run/Ending.antt =====
-- `execute_update_plan` of backend/core/update_actions/update_actions_executor.py comes to its end.
use tugtainer.Base.{ℕ, ◌<◌, ◌≡◌, Bool, Option, none, some, List, [], ◌∷◌, Text, Dict, lookup, arith}
use tugtainer.Docker.{Container}
use tugtainer.Db.{HostsModel}
use tugtainer.ActionResult.{UpdatePlanResult}
use tugtainer.Exec.{Answer, value, ok, Exec}
use tugtainer.Exec.Laws.{
  some_result, NoRaise, NoRaise-bind, NoRaise-pure, NoRaise-if, NoRaise-get, Ends, Ends-bind,
  Ends-pure, Ends-if, Ends-get, no_raise_rules, ends_rules,
}
use tugtainer.Agent.{Log, Agent, Configs, request, sleep}
use tugtainer.Progress.{TtlCache}
use tugtainer.Plan.Build.{UpdatePlan}
use tugtainer.Update.Wait.Health.{ClockRuns}
use tugtainer.Update.Hooks.{ContainerHooks}
use tugtainer.Update.Item.{Item, St, on_log}
use tugtainer.Update.Prepare.{
  get_local_image, pull_new_image, prepare_config, inspect_spec, pull_spec, prepare,
}
use tugtainer.Update.Stop.{hooks_before_stop, stop_and_inspect, stop_running, stop_item}
use tugtainer.Update.Rules.{
  Ends-request, Ends-on_log, NoRaise-on_log, NoRaise-run_hooks, Ends-run_hooks,
}
use tugtainer.Update.Step.Total.{NoRaise-step, Ends-step}
use tugtainer.Update.Run.{
  Run, Database, run_item, at_item, for_each, from_database, cache_to, prepare_all, stop_all,
  update_all, record_result, run_phases, execute_update_plan,
}

module _ (configs : Configs) (ttl : TtlCache) where
  open configs use {Config}

  Ends-run_item :
      (name : Text) (m : Exec (St Config) (Unit {0})) (o : Option (Item Config))
      → Ends m
      → Ends (run_item configs ttl name m o)
  Ends-run_item name m none h = record { at = λ s e. ground (arith, e) }
  Ends-run_item name m (some item) h = record {
    at = λ s. h.at (record { item = item; log = s.log });
  }

  NoRaise-run_item :
      (name : Text) (m : Exec (St Config) (Unit {0})) (o : Option (Item Config))
      → NoRaise m
      → NoRaise (run_item configs ttl name m o)
  NoRaise-run_item name m none h = record { at = λ s e k. ground (arith, k) }
  NoRaise-run_item name m (some item) h = record {
    at = λ s. h.at (record { item = item; log = s.log });
  }

  Ends-at_item :
      (name : Text) (m : Exec (St Config) (Unit {0})) → Ends m → Ends (at_item configs ttl name m)
  unfolding at_item
  Ends-at_item name m h = record { at = λ s. (Ends-run_item name m (lookup name s.items) h).at s }

  NoRaise-at_item :
      (name : Text) (m : Exec (St Config) (Unit {0}))
      → NoRaise m
      → NoRaise (at_item configs ttl name m)
  unfolding at_item
  NoRaise-at_item name m h = record {
    at = λ s. (NoRaise-run_item name m (lookup name s.items) h).at s;
  }

  Ends-for_each :
      (names : List Text) (f : Text → Exec (Run Config ttl) (Unit {0}))
      → ((n : Text) → Ends (f n))
      → Ends (for_each configs ttl names f)
  unfolding for_each
  Ends-for_each [] f h = Ends-pure tt
  Ends-for_each (n ∷ names) f h = Ends-bind _ _ (h n) (λ _. Ends-for_each names f h)

  NoRaise-for_each :
      (names : List Text) (f : Text → Exec (Run Config ttl) (Unit {0}))
      → ((n : Text) → NoRaise (f n))
      → NoRaise (for_each configs ttl names f)
  unfolding for_each
  NoRaise-for_each [] f h = NoRaise-pure tt
  NoRaise-for_each (n ∷ names) f h = NoRaise-bind _ _ (h n) (λ _. NoRaise-for_each names f h)

  module _ (agent : Agent Config) where
    Ends-inspect_spec : (o : Option Text) → Ends (inspect_spec configs agent o)
    Ends-inspect_spec none = search ends_rules
    Ends-inspect_spec (some spec) = Ends-on_log _ (Ends-request _ _)

    Ends-pull_spec : (o : Option Text) → Ends (pull_spec configs agent o)
    Ends-pull_spec none = search ends_rules
    Ends-pull_spec (some spec) = Ends-on_log _ (Ends-request _ _)

    Ends-prepare : Ends (prepare configs agent)
    unfolding prepare get_local_image pull_new_image prepare_config
    Ends-prepare =
        search (ends_rules, Ends-inspect_spec, Ends-pull_spec, Ends-on_log, Ends-request) depth 10

    NoRaise-stop_running :
        (name : Text) (hooks : Option ContainerHooks) (b : Bool)
        → NoRaise (stop_running agent name hooks b)
    unfolding stop_running hooks_before_stop
    NoRaise-stop_running name hooks b =
        search (no_raise_rules, NoRaise-on_log, NoRaise-run_hooks) depth 8

    Ends-stop_running :
        (name : Text) (hooks : Option ContainerHooks) (b : Bool)
        → Ends (stop_running agent name hooks b)
    unfolding stop_running hooks_before_stop stop_and_inspect
    Ends-stop_running name hooks b =
        search (ends_rules, Ends-on_log, Ends-run_hooks, Ends-request) depth 8

    Ends-stop_item :
        (name : Text) (hooks : Option ContainerHooks) (b : Bool)
        → Ends (stop_item agent name hooks b)
    unfolding stop_item
    Ends-stop_item name hooks b =
        Ends-bind _ _ Ends-get λ s. Ends-if _ _ _ (Ends-stop_running name hooks b) (Ends-pure tt)

    NoRaise-stop_item :
        (name : Text) (hooks : Option ContainerHooks) (b : Bool)
        → NoRaise (stop_item agent name hooks b)
    unfolding stop_item
    NoRaise-stop_item name hooks b =
        NoRaise-bind _ _ NoRaise-get
          λ s. NoRaise-if _ _ _ (NoRaise-stop_running name hooks b) (NoRaise-pure tt)

    NoRaise-pause : NoRaise (on_log {Config = Config} (request sleep (λ _. value tt)))
    unfolding on_log request
    NoRaise-pause = record { at = λ s e h. ground (arith, h) }

    NoRaise-prepare : NoRaise (prepare configs agent)
    unfolding prepare
    NoRaise-prepare = search (no_raise_rules, NoRaise-pause) depth 8

  module _ (agent : Agent Config) (database : Database Config) (fuel : ℕ) (host : HostsModel)
      (containers : List Container) (plan : UpdatePlan) where
    Ends-from_database :
        {A : Type 0} (answer : Log Config → Answer A)
        → Ends (from_database configs ttl agent database fuel host containers plan answer)
    unfolding from_database
    Ends-from_database answer = record { at = λ s h. ground (arith, h) }

    Ends-prepare_all : Ends (prepare_all configs ttl agent database fuel host containers plan)
    unfolding prepare_all
    Ends-prepare_all = Ends-bind _ _ Ends-get λ s.
        Ends-for_each _ _ λ n. Ends-if _ _ _ (Ends-at_item n _ (Ends-prepare agent)) (Ends-pure tt)

    NoRaise-prepare_all : NoRaise (prepare_all configs ttl agent database fuel host containers plan)
    unfolding prepare_all
    NoRaise-prepare_all = NoRaise-bind _ _ NoRaise-get λ s.
        NoRaise-for_each _ _
          λ n. NoRaise-if _ _ _ (NoRaise-at_item n _ (NoRaise-prepare agent)) (NoRaise-pure tt)

    Ends-stop_all :
        (hooks : Dict ContainerHooks)
        → Ends (stop_all configs ttl agent database fuel host containers plan hooks)
    unfolding stop_all
    Ends-stop_all hooks = Ends-for_each _ _ λ n. Ends-at_item n _ (Ends-stop_item agent n _ _)

    NoRaise-stop_all :
        (hooks : Dict ContainerHooks)
        → NoRaise (stop_all configs ttl agent database fuel host containers plan hooks)
    unfolding stop_all
    NoRaise-stop_all hooks =
        NoRaise-for_each _ _ λ n. NoRaise-at_item n _ (NoRaise-stop_item agent n _ _)

    NoRaise-update_all :
        (hooks : Dict ContainerHooks)
        → NoRaise (update_all configs ttl agent database fuel host containers plan hooks)
    unfolding update_all
    NoRaise-update_all hooks = NoRaise-for_each _ _ λ n.
        NoRaise-at_item n _
          (NoRaise-step configs agent fuel host.container_hc_timeout (lookup n hooks) _ _)

    module _ (runs : ClockRuns agent) (le : host.container_hc_timeout < fuel) where
      Ends-update_all :
          (hooks : Dict ContainerHooks)
          → Ends (update_all configs ttl agent database fuel host containers plan hooks)
      unfolding update_all
      Ends-update_all hooks = Ends-for_each _ _ λ n.
          Ends-at_item n _
            (Ends-step configs agent fuel host.container_hc_timeout (lookup n hooks) runs le _ _)

      Ends-run_phases :
          (allow : Bool) (key : Text)
          → Ends (run_phases configs ttl agent database fuel host containers plan allow key)
      unfolding run_phases record_result cache_to
      Ends-run_phases allow key =
          search (ends_rules, Ends-from_database, Ends-prepare_all, Ends-stop_all, Ends-update_all)
            depth 14

      pub Ends-execute :
          (allow : Bool) (key : Text)
          → Ends
              (execute_update_plan configs ttl agent database fuel host containers plan allow key)
      unfolding execute_update_plan
      Ends-execute allow key =
          Ends-bind _ _ Ends-get λ s. Ends-if _ _ _ (Ends-pure none) (Ends-run_phases allow key)

    -- The database answers what it is asked.
    pub record DatabaseAnswers : Type 0 where
      pub hooks_found :
          (log : Log Config) (names : List Text)
          → (m : Dict ContainerHooks) × (database.hooks_map log names ≡ value m)
      pub commits : (log : Log Config) → database.committed log ≡ value tt

    module _ (answers : DatabaseAnswers) where
      NoRaise-commit :
          NoRaise
            (from_database configs ttl agent database fuel host containers plan database.committed)
      unfolding from_database
      NoRaise-commit = record { at = λ s e. rw (answers.commits s.log) (λ h. ground (arith, h)) }

      NoRaise-hooks :
          (names : List Text)
          → NoRaise (
              from_database configs ttl agent database fuel host containers plan
                (λ log. database.hooks_map log names))
      unfolding from_database
      NoRaise-hooks names = record {
        at = λ s e. rw ((answers.hooks_found s.log names).1) (λ h. ground (arith, h));
      }

      NoRaise-execute :
          (allow : Bool) (key : Text)
          → NoRaise
              (execute_update_plan configs ttl agent database fuel host containers plan allow key)
      unfolding execute_update_plan run_phases record_result cache_to
      NoRaise-execute allow key =
          search
            (
              no_raise_rules, NoRaise-commit, NoRaise-hooks, NoRaise-prepare_all, NoRaise-stop_all,
              NoRaise-update_all,
            )
            depth 16

      -- Where the database answers, the clock runs and the fuel is more than the health timeout, the
      -- execution of a plan ends and raises nothing, whatever the agent and the configuration code answer.
      pub execute_update_plan_total :
          ClockRuns agent
          → host.container_hc_timeout < fuel
          → (allow_hooks : Bool) (status_key : Text) (s : Run Config ttl)
          → (r : Option UpdatePlanResult) × ((execute_update_plan configs ttl agent database fuel
                host containers plan allow_hooks status_key s).0
              ≡ ok r)
      execute_update_plan_total runs le allow key s =
          some_result _ ((Ends-execute runs le allow key).at s) ((NoRaise-execute allow key).at s)
