-- ===== src/Update/Step/Total.antt =====
-- No exception leaves the loop over `plan.order` in
-- backend/core/update_actions/update_actions_executor.py, and each round of it ends.
use tugtainer.Base.{
  ℕ, ◌<◌, ◌≡◌, ◌≢◌, refl, Bool, true, false, Option, none, some, or_else, [], Text,
}
use tugtainer.Docker.{Image}
use tugtainer.Exec.{Error, Result, ok, err, stuck}
use tugtainer.Exec.Laws.{
  NoRaise, NoRaise-bind, NoRaise-pure, NoRaise-if, NoRaise-try, NoRaise-modify, NoRaise-get, Ends,
  Ends-bind, Ends-pure, Ends-lift, Ends-get, Ends-modify, Ends-if, Ends-try,
}
use tugtainer.Agent.{Agent, Configs}
use tugtainer.Update.Wait.Health.{ClockRuns}
use tugtainer.Update.Hooks.{ContainerHooks}
use tugtainer.Update.Item.{St, can_update}
use tugtainer.Update.Step.{
  recreate, remove_unhealthy, start_recreated, update_body, cleanup, try_update, tag_previous,
  restart, settle, restore, roll_back, update_item, start_again, update_parts, step,
}
use tugtainer.Update.Rules.{
  Ends-on_log, Ends-request, Ends-refresh, Ends-start_item, Ends-run_commands, Ends-await_health,
  Ends-attempt_start_with_health, Ends-run_item_hooks, Ends-disconnect_item, Ends-remove_item,
  Ends-stop_current, Ends-create_from, Ends-refresh_if_found,
}

module _ (configs : Configs) (agent : Agent configs.Config) (fuel timeout : ℕ)
    (hooks : Option ContainerHooks) where
  open configs use {Config}

  Ends-recreate :
      (config : Config) (remote_image : Image)
      → Ends (recreate configs agent fuel timeout hooks config remote_image)
  unfolding recreate
  Ends-recreate config remote_image =
      Ends-bind _ _ (Ends-refresh_if_found configs agent fuel timeout hooks) λ _.
        Ends-bind _ _ (Ends-disconnect_item configs agent fuel timeout hooks) λ _.
          Ends-bind _ _ (Ends-remove_item configs agent fuel timeout hooks)
            λ _. Ends-bind _ _ (Ends-lift _) (Ends-create_from configs agent fuel timeout hooks)

  Ends-remove_unhealthy : Ends (remove_unhealthy configs agent fuel timeout hooks)
  unfolding remove_unhealthy
  Ends-remove_unhealthy =
      Ends-bind _ _ (Ends-run_item_hooks configs agent fuel timeout hooks _) λ _.
        Ends-bind _ _ (Ends-stop_current configs agent fuel timeout hooks) λ _.
          Ends-bind _ _ (Ends-refresh agent) λ _.
            Ends-bind _ _ (Ends-disconnect_item configs agent fuel timeout hooks)
              λ _. Ends-remove_item configs agent fuel timeout hooks

  Ends-cleanup : Ends (cleanup configs agent fuel timeout hooks)
  unfolding cleanup
  Ends-cleanup = Ends-bind _ _ Ends-get λ s.
      Ends-bind _ _ (Ends-on_log _ (Ends-request _ _)) λ here.
        Ends-if _ _ _
          (Ends-bind _ _ (Ends-refresh agent) λ _. Ends-bind _ _ Ends-get λ t.
            Ends-bind _ _
              (Ends-if _ _ _ (Ends-run_item_hooks configs agent fuel timeout hooks _)
                (Ends-pure tt))
              λ _. Ends-bind _ _ (Ends-stop_current configs agent fuel timeout hooks) λ _.
                Ends-bind _ _ (Ends-refresh agent) λ _.
                  Ends-bind _ _ (Ends-disconnect_item configs agent fuel timeout hooks)
                    λ _. Ends-remove_item configs agent fuel timeout hooks)
          (Ends-pure tt)

  module _ (runs : ClockRuns agent) (le : timeout < fuel) where
    Ends-start_recreated : Ends (start_recreated configs agent fuel timeout hooks)
    unfolding start_recreated
    Ends-start_recreated = Ends-bind _ _ (Ends-start_item agent) λ _.
        Ends-bind _ _ (Ends-run_commands agent)
          λ _. Ends-bind _ _ (Ends-refresh agent) λ _. Ends-await_health agent runs fuel timeout le

    Ends-update_body :
        (config : Config) (remote_image : Image)
        → Ends (update_body configs agent fuel timeout hooks config remote_image)
    unfolding update_body
    Ends-update_body config remote_image = Ends-bind _ _ (Ends-recreate config remote_image) λ _.
        Ends-bind _ _ Ends-get λ s.
          Ends-if _ _ _
            (Ends-bind _ _ Ends-start_recreated λ healthy.
              Ends-if _ _ _
                (Ends-bind _ _ (Ends-modify _) λ _.
                  Ends-bind _ _ (Ends-run_item_hooks configs agent fuel timeout hooks _)
                    λ _. Ends-pure true)
                (Ends-bind _ _ Ends-remove_unhealthy λ _. Ends-pure false))
            (Ends-bind _ _ (Ends-modify _) λ _. Ends-pure true)

    Ends-try_update :
        (config : Config) (remote_image : Image)
        → Ends (try_update configs agent fuel timeout hooks config remote_image)
    unfolding try_update
    Ends-try_update config remote_image = Ends-try _ _ (Ends-update_body config remote_image) λ e.
        Ends-bind _ _ (Ends-modify _)
          λ _. Ends-bind _ _ (Ends-try _ _ Ends-cleanup (λ d. Ends-modify _)) λ _. Ends-pure false

    Ends-restart : Ends (restart configs agent fuel timeout hooks)
    unfolding restart
    Ends-restart =
        Ends-bind _ _ (Ends-start_item agent)
          λ _. Ends-bind _ _ (Ends-run_commands agent) λ _. Ends-refresh agent

    Ends-settle : Ends (settle configs agent fuel timeout hooks)
    unfolding settle
    Ends-settle =
        Ends-bind _ _ (Ends-run_item_hooks configs agent fuel timeout hooks _)
          λ _. Ends-await_health agent runs fuel timeout le

    Ends-restore : (config : Config) → Ends (restore configs agent fuel timeout hooks config)
    unfolding restore
    Ends-restore config =
        Ends-bind _ _ (Ends-create_from configs agent fuel timeout hooks config)
          λ _. Ends-bind _ _ Ends-restart λ _. Ends-bind _ _ (Ends-modify _) λ _. Ends-settle

    Ends-roll_back :
        (config : Config) (local_image : Image) (spec : Text)
        → Ends (roll_back configs agent fuel timeout hooks config local_image spec)
    unfolding roll_back tag_previous
    Ends-roll_back config local_image spec =
        Ends-bind _ _ (Ends-try _ _ (Ends-on_log _ (Ends-request _ _)) (λ e. Ends-modify _)) λ _.
          Ends-try _ _ (Ends-restore config) λ e.
            Ends-bind _ _ (Ends-modify _) λ _. Ends-bind _ _ (Ends-modify _) λ _. Ends-pure false

    Ends-start_again : Ends (start_again configs agent fuel timeout hooks)
    unfolding start_again
    Ends-start_again =
        Ends-try _ _ (Ends-attempt_start_with_health agent runs fuel timeout le)
          (λ e. Ends-modify _)

    Ends-update_parts :
        (c : Option Config) (l r : Option Image) (spec : Option Text)
        → Ends (update_parts configs agent fuel timeout hooks c l r spec)
    unfolding update_item
    Ends-update_parts none l r spec = Ends-pure true
    Ends-update_parts (some c) none r spec = Ends-pure true
    Ends-update_parts (some c) (some l) none spec = Ends-pure true
    Ends-update_parts (some c) (some l) (some r) spec =
        Ends-bind _ _ (Ends-try_update c r)
          λ done. Ends-if _ _ _ (Ends-pure true) (Ends-roll_back c l (or_else spec []))

    pub Ends-step :
        (in_update is_affected : Bool)
        → Ends (step configs agent fuel timeout hooks in_update is_affected)
    unfolding step
    Ends-step in_update is_affected = Ends-bind _ _ Ends-get λ s.
        Ends-bind _ _
          (Ends-if in_update _ _
            (Ends-if (can_update s.item) _ _
              (Ends-update_parts s.item.config s.item.local_image s.item.remote_image
                s.item.image_spec)
              (Ends-bind _ _ Ends-start_again λ _. Ends-pure true))
            (Ends-pure false))
          λ continued. Ends-if _ _ _ Ends-start_again (Ends-pure tt)

  NoRaise-try_update :
      (config : Config) (remote_image : Image)
      → NoRaise (try_update configs agent fuel timeout hooks config remote_image)
  unfolding try_update
  NoRaise-try_update config remote_image = NoRaise-try _ _ λ e.
      NoRaise-bind _ _ (NoRaise-modify _)
        λ _. NoRaise-bind _ _ (NoRaise-try _ _ (λ d. NoRaise-modify _)) λ _. NoRaise-pure false

  NoRaise-roll_back :
      (config : Config) (local_image : Image) (spec : Text)
      → NoRaise (roll_back configs agent fuel timeout hooks config local_image spec)
  unfolding roll_back
  NoRaise-roll_back config local_image spec =
      NoRaise-bind _ _ (NoRaise-try _ _ (λ e. NoRaise-modify _)) λ _. NoRaise-try _ _ λ e.
        NoRaise-bind _ _ (NoRaise-modify _)
          λ _. NoRaise-bind _ _ (NoRaise-modify _) λ _. NoRaise-pure false

  NoRaise-start_again : NoRaise (start_again configs agent fuel timeout hooks)
  unfolding start_again
  NoRaise-start_again = NoRaise-try _ _ (λ e. NoRaise-modify _)

  NoRaise-update_parts :
      (c : Option Config) (l r : Option Image) (spec : Option Text)
      → NoRaise (update_parts configs agent fuel timeout hooks c l r spec)
  unfolding update_item
  NoRaise-update_parts none l r spec = NoRaise-pure true
  NoRaise-update_parts (some c) none r spec = NoRaise-pure true
  NoRaise-update_parts (some c) (some l) none spec = NoRaise-pure true
  NoRaise-update_parts (some c) (some l) (some r) spec =
      NoRaise-bind _ _ (NoRaise-try_update c r)
        λ done. NoRaise-if _ _ _ (NoRaise-pure true) (NoRaise-roll_back c l (or_else spec []))

  pub NoRaise-step :
      (in_update is_affected : Bool)
      → NoRaise (step configs agent fuel timeout hooks in_update is_affected)
  unfolding step
  NoRaise-step in_update is_affected = NoRaise-bind _ _ NoRaise-get λ s.
      NoRaise-bind _ _
        (NoRaise-if in_update _ _
          (NoRaise-if (can_update s.item) _ _
            (NoRaise-update_parts s.item.config s.item.local_image s.item.remote_image
              s.item.image_spec)
            (NoRaise-bind _ _ NoRaise-start_again λ _. NoRaise-pure true))
          (NoRaise-pure false))
        λ continued. NoRaise-if _ _ _ NoRaise-start_again (NoRaise-pure tt)

  returns_of : (r : Result (Unit {0})) → ((e : Error) → r ≢ err e) → r ≢ stuck → r ≡ ok tt
  returns_of (ok u) n h = refl
  returns_of (err e) n h = absurd (n e refl)
  returns_of stuck n h = absurd (h refl)

  -- Where the clock runs and the fuel is more than the health timeout, a round of the update loop comes
  -- to its end and lets no exception out, whatever the agent and the configuration code answer.
  pub step_total :
      ClockRuns agent
      → timeout < fuel
      → (in_update is_affected : Bool) (s : St Config)
      → (step configs agent fuel timeout hooks in_update is_affected s).0 ≡ ok tt
  step_total runs le in_update is_affected s =
      returns_of _ ((NoRaise-step in_update is_affected).at s)
        ((Ends-step runs le in_update is_affected).at s)
