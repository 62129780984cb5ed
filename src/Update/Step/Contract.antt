-- ===== src/Update/Step/Contract.antt =====
-- What one round of the update loop of backend/core/update_actions/update_actions_executor.py does to an
-- item that can be updated, and to one that cannot.
use tugtainer.Base.{
  ℕ, ◌<◌, ◌≡◌, refl, ◌∙◌, inl, inr, Bool, true, false, not, ◌&&◌, Option, none, some, or_else, [],
  Text, arith, is_some,
}
use tugtainer.Docker.{Image}
use tugtainer.Exec.{Result, ◌>>=◌}
use tugtainer.Exec.Laws.{Moves, Moves-bind, Moves-pure, Moves-if, Moves-try}
use tugtainer.Exec.Returns.{Returns, Returns-seq}
use tugtainer.Agent.{Call, inspect, start, sleep, Agent, Configs}
use tugtainer.Update.Wait.Health.{ClockRuns}
use tugtainer.Update.Hooks.{ContainerHooks}
use tugtainer.Update.Item.{Item, St, can_update}
use tugtainer.Update.Step.{start_again, update_parts, attempt, finish, step}
use tugtainer.Update.Step.Results.{anything, Ended, Finished, update_item-Finished}
use tugtainer.Update.Step.Total.{step_total}
use tugtainer.Update.Keeps.{
  Keeps, keeps, Later-mem, add_error-Keeps, attempt_start_with_health-Keeps,
}

-- Looking at a container, starting it and waiting for it.
unfoldable pub is_gentle : {Config : Type 0} → Call Config → Bool
is_gentle (inspect n) = true
is_gentle (start n) = true
is_gentle sleep = true
is_gentle _ = false

module _ (configs : Configs) (agent : Agent configs.Config) (fuel timeout : ℕ)
    (hooks : Option ContainerHooks) where
  open configs use {Config}

  abbrev go : Bool → Bool → St Config → Result (Unit {0}) × St Config
  go = step configs agent fuel timeout hooks

  start_again-Keeps :
      (allowed : Call Config → Bool)
      → ((n : Text) → allowed (inspect n) ≡ true)
      → allowed sleep ≡ true
      → ((n : Text) → allowed (start n) ≡ true)
      → Moves (keeps allowed) (start_again configs agent fuel timeout hooks)
  unfolding start_again
  start_again-Keeps allowed i z b =
      Moves-try (keeps allowed) _ _
        (attempt_start_with_health-Keeps agent allowed i z b fuel timeout) (add_error-Keeps allowed)

  gentle_start : Moves (keeps is_gentle) (start_again configs agent fuel timeout hooks)
  unfolding is_gentle
  gentle_start = start_again-Keeps is_gentle (λ n. refl) refl (λ n. refl)

  attempt_gentle :
      (in_update : Bool) (item : Item Config)
      → (in_update && can_update item) ≡ false
      → Moves (keeps is_gentle) (attempt configs agent fuel timeout hooks in_update item)
  unfolding attempt
  attempt_gentle false item h = Moves-pure (keeps is_gentle) false
  attempt_gentle true item h =
      rw h (Moves-bind (keeps is_gentle) _ _ gentle_start λ _. Moves-pure (keeps is_gentle) true)

  finish-Keeps :
      (allowed : Call Config → Bool)
      → Moves (keeps allowed) (start_again configs agent fuel timeout hooks)
      → (is_affected continued : Bool)
      → Moves (keeps allowed) (finish configs agent fuel timeout hooks is_affected continued)
  unfolding finish
  finish-Keeps allowed h is_affected continued =
      Moves-if (keeps allowed) (not continued && is_affected) _ _ h (Moves-pure (keeps allowed) tt)

  -- A round for an item that is not to be updated, or that cannot be because a preparation or a hook
  -- failed, keeps its result, and sends no request but to inspect and to start a container.
  pub step_gentle :
      (in_update is_affected : Bool) (s : St Config)
      → (in_update && can_update s.item) ≡ false
      → Keeps is_gentle s (go in_update is_affected s).1
  unfolding step ◌>>=◌
  step_gentle in_update is_affected s h =
      (Moves-bind (keeps is_gentle) _ _ (attempt_gentle in_update s.item h)
          (finish-Keeps is_gentle gentle_start is_affected)).at
        s

  update_parts-Finished :
      (config : Config) (l r : Option Image) (spec : Option Text)
      → is_some l ≡ true
      → is_some r ≡ true
      → Returns
          (Finished configs agent fuel timeout hooks config)
          (update_parts configs agent fuel timeout hooks (some config) l r spec)
  update_parts-Finished config none r spec hl hr = absurd (ground (arith, hl))
  update_parts-Finished config (some l) none spec hl hr = absurd (ground (arith, hr))
  update_parts-Finished config (some l) (some r) spec hl hr =
      update_item-Finished configs agent fuel timeout hooks config l r (or_else spec [])

  attempt-Finished :
      (config : Config) (item : Item Config)
      → can_update item ≡ true
      → item.config ≡ some config
      → Returns
          (Finished configs agent fuel timeout hooks config)
          (attempt configs agent fuel timeout hooks true item)
  unfolding attempt can_update
  attempt-Finished config item h e = rw h (
      rw e (
        update_parts-Finished config item.local_image item.remote_image item.image_spec
          (ground (arith, h)) (ground (arith, h))))

  finish-Finished :
      (config : Config) (is_affected continued : Bool) (t : St Config)
      → Finished configs agent fuel timeout hooks config continued t
      → Finished configs agent fuel timeout hooks config true
          (finish configs agent fuel timeout hooks is_affected continued t).1
  finish-Finished config is_affected continued t h =
      let k =
        (finish-Keeps anything (start_again-Keeps anything (λ n. refl) refl (λ n. refl)) is_affected
            continued).at
          t in
      elim h [
        | inl u ↦ inl (k.result ∙ u)
        | inr (inl r, m) ↦ inr (inl (k.result ∙ r), Later-mem m k.log)
        | inr (inr f, m) ↦ inr (inr (k.result ∙ f), Later-mem m k.log)
      ]

  -- Where the clock runs and the fuel is more than the health timeout, a round for an item that can be
  -- updated leaves it as updated, or as rolled back or failed; in the last two cases the creation of a container from the configuration before the update was asked for.
  pub step_finished :
      ClockRuns agent
      → timeout < fuel
      → (is_affected : Bool) (config : Config) (s : St Config) → can_update s.item ≡ true
      → s.item.config ≡ some config
      → Ended configs agent fuel timeout hooks config (go true is_affected s).1
  unfolding step ◌>>=◌
  step_finished runs le is_affected config s h e =
      (Returns-seq (Finished configs agent fuel timeout hooks config)
          (λ b t. Ended configs agent fuel timeout hooks config t) _ _
          (attempt-Finished config s.item h e)
          (λ continued t f c done. finish-Finished config is_affected continued t f)).at
        s tt (step_total configs agent fuel timeout hooks runs le true is_affected s)
