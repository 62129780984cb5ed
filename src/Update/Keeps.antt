-- ===== src/Update/Keeps.antt =====
-- What the parts of backend/core/update_actions/update_actions_executor.py leave alone: the result and the
-- configuration of the item, and the requests that were sent before.
use mathlib.Core.List.{Memᴰ}
use tugtainer.Base.{
  ℕ, zero, suc, ◌+◌, inl, inr, Bool-cases, ltb, is_empty, ◌≡◌, refl, ◌∙◌, Bool, true, Option, none,
  some, List, [], ◌∷◌, Text,
}
use tugtainer.Docker.{Container, has_healthcheck, is_running_container}
use tugtainer.Exec.{Error, Answer, Exec, pure}
use tugtainer.Exec.Laws.{
  Preorder, Moves, Moves-bind, Moves-pure, Moves-raise, Moves-get, Moves-modify, Moves-if,
  Moves-try,
}
use tugtainer.Agent.{
  Call, sleep, inspect, start, exec, disconnect, run_command, Log, Agent, request,
}
use tugtainer.Update.Wait.{is_ready, last_attempt, poll, with_id, wait_for_container_healthy}
use tugtainer.Update.Hooks.{ContainerHooks, HookName, run_hooks, run_commands_of, disconnect_each}
use tugtainer.Update.Item.{
  St, on_log, set_container, add_error, add_errors, refresh, start_item, await_health,
  attempt_start_with_health, run_each, run_commands,
}

-- The log grows, by requests that are allowed.
pub data Later {C : Type 0} (allowed : C → Bool) (old : List C) : List C → Type 0 where
  same : Later allowed old old
  more :
      {new : List C} (c : C)
      → allowed c ≡ true
      → Later allowed old new
      → Later allowed old (c ∷ new)

pub Later-trans :
    {C : Type 0} {allowed : C → Bool} {a b c : List C}
    → Later allowed a b
    → Later allowed b c
    → Later allowed a c
Later-trans h same = h
Later-trans h (more c l k) = more c l (Later-trans h k)

pub Later-mem :
    {C : Type 0} {allowed : C → Bool} {x : C} {a b : List C}
    → Memᴰ x a
    → Later allowed a b
    → Memᴰ x b
Later-mem m same = m
Later-mem m (more c l k) = Memᴰ.tail (Later-mem m k)

abbrev pub grows : {C : Type 0} → (C → Bool) → Preorder (List C)
grows allowed = record {
  rel = Later allowed;
  stays = λ s. same;
  chain = λ s t u a b. Later-trans a b;
}

pub record Keeps {Config : Type 0} (allowed : Call Config → Bool) (s t : St Config) : Type 0 where
  pub result : t.item.result ≡ s.item.result
  pub config : t.item.config ≡ s.item.config
  pub log : Later allowed s.log t.log

abbrev pub keeps : {Config : Type 0} → (Call Config → Bool) → Preorder (St Config)
keeps allowed = record {
  rel = Keeps allowed;
  stays = λ s. record { result = refl; config = refl; log = same };
  chain = λ s t u a b. record {
    result = b.result ∙ a.result;
    config = b.config ∙ a.config;
    log = Later-trans a.log b.log;
  };
}

module _ {Config A : Type 0} (allowed : Call Config → Bool) where
  pub request-grows :
      (call : Call Config) (answer : Log Config → Answer A)
      → allowed call ≡ true
      → Moves (grows allowed) (request call answer)
  unfolding request
  request-grows call answer h = record { at = λ log. more call h same }

  pub on_log-Keeps :
      (m : Exec (Log Config) A) → Moves (grows allowed) m → Moves (keeps allowed) (on_log m)
  unfolding on_log
  on_log-Keeps m h = record { at = λ s. record { result = refl; config = refl; log = h.at s.log } }

module _ {Config : Type 0} (allowed : Call Config → Bool) where
  pub set_container-Keeps : (c : Container) → Moves (keeps allowed) (set_container c)
  set_container-Keeps c =
      Moves-modify (keeps allowed) _ (λ s. record { result = refl; config = refl; log = same })

  pub add_errors-Keeps : (errors : List Error) → Moves (keeps allowed) (add_errors errors)
  add_errors-Keeps errors =
      Moves-modify (keeps allowed) _ (λ s. record { result = refl; config = refl; log = same })

  pub add_error-Keeps : (e : Error) → Moves (keeps allowed) (add_error e)
  add_error-Keeps e = add_errors-Keeps (e ∷ [])

module _ {Config : Type 0} (agent : Agent Config) (allowed : Call Config → Bool)
    (may_exec : (n c : Text) → allowed (exec n c) ≡ true) where
  run_commands_of-grows :
      (name : Text) (commands : List Text) (errors : List Error)
      → Moves (grows allowed) (run_commands_of agent name commands errors)
  unfolding run_commands_of
  run_commands_of-grows name [] errors = Moves-pure (grows allowed) _
  run_commands_of-grows name (command ∷ commands) errors =
      Moves-bind (grows allowed) _ _
        (Moves-try (grows allowed) _ _
          (Moves-bind (grows allowed) _ _ (request-grows allowed _ _ (may_exec _ _))
            (λ _. Moves-pure (grows allowed) _))
          (λ e. Moves-pure (grows allowed) _))
        (run_commands_of-grows name commands)

  pub run_hooks-grows :
      (name : Text) (hooks : Option ContainerHooks) (hook : HookName)
      → Moves (grows allowed) (run_hooks agent name hooks hook)
  unfolding run_hooks
  run_hooks-grows name none hook = Moves-pure (grows allowed) _
  run_hooks-grows name (some hooks) hook = run_commands_of-grows name _ []

module _ {Config : Type 0} (agent : Agent Config) (allowed : Call Config → Bool)
    (may_disconnect : (n c : Text) (f : Bool) → allowed (disconnect n c f) ≡ true) where
  disconnect_each-grows :
      (name : Text) (force : Bool) (networks : List Text)
      → Moves (grows allowed) (disconnect_each agent name force networks)
  unfolding disconnect_each
  disconnect_each-grows name force [] = Moves-pure (grows allowed) tt
  disconnect_each-grows name force (network ∷ networks) =
      Moves-bind (grows allowed) _ _
        (Moves-try (grows allowed) _ _ (request-grows allowed _ _ (may_disconnect _ _ _))
          (λ e. Moves-pure (grows allowed) tt))
        (λ _. disconnect_each-grows name force networks)

module _ {Config : Type 0} (agent : Agent Config) (allowed : Call Config → Bool)
    (may_run : (c : List Text) → allowed (run_command c) ≡ true) where
  run_each-Keeps : (cs : List (List Text)) → Moves (keeps allowed) (run_each agent cs)
  unfolding run_each
  run_each-Keeps [] = Moves-pure (keeps allowed) tt
  run_each-Keeps (c ∷ cs) =
      Moves-bind (keeps allowed) _ _
        (Moves-try (keeps allowed) _ _
          (on_log-Keeps allowed _ (request-grows allowed _ _ (may_run _)))
          (add_error-Keeps allowed))
        λ _. run_each-Keeps cs

  pub run_commands-Keeps : Moves (keeps allowed) (run_commands agent)
  unfolding run_commands
  run_commands-Keeps =
      Moves-bind (keeps allowed) _ _ (Moves-get (keeps allowed)) λ s. run_each-Keeps _

module _ {Config : Type 0} (agent : Agent Config) (allowed : Call Config → Bool)
    (may_start : (n : Text) → allowed (start n) ≡ true) where
  pub start_item-Keeps : Moves (keeps allowed) (start_item agent)
  unfolding start_item
  start_item-Keeps =
      Moves-bind (keeps allowed) _ _ (Moves-get (keeps allowed))
        λ s. on_log-Keeps allowed _ (request-grows allowed _ _ (may_start _))

module _ {Config : Type 0} (agent : Agent Config) (allowed : Call Config → Bool)
    (may_inspect : (n : Text) → allowed (inspect n) ≡ true) where
  last_attempt-grows : (id : Text) → Moves (grows allowed) (last_attempt agent id)
  unfolding last_attempt
  last_attempt-grows id =
      Moves-bind (grows allowed) _ _ (request-grows allowed _ _ (may_inspect _))
        (λ c. Moves-pure (grows allowed) _)

  pub refresh-Keeps : Moves (keeps allowed) (refresh agent)
  unfolding refresh
  refresh-Keeps = Moves-bind (keeps allowed) _ _ (Moves-get (keeps allowed)) λ s.
      Moves-bind (keeps allowed) _ _
        (on_log-Keeps allowed _ (request-grows allowed _ _ (may_inspect _)))
        λ c. set_container-Keeps allowed c

module _ {Config : Type 0} (agent : Agent Config) (allowed : Call Config → Bool)
    (may_inspect : (n : Text) → allowed (inspect n) ≡ true) (may_sleep : allowed sleep ≡ true) where
  poll-grows :
      (fuel : ℕ) (health : Bool) (id : Text) (begun timeout : ℕ)
      → Moves (grows allowed) (poll agent fuel health id begun timeout)
  unfolding poll
  poll-grows zero health id begun timeout = record { at = λ log. same }
  poll-grows (suc fuel) health id begun timeout = record {
    at = λ log. elim (Bool-cases (ltb (agent.clock log) (begun + timeout))) [
      | inl early ↦ rw early (
          (Moves-bind (grows allowed) _ _ (request-grows allowed _ _ (may_inspect _)) (λ c.
              Moves-if (grows allowed) (is_ready health c) _ _ (Moves-pure (grows allowed) _) (
                Moves-bind (grows allowed) _ _ (request-grows allowed _ _ may_sleep)
                  (λ _. poll-grows fuel health id begun timeout)))).at
            log)
      | inr late ↦ rw late ((last_attempt-grows agent allowed may_inspect id).at log)
    ];
  }

  with_id-grows :
      (go : Text → Exec (Log Config) (Bool × Container)) (c : Container) (id : Option Text)
      → ((i : Text) → Moves (grows allowed) (go i))
      → Moves (grows allowed) (with_id agent go c id)
  unfolding pure
  with_id-grows go c none h = Moves-pure (grows allowed) _
  with_id-grows go c (some id) h =
      Moves-if (grows allowed) (is_empty id) _ _ (Moves-pure (grows allowed) _) (h id)

  pub wait-grows :
      (fuel : ℕ) (c : Container) (timeout : ℕ)
      → Moves (grows allowed) (wait_for_container_healthy agent fuel c timeout)
  unfolding wait_for_container_healthy pure
  wait-grows fuel c timeout = record {
    at = λ log.
        (with_id-grows _ c c.id
            (λ id. poll-grows fuel (has_healthcheck c) id (agent.clock log) timeout)).at
          log;
  }

  pub await_health-Keeps :
      (fuel timeout : ℕ) → Moves (keeps allowed) (await_health agent fuel timeout)
  unfolding await_health
  await_health-Keeps fuel timeout = Moves-bind (keeps allowed) _ _ (Moves-get (keeps allowed)) λ s.
      Moves-bind (keeps allowed) _ _ (on_log-Keeps allowed _ (wait-grows fuel _ timeout)) λ r.
        Moves-bind (keeps allowed) _ _ (set_container-Keeps allowed r.1)
          λ _. Moves-pure (keeps allowed) r.0

module _ {Config : Type 0} (agent : Agent Config) (allowed : Call Config → Bool)
    (may_inspect : (n : Text) → allowed (inspect n) ≡ true) (may_sleep : allowed sleep ≡ true)
    (may_start : (n : Text) → allowed (start n) ≡ true) where
  pub attempt_start_with_health-Keeps :
      (fuel timeout : ℕ) → Moves (keeps allowed) (attempt_start_with_health agent fuel timeout)
  unfolding attempt_start_with_health
  attempt_start_with_health-Keeps fuel timeout =
      Moves-bind (keeps allowed) _ _ (Moves-get (keeps allowed)) λ s.
        Moves-if (keeps allowed) s.item.was_running _ _
          (Moves-bind (keeps allowed) _ _ (refresh-Keeps agent allowed may_inspect) λ _.
            Moves-bind (keeps allowed) _ _ (Moves-get (keeps allowed)) λ t.
              Moves-if (keeps allowed) (is_running_container t.item.container) _ _
                (Moves-pure (keeps allowed) tt)
                (Moves-bind (keeps allowed) _ _ (start_item-Keeps agent allowed may_start) λ _.
                  Moves-bind (keeps allowed) _ _
                    (await_health-Keeps agent allowed may_inspect may_sleep fuel timeout)
                    λ healthy.
                      Moves-if (keeps allowed) healthy _ _ (Moves-pure (keeps allowed) tt)
                        (Moves-raise (keeps allowed) _)))
          (Moves-pure (keeps allowed) tt)
