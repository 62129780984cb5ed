-- ===== src/Update/Step/Results.antt =====
-- Which result a round of the update loop of backend/core/update_actions/update_actions_executor.py leaves
-- in an item, and what was asked of the agent for it.
use mathlib.Core.List.{Memᴰ}
use tugtainer.Base.{
  ℕ, ◌≡◌, ◌≢◌, refl, ◌⊎◌, inl, inr, Bool, true, false, Option, some, Text, arith, if◌then◌else◌,
}
use tugtainer.Docker.{Image}
use tugtainer.ActionResult.{Outcome, updated, rolled_back, failed}
use tugtainer.Exec.{
  Error, Result, ok, err, stuck, Exec, pure, ◌>>=◌, ◌>>◌, continue, rescue, try_except,
}
use tugtainer.Exec.Laws.{
  NoRaise, NoRaise-try, NoRaise-modify, Ends, Ends-try, Ends-modify, Preorder, Moves, Moves-bind,
  Moves-pure, Moves-get, Moves-modify,
}
use tugtainer.Exec.Returns.{Returns, Returns-bind, Returns-seq, Returns-if, Returns-try}
use tugtainer.Agent.{Call, create, Agent, Configs, request}
use tugtainer.Update.Hooks.{ContainerHooks, HookName, post_update}
use tugtainer.Update.Item.{St, on_log, set_result}
use tugtainer.Update.Step.{
  run_item_hooks, create_from, update_body, try_update, tag_previous, restart, settle, restore,
  roll_back, update_item,
}
use tugtainer.Update.Rules.{Ends-on_log, Ends-request}
use tugtainer.Update.Keeps.{
  Later, same, Later-trans, Later-mem, keeps, on_log-Keeps, set_container-Keeps, add_error-Keeps,
  add_errors-Keeps, run_hooks-grows, refresh-Keeps, start_item-Keeps, await_health-Keeps,
  run_commands-Keeps,
}

abbrev pub anything : {C : Type 0} → C → Bool
anything c = true

module _ {Config B : Type 0} where
  -- What is set stays set, if what follows keeps the result.
  set_result-then :
      (r : Outcome) (m : Exec (St Config) B)
      → Moves (keeps anything) m
      → (s : St Config) → ((set_result r >> m) s).1.item.result ≡ some r
  unfolding ◌>>=◌
  set_result-then r m h s = (h.at (record s { item = record s.item { result = some r } })).result

-- The log grows, whatever becomes of the item.
abbrev logs : {Config : Type 0} → Preorder (St Config)
logs = record {
  rel = λ s t. Later anything s.log t.log;
  stays = λ s. same;
  chain = λ s t u a b. Later-trans a b;
}

-- The code sends the request, whatever comes of it.
record Asks {Config A : Type 0} (call : Call Config) (m : Exec (St Config) A) : Type 0 where
  at : (s : St Config) → Memᴰ call (m s).1.log

module _ {Config : Type 0} where
  Keeps-logs : {A : Type 0} (m : Exec (St Config) A) → Moves (keeps anything) m → Moves logs m
  Keeps-logs m h = record { at = λ s. (h.at s).log }

  module _ {A B : Type 0} (call : Call Config) where
    asks-continue :
        (r : Result A) (f : A → Exec (St Config) B) (t : St Config)
        → Memᴰ call t.log
        → ((a : A) → Moves logs (f a))
        → Memᴰ call (continue r f t).1.log
    asks-continue (ok a) f t h k = Later-mem h ((k a).at t)
    asks-continue (err e) f t h k = h
    asks-continue stuck f t h k = h

    Asks-first :
        (m : Exec (St Config) A) (f : A → Exec (St Config) B)
        → Asks call m
        → ((a : A) → Moves logs (f a))
        → Asks call (m >>= f)
    unfolding ◌>>=◌
    Asks-first m f h k = record { at = λ s. let (r, t) = m s in asks-continue r f t (h.at s) k }

    asks-after :
        (r : Result A) (f : A → Exec (St Config) B) (t : St Config)
        → ((e : Error) → r ≢ err e)
        → r ≢ stuck
        → ((a : A) → Asks call (f a))
        → Memᴰ call (continue r f t).1.log
    asks-after (ok a) f t n m k = (k a).at t
    asks-after (err e) f t n m k = absurd (n e refl)
    asks-after stuck f t n m k = absurd (m refl)

    Asks-second :
        (m : Exec (St Config) A) (f : A → Exec (St Config) B)
        → NoRaise m
        → Ends m
        → ((a : A) → Asks call (f a))
        → Asks call (m >>= f)
    unfolding ◌>>=◌
    Asks-second m f n e k = record {
      at = λ s. let (r, t) = m s in asks-after r f t (n.at s) (e.at s) k;
    }

  module _ {A : Type 0} (call : Call Config) where
    asks-rescue :
        (r : Result A) (handler : Error → Exec (St Config) A) (t : St Config)
        → Memᴰ call t.log
        → ((e : Error) → Moves logs (handler e))
        → Memᴰ call (rescue r handler t).1.log
    asks-rescue (ok a) handler t h k = h
    asks-rescue (err e) handler t h k = Later-mem h ((k e).at t)
    asks-rescue stuck handler t h k = h

    Asks-try :
        (m : Exec (St Config) A) (handler : Error → Exec (St Config) A)
        → Asks call m
        → ((e : Error) → Moves logs (handler e))
        → Asks call (try_except m handler)
    unfolding try_except
    Asks-try m handler h k = record {
      at = λ s. let (r, t) = m s in asks-rescue r handler t (h.at s) k;
    }

  set_result-logs : (r : Outcome) → Moves (logs {Config = Config}) (set_result r)
  set_result-logs r = Moves-modify logs _ (λ s. same)

module _ (configs : Configs) (agent : Agent configs.Config) (fuel timeout : ℕ)
    (hooks : Option ContainerHooks) where
  open configs use {Config}

  run_item_hooks-Keeps :
      (hook : HookName)
      → Moves (keeps anything) (run_item_hooks configs agent fuel timeout hooks hook)
  unfolding run_item_hooks
  run_item_hooks-Keeps hook = Moves-bind (keeps anything) _ _ (Moves-get (keeps anything)) λ s.
      Moves-bind (keeps anything) _ _
        (on_log-Keeps anything _ (run_hooks-grows agent anything (λ n c. refl) _ hooks hook))
        (add_errors-Keeps anything)

  pub settle-Keeps : Moves (keeps anything) (settle configs agent fuel timeout hooks)
  unfolding settle
  settle-Keeps =
      Moves-bind (keeps anything) _ _ (run_item_hooks-Keeps _)
        λ _. await_health-Keeps agent anything (λ n. refl) refl fuel timeout

  abbrev RolledBack : Bool → St Config → Type 0
  RolledBack b t = (t.item.result ≡ some rolled_back) ⊎ (t.item.result ≡ some failed)

  restore-RolledBack :
      (config : Config) → Returns RolledBack (restore configs agent fuel timeout hooks config)
  unfolding restore
  restore-RolledBack config = Returns-bind RolledBack _ _ λ _. Returns-bind RolledBack _ _ λ _.
      record {
        at = λ s b e.
            inl (
              set_result-then rolled_back (settle configs agent fuel timeout hooks) settle-Keeps s);
      }

  roll_back-RolledBack :
      (config : Config) (l : Image) (spec : Text)
      → Returns RolledBack (roll_back configs agent fuel timeout hooks config l spec)
  unfolding roll_back
  roll_back-RolledBack config l spec = Returns-bind RolledBack _ _ λ _.
      Returns-try RolledBack _ _ (restore-RolledBack config) λ e. Returns-bind RolledBack _ _ λ _.
        record {
          at = λ s b h.
              inr (set_result-then failed (pure false) (Moves-pure (keeps anything) false) s);
        }

  abbrev Updated : Bool → St Config → Type 0
  Updated b t = b ≡ true → t.item.result ≡ some updated

  Updated-false : Returns Updated (pure false)
  unfolding pure
  Updated-false = record { at = λ s b h k. absurd (ground (arith, h, k)) }

  update_body-Updated :
      (config : Config) (r : Image)
      → Returns Updated (update_body configs agent fuel timeout hooks config r)
  unfolding update_body
  update_body-Updated config r = Returns-bind Updated _ _ λ _. Returns-bind Updated _ _ λ s.
      Returns-if Updated s.item.was_running _ _
        (Returns-bind Updated _ _ λ healthy.
          Returns-if Updated healthy _ _
            (record {
              at = λ t b h k.
                  set_result-then updated
                    (run_item_hooks configs agent fuel timeout hooks post_update >> pure true)
                    (Moves-bind (keeps anything) _ _ (run_item_hooks-Keeps _)
                      (λ _. Moves-pure (keeps anything) true))
                    t;
            })
            (Returns-bind Updated _ _ λ _. Updated-false))
        (record {
          at = λ t b h k. set_result-then updated (pure true) (Moves-pure (keeps anything) true) t;
        })

  try_update-Updated :
      (config : Config) (r : Image)
      → Returns Updated (try_update configs agent fuel timeout hooks config r)
  unfolding try_update
  try_update-Updated config r =
      Returns-try Updated _ _ (update_body-Updated config r)
        λ e. Returns-bind Updated _ _ λ _. Returns-bind Updated _ _ λ _. Updated-false

  create_from-Asks :
      (config : Config) → Asks (create config) (create_from configs agent fuel timeout hooks config)
  unfolding create_from
  create_from-Asks config =
      Asks-first (create config) _ _ (record { at = λ s. unfold on_log request in Memᴰ.head refl })
        λ c. Keeps-logs _ (set_container-Keeps anything c)

  restart-Keeps : Moves (keeps anything) (restart configs agent fuel timeout hooks)
  unfolding restart
  restart-Keeps = Moves-bind (keeps anything) _ _ (start_item-Keeps agent anything (λ n. refl)) λ _.
      Moves-bind (keeps anything) _ _ (run_commands-Keeps agent anything (λ n. refl))
        λ _. refresh-Keeps agent anything (λ n. refl)

  roll_back-Asks :
      (config : Config) (l : Image) (spec : Text)
      → Asks (create config) (roll_back configs agent fuel timeout hooks config l spec)
  unfolding roll_back restore tag_previous
  roll_back-Asks config l spec =
      Asks-second (create config) _ _ (NoRaise-try _ _ (λ e. NoRaise-modify _))
        (Ends-try _ _ (Ends-on_log _ (Ends-request _ _)) (λ e. Ends-modify _))
        λ _.
          Asks-try (create config) _ _
            (Asks-first (create config) _ _ (create_from-Asks config) λ _.
              Moves-bind logs _ _ (Keeps-logs _ restart-Keeps)
                λ _. Moves-bind logs _ _ (set_result-logs _) λ _. Keeps-logs _ settle-Keeps)
            λ e.
              Moves-bind logs _ _ (Keeps-logs _ (add_error-Keeps anything e))
                λ _. Moves-bind logs _ _ (set_result-logs _) λ _. Moves-pure logs false

  -- How an update ends: as updated, or rolled back or failed, with a creation from the old configuration
  -- asked for.
  abbrev pub Ended : Config → St Config → Type 0
  Ended config t =
      (t.item.result ≡ some updated)
      ⊎ (((t.item.result ≡ some rolled_back) ⊎ (t.item.result ≡ some failed))
          × Memᴰ (create config) t.log)

  abbrev pub Finished : Config → Bool → St Config → Type 0
  Finished config b t = Ended config t

  pub update_item-Finished :
      (config : Config) (l r : Image) (spec : Text)
      → Returns (Finished config) (update_item configs agent fuel timeout hooks config l r spec)
  unfolding update_item pure
  update_item-Finished config l r spec =
      Returns-seq Updated (Finished config) _ _ (try_update-Updated config r)
        (λ done u h c e. finish done u h c e)
    where
      finish :
          (done : Bool) (u : St Config)
          → (done ≡ true → u.item.result ≡ some updated)
          → (c : Bool)
          → ((if done then pure true else roll_back configs agent fuel timeout hooks config l spec)
              u).0
            ≡ ok c
          → Finished config c
              ((if done
                  then pure true
                  else roll_back configs agent fuel timeout hooks config l spec)
                u).1
      finish true u h c e = inl (h refl)
      finish false u h c e =
          inr ((roll_back-RolledBack config l spec).at u c e, (roll_back-Asks config l spec).at u)
