-- ===== src/Update/Run/Concluded.antt =====
-- What the updating phase of `execute_update_plan` in
-- backend/core/update_actions/update_actions_executor.py makes of each item.
use tugtainer.Base.{
  ℕ, ◌<◌, ◌≡◌, refl, ap, ◌∙◌, ◌⊎◌, inl, inr, Bool, true, false, ◌&&◌, Option, none, some, List, [],
  ◌∷◌, Text, Dict, lookup, lookup-put, elem, ◌==◌, eq_iff, eq_refl, arith, Bool-cases, Option-cases,
}
use tugtainer.Docker.{Container}
use tugtainer.Db.{HostsModel}
use tugtainer.ActionResult.{updated, rolled_back, failed}
use tugtainer.Exec.{Result, ok, Exec, pure, ◌>>=◌, continue}
use tugtainer.Agent.{Log, Agent, Configs}
use tugtainer.Graph.Dfs.Distinct.{Distinct}
use tugtainer.Progress.{TtlCache}
use tugtainer.Plan.Build.{UpdatePlan}
use tugtainer.Update.Wait.Health.{ClockRuns}
use tugtainer.Update.Hooks.{ContainerHooks}
use tugtainer.Update.Item.{Item, St, can_update}
use tugtainer.Update.Step.{step}
use tugtainer.Update.Step.Total.{step_total}
use tugtainer.Update.Step.Results.{Ended}
use tugtainer.Update.Step.Contract.{step_finished, step_gentle}
use tugtainer.Update.Run.{Run, Database, run_item, at_item, for_each, update_all}

-- The item is updated, rolled back or failed.
abbrev pub Concluded : {Config : Type 0} → Item Config → Type 0
Concluded item =
    (item.result ≡ some updated) ⊎ ((item.result ≡ some rolled_back) ⊎ (item.result ≡ some failed))

-- What becomes of an item: one that is to be updated and can be is concluded, another keeps its result.
abbrev pub Handled : {Config : Type 0} → (in_update : Bool) → (old new : Item Config) → Type 0
Handled in_update old new =
    ((in_update && can_update old) ≡ true → Concluded new)
    × ((in_update && can_update old) ≡ false → new.result ≡ old.result)

module _ (configs : Configs) (ttl : TtlCache) where
  open configs use {Config}

  abbrev Round : Type 0
  Round = Text → Exec (St Config) (Unit {0})

  run_item-ok :
      (name : Text) (m : Exec (St Config) (Unit {0})) (o : Option (Item Config))
      (s : Run Config ttl)
      → ((t : St Config) → (m t).0 ≡ ok tt)
      → (run_item configs ttl name m o s).0 ≡ ok tt
  run_item-ok name m none s h = refl
  run_item-ok name m (some item) s h = h (record { item = item; log = s.log })

  at_item-ok :
      (name : Text) (m : Exec (St Config) (Unit {0})) (s : Run Config ttl)
      → ((t : St Config) → (m t).0 ≡ ok tt)
      → (at_item configs ttl name m s).0 ≡ ok tt
  unfolding at_item
  at_item-ok name m s h = run_item-ok name m (lookup name s.items) s h

  run_item-other :
      (name x : Text) (m : Exec (St Config) (Unit {0})) (o : Option (Item Config))
      (s : Run Config ttl)
      → (name == x) ≡ false
      → lookup x (run_item configs ttl name m o s).1.items ≡ lookup x s.items
  run_item-other name x m none s h = refl
  run_item-other name x m (some item) s h =
      rw (lookup-put name x (m (record { item = item; log = s.log })).1.item s.items, h) refl

  -- A round leaves the other items alone.
  at_item-other :
      (name x : Text) (m : Exec (St Config) (Unit {0})) (s : Run Config ttl)
      → (name == x) ≡ false
      → lookup x (at_item configs ttl name m s).1.items ≡ lookup x s.items
  unfolding at_item
  at_item-other name x m s h = run_item-other name x m (lookup name s.items) s h

  at_item-own :
      (x : Text) (m : Exec (St Config) (Unit {0})) (s : Run Config ttl) (item : Item Config)
      → lookup x s.items ≡ some item
      → lookup x (at_item configs ttl x m s).1.items
        ≡ some (m (record { item = item; log = s.log })).1.item
  unfolding at_item
  at_item-own x m s item e =
      rw (e, lookup-put x x (m (record { item = item; log = s.log })).1.item s.items, eq_refl x)
        refl

  continue-ok :
      (r : Result (Unit {0})) (f : Unit {0} → Exec (Run Config ttl) (Unit {0})) (t : Run Config ttl)
      → r ≡ ok tt
      → (continue r f t).1 ≡ (f tt t).1
  continue-ok r f t e = rw e refl

  for_each-step :
      (n : Text) (names : List Text) (rounds : Round) (s : Run Config ttl)
      → ((k : Text) (t : St Config) → (rounds k t).0 ≡ ok tt)
      → (for_each configs ttl (n ∷ names) (λ k. at_item configs ttl k (rounds k)) s).1
        ≡ (for_each configs ttl names
            (λ k. at_item configs ttl k (rounds k))
            (at_item configs ttl n (rounds n) s).1).1
  unfolding for_each ◌>>=◌
  for_each-step n names rounds s total =
      let (r, t) = at_item configs ttl n (rounds n) s in
      continue-ok r (λ _. for_each configs ttl names (λ k. at_item configs ttl k (rounds k))) t
        (at_item-ok n (rounds n) s (total n))

  for_each-other :
      (names : List Text) (x : Text) (rounds : Round) (s : Run Config ttl)
      → ((k : Text) (t : St Config) → (rounds k t).0 ≡ ok tt)
      → elem x names ≡ false
      → lookup x (for_each configs ttl names (λ k. at_item configs ttl k (rounds k)) s).1.items
        ≡ lookup x s.items
  unfolding elem
  for_each-other [] x rounds s total h = unfold for_each pure in refl
  for_each-other (n ∷ names) x rounds s total h =
      ap (λ t. lookup x t.items) (for_each-step n names rounds s total)
      ∙ for_each-other names x rounds (at_item configs ttl n (rounds n) s).1 total
          (ground (arith, h))
      ∙ at_item-other n x (rounds n) s (ground (arith, h))

  -- In a loop over distinct names each item of the loop goes through one round, from itself.
  for_each-own :
      (names : List Text) (x : Text) (rounds : Round) (s : Run Config ttl) (item : Item Config)
      → ((k : Text) (t : St Config) → (rounds k t).0 ≡ ok tt)
      → Distinct names
      → elem x names ≡ true
      → lookup x s.items ≡ some item
      → (log : Log Config) × (lookup x
            (for_each configs ttl names (λ k. at_item configs ttl k (rounds k)) s).1.items
          ≡ some (rounds x (record { item = item; log = log })).1.item)
  unfolding elem
  for_each-own [] x rounds s item total d h e = absurd (ground (arith, h))
  for_each-own (n ∷ names) x rounds s item total d h e = elim (Bool-cases (n == x)) [
    | inl here ↦ (s.log, own_head ((eq_iff n x).0 here))
    | inr other ↦
        let (log, found) =
          for_each-own names x rounds (at_item configs ttl n (rounds n) s).1 item total d.1
            (ground (arith, h, other)) (at_item-other n x (rounds n) s other ∙ e) in
        (log, ap (λ t. lookup x t.items) (for_each-step n names rounds s total) ∙ found)
  ]
    where
      own_head :
          n ≡ x
          → lookup x
              (for_each configs ttl (n ∷ names) (λ k. at_item configs ttl k (rounds k)) s).1.items
            ≡ some (rounds x (record { item = item; log = s.log })).1.item
      own_head same =
          ap (λ t. lookup x t.items) (for_each-step n names rounds s total)
          ∙ for_each-other names x rounds (at_item configs ttl n (rounds n) s).1 total
              (rw (← same) d.0)
          ∙ (rw same (at_item-own x (rounds x) s item e))

can_update_config :
    {Config : Type 0} (item : Item Config)
    → can_update item ≡ true
    → (c : Config) × (item.config ≡ some c)
unfolding can_update
can_update_config item h = elim (Option-cases item.config) [
  | inl missing ↦ absurd (ground (arith, h, missing))
  | inr found ↦ found
]

module _ (configs : Configs) (agent : Agent configs.Config) (fuel timeout : ℕ)
    (hooks : Option ContainerHooks) (runs : ClockRuns agent) (le : timeout < fuel) where
  open configs use {Config}

  Ended-Concluded :
      (config : Config) (t : St Config)
      → Ended configs agent fuel timeout hooks config t
      → Concluded t.item
  Ended-Concluded config t (inl u) = inl u
  Ended-Concluded config t (inr (r, m)) = inr r

  step-Handled :
      (in_update is_affected : Bool) (s : St Config)
      → Handled in_update s.item
          (step configs agent fuel timeout hooks in_update is_affected s).1.item
  step-Handled false is_affected s = (
    λ h. absurd (ground (arith, h)),
    λ h. (step_gentle configs agent fuel timeout hooks false is_affected s refl).result,
  )
  step-Handled true is_affected s = (
    λ h.
        let (c, e) = can_update_config s.item h in
        Ended-Concluded c (step configs agent fuel timeout hooks true is_affected s).1
          (step_finished configs agent fuel timeout hooks runs le is_affected c s h e),
    λ h. (step_gentle configs agent fuel timeout hooks true is_affected s h).result,
  )

module _ (configs : Configs) (ttl : TtlCache) (agent : Agent configs.Config)
    (database : Database configs.Config) (fuel : ℕ) (host : HostsModel)
    (containers : List Container) (plan : UpdatePlan) where
  open configs use {Config}

  -- Where the clock runs and the fuel is more than the health timeout, the updating phase handles each
  -- item of an order without repetitions: an item that is to be updated and can be ends as updated,
  -- rolled back or failed; any other keeps the result that it had.
  pub update_all-Handled :
      ClockRuns agent
      → host.container_hc_timeout < fuel
      → Distinct plan.order
      → (hooks_map : Dict ContainerHooks) (s : Run Config ttl) (x : Text) (item : Item Config)
      → elem x plan.order ≡ true
      → lookup x s.items ≡ some item
      → (new : Item Config) × (lookup x
            (update_all configs ttl agent database fuel host containers plan hooks_map s).1.items
          ≡ some new)
        × Handled (elem x plan.to_update) item new
  unfolding update_all
  update_all-Handled runs le d hooks_map s x item h e =
      let rounds : Round configs ttl = λ k.
        step configs agent fuel host.container_hc_timeout (lookup k hooks_map)
          (elem k plan.to_update) (elem k plan.affected) in
      let (log, found) =
        for_each-own configs ttl plan.order x rounds s item
          (λ k t.
            step_total configs agent fuel host.container_hc_timeout (lookup k hooks_map) runs le
              (elem k plan.to_update) (elem k plan.affected) t)
          d h e in
      (
        (rounds x (record { item = item; log = log })).1.item,
        found,
        step-Handled configs agent fuel host.container_hc_timeout (lookup x hooks_map) runs le
            (elem x plan.to_update) (elem x plan.affected) (record { item = item; log = log }),
      )
