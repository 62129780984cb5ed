-- ===== src/Hosts/Update/Ending.antt =====
-- What `update_host_containers` of backend/core/update_actions/update_host_containers.py leaves in the cache.
use tugtainer.Base.{◌<◌, ◌≡◌, ◌≢◌, refl, Bool, true, Option, none, List, Text}
use tugtainer.Create.{Body}
use tugtainer.Docker.{Container}
use tugtainer.Db.{HostsModel}
use tugtainer.ActionResult.{HostActionResult}
use tugtainer.Exec.{Answer, value, ok, Exec, modify, pure, ◌>>=◌}
use tugtainer.Exec.Laws.{some_result}
use tugtainer.Exec.Returns.{
  Returns, Returns-bind, Returns-try, Leads, Leads-bind, Leads-if, Leads-Returns, Leads-get,
  Leads-pure,
}
use tugtainer.Agent.{Log, HostAgent}
use tugtainer.Progress.{
  ActionProgress, update, is_allowed_start_cache, is_over, merge, get_host_cache_key,
}
use tugtainer.Check.Released.{merged_over}
use tugtainer.Plan.Build.{UpdatePlan}
use tugtainer.Update.Run.{Database}
use tugtainer.Update.Wait.Health.{ClockRuns}
use tugtainer.Hosts.Update.{
  Around, HostRun, cache_host, planned, carry_out, update_host_body, update_host_failed,
  update_host_containers,
}
use tugtainer.Hosts.Update.Ends.{NoRaise-update_host, EndsFrom-update_host}

module _ (around : Around) where
  open around use {pydantic, ttl}

  module _ (client : HostAgent Body) (database : Database Body)
      (queried : Log Body → Answer (Unit {0})) (host : HostsModel) where
    abbrev key : Text
    key = get_host_cache_key host

    abbrev Free : {B : Type 0} → B → HostRun around → Type 0
    Free b t = is_allowed_start_cache (ttl.get key t.cache) ≡ true

    Free-cache_host :
        (p : ActionProgress)
        → is_over p.status ≡ true
        → Returns Free (cache_host around (update ttl key p))
    unfolding cache_host update modify
    Free-cache_host p h = record {
      at =
          λ s b e. rw (ttl.get-set key (merge (ttl.get key s.cache) p) s.cache) (merged_over _ p h);
    }

    Free-return :
        {A B : Type 0} (m : Exec (HostRun around) A) (b : B)
        → Returns Free m
        → Returns Free (m >>= λ _. pure b)
    Free-return m b h = record {
      at = λ s c e.
          (Leads-bind (λ t. t ≡ s) (λ a t. Free a t) Free m (λ _. pure b)
              (record { at = λ t start a f. h.at t a f })
              (λ a. Leads-pure (Free a) Free b (λ t free. free))).at
            s refl c e;
    }

    Free-carry_out :
        (v : Option Bool) (cs : List Container) (plan : UpdatePlan)
        → Returns Free (carry_out around client database queried host v cs plan)
    unfolding carry_out
    Free-carry_out v cs plan = Returns-bind Free _ _ λ _.
        Returns-bind Free _ _
          λ r. Returns-bind Free _ _ λ p. Free-return _ _ (Free-cache_host _ refl)

    Free-body :
        (manual : Bool) → Returns Free (update_host_body around client database queried host manual)
    unfolding update_host_body
    Free-body manual = Returns-bind Free _ _ λ _. Returns-bind Free _ _ λ v.
        Returns-bind Free _ _ λ cs.
          Returns-bind Free _ _
            λ _. Returns-bind Free _ _ λ s. Returns-bind Free _ _ λ plan. Free-carry_out v cs plan

    Free-failed : Returns Free (update_host_failed around client database queried host)
    unfolding update_host_failed
    Free-failed = Free-return _ _ (Free-cache_host _ refl)

    update_host-Free :
        (manual : Bool)
        → Leads (Free tt) Free (update_host_containers around client database queried host manual)
    unfolding update_host_containers
    update_host-Free manual =
        Leads-bind (Free tt) (λ a s. Free tt s × (a ≡ s)) Free _ _ (Leads-get (Free tt))
          λ a.
            Leads-if _ Free _ _ _
              (Leads-Returns _ Free _ (Returns-try Free _ _ (Free-body manual) (λ e. Free-failed)))
              (Leads-pure _ Free none (λ s h. h.0))

    -- An update of a host that is free to start ends, lets no exception out and leaves the host free to
    -- start again, whatever the agent, the database and the registry answer at any step: if the clock
    -- runs, the fuel is more than the health timeout of the host, and the plan of no listing of its
    -- containers runs out of fuel.
    pub update_host_containers_released :
        ClockRuns client.agent
        → host.container_hc_timeout < around.fuel
        → (manual : Bool) (s : HostRun around)
        → ((t : HostRun around) (containers : List Container) (log : Log Body)
            → t.rows ≡ s.rows
            → client.listed log ≡ value containers
            → planned around client database queried host manual containers t ≢ none)
        → is_allowed_start_cache (ttl.get (get_host_cache_key host) s.cache) ≡ true
        → ((r : Option HostActionResult) × ((update_host_containers around client database queried
                host manual s).0
              ≡ ok r))
          × (is_allowed_start_cache (
                ttl.get
                  (get_host_cache_key host)
                  (update_host_containers around client database queried host manual s).1.cache)
              ≡ true)
    update_host_containers_released runs le manual s plans h =
        let (r, e) =
          some_result _
            ((EndsFrom-update_host around client database queried host runs le s.rows manual
                plans).at
              s refl)
            ((NoRaise-update_host around client database queried host manual).at s) in
        ((r, e), (update_host-Free manual).at s h r e)
