-- ===== src/Hosts/Update/Ends.antt =====
-- That `update_host_containers` of backend/core/update_actions/update_host_containers.py ends.
use tugtainer.Base.{◌<◌, ◌≡◌, ◌≢◌, refl, ap, ◌∙◌, Bool, false, Option, none, List, or_else, arith}
use tugtainer.Docker.{Container}
use tugtainer.Db.{ContainersModel, HostsModel}
use tugtainer.Exec.{Answer, value, error, outcome, ok, Exec, ◌>>=◌, get, of_fuel}
use tugtainer.Exec.Laws.{
  Ends, NoRaise, ends_rules, no_raise_rules, Ends-bind, Ends-pure, Ends-modify, Ends-get, Preorder,
  Moves, Moves-modify, moves_rules,
}
use tugtainer.Exec.Returns.{Leads, Leads-get}
use tugtainer.Exec.Within.{
  EndsFrom, EndsFrom-Ends, EndsFrom-if, EndsFrom-try, EndsFrom-of_fuel, EndsFrom-bind,
}
use tugtainer.Agent.{Call, Log, HostAgent}
use tugtainer.Create.{Body, configs}
use tugtainer.Plan.Build.{UpdatePlan}
use tugtainer.Update.Run.{Database}
use tugtainer.Update.Run.Ending.{Ends-execute}
use tugtainer.Update.Wait.Health.{ClockRuns}
use tugtainer.Hosts.Update.{
  Around, HostRun, ask, cache_host, docker_version, prune, planned, carry_out, ask_rows,
  update_host_body, update_host_failed, update_host_containers,
}

module _ (around : Around) where
  open around use {pydantic, ttl}

  Ends-ask :
      {A : Type 0} (call : Call Body) (answer : Log Body → Answer A) → Ends (ask around call answer)
  unfolding ask
  Ends-ask call answer = record { at = λ s h. ground (arith, h) }

  Ends-cache_host : (f : ttl.Store → ttl.Store) → Ends (cache_host around f)
  unfolding cache_host
  Ends-cache_host f = Ends-modify _

  module _ (client : HostAgent Body) (database : Database Body)
      (queried : Log Body → Answer (Unit {0})) (host : HostsModel) where
    Ends-ask_rows : Ends (ask_rows around client database queried host)
    unfolding ask_rows
    Ends-ask_rows = record { at = λ s h. ground (arith, h) }

    Ends-docker_version : Ends (docker_version around client database queried host)
    unfolding docker_version
    Ends-docker_version = search (ends_rules, Ends-ask) depth 10

    Ends-prune : Ends (prune around client database queried host)
    unfolding prune cache_host
    Ends-prune = search (ends_rules, Ends-ask) depth 10

    pub NoRaise-update_host :
        (manual : Bool)
        → NoRaise (update_host_containers around client database queried host manual)
    unfolding update_host_containers update_host_failed cache_host
    NoRaise-update_host manual = search no_raise_rules depth 10

    -- Where the rows are these.
    abbrev SameRows : List ContainersModel → HostRun around → Type 0
    SameRows rows t = t.rows ≡ rows

    same_rows : Preorder (HostRun around)
    same_rows = record {
      rel = λ s t. t.rows ≡ s.rows;
      stays = λ s. refl;
      chain = λ s t u a b. b ∙ a;
    }

    rows-ask :
        {A : Type 0} (call : Call Body) (answer : Log Body → Answer A)
        → Moves same_rows (ask around call answer)
    unfolding ask same_rows
    rows-ask call answer = record { at = λ s. refl }

    rows-cache_host : (f : ttl.Store → ttl.Store) → Moves same_rows (cache_host around f)
    unfolding cache_host same_rows
    rows-cache_host f = Moves-modify _ _ (λ s. refl)

    rows-docker_version : Moves same_rows (docker_version around client database queried host)
    unfolding docker_version
    rows-docker_version = search (moves_rules, rows-ask) depth 10

    module _ (runs : ClockRuns client.agent) (le : host.container_hc_timeout < around.fuel)
        (rows : List ContainersModel) where
      keep :
          {A : Type 0} (m : Exec (HostRun around) A)
          → Moves same_rows m
          → Leads (SameRows rows) (λ a. SameRows rows) m
      unfolding same_rows
      keep m h = record { at = λ s p b e. h.at s ∙ p }

      -- What is known of the containers that were listed.
      abbrev Listed : List Container → HostRun around → Type 0
      Listed containers t =
          SameRows rows t × (log : Log Body) × (client.listed log ≡ value containers)

      value_of : {A : Type 0} {a : A} (r : Answer A) → outcome r ≡ ok a → r ≡ value a
      value_of (value b) h = ground arith
      value_of (error e) h = absurd (ground arith)

      listed : Leads (SameRows rows) Listed (ask around Call.list_containers client.listed)
      unfolding ask
      listed = record { at = λ s p b e. (p, s.log, value_of _ e) }

      still :
          (cs : List Container)
          → Leads (Listed cs) (λ a. Listed cs) (ask_rows around client database queried host)
      unfolding ask_rows
      still cs = record { at = λ s p b e. p }

      Ends-carry_out :
          (v : Option Bool) (cs : List Container) (plan : UpdatePlan)
          → Ends (carry_out around client database queried host v cs plan)
      unfolding carry_out cache_host
      Ends-carry_out v cs plan =
          search
            (
              ends_rules,
              Ends-prune,
              Ends-execute (configs pydantic (or_else v false)) ttl client.agent database
                  around.fuel host cs plan runs le,
            )
            depth 12

      module _ (manual : Bool)
          (plans : (t : HostRun around) (containers : List Container) (log : Log Body)
            → SameRows rows t
            → client.listed log ≡ value containers
            → planned around client database queried host manual containers t ≢ none) where
        EndsFrom-planned :
            (v : Option Bool) (cs : List Container) (a : HostRun around)
            → EndsFrom
                (λ s. Listed cs s × (a ≡ s))
                (of_fuel (planned around client database queried host manual cs a)
                  >>= carry_out around client database queried host v cs)
        EndsFrom-planned v cs a =
            EndsFrom-bind _ (λ plan t. Unit {0}) _ _
              (EndsFrom-of_fuel _ _
                λ s p. plans a cs p.0.1 (ap (λ (t : HostRun around). t.rows) p.1 ∙ p.0.0) p.0.2)
              (record { at = λ s p b e. tt }) λ plan. EndsFrom-Ends _ _ (Ends-carry_out v cs plan)

        EndsFrom-body :
            EndsFrom (SameRows rows) (update_host_body around client database queried host manual)
        unfolding update_host_body
        EndsFrom-body =
            EndsFrom-bind _ (λ a. SameRows rows) _ _ (EndsFrom-Ends _ _ (Ends-cache_host _))
              (keep _ (rows-cache_host _))
              λ _.
                EndsFrom-bind _ (λ a. SameRows rows) _ _ (EndsFrom-Ends _ _ Ends-docker_version)
                  (keep _ rows-docker_version)
                  λ v. EndsFrom-bind _ Listed _ _ (EndsFrom-Ends _ _ (Ends-ask _ _)) listed λ cs.
                    EndsFrom-bind _ (λ a. Listed cs) _ _ (EndsFrom-Ends _ _ Ends-ask_rows)
                      (still cs)
                      λ _.
                        EndsFrom-bind _ (λ a s. Listed cs s × (a ≡ s)) _ _
                          (EndsFrom-Ends _ _ Ends-get) (Leads-get (Listed cs))
                          λ a. EndsFrom-planned v cs a

        pub EndsFrom-update_host :
            EndsFrom
              (SameRows rows)
              (update_host_containers around client database queried host manual)
        unfolding update_host_containers update_host_failed
        EndsFrom-update_host =
            EndsFrom-bind (SameRows rows) (λ a. SameRows rows) _ _ (EndsFrom-Ends _ _ Ends-get)
              (record { at = λ s p b e. unfold get in p })
              λ a.
                EndsFrom-if _ _ _ _
                  (EndsFrom-try _ _ _ EndsFrom-body
                    λ e. Ends-bind _ _ (Ends-cache_host _) λ _. Ends-pure none)
                  (EndsFrom-Ends _ _ (Ends-pure none))
