-- ===== src/Examples/HostRuns.antt =====
-- Runs over the host of "db" and "api", and over all hosts.
use tugtainer.Base.{
  ◌*◌, ◌≡◌, ◌≢◌, refl, ◌∙◌, ap, true, false, Option, none, some, List, [], ◌∷◌, codes, lookup, put,
  keys, add, select, split, strip, lower, elem, is_some, length, ◌==◌, arith,
}
use tugtainer.Docker.{Container, Image, is_running_container, labels_of}
use tugtainer.Docker.Labels.{
  is_protected_container, get_service_name, get_compose_id, get_dependencies,
}
use tugtainer.Db.{ContainersModel, HostsModel, rows_of, rows_by_name}
use tugtainer.Graph.Bfs.{bfs, visit}
use tugtainer.Graph.Dfs.{topological}
use tugtainer.Plan.Select.{is_eligible, select_to_update}
use tugtainer.Plan.Maps.{compose_service_names, depends_on_map, dependables_map}
use tugtainer.Plan.Build.{UpdatePlan, entry, depends, dependables, union, build_update_plan}
use tugtainer.ActionResult.{HostActionResult}
use tugtainer.Exec.{Answer, value, error, agent_error, ok, Exec, raise}
use tugtainer.Exec.Laws.{Ends, Ends-raise}
use tugtainer.Agent.{Log, Agent, HostAgent}
use tugtainer.Progress.{
  is_allowed_start_cache, get_host_cache_key, checking, done, finished, all_results,
}
use tugtainer.Update.Run.{Database}
use tugtainer.Update.Wait.Health.{ClockRuns}
use tugtainer.Check.Host.{HostCheck, check_host_containers}
use tugtainer.Check.Host.Ending.{Ends-check_host}
use tugtainer.Hosts.Update.{Around, HostRun, planned, update_host_containers}
use tugtainer.Hosts.Update.Ending.{update_host_containers_released}
use tugtainer.Hosts.All.{by_host, run_all}
use tugtainer.Hosts.All.Visited.{Visited, started, recorded, run_all-Visited}
use tugtainer.Examples.Containers.{db, row, host}
use tugtainer.Create.{Body}
use tugtainer.Examples.Creates.{pydantic}
use tugtainer.Examples.Checks.{ttl, world, before}
use tugtainer.Examples.Plans.{as_inserted, settings}

abbrev around : Around
around = record {
  pydantic = pydantic;
  ttl = ttl;
  order = as_inserted;
  settings = settings;
  allow_hooks = false;
  plan_fuel = 5;
  fuel = 61;
}

abbrev image : Image
image = record { id = some (codes "i"); repo_digests = none; config = none }

-- Nothing can be removed.
abbrev agent : Agent Body
agent = record {
  inspected = λ log name. value db;
  found = λ log name. value true;
  stopped = λ log name. value tt;
  started = λ log name. value tt;
  removed = λ log name. error (agent_error name);
  created = λ log config. value db;
  executed = λ log name command. value tt;
  disconnected = λ log network name force. value tt;
  image_inspected = λ log spec. value image;
  image_pulled = λ log spec. value image;
  image_tagged = λ log id spec. value tt;
  command_run = λ log command. value tt;
  clock = λ log. 5 * length log;
}

clock_runs : ClockRuns agent
clock_runs = record { passes = λ call log. omega arith; sleeps = λ log. omega arith }

abbrev client : HostAgent Body
client = record {
  agent = agent;
  versioned = λ log. error (agent_error (codes "version"));
  listed = λ log. value (db ∷ []);
  pruned = λ log all. value (codes "");
}

abbrev database : Database Body
database = record { hooks_map = λ log names. value []; committed = λ log. value tt; now = λ log. 7 }

abbrev queried : Log Body → Answer (Unit {0})
queried log = value tt

abbrev at_start : HostRun around
at_start = record { items = []; log = []; rows = row (codes "db") true ∷ []; cache = [] }

listing : (cs : List Container) → value (db ∷ []) ≡ value cs → (db ∷ []) ≡ cs
listing cs h = cc

abbrev plan_from : List ContainersModel → Option UpdatePlan
plan_from r = build_update_plan as_inserted 5 settings 7 host r (db ∷ []) []

plan_there : is_some (plan_from at_start.rows) ≡ true
unfolding build_update_plan select_to_update is_eligible is_protected_container is_running_container
    labels_of rows_of rows_by_name bfs visit topological entry depends dependables union lookup put
    select elem add lower ◌==◌ split strip keys get_service_name get_compose_id get_dependencies
    compose_service_names depends_on_map dependables_map
plan_there = refl

has_plan :
    (now_at : HostRun around)
    → now_at.rows ≡ at_start.rows
    → planned around client database queried host false (db ∷ []) now_at ≢ none
unfolding planned
has_plan t e h =
    cc (ap is_some h, ap (λ (r : List ContainersModel). is_some (plan_from r)) e, plan_there)

is_free : is_allowed_start_cache (lookup (get_host_cache_key host) at_start.cache) ≡ true
unfolding is_allowed_start_cache lookup
is_free = refl

update_host_containers_released_example :
    ((r : Option HostActionResult) × ((update_host_containers around client database queried host
          false at_start).0
        ≡ ok r))
    × (is_allowed_start_cache (
          lookup
            (get_host_cache_key host)
            (update_host_containers around client database queried host false at_start).1.cache)
        ≡ true)
update_host_containers_released_example =
    update_host_containers_released around client database queried host clock_runs (omega arith)
      false at_start
      (λ t cs log e l h. has_plan t e (
        ap (λ (c : List Container). planned around client database queried host false c t)
          (listing cs l)
        ∙ h))
      is_free

-- The check of a host, from an empty list.
abbrev run : HostsModel → Exec (HostCheck ttl) (Option HostActionResult)
run h s = check_host_containers ttl world h false true (record s { items = [] })

Ends-run : (h : HostsModel) → Ends (run h)
Ends-run h = record {
  at = λ s. (Ends-check_host ttl world h false true).at (record s { items = [] });
}

-- A notification that fails.
abbrev notify : List HostActionResult → Exec (HostCheck ttl) (Unit {0})
notify results = raise (agent_error (codes "no url"))

abbrev idle : HostCheck ttl
idle = record { shared = before; items = [] }

all_free : is_allowed_start_cache (lookup (codes "all") idle.shared.cache) ≡ true
unfolding is_allowed_start_cache lookup
all_free = refl

abbrev cache_of : HostCheck ttl → ttl.Store
cache_of s = s.shared.cache

abbrev with_cache : ttl.Store → HostCheck ttl → HostCheck ttl
with_cache c s = record { shared = record s.shared { cache = c }; items = s.items }

run_all-Visited_example :
    (results : List HostActionResult) × (u : HostCheck ttl) × Visited run
      (select (λ host. host.enabled) (host ∷ []))
      (started ttl cache_of with_cache run
        (codes "all")
        notify
        (λ t. value (host ∷ []))
        checking
        idle)
      results
      u
    × (lookup
          (codes "all")
          (recorded ttl cache_of with_cache run
            (codes "all")
            notify
            (λ t. value (host ∷ []))
            checking
            results
            u).shared.cache
        ≡ some (finished done (all_results (by_host results []))))
    × (run_all ttl
          (HostCheck ttl)
          cache_of
          with_cache
          (codes "all")
          notify
          (λ t. value (host ∷ []))
          checking
          run
          idle
        ≡ (
          ok tt,
          (notify results (
              recorded ttl cache_of with_cache run
                (codes "all")
                notify
                (λ t. value (host ∷ []))
                checking
                results
                u)).1,
        ))
run_all-Visited_example =
    run_all-Visited ttl cache_of with_cache run (codes "all") notify (λ t. value (host ∷ []))
      checking (host ∷ []) idle (λ c t. refl) (λ t. refl) Ends-run (λ results. Ends-raise _)
      all_free
