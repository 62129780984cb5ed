-- ===== src/Hosts/All.antt =====
-- The run over all enabled hosts: backend/core/update_actions/update_all_containers.py and
-- backend/core/check_actions/check_all_containers.py, which differ in what they do for a host, in the
-- status meanwhile, and in nothing else.
pub mod Visited
use tugtainer.Base.{
  ℕ, ◌≡◌, Bool, true, false, Option, none, some, List, [], ◌∷◌, ◌++◌, Text, eqb, select,
  if◌then◌else◌,
}
use tugtainer.Db.{HostsModel}
use tugtainer.ActionResult.{HostActionResult}
use tugtainer.Exec.{
  Answer, outcome, Result, ok, err, stuck, Exec, pure, ◌>>=◌, ◌>>◌, try_except, modify, get,
}
use tugtainer.Progress.{
  ActionStatus, preparing, checking, updating, done, all_results, TtlCache, update,
  is_allowed_start_cache, status_of, finished,
}

-- `{item.host_id: item for item in results}`
unfoldable pub put_result :
    HostActionResult → List (ℕ × HostActionResult) → List (ℕ × HostActionResult)
put_result item [] = (item.host_id, item) ∷ []
put_result item ((id, old) ∷ d) =
    let rest = put_result item d in if eqb id item.host_id then (id, item) ∷ d else (id, old) ∷ rest

unfoldable pub by_host :
    List HostActionResult → List (ℕ × HostActionResult) → List (ℕ × HostActionResult)
unfolding put_result
by_host [] d = d
by_host (item ∷ results) d = by_host results (put_result item d)

abbrev pub with_result : List HostActionResult → Option HostActionResult → List HostActionResult
with_result results none = results
with_result results (some result) = results ++ result ∷ []

-- `S` is the state of a run over a host, in which the cache stands.
module _ (ttl : TtlCache) (S : Type 0) (cache_of : S → ttl.Store)
    (with_cache : ttl.Store → S → S) where
  unfoldable pub cache_all : (ttl.Store → ttl.Store) → Exec S (Unit {0})
  cache_all f = modify (λ s. with_cache (f (cache_of s)) s)

  -- `try: … except Exception: log`, for one host: the results so far, and the one that it returns.
  unfoldable pub visit_host :
      Exec S (Option HostActionResult) → List HostActionResult → Exec S (List HostActionResult)
  visit_host run results =
      try_except (do result ← run; pure (with_result results result)) (λ e. pure results)

  -- The loop over the hosts.
  unfoldable pub visit_hosts :
      (HostsModel → Exec S (Option HostActionResult))
      → List HostsModel
      → List HostActionResult
      → Exec S (List HostActionResult)
  unfolding visit_host
  visit_hosts run [] results = pure results
  visit_hosts run (host ∷ hosts) results = do
    results' ← visit_host (run host) results
    visit_hosts run hosts results'

  module _ (status_key : Text) (notify : List HostActionResult → Exec S (Unit {0}))
      (queried : S → Answer (List HostsModel)) where
    unfoldable pub ask_hosts : Exec S (List HostsModel)
    ask_hosts s = (outcome (queried s), s)

    -- The body of the outer `try`. The query keeps the hosts that are enabled.
    unfoldable pub run_all_body :
        ActionStatus → (HostsModel → Exec S (Option HostActionResult)) → Exec S (Unit {0})
    unfolding cache_all update visit_hosts ask_hosts by_host
    run_all_body status run = do
      cache_all (ttl.set status_key (status_of preparing))
      rows ← ask_hosts
      cache_all (update ttl status_key (status_of status))
      results ← visit_hosts run (select (λ host. host.enabled) rows) []
      cache_all (update ttl status_key (finished done (all_results (by_host results []))))
      try_except (notify results) (λ e. pure tt)

    unfoldable pub run_all :
        ActionStatus → (HostsModel → Exec S (Option HostActionResult)) → Exec S (Unit {0})
    unfolding run_all_body cache_all update
    run_all status run = do
      s ← get
      if is_allowed_start_cache (ttl.get status_key (cache_of s))
          then try_except (run_all_body status run)
              (λ e. cache_all (update ttl status_key (status_of ActionStatus.error)))
          else pure tt

    -- The client of a host is a part of what is run for it.
    unfoldable pub update_all_containers :
        (update_host_containers : HostsModel → Exec S (Option HostActionResult)) → Exec S (Unit {0})
    unfolding run_all
    update_all_containers update_host_containers = run_all updating update_host_containers

    unfoldable pub check_all_containers :
        (check_host_containers : Bool → HostsModel → Exec S (Option HostActionResult))
        → (manual : Bool) → Exec S (Unit {0})
    unfolding run_all
    check_all_containers check_host_containers manual =
        run_all checking (check_host_containers manual)
