-- ===== src/Check/Host.antt =====
-- backend/core/check_actions/check_host_containers.py
pub mod Ending
use tugtainer.Base.{
  ℕ, ◌≡◌, Bool, true, false, not, Option, none, some, List, [], ◌∷◌, ◌++◌, Text, if◌then◌else◌,
}
use tugtainer.Docker.{Container}
use tugtainer.Db.{HostsModel, rows_of, rows_by_name}
use tugtainer.ActionResult.{ContainerActionResult, HostActionResult}
use tugtainer.Exec.{
  Error, Answer, outcome, Result, ok, err, stuck, Exec, pure, raise, lift, ◌>>=◌, ◌>>◌, try_except,
  modify, get,
}
use tugtainer.Progress.{
  ActionStatus, preparing, checking, done, ActionProgress, host_result, TtlCache, update,
  is_allowed_start_cache, status_of, finished, get_host_cache_key, get_container_cache_key,
}
use tugtainer.Check.Queue.{filter_containers_by_check_enabled, sort_containers_by_checked_at}
use tugtainer.Check.One.{Event, list_containers, query, World, Shared, check_one_container}

module _ (ttl : TtlCache) where
  -- With the list of the object `result`.
  pub record HostCheck : Type 0 where
    pub shared : Shared ttl
    pub items : List ContainerActionResult

  -- Code that leaves the list alone.
  unfoldable pub on_shared : {A : Type 0} → Exec (Shared ttl) A → Exec HostCheck A
  on_shared m s = let (r, t) = m s.shared in (r, record { shared = t; items = s.items })

  unfoldable pub ask_shared : {A : Type 0} → Event → (List Event → Answer A) → Exec (Shared ttl) A
  ask_shared e answer s = (outcome (answer s.events), record s { events = e ∷ s.events })

  unfoldable pub cache_host : (ttl.Store → ttl.Store) → Exec HostCheck (Unit {0})
  cache_host f = modify (λ s. record s { shared = record s.shared { cache = f s.shared.cache } })

  module _ (world : World) (host : HostsModel) (pull_before_check : Bool) where
    abbrev pub check_one : Container → Exec (Shared ttl) ContainerActionResult
    check_one c =
        check_one_container ttl world host pull_before_check c (get_container_cache_key host c)

    -- The loop over the containers.
    unfoldable pub check_each : List Container → Exec HostCheck (Unit {0})
    check_each [] = pure tt
    check_each (c ∷ cs) = do
      res ← on_shared (check_one c)
      modify (λ s. record s { items = s.items ++ res ∷ [] })
      check_each cs

    abbrev pub result_from : HostCheck → HostActionResult
    result_from s = record {
      host_id = host.id;
      host_name = host.name;
      items = s.items;
      prune_result = none;
    }

    -- The body of the `try`.
    unfoldable pub check_host_body : (manual : Bool) → Exec HostCheck (Option HostActionResult)
    unfolding check_each cache_host update
    check_host_body manual = do
      cache_host (ttl.set (get_host_cache_key host) (status_of preparing))
      containers ← on_shared (ask_shared list_containers world.listed)
      on_shared (ask_shared query world.queried)
      s ← get
      let containers_db_map = rows_by_name (rows_of host.id s.shared.rows) []
      let chosen =
          if manual
          then containers
          else filter_containers_by_check_enabled containers containers_db_map
      cache_host (update ttl (get_host_cache_key host) (status_of checking))
      check_each (sort_containers_by_checked_at chosen containers_db_map)
      t ← get
      cache_host
          (update ttl (get_host_cache_key host) (finished done (host_result (result_from t))))
      pure (some (result_from t))

    -- `except Exception`: the result so far is returned.
    unfoldable pub check_host_failed : Exec HostCheck (Option HostActionResult)
    unfolding cache_host update
    check_host_failed = do
      s ← get
      cache_host (update ttl (get_host_cache_key host) (status_of ActionStatus.error))
      pure (some (result_from s))

    -- check_host_containers, from an empty list.
    unfoldable pub check_host_containers :
        (manual : Bool) → Exec HostCheck (Option HostActionResult)
    check_host_containers manual = do
      s ← get
      if is_allowed_start_cache (ttl.get (get_host_cache_key host) s.shared.cache)
          then try_except (check_host_body manual) (λ e. check_host_failed)
          else pure none
