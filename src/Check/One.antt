-- ===== src/Check/One.antt =====
-- `check_one_container` of backend/core/check_actions/check_one_container.py.
use tugtainer.Base.{ℕ, Bool, Option, none, some, List, [], ◌∷◌, Text, codes, or_else, if◌then◌else◌}
use tugtainer.Docker.{Container, Image, get_container_image_spec, truthy}
use tugtainer.Db.{ContainersModel, HostsModel}
use tugtainer.ActionResult.{ContainerActionResult, new_result}
use tugtainer.Exec.{
  Answer, value, Result, ok, err, stuck, Exec, pure, ◌>>=◌, ◌>>◌, try_except, modify, get, outcome,
  if_some,
}
use tugtainer.Progress.{
  ActionStatus, preparing, checking, done, ActionProgress, container_result, TtlCache, update,
  is_allowed_start_cache, status_of, finished,
}
use tugtainer.Check.Row.{find_row, insert_or_update_container}
use tugtainer.Check.Verdict.{conclude, result_db, is_nil}

-- What a check asks of the world, and the waits between.
pub data Event : Type 0 where
  list_containers : Event
  inspect_image : Text → Event
  pull_image : Text → Event
  look_up : (spec digest : Text) → Event
  query : Event
  commit : Event
  refresh : Event
  tick : Event
  pause : Event

-- The answers, by what was asked before: of the agent, of the registry (get_image_remote_digest), of the
-- database, which may fail, and of the clock.
pub record World : Type 0 where
  pub listed : List Event → Answer (List Container)
  pub image_inspected : List Event → Text → Answer Image
  pub image_pulled : List Event → Text → Answer Image
  pub remote_digest : List Event → (spec digest : Text) → Answer (Option Text)
  pub queried : List Event → Answer (Unit {0})
  pub committed : List Event → Answer (Unit {0})
  pub refreshed : List Event → Answer (Unit {0})
  pub now : List Event → ℕ

module _ (ttl : TtlCache) where
  -- The database, the cache and what was asked so far.
  pub record Shared : Type 0 where
    pub rows : List ContainersModel
    pub cache : ttl.Store
    pub events : List Event

  -- With the object `result`.
  pub record Check : Type 0 where
    pub shared : Shared
    pub result : ContainerActionResult

  abbrev pub set_result : (ContainerActionResult → ContainerActionResult) → Exec Check (Unit {0})
  set_result f = modify (λ s. record s { result = f s.result })

  unfoldable pub cache_set : Text → ActionProgress → Exec Check (Unit {0})
  cache_set key p =
      modify (λ s. record s { shared = record s.shared { cache = ttl.set key p s.shared.cache } })

  unfoldable pub cache_update : Text → ActionProgress → Exec Check (Unit {0})
  unfolding update
  cache_update key p =
      modify
        (λ s. record s { shared = record s.shared { cache = update ttl key p s.shared.cache } })

  unfoldable pub ask : {A : Type 0} → Event → (List Event → Answer A) → Exec Check A
  ask e answer s = (
    outcome (answer s.shared.events),
    record s { shared = record s.shared { events = e ∷ s.shared.events } },
  )

  module _ (world : World) (host : HostsModel) (pull_before_check : Bool) (container : Container)
      (key : Text) where
    unfoldable pub sleep : Exec Check (Unit {0})
    sleep = ask pause (λ es. value tt)

    -- `client.image.inspect(…)`
    unfoldable pub inspect : Text → Exec Check Image
    inspect spec = ask (inspect_image spec) (λ es. world.image_inspected es spec)

    unfoldable pub pull : Text → Exec Check (Unit {0})
    pull image_spec = do
      remote_image ← ask (pull_image image_spec) (λ es. world.image_pulled es image_spec)
      set_result (λ r. record r { remote_image = some remote_image })
      sleep

    -- One turn of the loop over the local digests.
    unfoldable pub look_up_one : Text → Text → Exec Check (Option Text)
    look_up_one image_spec d = do
      rd ←
          try_except (ask (look_up image_spec d) (λ es. world.remote_digest es image_spec d))
            (λ e. pure none)
      sleep
      pure (truthy rd)

    -- The loop, up to the first digest that is found.
    unfoldable pub look_up_each : Text → List Text → Exec Check (List Text)
    look_up_each image_spec [] = pure []
    look_up_each image_spec (d ∷ ds) = do
      rd ← look_up_one image_spec d
      if_some rd (λ r. pure (r ∷ [])) (look_up_each image_spec ds)

    -- `select(ContainersModel).where(…).limit(1)`
    unfoldable pub select_row : Exec Check (Option ContainersModel)
    select_row = do
      ask query world.queried
      s ← get
      pure (find_row host.id container.name s.shared.rows)

    -- `now()`
    unfoldable pub read_clock : Exec Check ℕ
    read_clock = ask tick (λ es. value (world.now es))

    -- `insert_or_update_container(session, host.id, str(container.name), result_db)`
    unfoldable pub store :
        Option ContainersModel → (local remote : List Text) → Exec Check (Unit {0})
    store c_db local remote = do
      checked_at ← read_clock
      changed_at ← read_clock
      ask commit world.committed
      modify (λ s. record s {
        shared = record s.shared {
          rows =
              insert_or_update_container host.id container.name
                (result_db c_db local remote (or_else container.image (codes "None")) checked_at
                  changed_at)
                s.shared.rows;
        };
      })
      ask refresh world.refreshed

    unfoldable pub finish : Exec Check (Unit {0})
    finish = do s ← get; cache_update key (finished done (container_result s.result))

    -- From the digests of the registry on.
    unfoldable pub take_down :
        Option ContainersModel → (local remote : List Text) → Exec Check (Unit {0})
    take_down c_db local_digests remote_digests = do
      set_result (λ r. record r { remote_digests = remote_digests })
      set_result
          (λ r. record r { result = (conclude c_db local_digests remote_digests).result_lit })
      store c_db local_digests remote_digests
      finish

    -- From the digests of the local image on.
    unfoldable pub check_digests : Text → List Text → Exec Check (Unit {0})
    check_digests image_spec local_digests = do
      set_result (λ r. record r { local_digests = local_digests })
      c_db ← select_row
      cache_update key (status_of checking)
      if pull_before_check then pull image_spec else pure tt
      remote_digests ← look_up_each image_spec local_digests
      take_down c_db local_digests remote_digests

    unfoldable pub check_image : Text → Exec Check (Unit {0})
    check_image image_spec = do
      set_result (λ r. record r { image_spec = some image_spec })
      local_image ← inspect (or_else (truthy container.image) image_spec)
      set_result (λ r. record r { local_image = some local_image })
      let local_digests = or_else local_image.repo_digests []
      if is_nil local_digests
          then cache_update key (status_of done)
          else check_digests image_spec local_digests

    -- The body of the `try`.
    unfoldable pub check_body : Exec Check (Unit {0})
    check_body = do
      cache_set key (status_of preparing)
      if_some (truthy (get_container_image_spec container)) check_image
          (cache_update key (status_of done))

    -- `except Exception`
    unfoldable pub check_failed : Exec Check (Unit {0})
    check_failed = do
      s ← get
      cache_update key (finished ActionStatus.error (container_result s.result))

    unfoldable pub check_guarded : Exec Check (Unit {0})
    check_guarded = do
      s ← get
      if is_allowed_start_cache (ttl.get key s.shared.cache)
          then try_except check_body (λ e. check_failed)
          else pure tt

    abbrev pub returned : Result (Unit {0}) × Check → Result ContainerActionResult × Shared
    returned (ok a, s) = (ok s.result, s.shared)
    returned (err e, s) = (err e, s.shared)
    returned (stuck, s) = (stuck, s.shared)

    -- check_one_container
    unfoldable pub check_one_container : Exec Shared ContainerActionResult
    check_one_container shared =
        returned (check_guarded (record { shared = shared; result = new_result container }))
