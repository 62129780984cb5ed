-- ===== src/Check/Released.antt =====
-- What the cache and the row say after `check_one_container` of
-- backend/core/check_actions/check_one_container.py.
use tugtainer.Base.{◌≡◌, refl, Bool, true, Option, none, some, List, Text, arith}
use tugtainer.Docker.{Container, get_container_image_spec, truthy}
use tugtainer.Db.{ContainersModel, HostsModel}
use tugtainer.ActionResult.{new_result}
use tugtainer.Exec.{modify}
use tugtainer.Progress.{ActionProgress, TtlCache, update, is_allowed_start_cache, is_over, merge}
use tugtainer.Check.Outcome.{check_guarded_total, returned_shared}
use tugtainer.Check.One.{
  World, Shared, Check, cache_update, finish, take_down, check_digests, check_image, check_body,
  check_failed, check_guarded, check_one_container,
}
use tugtainer.Exec.Returns.{
  Returns, Returns-bind, Returns-if, Returns-if_some, Returns-try, Leads, Leads-bind, Leads-if,
  Leads-Returns, Leads-get, Leads-pure,
}

pub merged_over :
    (o : Option ActionProgress) (p : ActionProgress)
    → is_over p.status ≡ true
    → is_allowed_start_cache (some (merge o p)) ≡ true
unfolding is_allowed_start_cache
merged_over none p h = ground (arith, h)
merged_over (some current) p h = ground (arith, h)

module _ (ttl : TtlCache) (world : World) (host : HostsModel) (pull_before_check : Bool)
    (container : Container) (key : Text) where
  abbrev from : Shared ttl → Check ttl
  from s = record { shared = s; result = new_result container }

  -- Nothing stands in the way of the next check.
  abbrev Free : Unit {0} → Check ttl → Type 0
  Free b t = is_allowed_start_cache (ttl.get key t.shared.cache) ≡ true

  Free-cache_update :
      (p : ActionProgress) → is_over p.status ≡ true → Returns Free (cache_update ttl key p)
  unfolding cache_update update modify
  Free-cache_update p h = record {
    at = λ s b e.
        rw (ttl.get-set key (merge (ttl.get key s.shared.cache) p) s.shared.cache)
          (merged_over _ p h);
  }

  Free-finish : Returns Free (finish ttl world host pull_before_check container key)
  unfolding finish
  Free-finish = Returns-bind Free _ _ λ s. Free-cache_update _ refl

  Free-take_down :
      (c_db : Option ContainersModel) (l r : List Text)
      → Returns Free (take_down ttl world host pull_before_check container key c_db l r)
  unfolding take_down
  Free-take_down c_db l r =
      Returns-bind Free _ _ λ _. Returns-bind Free _ _ λ _. Returns-bind Free _ _ λ _. Free-finish

  Free-check_digests :
      (spec : Text) (ds : List Text)
      → Returns Free (check_digests ttl world host pull_before_check container key spec ds)
  unfolding check_digests
  Free-check_digests spec ds = Returns-bind Free _ _ λ _. Returns-bind Free _ _ λ c_db.
      Returns-bind Free _ _ λ _.
        Returns-bind Free _ _ λ _. Returns-bind Free _ _ λ remote. Free-take_down c_db ds remote

  Free-check_image :
      (spec : Text) → Returns Free (check_image ttl world host pull_before_check container key spec)
  unfolding check_image
  Free-check_image spec = Returns-bind Free _ _ λ _. Returns-bind Free _ _ λ image.
      Returns-bind Free _ _
        λ _. Returns-if Free _ _ _ (Free-cache_update _ refl) (Free-check_digests spec _)

  Free-check_body : Returns Free (check_body ttl world host pull_before_check container key)
  unfolding check_body
  Free-check_body = Returns-bind Free _ _ λ _.
      Returns-if_some Free (truthy (get_container_image_spec container)) _ _ Free-check_image
        (Free-cache_update _ refl)

  Free-check_failed : Returns Free (check_failed ttl world host pull_before_check container key)
  unfolding check_failed
  Free-check_failed = Returns-bind Free _ _ λ s. Free-cache_update _ refl

  abbrev StartsFree : Check ttl → Type 0
  StartsFree = Free tt

  check_guarded-Free :
      Leads StartsFree Free (check_guarded ttl world host pull_before_check container key)
  unfolding check_guarded
  check_guarded-Free =
      Leads-bind StartsFree (λ a s. StartsFree s × (a ≡ s)) Free _ _ (Leads-get StartsFree)
        λ a.
          Leads-if _ Free _ _ _
            (Leads-Returns _ Free _ (Returns-try Free _ _ Free-check_body (λ e. Free-check_failed)))
            (Leads-pure _ Free tt (λ s h. h.0))

  -- A check that starts leaves no lock: the guard of the cache lets the next one start, whether this one
  -- concluded, stopped early or failed.
  pub check_one_container_released :
      (s : Shared ttl)
      → is_allowed_start_cache (ttl.get key s.cache) ≡ true
      → is_allowed_start_cache (
          ttl.get key
            (check_one_container ttl world host pull_before_check container key s).1.cache)
        ≡ true
  unfolding check_one_container
  check_one_container_released s h =
      let (r, u) = check_guarded ttl world host pull_before_check container key (from s) in
      let total = check_guarded_total ttl world host pull_before_check container key (from s) in
      rw (returned_shared ttl world host pull_before_check container key r u)
        (check_guarded-Free.at (from s) h tt total)
