-- ===== src/Progress.antt =====
-- backend/core/progress: the cache that says which action is under way, and the guard against a second
-- run of the same action.
use tugtainer.Base.{
  ℕ, ◌≡◌, Bool, true, false, ◌||◌, Option, none, some, is_some, if◌then◌else◌, List, ◌++◌, Text,
  codes, decimal,
}
use tugtainer.Docker.{Container}
use tugtainer.Db.{HostsModel}
use tugtainer.ActionResult.{ContainerActionResult, UpdatePlanResult, HostActionResult}

-- EActionStatus
pub data ActionStatus : Type 0 where
  preparing checking updating pruning done error : ActionStatus

-- What an entry of the cache may hold as its result.
pub data ActionData : Type 0 where
  container_result : ContainerActionResult → ActionData
  plan_result : UpdatePlanResult → ActionData
  host_result : HostActionResult → ActionData
  all_results : List (ℕ × HostActionResult) → ActionData

-- The keys of a typed dictionary may be absent.
pub record ActionProgress : Type 0 where
  pub status : Option ActionStatus
  pub result : Option ActionData

-- `{**current, **data}`
abbrev pub merge_field : {A : Type 0} → Option A → Option A → Option A
merge_field current none = current
merge_field current (some new) = some new

abbrev pub merge : Option ActionProgress → ActionProgress → ActionProgress
merge none data' = data'
merge (some current) data' = record {
  status = merge_field current.status data'.status;
  result = merge_field current.result data'.result;
}

-- `TTLCache` of cachetools, which drops entries by age and by number: what was just set is there, and
-- to set a key adds no other.
pub record TtlCache : Type 1 where
  pub Store : Type 0
  pub get : Text → Store → Option ActionProgress
  pub set : Text → ActionProgress → Store → Store
  pub get-set : (k : Text) (p : ActionProgress) (s : Store) → get k (set k p s) ≡ some p

module _ (ttl : TtlCache) where
  -- ProgressCache.update
  unfoldable pub update : Text → ActionProgress → ttl.Store → ttl.Store
  update id data' cache = ttl.set id (merge (ttl.get id cache) data') cache

abbrev pub is_over : Option ActionStatus → Bool
is_over (some ActionStatus.done) = true
is_over (some ActionStatus.error) = true
is_over _ = false

-- An entry without any key counts as none.
abbrev has_keys : ActionProgress → Bool
has_keys p = is_some p.status || is_some p.result

unfoldable pub is_allowed_start_cache : Option ActionProgress → Bool
is_allowed_start_cache none = true
is_allowed_start_cache (some p) = if has_keys p then is_over p.status else true

-- `{"status": s}` and `{"status": s, "result": r}`
abbrev pub status_of : ActionStatus → ActionProgress
status_of s = record { status = some s; result = none }

abbrev pub finished : ActionStatus → ActionData → ActionProgress
finished s r = record { status = some s; result = some r }

unfoldable pub get_host_cache_key : HostsModel → Text
unfolding decimal
get_host_cache_key host = decimal host.id ++ codes ":" ++ host.name

unfoldable pub get_container_cache_key : HostsModel → Container → Text
unfolding get_host_cache_key
get_container_cache_key host container = get_host_cache_key host ++ codes ":" ++ container.name
