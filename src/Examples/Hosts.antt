-- ===== src/Examples/Hosts.antt =====
-- A check of the host of "db" and "api".
use tugtainer.Base.{
  ◌≡◌, refl, true, false, Option, some, [], ◌∷◌, Dict, codes, lookup, select, ◌==◌,
}
use tugtainer.Db.{ContainersModel}
use tugtainer.ActionResult.{HostActionResult}
use tugtainer.Exec.{ok}
use tugtainer.Progress.{is_allowed_start_cache, get_host_cache_key}
use tugtainer.Check.Row.{find_row}
use tugtainer.Check.Queue.{
  IsQueue, is_checked_with, sort_containers_by_checked_at, sort_containers_by_checked_at_lem,
}
use tugtainer.Check.Host.{HostCheck, check_host_containers}
use tugtainer.Check.Host.Ending.{check_host_containers_released, check_host_containers_elsewhere}
use tugtainer.Examples.Containers.{api, db, row, host}
use tugtainer.Examples.Checks.{ttl, world, before}

abbrev by_name : Dict ContainersModel
by_name = (codes "db", record (row (codes "db") true) { checked_at = some 4 }) ∷ []

sort_containers_by_checked_at_lem_example :
    IsQueue by_name (sort_containers_by_checked_at (db ∷ api ∷ []) by_name)
    × ((row : Option ContainersModel)
        → select
            (λ c. is_checked_with (lookup c.name by_name) row)
            (sort_containers_by_checked_at (db ∷ api ∷ []) by_name)
          ≡ select (λ c. is_checked_with (lookup c.name by_name) row) (db ∷ api ∷ []))
sort_containers_by_checked_at_lem_example =
    sort_containers_by_checked_at_lem (db ∷ api ∷ []) by_name

never_checked_first : sort_containers_by_checked_at (db ∷ api ∷ []) by_name ≡ api ∷ db ∷ []
unfolding sort_containers_by_checked_at lookup ◌==◌
never_checked_first = refl

abbrev at_start : HostCheck ttl
at_start = record { shared = before; items = [] }

is_free : is_allowed_start_cache (lookup (get_host_cache_key host) at_start.shared.cache) ≡ true
unfolding is_allowed_start_cache lookup
is_free = refl

check_host_containers_released_example :
    ((r : Option HostActionResult) × ((check_host_containers ttl world host false true at_start).0
        ≡ ok r))
    × (is_allowed_start_cache (
          lookup
            (get_host_cache_key host)
            (check_host_containers ttl world host false true at_start).1.shared.cache)
        ≡ true)
check_host_containers_released_example =
    check_host_containers_released ttl world host false true at_start is_free

check_host_containers_elsewhere_example :
    find_row 2 (codes "db") (check_host_containers ttl world host false true at_start).1.shared.rows
    ≡ find_row 2 (codes "db") before.rows
check_host_containers_elsewhere_example =
    check_host_containers_elsewhere ttl world host false true at_start 2 (codes "db") refl
