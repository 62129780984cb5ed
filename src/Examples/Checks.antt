-- ===== src/Examples/Checks.antt =====
-- A check of "api" against a registry that has a new digest.
use tugtainer.Base.{
  ◌≡◌, ◌≢◌, refl, true, false, none, some, List, [], ◌∷◌, Text, codes, lookup, put, lookup-put,
  eq_refl, any, all, contains_text, starts_with, ◌==◌,
}
use tugtainer.Docker.{get_container_image_spec}
use tugtainer.Db.{ContainersModel}
use tugtainer.ActionResult.{ContainerActionResult, available}
use tugtainer.Exec.{value, ok, ◌>>=◌}
use tugtainer.Progress.{ActionProgress, done, TtlCache, is_allowed_start_cache}
use tugtainer.Check.Row.{find_row, same_place, is_row_of}
use tugtainer.Check.Verdict.{conclude, is_new, checked, checked_again, checked_without}
use tugtainer.Check.One.{
  World, Shared, check_one_container, check_guarded, check_body, check_image, check_digests,
  look_up_each, look_up_one, select_row, store, take_down, ask, cache_set, cache_update, inspect,
  sleep, finish, read_clock,
}
use tugtainer.Check.Others.{check_one_container_others}
use tugtainer.Check.Released.{check_one_container_released}
use tugtainer.Check.Agrees.{Agrees, status_at, check_one_container-Agrees}
use tugtainer.Examples.Containers.{db, api, row, host}

-- A cache that drops nothing.
abbrev pub ttl : TtlCache
ttl = record {
  Store = List (Text × ActionProgress);
  get = λ k s. lookup k s;
  set = λ k p s. put k p s;
  get-set = λ k p s. rw (lookup-put k k p s, eq_refl k) refl;
}

abbrev pub world : World
world = record {
  listed = λ es. value (db ∷ api ∷ []);
  image_inspected = λ es spec.
      value (record { id = none; repo_digests = some (codes "a@1" ∷ []); config = none });
  image_pulled = λ es spec. value (record { id = none; repo_digests = none; config = none });
  remote_digest = λ es spec digest. value (some (codes "2"));
  queried = λ es. value tt;
  committed = λ es. value tt;
  refreshed = λ es. value tt;
  now = λ es. 7;
}

abbrev pub before : Shared ttl
before = record {
  rows = row (codes "db") true ∷ row (codes "api") false ∷ [];
  cache = [];
  events = [];
}

abbrev key : Text
key = codes "1:h:api"

other_place : same_place 1 (codes "api") 1 (codes "db") ≡ false
unfolding ◌==◌
other_place = refl

check_one_container_others_example :
    find_row 1 (codes "db") (check_one_container ttl world host false api key before).1.rows
    ≡ find_row 1 (codes "db") before.rows
check_one_container_others_example =
    check_one_container_others ttl world host false api key before 1 (codes "db") other_place

is_free : is_allowed_start_cache (lookup key before.cache) ≡ true
unfolding is_allowed_start_cache lookup
is_free = refl

check_one_container_released_example :
    is_allowed_start_cache
      (lookup key (check_one_container ttl world host false api key before).1.cache)
    ≡ true
check_one_container_released_example =
    check_one_container_released ttl world host false api key before is_free

abbrev concluded : ContainerActionResult
concluded = record {
  container = api;
  result = some available;
  image_spec = some (codes "api");
  local_image = some (record { id = none; repo_digests = some (codes "a@1" ∷ []); config = none });
  remote_image = none;
  local_digests = codes "a@1" ∷ [];
  remote_digests = codes "2" ∷ [];
}

is_concluded : (check_one_container ttl world host false api key before).0 ≡ ok concluded
unfolding check_one_container check_guarded check_body check_image check_digests look_up_each
    look_up_one select_row store take_down ask cache_set cache_update inspect sleep finish
    read_clock ◌>>=◌ is_allowed_start_cache lookup put ◌==◌ get_container_image_spec conclude is_new
    any all contains_text starts_with find_row is_row_of
is_concluded = refl

is_done :
    status_at (lookup key (check_one_container ttl world host false api key before).1.cache)
    ≡ some done
unfolding check_one_container check_guarded check_body check_image check_digests look_up_each
    look_up_one select_row store take_down ask cache_set cache_update inspect sleep finish
    read_clock ◌>>=◌ is_allowed_start_cache lookup put ◌==◌ get_container_image_spec conclude is_new
    any all contains_text starts_with find_row is_row_of
is_done = refl

check_one_container-Agrees_example :
    Agrees ttl world host false api key
      (check_one_container ttl world host false api key before).1.rows
      concluded
      available
check_one_container-Agrees_example =
    check_one_container-Agrees ttl world host false api key before concluded available is_concluded
      is_done refl

abbrev found_before : ContainersModel
found_before = record (row (codes "db") true) { remote_digests = some (codes "2" ∷ []) }

checked_again_example :
    (conclude
        (some (checked found_before [] (codes "2" ∷ []) [] 7 8))
        []
        (codes "2" ∷ [])).result_lit
      ≢ some available
    × ((checked
          (checked found_before [] (codes "2" ∷ []) [] 7 8)
          []
          (codes "2" ∷ [])
          []
          9
          9).remote_digests_changed_at
        ≡ (checked found_before [] (codes "2" ∷ []) [] 7 8).remote_digests_changed_at)
checked_again_example = checked_again found_before [] [] (codes "2" ∷ []) [] [] 7 8 9 9

two_is_new : is_new (codes "1" ∷ []) (codes "2" ∷ []) ≡ true
unfolding is_new any all contains_text starts_with
two_is_new = refl

checked_without_example :
    ((conclude (some found_before) [] []).result_lit ≡ none)
    × ((checked found_before [] [] [] 7 8).update_available ≡ found_before.update_available)
    × ((conclude
          (some (checked found_before [] [] [] 7 8))
          (codes "1" ∷ [])
          (codes "2" ∷ [])).result_lit
        ≡ some available)
    × ((checked
          (checked found_before [] [] [] 7 8)
          (codes "1" ∷ [])
          (codes "2" ∷ [])
          []
          9
          10).remote_digests_changed_at
        ≡ some 10)
checked_without_example =
    checked_without found_before [] (codes "1" ∷ []) (codes "2") [] [] [] 7 8 9 10 two_is_new
