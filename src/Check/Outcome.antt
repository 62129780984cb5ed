-- ===== src/Check/Outcome.antt =====
-- How `check_one_container` of backend/core/check_actions/check_one_container.py ends, and what it leaves
-- behind.
use tugtainer.Base.{◌≡◌, ◌≢◌, refl, Bool, Option, List, [], ◌∷◌, Text, arith}
use tugtainer.Docker.{Container}
use tugtainer.Db.{ContainersModel, HostsModel}
use tugtainer.ActionResult.{ContainerActionResult, new_result}
use tugtainer.Exec.{Error, Answer, Result, ok, err, stuck, Exec}
use tugtainer.Exec.Laws.{
  NoRaise, Ends, no_raise_rules, ends_rules, Ends-bind, Ends-if_some, Ends-pure,
}
use tugtainer.Progress.{TtlCache}
use tugtainer.Check.One.{
  Event, World, Shared, Check, cache_set, cache_update, ask, sleep, inspect, pull, look_up_one,
  look_up_each, select_row, read_clock, store, finish, take_down, check_digests, check_image,
  check_body, check_failed, check_guarded, returned, check_one_container,
}

module _ (ttl : TtlCache) where
  Ends-ask : {A : Type 0} (e : Event) (answer : List Event → Answer A) → Ends (ask ttl e answer)
  unfolding ask
  Ends-ask e answer = record { at = λ s h. ground (arith, h) }

  module _ (world : World) (host : HostsModel) (pull_before_check : Bool) (container : Container)
      (key : Text) where
    abbrev go : Exec (Check ttl) (Unit {0})
    go = check_body ttl world host pull_before_check container key

    Ends-look_up_one :
        (spec d : Text) → Ends (look_up_one ttl world host pull_before_check container key spec d)
    unfolding look_up_one sleep
    Ends-look_up_one spec d = search (ends_rules, Ends-ask)

    Ends-look_up_each :
        (spec : Text) (ds : List Text)
        → Ends (look_up_each ttl world host pull_before_check container key spec ds)
    unfolding look_up_each
    Ends-look_up_each spec [] = Ends-pure _
    Ends-look_up_each spec (d ∷ ds) =
        Ends-bind _ _ (Ends-look_up_one spec d)
          λ rd. Ends-if_some rd _ _ (λ r. Ends-pure _) (Ends-look_up_each spec ds)

    Ends-pull : (spec : Text) → Ends (pull ttl world host pull_before_check container key spec)
    unfolding pull sleep
    Ends-pull spec = search (ends_rules, Ends-ask)

    Ends-store :
        (c_db : Option ContainersModel) (local remote : List Text)
        → Ends (store ttl world host pull_before_check container key c_db local remote)
    unfolding store read_clock
    Ends-store c_db local remote = search (ends_rules, Ends-ask) depth 8

    Ends-select_row : Ends (select_row ttl world host pull_before_check container key)
    unfolding select_row
    Ends-select_row = search (ends_rules, Ends-ask)

    Ends-finish : Ends (finish ttl world host pull_before_check container key)
    unfolding finish cache_update
    Ends-finish = search ends_rules

    Ends-check_digests :
        (spec : Text) (ds : List Text)
        → Ends (check_digests ttl world host pull_before_check container key spec ds)
    unfolding check_digests take_down cache_update
    Ends-check_digests spec ds =
        search (ends_rules, Ends-look_up_each, Ends-pull, Ends-store, Ends-select_row, Ends-finish)
          depth 12

    Ends-check_image :
        (spec : Text) → Ends (check_image ttl world host pull_before_check container key spec)
    unfolding check_image cache_update inspect
    Ends-check_image spec = search (ends_rules, Ends-ask, Ends-check_digests) depth 8

    Ends-check_guarded : Ends (check_guarded ttl world host pull_before_check container key)
    unfolding check_guarded check_body check_failed cache_update cache_set
    Ends-check_guarded = search (ends_rules, Ends-if_some, Ends-check_image) depth 8

    NoRaise-check_guarded : NoRaise (check_guarded ttl world host pull_before_check container key)
    unfolding check_guarded check_failed cache_update
    NoRaise-check_guarded = search no_raise_rules depth 8

    result_ok : (r : Result (Unit {0})) → r ≢ stuck → ((e : Error) → r ≢ err e) → r ≡ ok tt
    result_ok (ok a) h k = refl
    result_ok (err e) h k = absurd (k e refl)
    result_ok stuck h k = absurd (h refl)

    pub check_guarded_total :
        (t : Check ttl) → (check_guarded ttl world host pull_before_check container key t).0 ≡ ok tt
    check_guarded_total t = result_ok _ (Ends-check_guarded.at t) (NoRaise-check_guarded.at t)

    pub returned_shared :
        (r : Result (Unit {0})) (t : Check ttl)
        → (returned ttl world host pull_before_check container key (r, t)).1 ≡ t.shared
    returned_shared (ok a) t = refl
    returned_shared (err e) t = refl
    returned_shared stuck t = refl

    pub returned_ok :
        (r : Result (Unit {0})) (t : Check ttl)
        → r ≡ ok tt
        → (returned ttl world host pull_before_check container key (r, t)).0 ≡ ok t.result
    returned_ok r t h = rw h refl

    -- A check of a container ends, lets no exception out and returns its result, whatever agent, registry
    -- and database answer.
    pub check_one_container_total :
        (s : Shared ttl)
        → (r : ContainerActionResult) × ((check_one_container ttl world host pull_before_check
              container key s).0
            ≡ ok r)
    unfolding check_one_container
    check_one_container_total s =
        let t : Check ttl = record { shared = s; result = new_result container } in
        let (r, u) = check_guarded ttl world host pull_before_check container key t in
        (u.result, returned_ok r u (check_guarded_total t))
