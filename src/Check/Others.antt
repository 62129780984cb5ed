-- ===== src/Check/Others.antt =====
-- Which rows `check_one_container` of backend/core/check_actions/check_one_container.py leaves alone.
use tugtainer.Base.{ℕ, ◌≡◌, refl, ◌∙◌, ap, Bool, false, Option, List, [], ◌∷◌, Text}
use tugtainer.Docker.{Container, get_container_image_spec, truthy}
use tugtainer.Db.{ContainersModel, HostsModel}
use tugtainer.ActionResult.{ContainerActionResult, new_result}
use tugtainer.Exec.{Answer}
use tugtainer.Exec.Laws.{
  Preorder, Moves, Moves-modify, Moves-bind, Moves-pure, Moves-get, Moves-try, Moves-if,
  moves_rules, Moves-if_some,
}
use tugtainer.Progress.{ActionProgress, TtlCache}
use tugtainer.Check.Row.{
  ContainerInsertOrUpdateData, find_row, insert_or_update_container,
  find_row-insert_or_update_container, same_place,
}
use tugtainer.Check.Outcome.{returned_shared}
use tugtainer.Check.One.{
  Event, World, Shared, Check, set_result, cache_set, cache_update, ask, sleep, inspect, pull,
  look_up_one, look_up_each, select_row, read_clock, store, finish, take_down, check_digests,
  check_image, check_body, check_failed, check_guarded, check_one_container,
}

module _ (ttl : TtlCache) (world : World) (host : HostsModel) (pull_before_check : Bool)
    (container : Container) (key : Text) where
  -- The rows of all other containers are found as before.
  abbrev others : Preorder (Check ttl)
  others = record {
    rel = λ s t.
        (g : ℕ) (m : Text)
        → same_place host.id container.name g m ≡ false
        → find_row g m t.shared.rows ≡ find_row g m s.shared.rows;
    stays = λ s g m h. refl;
    chain = λ s t u a b g m h. b g m h ∙ a g m h;
  }

  others-ask :
      {A : Type 0} (e : Event) (answer : List Event → Answer A) → Moves others (ask ttl e answer)
  unfolding ask
  others-ask e answer = record { at = λ s g m h. refl }

  others-sets :
      (f : ContainerActionResult → ContainerActionResult) → Moves others (set_result ttl f)
  others-sets f = Moves-modify others _ (λ s g m h. refl)

  others-cache_update : (p : ActionProgress) → Moves others (cache_update ttl key p)
  unfolding cache_update
  others-cache_update p = Moves-modify others _ (λ s g m h. refl)

  insert_others :
      (d : ContainerInsertOrUpdateData) (s : List ContainersModel) (g : ℕ) (m : Text)
      → same_place host.id container.name g m ≡ false
      → find_row g m (insert_or_update_container host.id container.name d s) ≡ find_row g m s
  insert_others d s g m h =
      rw (find_row-insert_or_update_container host.id container.name d s g m, h) refl

  others-store :
      (c_db : Option ContainersModel) (local remote : List Text)
      → Moves others (store ttl world host pull_before_check container key c_db local remote)
  unfolding store read_clock
  others-store c_db local remote = Moves-bind others _ _ (others-ask _ _) λ a.
      Moves-bind others _ _ (others-ask _ _) λ b. Moves-bind others _ _ (others-ask _ _) λ _.
        Moves-bind others _ _
          (Moves-modify others _ (λ s g m h. insert_others _ s.shared.rows g m h))
          λ _. others-ask _ _

  others-look_up_each :
      (spec : Text) (ds : List Text)
      → Moves others (look_up_each ttl world host pull_before_check container key spec ds)
  unfolding look_up_each look_up_one sleep
  others-look_up_each spec [] = Moves-pure others _
  others-look_up_each spec (d ∷ ds) =
      Moves-bind others _ _ (search (moves_rules, others-ask) depth 8)
        λ rd. Moves-if_some others rd _ _ (λ r. Moves-pure others _) (others-look_up_each spec ds)

  others-pull :
      (spec : Text) → Moves others (pull ttl world host pull_before_check container key spec)
  unfolding pull sleep
  others-pull spec =
      Moves-bind others _ _ (others-ask _ _)
        λ image. Moves-bind others _ _ (others-sets _) λ _. others-ask _ _

  others-check_digests :
      (spec : Text) (ds : List Text)
      → Moves others (check_digests ttl world host pull_before_check container key spec ds)
  unfolding check_digests take_down select_row finish
  others-check_digests spec ds =
      search
        (
          moves_rules, others-ask, others-sets, others-cache_update, others-store,
          others-look_up_each, others-pull,
        )
        depth 12

  others-check_image :
      (spec : Text) → Moves others (check_image ttl world host pull_before_check container key spec)
  unfolding check_image inspect
  others-check_image spec =
      search (moves_rules, others-ask, others-sets, others-cache_update, others-check_digests) depth
        8

  others-check_guarded : Moves others (check_guarded ttl world host pull_before_check container key)
  unfolding check_guarded check_body check_image check_failed inspect cache_set
  others-check_guarded = Moves-bind others _ _ (Moves-get others) λ s.
      Moves-if others _ _ _
        (Moves-try others _ _
          (Moves-bind others _ _ (Moves-modify others _ (λ s g m h. refl)) λ _.
            Moves-if_some others (truthy (get_container_image_spec container)) _ _
              (λ spec. others-check_image spec) (others-cache_update _))
          (λ e. Moves-bind others _ _ (Moves-get others) λ t. others-cache_update _))
        (Moves-pure others tt)

  -- A check changes no row but the one of its container, however it ends.
  pub check_one_container_others :
      (s : Shared ttl) (g : ℕ) (m : Text)
      → same_place host.id container.name g m ≡ false
      → find_row g m (check_one_container ttl world host pull_before_check container key s).1.rows
        ≡ find_row g m s.rows
  unfolding check_one_container
  check_one_container_others s g m h =
      let t : Check ttl = record { shared = s; result = new_result container } in
      let (r, u) = check_guarded ttl world host pull_before_check container key t in
      ap (λ v. find_row g m v.rows)
        (returned_shared ttl world host pull_before_check container key r u)
      ∙ others-check_guarded.at t g m h
