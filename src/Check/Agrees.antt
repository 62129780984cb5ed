-- ===== src/Check/Agrees.antt =====
-- That the row and the result of `check_one_container` of
-- backend/core/check_actions/check_one_container.py say the same.
use tugtainer.Base.{
  some_inj, eq_refl, ℕ, ◌≡◌, refl, ◌∙◌, sym, ap, inl, inr, Bool, true, false, Option, none, some,
  List, Text, or_else, Bool-cases, arith,
}
use tugtainer.Docker.{Container, get_container_image_spec, truthy}
use tugtainer.Db.{ContainersModel, HostsModel}
use tugtainer.ActionResult.{ContainerActionResult, new_result}
use tugtainer.Exec.{Answer, ok, modify}
use tugtainer.Progress.{
  ActionStatus, done, ActionProgress, ActionData, container_result, TtlCache, update, finished,
  merge,
}
use tugtainer.Check.Row.{
  find_row, insert_or_update_container, find_row-insert_or_update_container, same_place, blank,
  apply,
}
use tugtainer.Check.Verdict.{is_new, is_known, conclude, result_db, is_nil}
use tugtainer.Check.Outcome.{check_guarded_total, returned_shared, returned_ok}
use tugtainer.Check.One.{
  Event, World, Shared, Check, set_result, cache_set, cache_update, ask, inspect, read_clock, store,
  finish, take_down, check_digests, check_image, check_body, check_failed, check_guarded,
  check_one_container,
}
use tugtainer.Exec.Returns.{
  ok_inj, Returns, Returns-bind, Returns-seq, Leads, Leads-bind, Leads-if_some, Leads-if,
  Leads-Returns, Leads-try, Leads-modify, Leads-get, Leads-pure,
}
use tugtainer.ActionResult.{Outcome, available, available_notified}

-- Whether the result says that there is an update.
abbrev pub is_update : Outcome → Bool
is_update available = true
is_update available_notified = true
is_update _ = false

conclude-is_update :
    (c_db : Option ContainersModel) (local remote : List Text) (r : Outcome)
    → (conclude c_db local remote).result_lit ≡ some r
    → (conclude c_db local remote).update_available ≡ is_update r
unfolding conclude
conclude-is_update c_db local remote r h = elim (Bool-cases (is_nil remote)) [
  | inl nothing ↦ absurd (ground (arith, h, nothing))
  | inr some_digest ↦ elim (Bool-cases (is_new local remote)) [
    | inl new ↦ elim (Bool-cases (is_known c_db remote)) [
      | inl known ↦ rw (← some_inj (rw (some_digest, new, known) at h), some_digest, new) refl
      | inr other ↦ rw (← some_inj (rw (some_digest, new, other) at h), some_digest, new) refl
    ]
    | inr old ↦ rw (← some_inj (rw (some_digest, old) at h), some_digest, old) refl
  ]
]

same_place_refl : (h : ℕ) (n : Text) → same_place h n h n ≡ true
same_place_refl h n = ground (arith, eq_refl n)

failed_status :
    (o : Option ActionProgress) (d : ActionData)
    → (merge o (finished ActionStatus.error d)).status ≡ some ActionStatus.error
failed_status none d = refl
failed_status (some p) d = refl

abbrev pub status_at : Option ActionProgress → Option ActionStatus
status_at none = none
status_at (some p) = p.status

module _ (ttl : TtlCache) (world : World) (host : HostsModel) (pull_before_check : Bool)
    (container : Container) (key : Text) where
  -- The container's row has the flag that goes with the result, and the digests of the registry.
  pub record Agrees (rows : List ContainersModel) (r : ContainerActionResult) (o : Outcome)
      : Type 0 where
    pub row : ContainersModel
    pub stored : find_row host.id container.name rows ≡ some row
    pub flag : row.update_available ≡ is_update o
    pub digests : row.remote_digests ≡ some r.remote_digests

  abbrev AllAgree : List ContainersModel → ContainerActionResult → Type 0
  AllAgree rows r = (o : Outcome) → r.result ≡ some o → Agrees rows r o

  abbrev Told : Unit {0} → Check ttl → Type 0
  Told b t = status_at (ttl.get key t.shared.cache) ≡ some done → AllAgree t.shared.rows t.result

  module _ (F : ContainerActionResult → Type 0) where
    abbrev Holds : {A : Type 0} → A → Check ttl → Type 0
    Holds a s = F s.result

    ask-Holds :
        {A : Type 0} (e : Event) (answer : List Event → Answer A)
        → Leads (Holds tt) Holds (ask ttl e answer)
    unfolding ask
    ask-Holds e answer = record { at = λ s p b h. p }

  module _ (c_db : Option ContainersModel) (local remote : List Text) where
    abbrev Concluded : ContainerActionResult → Type 0
    Concluded r = (r.remote_digests ≡ remote) × (r.result ≡ (conclude c_db local remote).result_lit)

    Told-stored :
        (i : Text) (a b : ℕ) (s : Check ttl)
        → Concluded s.result
        → AllAgree
            (insert_or_update_container host.id container.name
              (result_db c_db local remote i a b)
              s.shared.rows)
            s.result
    unfolding result_db apply
    Told-stored i a b s c o h = record {
      row =
          apply (result_db c_db local remote i a b) (
            or_else (find_row host.id container.name s.shared.rows) (blank host.id container.name));
      stored =
          rw
            (
              find_row-insert_or_update_container host.id container.name
                  (result_db c_db local remote i a b) s.shared.rows host.id container.name,
              same_place_refl host.id container.name,
            )
            refl;
      flag = conclude-is_update c_db local remote o (sym c.1 ∙ h);
      digests = ap some (sym c.0);
    }

    abbrev Stored : Unit {0} → Check ttl → Type 0
    Stored b t = AllAgree t.shared.rows t.result

    ask-Stored :
        {A : Type 0} (e : Event) (answer : List Event → Answer A)
        → Leads (Stored tt) (λ a. Stored tt) (ask ttl e answer)
    unfolding ask
    ask-Stored e answer = record { at = λ s p b h. p }

    store-Stored :
        Leads
          (Holds Concluded tt)
          Stored
          (store ttl world host pull_before_check container key c_db local remote)
    unfolding store read_clock
    store-Stored =
        Leads-bind (Holds Concluded tt) (Holds Concluded) Stored _ _ (ask-Holds Concluded _ _) λ a.
          Leads-bind (Holds Concluded tt) (Holds Concluded) Stored _ _ (ask-Holds Concluded _ _)
            λ b.
              Leads-bind (Holds Concluded tt) (Holds Concluded) Stored _ _ (ask-Holds Concluded _ _)
                λ _.
                  Leads-bind (Holds Concluded tt) Stored Stored _ _
                    (Leads-modify (Holds Concluded tt) Stored _ (λ s c. Told-stored _ a b s c))
                    λ _. ask-Stored _ _

    cache_update-Told : (p : ActionProgress) → Leads (Stored tt) Told (cache_update ttl key p)
    unfolding cache_update
    cache_update-Told p = Leads-modify (Stored tt) Told _ (λ s h d. h)

    took_down :
        Returns
          (λ (_ : Unit {0}) (t : Check ttl). t.result.remote_digests ≡ remote)
          (set_result ttl (λ r. record r { remote_digests = remote }))
    unfolding modify
    took_down = record { at = λ s b h. refl }

    take_down-Told :
        Returns Told (take_down ttl world host pull_before_check container key c_db local remote)
    unfolding take_down finish
    take_down-Told =
        Returns-seq (λ _ (t : Check ttl). t.result.remote_digests ≡ remote) Told _ _ took_down
          λ _ u digests.
            (Leads-bind (λ (t : Check ttl). t.result.remote_digests ≡ remote) (Holds Concluded) Told
                _ _ (Leads-modify _ (Holds Concluded) _ (λ s d. (d, refl)))
                λ _. Leads-bind (Holds Concluded tt) Stored Told _ _ store-Stored λ _.
                  Leads-bind (Stored tt) (λ a s. Stored tt s × (a ≡ s)) Told _ _
                    (Leads-get (Stored tt))
                    λ a. record { at = λ s h. (cache_update-Told _).at s h.0 }).at
              u digests

  check_digests-Told :
      (spec : Text) (ds : List Text)
      → Returns Told (check_digests ttl world host pull_before_check container key spec ds)
  unfolding check_digests
  check_digests-Told spec ds = Returns-bind Told _ _ λ _. Returns-bind Told _ _ λ c_db.
      Returns-bind Told _ _ λ _.
        Returns-bind Told _ _ λ _. Returns-bind Told _ _ λ remote. take_down-Told c_db ds remote

  abbrev Silent : ContainerActionResult → Type 0
  Silent r = r.result ≡ none

  Silent-Told : (s : Check ttl) → Silent s.result → Told tt s
  Silent-Told s h d o e = absurd (ground (arith, h, e))

  cache_update-Silent : (p : ActionProgress) → Leads (Holds Silent tt) Told (cache_update ttl key p)
  unfolding cache_update
  cache_update-Silent p =
      Leads-modify (Holds Silent tt) Told _ (λ s h d o e. absurd (ground (arith, h, e)))

  check_image-Told :
      (spec : Text)
      → Leads
          (Holds Silent tt)
          Told
          (check_image ttl world host pull_before_check container key spec)
  unfolding check_image inspect
  check_image-Told spec =
      Leads-bind (Holds Silent tt) (Holds Silent) Told _ _
        (Leads-modify _ (Holds Silent) _ (λ s h. h))
        λ _. Leads-bind (Holds Silent tt) (Holds Silent) Told _ _ (ask-Holds Silent _ _) λ image.
          Leads-bind (Holds Silent tt) (Holds Silent) Told _ _
            (Leads-modify _ (Holds Silent) _ (λ s h. h))
            λ _.
              Leads-if (Holds Silent tt) Told _ _ _ (cache_update-Silent _)
                (Leads-Returns _ Told _ (check_digests-Told spec _))

  check_failed-Told : Returns Told (check_failed ttl world host pull_before_check container key)
  unfolding check_failed cache_update update modify
  check_failed-Told = Returns-bind Told _ _ λ r. record {
    at = λ s b e d.
        let data' = container_result r.result in
        let old = ttl.get key s.shared.cache in
        let set_there =
          ttl.get-set key (merge old (finished ActionStatus.error data')) s.shared.cache in
        let clash : some ActionStatus.error ≡ some done =
          sym (failed_status old data') ∙ ap status_at (sym set_there) ∙ d in
        absurd (ground (arith, clash));
  }

  check_guarded-Told :
      Leads (Holds Silent tt) Told (check_guarded ttl world host pull_before_check container key)
  unfolding check_guarded check_body cache_set
  check_guarded-Told =
      Leads-bind (Holds Silent tt) (λ a s. Holds Silent tt s × (a ≡ s)) Told _ _
        (Leads-get (Holds Silent tt))
        λ a.
          Leads-if _ Told _ _ _
            (Leads-try _ Told _ _
              (Leads-bind _ (Holds Silent) Told _ _ (Leads-modify _ (Holds Silent) _ (λ s h. h.0))
                λ _.
                  Leads-if_some (Holds Silent tt) (Holds Silent) Told
                    (truthy (get_container_image_spec container)) _ _ check_image-Told
                    (cache_update-Silent _))
              (λ e. check_failed-Told))
            (Leads-pure _ Told tt (λ s h. Silent-Told s h.0))

  -- Where the cache says after a check that it is done and the result concludes something, the row of the
  -- container has the flag that goes with that result, and the digests that the result tells of.
  pub check_one_container-Agrees :
      (s : Shared ttl) (r : ContainerActionResult) (o : Outcome)
      → (check_one_container ttl world host pull_before_check container key s).0 ≡ ok r
      → status_at (
          ttl.get key
            (check_one_container ttl world host pull_before_check container key s).1.cache)
        ≡ some done
      → r.result ≡ some o
      → Agrees (check_one_container ttl world host pull_before_check container key s).1.rows r o
  unfolding check_one_container
  check_one_container-Agrees s r o e d h =
      let t : Check ttl = record { shared = s; result = new_result container } in
      let (a, u) = check_guarded ttl world host pull_before_check container key t in
      let total = check_guarded_total ttl world host pull_before_check container key t in
      let same_r : r ≡ u.result =
        sym (
          ok_inj
            (sym (returned_ok ttl world host pull_before_check container key a u total) ∙ e)) in
      let same_s = returned_shared ttl world host pull_before_check container key a u in
      rw (same_r, same_s)
        (check_guarded-Told.at t refl tt total (rw same_s at d) o
          (ap (λ x. x.result) (sym same_r) ∙ h))
