-- ===== src/Check/Host/Ending.antt =====
-- How `check_host_containers` of backend/core/check_actions/check_host_containers.py ends.
use tugtainer.Base.{
  ℕ, ◌≡◌, refl, ◌∙◌, Bool, true, false, Option, none, List, [], ◌∷◌, Text, eqb, arith,
}
use tugtainer.Docker.{Container}
use tugtainer.Db.{HostsModel}
use tugtainer.ActionResult.{HostActionResult}
use tugtainer.Exec.{Answer, ok, Exec, modify, pure, ◌>>=◌}
use tugtainer.Exec.Laws.{
  some_result, Ends, NoRaise, ends_rules, no_raise_rules, Preorder, Moves, Moves-modify, Moves-bind,
  Moves-pure, moves_rules, Ends-bind, Ends-pure, Ends-modify,
}
use tugtainer.Exec.Returns.{
  Returns, Returns-bind, Returns-try, Leads, Leads-bind, Leads-if, Leads-Returns, Leads-get,
  Leads-pure,
}
use tugtainer.Progress.{
  ActionProgress, TtlCache, update, is_allowed_start_cache, is_over, merge, get_host_cache_key,
  get_container_cache_key,
}
use tugtainer.Check.Row.{find_row}
use tugtainer.Check.One.{Event, World, Shared}
use tugtainer.Check.Outcome.{check_one_container_total}
use tugtainer.Check.Others.{check_one_container_others}
use tugtainer.Check.Released.{merged_over}
use tugtainer.Check.Host.{
  HostCheck, on_shared, ask_shared, cache_host, check_one, check_each, check_host_body,
  check_host_failed, check_host_containers,
}

module _ (ttl : TtlCache) (world : World) (host : HostsModel) (pull_before_check : Bool) where
  Ends-on_shared : {A : Type 0} (m : Exec (Shared ttl) A) → Ends m → Ends (on_shared ttl m)
  unfolding on_shared
  Ends-on_shared m h = record { at = λ s. h.at s.shared }

  Ends-ask_shared :
      {A : Type 0} (e : Event) (answer : List Event → Answer A) → Ends (ask_shared ttl e answer)
  unfolding ask_shared
  Ends-ask_shared e answer = record { at = λ s h. ground (arith, h) }

  Ends-check_one : (c : Container) → Ends (check_one ttl world host pull_before_check c)
  Ends-check_one c = record {
    at = λ s h.
        let total =
          check_one_container_total ttl world host pull_before_check c
            (get_container_cache_key host c) s in
        ground (arith, h, total.1);
  }

  Ends-check_each : (cs : List Container) → Ends (check_each ttl world host pull_before_check cs)
  unfolding check_each
  Ends-check_each [] = Ends-pure tt
  Ends-check_each (c ∷ cs) =
      Ends-bind _ _ (Ends-on_shared _ (Ends-check_one c))
        λ r. Ends-bind _ _ (Ends-modify _) λ _. Ends-check_each cs

  pub Ends-check_host :
      (manual : Bool) → Ends (check_host_containers ttl world host pull_before_check manual)
  unfolding check_host_containers check_host_body check_host_failed cache_host
  Ends-check_host manual =
      search (ends_rules, Ends-on_shared, Ends-ask_shared, Ends-check_each) depth 16

  NoRaise-check_host :
      (manual : Bool) → NoRaise (check_host_containers ttl world host pull_before_check manual)
  unfolding check_host_containers check_host_failed cache_host
  NoRaise-check_host manual = search no_raise_rules depth 10

  abbrev key : Text
  key = get_host_cache_key host

  abbrev Free : {B : Type 0} → B → HostCheck ttl → Type 0
  Free b t = is_allowed_start_cache (ttl.get key t.shared.cache) ≡ true

  Free-cache_host :
      (p : ActionProgress)
      → is_over p.status ≡ true
      → Returns Free (cache_host ttl (update ttl key p))
  unfolding cache_host update modify
  Free-cache_host p h = record {
    at = λ s b e.
        rw (ttl.get-set key (merge (ttl.get key s.shared.cache) p) s.shared.cache)
          (merged_over _ p h);
  }

  Free-return :
      {A B : Type 0} (m : Exec (HostCheck ttl) A) (b : B)
      → Returns Free m
      → Returns Free (m >>= λ _. pure b)
  Free-return m b h = record {
    at = λ s c e.
        (Leads-bind (λ t. t ≡ s) (λ a t. Free a t) Free m (λ _. pure b)
            (record { at = λ t start a f. h.at t a f })
            (λ a. Leads-pure (Free a) Free b (λ t free. free))).at
          s refl c e;
  }

  Free-body :
      (manual : Bool) → Returns Free (check_host_body ttl world host pull_before_check manual)
  unfolding check_host_body
  Free-body manual = Returns-bind Free _ _ λ _. Returns-bind Free _ _ λ cs.
      Returns-bind Free _ _ λ _. Returns-bind Free _ _ λ s. Returns-bind Free _ _ λ _.
        Returns-bind Free _ _
          λ _. Returns-bind Free _ _ λ t. Free-return _ _ (Free-cache_host _ refl)

  Free-failed : Returns Free (check_host_failed ttl world host pull_before_check)
  unfolding check_host_failed
  Free-failed = Returns-bind Free _ _ λ s. Free-return _ _ (Free-cache_host _ refl)

  check_host-Free :
      (manual : Bool)
      → Leads (Free tt) Free (check_host_containers ttl world host pull_before_check manual)
  unfolding check_host_containers
  check_host-Free manual =
      Leads-bind (Free tt) (λ a s. Free tt s × (a ≡ s)) Free _ _ (Leads-get (Free tt))
        λ a.
          Leads-if _ Free _ _ _
            (Leads-Returns _ Free _ (Returns-try Free _ _ (Free-body manual) (λ e. Free-failed)))
            (Leads-pure _ Free none (λ s h. h.0))

  -- A check of a host that starts ends, lets no exception out, and leaves no lock: the guard of the
  -- cache lets the next run of the host start, whether this one went through or failed.
  pub check_host_containers_released :
      (manual : Bool) (s : HostCheck ttl)
      → is_allowed_start_cache (ttl.get (get_host_cache_key host) s.shared.cache) ≡ true
      → ((r : Option HostActionResult) × ((check_host_containers ttl world host pull_before_check
              manual s).0
            ≡ ok r))
        × (is_allowed_start_cache (
              ttl.get
                (get_host_cache_key host)
                (check_host_containers ttl world host pull_before_check manual s).1.shared.cache)
            ≡ true)
  check_host_containers_released manual s h =
      let (r, e) =
        some_result _ ((Ends-check_host manual).at s) ((NoRaise-check_host manual).at s) in
      ((r, e), (check_host-Free manual).at s h r e)

  -- The rows of the other hosts are found as before.
  abbrev elsewhere : Preorder (HostCheck ttl)
  elsewhere = record {
    rel = λ s t.
        (g : ℕ) (m : Text)
        → eqb host.id g ≡ false
        → find_row g m t.shared.rows ≡ find_row g m s.shared.rows;
    stays = λ s g m h. refl;
    chain = λ s t u a b g m h. b g m h ∙ a g m h;
  }

  elsewhere-check_one :
      (c : Container)
      → Moves elsewhere (on_shared ttl (check_one ttl world host pull_before_check c))
  unfolding on_shared
  elsewhere-check_one c = record {
    at = λ s g m h.
        check_one_container_others ttl world host pull_before_check c
          (get_container_cache_key host c) s.shared g m (ground (arith, h));
  }

  elsewhere-ask :
      {A : Type 0} (e : Event) (answer : List Event → Answer A)
      → Moves elsewhere (on_shared ttl (ask_shared ttl e answer))
  unfolding on_shared ask_shared
  elsewhere-ask e answer = record { at = λ s g m h. refl }

  elsewhere-cache : (f : ttl.Store → ttl.Store) → Moves elsewhere (cache_host ttl f)
  unfolding cache_host
  elsewhere-cache f = Moves-modify elsewhere _ (λ s g m h. refl)

  elsewhere-each :
      (cs : List Container) → Moves elsewhere (check_each ttl world host pull_before_check cs)
  unfolding check_each
  elsewhere-each [] = Moves-pure elsewhere tt
  elsewhere-each (c ∷ cs) = Moves-bind elsewhere _ _ (elsewhere-check_one c) λ r.
      Moves-bind elsewhere _ _ (Moves-modify elsewhere _ (λ s g m h. refl)) λ _. elsewhere-each cs

  elsewhere-check_host :
      (manual : Bool)
      → Moves elsewhere (check_host_containers ttl world host pull_before_check manual)
  unfolding check_host_containers check_host_body check_host_failed
  elsewhere-check_host manual =
      search (moves_rules, elsewhere-ask, elsewhere-cache, elsewhere-each) depth 16

  -- A check of a host changes no row of another host, however it ends.
  pub check_host_containers_elsewhere :
      (manual : Bool) (s : HostCheck ttl) (g : ℕ) (m : Text)
      → eqb host.id g ≡ false
      → find_row g m (check_host_containers ttl world host pull_before_check manual s).1.shared.rows
        ≡ find_row g m s.shared.rows
  check_host_containers_elsewhere manual s g m h = (elsewhere-check_host manual).at s g m h
