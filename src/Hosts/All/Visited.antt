-- ===== src/Hosts/All/Visited.antt =====
-- What a run over all hosts does, as a relation: the hosts one after the other, each from the state that the
-- one before left, however that one ended.
use tugtainer.Base.{
  ◌≡◌, ◌≢◌, refl, ap, ◌∙◌, true, Option, none, some, List, [], ◌∷◌, ◌++◌, Text, select,
}
use mathlib.Core.List.{append-nil, append_assoc}
use tugtainer.Db.{HostsModel}
use tugtainer.ActionResult.{HostActionResult}
use tugtainer.Exec.{
  Error, Answer, value, Result, ok, err, stuck, Exec, rescue, pure, ◌>>=◌, try_except, modify, get,
}
use tugtainer.Exec.Laws.{Ends}
use tugtainer.Progress.{
  ActionStatus, preparing, done, ActionProgress, ActionData, all_results, TtlCache, update, merge,
  is_allowed_start_cache, status_of, finished,
}
use tugtainer.Hosts.All.{
  by_host, with_result, cache_all, visit_host, visit_hosts, ask_hosts, run_all_body, run_all,
}

-- What has a status and a result takes the place of what was there.
merged :
    (old : Option ActionProgress) (status : ActionStatus) (result : ActionData)
    → merge old (finished status result) ≡ finished status result
merged none status result = refl
merged (some p) status result = refl

module _ {S : Type 0} where
  pub data Visited (run : HostsModel → Exec S (Option HostActionResult))
      : List HostsModel → S → List HostActionResult → S → Type 0 where
    all_done : {s : S} → Visited run [] s [] s
    returned :
        {host : HostsModel} {hosts : List HostsModel} {s t u : S} {result : HostActionResult}
        {results : List HostActionResult}
        → run host s ≡ (ok (some result), t)
        → Visited run hosts t results u
        → Visited run (host ∷ hosts) s (result ∷ results) u
    had_none :
        {host : HostsModel} {hosts : List HostsModel} {s t u : S} {results : List HostActionResult}
        → run host s ≡ (ok none, t)
        → Visited run hosts t results u
        → Visited run (host ∷ hosts) s results u
    failed :
        {host : HostsModel} {hosts : List HostsModel} {s t u : S} {results : List HostActionResult}
        {e : Error}
        → run host s ≡ (err e, t)
        → Visited run hosts t results u
        → Visited run (host ∷ hosts) s results u

  bind-ok :
      {A B : Type 0} (m : Exec S A) (f : A → Exec S B) {s t : S} {a : A}
      → m s ≡ (ok a, t)
      → (m >>= f) s ≡ f a t
  unfolding ◌>>=◌
  bind-ok m f h = rw h

  try-ok :
      {A : Type 0} (m : Exec S A) (handler : Error → Exec S A) {s t : S} {a : A}
      → m s ≡ (ok a, t)
      → try_except m handler s ≡ (ok a, t)
  unfolding try_except
  try-ok m handler h = rw h

  told_by : (r : Result (Unit {0})) (t : S) → r ≢ stuck → rescue r (λ e. pure tt) t ≡ (ok tt, t)
  unfolding pure
  told_by (ok a) t n = refl
  told_by (err e) t n = refl
  told_by stuck t n = absurd (n refl)

  module _ (ttl : TtlCache) (cache_of : S → ttl.Store) (with_cache : ttl.Store → S → S)
      (run : HostsModel → Exec S (Option HostActionResult)) where
    visit_host-ok :
        (host : HostsModel) (results : List HostActionResult) {s t : S}
        {o : Option HostActionResult}
        → run host s ≡ (ok o, t)
        → visit_host ttl S cache_of with_cache (run host) results s
          ≡ (ok (with_result results o), t)
    unfolding visit_host try_except ◌>>=◌
    visit_host-ok host results h = rw h

    visit_host-err :
        (host : HostsModel) (results : List HostActionResult) {s t : S} {e : Error}
        → run host s ≡ (err e, t)
        → visit_host ttl S cache_of with_cache (run host) results s ≡ (ok results, t)
    unfolding visit_host try_except ◌>>=◌
    visit_host-err host results h = rw h

    -- What the loop returns beside the results that it had.
    abbrev AllVisited : List HostsModel → List HostActionResult → S → Type 0
    AllVisited hosts acc s =
        (results : List HostActionResult) × (u : S) × Visited run hosts s results u
        × (visit_hosts ttl S cache_of with_cache run hosts acc s ≡ (ok (acc ++ results), u))

    first_visited :
        (host : HostsModel) (hosts : List HostsModel) (acc : List HostActionResult) (s : S)
        (r : Result (Option HostActionResult)) (t : S)
        → run host s ≡ (r, t)
        → r ≢ stuck
        → ((acc' : List HostActionResult) → AllVisited hosts acc' t)
        → AllVisited (host ∷ hosts) acc s
    unfolding visit_hosts
    first_visited host hosts acc s (ok (some result)) t h n rest =
        let (results, u, v, e) = rest (acc ++ result ∷ []) in
        (
          result ∷ results,
          u,
          returned h v,
          bind-ok _ _ (visit_host-ok host acc h) ∙ e ∙ rw (append_assoc acc (result ∷ []) results),
        )
    first_visited host hosts acc s (ok none) t h n rest =
        let (results, u, v, e) = rest acc in
        (results, u, had_none h v, bind-ok _ _ (visit_host-ok host acc h) ∙ e)
    first_visited host hosts acc s (err d) t h n rest =
        let (results, u, v, e) = rest acc in
        (results, u, failed h v, bind-ok _ _ (visit_host-err host acc h) ∙ e)
    first_visited host hosts acc s stuck t h n rest = absurd (n refl)

    visit_hosts-Visited :
        ((host : HostsModel) → Ends (run host))
        → (hosts : List HostsModel) (acc : List HostActionResult) (s : S) → AllVisited hosts acc s
    unfolding visit_hosts pure
    visit_hosts-Visited ends [] acc s = ([], s, all_done, rw (append-nil acc))
    visit_hosts-Visited ends (host ∷ hosts) acc s =
        first_visited host hosts acc s (run host s).0 (run host s).1 refl ((ends host).at s)
          λ acc'. visit_hosts-Visited ends hosts acc' (run host s).1

    module _ (status_key : Text) (notify : List HostActionResult → Exec S (Unit {0}))
        (queried : S → Answer (List HostsModel)) (status : ActionStatus) where
      -- Where the visits start, and what is written after them.
      abbrev pub started : S → S
      started s =
          let s' = with_cache (ttl.set status_key (status_of preparing) (cache_of s)) s in
          with_cache (update ttl status_key (status_of status) (cache_of s')) s'

      abbrev pub recorded : List HostActionResult → S → S
      recorded results u =
          with_cache
            (update ttl status_key (finished done (all_results (by_host results []))) (cache_of u))
            u

      told :
          (results : List HostActionResult) (u : S)
          → Ends (notify results)
          → try_except (notify results) (λ e. pure tt) u ≡ (ok tt, (notify results u).1)
      unfolding try_except
      told results u h = told_by (notify results u).0 (notify results u).1 (h.at u)

      cached :
          (f : ttl.Store → ttl.Store) (s : S)
          → cache_all ttl S cache_of with_cache f s ≡ (ok tt, with_cache (f (cache_of s)) s)
      unfolding cache_all modify
      cached f s = refl

      asked :
          (rows : List HostsModel) (s : S)
          → queried s ≡ value rows
          → ask_hosts ttl S cache_of with_cache status_key notify queried s ≡ (ok rows, s)
      unfolding ask_hosts
      asked rows s h = rw h

      run_all_body-Visited :
          (rows : List HostsModel) (s : S)
          → ((t : S) → queried t ≡ value rows)
          → ((host : HostsModel) → Ends (run host))
          → ((results : List HostActionResult) → Ends (notify results))
          → (results : List HostActionResult) × (u : S) × Visited run
              (select (λ host. host.enabled) rows)
              (started s)
              results
              u
            × (run_all_body ttl S cache_of with_cache status_key notify queried status run s
                ≡ (ok tt, (notify results (recorded results u)).1))
      unfolding run_all_body
      run_all_body-Visited rows s found ends tells =
          let (results, u, v, e) =
            visit_hosts-Visited ends (select (λ host. host.enabled) rows) [] (started s) in
          (
            results,
            u,
            v,
            bind-ok _ _ (cached (ttl.set status_key (status_of preparing)) s)
                ∙ bind-ok _ _ (asked rows _ (found _))
                ∙ bind-ok _ _ (cached (update ttl status_key (status_of status)) _)
                ∙ bind-ok _ _ e
                ∙ bind-ok _ _ (
                    cached
                      (update ttl status_key (finished done (all_results (by_host results [])))) u)
                ∙ told results _ (tells results),
          )

      abbrev over : List HostActionResult → ActionProgress
      over results = finished done (all_results (by_host results []))

      overwritten :
          (results : List HostActionResult) (cache : ttl.Store)
          → ttl.get status_key (update ttl status_key (over results) cache) ≡ some (over results)
      unfolding update
      overwritten results cache =
          ttl.get-set status_key _ cache
          ∙ ap some (merged (ttl.get status_key cache) done (all_results (by_host results [])))

      allowed :
          (s : S)
          → is_allowed_start_cache (ttl.get status_key (cache_of s)) ≡ true
          → run_all ttl S cache_of with_cache status_key notify queried status run s
            ≡ try_except
                (run_all_body ttl S cache_of with_cache status_key notify queried status run)
                (λ e.
                  cache_all ttl S cache_of with_cache
                    (update ttl status_key (status_of ActionStatus.error)))
                s
      unfolding run_all get ◌>>=◌
      allowed s free = rw free

      -- A run over all hosts that starts visits each enabled host in the order of the table, each from the
      -- state that the one before left, however that one ended. It raises nothing, and what it records
      -- under its key is that it is done, with the results of the visits that returned one; then it
      -- notifies, whatever comes of that. The premises are that the query of the hosts is answered, and
      -- that the visits and the notification end.
      pub run_all-Visited :
          (rows : List HostsModel) (s : S)
          → ((cache : ttl.Store) (t : S) → cache_of (with_cache cache t) ≡ cache)
          → ((t : S) → queried t ≡ value rows)
          → ((host : HostsModel) → Ends (run host))
          → ((results : List HostActionResult) → Ends (notify results))
          → is_allowed_start_cache (ttl.get status_key (cache_of s)) ≡ true
          → (results : List HostActionResult) × (u : S) × Visited run
              (select (λ host. host.enabled) rows)
              (started s)
              results
              u
            × (ttl.get status_key (cache_of (recorded results u))
                ≡ some (finished done (all_results (by_host results []))))
            × (run_all ttl S cache_of with_cache status_key notify queried status run s
                ≡ (ok tt, (notify results (recorded results u)).1))
      run_all-Visited rows s lens found ends tells free =
          let (results, u, v, e) = run_all_body-Visited rows s found ends tells in
          (
            results,
            u,
            v,
            rw (lens (update ttl status_key (over results) (cache_of u)) u)
                (overwritten results (cache_of u)),
            allowed s free ∙ try-ok _ _ e,
          )
