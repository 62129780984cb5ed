-- ===== src/Plan/Ends.antt =====
-- When `build_update_plan` of backend/core/update_actions/update_actions_plan.py ends.
use tugtainer.Base.{
  ℕ, suc, ◌+◌, ◌-◌, ◌≤◌, ◌<◌, ◌≡◌, refl, Bool, true, none, some, List, [], ◌∷◌, ◌++◌, Text, Dict,
  lookup, or_else, elem, elem-append, length, arith,
}
use tugtainer.Docker.{Container}
use tugtainer.Db.{ContainersModel, HostsModel}
use tugtainer.Graph.Bfs.{bfs}
use tugtainer.Graph.Bfs.Ends.{bfs_ends, total, le-total}
use tugtainer.Graph.Bfs.Cycle.{bfs-cycle}
use tugtainer.Graph.Dfs.{Walk, topological}
use tugtainer.Graph.Dfs.Ends.{topological_ends}
use tugtainer.Plan.Select.{PlanSettings}
use tugtainer.Plan.Maps.{SetOrder}
use tugtainer.Plan.Build.{
  UpdatePlan, names, union, entry, depends, dependables, existing, plan_for, build_update_plan,
}
use tugtainer.Plan.Edges.{elem-dependables, elem-depends}
use tugtainer.Plan.Selected.{eligible, wanted}
use tugtainer.Plan.Contract.{build}

-- All names that the map lists.
flat : Dict (List Text) → List Text
flat [] = []
flat ((k, v) ∷ m) = v ++ flat m

elem-flat :
    (m : Dict (List Text)) (x y : Text)
    → elem y (or_else (lookup x m) []) ≡ true
    → elem y (flat m) ≡ true
unfolding flat lookup elem
elem-flat [] x y h = absurd (ground (arith, h))
elem-flat ((k, v) ∷ m) x y h = ground (arith, h, elem-append y v (flat m), elem-flat m x y)

module _ (order : SetOrder) (cs : List Container) (to_update : List Text) where
  module _ (rank : Text → ℕ)
      (falls : (x y : Text)
        → elem x to_update ≡ true
        → elem y to_update ≡ true
        → elem y (entry order (depends order cs) x) ≡ true
        → rank y < rank x) where
    turned : Text → ℕ
    turned x = total rank to_update - rank x

    turned_falls :
        (x y : Text)
        → elem x to_update ≡ true
        → elem y to_update ≡ true
        → elem y (entry order (dependables order cs) x) ≡ true
        → turned y < turned x
    unfolding turned
    turned_falls x y hx hy d = omega (
      arith,
      falls y x hy hx (rw (← elem-dependables order cs x y) d),
      le-total rank y to_update hy,
    )

    reach_ends :
        (fuel : ℕ) × (r : List Text) × ((more : ℕ)
          → fuel ≤ more
          → bfs (entry order (dependables order cs)) to_update more [] (order.iterate to_update)
            ≡ some r)
    reach_ends =
        bfs_ends (entry order (dependables order cs)) to_update (names cs) turned
          (λ x y d. elem-depends order cs y x (rw (← elem-dependables order cs x y) d)) turned_falls
          (order.iterate to_update) (λ x. order.elem-iterate x to_update)

  sort_ends :
      (roots : List Text) (fuel : ℕ)
      → length (flat (depends order cs) ++ roots) < fuel
      → (w : Walk) × (topological (entry order (depends order cs)) fuel roots ≡ some w)
  unfolding entry
  sort_ends roots fuel le =
      topological_ends (entry order (depends order cs)) (flat (depends order cs) ++ roots)
        (λ x y d. ground (
          arith,
          d,
          elem-append y (flat (depends order cs)) roots,
          order.elem-iterate y (or_else (lookup x (depends order cs)) []),
          elem-flat (depends order cs) x y,
        ))
        fuel roots (λ n r. ground (arith, r, elem-append n (flat (depends order cs)) roots)) le

  plan_for-some :
      (fuel : ℕ) (affected : List Text) (w : Walk)
      → bfs (entry order (dependables order cs)) to_update fuel [] (order.iterate to_update)
        ≡ some affected
      → topological (entry order (depends order cs)) fuel (order.iterate (union affected to_update))
        ≡ some w
      → (p : UpdatePlan) × (plan_for order fuel cs to_update ≡ some p)
  unfolding plan_for
  plan_for-some fuel affected w b t = (
    record {
      to_update = existing cs to_update;
      affected = existing cs affected;
      order = existing cs w.order;
    },
    rw (b, t, plan_for) refl,
  )

module _ (order : SetOrder) (settings : PlanSettings) (now : ℕ) (host : HostsModel)
    (rows : List ContainersModel) (containers manual_for : List Container) where
  -- Where a rank falls along the dependencies between wanted containers, there is an amount of fuel
  -- such that with it, and with any more, the plan is built.
  pub plan_ends :
      (rank : Text → ℕ)
      → ((x y : Text)
          → elem x (wanted settings now host rows containers manual_for) ≡ true
          → elem y (wanted settings now host rows containers manual_for) ≡ true
          → elem y (entry order (depends order (eligible settings containers)) x) ≡ true
          → rank y < rank x)
      → (fuel : ℕ) × ((more : ℕ)
          → fuel ≤ more
          → (p : UpdatePlan) × (build order more settings now host rows containers manual_for
              ≡ some p))
  unfolding build_update_plan
  plan_ends rank falls =
      let cs = eligible settings containers in
      let to_update = wanted settings now host rows containers manual_for in
      let (fuel, r, e) = reach_ends order cs to_update rank falls in
      let roots = order.iterate (union r to_update) in
      let size = length (flat (depends order cs) ++ roots) in
      (
        fuel + suc size,
        λ more le.
            let (w, t) = sort_ends order cs to_update roots more (omega arith) in
            plan_for-some order cs to_update more r w (e more (omega arith)) t,
      )

  -- Where each name of a set of wanted names that is not empty is needed by a name of the set, no amount of fuel is
  -- enough: the breadth-first loop does not end.
  pub plan-cycle :
      (cycle : Text → Bool)
      → ((x : Text)
          → cycle x ≡ true
          → elem x (wanted settings now host rows containers manual_for) ≡ true)
      → ((x : Text)
          → cycle x ≡ true
          → (y : Text) × (cycle y ≡ true)
            × (elem x (entry order (depends order (eligible settings containers)) y) ≡ true))
      → (x : Text) → cycle x ≡ true
      → (fuel : ℕ) → build order fuel settings now host rows containers manual_for ≡ none
  unfolding build_update_plan plan_for
  plan-cycle cycle inside next x c fuel =
      let cs = eligible settings containers in
      let to_update = wanted settings now host rows containers manual_for in
      rw
        (
          bfs-cycle (entry order (dependables order cs)) to_update cycle inside
              (λ z h. let (y, cy, d) = next z h in (y, cy, rw (elem-dependables order cs z y) d))
              (order.iterate to_update) (λ z. order.elem-iterate z to_update) x c fuel,
          plan_for,
        )
        refl
