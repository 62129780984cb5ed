-- ===== src/Plan/Contract.antt =====
-- What `build_update_plan` of backend/core/update_actions/update_actions_plan.py promises.
use tugtainer.Base.{
  ℕ, ◌<◌, ◌≡◌, ◌↔◌, inl, inr, true, false, ◌&&◌, ◌||◌, Option, some, List, [], ◌∷◌, Text, select,
  elem, arith, Bool-cases,
}
use tugtainer.Docker.{Container}
use tugtainer.Db.{ContainersModel, HostsModel, rows_of, rows_by_name}
use tugtainer.Graph.Bfs.{Reach, follow}
use tugtainer.Graph.Dfs.Distinct.{Distinct}
use tugtainer.Graph.Dfs.Order.Sorted.{before, before-select, topological-before}
use tugtainer.Plan.Select.{PlanSettings, is_eligible, is_due, select_to_update}
use tugtainer.Plan.Maps.{SetOrder}
use tugtainer.Plan.Build.{
  UpdatePlan, names, union, entry, depends, dependables, existing, build_update_plan,
}
use tugtainer.Plan.Edges.{elem-dependables}
use tugtainer.Plan.Selected.{
  eligible, row_of, wanted, Eligible, Eligible-elem, elem-names-select, elem-collect, Due,
  is_due_iff, holds_for_iff,
}
use tugtainer.Plan.Members.{
  Built, plan_for-Built, elem-to_update, elem-affected, elem-order, order_covers, order-Distinct,
  elem-existing,
}

-- The containers that depend, directly or through others, on a source, the sources included.
pub data Downstream (order : SetOrder) (cs : List Container) (sources : List Text)
    : Text → Type 0 where
  source : {x : Text} → elem x sources ≡ true → Downstream order cs sources x
  needs :
      {x y : Text}
      → Downstream order cs sources x
      → elem x (entry order (depends order cs) y) ≡ true
      → Downstream order cs sources y

module _ (order : SetOrder) (cs : List Container) (sources : List Text) where
  Reach-Downstream :
      {x : Text}
      → Reach (entry order (dependables order cs)) sources x
      → Downstream order cs sources x
  Reach-Downstream (Reach.source s) = source s
  Reach-Downstream (follow {x = x} {y = y} r d) =
      needs (Reach-Downstream r) (rw (← elem-dependables order cs x y) d)

  Downstream-Reach :
      {x : Text}
      → Downstream order cs sources x
      → Reach (entry order (dependables order cs)) sources x
  Downstream-Reach (source s) = Reach.source s
  Downstream-Reach (needs {x = x} {y = y} r d) =
      follow (Downstream-Reach r) (rw (elem-dependables order cs x y) d)

module _ (order : SetOrder) (fuel : ℕ) (settings : PlanSettings) (now : ℕ) (host : HostsModel)
    (rows : List ContainersModel) (containers : List Container) where
  abbrev pub build : List Container → Option UpdatePlan
  build = build_update_plan order fuel settings now host rows containers

  pub build-Built :
      (manual_for : List Container) (p : UpdatePlan)
      → build manual_for ≡ some p
      → Built order fuel
          (eligible settings containers)
          (wanted settings now host rows containers manual_for)
          p
  unfolding build_update_plan
  build-Built manual_for p e =
      plan_for-Built order fuel (eligible settings containers)
        (wanted settings now host rows containers manual_for) p e

  -- A scheduled plan that is built updates a name exactly when an eligible container has it and its row is due.
  pub scheduled_updates :
      (p : UpdatePlan)
      → build [] ≡ some p
      → (x : Text)
      → (elem x p.to_update ≡ true) ↔ (
          Eligible settings containers x
          × ((row : ContainersModel) × (row_of host rows x ≡ some row) × Due settings now row))
  unfolding select_to_update elem select
  scheduled_updates p e x =
      let b = build-Built [] p e in
      let eq =
        elem-to_update order fuel (eligible settings containers)
          (wanted settings now host rows containers []) p b x in
      let col =
        elem-collect (is_due settings now) (rows_by_name (rows_of host.id rows) [])
          (eligible settings containers) [] x in
      let row = holds_for_iff (is_due settings now) (row_of host rows x) in
      (
        λ h.
            let (r, at, due) = row.0 (ground (arith, eq, col, h)) in
            (
              elem-names-select settings containers x (ground (arith, eq, col, h)),
              (r, at, (is_due_iff settings now r).0 due),
            ),
        λ h.
            let (r, at, due) = h.1 in
            ground (
              arith,
              eq,
              col,
              Eligible-elem settings containers x h.0,
              row.1 (r, at, (is_due_iff settings now r).1 due),
            ),
      )

  -- If an eligible container is asked for, the plan updates a name exactly when an eligible container
  -- of the host has it, an eligible one that was asked for has it, and its row has an update.
  pub manual_updates :
      (manual_for : List Container) (c : Container) (cs : List Container) (p : UpdatePlan)
      → select (is_eligible settings) manual_for ≡ c ∷ cs
      → build manual_for ≡ some p
      → (x : Text)
      → (elem x p.to_update ≡ true) ↔ (
          Eligible settings containers x
          × Eligible settings manual_for x
          × ((row : ContainersModel) × (row_of host rows x ≡ some row)
              × (row.update_available ≡ true)))
  unfolding select_to_update elem
  manual_updates manual_for c cs p some_asked e x =
      let b = build-Built manual_for p e in
      let eq =
        elem-to_update order fuel (eligible settings containers)
          (wanted settings now host rows containers manual_for) p b x in
      let col =
        elem-collect (λ row. row.update_available) (rows_by_name (rows_of host.id rows) []) (c ∷ cs)
          [] x in
      let row = holds_for_iff (λ r. r.update_available) (row_of host rows x) in
      (
        λ h. (
          elem-names-select settings containers x (ground (arith, eq, h)),
          elem-names-select settings manual_for x (ground (arith, eq, col, h, some_asked)),
          row.0 (ground (arith, eq, col, h, some_asked)),
        ),
        λ h. ground (
          arith,
          eq,
          col,
          some_asked,
          Eligible-elem settings containers x h.0,
          Eligible-elem settings manual_for x h.1,
          row.1 h.2,
        ),
      )

  -- If no container that was asked for is eligible, the plan is the scheduled one.
  pub manual_fallback :
      (manual_for : List Container)
      → select (is_eligible settings) manual_for ≡ []
      → build manual_for ≡ build []
  unfolding build_update_plan select
  manual_fallback manual_for none_asked = rw none_asked

  module _ (manual_for : List Container) (p : UpdatePlan) (e : build manual_for ≡ some p) where
    abbrev built :
        Built order fuel
          (eligible settings containers)
          (wanted settings now host rows containers manual_for)
          p
    built = build-Built manual_for p e

    -- Each name of a plan that is built belongs to an eligible container of the host.
    pub plan-Eligible :
        (x : Text)
        → (elem x p.to_update || elem x p.affected || elem x p.order) ≡ true
        → Eligible settings containers x
    plan-Eligible x h =
        let o =
          elem-order order fuel (eligible settings containers)
            (wanted settings now host rows containers manual_for) p built x in
        let covers =
          order_covers order fuel (eligible settings containers)
            (wanted settings now host rows containers manual_for) p built x in
        elem-names-select settings containers x (elim (Bool-cases (elem x p.order)) [
          | inl here ↦ (o.0 here).0
          | inr gone ↦ (o.0 (covers (ground (arith, h, gone)))).0
        ])

    -- In a plan that is built a name is affected exactly when it is not updated itself, an eligible container of the host has
    -- it, and it depends, directly or through others, on a name that was wanted.
    pub plan_affected :
        (x : Text)
        → (elem x p.affected ≡ true) ↔ (
            Eligible settings containers x
            × (elem x p.to_update ≡ false)
            × Downstream order
                (eligible settings containers)
                (wanted settings now host rows containers manual_for)
                x)
    plan_affected x =
        let same =
          elem-affected order fuel (eligible settings containers)
            (wanted settings now host rows containers manual_for) p built x in
        let eq =
          elem-to_update order fuel (eligible settings containers)
            (wanted settings now host rows containers manual_for) p built x in
        (
          λ h.
              let (n, u, r) = same.0 h in
              (
                elem-names-select settings containers x n,
                ground (arith, eq, u),
                Reach-Downstream order (eligible settings containers)
                    (wanted settings now host rows containers manual_for) r,
              ),
          λ h. same.1 (
            Eligible-elem settings containers x h.0,
            ground (arith, eq, h.1, Eligible-elem settings containers x h.0),
            Downstream-Reach order (eligible settings containers)
                (wanted settings now host rows containers manual_for) h.2,
          ),
        )

    -- The order of a plan that is built names each updated and each affected container, and no name twice.
    pub plan_order :
        ((x : Text) → (elem x p.to_update || elem x p.affected) ≡ true → elem x p.order ≡ true)
        × Distinct p.order
    plan_order = (
      order_covers order fuel (eligible settings containers)
          (wanted settings now host rows containers manual_for) p built,
      order-Distinct order fuel (eligible settings containers)
          (wanted settings now host rows containers manual_for) p built,
    )

    -- Where the dependencies have a rank, so that there is no cycle, a container stands in the order
    -- behind each container of the order that it depends on.
    pub plan_sorted :
        (rank : Text → ℕ)
        → ((x y : Text)
            → elem y (entry order (depends order (eligible settings containers)) x) ≡ true
            → rank y < rank x)
        → (x y : Text) → elem x p.order ≡ true
        → elem y p.order ≡ true
        → elem y (entry order (depends order (eligible settings containers)) x) ≡ true
        → before y x p.order ≡ true
    unfolding existing
    plan_sorted rank falls x y hx hy d =
        let eq = elem-existing (eligible settings containers) built.walk.order in
        let inside : (z : Text)
            → elem z p.order ≡ true
            → (elem z (names (eligible settings containers)) && elem z built.walk.order) ≡ true =
          λ z h. rw (← eq z, ← built.orders) h in
        rw built.orders (
          before-select (λ item. elem item (names (eligible settings containers))) y x
            built.walk.order (ground (arith, inside y hy)) (ground (arith, inside x hx))
            (topological-before (entry order (depends order (eligible settings containers))) rank
              falls fuel
              (order.iterate
                (union built.affected (wanted settings now host rows containers manual_for)))
              built.walk built.sorted x y (ground (arith, inside x hx)) d))
