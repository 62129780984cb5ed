-- ===== src/Plan/Members.antt =====
-- What stands in the three fields of a plan that `build_update_plan` returns.
use tugtainer.Base.{
  ℕ, ◌≡◌, sym, ap, ◌↔◌, inl, inr, true, false, ◌&&◌, ◌||◌, some, List, [], ◌∷◌, Text, elem, add,
  elem-add, arith, Option-cases, some_inj, elem-select,
}
use tugtainer.Docker.{Container}
use tugtainer.Graph.Bfs.{bfs, Reach}
use tugtainer.Graph.Bfs.Reached.{elem-bfs}
use tugtainer.Graph.Dfs.{Walk, topological}
use tugtainer.Graph.Dfs.Distinct.{Distinct, Distinct-select}
use tugtainer.Graph.Dfs.Order.{Needs, root}
use tugtainer.Graph.Dfs.Order.Members.{elem-topological, topological-Distinct}
use tugtainer.Plan.Maps.{SetOrder}
use tugtainer.Plan.Build.{
  UpdatePlan, names, union, entry, depends, dependables, existing, finish, plan_for,
}

elem-union : (a b : List Text) (x : Text) → elem x (union a b) ≡ (elem x a || elem x b)
unfolding union elem
elem-union a [] x = ground arith
elem-union a (y ∷ ys) x = ground (arith, elem-union (add y a) ys x, elem-add y x a)

pub elem-existing :
    (cs : List Container) (s : List Text) (x : Text)
    → elem x (existing cs s) ≡ (elem x (names cs) && elem x s)
unfolding existing
elem-existing cs s x = elem-select (λ item. elem item (names cs)) x s

-- The parts that a plan is made of.
pub record Built (order : SetOrder) (fuel : ℕ) (cs : List Container) (to_update : List Text)
    (p : UpdatePlan) : Type 0 where
  pub affected : List Text
  pub walk : Walk
  pub reached :
      bfs (entry order (dependables order cs)) to_update fuel [] (order.iterate to_update)
      ≡ some affected
  pub sorted :
      topological (entry order (depends order cs)) fuel (order.iterate (union affected to_update))
      ≡ some walk
  pub updates : p.to_update ≡ existing cs to_update
  pub affects : p.affected ≡ existing cs affected
  pub orders : p.order ≡ existing cs walk.order

pub plan_for-Built :
    (order : SetOrder) (fuel : ℕ) (cs : List Container) (to_update : List Text) (p : UpdatePlan)
    → plan_for order fuel cs to_update ≡ some p
    → Built order fuel cs to_update p
unfolding plan_for
plan_for-Built order fuel cs to_update p e =
    elim (Option-cases
      (bfs (entry order (dependables order cs)) to_update fuel [] (order.iterate to_update))) [
        | inl b ↦ absurd (ground (arith, e, b))
        | inr (affected, b) ↦
            elim (Option-cases (
              topological (entry order (depends order cs)) fuel
                (order.iterate (union affected to_update)))) [
                  | inl t ↦ absurd (ground (arith, e, b, t))
                  | inr (walk, t) ↦
                      let made : finish cs to_update affected (some walk) ≡ some p =
                        rw (b, t, plan_for) at e in
                      record {
                        affected = affected;
                        walk = walk;
                        reached = b;
                        sorted = t;
                        updates = ap (λ (q : UpdatePlan). q.to_update) (sym (some_inj made));
                        affects = ap (λ (q : UpdatePlan). q.affected) (sym (some_inj made));
                        orders = ap (λ (q : UpdatePlan). q.order) (sym (some_inj made));
                      }
                ]
      ]

module _ (order : SetOrder) (fuel : ℕ) (cs : List Container) (to_update : List Text)
    (p : UpdatePlan) (b : Built order fuel cs to_update p) where
  pub elem-to_update : (x : Text) → elem x p.to_update ≡ (elem x (names cs) && elem x to_update)
  elem-to_update x = rw b.updates (elem-existing cs to_update x)

  pub elem-affected :
      (x : Text)
      → (elem x p.affected ≡ true) ↔ (
          (elem x (names cs) ≡ true)
          × (elem x to_update ≡ false)
          × Reach (entry order (dependables order cs)) to_update x)
  elem-affected x =
      let same =
        elem-bfs (entry order (dependables order cs)) to_update fuel (order.iterate to_update)
          (λ y. order.elem-iterate y to_update) b.affected b.reached x in
      (
        λ h.
            let h' : (elem x (names cs) && elem x b.affected) ≡ true =
              rw (← elem-existing cs b.affected x, ← b.affects) h in
            let r = same.0 (ground (arith, h')) in (ground (arith, h'), r.0, r.1),
        λ h. rw (b.affects, elem-existing) (ground (arith, h.0, same.1 (h.1, h.2))),
      )

  pub elem-order :
      (x : Text)
      → (elem x p.order ≡ true) ↔ (
          (elem x (names cs) ≡ true)
          × Needs (entry order (depends order cs)) (order.iterate (union b.affected to_update)) x)
  elem-order x =
      let same =
        elem-topological (entry order (depends order cs)) fuel
          (order.iterate (union b.affected to_update)) b.walk b.sorted x in
      (
        λ h.
            let h' : (elem x (names cs) && elem x b.walk.order) ≡ true =
              rw (← elem-existing cs b.walk.order x, ← b.orders) h in
            (ground (arith, h'), same.0 (ground (arith, h'))),
        λ h. rw (b.orders, elem-existing) (ground (arith, h.0, same.1 h.1)),
      )

  -- Everything that is updated or affected has its place in the order, and only once.
  pub order_covers :
      (x : Text) → (elem x p.to_update || elem x p.affected) ≡ true → elem x p.order ≡ true
  order_covers x h = (elem-order x).1 (
    ground (arith, h, elem-to_update x, elem-existing cs b.affected x, b.affects),
    root (
        ground (
          arith,
          h,
          elem-to_update x,
          elem-existing cs b.affected x,
          b.affects,
          order.elem-iterate x (union b.affected to_update),
          elem-union b.affected to_update x,
        )),
  )

  pub order-Distinct : Distinct p.order
  unfolding existing
  order-Distinct = rw b.orders (
      Distinct-select (λ item. elem item (names cs)) b.walk.order
        (topological-Distinct (entry order (depends order cs)) fuel _ b.walk b.sorted))
