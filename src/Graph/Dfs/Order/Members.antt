-- ===== src/Graph/Dfs/Order/Members.antt =====
-- `order` holds what the roots need, each node once.
use tugtainer.Base.{
  ℕ, zero, suc, ◌≡◌, refl, inl, inr, ◌↔◌, true, false, Option, some, List, [], ◌∷◌, Text, elem, add,
  elem-cons, elem-append, elem-add, eq_iff, ◌==◌, arith, Bool-cases, eq_refl, some_inj,
}
use tugtainer.Graph.Dfs.{Walk, start, mark, emit, each, each-cons_inv, dfs, dfs_inv, topological}
use tugtainer.Graph.Dfs.Distinct.{Distinct, Distinct-snoc}
use tugtainer.Graph.Dfs.Order.{Needs, root, via, Extends, each-Extends, dfs-Extends}

module _ (depends_on : Text → List Text) where
  -- Only what is needed is visited, and what is emitted is visited and emitted once.
  record Neat (P : Text → Type 0) (s : Walk) : Type 0 where
    visits : (x : Text) → elem x s.visited ≡ true → P x
    emitted : (x : Text) → elem x s.order ≡ true → elem x s.visited ≡ true
    distinct : Distinct s.order

  module _ (P : Text → Type 0)
      (closed : (x y : Text) → P x → elem y (depends_on x) ≡ true → P y) where
    each-Neat :
        (walk : Text → Walk → Option Walk)
        → ((n : Text) (s t : Walk) → P n → Neat P s → walk n s ≡ some t → Neat P t)
        → (ns : List Text) (s t : Walk) → ((n : Text) → elem n ns ≡ true → P n)
        → Neat P s
        → each walk ns s ≡ some t
        → Neat P t
    unfolding each
    each-Neat walk step [] s t p h e = rw (← some_inj e) h
    each-Neat walk step (n ∷ ns) s t p h e =
        let (u, w, e') = each-cons_inv walk n ns s t e in
        each-Neat walk step ns u t (λ k m. p k (rw elem-cons (ground (arith, m))))
          (step n s u (p n (rw elem-cons (ground (arith, eq_refl n)))) h w) e'

    mark-Neat : (node : Text) (s : Walk) → P node → Neat P s → Neat P (mark node s)
    mark-Neat node s p h = record {
      visits = λ x v. elim (Bool-cases (node == x)) [
        | inl same ↦ rw (← (eq_iff node x).0 same) p
        | inr other ↦ h.visits x (ground (arith, v, elem-add node x s.visited))
      ];
      emitted = λ x v. ground (arith, h.emitted x v, elem-add node x s.visited);
      distinct = h.distinct;
    }

    emit-Neat :
        (node : Text) (s u : Walk)
        → elem node s.visited ≡ false
        → Neat P s
        → Extends depends_on (mark node s) u
        → Neat P u
        → Neat P (emit node u)
    unfolding elem
    emit-Neat node s u new before x h =
        let here : elem node (add node s.visited) ≡ true =
          ground (arith, elem-add node node s.visited, eq_refl node) in
        record {
          visits = h.visits;
          emitted = λ y v. ground (
            arith,
            v,
            h.emitted y,
            elem-append y u.order (node ∷ []),
            eq_iff node y,
            x.grows node here,
          );
          distinct =
              Distinct-snoc u.order node h.distinct
                (ground (arith, x.emits node, here, before.emitted node));
        }

    dfs-Neat :
        (fuel : ℕ) (node : Text) (s t : Walk)
        → P node
        → Neat P s
        → dfs depends_on fuel node s ≡ some t
        → Neat P t
    dfs-Neat zero node s t p h e = absurd (unfold dfs in cc e)
    dfs-Neat (suc fuel) node s t p h e = elim (dfs_inv depends_on fuel node s t e) [
      | inl (old, same) ↦ rw (← same) h
      | inr (new, (u, w, same)) ↦
          let x =
            each-Extends depends_on (dfs depends_on fuel) (dfs-Extends depends_on fuel)
              (depends_on node) (mark node s) u w in
          let inner =
            each-Neat (dfs depends_on fuel) (dfs-Neat fuel) (depends_on node) (mark node s) u
              (λ k. closed node k p) (mark-Neat node s p h) w in
          rw (← same) (emit-Neat node s u new h x.0 inner)
    ]

  topological-Neat :
      (fuel : ℕ) (roots : List Text) (t : Walk)
      → topological depends_on fuel roots ≡ some t
      → Neat (Needs depends_on roots) t
  unfolding topological elem
  topological-Neat fuel roots t e =
      each-Neat (Needs depends_on roots) (λ x y. via) (dfs depends_on fuel)
        (dfs-Neat (Needs depends_on roots) (λ x y. via) fuel) roots start t (λ n. root)
        (record { visits = λ x h. cc; emitted = λ x h. cc; distinct = tt }) e

  topological-Extends :
      (fuel : ℕ) (roots : List Text) (t : Walk)
      → topological depends_on fuel roots ≡ some t
      → Extends depends_on start t × ((n : Text) → elem n roots ≡ true → elem n t.visited ≡ true)
  unfolding topological
  topological-Extends fuel roots t e =
      each-Extends depends_on (dfs depends_on fuel) (dfs-Extends depends_on fuel) roots start t e

  Needs-visited :
      (roots : List Text) (t : Walk)
      → Extends depends_on start t × ((n : Text) → elem n roots ≡ true → elem n t.visited ≡ true)
      → {x : Text} → Needs depends_on roots x
      → elem x t.visited ≡ true
  unfolding elem
  Needs-visited roots t h (root r) = h.1 _ r
  Needs-visited roots t h (via {x = x} {y = y} n d) =
      h.0.closes x y (Needs-visited roots t h n) refl d

  -- The order of a finished sort holds exactly the roots and what they need, directly or not.
  pub elem-topological :
      (fuel : ℕ) (roots : List Text) (t : Walk)
      → topological depends_on fuel roots ≡ some t
      → (x : Text) → (elem x t.order ≡ true) ↔ Needs depends_on roots x
  unfolding elem
  elem-topological fuel roots t e x =
      let neat = topological-Neat fuel roots t e in
      let ext = topological-Extends fuel roots t e in
      (
        λ m. neat.visits x (neat.emitted x m),
        λ n. ground (arith, ext.0.emits x, Needs-visited roots t ext n),
      )

  -- It holds nothing twice.
  pub topological-Distinct :
      (fuel : ℕ) (roots : List Text) (t : Walk)
      → topological depends_on fuel roots ≡ some t
      → Distinct t.order
  topological-Distinct fuel roots t e = (topological-Neat fuel roots t e).distinct
