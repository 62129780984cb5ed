-- ===== src/Graph/Dfs/Order.antt =====
-- What the depth-first walk leaves in `order`, and in which order.
pub mod Members
pub mod Sorted
use tugtainer.Base.{
  ℕ, zero, suc, ◌≡◌, refl, ◌⊎◌, inl, inr, ◌↔◌, Bool, true, false, not, ◌&&◌, ◌||◌, Option, none,
  some, List, [], ◌∷◌, ◌++◌, Text, elem, add, elem-cons, elem-append, elem-add, eq_iff, ◌==◌, arith,
  Bool-cases, eq_refl, or-eq_true, some_inj, if◌then◌else◌,
}
use tugtainer.Graph.Dfs.{
  Walk, start, mark, emit, emit?, each, each-cons_inv, dfs, dfs_inv, topological,
}

module _ (depends_on : Text → List Text) where
  -- The nodes that the roots need, directly or through others, the roots included.
  pub data Needs (roots : List Text) : Text → Type 0 where
    root : {x : Text} → elem x roots ≡ true → Needs roots x
    via : {x y : Text} → Needs roots x → elem y (depends_on x) ≡ true → Needs roots y

  -- What a walk does to the two sets: the nodes that it visits anew are those that it emits, with
  -- all their dependencies visited.
  pub record Extends (s t : Walk) : Type 0 where
    pub grows : (x : Text) → elem x s.visited ≡ true → elem x t.visited ≡ true
    pub emits :
        (x : Text) → elem x t.order ≡ (elem x s.order || elem x t.visited && not (elem x s.visited))
    pub closes :
        (x y : Text)
        → elem x t.visited ≡ true
        → elem x s.visited ≡ false
        → elem y (depends_on x) ≡ true
        → elem y t.visited ≡ true

  Extends-refl : (s : Walk) → Extends s s
  Extends-refl s = record { grows = λ x h. h; emits = λ x. ground arith; closes = λ x y h k. cc }

  Extends-trans : {s t u : Walk} → Extends s t → Extends t u → Extends s u
  Extends-trans {s} {t} {u} a b = record {
    grows = λ x h. b.grows x (a.grows x h);
    emits = λ x. ground (arith, a.emits x, b.emits x, a.grows x, b.grows x);
    closes = λ x y h k d. elim (Bool-cases (elem x t.visited)) [
      | inl old ↦ b.grows y (a.closes x y old k d)
      | inr new ↦ b.closes x y h new d
    ];
  }

  pub each-Extends :
      (walk : Text → Walk → Option Walk)
      → ((n : Text) (s t : Walk) → walk n s ≡ some t → Extends s t × (elem n t.visited ≡ true))
      → (ns : List Text) (s t : Walk) → each walk ns s ≡ some t
      → Extends s t × ((n : Text) → elem n ns ≡ true → elem n t.visited ≡ true)
  unfolding each elem
  each-Extends walk step [] s t e = (rw (← some_inj e) (Extends-refl s), λ n h. cc)
  each-Extends walk step (n ∷ ns) s t e =
      let (u, w, e') = each-cons_inv walk n ns s t e in
      let first = step n s u w in
      let rest = each-Extends walk step ns u t e' in
      (
        Extends-trans first.0 rest.0,
        λ k h. ground (arith, h, eq_iff n k, rest.0.grows n first.1, rest.1 k),
      )

  emit-Extends :
      (node : Text) (s u : Walk)
      → elem node s.visited ≡ false
      → Extends (mark node s) u
      → ((n : Text) → elem n (depends_on node) ≡ true → elem n u.visited ≡ true)
      → Extends s (emit node u) × (elem node u.visited ≡ true)
  unfolding elem
  emit-Extends node s u new x deps =
      let here : elem node u.visited ≡ true =
        x.grows node (ground (arith, elem-add node node s.visited, eq_refl node)) in
      (
        record {
          grows = λ y h. x.grows y (ground (arith, h, elem-add node y s.visited));
          emits = λ y. ground (
            arith,
            x.emits y,
            elem-add node y s.visited,
            elem-append y u.order (node ∷ []),
            eq_iff node y,
          );
          closes = λ y z h k d. elim (Bool-cases (node == y)) [
            | inl same ↦ deps z (rw ((eq_iff node y).0 same) d)
            | inr other ↦ x.closes y z h (ground (arith, elem-add node y s.visited)) d
          ];
        },
        here,
      )

  pub dfs-Extends :
      (fuel : ℕ) (node : Text) (s t : Walk)
      → dfs depends_on fuel node s ≡ some t
      → Extends s t × (elem node t.visited ≡ true)
  dfs-Extends zero node s t e = absurd (unfold dfs in cc e)
  dfs-Extends (suc fuel) node s t e = elim (dfs_inv depends_on fuel node s t e) [
    | inl (old, same) ↦ (rw (← same) (Extends-refl s), rw (← same) old)
    | inr (new, (u, w, same)) ↦
        let all =
          each-Extends (dfs depends_on fuel) (dfs-Extends fuel) (depends_on node) (mark node s) u
            w in
        rw (← same) (emit-Extends node s u new all.0 all.1)
  ]
