-- ===== src/Graph/Dfs/Order/Sorted.antt =====
-- Without cycles each node of `order` stands behind what it depends on.
use tugtainer.Base.{
  ℕ, zero, suc, ◌<◌, ◌≡◌, inl, inr, Bool, true, false, ◌&&◌, ◌||◌, Option, some, List, [], ◌∷◌,
  ◌++◌, Text, elem, select, elem-cons, elem-append, elem-select, elem-add, eq_iff, ◌==◌, arith,
  Bool-cases, eq_refl, some_inj,
}
use tugtainer.Graph.Dfs.{Walk, start, mark, emit, each, each-cons_inv, dfs, dfs_inv, topological}
use tugtainer.Graph.Dfs.Order.{each-Extends, dfs-Extends}

-- `y` stands in the list, and `x` stands somewhere behind it.
unfoldable pub before : Text → Text → List Text → Bool
before y x [] = false
before y x (z ∷ zs) = z == y && elem x zs || before y x zs

pub before-select :
    (keep : Text → Bool) (y x : Text) (xs : List Text)
    → keep y ≡ true
    → keep x ≡ true
    → before y x xs ≡ true
    → before y x (select keep xs) ≡ true
unfolding before select
before-select keep y x [] ky kx h = h
before-select keep y x (z ∷ zs) ky kx h = elim (Bool-cases (z == y)) [
  | inl same ↦
      rw ((eq_iff z y).0 same, ky)
        (ground (
          arith,
          h,
          same,
          elem-select keep x zs,
          before-select keep y x zs ky kx,
          eq_iff z y,
          eq_refl y,
        ))
  | inr other ↦ ground (arith, h, before-select keep y x zs ky kx)
]

module _ (depends_on : Text → List Text) where
  abbrev Sorted : List Text → List Text → Type 0
  Sorted seen [] = Unit
  Sorted seen (x ∷ xs) =
      ((y : Text) → elem y (depends_on x) ≡ true → elem y seen ≡ true) × Sorted (x ∷ seen) xs

  Sorted-snoc :
      (seen xs : List Text) (x : Text)
      → Sorted seen xs
      → ((y : Text) → elem y (depends_on x) ≡ true → (elem y seen || elem y xs) ≡ true)
      → Sorted seen (xs ++ x ∷ [])
  unfolding elem
  Sorted-snoc seen [] x s h = (λ y d. ground (arith, h y d), tt)
  Sorted-snoc seen (z ∷ xs) x s h =
      (s.0, Sorted-snoc (z ∷ seen) xs x s.1 (λ y d. ground (arith, h y d)))

  Sorted-before :
      (seen xs : List Text) (x y : Text)
      → Sorted seen xs
      → elem x xs ≡ true
      → elem y (depends_on x) ≡ true
      → (elem y seen || before y x xs) ≡ true
  unfolding before elem
  Sorted-before seen [] x y s m d = cc
  Sorted-before seen (z ∷ zs) x y s m d = elim (Bool-cases (z == x)) [
    | inl same ↦ ground (arith, s.0 y (rw ((eq_iff z x).0 same) d))
    | inr other ↦ ground (arith, Sorted-before (z ∷ seen) zs x y s.1 (ground (arith, m)) d)
  ]

  module _ (rank : Text → ℕ)
      (falls : (x y : Text) → elem y (depends_on x) ≡ true → rank y < rank x) where
    -- What is visited is emitted, or is a node on the stack, which needs the node at hand.
    record Stacked (stack : List Text) (s : Walk) : Type 0 where
      met : (x : Text) → elem x s.visited ≡ true → (elem x s.order || elem x stack) ≡ true
      sorted : Sorted [] s.order

    abbrev Above : List Text → Text → Type 0
    Above stack node = (g : Text) → elem g stack ≡ true → rank node < rank g

    each-Stacked :
        (stack : List Text) (walk : Text → Walk → Option Walk)
        → ((n : Text) (s t : Walk)
            → Above stack n
            → Stacked stack s
            → walk n s ≡ some t
            → Stacked stack t)
        → (ns : List Text) (s t : Walk) → ((n : Text) → elem n ns ≡ true → Above stack n)
        → Stacked stack s
        → each walk ns s ≡ some t
        → Stacked stack t
    unfolding each
    each-Stacked stack walk step [] s t p h e = rw (← some_inj e) h
    each-Stacked stack walk step (n ∷ ns) s t p h e =
        let (u, w, e') = each-cons_inv walk n ns s t e in
        each-Stacked stack walk step ns u t (λ k m. p k (rw elem-cons (ground (arith, m))))
          (step n s u (p n (rw elem-cons (ground (arith, eq_refl n)))) h w) e'

    mark-Stacked :
        (stack : List Text) (node : Text) (s : Walk)
        → Stacked stack s
        → Stacked (node ∷ stack) (mark node s)
    mark-Stacked stack node s h = record {
      met = λ x v. ground (arith, h.met x, v, elem-add node x s.visited, elem-cons x node stack);
      sorted = h.sorted;
    }

    emit-Stacked :
        (stack : List Text) (node : Text) (u : Walk)
        → Above stack node
        → ((y : Text) → elem y (depends_on node) ≡ true → elem y u.visited ≡ true)
        → Stacked (node ∷ stack) u
        → Stacked stack (emit node u)
    unfolding elem
    emit-Stacked stack node u above deps h = record {
      met = λ x v. ground (arith, h.met x v, elem-append x u.order (node ∷ []));
      sorted = Sorted-snoc [] u.order node h.sorted λ y d. ground (
        arith,
        h.met y (deps y d),
        λ (p : elem y stack ≡ true). above y p,
        falls node y d,
        eq_iff node y,
      );
    }

    dfs-Stacked :
        (fuel : ℕ) (stack : List Text) (node : Text) (s t : Walk)
        → Above stack node
        → Stacked stack s
        → dfs depends_on fuel node s ≡ some t
        → Stacked stack t
    dfs-Stacked zero stack node s t a h e = absurd (unfold dfs in cc e)
    dfs-Stacked (suc fuel) stack node s t a h e = elim (dfs_inv depends_on fuel node s t e) [
      | inl (old, same) ↦ rw (← same) h
      | inr (new, (u, w, same)) ↦
          let x =
            each-Extends depends_on (dfs depends_on fuel) (dfs-Extends depends_on fuel)
              (depends_on node) (mark node s) u w in
          let above : (k : Text) → elem k (depends_on node) ≡ true → Above (node ∷ stack) k =
            λ k d g m. ground (
              arith,
              falls node k d,
              m,
              elem-cons g node stack,
              eq_iff node g,
              λ (p : elem g stack ≡ true). a g p,
            ) in
          let inner =
            each-Stacked (node ∷ stack) (dfs depends_on fuel) (dfs-Stacked fuel (node ∷ stack))
              (depends_on node) (mark node s) u above (mark-Stacked stack node s h) w in
          rw (← same) (emit-Stacked stack node u a x.1 inner)
    ]

    -- Where a rank falls along every dependency, what a node of the order depends on stands before it.
    pub topological-before :
        (fuel : ℕ) (roots : List Text) (t : Walk)
        → topological depends_on fuel roots ≡ some t
        → (x y : Text) → elem x t.order ≡ true
        → elem y (depends_on x) ≡ true
        → before y x t.order ≡ true
    unfolding topological elem
    topological-before fuel roots t e x y m d =
        let h =
          each-Stacked [] (dfs depends_on fuel) (dfs-Stacked fuel []) roots start t
            (λ n r g p. absurd (ground (arith, p))) (record { met = λ x v. cc; sorted = tt }) e in
        ground (arith, Sorted-before [] t.order x y h.sorted m d)
