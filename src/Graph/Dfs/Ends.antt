-- ===== src/Graph/Dfs/Ends.antt =====
-- The depth-first walk ends: one more than the number of nodes is fuel enough, cycles or not.
use tugtainer.Base.{
  ℕ, zero, suc, ◌<◌, ◌≡◌, refl, inl, inr, true, Option, some, List, [], ◌∷◌, Text, elem, length,
  elem-cons, elem-add, arith, Bool-cases, eq_refl,
}
use tugtainer.Graph.Missing.{missing, missing-add-lt, missing_mono, missing-le-length}
use tugtainer.Graph.Dfs.{Walk, start, mark, emit, each, dfs, topological}

module _ (depends_on : Text → List Text) (nodes : List Text)
    (inside : (x y : Text) → elem y (depends_on x) ≡ true → elem y nodes ≡ true) where
  -- A walk that ends, and visits no less than before.
  record Done (r : Option Walk) (s : Walk) : Type 0 where
    result : Walk
    ended : r ≡ some result
    grows : (x : Text) → elem x s.visited ≡ true → elem x result.visited ≡ true

  each-Done :
      (walk : Text → Walk → Option Walk) (bound : ℕ)
      → ((n : Text) (s : Walk)
          → elem n nodes ≡ true
          → missing s.visited nodes < bound
          → Done (walk n s) s)
      → (ns : List Text) (s : Walk) → ((n : Text) → elem n ns ≡ true → elem n nodes ≡ true)
      → missing s.visited nodes < bound
      → Done (each walk ns s) s
  unfolding each
  each-Done walk bound step [] s known m = record { result = s; ended = refl; grows = λ x h. h }
  each-Done walk bound step (n ∷ ns) s known m =
      let d = step n s (known n (rw elem-cons (ground (arith, eq_refl n)))) m in
      let rest =
        each-Done walk bound step ns d.result (λ k h. known k (rw elem-cons (ground (arith, h))))
          (omega (arith, missing_mono s.visited d.result.visited nodes d.grows)) in
      record {
        result = rest.result;
        ended = rw (d.ended, each) rest.ended;
        grows = λ x h. rest.grows x (d.grows x h);
      }

  dfs-Done :
      (fuel : ℕ) (node : Text) (s : Walk)
      → elem node nodes ≡ true
      → missing s.visited nodes < fuel
      → Done (dfs depends_on fuel node s) s
  unfolding dfs
  dfs-Done zero node s k m = absurd (omega arith)
  dfs-Done (suc fuel) node s k m = elim (Bool-cases (elem node s.visited)) [
    | inl old ↦ record { result = s; ended = rw old; grows = λ x h. h }
    | inr new ↦
        let d =
          each-Done (dfs depends_on fuel) fuel (dfs-Done fuel) (depends_on node) (mark node s)
            (inside node) (omega (arith, missing-add-lt s.visited node nodes new k)) in
        record {
          result = emit node d.result;
          ended = rw (new, d.ended);
          grows = λ x h. d.grows x (ground (arith, elem-add node x s.visited));
        }
  ]

  -- With more fuel than there are nodes the sort ends, whatever the graph.
  pub topological_ends :
      (fuel : ℕ) (roots : List Text)
      → ((n : Text) → elem n roots ≡ true → elem n nodes ≡ true)
      → length nodes < fuel
      → (s : Walk) × (topological depends_on fuel roots ≡ some s)
  unfolding topological
  topological_ends fuel roots known m =
      let d =
        each-Done (dfs depends_on fuel) fuel (dfs-Done fuel) roots start known
          (omega (arith, missing-le-length [] nodes)) in
      (d.result, d.ended)
