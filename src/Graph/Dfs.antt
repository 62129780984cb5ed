-- ===== src/Graph/Dfs.antt =====
-- The topological sort, `dfs`, in backend/core/update_actions/update_actions_plan.py.
pub mod Distinct
pub mod Order
pub mod Ends
use tugtainer.Base.{
  ℕ, zero, suc, ◌≡◌, Bool, true, false, not, Option, none, some, List, [], ◌∷◌, ◌++◌, Text, elem,
  add, ◌⊎◌, inl, inr, some_inj, arith, Bool-cases, Option-cases, if◌then◌else◌,
}

-- The variables that the inner function shares: `visited` and `order`.
pub record Walk : Type 0 where
  pub visited : List Text
  pub order : List Text

abbrev pub start : Walk
start = record { visited = []; order = [] }

-- `visited.add(node)` and `order.append(node)`.
abbrev pub mark : Text → Walk → Walk
mark node s = record s { visited = add node s.visited }

abbrev pub emit : Text → Walk → Walk
emit node s = record s { order = s.order ++ node ∷ [] }

-- `for n in nodes: walk(n)`; `none` means that the fuel ran out below.
unfoldable pub each : (Text → Walk → Option Walk) → List Text → Walk → Option Walk
each walk [] s = some s
each walk (n ∷ ns) s = elim (walk n s) [ none ↦ none | some s' ↦ each walk ns s' ]

pub each-cons_inv :
    (walk : Text → Walk → Option Walk) (n : Text) (ns : List Text) (s t : Walk)
    → each walk (n ∷ ns) s ≡ some t
    → (u : Walk) × (walk n s ≡ some u) × (each walk ns u ≡ some t)
unfolding each
each-cons_inv walk n ns s t e = elim (Option-cases (walk n s)) [
  | inl w ↦ absurd (ground (arith, w, e))
  | inr (u, w) ↦ (u, w, ground (arith, w, e))
]

abbrev pub emit? : Text → Option Walk → Option Walk
emit? node none = none
emit? node (some s) = some (emit node s)

-- `depends_on node` is the set that the loop iterates over, in the order in which it does.
module _ (depends_on : Text → List Text) where
  unfoldable pub dfs : ℕ → Text → Walk → Option Walk
  dfs zero node s = none
  dfs (suc fuel) node s =
      if elem node s.visited
      then some s
      else emit? node (each (dfs fuel) (depends_on node) (mark node s))

  pub dfs_inv :
      (fuel : ℕ) (node : Text) (s t : Walk)
      → dfs (suc fuel) node s ≡ some t
      → ((elem node s.visited ≡ true) × (s ≡ t))
        ⊎ ((elem node s.visited ≡ false)
            × ((u : Walk) × (each (dfs fuel) (depends_on node) (mark node s) ≡ some u)
                × (emit node u ≡ t)))
  unfolding dfs
  dfs_inv fuel node s t e = elim (Bool-cases (elem node s.visited)) [
    | inl old ↦ inl (old, some_inj (rw old at e))
    | inr new ↦ elim (Option-cases (each (dfs fuel) (depends_on node) (mark node s))) [
      | inl w ↦ absurd (ground (arith, w, e, new))
      | inr (u, w) ↦ inr (new, (u, w, some_inj (rw (new, w) at e)))
    ]
  ]

  -- `for n in roots: dfs(n)`, from empty sets.
  unfoldable pub topological : ℕ → List Text → Option Walk
  unfolding dfs each
  topological fuel roots = each (dfs fuel) roots start
