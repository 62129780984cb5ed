-- ===== src/Plan/Edges.antt =====
-- The two maps of the plan are reverses of one another.
use tugtainer.Base.{
  ◌≡◌, refl, inl, inr, true, false, ◌&&◌, ◌||◌, none, List, [], ◌∷◌, Text, Dict, lookup, put,
  lookup-put, keys, or_else, elem, add, elem-add, ◌==◌, eq_iff, arith, Bool-cases,
}
use tugtainer.Graph.Dfs.Distinct.{Distinct}
use tugtainer.Docker.{Container}
use tugtainer.Plan.Maps.{
  SetOrder, compose_service_names, depends_on, depends_on_map, add_dependables, dependables_map,
}
use tugtainer.Plan.Build.{entry, depends, dependables, names}

abbrev deps_of : Dict (List Text) → Text → List Text
deps_of m x = or_else (lookup x m) []

elem-keys-put :
    (k x : Text) (v : List Text) (m : Dict (List Text))
    → elem x (keys (put k v m)) ≡ (k == x || elem x (keys m))
unfolding keys put elem
elem-keys-put k x v [] = refl
elem-keys-put k x v ((j, w) ∷ m) =
    ground (arith, elem-keys-put k x v m, eq_iff j k, eq_iff j x, eq_iff k x)

put-Distinct :
    (k : Text) (v : List Text) (m : Dict (List Text))
    → Distinct (keys m)
    → Distinct (keys (put k v m))
unfolding keys put elem
put-Distinct k v [] d = (refl, tt)
put-Distinct k v ((j, w) ∷ m) d = elim (Bool-cases (j == k)) [
  | inl same ↦ rw same d
  | inr other ↦
      rw other
        (ground (arith, elem-keys-put k j v m, d.0, eq_iff k j, eq_iff j k), put-Distinct k v m d.1)
]

module _ (order : SetOrder) where
  depends_on_map-Distinct :
      (services : Dict (Dict Text)) (cs : List Container) (acc : Dict (List Text))
      → Distinct (keys acc)
      → Distinct (keys (depends_on_map order services cs acc))
  unfolding depends_on_map
  depends_on_map-Distinct services [] acc d = d
  depends_on_map-Distinct services (c ∷ cs) acc d =
      depends_on_map-Distinct services cs _ (put-Distinct c.name _ acc d)

  elem-keys-depends_on_map :
      (services : Dict (Dict Text)) (cs : List Container) (acc : Dict (List Text)) (x : Text)
      → elem x (keys (depends_on_map order services cs acc))
        ≡ (elem x (keys acc) || elem x (names cs))
  unfolding depends_on_map elem
  elem-keys-depends_on_map services [] acc x = ground arith
  elem-keys-depends_on_map services (c ∷ cs) acc x = ground (
    arith,
    elem-keys-depends_on_map services cs (put c.name (depends_on order services c) acc) x,
    elem-keys-put c.name x (depends_on order services c) acc,
  )

  elem-add_dependables :
      (name : Text) (ds : List Text) (acc : Dict (List Text)) (x y : Text)
      → elem y (deps_of (add_dependables name ds acc) x)
        ≡ (elem y (deps_of acc x) || name == y && elem x ds)
  unfolding add_dependables elem
  elem-add_dependables name [] acc x y = ground arith
  elem-add_dependables name (d ∷ ds) acc x y = ground (
    arith,
    elem-add_dependables name ds (put d (add name (deps_of acc d)) acc) x y,
    lookup-put d x (add name (deps_of acc d)) acc,
    elem-add name y (deps_of acc d),
    eq_iff d x,
    eq_iff name y,
  )

  absent-deps : (m : Dict (List Text)) (x : Text) → elem x (keys m) ≡ false → lookup x m ≡ none
  unfolding keys elem lookup
  absent-deps [] x h = refl
  absent-deps ((j, v) ∷ m) x h = ground (arith, absent-deps m x, eq_iff j x)

  elem-dependables_map :
      (m acc : Dict (List Text)) (x y : Text)
      → Distinct (keys m)
      → elem y (deps_of (dependables_map order m acc) x)
        ≡ (elem y (deps_of acc x) || elem x (deps_of m y))
  unfolding dependables_map keys lookup elem
  elem-dependables_map [] acc x y d = ground arith
  elem-dependables_map ((name, deps) ∷ m) acc x y d = ground (
    arith,
    elem-dependables_map m (add_dependables name (order.iterate deps) acc) x y d.1,
    elem-add_dependables name (order.iterate deps) acc x y,
    order.elem-iterate x deps,
    eq_iff name y,
    absent-deps m y,
    d.0,
  )

  entry_reverse :
      (m : Dict (List Text)) (x y : Text)
      → Distinct (keys m)
      → elem y (entry order (dependables_map order m []) x) ≡ elem x (entry order m y)
  unfolding entry lookup elem
  entry_reverse m x y d = ground (
    arith,
    order.elem-iterate y (deps_of (dependables_map order m []) x),
    order.elem-iterate x (deps_of m y),
    elem-dependables_map m [] x y d,
  )

  -- `y` is listed under `x` in one map exactly when `x` is listed under `y` in the other.
  pub elem-dependables :
      (cs : List Container) (x y : Text)
      → elem y (entry order (dependables order cs) x) ≡ elem x (entry order (depends order cs) y)
  unfolding dependables keys
  elem-dependables cs x y =
      entry_reverse (depends order cs) x y
        (depends_on_map-Distinct (compose_service_names cs []) cs [] tt)

  -- Only an eligible container has dependencies.
  pub elem-depends :
      (cs : List Container) (x y : Text)
      → elem y (entry order (depends order cs) x) ≡ true
      → elem x (names cs) ≡ true
  unfolding entry depends keys elem
  elem-depends cs x y h = ground (
    arith,
    h,
    order.elem-iterate y (deps_of (depends order cs) x),
    elem-keys-depends_on_map (compose_service_names cs []) cs [] x,
    absent-deps (depends order cs) x,
  )
