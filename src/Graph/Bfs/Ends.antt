-- ===== src/Graph/Bfs/Ends.antt =====
-- When the breadth-first loop ends.
use tugtainer.Base.{
  ℕ, zero, suc, ◌+◌, ◌≤◌, ◌<◌, ◌≡◌, refl, ◌⊎◌, inl, inr, Bool, true, false, not, ◌||◌, some, List,
  [], ◌∷◌, ◌++◌, Text, elem, select, elem-cons, eq_iff, arith, Bool-cases, eq_refl, if◌then◌else◌,
}
use tugtainer.Graph.Bfs.{Search, visit, bfs}
use tugtainer.Graph.Missing.{missing, missing-add-lt}
use tugtainer.Graph.Bfs.Reached.{elem-queue-visit}

pub total : (Text → ℕ) → List Text → ℕ
total f [] = 0
total f (x ∷ xs) = f x + total f xs

total-append : (f : Text → ℕ) (xs ys : List Text) → total f (xs ++ ys) ≡ total f xs + total f ys
unfolding total
total-append f [] ys = omega arith
total-append f (x ∷ xs) ys = omega (arith, total-append f xs ys)

total-select :
    (f : Text → ℕ) (keep : Text → Bool) (xs : List Text) → total f (select keep xs) ≤ total f xs
unfolding total select
total-select f keep [] = omega arith
total-select f keep (x ∷ xs) = ground (arith, total-select f keep xs)

pub le-total : (f : Text → ℕ) (x : Text) (xs : List Text) → elem x xs ≡ true → f x ≤ total f xs
unfolding total elem
le-total f x [] h = cc
le-total f x (y ∷ ys) h = ground (arith, le-total f x ys, eq_iff y x)

total-congr :
    (f g : Text → ℕ) (xs : List Text)
    → ((x : Text) → elem x xs ≡ true → f x ≡ g x)
    → total f xs ≡ total g xs
unfolding total
total-congr f g [] h = refl
total-congr f g (x ∷ xs) h = omega (
  arith,
  h x (rw elem-cons (ground (arith, eq_refl x))),
  total-congr f g xs (λ y m. h y (rw elem-cons (ground (arith, m)))),
)

module _ (dependables : Text → List Text) (to_update : List Text) where
  -- The rounds that a waiting node causes before it meets a node that is no source.
  weight : ℕ → Text → ℕ
  weight zero x = 1
  weight (suc k) x = if elem x to_update then suc (total (weight k) (dependables x)) else 1

  weight_other : (k : ℕ) (x : Text) → elem x to_update ≡ false → weight k x ≡ 1
  unfolding weight
  weight_other zero x h = refl
  weight_other (suc k) x h = rw h

  weight_source :
      (k : ℕ) (x : Text)
      → elem x to_update ≡ true
      → weight (suc k) x ≡ suc (total (weight k) (dependables x))
  unfolding weight
  weight_source k x h = rw h

  pub bfs_mono :
      (fuel more : ℕ) (affected queue : List Text) {r : List Text}
      → fuel ≤ more
      → bfs dependables to_update fuel affected queue ≡ some r
      → bfs dependables to_update more affected queue ≡ some r
  unfolding bfs
  bfs_mono fuel more affected [] le h = h
  bfs_mono zero more affected (node ∷ queue) le h = cc
  bfs_mono (suc fuel) zero affected (node ∷ queue) le h = absurd (omega arith)
  bfs_mono (suc fuel) (suc more) affected (node ∷ queue) le h =
      bfs_mono fuel more _ _ (omega arith) h

module _ (dependables : Text → List Text) (to_update nodes : List Text) (rank : Text → ℕ)
    (inside : (x y : Text) → elem y (dependables x) ≡ true → elem y nodes ≡ true)
    (falls : (x y : Text)
      → elem x to_update ≡ true
      → elem y to_update ≡ true
      → elem y (dependables x) ≡ true
      → rank y < rank x) where
  weight_stable :
      (k : ℕ) (x : Text)
      → rank x < k
      → weight dependables to_update k x ≡ weight dependables to_update (suc k) x
  unfolding weight
  weight_stable zero x h = absurd (omega arith)
  weight_stable (suc k) x h = elim (Bool-cases (elem x to_update)) [
    | inl source ↦
        let same : (y : Text)
            → elem y (dependables x) ≡ true
            → weight dependables to_update k y ≡ weight dependables to_update (suc k) y =
          λ y d. elim (Bool-cases (elem y to_update)) [
            | inl s ↦ weight_stable k y (omega (arith, falls x y source s d))
            | inr o ↦ omega (
              arith,
              weight_other dependables to_update k y o,
              weight_other dependables to_update (suc k) y o,
            )
          ] in
        rw source (
          ground (
            arith,
            total-congr (weight dependables to_update k) (weight dependables to_update (suc k))
                (dependables x) same,
          ))
    | inr other ↦ rw other refl
  ]

  abbrev deep : ℕ
  deep = suc (total rank to_update)

  abbrev w : Text → ℕ
  w = weight dependables to_update deep

  w_source : (x : Text) → elem x to_update ≡ true → total w (dependables x) < w x
  w_source x source = omega (
    arith,
    weight_source dependables to_update deep x source,
    weight_stable deep x (omega (arith, le-total rank x to_update source)),
  )

  w_pos : (x : Text) → 0 < w x
  w_pos x = elim (Bool-cases (elem x to_update)) [
    | inl s ↦ omega (arith, w_source x s)
    | inr o ↦ omega (arith, weight_other dependables to_update deep x o)
  ]

  abbrev after : List Text → List Text → Text → Search
  after = visit dependables to_update

  abbrev placed : Text → Bool
  placed x = elem x nodes || elem x to_update

  -- A round either collects a node, or leaves the collected ones alone and shortens the queue.
  visit_falls :
      (affected queue : List Text) (node : Text)
      → placed node ≡ true
      → (missing (after affected queue node).affected nodes < missing affected nodes)
        ⊎ ((missing (after affected queue node).affected nodes ≡ missing affected nodes)
            × (total w (after affected queue node).queue < total w (node ∷ queue)))
  unfolding visit total
  visit_falls affected queue node p = elim (Bool-cases (elem node affected)) [
    | inl old ↦ rw old (ground (arith, w_pos node))
    | inr new ↦ elim (Bool-cases (elem node to_update)) [
      | inl source ↦
          rw (new, source)
            (inr (
              refl,
              omega (
                arith,
                w_source node source,
                total-append w queue (select (λ dep. not (elem dep affected)) (dependables node)),
                total-select w (λ dep. not (elem dep affected)) (dependables node),
              ),
            ))
      | inr other ↦
          rw (new, other) (inl (missing-add-lt affected node nodes new (ground (arith, p))))
    ]
  ]

  visit-placed :
      (affected queue : List Text) (node : Text)
      → ((x : Text) → elem x (node ∷ queue) ≡ true → placed x ≡ true)
      → (x : Text) → elem x (after affected queue node).queue ≡ true
      → placed x ≡ true
  visit-placed affected queue node p x h = ground (
    arith,
    elem-queue-visit dependables to_update affected queue node x,
    p x,
    elem-cons x node queue,
    inside node x,
  )

  ends :
      (m s : ℕ) (affected queue : List Text)
      → missing affected nodes < m
      → total w queue < s
      → ((x : Text) → elem x queue ≡ true → placed x ≡ true)
      → (fuel : ℕ) × (r : List Text) × (bfs dependables to_update fuel affected queue ≡ some r)
  unfolding bfs
  ends m s affected [] hm hs p = (0, affected, refl)
  ends zero s affected (node ∷ queue) hm hs p = absurd (omega arith)
  ends (suc m) zero affected (node ∷ queue) hm hs p = absurd (omega arith)
  ends (suc m) (suc s) affected (node ∷ queue) hm hs p =
      let a = after affected queue node in
      let p' = visit-placed affected queue node p in
      elim (visit_falls affected queue node
        (p node (rw elem-cons (ground (arith, eq_refl node))))) [
          | inl fewer ↦
              let (fuel, r, e) =
                ends m (suc (total w a.queue)) a.affected a.queue (omega arith) (omega arith) p' in
              (suc fuel, r, e)
          | inr shorter ↦
              let (fuel, r, e) =
                ends (suc m) s a.affected a.queue (omega (arith, shorter.0))
                  (omega (arith, shorter.1)) p' in
              (suc fuel, r, e)
        ]

  -- Where a rank falls along the dependencies between sources, some fuel is enough: with that much
  -- or more the loop ends.
  pub bfs_ends :
      (queue : List Text)
      → ((x : Text) → elem x queue ≡ elem x to_update)
      → (fuel : ℕ) × (r : List Text) × ((more : ℕ)
          → fuel ≤ more
          → bfs dependables to_update more [] queue ≡ some r)
  bfs_ends queue same =
      let (fuel, r, e) =
        ends (suc (missing [] nodes)) (suc (total w queue)) [] queue (omega arith) (omega arith)
          (λ x h. ground (arith, h, same x)) in
      (fuel, r, λ more le. bfs_mono dependables to_update fuel more [] queue le e)
