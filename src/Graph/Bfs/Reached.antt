-- ===== src/Graph/Bfs/Reached.antt =====
-- What a finished breadth-first loop has collected.
use tugtainer.Base.{
  ℕ, zero, suc, ◌≡◌, refl, ◌⊎◌, inl, inr, ◌↔◌, Bool, true, false, not, ◌&&◌, ◌||◌, some, List, [],
  ◌∷◌, Text, elem, select, elem-append, elem-select, elem-add, elem-cons, eq_iff, eq_refl, ◌==◌,
  arith, Bool-cases, or-eq_true, some_inj,
}
use mathlib.Core.Path.{subst}
use tugtainer.Graph.Bfs.{Search, enter, visit, bfs, Reach, source, follow}

module _ (dependables : Text → List Text) (to_update : List Text) where
  abbrev after : List Text → List Text → Text → Search
  after = visit dependables to_update

  pub elem-affected-visit :
      (affected queue : List Text) (node x : Text)
      → elem x (after affected queue node).affected
        ≡ (elem x affected || not (elem node affected) && not (elem node to_update) && node == x)
  unfolding visit
  elem-affected-visit affected queue node x = ground (arith, elem-add node x affected)

  pub elem-queue-visit :
      (affected queue : List Text) (node x : Text)
      → elem x (after affected queue node).queue ≡ (
          elem x queue
          || not (elem node affected)
            && not (elem x (after affected queue node).affected)
            && elem x (dependables node))
  unfolding visit
  elem-queue-visit affected queue node x = ground (
    arith,
    elem-append x queue (
        select (λ dep. not (elem dep (enter dependables to_update affected node)))
          (dependables node)),
    elem-select (λ dep. not (elem dep (enter dependables to_update affected node))) x
        (dependables node),
  )

  -- Half of the invariant: what is collected or waits is reached.
  record Sound (affected queue : List Text) : Type 0 where
    waits : (x : Text) → elem x queue ≡ true → Reach dependables to_update x
    found : (x : Text) → elem x affected ≡ true → Reach dependables to_update x
    apart : (x : Text) → elem x affected ≡ true → elem x to_update ≡ false

  queue-visit_cases :
      (affected queue : List Text) (node x : Text)
      → elem x (after affected queue node).queue ≡ true
      → (elem x queue ≡ true) ⊎ (elem x (dependables node) ≡ true)
  queue-visit_cases affected queue node x h =
      ground (arith, h, elem-queue-visit affected queue node x)

  affected-visit_cases :
      (affected queue : List Text) (node x : Text)
      → elem x (after affected queue node).affected ≡ true
      → (elem x affected ≡ true)
        ⊎ ((node ≡ x) × (elem node affected ≡ false) × (elem node to_update ≡ false))
  affected-visit_cases affected queue node x h =
      ground (arith, h, elem-affected-visit affected queue node x, eq_iff node x)

  visit-Sound :
      (affected queue : List Text) (node : Text)
      → Sound affected (node ∷ queue)
      → Sound (after affected queue node).affected (after affected queue node).queue
  visit-Sound affected queue node s =
      let head : Reach dependables to_update node =
        s.waits node (rw elem-cons (ground (arith, eq_refl node))) in
      record {
        waits = λ x h. elim (queue-visit_cases affected queue node x h) [
          | inl old ↦ s.waits x (rw elem-cons (ground (arith, old)))
          | inr new ↦ follow head new
        ];
        found = λ x h. elim (affected-visit_cases affected queue node x h) [
          | inl old ↦ s.found x old
          | inr new ↦ rw (← new.0) head
        ];
        apart = λ x h. elim (affected-visit_cases affected queue node x h) [
          | inl old ↦ s.apart x old
          | inr new ↦ rw (← new.0) new.2
        ];
      }

  bfs-Sound :
      (fuel : ℕ) (affected queue : List Text) {r : List Text}
      → Sound affected queue
      → bfs dependables to_update fuel affected queue ≡ some r
      → Sound r []
  unfolding bfs
  bfs-Sound fuel affected [] s h = subst (λ z. Sound z []) (some_inj h) s
  bfs-Sound zero affected (node ∷ queue) s h = cc
  bfs-Sound (suc fuel) affected (node ∷ queue) s h =
      bfs-Sound fuel _ _ (visit-Sound affected queue node s) h

  -- The other half: the dependables of each node passed are collected, wait, or are sources.
  abbrev known : List Text → List Text → Text → Bool
  known affected queue x = elem x affected || elem x to_update || elem x queue

  record Closed (affected queue : List Text) : Type 0 where
    collected :
        (x y : Text)
        → elem x affected ≡ true
        → elem y (dependables x) ≡ true
        → known affected queue y ≡ true
    sources :
        (x y : Text)
        → elem x to_update ≡ true
        → elem x queue ≡ false
        → elem y (dependables x) ≡ true
        → known affected queue y ≡ true

  known-visit :
      (affected queue : List Text) (node y : Text)
      → known affected (node ∷ queue) y ≡ true
      → known (after affected queue node).affected (after affected queue node).queue y ≡ true
  known-visit affected queue node y h = ground (
    arith,
    elem-affected-visit affected queue node y,
    elem-queue-visit affected queue node y,
    elem-cons y node queue,
    eq_iff node y,
  )

  -- A node that is passed for the first time has all its dependables known afterwards.
  known-dependables :
      (affected queue : List Text) (node y : Text)
      → elem node affected ≡ false
      → elem y (dependables node) ≡ true
      → known (after affected queue node).affected (after affected queue node).queue y ≡ true
  known-dependables affected queue node y new d =
      ground (arith, elem-queue-visit affected queue node y)

  visit-Closed :
      (affected queue : List Text) (node : Text)
      → Closed affected (node ∷ queue)
      → Closed (after affected queue node).affected (after affected queue node).queue
  visit-Closed affected queue node c = record {
    collected = λ x y h d. elim (affected-visit_cases affected queue node x h) [
      | inl old ↦ known-visit affected queue node y (c.collected x y old d)
      | inr new ↦ known-dependables affected queue node y new.1 (rw new.0 d)
    ];
    sources = λ x y t waits d. elim (Bool-cases (node == x)) [
      | inl same ↦
          let e : node ≡ x = (eq_iff node x).0 same in
          elim (Bool-cases (elem node affected)) [
            | inl old ↦ known-visit affected queue node y (c.collected node y old (rw e d))
            | inr new ↦ known-dependables affected queue node y new (rw e d)
          ]
      | inr other ↦ known-visit affected queue node y (
          c.sources x y t
            (ground (arith, elem-cons x node queue, elem-queue-visit affected queue node x)) d)
    ];
  }

  bfs-Closed :
      (fuel : ℕ) (affected queue : List Text) {r : List Text}
      → Closed affected queue
      → bfs dependables to_update fuel affected queue ≡ some r
      → Closed r []
  unfolding bfs
  bfs-Closed fuel affected [] c h = subst (λ z. Closed z []) (some_inj h) c
  bfs-Closed zero affected (node ∷ queue) c h = cc
  bfs-Closed (suc fuel) affected (node ∷ queue) c h =
      bfs-Closed fuel _ _ (visit-Closed affected queue node c) h

  reached-known :
      {r : List Text}
      → Closed r []
      → {x : Text} → Reach dependables to_update x
      → (elem x r || elem x to_update) ≡ true
  unfolding elem
  reached-known {r} c (source t) = ground (arith, t)
  reached-known {r} c (follow {x = x} {y = y} p d) =
      elim (or-eq_true (elem x r) (elem x to_update) (reached-known c p)) [
        | inl old ↦ ground (arith, c.collected x y old d)
        | inr t ↦ ground (arith, c.sources x y t refl d)
      ]

  -- A node is collected by a finished loop exactly when it is no source and depends on a source,
  -- directly or through others.
  pub elem-bfs :
      (fuel : ℕ) (queue : List Text)
      → ((x : Text) → elem x queue ≡ elem x to_update)
      → (r : List Text) → bfs dependables to_update fuel [] queue ≡ some r
      → (x : Text)
      → (elem x r ≡ true) ↔ ((elem x to_update ≡ false) × Reach dependables to_update x)
  unfolding elem
  elem-bfs fuel queue same r h x =
      let s : Sound r [] =
        bfs-Sound fuel [] queue
          (record {
            waits = λ x h. source (ground (arith, h, same x));
            found = λ x h. cc;
            apart = λ x h. cc;
          })
          h in
      let c : Closed r [] =
        bfs-Closed fuel [] queue
          (record {
            collected = λ x y h. cc;
            sources = λ x y t u. absurd (ground (arith, t, u, same x));
          })
          h in
      ((λ e. (s.apart x e, s.found x e)), λ p. ground (arith, reached-known c p.1, p.0))
