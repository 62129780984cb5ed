-- ===== src/Graph/Bfs/Cycle.antt =====
-- A breadth-first loop that never ends.
use tugtainer.Base.{
  ℕ, zero, suc, ◌≡◌, refl, inl, inr, Bool, true, false, none, List, [], ◌∷◌, Text, elem, elem-cons,
  eq_iff, ◌==◌, arith, Bool-cases,
}
use tugtainer.Graph.Bfs.{visit, bfs}
use tugtainer.Graph.Bfs.Reached.{elem-affected-visit, elem-queue-visit}

module _ (dependables : Text → List Text) (to_update : List Text) (cycle : Text → Bool)
    (inside : (x : Text) → cycle x ≡ true → elem x to_update ≡ true)
    (next : (x : Text)
      → cycle x ≡ true
      → (y : Text) × (cycle y ≡ true) × (elem y (dependables x) ≡ true)) where
  -- Some node of the cycle waits, and none of it is collected.
  record Turning (affected queue : List Text) : Type 0 where
    member : Text
    on : cycle member ≡ true
    waits : elem member queue ≡ true
    outside : (x : Text) → cycle x ≡ true → elem x affected ≡ false

  visit-Turning :
      (affected queue : List Text) (node : Text)
      → Turning affected (node ∷ queue)
      → Turning
          (visit dependables to_update affected queue node).affected
          (visit dependables to_update affected queue node).queue
  visit-Turning affected queue node t =
      let outside' : (x : Text)
          → cycle x ≡ true
          → elem x (visit dependables to_update affected queue node).affected ≡ false =
        λ x c. ground (
          arith,
          elem-affected-visit dependables to_update affected queue node x,
          t.outside x c,
          inside x c,
          eq_iff node x,
        ) in
      elim (Bool-cases (node == t.member)) [
        | inl same ↦
            let e : node ≡ t.member = (eq_iff node t.member).0 same in
            let step = next t.member t.on in
            record {
              member = step.0;
              on = step.1;
              waits = ground (
                arith,
                e,
                elem-queue-visit dependables to_update affected queue node step.0,
                step.2,
                outside' step.0 step.1,
                t.outside t.member t.on,
              );
              outside = outside';
            }
        | inr other ↦ record {
          member = t.member;
          on = t.on;
          waits = ground (
            arith,
            t.waits,
            elem-cons t.member node queue,
            elem-queue-visit dependables to_update affected queue node t.member,
          );
          outside = outside';
        }
      ]

  Turning-bfs :
      (fuel : ℕ) (affected queue : List Text)
      → Turning affected queue
      → bfs dependables to_update fuel affected queue ≡ none
  unfolding bfs elem
  Turning-bfs fuel affected [] t = absurd (ground (arith, t.waits))
  Turning-bfs zero affected (node ∷ queue) t = refl
  Turning-bfs (suc fuel) affected (node ∷ queue) t =
      Turning-bfs fuel _ _ (visit-Turning affected queue node t)

  -- Where the sources hold a set of nodes of which each has a dependable in the set, no amount of
  -- fuel ends the loop.
  pub bfs-cycle :
      (queue : List Text)
      → ((x : Text) → elem x queue ≡ elem x to_update)
      → (x : Text) → cycle x ≡ true
      → (fuel : ℕ) → bfs dependables to_update fuel [] queue ≡ none
  unfolding elem
  bfs-cycle queue same x c fuel = Turning-bfs fuel [] queue (record {
    member = x;
    on = c;
    waits = ground (arith, inside x c, same x);
    outside = λ y d. refl;
  })
