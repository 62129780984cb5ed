-- ===== src/Graph/Bfs.antt =====
-- The breadth-first loop over `dependables_map` in backend/core/update_actions/update_actions_plan.py.
pub mod Reached
pub mod Ends
pub mod Cycle
use tugtainer.Base.{
  ℕ, zero, suc, ◌≡◌, Bool, true, false, not, Option, none, some, List, [], ◌∷◌, ◌++◌, Text, elem,
  add, select, if◌then◌else◌,
}

-- The variables of the loop: `affected` and `queue`.
pub record Search : Type 0 where
  pub affected : List Text
  pub queue : List Text

-- `dependables node` is the set that the loop iterates over, in the order in which it does.
module _ (dependables : Text → List Text) (to_update : List Text) where
  unfoldable pub enter : List Text → Text → List Text
  enter affected node = if elem node to_update then affected else add node affected

  -- One round, after `node` left the head of the queue.
  unfoldable pub visit : List Text → List Text → Text → Search
  unfolding enter
  visit affected queue node =
      if elem node affected then record { affected = affected; queue = queue } else record {
        affected = enter affected node;
        queue = queue ++ select (λ dep. not (elem dep (enter affected node))) (dependables node);
      }

  -- The loop; `none` means that the fuel ran out.
  unfoldable pub bfs : ℕ → List Text → List Text → Option (List Text)
  bfs fuel affected [] = some affected
  bfs zero affected (node ∷ queue) = none
  bfs (suc fuel) affected (node ∷ queue) =
      let s = visit affected queue node in bfs fuel s.affected s.queue

  -- What the loop is for: the nodes that depend, directly or not, on a node of `to_update`.
  pub data Reach : Text → Type 0 where
    source : {x : Text} → elem x to_update ≡ true → Reach x
    follow : {x y : Text} → Reach x → elem y (dependables x) ≡ true → Reach y
