-- ===== src/Plan/Select.antt =====
-- Which containers an update takes: the first half of `build_update_plan` in
-- backend/core/update_actions/update_actions_plan.py.
use tugtainer.Base.{
  ℕ, ◌+◌, ◌*◌, Bool, false, not, ◌&&◌, ◌||◌, Option, none, some, List, [], ◌∷◌, Text, Dict, lookup,
  or_else, ltb, add, if◌then◌else◌,
}
use tugtainer.Docker.{Container, is_running_container}
use tugtainer.Docker.Labels.{is_protected_container}
use tugtainer.Db.{ContainersModel}

-- The settings that the plan reads; the delay is in seconds.
pub record PlanSettings : Type 0 where
  pub update_only_running : Bool
  pub delay_update_for : ℕ

-- Potentially updatable or affected.
unfoldable pub is_eligible : PlanSettings → Container → Bool
is_eligible settings c =
    not (is_protected_container c) && (is_running_container c || not settings.update_only_running)

-- `elapsed < effective_delay`, with `elapsed = (now - changed_at).total_seconds()`.
abbrev pub is_early : ℕ → ℕ → Option ℕ → Bool
is_early now delay none = false
is_early now delay (some changed_at) = ltb 0 delay && ltb now (changed_at + delay * 1000000)

-- The tests of the scheduled loop.
unfoldable pub is_due : PlanSettings → ℕ → ContainersModel → Bool
is_due settings now row =
    row.update_available
    && row.update_enabled
    && not (
        is_early now (or_else row.delay_update_for settings.delay_update_for)
          row.remote_digests_changed_at)

abbrev pub holds_for : (ContainersModel → Bool) → Option ContainersModel → Bool
holds_for test none = false
holds_for test (some row) = test row

-- `for c in containers: if test: to_update.add(c.name)`
unfoldable pub collect :
    (ContainersModel → Bool) → Dict ContainersModel → List Container → List Text → List Text
collect test rows [] to_update = to_update
collect test rows (c ∷ cs) to_update =
    collect test rows cs
      (if holds_for test (lookup c.name rows) then add c.name to_update else to_update)

unfoldable pub select_to_update :
    PlanSettings → ℕ → Dict ContainersModel → (containers manual_for : List Container) → List Text
unfolding is_due collect
select_to_update settings now rows containers [] = collect (is_due settings now) rows containers []
select_to_update settings now rows containers (c ∷ cs) =
    collect (λ row. row.update_available) rows (c ∷ cs) []
