-- ===== src/Plan/Selected.antt =====
-- Which names the plan takes for an update.
use mathlib.Core.List.{Memᴰ}
use mathlib.Core.List.Memᴰ
use tugtainer.Base.{
  ℕ, ◌+◌, ◌*◌, ◌≤◌, ◌<◌, ◌≡◌, refl, ◌↔◌, inl, inr, Bool, true, not, ◌&&◌, ◌||◌, Option, none, some,
  List, [], ◌∷◌, Text, Dict, lookup, or_else, select, elem, add, elem-add, ◌==◌, eq_iff, arith,
  Bool-cases, some_inj,
}
use tugtainer.Docker.{Container}
use tugtainer.Db.{ContainersModel, HostsModel, rows_of, rows_by_name}
use tugtainer.Plan.Select.{
  PlanSettings, is_eligible, is_due, is_early, holds_for, collect, select_to_update,
}
use tugtainer.Plan.Build.{names}

-- The containers that the plan looks at, the row of the host with a given name, and the names to
-- update before those without a container are dropped.
abbrev pub eligible : PlanSettings → List Container → List Container
eligible settings containers = select (is_eligible settings) containers

abbrev pub row_of : HostsModel → List ContainersModel → Text → Option ContainersModel
row_of host rows x = lookup x (rows_by_name (rows_of host.id rows) [])

abbrev pub wanted :
    PlanSettings
    → (now : ℕ) → HostsModel
    → List ContainersModel
    → (containers manual_for : List Container) → List Text
wanted settings now host rows containers manual_for =
    select_to_update settings now (rows_by_name (rows_of host.id rows) [])
      (eligible settings containers) (eligible settings manual_for)

-- Some eligible container of the list has the name `x`.
pub record Eligible (settings : PlanSettings) (containers : List Container) (x : Text)
    : Type 0 where
  pub container : Container
  pub listed : Memᴰ container containers
  pub named : container.name ≡ x
  pub fit : is_eligible settings container ≡ true

Eligible-cons :
    (settings : PlanSettings) (c : Container) (cs : List Container) (x : Text)
    → Eligible settings cs x
    → Eligible settings (c ∷ cs) x
Eligible-cons settings c cs x e = record {
  container = e.container;
  listed = Memᴰ.tail e.listed;
  named = e.named;
  fit = e.fit;
}

pub elem-names-select :
    (settings : PlanSettings) (cs : List Container) (x : Text)
    → elem x (names (select (is_eligible settings) cs)) ≡ true
    → Eligible settings cs x
unfolding elem select
elem-names-select settings [] x h = absurd (ground (arith, h))
elem-names-select settings (c ∷ cs) x h = elim (Bool-cases (is_eligible settings c)) [
  | inl good ↦ elim (Bool-cases (c.name == x)) [
    | inl same ↦ record {
      container = c;
      listed = Memᴰ.head refl;
      named = (eq_iff c.name x).0 same;
      fit = good;
    }
    | inr other ↦
        Eligible-cons settings c cs x
          (elem-names-select settings cs x (ground (arith, h, good, other)))
  ]
  | inr bad ↦
      Eligible-cons settings c cs x (elem-names-select settings cs x (ground (arith, h, bad)))
]

elem-listed :
    (settings : PlanSettings) (c : Container) (cs : List Container) (x : Text)
    → Memᴰ c cs
    → c.name ≡ x
    → is_eligible settings c ≡ true
    → elem x (names (select (is_eligible settings) cs)) ≡ true
unfolding elem select
elem-listed settings c [] x m n g = absurd (Memᴰ.not-nil m)
elem-listed settings c (d ∷ cs) x m n g = elim (Memᴰ.cases_cons m) [
  | inl e ↦ rw (← e, g) (ground (arith, n, eq_iff c.name x))
  | inr m' ↦ ground (arith, elem-listed settings c cs x m' n g)
]

pub Eligible-elem :
    (settings : PlanSettings) (cs : List Container) (x : Text)
    → Eligible settings cs x
    → elem x (names (select (is_eligible settings) cs)) ≡ true
Eligible-elem settings cs x e = elem-listed settings e.container cs x e.listed e.named e.fit

pub elem-collect :
    (test : ContainersModel → Bool) (rows : Dict ContainersModel) (cs : List Container)
    (acc : List Text) (x : Text)
    → elem x (collect test rows cs acc)
      ≡ (elem x acc || elem x (names cs) && holds_for test (lookup x rows))
unfolding collect elem
elem-collect test rows [] acc x = ground arith
elem-collect test rows (c ∷ cs) acc x = elim (Bool-cases (c.name == x)) [
  | inl same ↦ ground (
    arith,
    elem-collect test rows cs acc x,
    elem-collect test rows cs (add c.name acc) x,
    elem-add c.name x acc,
    (eq_iff c.name x).0 same,
    same,
  )
  | inr other ↦ ground (
    arith,
    elem-collect test rows cs acc x,
    elem-collect test rows cs (add c.name acc) x,
    elem-add c.name x acc,
    other,
  )
]

-- The database says that an update of the row is there and wanted, and the delay since the last
-- change of the remote digests has passed. The row's own delay goes before the global one.
pub record Due (settings : PlanSettings) (now : ℕ) (row : ContainersModel) : Type 0 where
  pub available : row.update_available ≡ true
  pub enabled : row.update_enabled ≡ true
  pub waited :
      (changed_at : ℕ)
      → row.remote_digests_changed_at ≡ some changed_at
      → 0 < or_else row.delay_update_for settings.delay_update_for
      → changed_at + or_else row.delay_update_for settings.delay_update_for * 1000000 ≤ now

not-early :
    (now delay : ℕ) (changed : Option ℕ)
    → (not (is_early now delay changed) ≡ true) ↔ (
        (changed_at : ℕ)
        → changed ≡ some changed_at
        → 0 < delay
        → changed_at + delay * 1000000 ≤ now)
not-early now delay none = (λ h t e p. absurd (ground (arith, e)), λ h. refl)
not-early now delay (some t) =
    (λ h u e p. ground (arith, e, p, h), λ h. ground (arith, λ (p : 0 < delay). h t refl p))

pub is_due_iff :
    (settings : PlanSettings) (now : ℕ) (row : ContainersModel)
    → (is_due settings now row ≡ true) ↔ Due settings now row
unfolding is_due
is_due_iff settings now row =
    let early =
      not-early now (or_else row.delay_update_for settings.delay_update_for)
        row.remote_digests_changed_at in
    (
      λ h. record {
        available = ground (arith, h);
        enabled = ground (arith, h);
        waited = early.0 (ground (arith, h));
      },
      λ d. ground (arith, d.available, d.enabled, early.1 d.waited),
    )

pub holds_for_iff :
    (test : ContainersModel → Bool) (o : Option ContainersModel)
    → (holds_for test o ≡ true) ↔ ((row : ContainersModel) × (o ≡ some row) × (test row ≡ true))
holds_for_iff test none = (λ h. absurd (ground (arith, h)), λ h. absurd (ground (arith, h.1)))
holds_for_iff test (some row) = (λ h. (row, refl, h), λ h. rw (some_inj h.1) h.2)
