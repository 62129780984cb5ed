-- ===== src/Update/Records.antt =====
-- `update_containers_data_after_execution` of backend/core/update_actions/update_actions_util.py.
use tugtainer.Base.{
  ℕ, ◌≡◌, refl, sym, ◌∙◌, ap, Bool, true, false, ◌&&◌, not, Option, none, some, List, [], ◌∷◌, Text,
  select, any, arith, if◌then◌else◌, Bool-cases, inl, inr,
}
use tugtainer.Db.{ContainersModel}
use tugtainer.ActionResult.{Outcome, updated, ContainerActionResult, UpdatePlanResult}
use tugtainer.Check.Row.{find_row, is_row_of, is_row_of-same, apart, same_place}

abbrev pub has_result : ContainerActionResult → Bool
has_result item = elim item.result [ none ↦ false | some o ↦ true ]

abbrev pub is_updated : Option Outcome → Bool
is_updated (some updated) = true
is_updated _ = false

-- The assignments to the row of an updated container.
abbrev pub renewed : ContainerActionResult → (now : ℕ) → ContainersModel → ContainersModel
renewed item now row = record row {
  update_available = false;
  updated_at = some now;
  local_digests = some item.remote_digests;
}

abbrev pub settled : ContainerActionResult → (now : ℕ) → ContainersModel → ContainersModel
settled item now row = if is_updated item.result then renewed item now row else row

-- One turn of the loop over the results: the row that the map has for the name is changed in place. A host has
-- one row for a name, as `insert_or_update_container` keeps it; of two rows the map would have the last.
unfoldable pub record_item :
    ℕ → ℕ → ContainerActionResult → List ContainersModel → List ContainersModel
record_item host_id now item [] = []
record_item host_id now item (row ∷ rows) =
    if is_row_of host_id item.container.name row
    then settled item now row ∷ rows
    else row ∷ record_item host_id now item rows

unfoldable pub record_items :
    ℕ → ℕ → List ContainerActionResult → List ContainersModel → List ContainersModel
unfolding record_item
record_items host_id now [] rows = rows
record_items host_id now (item ∷ items) rows =
    record_items host_id now items (record_item host_id now item rows)

unfoldable pub update_containers_data_after_execution :
    UpdatePlanResult → (now : ℕ) → List ContainersModel → List ContainersModel
unfolding record_items
update_containers_data_after_execution result now rows =
    record_items result.host_id now (select has_result result.items) rows

-- What the row of a place becomes by one result.
abbrev pub row_after :
    ℕ → ℕ → ContainerActionResult → ℕ → Text → Option ContainersModel → Option ContainersModel
row_after h now item g m none = none
row_after h now item g m (some row) =
    some (if same_place h item.container.name g m then settled item now row else row)

settled-place :
    (b : Bool) (now : ℕ) (item : ContainerActionResult) (row : ContainersModel) (g : ℕ) (m : Text)
    → is_row_of g m (if b then renewed item now row else row) ≡ is_row_of g m row
unfolding is_row_of
settled-place true now item row g m = refl
settled-place false now item row g m = refl

some_if :
    {A : Type 0} (b : Bool) (x y : A) → (if b then some x else some y) ≡ some (if b then x else y)
some_if true x y = refl
some_if false x y = refl

find_row-record_item :
    (h now : ℕ) (item : ContainerActionResult) (rows : List ContainersModel) (g : ℕ) (m : Text)
    → find_row g m (record_item h now item rows) ≡ row_after h now item g m (find_row g m rows)
unfolding find_row record_item
find_row-record_item h now item [] g m = refl
find_row-record_item h now item (row ∷ rows) g m =
    elim (Bool-cases (is_row_of h item.container.name row)) [
      | inl here ↦ elim (Bool-cases (is_row_of g m row)) [
        | inl found ↦
            let same = sym (is_row_of-same h g item.container.name m row here) ∙ found in
            rw (here, settled-place (is_updated item.result) now item row g m, found, same) refl
        | inr missed ↦
            let other = sym (is_row_of-same h g item.container.name m row here) ∙ missed in
            rw (here, settled-place (is_updated item.result) now item row g m, missed)
              (unchanged other (find_row g m rows))
      ]
      | inr there ↦ elim (Bool-cases (is_row_of g m row)) [
        | inl found ↦ rw (there, found, apart h g item.container.name m row there found) refl
        | inr missed ↦ rw (there, missed) (find_row-record_item h now item rows g m)
      ]
    ]
  where
    unchanged :
        same_place h item.container.name g m ≡ false
        → (o : Option ContainersModel) → o ≡ row_after h now item g m o
    unchanged e none = refl
    unchanged e (some r) = rw e refl

-- What the row of a place becomes by all results in turn.
abbrev rows_after :
    ℕ → ℕ → List ContainerActionResult → ℕ → Text → Option ContainersModel → Option ContainersModel
rows_after h now [] g m o = o
rows_after h now (item ∷ items) g m o = rows_after h now items g m (row_after h now item g m o)

find_row-record_items :
    (h now : ℕ) (items : List ContainerActionResult) (rows : List ContainersModel) (g : ℕ)
    (m : Text)
    → find_row g m (record_items h now items rows) ≡ rows_after h now items g m (find_row g m rows)
unfolding record_items
find_row-record_items h now [] rows g m = refl
find_row-record_items h now (item ∷ items) rows g m =
    find_row-record_items h now items (record_item h now item rows) g m
    ∙ ap (rows_after h now items g m) (find_row-record_item h now item rows g m)

-- Some result says that the container of the place was updated.
unfoldable pub touched : ℕ → List ContainerActionResult → ℕ → Text → Bool
touched h items g m =
    any (λ item. same_place h item.container.name g m && is_updated item.result) items

pub record Settled (h : ℕ) (items : List ContainerActionResult) (g : ℕ) (m : Text)
    (old : ContainersModel) (new : Option ContainersModel) : Type 0 where
  pub row : ContainersModel
  pub found : new ≡ some row
  pub flag : row.update_available ≡ (old.update_available && not (touched h items g m))
  pub kept : touched h items g m ≡ false → row ≡ old

settled_flag :
    (b u : Bool) (now : ℕ) (item : ContainerActionResult) (row : ContainersModel)
    → is_updated item.result ≡ u
    → (if b then settled item now row else row).update_available
      ≡ (row.update_available && not (b && u))
settled_flag false u now item row e = ground arith
settled_flag true true now item row e = rw e (ground arith)
settled_flag true false now item row e = rw e (ground arith)

settled_kept :
    (b u : Bool) (now : ℕ) (item : ContainerActionResult) (row : ContainersModel)
    → is_updated item.result ≡ u
    → (b && u) ≡ false
    → (if b then settled item now row else row) ≡ row
settled_kept false u now item row e h = refl
settled_kept true true now item row e h = absurd (ground (arith, h))
settled_kept true false now item row e h = rw e refl

no_result :
    (item : ContainerActionResult) → has_result item ≡ false → is_updated item.result ≡ false
no_result item h = ground (arith, h)

rows_after-Settled :
    (h now : ℕ) (items : List ContainerActionResult) (g : ℕ) (m : Text) (row : ContainersModel)
    → Settled h items g m row (rows_after h now (select has_result items) g m (some row))
unfolding touched any select
rows_after-Settled h now [] g m row = record {
  row = row;
  found = refl;
  flag = ground arith;
  kept = λ t. refl;
}
rows_after-Settled h now (item ∷ items) g m row = elim (Bool-cases (has_result item)) [
  | inl told ↦
      let b = same_place h item.container.name g m in
      let u = is_updated item.result in
      let next : ContainersModel = if b then settled item now row else row in
      let rest = rows_after-Settled h now items g m next in
      record {
        row = rest.row;
        found = rw told rest.found;
        flag = ground (arith, rest.flag, settled_flag b u now item row refl);
        kept = λ t.
            rest.kept (ground (arith, t)) ∙ settled_kept b u now item row refl (ground (arith, t));
      }
  | inr silent ↦
      let rest = rows_after-Settled h now items g m row in
      record {
        row = rest.row;
        found = rw silent rest.found;
        flag = ground (arith, rest.flag, no_result item silent);
        kept = λ t. rest.kept (ground (arith, t));
      }
]

-- After an execution the row of a container that was updated no longer has an update; a row of which no
-- result says so stays as it was, and none is lost.
pub find_row-update_containers_data_after_execution :
    (result : UpdatePlanResult) (now : ℕ) (rows : List ContainersModel) (g : ℕ) (m : Text)
    (row : ContainersModel)
    → find_row g m rows ≡ some row
    → Settled result.host_id result.items g m row
        (find_row g m (update_containers_data_after_execution result now rows))
unfolding update_containers_data_after_execution
find_row-update_containers_data_after_execution result now rows g m row e =
    rw (find_row-record_items result.host_id now (select has_result result.items) rows g m, e)
      (rows_after-Settled result.host_id now result.items g m row)
