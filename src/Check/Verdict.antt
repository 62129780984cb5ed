-- ===== src/Check/Verdict.antt =====
-- What `check_one_container` of backend/core/check_actions/check_one_container.py concludes from the
-- digests of the local images and of the registry, and the row that it writes.
use tugtainer.Base.{
  ℕ, ◌≡◌, ◌≢◌, refl, Bool, true, false, ◌&&◌, not, Option, none, some, List, [], ◌∷◌, Text, any,
  all, contains_text, ◌==◌, eq_iff, arith, if◌then◌else◌, Bool-cases, inl, inr, ◌↔◌,
}
use tugtainer.Db.{ContainersModel}
use tugtainer.ActionResult.{Outcome, not_available, available, available_notified}
use tugtainer.Check.Row.{ContainerInsertOrUpdateData, apply}

-- `==` of lists of strings.
unfoldable pub same_texts : List Text → List Text → Bool
same_texts [] [] = true
same_texts [] (y ∷ ys) = false
same_texts (x ∷ xs) [] = false
same_texts (x ∷ xs) (y ∷ ys) = x == y && same_texts xs ys

pub same_texts_iff : (xs ys : List Text) → (same_texts xs ys ≡ true) ↔ (xs ≡ ys)
unfolding same_texts
same_texts_iff [] [] = ((λ _. refl), (λ _. refl))
same_texts_iff [] (y ∷ ys) = ground arith
same_texts_iff (x ∷ xs) [] = ground arith
same_texts_iff (x ∷ xs) (y ∷ ys) = ground (arith, eq_iff x y, same_texts_iff xs ys)

-- `c_db and c_db.remote_digests == remote_digests`
abbrev same_stored : Option (List Text) → List Text → Bool
same_stored none remote = false
same_stored (some stored) remote = same_texts stored remote

abbrev pub is_known : Option ContainersModel → List Text → Bool
is_known none remote = false
is_known (some c_db) remote = same_stored c_db.remote_digests remote

-- `any(all(rd not in ld for ld in local_digests) for rd in remote_digests)`
unfoldable pub is_new : List Text → List Text → Bool
is_new local remote = any (λ rd. all (λ ld. not (contains_text ld rd)) local) remote

-- The two variables `result_lit` and `update_available`.
pub record Conclusion : Type 0 where
  pub result_lit : Option Outcome
  pub update_available : Bool

abbrev stored_available : Option ContainersModel → Bool
stored_available none = false
stored_available (some c_db) = c_db.update_available

abbrev pub is_nil : List Text → Bool
is_nil [] = true
is_nil (x ∷ xs) = false

unfoldable pub conclude : Option ContainersModel → (local remote : List Text) → Conclusion
conclude c_db local remote =
    if is_nil remote
    then record { result_lit = none; update_available = stored_available c_db }
    else if is_new local remote
    then record {
      result_lit = some (if is_known c_db remote then available_notified else available);
      update_available = true;
    }
    else record { result_lit = some not_available; update_available = false }

-- `result_db`; the two moments are those of its two calls of `now`.
unfoldable pub result_db :
    Option ContainersModel
    → (local remote : List Text) → (image_id : Text) → (now changed : ℕ)
    → ContainerInsertOrUpdateData
unfolding conclude
result_db c_db local remote image_id now changed = record {
  check_enabled = none;
  update_enabled = none;
  update_available = some (conclude c_db local remote).update_available;
  checked_at = some now;
  updated_at = none;
  remote_digests_changed_at =
      if not (is_nil remote) && not (is_known c_db remote) then some (some changed) else none;
  delay_update_for = none;
  local_digests = some local;
  remote_digests = some remote;
  image_id = some image_id;
}

-- The row after a check.
abbrev pub checked :
    ContainersModel
    → (local remote : List Text) → (image_id : Text) → (now changed : ℕ) → ContainersModel
checked row local remote image_id now changed =
    apply (result_db (some row) local remote image_id now changed) row

-- A check that finds a digest notifies of it at most once: checked again with the same digest, the
-- container is reported as up to date or as already notified, and the moment of the last change of the
-- digests stays.
pub checked_again :
    (row : ContainersModel) (l₁ l₂ remote : List Text) (i j : Text)
    (now changed later changed_later : ℕ)
    → (conclude (some (checked row l₁ remote i now changed)) l₂ remote).result_lit ≢ some available
      × ((checked
            (checked row l₁ remote i now changed)
            l₂
            remote
            j
            later
            changed_later).remote_digests_changed_at
          ≡ (checked row l₁ remote i now changed).remote_digests_changed_at)
unfolding conclude result_db apply
checked_again row l₁ l₂ [] i j now changed later changed_later = (λ h. cc, refl)
checked_again row l₁ l₂ (d ∷ ds) i j now changed later changed_later =
    let known = (same_texts_iff (d ∷ ds) (d ∷ ds)).1 refl in
    rw known (elim (Bool-cases (is_new l₂ (d ∷ ds))) [
      | inl new ↦ (λ h. ground (arith, h, new), refl)
      | inr old ↦ (λ h. ground (arith, h, old), refl)
    ])

-- A check that finds no digest concludes nothing and keeps the flag of the row, but it forgets the
-- digests: whichever were stored before, a next check that finds a new one reports it as available, not
-- as notified, and sets the moment of the last change of the digests to its own.
pub checked_without :
    (row : ContainersModel) (l₁ l₂ : List Text) (d : Text) (ds : List Text) (i j : Text)
    (now changed later changed_later : ℕ)
    → is_new l₂ (d ∷ ds) ≡ true
    → ((conclude (some row) l₁ []).result_lit ≡ none)
      × ((checked row l₁ [] i now changed).update_available ≡ row.update_available)
      × ((conclude (some (checked row l₁ [] i now changed)) l₂ (d ∷ ds)).result_lit
          ≡ some available)
      × ((checked
            (checked row l₁ [] i now changed)
            l₂
            (d ∷ ds)
            j
            later
            changed_later).remote_digests_changed_at
          ≡ some changed_later)
unfolding conclude result_db apply same_texts
checked_without row l₁ l₂ d ds i j now changed later changed_later n = (refl, refl, rw n refl, refl)
