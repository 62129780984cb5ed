-- ===== src/Check/Queue.antt =====
-- Which containers a check of a host looks at and in which order: `filter_containers_by_check_enabled` and
-- `sort_containers_by_checked_at` of backend/core/check_actions/check_actions_util.py.
use tugtainer.Base.{
  ℕ, ◌≡◌, refl, sym, ◌∙◌, ◌&&◌, Option-cases, Bool, true, false, Option, none, some, List, [], ◌∷◌,
  Dict, lookup, select, leb, eqb, if◌then◌else◌, arith, Bool-cases, inl, inr,
}
use tugtainer.Docker.{Container}
use tugtainer.Db.{ContainersModel}

abbrev is_check_enabled : Option ContainersModel → Bool
is_check_enabled none = false
is_check_enabled (some c_db) = c_db.check_enabled

unfoldable pub filter_containers_by_check_enabled :
    List Container → Dict ContainersModel → List Container
filter_containers_by_check_enabled containers containers_db_map =
    select (λ c. is_check_enabled (lookup c.name containers_db_map)) containers

abbrev moment_of : Option ContainersModel → Option ℕ
moment_of none = none
moment_of (some c_db) = c_db.checked_at

-- The key of the sort: `none` stands for (False, datetime.min), which is less than any moment.
unfoldable pub checked_at_of : Dict ContainersModel → Container → Option ℕ
checked_at_of containers_db_map c = moment_of (lookup c.name containers_db_map)

abbrev pub is_up_to : Option ℕ → Option ℕ → Bool
is_up_to none k = true
is_up_to (some t) none = false
is_up_to (some t) (some u) = leb t u

abbrev pub is_same_key : Option ℕ → Option ℕ → Bool
is_same_key none none = true
is_same_key none (some u) = false
is_same_key (some t) none = false
is_same_key (some t) (some u) = eqb t u

module _ (key : Container → Option ℕ) where
  unfoldable pub insert_by : Container → List Container → List Container
  insert_by c [] = c ∷ []
  insert_by c (d ∷ ds) =
      let rest = insert_by c ds in if is_up_to (key c) (key d) then c ∷ d ∷ ds else d ∷ rest

  -- Python's `sorted`, which keeps the order of equal keys.
  unfoldable pub sorted : List Container → List Container
  unfolding insert_by
  sorted [] = []
  sorted (c ∷ cs) = insert_by c (sorted cs)

  -- Each container stands before those of a greater key.
  abbrev pub IsSorted : List Container → Type 0
  IsSorted [] = Unit
  IsSorted (c ∷ []) = Unit
  IsSorted (c ∷ d ∷ ds) = (is_up_to (key c) (key d) ≡ true) × IsSorted (d ∷ ds)

  up_to_total : (j k : Option ℕ) → is_up_to j k ≡ false → is_up_to k j ≡ true
  up_to_total none k h = absurd (ground (arith, h))
  up_to_total (some t) none h = refl
  up_to_total (some t) (some u) h = ground (arith, h)

  same_up_to :
      (i j k : Option ℕ) → is_same_key i k ≡ true → is_same_key j k ≡ true → is_up_to i j ≡ true
  same_up_to none j k h g = refl
  same_up_to (some t) none none h g = absurd (ground (arith, h))
  same_up_to (some t) none (some v) h g = absurd (ground (arith, g))
  same_up_to (some t) (some u) none h g = absurd (ground (arith, h))
  same_up_to (some t) (some u) (some v) h g = ground (arith, h, g)

  insert_behind :
      (c d : Container) (ds : List Container)
      → IsSorted (d ∷ ds)
      → is_up_to (key d) (key c) ≡ true
      → IsSorted (d ∷ insert_by c ds)
  unfolding insert_by
  insert_behind c d [] s h = (h, tt)
  insert_behind c d (e ∷ ds) s h = elim (Bool-cases (is_up_to (key c) (key e))) [
    | inl low ↦ rw low (h, (low, s.1))
    | inr high ↦ rw high (s.0, insert_behind c e ds s.1 (up_to_total (key c) (key e) high))
  ]

  insert_by-IsSorted :
      (c : Container) (ds : List Container) → IsSorted ds → IsSorted (insert_by c ds)
  unfolding insert_by
  insert_by-IsSorted c [] s = tt
  insert_by-IsSorted c (d ∷ ds) s = elim (Bool-cases (is_up_to (key c) (key d))) [
    | inl low ↦ rw low (low, s)
    | inr high ↦ rw high (insert_behind c d ds s (up_to_total (key c) (key d) high))
  ]

  sorted-IsSorted : (cs : List Container) → IsSorted (sorted cs)
  unfolding sorted
  sorted-IsSorted [] = tt
  sorted-IsSorted (c ∷ cs) = insert_by-IsSorted c (sorted cs) (sorted-IsSorted cs)

  abbrev of_key : Option ℕ → List Container → List Container
  of_key k = select (λ c. is_same_key (key c) k)

  insert_by_stable :
      (k : Option ℕ) (c : Container) (ds : List Container)
      → of_key k (insert_by c ds) ≡ of_key k (c ∷ ds)
  unfolding insert_by select
  insert_by_stable k c [] = refl
  insert_by_stable k c (d ∷ ds) =
      ground (arith, insert_by_stable k c ds, same_up_to (key c) (key d) k)

  sorted_stable : (k : Option ℕ) (cs : List Container) → of_key k (sorted cs) ≡ of_key k cs
  unfolding sorted select
  sorted_stable k [] = refl
  sorted_stable k (c ∷ cs) = ground (arith, insert_by_stable k c (sorted cs), sorted_stable k cs)

unfoldable pub sort_containers_by_checked_at :
    List Container → Dict ContainersModel → List Container
unfolding sorted checked_at_of
sort_containers_by_checked_at containers containers_db_map =
    sorted (checked_at_of containers_db_map) containers

-- What a row says of when its container was checked, compared directly: a container without a row, or with a
-- row but no moment, comes before all others.
abbrev since : ℕ → Option ContainersModel → Bool
since t none = false
since t (some row) = elim row.checked_at [ none ↦ false | some u ↦ leb t u ]

abbrev pub is_checked_before : Option ContainersModel → Option ContainersModel → Bool
is_checked_before none other = true
is_checked_before (some row) other = elim row.checked_at [ none ↦ true | some t ↦ since t other ]

abbrev pub is_checked_with : Option ContainersModel → Option ContainersModel → Bool
is_checked_with row other = is_checked_before row other && is_checked_before other row

abbrev pub IsQueue : Dict ContainersModel → List Container → Type 0
IsQueue m [] = Unit
IsQueue m (c ∷ []) = Unit
IsQueue m (c ∷ d ∷ ds) =
    (is_checked_before (lookup c.name m) (lookup d.name m) ≡ true) × IsQueue m (d ∷ ds)

since_lem : (t : ℕ) (row : Option ContainersModel) → is_up_to (some t) (moment_of row) ≡ since t row
since_lem t none = refl
since_lem t (some row) = elim (Option-cases row.checked_at) [
  | inl never ↦ rw never refl
  | inr (u, at) ↦ rw at refl
]

before_lem :
    (row other : Option ContainersModel)
    → is_up_to (moment_of row) (moment_of other) ≡ is_checked_before row other
before_lem none other = refl
before_lem (some row) other = elim (Option-cases row.checked_at) [
  | inl never ↦ rw never refl
  | inr (t, at) ↦ rw at (since_lem t other)
]

same_lem : (j k : Option ℕ) → is_same_key j k ≡ (is_up_to j k && is_up_to k j)
same_lem none none = refl
same_lem none (some u) = refl
same_lem (some t) none = refl
same_lem (some t) (some u) = ground arith

IsSorted-IsQueue :
    (m : Dict ContainersModel) (cs : List Container) → IsSorted (checked_at_of m) cs → IsQueue m cs
unfolding checked_at_of
IsSorted-IsQueue m [] s = tt
IsSorted-IsQueue m (c ∷ []) s = tt
IsSorted-IsQueue m (c ∷ d ∷ ds) s =
    (sym (before_lem (lookup c.name m) (lookup d.name m)) ∙ s.0, IsSorted-IsQueue m (d ∷ ds) s.1)

with_lem :
    (m : Dict ContainersModel) (row : Option ContainersModel) (c : Container)
    → is_checked_with (lookup c.name m) row ≡ is_same_key (checked_at_of m c) (moment_of row)
unfolding checked_at_of
with_lem m row c = sym (
    same_lem (moment_of (lookup c.name m)) (moment_of row)
    ∙ rw (before_lem (lookup c.name m) row, before_lem row (lookup c.name m)) refl)

select_with :
    (m : Dict ContainersModel) (row : Option ContainersModel) (cs : List Container)
    → select (λ c. is_checked_with (lookup c.name m) row) cs
      ≡ select (λ c. is_same_key (checked_at_of m c) (moment_of row)) cs
unfolding select
select_with m row [] = refl
select_with m row (c ∷ cs) = rw (with_lem m row c, select_with m row cs) refl

-- The queue of a check goes by `checked_at` of the rows, from the earliest moment to the latest, with the
-- containers that have no row or were never checked first; and the containers that go with a row, checked at
-- its moment or never like it, are those that there were, in the order in which they were: none is lost,
-- none comes twice.
pub sort_containers_by_checked_at_lem :
    (cs : List Container) (m : Dict ContainersModel)
    → IsQueue m (sort_containers_by_checked_at cs m)
      × ((row : Option ContainersModel)
          → select (λ c. is_checked_with (lookup c.name m) row) (sort_containers_by_checked_at cs m)
            ≡ select (λ c. is_checked_with (lookup c.name m) row) cs)
unfolding sort_containers_by_checked_at
sort_containers_by_checked_at_lem cs m = (
  IsSorted-IsQueue m _ (sorted-IsSorted (checked_at_of m) cs),
  λ row.
      select_with m row (sorted (checked_at_of m) cs)
      ∙ sorted_stable (checked_at_of m) (moment_of row) cs
      ∙ sym (select_with m row cs),
)
