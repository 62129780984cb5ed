-- ===== src/Client/Manager/Entries.antt =====
-- The dictionary of `AgentClientManager`: what is found after a change, and the sessions that are live.
use tugtainer.Base.{
  ℕ, ◌+◌, ◌≡◌, refl, arith, Bool, true, not, ◌&&◌, none, some, is_some, List, [], ◌∷◌, eqb, eqb_iff,
  if◌then◌else◌,
}
use tugtainer.Client.Manager.{Entry, find, assign, discard, live, live_entry, live_all}

abbrev pub is_distinct : List (ℕ × Entry) → Bool
is_distinct [] = true
is_distinct ((i, e) ∷ d) = not (is_some (find i d)) && is_distinct d

pub find-assign :
    (i j : ℕ) (e : Entry) (d : List (ℕ × Entry))
    → find j (assign i e d) ≡ (if eqb i j then some e else find j d)
unfolding find assign
find-assign i j e [] = refl
find-assign i j e ((k, old) ∷ d) = ground (arith, find-assign i j e d)

pub find-discard :
    (i j : ℕ) (d : List (ℕ × Entry))
    → is_distinct d ≡ true
    → find j (discard i d) ≡ (if eqb i j then none else find j d)
unfolding find discard
find-discard i j [] h = ground arith
find-discard i j ((k, e) ∷ d) h = ground (arith, find-discard i j d, eqb_iff k i, eqb_iff i j)

pub assign-distinct :
    (i : ℕ) (e : Entry) (d : List (ℕ × Entry))
    → is_distinct d ≡ true
    → is_distinct (assign i e d) ≡ true
unfolding find assign
assign-distinct i e [] h = refl
assign-distinct i e ((k, old) ∷ d) h = ground (arith, assign-distinct i e d, find-assign i k e d)

pub discard-distinct :
    (i : ℕ) (d : List (ℕ × Entry)) → is_distinct d ≡ true → is_distinct (discard i d) ≡ true
unfolding find discard
discard-distinct i [] h = refl
discard-distinct i ((k, e) ∷ d) h = ground (arith, discard-distinct i d, find-discard i k d)

pub live_all-assign :
    (i : ℕ) (e : Entry) (d : List (ℕ × Entry))
    → live_all (assign i e d) + live_entry (find i d) ≡ live_all d + live e.session
unfolding find assign live_all
live_all-assign i e [] = omega arith
live_all-assign i e ((k, old) ∷ d) = ground (arith, live_all-assign i e d)

pub live_all-discard :
    (i : ℕ) (d : List (ℕ × Entry)) → live_all (discard i d) + live_entry (find i d) ≡ live_all d
unfolding find discard live_all
live_all-discard i [] = omega arith
live_all-discard i ((k, e) ∷ d) = ground (arith, live_all-discard i d)

pub find-discard_self :
    (i : ℕ) (d : List (ℕ × Entry)) → is_distinct d ≡ true → find i (discard i d) ≡ none
find-discard_self i d h = rw (find-discard i i d h, (eqb_iff i i).1 refl)
