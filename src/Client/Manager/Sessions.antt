-- ===== src/Client/Manager/Sessions.antt =====
-- The sessions of the clients that `AgentClientManager` of backend/core/agent_client.py has no more.
use tugtainer.Base.{
  ℕ, zero, suc, ◌+◌, ◌≡◌, refl, arith, Bool, true, Option, none, some, List, [], ◌∷◌, leb,
  if◌then◌else◌,
}
use tugtainer.Client.Manager.{
  Entry, live_entry, live_removed, closed_before, left_before, all_without_session, requested,
  opened_at, closed_at,
}

pub live_removed-closed_before :
    (o : Option Entry) (l : List Entry) → live_removed (closed_before o l) ≡ live_removed l
unfolding live_removed
live_removed-closed_before none l = refl
live_removed-closed_before (some e) l = omega arith

pub live_removed-left_before :
    (o : Option Entry) (l : List Entry)
    → live_removed (left_before o l) ≡ live_entry o + live_removed l
unfolding live_removed
live_removed-left_before none l = omega arith
live_removed-left_before (some e) l = refl

pub live_removed-all_without_session :
    (d : List (ℕ × Entry)) (l : List Entry)
    → live_removed (all_without_session d l) ≡ live_removed l
unfolding live_removed all_without_session
live_removed-all_without_session [] l = refl
live_removed-all_without_session ((id, e) ∷ d) l =
    omega (arith, live_removed-all_without_session d l)

pub live_removed-requested :
    (place : ℕ) (connection_error : Bool) (l : List Entry)
    → live_removed (requested place connection_error l) + closed_at place connection_error l
      ≡ live_removed l + opened_at place l
unfolding live_removed requested opened_at closed_at
live_removed-requested place c [] = refl
live_removed-requested zero c (e ∷ l) = ground arith
live_removed-requested (suc place) c (e ∷ l) = omega (arith, live_removed-requested place c l)

pub requested_grows :
    (place : ℕ) (connection_error : Bool) (l : List Entry)
    → leb
        (live_removed (requested place connection_error l))
        (live_removed l + (if connection_error then 0 else 1))
      ≡ true
unfolding live_removed requested
requested_grows place c [] = ground arith
requested_grows zero c (e ∷ l) = ground arith
requested_grows (suc place) c (e ∷ l) = ground (arith, requested_grows place c l)

pub live_entry_small : (o : Option Entry) → leb (live_entry o) 1 ≡ true
live_entry_small none = ground arith
live_entry_small (some e) = ground arith
