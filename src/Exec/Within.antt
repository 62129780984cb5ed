-- ===== src/Exec/Within.antt =====
-- Code that ends from the states with a property, one rule for each way to build it.
use tugtainer.Base.{◌≡◌, ◌≢◌, refl, Bool, true, false, Option, none, some, if◌then◌else◌}
use tugtainer.Exec.{Error, Result, ok, err, stuck, Exec, continue, ◌>>=◌, try_except, of_fuel}
use tugtainer.Exec.Laws.{Ends, rescue-Ends}
use tugtainer.Exec.Returns.{Leads}

pub record EndsFrom {S A : Type 0} (P : S → Type 0) (m : Exec S A) : Type 0 where
  pub at : (s : S) → P s → (m s).0 ≢ stuck

module _ {S A : Type 0} (P : S → Type 0) where
  pub EndsFrom-Ends : (m : Exec S A) → Ends m → EndsFrom P m
  EndsFrom-Ends m h = record { at = λ s p. h.at s }

  pub EndsFrom-if :
      (b : Bool) (m n : Exec S A) → EndsFrom P m → EndsFrom P n → EndsFrom P (if b then m else n)
  EndsFrom-if true m n h k = h
  EndsFrom-if false m n h k = k

  pub EndsFrom-try :
      (m : Exec S A) (handler : Error → Exec S A)
      → EndsFrom P m
      → ((e : Error) → Ends (handler e))
      → EndsFrom P (try_except m handler)
  unfolding try_except
  EndsFrom-try m handler h k = record {
    at = λ s p. let (r, t) = m s in rescue-Ends r handler t (h.at s p) k;
  }

  pub EndsFrom-of_fuel : (o : Option A) → ((s : S) → P s → o ≢ none) → EndsFrom P (of_fuel o)
  unfolding of_fuel
  EndsFrom-of_fuel none h = record { at = λ s p e. h s p refl }
  EndsFrom-of_fuel (some a) h = record { at = λ s p e. cc }

module _ {S A B : Type 0} (P : S → Type 0) (R : A → S → Type 0) where
  EndsFrom-continue :
      (r : Result A) (f : A → Exec S B) (t : S)
      → r ≢ stuck
      → ((a : A) → r ≡ ok a → R a t)
      → ((a : A) → EndsFrom (R a) (f a))
      → (continue r f t).0 ≢ stuck
  EndsFrom-continue (ok a) f t n q k = (k a).at t (q a refl)
  EndsFrom-continue (err e) f t n q k = λ h. cc
  EndsFrom-continue stuck f t n q k = λ h. n refl

  pub EndsFrom-bind :
      (m : Exec S A) (f : A → Exec S B)
      → EndsFrom P m
      → Leads P R m
      → ((a : A) → EndsFrom (R a) (f a))
      → EndsFrom P (m >>= f)
  unfolding ◌>>=◌
  EndsFrom-bind m f h q k = record {
    at = λ s p. let (r, t) = m s in EndsFrom-continue r f t (h.at s p) (q.at s p) k;
  }
