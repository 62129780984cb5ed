-- ===== src/Exec/Laws.antt =====
-- What such code does to its state and how it ends, one rule for each way to build it.
use tugtainer.Base.{◌≡◌, Option, none, some, ◌≢◌, refl, Bool, true, false, if◌then◌else◌}
use tugtainer.Exec.{
  Error, Answer, value, error, Result, ok, err, stuck, Exec, pure, raise, lift, continue, ◌>>=◌,
  rescue, try_except, modify, get, if_some,
}

-- A relation between the states before and after that may hold across many steps.
pub record Preorder (S : Type 0) : Type 1 where
  pub rel : S → S → Type 0
  pub stays : (s : S) → rel s s
  pub chain : (s t u : S) → rel s t → rel t u → rel s u

-- The state before and the state after are related, however the code ends.
pub record Moves {S A : Type 0} (P : Preorder S) (m : Exec S A) : Type 0 where
  pub at : (s : S) → P.rel s (m s).1

-- No exception comes out.
pub record NoRaise {S A : Type 0} (m : Exec S A) : Type 0 where
  pub at : (s : S) (e : Error) → (m s).0 ≢ err e

-- No loop runs out of its fuel.
pub record Ends {S A : Type 0} (m : Exec S A) : Type 0 where
  pub at : (s : S) → (m s).0 ≢ stuck

module _ {S : Type 0} (P : Preorder S) where
  pub Moves-get : Moves P get
  unfolding get
  Moves-get = record { at = P.stays }

  pub Moves-modify : (f : S → S) → ((s : S) → P.rel s (f s)) → Moves P (modify f)
  unfolding modify
  Moves-modify f h = record { at = h }

  module _ {A : Type 0} where
    pub Moves-pure : (a : A) → Moves P (pure a)
    unfolding pure
    Moves-pure a = record { at = P.stays }

    pub Moves-raise : (e : Error) → Moves P (raise {A = A} e)
    unfolding raise
    Moves-raise e = record { at = P.stays }

    pub Moves-lift : (r : Answer A) → Moves P (lift r)
    unfolding lift
    Moves-lift r = record { at = P.stays }

    rescue-Moves :
        (r : Result A) (handler : Error → Exec S A) (s t : S)
        → P.rel s t
        → ((e : Error) → Moves P (handler e))
        → P.rel s (rescue r handler t).1
    rescue-Moves (ok a) handler s t h k = h
    rescue-Moves (err e) handler s t h k = P.chain s t _ h ((k e).at t)
    rescue-Moves stuck handler s t h k = h

    pub Moves-try :
        (m : Exec S A) (handler : Error → Exec S A)
        → Moves P m
        → ((e : Error) → Moves P (handler e))
        → Moves P (try_except m handler)
    unfolding try_except
    Moves-try m handler h k = record {
      at = λ s. let (r, t) = m s in rescue-Moves r handler s t (h.at s) k;
    }

    pub Moves-if :
        (b : Bool) (m n : Exec S A) → Moves P m → Moves P n → Moves P (if b then m else n)
    Moves-if true m n h k = h
    Moves-if false m n h k = k

module _ {S A B : Type 0} (P : Preorder S) where
  continue-Moves :
      (r : Result A) (f : A → Exec S B) (s t : S)
      → P.rel s t
      → ((a : A) → Moves P (f a))
      → P.rel s (continue r f t).1
  continue-Moves (ok a) f s t h k = P.chain s t _ h ((k a).at t)
  continue-Moves (err e) f s t h k = h
  continue-Moves stuck f s t h k = h

  pub Moves-bind :
      (m : Exec S A) (f : A → Exec S B) → Moves P m → ((a : A) → Moves P (f a)) → Moves P (m >>= f)
  unfolding ◌>>=◌
  Moves-bind m f h k = record { at = λ s. let (r, t) = m s in continue-Moves r f s t (h.at s) k }

  pub Moves-if_some :
      (o : Option A) (f : A → Exec S B) (m : Exec S B)
      → ((a : A) → Moves P (f a))
      → Moves P m
      → Moves P (if_some o f m)
  Moves-if_some none f m h k = k
  Moves-if_some (some a) f m h k = h a

pub ruleset moves_rules =
    (Moves-get, Moves-pure, Moves-raise, Moves-lift, Moves-try, Moves-if, Moves-bind)

module _ {S A : Type 0} where
  pub NoRaise-pure : (a : A) → NoRaise {S = S} (pure a)
  unfolding pure
  NoRaise-pure a = record { at = λ s e h. cc }

  pub Ends-lift : (r : Answer A) → Ends {S = S} (lift r)
  unfolding lift
  Ends-lift (value a) = record { at = λ s h. cc }
  Ends-lift (error e) = record { at = λ s h. cc }

  pub NoRaise-if :
      (b : Bool) (m n : Exec S A) → NoRaise m → NoRaise n → NoRaise (if b then m else n)
  NoRaise-if true m n h k = h
  NoRaise-if false m n h k = k

  rescue-NoRaise :
      (r : Result A) (handler : Error → Exec S A) (s : S) (e : Error)
      → ((e : Error) → NoRaise (handler e))
      → (rescue r handler s).0 ≢ err e
  rescue-NoRaise (ok a) handler s e k h = cc
  rescue-NoRaise (err d) handler s e k h = (k d).at s e h
  rescue-NoRaise stuck handler s e k h = cc

  -- Whatever the body raises is caught.
  pub NoRaise-try :
      (m : Exec S A) (handler : Error → Exec S A)
      → ((e : Error) → NoRaise (handler e))
      → NoRaise (try_except m handler)
  unfolding try_except
  NoRaise-try m handler k = record {
    at = λ s e. let (r, t) = m s in rescue-NoRaise r handler t e k;
  }

  pub Ends-pure : (a : A) → Ends {S = S} (pure a)
  unfolding pure
  Ends-pure a = record { at = λ s h. cc }

  pub Ends-raise : (e : Error) → Ends {S = S} (raise {A = A} e)
  unfolding raise
  Ends-raise e = record { at = λ s h. cc }

  pub Ends-if : (b : Bool) (m n : Exec S A) → Ends m → Ends n → Ends (if b then m else n)
  Ends-if true m n h k = h
  Ends-if false m n h k = k

  pub rescue-Ends :
      (r : Result A) (handler : Error → Exec S A) (s : S)
      → r ≢ stuck
      → ((e : Error) → Ends (handler e))
      → (rescue r handler s).0 ≢ stuck
  rescue-Ends (ok a) handler s n k h = cc
  rescue-Ends (err d) handler s n k h = (k d).at s h
  rescue-Ends stuck handler s n k h = n refl

  pub Ends-try :
      (m : Exec S A) (handler : Error → Exec S A)
      → Ends m
      → ((e : Error) → Ends (handler e))
      → Ends (try_except m handler)
  unfolding try_except
  Ends-try m handler h k = record {
    at = λ s. let (r, t) = m s in rescue-Ends r handler t (h.at s) k;
  }

module _ {S A B : Type 0} where
  continue-NoRaise :
      (r : Result A) (f : A → Exec S B) (s : S) (e : Error)
      → ((e : Error) → r ≢ err e)
      → ((a : A) → NoRaise (f a))
      → (continue r f s).0 ≢ err e
  continue-NoRaise (ok a) f s e n k h = (k a).at s e h
  continue-NoRaise (err d) f s e n k h = n d refl
  continue-NoRaise stuck f s e n k h = cc

  pub NoRaise-bind :
      (m : Exec S A) (f : A → Exec S B) → NoRaise m → ((a : A) → NoRaise (f a)) → NoRaise (m >>= f)
  unfolding ◌>>=◌
  NoRaise-bind m f h k = record {
    at = λ s e. let (r, t) = m s in continue-NoRaise r f t e (h.at s) k;
  }

  continue-Ends :
      (r : Result A) (f : A → Exec S B) (s : S)
      → r ≢ stuck
      → ((a : A) → Ends (f a))
      → (continue r f s).0 ≢ stuck
  continue-Ends (ok a) f s n k h = (k a).at s h
  continue-Ends (err d) f s n k h = cc
  continue-Ends stuck f s n k h = n refl

  pub Ends-bind :
      (m : Exec S A) (f : A → Exec S B) → Ends m → ((a : A) → Ends (f a)) → Ends (m >>= f)
  unfolding ◌>>=◌
  Ends-bind m f h k = record { at = λ s. let (r, t) = m s in continue-Ends r f t (h.at s) k }

  pub NoRaise-if_some :
      (o : Option A) (f : A → Exec S B) (m : Exec S B)
      → ((a : A) → NoRaise (f a))
      → NoRaise m
      → NoRaise (if_some o f m)
  NoRaise-if_some none f m h k = k
  NoRaise-if_some (some a) f m h k = h a

  pub Ends-if_some :
      (o : Option A) (f : A → Exec S B) (m : Exec S B)
      → ((a : A) → Ends (f a))
      → Ends m
      → Ends (if_some o f m)
  Ends-if_some none f m h k = k
  Ends-if_some (some a) f m h k = h a

module _ {S : Type 0} where
  pub NoRaise-modify : (f : S → S) → NoRaise (modify f)
  unfolding modify
  NoRaise-modify f = record { at = λ s e h. cc }

  pub NoRaise-get : NoRaise {S = S} get
  unfolding get
  NoRaise-get = record { at = λ s e h. cc }

  pub Ends-modify : (f : S → S) → Ends (modify f)
  unfolding modify
  Ends-modify f = record { at = λ s h. cc }

  pub Ends-get : Ends {S = S} get
  unfolding get
  Ends-get = record { at = λ s h. cc }

pub ruleset no_raise_rules =
    (NoRaise-pure, NoRaise-modify, NoRaise-get, NoRaise-if, NoRaise-try, NoRaise-bind)

pub ruleset ends_rules =
    (Ends-pure, Ends-raise, Ends-lift, Ends-modify, Ends-get, Ends-if, Ends-try, Ends-bind)

-- Code that ends and raises nothing returns.
pub some_result :
    {A : Type 0} (r : Result A) → r ≢ stuck → ((e : Error) → r ≢ err e) → (a : A) × (r ≡ ok a)
some_result (ok a) h k = (a, refl)
some_result (err e) h k = absurd (k e refl)
some_result stuck h k = absurd (h refl)
