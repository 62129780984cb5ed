-- ===== src/Exec/Returns.antt =====
-- Postconditions of code that returns, one rule for each way to build it.
use tugtainer.Base.{sym, Option, none, some, ◌≡◌, refl, Bool, true, false, if◌then◌else◌, arith}
use tugtainer.Exec.{
  Error, Result, ok, err, stuck, Exec, continue, ◌>>=◌, rescue, try_except, if_some, modify, get,
  pure,
}

pub ok_inj : {A : Type 0} {a b : A} → ok a ≡ ok b → a ≡ b
ok_inj h = cc

-- Code that, where it returns, returns with `Q`.
pub record Returns {S B : Type 0} (Q : B → S → Type 0) (m : Exec S B) : Type 0 where
  pub at : (s : S) (b : B) → (m s).0 ≡ ok b → Q b (m s).1

module _ {S A B : Type 0} (Q : B → S → Type 0) where
  Returns-continue :
      (r : Result A) (f : A → Exec S B) (t : S) (b : B)
      → ((a : A) → Returns Q (f a))
      → (continue r f t).0 ≡ ok b
      → Q b (continue r f t).1
  Returns-continue (ok a) f t b h e = (h a).at t b e
  Returns-continue (err d) f t b h e = absurd (ground (arith, e))
  Returns-continue stuck f t b h e = absurd (ground (arith, e))

  pub Returns-bind :
      (m : Exec S A) (f : A → Exec S B) → ((a : A) → Returns Q (f a)) → Returns Q (m >>= f)
  unfolding ◌>>=◌
  Returns-bind m f h = record { at = λ s b e. let (r, t) = m s in Returns-continue r f t b h e }

module _ {S A B : Type 0} (P : A → S → Type 0) (Q : B → S → Type 0) where
  Returns-after :
      (r : Result A) (f : A → Exec S B) (t : S) (b : B)
      → ((a : A) → r ≡ ok a → P a t)
      → ((a : A) (u : S) → P a u → (c : B) → (f a u).0 ≡ ok c → Q c (f a u).1)
      → (continue r f t).0 ≡ ok b
      → Q b (continue r f t).1
  Returns-after (ok a) f t b p h e = h a t (p a refl) b e
  Returns-after (err d) f t b p h e = absurd (ground (arith, e))
  Returns-after stuck f t b p h e = absurd (ground (arith, e))

  pub Returns-seq :
      (m : Exec S A) (f : A → Exec S B)
      → Returns P m
      → ((a : A) (u : S) → P a u → (c : B) → (f a u).0 ≡ ok c → Q c (f a u).1)
      → Returns Q (m >>= f)
  unfolding ◌>>=◌
  Returns-seq m f p h = record {
    at = λ s b e. let (r, t) = m s in Returns-after r f t b (p.at s) h e;
  }

module _ {S B : Type 0} (Q : B → S → Type 0) where
  pub Returns-if :
      (c : Bool) (m n : Exec S B) → Returns Q m → Returns Q n → Returns Q (if c then m else n)
  Returns-if true m n h k = h
  Returns-if false m n h k = k

  Returns-rescue :
      (r : Result B) (handler : Error → Exec S B) (t : S) (b : B)
      → ((b : B) → r ≡ ok b → Q b t)
      → ((e : Error) → Returns Q (handler e))
      → (rescue r handler t).0 ≡ ok b
      → Q b (rescue r handler t).1
  Returns-rescue (ok a) handler t b h k e = h b e
  Returns-rescue (err d) handler t b h k e = (k d).at t b e
  Returns-rescue stuck handler t b h k e = absurd (ground (arith, e))

  pub Returns-try :
      (m : Exec S B) (handler : Error → Exec S B)
      → Returns Q m
      → ((e : Error) → Returns Q (handler e))
      → Returns Q (try_except m handler)
  unfolding try_except
  Returns-try m handler h k = record {
    at = λ s b e. let (r, t) = m s in Returns-rescue r handler t b (h.at s) k e;
  }

module _ {S A B : Type 0} (Q : B → S → Type 0) where
  pub Returns-if_some :
      (o : Option A) (f : A → Exec S B) (m : Exec S B)
      → ((a : A) → Returns Q (f a))
      → Returns Q m
      → Returns Q (if_some o f m)
  Returns-if_some none f m h k = k
  Returns-if_some (some a) f m h k = h a

-- Code that, from a state with `P`, where it returns, returns with `Q`.
pub record Leads {S B : Type 0} (P : S → Type 0) (Q : B → S → Type 0) (m : Exec S B) : Type 0 where
  pub at : (s : S) → P s → (b : B) → (m s).0 ≡ ok b → Q b (m s).1

module _ {S A B : Type 0} (P : S → Type 0) (R : A → S → Type 0) (Q : B → S → Type 0) where
  pub Leads-bind :
      (m : Exec S A) (f : A → Exec S B)
      → Leads P R m
      → ((a : A) → Leads (R a) Q (f a))
      → Leads P Q (m >>= f)
  unfolding ◌>>=◌
  Leads-bind m f p h = record {
    at = λ s start b e.
        let (r, t) = m s in Returns-after R Q r f t b (p.at s start) (λ a u q. (h a).at u q) e;
  }

  pub Leads-if_some :
      (o : Option A) (f : A → Exec S B) (m : Exec S B)
      → ((a : A) → Leads P Q (f a))
      → Leads P Q m
      → Leads P Q (if_some o f m)
  Leads-if_some none f m h k = k
  Leads-if_some (some a) f m h k = h a

module _ {S B : Type 0} (P : S → Type 0) (Q : B → S → Type 0) where
  pub Leads-if :
      (c : Bool) (m n : Exec S B) → Leads P Q m → Leads P Q n → Leads P Q (if c then m else n)
  Leads-if true m n h k = h
  Leads-if false m n h k = k

  pub Leads-Returns : (m : Exec S B) → Returns Q m → Leads P Q m
  Leads-Returns m h = record { at = λ s p. h.at s }

  pub Leads-try :
      (m : Exec S B) (handler : Error → Exec S B)
      → Leads P Q m
      → ((e : Error) → Returns Q (handler e))
      → Leads P Q (try_except m handler)
  unfolding try_except
  Leads-try m handler h k = record {
    at = λ s p b e. let (r, t) = m s in Returns-rescue Q r handler t b (h.at s p) k e;
  }

module _ {S : Type 0} (P : S → Type 0) where
  pub Leads-modify :
      (Q : Unit {0} → S → Type 0) (f : S → S) → ((s : S) → P s → Q tt (f s)) → Leads P Q (modify f)
  unfolding modify
  Leads-modify Q f h = record { at = λ s p b e. h s p }

  pub Leads-get : Leads P (λ a s. P s × (a ≡ s)) get
  unfolding get
  Leads-get = record { at = λ s p b e. (p, sym (ok_inj e)) }

  pub Leads-pure :
      {B : Type 0} (Q : B → S → Type 0) (b : B) → ((s : S) → P s → Q b s) → Leads P Q (pure b)
  unfolding pure
  Leads-pure Q b h = record { at = λ s p c e. rw (← ok_inj e) (h s p) }
