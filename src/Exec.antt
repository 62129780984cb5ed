-- ===== src/Exec.antt =====
-- Python code that calls, mutates and may raise. What was written before a raise stays written.
pub mod Laws
pub mod Returns
pub mod Within
use tugtainer.Base.{Option, none, some, Text, List, Bool}

-- The exceptions that the core tells apart in no way but by being raised.
pub data Error : Type 0 where
  agent_error : Text → Error
  unhealthy : Text → Error
  no_image : Error
  invalid : Text → Error

-- `stuck` is a loop that ran out of its fuel; no handler catches it.
pub data Result {ℓ} (A : Type ℓ) : Type ℓ where
  ok : A → Result A
  err : Error → Result A
  stuck : Result A

-- What one request, or a function that may raise, answers.
pub data Answer {ℓ} (A : Type ℓ) : Type ℓ where
  value : A → Answer A
  error : Error → Answer A

abbrev pub outcome {ℓ} : {A : Type ℓ} → Answer A → Result A
outcome (value a) = ok a
outcome (error e) = err e

abbrev pub Exec : Type 0 → Type 0 → Type 0
Exec S A = S → Result A × S

module _ {S A : Type 0} where
  unfoldable pub pure : A → Exec S A
  pure a s = (ok a, s)

  unfoldable pub raise : Error → Exec S A
  raise e s = (err e, s)

  unfoldable pub lift : Answer A → Exec S A
  lift r s = (outcome r, s)

  abbrev pub rescue : Result A → (Error → Exec S A) → Exec S A
  rescue (ok a) handler s = (ok a, s)
  rescue (err e) handler s = handler e s
  rescue stuck handler s = (stuck, s)

  -- `try: m  except Exception as e: handler(e)`
  unfoldable pub try_except : Exec S A → (Error → Exec S A) → Exec S A
  try_except m handler s = let (r, s') = m s in rescue r handler s'

  -- What a loop on fuel leaves: nothing, if the fuel ran out.
  unfoldable pub of_fuel : Option A → Exec S A
  of_fuel none s = (stuck, s)
  of_fuel (some a) s = (ok a, s)

module _ {S : Type 0} where
  unfoldable pub modify : (S → S) → Exec S (Unit {0})
  modify f s = (ok tt, f s)

  unfoldable pub get : Exec S S
  get s = (ok s, s)

module _ {S A B : Type 0} where
  abbrev pub continue : Result A → (A → Exec S B) → Exec S B
  continue (ok a) f s = f a s
  continue (err e) f s = (err e, s)
  continue stuck f s = (stuck, s)

  infixl 10 ◌>>=◌ ◌>>◌
  -- To open this is to open the other ways to build such code too.
  unfoldable pub ◌>>=◌ : Exec S A → (A → Exec S B) → Exec S B
  unfolding pure raise lift try_except modify get
  ◌>>=◌ m f s = let (r, s') = m s in continue r f s'

  abbrev pub ◌>>◌ : Exec S A → Exec S B → Exec S B
  m >> n = m >>= λ _. n

  -- `if a: f(a) else: m`, of what may be missing.
  abbrev pub if_some : Option A → (A → Exec S B) → Exec S B → Exec S B
  if_some none f m = m
  if_some (some a) f m = f a
