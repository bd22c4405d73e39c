-- ===== src/Exec/Yields.antt =====
-- What a run ends with: one predicate on its result and the state where it returns, another on the
-- state where it throws or is undefined.
use htmpfs.Prelude.{Bool, true, false, if◌then◌else◌, Option, none, some, ◌≡◌, refl}
use htmpfs.Errors.{Outcome, ok, throws, undefined}
use htmpfs.Exec.{Exec, continue, ◌>>=◌}

abbrev pub Yields {ℓ} : {S A : Type ℓ} → (A → S → Type ℓ) → (S → Type ℓ) → Outcome A × S → Type ℓ
Yields P E (ok a, s) = P a s
Yields P E (throws e, s) = E s
Yields P E (undefined, s) = E s

module _ {ℓ} {S A B : Type ℓ} (P : A → S → Type ℓ) (Q : B → S → Type ℓ) (E : S → Type ℓ) where
  continue-Yields :
      (r : Outcome A × S) (f : A → Exec S B)
      → Yields P E r
      → ((a : A) (s : S) → P a s → Yields Q E (f a s))
      → Yields Q E (continue r f)
  continue-Yields (ok a, s) f h k = k a s h
  continue-Yields (throws e, s) f h k = h
  continue-Yields (undefined, s) f h k = h

  -- The rule for a step, from the state `s`.
  pub bind-Yields :
      (m : Exec S A) (f : A → Exec S B) (s : S)
      → Yields P E (m s)
      → ((a : A) (s' : S) → P a s' → Yields Q E (f a s'))
      → Yields Q E ((m >>= f) s)
  bind-Yields m f s = continue-Yields (m s) f

module _ {ℓ} {S A : Type ℓ} (P : A → S → Type ℓ) (E : S → Type ℓ) where
  pub if-Yields :
      (b : Bool) (r t : Outcome A × S)
      → Yields P E r
      → Yields P E t
      → Yields P E (if b then r else t)
  if-Yields true r t h k = h
  if-Yields false r t h k = k

  -- The same for a choice between calls.
  pub choose-Yields :
      (b : Bool) (m n : Exec S A) (s : S)
      → Yields P E (m s)
      → Yields P E (n s)
      → Yields P E ((if b then m else n) s)
  choose-Yields true m n s h k = h
  choose-Yields false m n s h k = k

  pub lookup-Yields :
      {B : Type ℓ} (o : Option B) (r : Outcome A × S) (f : B → Outcome A × S)
      → Yields P E r
      → ((b : B) → o ≡ some b → Yields P E (f b))
      → Yields P E (elim o as (λ _. Outcome A × S) [ none ↦ r | some b ↦ f b ])
  lookup-Yields none r f h k = h
  lookup-Yields (some b) r f h k = k b refl

module _ {ℓ} {S A : Type ℓ} (P Q : A → S → Type ℓ) (E F : S → Type ℓ) where
  pub weaken-Yields :
      (r : Outcome A × S)
      → ((a : A) (s : S) → P a s → Q a s)
      → ((s : S) → E s → F s)
      → Yields P E r
      → Yields Q F r
  weaken-Yields (ok a, s) h k w = h a s w
  weaken-Yields (throws e, s) h k w = k s w
  weaken-Yields (undefined, s) h k w = k s w

-- One predicate for every end is a predicate on the state.
module _ {ℓ} {S A : Type ℓ} (I : S → Type ℓ) where
  pub at_end : (r : Outcome A × S) → Yields (λ a s. I s) I r → I r.1
  at_end (ok a, s) w = w
  at_end (throws e, s) w = w
  at_end (undefined, s) w = w

  pub from_end : (r : Outcome A × S) → I r.1 → Yields (λ a s. I s) I r
  from_end (ok a, s) w = w
  from_end (throws e, s) w = w
  from_end (undefined, s) w = w
