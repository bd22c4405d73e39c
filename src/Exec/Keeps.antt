-- ===== src/Exec/Keeps.antt =====
-- Predicates on the state that a call keeps, whether it returns, throws or is undefined.
use htmpfs.Prelude.{Option, none, some, ◌≡◌, refl, Bool, true, false, if◌then◌else◌}
use htmpfs.Errors.{Outcome, ok, throws, undefined}
use htmpfs.Exec.{Exec, continue, ◌>>=◌}

abbrev pub Keeps {ℓ} : {S A : Type ℓ} → (S → Type ℓ) → Exec S A → Type ℓ
Keeps {S} I m = (s : S) → I s → I (m s).1

module _ {ℓ} {S A B : Type ℓ} (I : S → Type ℓ) where
  continue-Keeps :
      (r : Outcome A × S) (f : A → Exec S B)
      → I r.1
      → ((a : A) → Keeps I (f a))
      → I (continue r f).1
  continue-Keeps (ok a, s) f i k = k a s i
  continue-Keeps (throws e, s) f i k = i
  continue-Keeps (undefined, s) f i k = i

  -- A step keeps what both of its halves keep.
  pub bind-Keeps :
      (m : Exec S A) (f : A → Exec S B) → Keeps I m → ((a : A) → Keeps I (f a)) → Keeps I (m >>= f)
  bind-Keeps m f h k s i = continue-Keeps (m s) f (h s i) k

module _ {ℓ} {S A B : Type ℓ} (J I : S → Type ℓ) where
  -- A run of two halves, the first of which brings about more than is asked for in the end.
  pub bind_after :
      (m : Exec S A) (f : A → Exec S B) (s : S)
      → ((t : S) → J t → I t)
      → J (m s).1
      → ((a : A) (t : S) → J t → I (f a t).1)
      → I ((m >>= f) s).1
  bind_after m f s weak h k = go (m s) h
    where
      go : (r : Outcome A × S) → J r.1 → I (continue r f).1
      go (ok a, t) j = k a t j
      go (throws e, t) j = weak t j
      go (undefined, t) j = weak t j

module _ {ℓ} {S A : Type ℓ} (I : S → Type ℓ) where
  pub if-Keeps : (b : Bool) (m n : Exec S A) → Keeps I m → Keeps I n → Keeps I (if b then m else n)
  if-Keeps true m n h k = h
  if-Keeps false m n h k = k

  -- The same in one state.
  pub if-exec :
      (b : Bool) (m n : Exec S A) (s : S) → I (m s).1 → I (n s).1 → I ((if b then m else n) s).1
  if-exec true m n s h k = h
  if-exec false m n s h k = k

  -- The same for a choice between runs.
  pub if-runs-Keeps : (b : Bool) (r t : Outcome A × S) → I r.1 → I t.1 → I (if b then r else t).1
  if-runs-Keeps true r t h k = h
  if-runs-Keeps false r t h k = k

  -- A run that depends on a lookup.
  pub lookup-Keeps :
      {B : Type ℓ} (o : Option B) (r : Outcome A × S) (f : B → Outcome A × S)
      → I r.1
      → ((b : B) → o ≡ some b → I (f b).1)
      → I (elim o as (λ _. Outcome A × S) [ none ↦ r | some b ↦ f b ]).1
  lookup-Keeps none r f h k = h
  lookup-Keeps (some b) r f h k = k b refl

  pub case-Keeps :
      (b : Bool) (m n : Exec S A)
      → Keeps I m
      → Keeps I n
      → Keeps I (elim b as (λ _. Exec S A) [ true ↦ m | false ↦ n ])
  case-Keeps true m n h k = h
  case-Keeps false m n h k = k
