-- ===== src/Exec/Still.antt =====
-- Calls that leave the state as it is, whatever they end with.
use htmpfs.Prelude.{Bool, ◌≡◌, refl, ◌∙◌, if◌then◌else◌}
use htmpfs.Exec.{Exec, ◌>>=◌}
use htmpfs.Exec.Keeps.{bind-Keeps, if-Keeps}

abbrev pub Still {ℓ} : {S A : Type ℓ} → Exec S A → Type ℓ
Still {S} m = (s : S) → (m s).1 ≡ s

pub bind-Still {ℓ} :
    {S A B : Type ℓ} (m : Exec S A) (f : A → Exec S B)
    → Still m
    → ((a : A) → Still (f a))
    → Still (m >>= f)
bind-Still {S} m f h k s =
    bind-Keeps (λ (t : S). t ≡ s) m f (λ t e. h t ∙ e) (λ a t e. k a t ∙ e) s refl

pub if-Still {ℓ} :
    {S A : Type ℓ} (b : Bool) (m n : Exec S A) → Still m → Still n → Still (if b then m else n)
if-Still {S} b m n h k s =
    if-Keeps (λ (t : S). t ≡ s) b m n (λ t e. h t ∙ e) (λ t e. k t ∙ e) s refl
