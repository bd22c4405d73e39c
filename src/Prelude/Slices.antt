-- ===== src/Prelude/Slices.antt =====
-- Laws of `take`, `drop` and `replicate`, by which byte ranges are described.
use Prim.Native.Nat.{ℕ, zero, suc, ◌+◌, ◌-◌, ◌≤◌, ◌<◌, min}
use mathlib.Core.Path.{◌≡◌, refl, ap, ◌∙◌, sym}
use mathlib.Core.List.{List, [], ◌∷◌, ◌++◌, append-nil}
use native.Mathlib.Omega.{arith}
use htmpfs.Prelude.Lists.{
  length, take, drop, replicate, get_or, set, pop_back, length-append, length-take,
  length-replicate,
}

module _ {ℓ} {A : Type ℓ} where
  pub take-nil : (n : ℕ) → take {A = A} n [] ≡ []
  take-nil zero = refl
  take-nil (suc n) = refl

  pub drop-nil : (n : ℕ) → drop {A = A} n [] ≡ []
  drop-nil zero = refl
  drop-nil (suc n) = refl

  pub take-append-drop : (n : ℕ) (xs : List A) → take n xs ++ drop n xs ≡ xs
  take-append-drop zero xs = refl
  take-append-drop (suc n) [] = refl
  take-append-drop (suc n) (x ∷ xs) = ap (x ∷◌) (take-append-drop n xs)

  pub take_all : (n : ℕ) (xs : List A) → length xs ≤ n → take n xs ≡ xs
  take_all zero [] h = refl
  take_all zero (x ∷ xs) h = absurd (omega arith)
  take_all (suc n) [] h = refl
  take_all (suc n) (x ∷ xs) h = ap (x ∷◌) (take_all n xs (omega arith))

  pub drop_all : (n : ℕ) (xs : List A) → length xs ≤ n → drop n xs ≡ []
  drop_all zero [] h = refl
  drop_all zero (x ∷ xs) h = absurd (omega arith)
  drop_all (suc n) [] h = refl
  drop_all (suc n) (x ∷ xs) h = drop_all n xs (omega arith)

  pub take-append :
      (n : ℕ) (xs ys : List A) → take n (xs ++ ys) ≡ take n xs ++ take (n - length xs) ys
  take-append zero [] ys = refl
  take-append zero (x ∷ xs) ys = ap (λ k. take k ys) {x = 0} {y = 0 - suc (length xs)} (omega arith)
  take-append (suc n) [] ys = ap (λ k. take k ys) {x = suc n} {y = suc n - 0} (omega arith)
  take-append (suc n) (x ∷ xs) ys =
      ap (x ∷◌) (take-append n xs ys)
      ∙ ap (λ k. x ∷ (take n xs ++ take k ys)) {x = n - length xs} {y = suc n - suc (length xs)}
          (omega arith)

  pub drop-append :
      (n : ℕ) (xs ys : List A) → drop n (xs ++ ys) ≡ drop n xs ++ drop (n - length xs) ys
  drop-append zero [] ys = refl
  drop-append zero (x ∷ xs) ys =
      ap (λ k. x ∷ (xs ++ drop k ys)) {x = 0} {y = 0 - suc (length xs)} (omega arith)
  drop-append (suc n) [] ys = ap (λ k. drop k ys) {x = suc n} {y = suc n - 0} (omega arith)
  drop-append (suc n) (x ∷ xs) ys =
      drop-append n xs ys
      ∙ ap (λ k. drop n xs ++ drop k ys) {x = n - length xs} {y = suc n - suc (length xs)}
          (omega arith)

  pub take-append_le : (n : ℕ) (xs ys : List A) → n ≤ length xs → take n (xs ++ ys) ≡ take n xs
  take-append_le zero xs ys h = refl
  take-append_le (suc n) [] ys h = absurd (omega arith)
  take-append_le (suc n) (x ∷ xs) ys h = ap (x ∷◌) (take-append_le n xs ys (omega arith))

  pub drop-append_le :
      (n : ℕ) (xs ys : List A) → n ≤ length xs → drop n (xs ++ ys) ≡ drop n xs ++ ys
  drop-append_le zero xs ys h = refl
  drop-append_le (suc n) [] ys h = absurd (omega arith)
  drop-append_le (suc n) (x ∷ xs) ys h = drop-append_le n xs ys (omega arith)

  pub take_split : (n m : ℕ) (xs : List A) → take (n + m) xs ≡ take n xs ++ take m (drop n xs)
  take_split zero m xs = ap (λ k. take k xs) (omega arith)
  take_split (suc n) m [] =
      ap (λ (k : ℕ). take {A = A} k []) {x = suc n + m} {y = suc (n + m)} (omega arith)
      ∙ sym (take-nil m)
  take_split (suc n) m (x ∷ xs) =
      ap (λ k. take k (x ∷ xs)) {x = suc n + m} {y = suc (n + m)} (omega arith)
      ∙ ap (x ∷◌) (take_split n m xs)

  pub drop-drop : (n m : ℕ) (xs : List A) → drop m (drop n xs) ≡ drop (n + m) xs
  drop-drop zero m xs = ap (λ k. drop k xs) (omega arith)
  drop-drop (suc n) m [] =
      drop-nil m ∙ ap (λ (k : ℕ). drop {A = A} k []) {x = suc (n + m)} {y = suc n + m} (omega arith)
  drop-drop (suc n) m (x ∷ xs) =
      drop-drop n m xs ∙ ap (λ k. drop k (x ∷ xs)) {x = suc (n + m)} {y = suc n + m} (omega arith)

  pub take-take : (n m : ℕ) (xs : List A) → n ≤ m → take n (take m xs) ≡ take n xs
  take-take zero m xs h = refl
  take-take (suc n) zero xs h = absurd (omega arith)
  take-take (suc n) (suc m) [] h = refl
  take-take (suc n) (suc m) (x ∷ xs) h = ap (x ∷◌) (take-take n m xs (omega arith))

  pub take-replicate : (n m : ℕ) (a : A) → n ≤ m → take n (replicate m a) ≡ replicate n a
  take-replicate zero m a h = refl
  take-replicate (suc n) zero a h = absurd (omega arith)
  take-replicate (suc n) (suc m) a h = ap (a ∷◌) (take-replicate n m a (omega arith))

  pub replicate_split : (n m : ℕ) (a : A) → replicate (n + m) a ≡ replicate n a ++ replicate m a
  replicate_split zero m a = ap (λ k. replicate k a) (omega arith)
  replicate_split (suc n) m a =
      ap (λ k. replicate k a) {x = suc n + m} {y = suc (n + m)} (omega arith)
      ∙ ap (a ∷◌) (replicate_split n m a)

module _ {ℓ} {A : Type ℓ} where
  pub drop-get_or :
      (k : ℕ) (xs : List A) (d : A) → k < length xs → drop k xs ≡ get_or xs k d ∷ drop (k + 1) xs
  drop-get_or k [] d h = absurd (omega arith)
  drop-get_or zero (x ∷ xs) d h = ap (λ k. x ∷ drop k (x ∷ xs)) {x = 1} {y = 0 + 1} (omega arith)
  drop-get_or (suc k) (x ∷ xs) d h =
      drop-get_or k xs d (omega arith)
      ∙ ap (λ j. get_or xs k d ∷ drop j (x ∷ xs)) {x = suc (k + 1)} {y = suc k + 1} (omega arith)

  pub take-set :
      (k : ℕ) (xs : List A) (v : A)
      → k < length xs
      → take (k + 1) (set xs k v) ≡ take k xs ++ v ∷ []
  take-set k [] v h = absurd (omega arith)
  take-set zero (x ∷ xs) v h = ap (λ k. take k (v ∷ xs)) {x = 0 + 1} {y = 1} (omega arith)
  take-set (suc k) (x ∷ xs) v h =
      ap (λ j. take j (x ∷ set xs k v)) {x = suc k + 1} {y = suc (k + 1)} (omega arith)
      ∙ ap (x ∷◌) (take-set k xs v (omega arith))

  pub drop-set : (k n : ℕ) (xs : List A) (v : A) → k < n → drop n (set xs k v) ≡ drop n xs
  drop-set k zero xs v h = absurd (omega arith)
  drop-set k (suc n) [] v h = refl
  drop-set zero (suc n) (x ∷ xs) v h = refl
  drop-set (suc k) (suc n) (x ∷ xs) v h = drop-set k n xs v (omega arith)

  pub pop_back-take : (xs : List A) → pop_back xs ≡ take (length xs - 1) xs
  pop_back-take [] = ap (λ (k : ℕ). take {A = A} k []) {x = 0} {y = 0 - 1} (omega arith)
  pop_back-take (x ∷ []) = ap (λ k. take k (x ∷ [])) {x = 0} {y = 1 - 1} (omega arith)
  pop_back-take (x ∷ y ∷ ys) =
      ap (x ∷◌) (pop_back-take (y ∷ ys))
      ∙ ap (λ k. take k (x ∷ y ∷ ys)) {x = suc (suc (length ys) - 1)}
          {y = suc (suc (length ys)) - 1} (omega arith)

  -- The first `n` elements, filled up with `a` where there are fewer.
  unfoldable pub resize : A → ℕ → List A → List A
  resize a n xs = take n xs ++ replicate (n - length xs) a

  -- The list with `ys` written over it from index `off` on.
  unfoldable pub overwrite : ℕ → List A → List A → List A
  overwrite off ys xs = take off xs ++ (ys ++ drop (off + length ys) xs)

  pub length-resize : (a : A) (n : ℕ) (xs : List A) → length (resize a n xs) ≡ n
  unfolding resize
  length-resize a n xs = omega (
    arith,
    length-append (take n xs) (replicate (n - length xs) a),
    length-take n xs,
    length-replicate (n - length xs) a,
  )

  pub resize_self : (a : A) (xs : List A) → resize a (length xs) xs ≡ xs
  unfolding resize
  resize_self a xs =
      ap (λ k. take (length xs) xs ++ replicate k a) {x = length xs - length xs} {y = 0}
        (omega arith)
      ∙ append-nil _
      ∙ take_all (length xs) xs (omega arith)

  pub resize_grow :
      (a : A) (n : ℕ) (xs : List A)
      → length xs ≤ n
      → resize a n xs ≡ xs ++ replicate (n - length xs) a
  unfolding resize
  resize_grow a n xs h = ap (λ l. l ++ replicate (n - length xs) a) (take_all n xs h)

  pub resize_shrink : (a : A) (n : ℕ) (xs : List A) → n ≤ length xs → resize a n xs ≡ take n xs
  unfolding resize
  resize_shrink a n xs h =
      ap (λ k. take n xs ++ replicate k a) {x = n - length xs} {y = 0} (omega arith)
      ∙ append-nil (take n xs)

  pub take_clamp : (n k : ℕ) (xs : List A) → k ≡ min n (length xs) → take k xs ≡ take n xs
  take_clamp zero k xs h = ap (λ j. take j xs) {x = k} {y = 0} (omega arith)
  take_clamp (suc n) k [] h = ap (λ (j : ℕ). take {A = A} j []) {x = k} {y = 0} (omega arith)
  take_clamp (suc n) zero (x ∷ xs) h = absurd (omega arith)
  take_clamp (suc n) (suc k) (x ∷ xs) h = ap (x ∷◌) (take_clamp n k xs (omega arith))

  pub take-resize : (a : A) (n m : ℕ) (xs : List A) → n ≤ m → take n (resize a m xs) ≡ resize a n xs
  unfolding resize
  take-resize a n m xs h =
      take-append n (take m xs) (replicate (m - length xs) a)
      ∙ ap (λ l. l ++ take (n - length (take m xs)) (replicate (m - length xs) a))
          (take-take n m xs h)
      ∙ ap (take n xs ++◌) (
          take-replicate (n - length (take m xs)) (m - length xs) a
            (omega (arith, length-take m xs))
          ∙ ap (λ k. replicate k a) {x = n - length (take m xs)} {y = n - length xs}
              (omega (arith, length-take m xs)))

  pub take-append_exact : (n : ℕ) (xs ys : List A) → length xs ≡ n → take n (xs ++ ys) ≡ xs
  take-append_exact n xs ys h = take-append_le n xs ys (omega arith) ∙ take_all n xs (omega arith)

  pub drop-append_exact : (n : ℕ) (xs ys : List A) → length xs ≡ n → drop n (xs ++ ys) ≡ ys
  drop-append_exact n xs ys h =
      drop-append_le n xs ys (omega arith) ∙ ap (λ l. l ++ ys) (drop_all n xs (omega arith))
