-- ===== src/Prelude/Map.antt =====
-- `std::map`: an association list whose keys are unique, with the methods that the source calls.
-- An iterator that `find` returns is read, written and erased through its key.
use Prim.Native.Nat.{ℕ, suc, ◌≤◌, ◌<◌}
use mathlib.Core.Path.{◌≡◌, refl, subst}
use mathlib.Core.Logic.{◌↔◌, ◌⊎◌, inl, inr}
use mathlib.Core.Bool.{Bool, true, false}
use mathlib.Core.Option.{Option, none, some}
use mathlib.Core.List.{List, [], ◌∷◌}
use native.Mathlib.Omega.{arith}
use htmpfs.Prelude.Tests.{Bool-cases, ◌==◌, ==_iff, if◌then◌else◌}
use htmpfs.Prelude.Lists.{length}
use htmpfs.Prelude.Bytes.{Bytes, bytes_eq, bytes_eq_iff}

-- The equivalence of keys.
pub record Key {ℓ} (K : Type ℓ) : Type ℓ where
  pub same : K → K → Bool
  pub same_iff : (a b : K) → (same a b ≡ true) ↔ (a ≡ b)

instance abbrev pub id_key : Key ℕ
id_key = record { same = ◌==◌; same_iff = ==_iff }

instance abbrev pub bytes_key : Key Bytes
bytes_key = record { same = bytes_eq; same_iff = bytes_eq_iff }

abbrev pub Map {ℓ} : Type ℓ → Type ℓ → Type ℓ
Map K V = List (K × V)

module _ {ℓ} {K V : Type ℓ} ⦃key : Key K⦄ where
  -- `find(k)`, with `none` for `end()`.
  unfoldable pub find : K → Map K V → Option V
  find k [] = none
  find k ((j, v) ∷ m) = if key.same k j then some v else find k m

  unfoldable pub contains : K → Map K V → Bool
  contains k [] = false
  contains k ((j, v) ∷ m) = if key.same k j then true else contains k m

  -- `emplace(k, v)`, which leaves a map that holds the key as it is.
  unfoldable pub emplace : K → V → Map K V → Map K V
  unfolding contains
  emplace k v m = if contains k m then m else (k, v) ∷ m

  -- A write through the iterator at `k`.
  unfoldable pub assign : K → V → Map K V → Map K V
  assign k v [] = []
  assign k v ((j, w) ∷ m) = if key.same k j then (j, v) ∷ m else (j, w) ∷ assign k v m

  -- `erase(k)`
  unfoldable pub erase : K → Map K V → Map K V
  erase k [] = []
  erase k ((j, w) ∷ m) = if key.same k j then erase k m else (j, w) ∷ erase k m

  pub contains-find : (k : K) (m : Map K V) → find k m ≡ none → contains k m ≡ false
  unfolding find contains
  contains-find k [] h = refl
  contains-find k ((j, v) ∷ m) h = ground (arith, contains-find k m)

  pub contains-find-some : (k : K) (m : Map K V) (v : V) → find k m ≡ some v → contains k m ≡ true
  unfolding find contains
  contains-find-some k [] v h = ground arith
  contains-find-some k ((j, w) ∷ m) v h = ground (arith, contains-find-some k m v)

  pub find-emplace :
      (j k : K) (v : V) (m : Map K V)
      → find k m ≡ none
      → find j (emplace k v m) ≡ (if key.same j k then some v else find j m)
  unfolding emplace find
  find-emplace j k v m h = ground (arith, contains-find k m)

  pub find-assign :
      (j k : K) (v : V) (m : Map K V) (w : V)
      → find k m ≡ some w
      → find j (assign k v m) ≡ (if key.same j k then some v else find j m)
  unfolding assign find
  find-assign j k v [] w h = ground arith
  find-assign j k v ((i, u) ∷ m) w h =
      ground (arith, find-assign j k v m w, key.same_iff j k, key.same_iff k i, key.same_iff j i)

  pub find-erase :
      (j k : K) (m : Map K V) → find j (erase k m) ≡ (if key.same j k then none else find j m)
  unfolding erase find
  find-erase j k [] = ground arith
  find-erase j k ((i, u) ∷ m) =
      ground (arith, find-erase j k m, key.same_iff j k, key.same_iff k i, key.same_iff j i)

  pub length-erase_le : (k : K) (m : Map K V) → length (erase k m) ≤ length m
  unfolding erase
  length-erase_le k [] = omega arith
  length-erase_le k ((j, v) ∷ m) = ground (arith, length-erase_le k m)

  pub length-erase_lt : (k : K) (m : Map K V) → contains k m ≡ true → length (erase k m) < length m
  unfolding erase contains
  length-erase_lt k [] h = ground arith
  length-erase_lt k ((j, v) ∷ m) h = ground (arith, length-erase_lt k m, length-erase_le k m)

  pub length-emplace :
      (k : K) (v : V) (m : Map K V) → find k m ≡ none → length (emplace k v m) ≡ suc (length m)
  unfolding emplace
  length-emplace k v m h = ground (arith, contains-find k m)

  pub length-assign : (k : K) (v : V) (m : Map K V) → length (assign k v m) ≡ length m
  unfolding assign
  length-assign k v [] = refl
  length-assign k v ((j, w) ∷ m) = ground (arith, length-assign k v m)

  -- What a lookup finds after a change: the new value, or what it found before.
  pub find-assign-some :
      (j k : K) (v : V) (m : Map K V) (x : V)
      → find j (assign k v m) ≡ some x
      → ((key.same j k ≡ true) × (x ≡ v)) ⊎ (find j m ≡ some x)
  unfolding assign find
  find-assign-some j k v [] x h = inr h
  find-assign-some j k v ((i, u) ∷ m) x h =
      ground
        (arith, find-assign-some j k v m x, key.same_iff j k, key.same_iff k i, key.same_iff j i)

  pub find-emplace-some :
      (j k : K) (v : V) (m : Map K V) (x : V)
      → find j (emplace k v m) ≡ some x
      → ((key.same j k ≡ true) × (x ≡ v)) ⊎ (find j m ≡ some x)
  unfolding emplace find
  find-emplace-some j k v m x h = ground arith

  pub find-erase-some :
      (j k : K) (m : Map K V) (x : V) → find j (erase k m) ≡ some x → find j m ≡ some x
  find-erase-some j k m x h = ground (arith, find-erase j k m)

  pub contains-assign : (j k : K) (v : V) (m : Map K V) → contains j (assign k v m) ≡ contains j m
  unfolding assign contains
  contains-assign j k v [] = refl
  contains-assign j k v ((i, u) ∷ m) = ground (arith, contains-assign j k v m)

  pub contains-emplace :
      (j k : K) (v : V) (m : Map K V) → contains j m ≡ true → contains j (emplace k v m) ≡ true
  unfolding emplace contains
  contains-emplace j k v m h = ground arith

  pub contains-erase :
      (j k : K) (m : Map K V) → key.same j k ≡ false → contains j (erase k m) ≡ contains j m
  unfolding erase contains
  contains-erase j k [] h = refl
  contains-erase j k ((i, u) ∷ m) h =
      ground (arith, contains-erase j k m, key.same_iff j k, key.same_iff k i, key.same_iff j i)

  -- `emplace` keeps what is there.
  pub find-emplace_kept :
      (j k : K) (u v : V) (m : Map K V) → find k m ≡ some v → find k (emplace j u m) ≡ some v
  unfolding emplace find
  find-emplace_kept j k u v m h = elim (Bool-cases (contains j m)) [
    | inl there ↦ rw there h
    | inr absent ↦
        let differs : key.same k j ≡ false = elim (Bool-cases (key.same k j)) [
          | inl same ↦ absurd (
              ground (
                arith,
                absent,
                subst (λ i. contains i m ≡ true) ((key.same_iff k j).0 same)
                    (contains-find-some k m v h),
              ))
          | inr other ↦ other
        ] in
        rw (absent, differs) h
  ]

  -- Writing what is there changes nothing.
  pub assign_same : (k : K) (m : Map K V) (v : V) → find k m ≡ some v → assign k v m ≡ m
  unfolding find assign
  assign_same k [] v h = refl
  assign_same k ((j, u) ∷ m) v h = ground (arith, assign_same k m v)
