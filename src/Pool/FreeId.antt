-- ===== src/Pool/FreeId.antt =====
-- The loop of `get_free_id` (src/include/htmpfs/htmpfs.h).
use htmpfs.Prelude.{
  ℕ, zero, suc, ◌+◌, ◌<◌, ◌≤◌, ◌≡◌, ◌≢◌, ap, ◌∙◌, ◌*◌, true, false, [], ◌∷◌, length, arith, ◌==◌,
  add64, u64_mod, Bool-cases, inl, inr,
}
use htmpfs.Prelude.Map
use htmpfs.Prelude.Map.{Map, id_key}
use htmpfs.Errors.{ok}
use htmpfs.Pool.{free_id_loop, get_free_id}

module _ {V : Type 0} where
  -- The `n` ids from `a` on are all taken.
  Taken : ℕ → ℕ → Map ℕ V → Type 0
  Taken a n pool = (k : ℕ) → k < n → Map.contains (a + k) pool ≡ true

  contains-erase_ne :
      (j k : ℕ) (pool : Map ℕ V)
      → j ≢ k
      → Map.contains j pool ≡ true
      → Map.contains j (Map.erase k pool) ≡ true
  unfolding Map.contains Map.erase
  contains-erase_ne j k [] ne h = ground arith
  contains-erase_ne j k ((i, v) ∷ pool) ne h = ground (arith, contains-erase_ne j k pool)

  Taken-le-length : (n a : ℕ) (pool : Map ℕ V) → Taken a n pool → n ≤ length pool
  unfolding Taken
  Taken-le-length zero a pool t = omega arith
  Taken-le-length (suc n) a pool t =
      let rest =
        Taken-le-length n a (Map.erase (a + n) pool)
          (λ k lt. contains-erase_ne (a + k) (a + n) pool (omega arith) (t k (omega arith))) in
      omega (arith, rest, Map.length-erase_lt (a + n) pool (t n (omega arith)))

  Taken-none : (a : ℕ) (pool : Map ℕ V) → Taken a 0 pool
  unfolding Taken
  Taken-none a pool k lt = absurd (omega arith)

  Taken-step :
      (a k : ℕ) (pool : Map ℕ V)
      → Taken a k pool
      → Map.contains (a + k) pool ≡ true
      → Taken a (suc k) pool
  unfolding Taken
  Taken-step a k pool t h j lt = elim (Bool-cases (j == k)) [
    | inl e ↦ let same : j ≡ k = ground arith in rw same h
    | inr ne ↦ t j (ground arith)
  ]

  loop_taken :
      (fuel id : ℕ) (pool : Map ℕ V)
      → Map.contains id pool ≡ true
      → free_id_loop (suc fuel) id pool ≡ free_id_loop fuel (add64 id 1) pool
  unfolding free_id_loop
  loop_taken fuel id pool h = ground arith

  loop_free :
      (fuel id : ℕ) (pool : Map ℕ V)
      → Map.contains id pool ≡ false
      → free_id_loop (suc fuel) id pool ≡ ok id
  unfolding free_id_loop
  loop_free fuel id pool h = ground arith

  free_id_loop-free :
      (fuel k a : ℕ) (pool : Map ℕ V)
      → Taken a k pool
      → k + fuel ≡ suc (length pool)
      → a + length pool + 1 < u64_mod
      → (id : ℕ) × (free_id_loop fuel (a + k) pool ≡ ok id)
        × (Map.contains id pool ≡ false)
        × (id ≤ a + length pool)
  free_id_loop-free zero k a pool t e small = absurd (omega (arith, Taken-le-length k a pool t))
  free_id_loop-free (suc fuel) k a pool t e small = elim (Bool-cases (Map.contains (a + k) pool)) [
    | inl used ↦
        let next : add64 (a + k) 1 ≡ a + suc k =
          omega (arith, Taken-le-length (suc k) a pool (Taken-step a k pool t used)) in
        let (id, e', rest, bound) =
          free_id_loop-free fuel (suc k) a pool (Taken-step a k pool t used) (omega arith) small in
        (
          id,
          loop_taken fuel (a + k) pool used
              ∙ ap (λ j. free_id_loop fuel j pool) {x = add64 (a + k) 1} {y = a + suc k} next
              ∙ e',
          rest,
          bound,
        )
    | inr free ↦ (a + k, loop_free fuel (a + k) pool free, free, omega arith)
  ]

  -- In a pool below its limit and of fewer than 2 ^ 63 nodes, `get_free_id` ends with an id that no
  -- node of the pool has, and the id is at most twice the pool's size.
  pub get_free_id-free :
      (limit : ℕ) (pool : Map ℕ V)
      → length pool < limit
      → 2 * length pool + 1 < u64_mod
      → (id : ℕ) × (get_free_id limit pool ≡ ok id)
        × (Map.contains id pool ≡ false)
        × (id ≤ 2 * length pool)
  unfolding get_free_id
  get_free_id-free limit pool room small =
      let (id, e, free, bound) =
        free_id_loop-free (suc (length pool)) 0 (length pool) pool (Taken-none (length pool) pool)
          (omega arith) (omega arith) in
      (id, within e, free, omega arith)
    where
      within :
          {id : ℕ}
          → free_id_loop (suc (length pool)) (length pool + 0) pool ≡ ok id
          → get_free_id limit pool ≡ ok id
      within e =
          let room' : (length pool == limit) ≡ false = ground arith in
          rw room' (
            ap (λ k. free_id_loop (suc (length pool)) k pool) {x = length pool}
              {y = length pool + 0} (omega arith)
            ∙ e)
