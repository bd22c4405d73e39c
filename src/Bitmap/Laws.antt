-- ===== src/Bitmap/Laws.antt =====
-- `set_bit_in_map` and `get_bit_in_map` (src/htmpfs/bitmap_t.cpp).
use native.Mathlib.Nat.{div-add-mod', div-le_self}
use htmpfs.Prelude.{
  ℕ, zero, suc, ◌+◌, ◌*◌, ◌/◌, ◌%◌, ◌<◌, ◌≤◌, ◌≡◌, refl, sym, ap, ◌∙◌, subst, Bool, false,
  Bool-cases, inl, inr, some, [], ◌∷◌, arith, length, get_or, set, take, drop, ◌==◌, ==_iff,
  if◌then◌else◌, u64_mod,
}
use htmpfs.Errors.{Outcome, ok}
use htmpfs.Bitmap.{
  Bitmap, get_bit_of, change_bit, byte_of, byte_loc_in_block, byte_off_in_block, set_bit_in_map,
  get_bit_in_map,
}
use htmpfs.Bitmap.Bits.{get_bit_of-change_bit}
use htmpfs.Buffer
use htmpfs.Buffer.{Buffer}
use htmpfs.Buffer.Content.{read-slice}
use htmpfs.Pool.{Pool, get_buffer_by_id, load, store}
use htmpfs.Pool.Laws.{buffer_at, load_lem, store_lem, Updates}

slice_one :
    (data' : Buffer) (i : ℕ) → i < length data' → take 1 (drop i data') ≡ get_or data' i 0 ∷ []
slice_one [] i h = absurd (omega arith)
slice_one (b ∷ bs) zero h = refl
slice_one (b ∷ bs) (suc i) h = slice_one bs i (omega arith)

get_or-set :
    (data' : Buffer) (i k v : ℕ)
    → i < length data'
    → get_or (set data' i v) k 0 ≡ (if k == i then v else get_or data' k 0)
get_or-set [] i k v h = absurd (omega arith)
get_or-set (b ∷ bs) zero zero v h = refl
get_or-set (b ∷ bs) zero (suc k) v h = ground arith
get_or-set (b ∷ bs) (suc i) zero v h = ground arith
get_or-set (b ∷ bs) (suc i) (suc k) v h = get_or-set bs i k v (omega arith) ∙ ground arith

length-set_lem : (data' : Buffer) (i v : ℕ) → length (set data' i v) ≡ length data'
length-set_lem [] i v = refl
length-set_lem (b ∷ bs) zero v = refl
length-set_lem (b ∷ bs) (suc i) v = ap suc (length-set_lem bs i v)

clip_one : (data' : Buffer) (i : ℕ) → i < length data' → i + 1 < u64_mod → Buffer.clip data' 1 i ≡ 1
unfolding Buffer.clip
clip_one data' i h small = ground arith

write_one :
    (data' : Buffer) (i v : ℕ)
    → i < length data'
    → i + 1 < u64_mod
    → (Buffer.write data' (v ∷ []) 1 i false).1 ≡ set data' i v
unfolding Buffer.write Buffer.copy_in
write_one data' i v h small =
    ap (λ n. Buffer.copy_in (v ∷ []) i 0 n data') (clip_one data' i h small)
    ∙ ap (λ k. set data' k v) {x = i + 0} {y = i} (omega arith)

module _ (block_size : ℕ) (map : Bitmap) where
  -- The byte of a location lies in a block of the pool.
  pub record Lies (location : ℕ) (p : Pool) (block : Buffer) : Type 0 where
    pub found : buffer_at (byte_loc_in_block block_size map location) p ≡ some block
    pub inside : byte_off_in_block block_size location < length block
    pub small : byte_off_in_block block_size location + 1 < u64_mod
    pub is_byte : get_or block (byte_off_in_block block_size location) 0 < 256

  abbrev pub byte_at : ℕ → Buffer → ℕ
  byte_at location block = get_or block (byte_off_in_block block_size location) 0

  read_byte :
      (location : ℕ) (block : Buffer)
      → byte_off_in_block block_size location < length block
      → byte_off_in_block block_size location + 1 < u64_mod
      → byte_of (Buffer.read block 1 (byte_off_in_block block_size location))
        ≡ ok (byte_at location block)
  read_byte location block inside small = ap byte_of (
      read-slice block 1 (byte_off_in_block block_size location) (omega (arith, small))
      ∙ slice_one block (byte_off_in_block block_size location) inside)

  reach :
      (id : ℕ) (p : Pool) (b : Buffer)
      → buffer_at id p ≡ some b
      → get_buffer_by_id id p ≡ (ok id, p)
  unfolding get_buffer_by_id
  reach id p b e = ground arith

  get_step :
      (location v : ℕ) (p : Pool) (block : Buffer)
      → get_buffer_by_id (byte_loc_in_block block_size map location) p
        ≡ (ok (byte_loc_in_block block_size map location), p)
      → load (byte_loc_in_block block_size map location) p ≡ (ok block, p)
      → byte_of (Buffer.read block 1 (byte_off_in_block block_size location)) ≡ ok v
      → get_bit_in_map block_size map location p ≡ (ok (get_bit_of v (location % 8)), p)
  unfolding get_bit_in_map
  get_step location v p block e1 e2 e3 = rw (e1, e2, e3) refl

  get_lem :
      (location : ℕ) (p : Pool) (block : Buffer)
      → buffer_at (byte_loc_in_block block_size map location) p ≡ some block
      → byte_off_in_block block_size location < length block
      → byte_off_in_block block_size location + 1 < u64_mod
      → get_bit_in_map block_size map location p
        ≡ (ok (get_bit_of (byte_at location block) (location % 8)), p)
  get_lem location p block found inside small =
      get_step location (byte_at location block) p block
        (reach (byte_loc_in_block block_size map location) p block found)
        (load_lem (byte_loc_in_block block_size map location) p block found)
        (read_byte location block inside small)

  -- The block after a change.
  abbrev changed : ℕ → Bool → Buffer → Buffer
  changed location bit block =
      set block (byte_off_in_block block_size location)
        (change_bit bit (byte_at location block) (location % 8))

  set_step :
      (location v : ℕ) (bit : Bool) (p q : Pool) (block block' : Buffer)
      → get_buffer_by_id (byte_loc_in_block block_size map location) p
        ≡ (ok (byte_loc_in_block block_size map location), p)
      → load (byte_loc_in_block block_size map location) p ≡ (ok block, p)
      → byte_of (Buffer.read block 1 (byte_off_in_block block_size location)) ≡ ok v
      → (Buffer.write block
          (change_bit bit v (location % 8) ∷ [])
          1
          (byte_off_in_block block_size location)
          false).1
        ≡ block'
      → store (byte_loc_in_block block_size map location) block' p ≡ (ok tt, q)
      → set_bit_in_map block_size map location bit p ≡ (ok tt, q)
  unfolding set_bit_in_map
  set_step location v bit p q block block' e1 e2 e3 e4 e5 = rw (e1, e2, e3, e4, e5) refl

  set_lem :
      (location : ℕ) (bit : Bool) (p : Pool) (block : Buffer)
      → Lies location p block
      → (q : Pool) × (set_bit_in_map block_size map location bit p ≡ (ok tt, q))
        × Updates (byte_loc_in_block block_size map location) (changed location bit block) p q
  set_lem location bit p block l =
      let id : ℕ = byte_loc_in_block block_size map location in
      let v : ℕ = change_bit bit (byte_at location block) (location % 8) in
      let (q, st) = store_lem id (changed location bit block) block p l.found in
      (
        q,
        set_step location (byte_at location block) bit p q block (changed location bit block)
            (reach id p block l.found) (load_lem id p block l.found)
            (read_byte location block l.inside l.small)
            (write_one block (byte_off_in_block block_size location) v l.inside l.small) st.returns,
        st.updates,
      )

  same_place :
      (l k : ℕ)
      → l < u64_mod
      → k < u64_mod
      → map.starting_buffer_id < u64_mod
      → byte_loc_in_block block_size map k ≡ byte_loc_in_block block_size map l
      → byte_off_in_block block_size k ≡ byte_off_in_block block_size l
      → k / 8 ≡ l / 8
  same_place l k h1 h2 h3 e1 e2 =
      let a : l / 8 / block_size * block_size + l / 8 % block_size ≡ l / 8 =
        div-add-mod' (l / 8) block_size in
      let b : k / 8 / block_size * block_size + k / 8 % block_size ≡ k / 8 =
        div-add-mod' (k / 8) block_size in
      let le1 : l / 8 / block_size ≤ l / 8 = div-le_self (l / 8) block_size in
      let le2 : k / 8 / block_size ≤ k / 8 = div-le_self (k / 8) block_size in
      let same : k / 8 / block_size ≡ l / 8 / block_size =
        omega (arith, e1, le1, le2, h1, h2, h3) in
      omega (arith, a, b, e2, ap (λ n. n * block_size) same)

  differs : (k l : ℕ) (f : ℕ → ℕ) → (f k == f l) ≡ false → (k == l) ≡ false
  differs k l f h = elim (Bool-cases (k == l)) [
    | inl same ↦ absurd (ground (arith, h, ap f ((==_iff k l).0 same)))
    | inr other ↦ other
  ]

  -- The bit of one byte, at `k`, after the bit at `l` of the same block has changed.
  bit_after :
      (l k : ℕ) (bit : Bool) (p : Pool) (block : Buffer)
      → l < u64_mod
      → k < u64_mod
      → map.starting_buffer_id < u64_mod
      → byte_loc_in_block block_size map k ≡ byte_loc_in_block block_size map l
      → Lies l p block
      → get_bit_of (byte_at k (changed l bit block)) (k % 8)
        ≡ (if k == l then bit else get_bit_of (byte_at k block) (k % 8))
  bit_after l k bit p block h1 h2 h3 e lies =
      let i : ℕ = byte_off_in_block block_size l in
      let v : ℕ = change_bit bit (byte_at l block) (l % 8) in
      let byte_eq : byte_at k (changed l bit block)
          ≡ (if byte_off_in_block block_size k == i then v else byte_at k block) =
        get_or-set block i (byte_off_in_block block_size k) v lies.inside in
      elim (Bool-cases (byte_off_in_block block_size k == i)) [
        | inl here ↦
            let off_eq : byte_off_in_block block_size k ≡ i = (==_iff _ _).0 here in
            let place : k / 8 ≡ l / 8 = same_place l k h1 h2 h3 e off_eq in
            let law =
              (get_bit_of-change_bit bit (l % 8) (k % 8) (byte_at l block) (omega arith)
                (omega arith) lies.is_byte).0 in
            let first : byte_at k (changed l bit block) ≡ v = byte_eq ∙ rw here refl in
            let old : byte_at k block ≡ byte_at l block = ap (λ n. get_or block n 0) off_eq in
            let tests : (k % 8 == l % 8) ≡ (k == l) = same_test k l place in
            ap (λ n. get_bit_of n (k % 8)) first
            ∙ law
            ∙ ap (λ t. if t then bit else get_bit_of (byte_at l block) (k % 8)) tests
            ∙ ap (λ n. if k == l then bit else get_bit_of n (k % 8)) (sym old)
        | inr there ↦
            let other : (k == l) ≡ false =
              differs k l (λ n. byte_off_in_block block_size n) there in
            ap (λ n. get_bit_of n (k % 8)) {y = byte_at k block} (byte_eq ∙ rw there refl)
            ∙ rw other refl
      ]
    where
      same_test : (k l : ℕ) → k / 8 ≡ l / 8 → (k % 8 == l % 8) ≡ (k == l)
      same_test k l h = ground arith

  same_block :
      (id : ℕ) (p : Pool) (a b : Buffer) → buffer_at id p ≡ some a → buffer_at id p ≡ some b → a ≡ b
  same_block id p a b e1 e2 = some_inj (sym e1 ∙ e2)
    where
      some_inj : some a ≡ some b → a ≡ b
      some_inj e = ground (arith, e)

  -- `set_bit_in_map` of a bit whose byte lies in a block of the pool returns. What `get_bit_in_map`
  -- then answers for a location, whose byte also lies in such a block, is the new bit at the location
  -- that was set, and what it answered before everywhere else. Locations and the first buffer's id are
  -- 64-bit numbers.
  pub get_bit_in_map-set_bit_in_map :
      (l k : ℕ) (bit : Bool) (p : Pool) (block block' : Buffer)
      → l < u64_mod
      → k < u64_mod
      → map.starting_buffer_id < u64_mod
      → Lies l p block
      → Lies k p block'
      → (q : Pool) × (old : Bool) × (set_bit_in_map block_size map l bit p ≡ (ok tt, q))
        × (get_bit_in_map block_size map k p ≡ (ok old, p))
        × (get_bit_in_map block_size map k q ≡ (ok (if k == l then bit else old), q))
  get_bit_in_map-set_bit_in_map l k bit p block block' h1 h2 h3 lies lies' =
      let (q, ret, updates) = set_lem l bit p block lies in
      let old : Bool = get_bit_of (byte_at k block') (k % 8) in
      (
        q,
        old,
        ret,
        get_lem k p block' lies'.found lies'.inside lies'.small,
        elim (Bool-cases
            (byte_loc_in_block block_size map k == byte_loc_in_block block_size map l)) [
              | inl here ↦
                  let e : byte_loc_in_block block_size map k ≡ byte_loc_in_block block_size map l =
                    (==_iff _ _).0 here in
                  let same : block' ≡ block =
                    same_block (byte_loc_in_block block_size map l) p block' block
                      (subst (λ (i : ℕ). buffer_at i p ≡ some block') e lies'.found) lies.found in
                  let now : buffer_at (byte_loc_in_block block_size map k) q
                      ≡ some (changed l bit block) =
                    updates (byte_loc_in_block block_size map k) ∙ rw here refl in
                  get_lem k q (changed l bit block) now
                    (omega (
                      arith,
                      lies'.inside,
                      ap length same,
                      length-set_lem block (byte_off_in_block block_size l)
                          (change_bit bit (byte_at l block) (l % 8)),
                    ))
                    lies'.small
                  ∙ answer q (
                      bit_after l k bit p block h1 h2 h3 e lies
                      ∙ ap (λ b. if k == l then bit else get_bit_of (byte_at k b) (k % 8))
                          (sym same))
              | inr there ↦
                  let other : (k == l) ≡ false =
                    differs k l (λ n. byte_loc_in_block block_size map n) there in
                  get_lem k q block'
                    (updates (byte_loc_in_block block_size map k) ∙ rw there lies'.found)
                    lies'.inside lies'.small
                  ∙ answer q (rw other refl)
            ],
      )
    where
      answer : {a b : Bool} (q : Pool) → a ≡ b → ◌≡◌ {A = Outcome Bool × Pool} (ok a, q) (ok b, q)
      answer q e = ap {B = Outcome Bool × Pool} (λ t. (ok t, q)) e
