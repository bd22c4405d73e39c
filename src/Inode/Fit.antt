-- ===== src/Inode/Fit.antt =====
-- The first half of `truncate`: as many blocks as the new length needs, none of them frozen.
use native.Mathlib.Nat.{
  mul-add-div_right, mul-add-mod_self_right, mod-lt, div-lt_iff_lt-mul, zero-mod,
}
use htmpfs.Prelude.{
  ℕ, zero, suc, ◌+◌, ◌-◌, ◌*◌, ◌/◌, ◌%◌, ◌≤◌, ◌<◌, ◌≡◌, refl, sym, ap, ◌∙◌, subst, true, false,
  some, List, [], ◌∷◌, ◌++◌, length, length-take, arith, take, drop, take_all, ltb, ◌==◌, u64_mod,
  mul64, Bool-cases, inl, inr, resize, replicate, append-nil, concat,
}
use htmpfs.Errors.{ok}
use htmpfs.Buffer.{Buffer}
use htmpfs.Pool.{Pool, Refs}
use htmpfs.Pool.Laws.{buffer_at, HasRoom}
use htmpfs.Blocks.{block_count, grow, lose, thaw_range}
use htmpfs.Blocks.View.{blocks, owns, IsLive, AllFit, AllThawed}
use htmpfs.Blocks.Thaw.{Thawed, thaw_range_lem}
use htmpfs.Blocks.Resize.{grow_lem, lose_lem}
use htmpfs.Blocks.Layout.{IsPacked, IsPacked-sizes, IsPacked-take, IsLaidOut, resize-take}
use htmpfs.Inode.{fit_blocks}

pub IsPacked-AllFit : (n : ℕ) (bs : List Buffer) → IsPacked n bs → AllFit n bs
IsPacked-AllFit n [] p = tt
IsPacked-AllFit n (b ∷ bs) (s, e, p) = (s, IsPacked-AllFit n bs p)

-- Nothing that the list does not own changes, or comes into its possession.
abbrev pub LeavesOthers : Pool → Refs → Pool → Refs → Type 0
LeavesOthers p refs q refs' =
    (j : ℕ) (b : Buffer)
    → buffer_at j p ≡ some b
    → owns j refs ≡ false
    → (buffer_at j q ≡ some b) × (owns j refs' ≡ false)

-- The list fits `n` bytes: as many packed blocks as they need, none frozen, with the old bytes as
-- far as they are below `n`.
pub record Fitted (block_size n : ℕ) (p : Pool) (refs : Refs) (q : Pool) (refs' : Refs)
    : Type 0 where
  pub live : IsLive q refs'
  pub thawed : AllThawed refs'
  pub packed : IsPacked block_size (blocks q refs')
  pub count : length refs' ≡ block_count block_size n
  pub bytes : resize 0 n (concat (blocks q refs')) ≡ resize 0 n (concat (blocks p refs))
  pub others : LeavesOthers p refs q refs'
  pub limit : q.max_size ≡ p.max_size
  pub size : length q.packs ≤ length p.packs + (block_count block_size n + block_count block_size n)

fit_grow :
    (block_size n : ℕ) (p q1 q : Pool) (refs refs1 refs' : Refs)
    → ltb (mul64 (length refs) block_size) n ≡ true
    → grow (block_count block_size (n - mul64 (length refs) block_size)) (p, refs)
      ≡ (ok tt, (q1, refs1))
    → thaw_range block_size 0 (length refs1) refs1 q1 ≡ (ok tt, (q, refs'))
    → fit_blocks block_size n (p, refs) ≡ (ok tt, (q, refs'))
unfolding fit_blocks
fit_grow block_size n p q1 q refs refs1 refs' e0 e1 e2 = rw (e0, e1, e2)

fit_shrink :
    (block_size n : ℕ) (p q1 q : Pool) (refs refs1 refs' : Refs)
    → ltb (mul64 (length refs) block_size) n ≡ false
    → lose (length refs - block_count block_size n) (p, refs) ≡ (ok tt, (q1, refs1))
    → thaw_range block_size 0 (block_count block_size n) refs1 q1 ≡ (ok tt, (q, refs'))
    → fit_blocks block_size n (p, refs) ≡ (ok tt, (q, refs'))
unfolding fit_blocks
fit_shrink block_size n p q1 q refs refs1 refs' e0 e1 e2 = rw (e0, e1, e2)

pub IsLaidOut-IsPacked :
    (n m : ℕ) (bs : List Buffer) → 0 < n → IsLaidOut n bs → IsPacked n (bs ++ replicate m [])
IsLaidOut-IsPacked n m bs h e =
    let size : ℕ = length (concat bs) in
    IsPacked-sizes n (size / n) (size % n) m bs (mod-lt size h) e

-- The blocks that growing appends are those that are missing.
count_grow :
    (block_size n have : ℕ)
    → 0 < block_size
    → have * block_size < n
    → have + block_count block_size (n - have * block_size) ≡ block_count block_size n
count_grow block_size n have h lt =
    let d : ℕ = n - have * block_size in
    let whole : have * block_size + d ≡ n = omega arith in
    let quot : n / block_size ≡ have + d / block_size =
      ap (λ k. k / block_size) (sym whole) ∙ mul-add-div_right h have d in
    let rem : n % block_size ≡ d % block_size =
      ap (λ k. k % block_size) (sym whole) ∙ mul-add-mod_self_right have block_size d in
    rw (quot, rem) (omega arith)

count_shrink :
    (block_size n have : ℕ)
    → 0 < block_size
    → n ≤ have * block_size
    → block_count block_size n ≤ have
count_shrink block_size n have h le = elim (Bool-cases (n % block_size == 0)) [
  | inl even ↦ rw even (let at_most : n / block_size ≤ have = grind arith in omega arith)
  | inr odd ↦ rw odd (omega (arith, (div-lt_iff_lt-mul h).1 (below odd)))
]
  where
    below : (n % block_size == 0) ≡ false → n < have * block_size
    below odd = elim (Bool-cases (n == have * block_size)) [
      | inl same ↦
          let zero_rem : n % block_size ≡ 0 =
            ap (λ k. k % block_size) {x = n} {y = have * block_size + 0} (ground arith)
            ∙ mul-add-mod_self_right have block_size 0
            ∙ zero-mod block_size in
          absurd (ground arith)
      | inr other ↦ ground arith
    ]

pub count_room : (block_size n : ℕ) → 0 < block_size → n ≤ block_count block_size n * block_size
count_room block_size n h = grind arith

concat-empties : (bs : List Buffer) (m : ℕ) → concat (bs ++ replicate m []) ≡ concat bs
concat-empties [] zero = refl
concat-empties [] (suc m) = concat-empties [] m
concat-empties (b ∷ bs) m = ap (b ++◌) (concat-empties bs m)

owns-take : (j k : ℕ) (refs : Refs) → owns j refs ≡ false → owns j (take k refs) ≡ false
owns-take j zero refs o = refl
owns-take j (suc k) [] o = refl
owns-take j (suc k) (r ∷ refs) o = ground (arith, owns-take j k refs)

-- What the reallocation adds to a list that already has its blocks.
Fitted-thaw :
    (block_size n k : ℕ) (p q1 q : Pool) (refs refs1 refs' : Refs)
    → k ≡ length refs1
    → length refs1 ≡ block_count block_size n
    → IsPacked block_size (blocks q1 refs1)
    → resize 0 n (concat (blocks q1 refs1)) ≡ resize 0 n (concat (blocks p refs))
    → LeavesOthers p refs q1 refs1
    → q1.max_size ≡ p.max_size
    → length q1.packs ≤ length p.packs + block_count block_size n
    → Thawed k q1 refs1 q refs'
    → AllThawed (take k (drop 0 refs'))
    → Fitted block_size n p refs q refs'
Fitted-thaw block_size n k p q1 q refs refs1 refs' all count packed bytes others limit size t un =
    record {
      live = t.live;
      thawed = subst AllThawed (take_all k refs' (omega (arith, t.count))) un;
      packed = rw t.same packed;
      count = t.count ∙ count;
      bytes = ap (λ l. resize 0 n (concat l)) t.same ∙ bytes;
      others =
          λ j b e o. let (e1, o1) = others j b e o in (t.extends j b e1, (t.apart j b e1).1 o1);
      limit = t.limit ∙ limit;
      size = omega (arith, t.size);
    }

module _ (block_size n : ℕ) (p : Pool) (refs : Refs) (h : 0 < block_size)
    (small : block_size < u64_mod) (fits : length refs * block_size < u64_mod) (w : IsLive p refs)
    (laid : IsLaidOut block_size (blocks p refs))
    (room : HasRoom (block_count block_size n + block_count block_size n) p) where
  IsPacked-padded : (m : ℕ) → IsPacked block_size (blocks p refs ++ replicate m [])
  IsPacked-padded m = IsLaidOut-IsPacked block_size m (blocks p refs) h laid

  IsPacked-blocks : IsPacked block_size (blocks p refs)
  IsPacked-blocks = subst (IsPacked block_size) (append-nil (blocks p refs)) (IsPacked-padded 0)

  -- What `fit_blocks` returns.
  abbrev pub Fits : Type 0
  Fits =
      (q : Pool) × (refs' : Refs) × (fit_blocks block_size n (p, refs) ≡ (ok tt, (q, refs')))
      × Fitted block_size n p refs q refs'

  grow_case : ltb (mul64 (length refs) block_size) n ≡ true → Fits
  grow_case more =
      let m : ℕ = block_count block_size (n - mul64 (length refs) block_size) in
      let total : length refs + m ≡ block_count block_size n =
        ap (λ k. length refs + block_count block_size (n - k)) {x = mul64 (length refs) block_size}
          {y = length refs * block_size} (omega arith)
        ∙ count_grow block_size n (length refs) h (ground arith) in
      let (q1, refs1, ret1, g) =
        grow_lem m p refs w (record { below_limit = omega arith; small = omega arith }) in
      let packed : IsPacked block_size (blocks q1 refs1) =
        subst (IsPacked block_size) (sym g.bytes) (IsPacked-padded m) in
      let (q, refs', ret2, t, un) =
        thaw_range_lem block_size small 0 (length refs1) refs1 q1 (omega arith) g.live
          (IsPacked-AllFit block_size (blocks q1 refs1) packed)
          (record {
            below_limit = omega (arith, g.size, g.limit, g.count);
            small = omega (arith, g.size, g.count);
          }) in
      (
        q,
        refs',
        fit_grow block_size n p q1 q refs refs1 refs' more ret1 ret2,
        Fitted-thaw block_size n (length refs1) p q1 q refs refs1 refs' refl (g.count ∙ total)
            packed
            (ap (λ l. resize 0 n (concat l)) g.bytes
              ∙ ap (resize 0 n) (concat-empties (blocks p refs) m))
            (λ j b e o. (g.extends j b e, (g.apart j b e).1 o)) g.limit (omega (arith, g.size)) t
            un,
      )

  shrink_case : ltb (mul64 (length refs) block_size) n ≡ false → Fits
  shrink_case fewer =
      let k : ℕ = block_count block_size n in
      let within : n ≤ length refs * block_size =
        let no_wrap : mul64 (length refs) block_size ≡ length refs * block_size = omega arith in
        ground arith in
      let some_left : k ≤ length refs = count_shrink block_size n (length refs) h within in
      let left : length refs - (length refs - k) ≡ k = omega arith in
      let (q1, refs1, ret1, l) = lose_lem (length refs - k) p refs (omega arith) w in
      let kept : refs1 ≡ take k refs = l.kept ∙ ap (λ i. take i refs) left in
      let bytes : blocks q1 refs1 ≡ take k (blocks p refs) =
        l.bytes ∙ ap (λ i. take i (blocks p refs)) left in
      let count : length refs1 ≡ k = ap length kept ∙ omega (arith, length-take k refs) in
      let packed : IsPacked block_size (blocks q1 refs1) =
        subst (IsPacked block_size) (sym bytes)
          (IsPacked-take block_size k (blocks p refs) IsPacked-blocks) in
      let (q, refs', ret2, t, un) =
        thaw_range_lem block_size small 0 k refs1 q1 (omega arith) l.live
          (IsPacked-AllFit block_size (blocks q1 refs1) packed)
          (record {
            below_limit = omega (arith, l.size, l.limit);
            small = omega (arith, l.size);
          }) in
      (
        q,
        refs',
        fit_shrink block_size n p q1 q refs refs1 refs' fewer ret1 ret2,
        Fitted-thaw block_size n k p q1 q refs refs1 refs' (sym count) count packed
            (ap (λ l. resize 0 n (concat l)) bytes
              ∙ resize-take block_size k n (blocks p refs) IsPacked-blocks
                  (count_room block_size n h))
            (λ j b e o.
              (l.others j o ∙ e, subst (λ r. owns j r ≡ false) (sym kept) (owns-take j k refs o)))
            l.limit (omega (arith, l.size)) t un,
      )

  pub fit_blocks_lem : Fits
  fit_blocks_lem = elim (Bool-cases (ltb (mul64 (length refs) block_size) n)) [
    | inl more ↦ grow_case more
    | inr fewer ↦ shrink_case fewer
  ]
