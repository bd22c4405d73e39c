-- ===== src/Blocks/Layout.antt =====
-- How the bytes of a file lie in its blocks: full blocks, then a last one with the rest. These are
-- facts about byte lists; no pool is involved.
use htmpfs.Prelude.{
  ℕ, zero, suc, ◌+◌, ◌-◌, ◌*◌, ◌/◌, ◌%◌, ◌≤◌, ◌<◌, ◌≡◌, ◌⊎◌, refl, sym, ap, ◌∙◌, List, [], ◌∷◌,
  ◌++◌, length, length-append, length-replicate, arith, take, take_all, take-append, take-append_le,
  ◌==◌, leb, if◌then◌else◌, Bool-cases, inl, inr, resize, resize_grow, resize_shrink, replicate,
  replicate_split, append-nil, append_assoc, concat, length-resize,
}
use htmpfs.Buffer.{Buffer}
use htmpfs.Blocks.{block_count, last_piece, pieces}
use htmpfs.Blocks.Resize.{resize_each}

-- The sizes of `full` full blocks and a last one of `rest` bytes, if there are any.
abbrev pub sizes : ℕ → ℕ → ℕ → List ℕ
sizes block_size full rest = replicate full block_size ++ last_piece rest

-- The sizes of the blocks that hold `n` bytes.
abbrev pub rows : ℕ → ℕ → List ℕ
rows block_size n = sizes block_size (n / block_size) (n % block_size)

abbrev pub lengths : List Buffer → List ℕ
lengths [] = []
lengths (b ∷ bs) = length b ∷ lengths bs

-- The blocks are as full as they can be.
abbrev pub IsLaidOut : ℕ → List Buffer → Type 0
IsLaidOut block_size bs = lengths bs ≡ rows block_size (length (concat bs))

-- No block is too long, and behind one that is not full there is nothing.
abbrev pub IsPacked : ℕ → List Buffer → Type 0
IsPacked n [] = Unit {0}
IsPacked n (b ∷ bs) = (length b ≤ n) × ((length b ≡ n) ⊎ (concat bs ≡ [])) × IsPacked n bs

concat-empties : (m : ℕ) → concat (replicate {A = Buffer} m []) ≡ []
concat-empties zero = refl
concat-empties (suc m) = concat-empties m

IsPacked-empties : (n m : ℕ) → IsPacked n (replicate m [])
IsPacked-empties n zero = tt
IsPacked-empties n (suc m) = (omega arith, inr (concat-empties m), IsPacked-empties n m)

-- Blocks of such sizes, with empty ones behind them, are packed.
pub IsPacked-sizes :
    (n full rest m : ℕ) (bs : List Buffer)
    → rest < n
    → lengths bs ≡ sizes n full rest
    → IsPacked n (bs ++ replicate m [])
IsPacked-sizes n zero zero m [] h e = IsPacked-empties n m
IsPacked-sizes n zero zero m (b ∷ bs) h e = absurd (ground arith)
IsPacked-sizes n zero (suc rest) m [] h e = absurd (ground arith)
IsPacked-sizes n zero (suc rest) m (b ∷ []) h e =
    (ground arith, inr (concat-empties m), IsPacked-empties n m)
IsPacked-sizes n zero (suc rest) m (b ∷ c ∷ bs) h e = absurd (ground arith)
IsPacked-sizes n (suc full) rest m [] h e = absurd (ground arith)
IsPacked-sizes n (suc full) rest m (b ∷ bs) h e =
    (ground arith, inl (ground arith), IsPacked-sizes n full rest m bs h (ground arith))

resize-append :
    (n m : ℕ) (b xs : Buffer) → length b ≡ n → resize 0 (n + m) (b ++ xs) ≡ b ++ resize 0 m xs
unfolding resize
resize-append n m b xs h =
    ap (λ l. l ++ replicate (n + m - length (b ++ xs)) 0)
      (take-append (n + m) b xs
        ∙ ap (λ l. l ++ take (n + m - length b) xs) (take_all (n + m) b (omega arith))
        ∙ ap (λ k. b ++ take k xs) {x = n + m - length b} {y = m} (omega arith))
    ∙ append_assoc b (take m xs) (replicate (n + m - length (b ++ xs)) 0)
    ∙ ap (λ k. b ++ (take m xs ++ replicate k 0)) {x = n + m - length (b ++ xs)} {y = m - length xs}
        (omega (arith, length-append b xs))

resize_split :
    (n m : ℕ) (b : Buffer) → length b ≤ n → resize 0 (n + m) b ≡ resize 0 n b ++ replicate m 0
resize_split n m b h =
    resize_grow 0 (n + m) b (omega arith)
    ∙ ap (λ k. b ++ replicate k 0) {x = n + m - length b} {y = n - length b + m} (omega arith)
    ∙ ap (b ++◌) (replicate_split (n - length b) m 0)
    ∙ sym (append_assoc b (replicate (n - length b) 0) (replicate m 0))
    ∙ ap (λ l. l ++ replicate m 0) (sym (resize_grow 0 n b h))

resize-nil : (m : ℕ) → resize {A = ℕ} 0 m [] ≡ replicate m 0
resize-nil m =
    resize_grow 0 m [] (omega arith) ∙ ap (λ k. replicate k 0) {x = m - 0} {y = m} (omega arith)

pub last_piece-suc : (rest : ℕ) → last_piece (suc rest) ≡ suc rest ∷ []
last_piece-suc rest = ground arith

last_piece-pos : (n : ℕ) → 0 < n → last_piece n ≡ n ∷ []
last_piece-pos zero h = absurd (omega arith)
last_piece-pos (suc n) h = last_piece-suc n

resize_whole : (n : ℕ) (b : Buffer) → length b ≡ n → resize 0 n b ≡ b
resize_whole n b h = resize_shrink 0 n b (omega arith) ∙ take_all n b (omega arith)

-- The bytes of resized blocks are the resized bytes, where the blocks are packed and as many as the
-- sizes.
pub resize_each-sizes :
    (n full rest : ℕ) (bs : List Buffer)
    → rest < n
    → IsPacked n bs
    → length bs ≡ length (sizes n full rest)
    → concat (resize_each (sizes n full rest) bs) ≡ resize 0 (full * n + rest) (concat bs)
resize_each-sizes n zero zero [] h p e =
    sym (ap (λ k. resize 0 k []) {x = 0 * n + 0} {y = 0} (omega arith) ∙ resize-nil 0)
resize_each-sizes n zero zero (b ∷ bs) h p e = absurd (ground arith)
resize_each-sizes n zero (suc rest) [] h p e = absurd (ground arith)
resize_each-sizes n zero (suc rest) (b ∷ []) h p e =
    rw last_piece-suc (append-nil (resize 0 (suc rest) b))
    ∙ ap (λ k. resize 0 k b) {x = suc rest} {y = 0 * n + suc rest} (omega arith)
    ∙ ap (resize 0 (0 * n + suc rest)) (sym (append-nil b))
resize_each-sizes n zero (suc rest) (b ∷ c ∷ bs) h p e = absurd (ground arith)
resize_each-sizes n (suc full) rest [] h p e = absurd (ground arith)
resize_each-sizes n (suc full) rest (b ∷ bs) h (short, inl whole, p) e =
    let m : ℕ = full * n + rest in
    ap (resize 0 n b ++◌) (resize_each-sizes n full rest bs h p (ground arith))
    ∙ ap (λ l. l ++ resize 0 m (concat bs)) (resize_whole n b whole)
    ∙ sym (resize-append n m b (concat bs) whole)
    ∙ ap (λ k. resize 0 k (b ++ concat bs)) {x = n + m} {y = suc full * n + rest} (omega arith)
resize_each-sizes n (suc full) rest (b ∷ bs) h (short, inr nothing, p) e =
    let m : ℕ = full * n + rest in
    ap (resize 0 n b ++◌)
      (resize_each-sizes n full rest bs h p (ground arith) ∙ ap (resize 0 m) nothing ∙ resize-nil m)
    ∙ sym (resize_split n m b short)
    ∙ ap (λ k. resize 0 k b) {x = n + m} {y = suc full * n + rest} (omega arith)
    ∙ ap (resize 0 (suc full * n + rest)) (sym (append-nil b) ∙ ap (b ++◌) (sym nothing))

pub lengths-resize_each :
    (ns : List ℕ) (bs : List Buffer) → length bs ≡ length ns → lengths (resize_each ns bs) ≡ ns
lengths-resize_each [] [] h = refl
lengths-resize_each [] (b ∷ bs) h = absurd (omega arith)
lengths-resize_each (n ∷ ns) [] h = absurd (omega arith)
lengths-resize_each (n ∷ ns) (b ∷ bs) h =
    ground (arith, length-resize 0 n b, lengths-resize_each ns bs)

pub rows-zero : (block_size : ℕ) → 0 < block_size → rows block_size 0 ≡ []
rows-zero block_size h =
    ap (λ k. sizes block_size k (0 % block_size)) {x = 0 / block_size} {y = 0} (grind arith)
    ∙ ap last_piece {x = 0 % block_size} {y = 0} (grind arith)

pub rows-cons :
    (block_size n : ℕ)
    → 0 < block_size
    → block_size ≤ n
    → rows block_size n ≡ block_size ∷ rows block_size (n - block_size)
rows-cons block_size n h le =
    ap (λ k. sizes block_size k (n % block_size)) {x = n / block_size}
      {y = suc ((n - block_size) / block_size)} (grind arith)
    ∙ ap (λ k. block_size ∷ sizes block_size ((n - block_size) / block_size) k) {x = n % block_size}
        {y = (n - block_size) % block_size} (grind arith)

pub rows_short :
    (block_size n : ℕ) → 0 < block_size → 0 < n → n ≤ block_size → rows block_size n ≡ n ∷ []
rows_short block_size n h pos le = elim (Bool-cases (n == block_size)) [
  | inl same ↦
      rows-cons block_size n h (ground arith)
      ∙ ap (λ k. block_size ∷ rows block_size k) {x = n - block_size} {y = 0} (ground arith)
      ∙ ap (block_size ∷◌) (rows-zero block_size h)
      ∙ ap (λ k. k ∷ []) {x = block_size} {y = n} (ground arith)
  | inr less ↦
      let below : n < block_size = ground arith in
      ap (λ k. sizes block_size k (n % block_size)) {x = n / block_size} {y = 0} (grind arith)
      ∙ ap last_piece {x = n % block_size} {y = n} (grind arith)
      ∙ last_piece-pos n pos
]

-- `truncate`'s computation of the operations on a file of `n` bytes gives the sizes of its blocks.
pub pieces-rows :
    (block_size n : ℕ) → 0 < block_size → 0 < n → pieces block_size 0 n ≡ rows block_size n
unfolding pieces
pieces-rows block_size n h pos = elim (Bool-cases (leb n (block_size - 0))) [
  | inl all ↦ rw all (
      ap (λ k. n ∷ rows block_size k) {x = n - n} {y = 0} (omega arith)
      ∙ ap (n ∷◌) (rows-zero block_size h)
      ∙ sym (rows_short block_size n h pos (ground arith)))
  | inr more ↦ rw more (
      ap (λ k. k ∷ rows block_size (n - k)) {x = block_size - 0} {y = block_size} (omega arith)
      ∙ sym (rows-cons block_size n h (ground arith)))
]

length-last_piece : (n : ℕ) → length (last_piece n) ≡ (if n == 0 then 0 else 1)
length-last_piece n = ground arith

pub length-rows : (block_size n : ℕ) → length (rows block_size n) ≡ block_count block_size n
length-rows block_size n =
    length-append (replicate full block_size) (last_piece (n % block_size))
    ∙ ap (λ k. k + length (last_piece (n % block_size))) (length-replicate full block_size)
    ∙ ap (full +◌) (length-last_piece (n % block_size))
  where
    full : ℕ
    full = n / block_size

pub concat-take_nil : (k : ℕ) (bs : List Buffer) → concat bs ≡ [] → concat (take k bs) ≡ []
concat-take_nil zero bs h = refl
concat-take_nil (suc k) [] h = refl
concat-take_nil (suc k) ([] ∷ bs) h = concat-take_nil k bs h
concat-take_nil (suc k) ((x ∷ b) ∷ bs) h = cc

pub IsPacked-take : (n k : ℕ) (bs : List Buffer) → IsPacked n bs → IsPacked n (take k bs)
IsPacked-take n zero bs p = tt
IsPacked-take n (suc k) [] p = tt
IsPacked-take n (suc k) (b ∷ bs) (s, inl w, p) = (s, inl w, IsPacked-take n k bs p)
IsPacked-take n (suc k) (b ∷ bs) (s, inr e, p) =
    (s, inr (concat-take_nil k bs e), IsPacked-take n k bs p)

pub resize_none : (m : ℕ) (xs : Buffer) → m ≡ 0 → resize 0 m xs ≡ []
resize_none m xs h = ap (λ k. resize 0 k xs) {x = m} {y = 0} h ∙ resize_shrink 0 0 xs (omega arith)

resize_inside : (m : ℕ) (b xs : Buffer) → m ≤ length b → resize 0 m (b ++ xs) ≡ take m b
resize_inside m b xs h =
    resize_shrink 0 m (b ++ xs) (omega (arith, length-append b xs)) ∙ take-append_le m b xs h

-- Dropping the last blocks loses no byte below `m`, if the rest has room for `m` bytes.
pub resize-take :
    (n k m : ℕ) (bs : List Buffer)
    → IsPacked n bs
    → m ≤ k * n
    → resize 0 m (concat (take k bs)) ≡ resize 0 m (concat bs)
resize-take n zero m bs p h =
    resize_none m [] (omega arith) ∙ sym (resize_none m (concat bs) (omega arith))
resize-take n (suc k) m [] p h = refl
resize-take n (suc k) m (b ∷ bs) (s, inl whole, p) h = elim (Bool-cases (leb m n)) [
  | inl inside ↦
      let fits : m ≤ length b = ground arith in
      resize_inside m b (concat (take k bs)) fits ∙ sym (resize_inside m b (concat bs) fits)
  | inr beyond ↦
      let over : n ≤ m = ground arith in
      let room : m - n ≤ k * n = omega arith in
      ap (λ j. resize 0 j (b ++ concat (take k bs))) {x = m} {y = n + (m - n)} (omega arith)
      ∙ resize-append n (m - n) b (concat (take k bs)) whole
      ∙ ap (b ++◌) (resize-take n k (m - n) bs p room)
      ∙ sym (resize-append n (m - n) b (concat bs) whole)
      ∙ ap (λ j. resize 0 j (b ++ concat bs)) {x = n + (m - n)} {y = m} (omega arith)
]
resize-take n (suc k) m (b ∷ bs) (s, inr e, p) h =
    ap (λ l. resize 0 m (b ++ l)) (concat-take_nil k bs e ∙ sym e)
