-- ===== src/Blocks/Overwrite.antt =====
-- The bytes of the blocks that the pieces of a resizing write leave. These are facts about byte
-- lists; no pool is involved.
use native.Mathlib.Nat.{div-add-mod'}
use htmpfs.Prelude.{
  ℕ, zero, suc, ◌+◌, ◌-◌, ◌*◌, ◌/◌, ◌%◌, ◌≤◌, ◌<◌, ◌≡◌, refl, sym, ap, ◌∙◌, List, [], ◌∷◌, ◌++◌,
  append_assoc, concat, arith, length, length-drop, take, drop, take-append_le, take_split,
  length-append, length-take, length-resize, leb, if◌then◌else◌, Bool-cases, inl, inr, resize,
  resize_shrink,
}
use htmpfs.Buffer.{Buffer}
use htmpfs.Blocks.{pieces}
use htmpfs.Blocks.Layout.{sizes, rows, lengths, rows-cons, rows-zero, rows_short, resize_none}
use htmpfs.Blocks.Read.{take_past}
use htmpfs.Blocks.Write.{total, write_each, write_from}

-- Whole blocks are replaced by the bytes.
concat-write_each :
    (ns : List ℕ) (buffer : Buffer) (bs : List Buffer)
    → lengths bs ≡ ns
    → concat (write_each 0 ns buffer bs) ≡ take (total ns) buffer
concat-write_each [] buffer [] e = refl
concat-write_each [] buffer (b ∷ bs) e = absurd (ground arith)
concat-write_each (n ∷ ns) buffer [] e = absurd (ground arith)
concat-write_each (n ∷ ns) buffer (b ∷ bs) e =
    ap (λ l. (l ++ take n buffer) ++ concat (write_each 0 ns (drop n buffer) bs))
      (resize_none 0 b refl)
    ∙ ap (take n buffer ++◌) (concat-write_each ns (drop n buffer) bs (ground arith))
    ∙ sym (take_split n (total ns) buffer)

lengths-write_each :
    (ns : List ℕ) (buffer : Buffer) (bs : List Buffer)
    → lengths bs ≡ ns
    → total ns ≤ length buffer
    → lengths (write_each 0 ns buffer bs) ≡ ns
lengths-write_each [] buffer bs e h = e
lengths-write_each (n ∷ ns) buffer [] e h = absurd (ground arith)
lengths-write_each (n ∷ ns) buffer (b ∷ bs) e h =
    let count : length (resize 0 0 b ++ take n buffer) ≡ n = omega (
      arith,
      length-append (resize 0 0 b) (take n buffer),
      length-resize 0 0 b,
      length-take n buffer,
    ) in
    let rest : lengths (write_each 0 ns (drop n buffer) bs) ≡ ns =
      lengths-write_each ns (drop n buffer) bs (ground arith)
        (omega (arith, length-drop n buffer)) in
    cc

total-sizes : (n full rest : ℕ) → total (sizes n full rest) ≡ full * n + rest
total-sizes n zero rest = ground arith
total-sizes n (suc full) rest = omega (arith, total-sizes n full rest)

pub total-rows : (n m : ℕ) → total (rows n m) ≡ m
total-rows n m = total-sizes n (m / n) (m % n) ∙ div-add-mod' m n

-- The first block keeps its bytes before the offset.
write_each-first :
    (offset n : ℕ) (ns : List ℕ) (buffer : Buffer) (bs : List Buffer)
    → lengths bs ≡ (offset + n) ∷ ns
    → n + total ns ≤ length buffer
    → (concat (write_each offset (n ∷ ns) buffer bs)
        ≡ take offset (concat bs) ++ take (n + total ns) buffer)
      × (lengths (write_each offset (n ∷ ns) buffer bs) ≡ lengths bs)
write_each-first offset n ns buffer [] e h = absurd (ground arith)
write_each-first offset n ns buffer (b ∷ bs) e h =
    let long : length b ≡ offset + n = ground arith in
    let front : resize 0 offset b ≡ take offset (b ++ concat bs) =
      resize_shrink 0 offset b (omega arith)
      ∙ sym (take-append_le offset b (concat bs) (omega arith)) in
    let tail : lengths bs ≡ ns = ground arith in
    let count : length (resize 0 offset b ++ take n buffer) ≡ offset + n = omega (
      arith,
      length-append (resize 0 offset b) (take n buffer),
      length-resize 0 offset b,
      length-take n buffer,
    ) in
    let rest : lengths (write_each 0 ns (drop n buffer) bs) ≡ ns =
      lengths-write_each ns (drop n buffer) bs tail (omega (arith, length-drop n buffer)) in
    (
      ap ((resize 0 offset b ++ take n buffer) ++◌) (concat-write_each ns (drop n buffer) bs tail)
          ∙ append_assoc (resize 0 offset b) (take n buffer) (take (total ns) (drop n buffer))
          ∙ ap (resize 0 offset b ++◌) (sym (take_split n (total ns) buffer))
          ∙ ap (λ l. l ++ take (n + total ns) buffer) front,
      cc,
    )

-- The sizes of the blocks from the starting block on, by the pieces of a range in them.
rows-pieces :
    (n offset s len : ℕ)
    → offset < n
    → 0 < len
    → s ≡ (if leb len (n - offset) then len else n - offset)
    → rows n (offset + len) ≡ (offset + s) ∷ rows n (len - s)
rows-pieces n offset s len h pos e = elim (Bool-cases (leb len (n - offset))) [
  | inl all ↦
      let s_eq : s ≡ len = ground arith in
      rows_short n (offset + len) (omega arith) (omega arith) (ground arith)
      ∙ ap (λ k. k ∷ []) {x = offset + len} {y = offset + s} (omega arith)
      ∙ ap ((offset + s) ∷◌) (sym (rows-zero n (omega arith)))
      ∙ ap (λ k. (offset + s) ∷ rows n k) {x = 0} {y = len - s} (omega arith)
  | inr more ↦
      let s_eq : s ≡ n - offset = ground arith in
      let over : n - offset < len = ground arith in
      rows-cons n (offset + len) (omega arith) (omega arith)
      ∙ ap (λ k. k ∷ rows n (offset + len - n)) {x = n} {y = offset + s} (omega arith)
      ∙ ap (λ k. (offset + s) ∷ rows n k) {x = offset + len - n} {y = len - s} (omega arith)
]

-- Writing the pieces of `len` bytes at `k * n + offset`, into blocks laid out for a file that ends
-- there, keeps the bytes before and the sizes.
pub write_from-pieces :
    (n k offset len : ℕ) (buffer : Buffer) (bs : List Buffer)
    → offset < n
    → 0 < len
    → len ≤ length buffer
    → lengths bs ≡ rows n (k * n + (offset + len))
    → (concat (write_from k offset (pieces n offset len) buffer bs)
        ≡ take (k * n + offset) (concat bs) ++ take len buffer)
      × (lengths (write_from k offset (pieces n offset len) buffer bs) ≡ lengths bs)
unfolding pieces
write_from-pieces n zero offset len buffer bs h pos enough e =
    let s : ℕ = if leb len (n - offset) then len else n - offset in
    let fits : s ≤ len = ground arith in
    let whole : s + total (rows n (len - s)) ≡ len = omega (arith, total-rows n (len - s)) in
    let (bytes, sizes_same) =
      write_each-first offset s (rows n (len - s)) buffer bs
        (e
          ∙ ap (rows n) {x = 0 * n + (offset + len)} {y = offset + len} (omega arith)
          ∙ rows-pieces n offset s len h pos refl)
        (omega arith) in
    (
      bytes
          ∙ ap (λ m. take m (concat bs) ++ take (s + total (rows n (len - s))) buffer) {x = offset}
              {y = 0 * n + offset} (omega arith)
          ∙ ap (λ m. take (0 * n + offset) (concat bs) ++ take m buffer) whole,
      sizes_same,
    )
write_from-pieces n (suc k) offset len buffer [] h pos enough e =
    let none_left : [] ≡ n ∷ rows n (suc k * n + (offset + len) - n) =
      e ∙ rows-cons n (suc k * n + (offset + len)) (omega arith) (omega arith) in
    absurd (ground arith)
write_from-pieces n (suc k) offset len buffer (b ∷ bs) h pos enough e =
    let m : ℕ = k * n + (offset + len) in
    let split : length b ∷ lengths bs ≡ n ∷ rows n m =
      e
      ∙ rows-cons n (suc k * n + (offset + len)) (omega arith) (omega arith)
      ∙ ap (λ j. n ∷ rows n j) {x = suc k * n + (offset + len) - n} {y = m} (omega arith) in
    let long : length b ≡ n = ground arith in
    let (bytes, sizes_same) =
      write_from-pieces n k offset len buffer bs h pos enough (ground arith) in
    (
      ap (b ++◌) bytes
          ∙ sym (append_assoc b (take (k * n + offset) (concat bs)) (take len buffer))
          ∙ ap (λ l. l ++ take len buffer)
              (sym (take_past b (concat bs) (k * n + offset) (suc k * n + offset) (omega arith))),
      ap (length b ∷◌) sizes_same,
    )

-- The pieces are as many as the blocks from the starting one on.
pub length-rows-pieces :
    (n k offset len : ℕ)
    → offset < n
    → 0 < len
    → length (rows n (k * n + (offset + len))) ≡ k + length (pieces n offset len)
unfolding pieces
length-rows-pieces n zero offset len h pos =
    ap (λ m. length (rows n m)) {x = 0 * n + (offset + len)} {y = offset + len} (omega arith)
    ∙ ap length
        (rows-pieces n offset (if leb len (n - offset) then len else n - offset) len h pos refl)
    ∙ omega arith
length-rows-pieces n (suc k) offset len h pos =
    ap length (rows-cons n (suc k * n + (offset + len)) (omega arith) (omega arith))
    ∙ ap (λ j. suc (length (rows n j))) {x = suc k * n + (offset + len) - n}
        {y = k * n + (offset + len)} (omega arith)
    ∙ ap suc (length-rows-pieces n k offset len h pos)
    ∙ omega arith
