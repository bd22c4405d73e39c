-- ===== src/Inode/Ranges.antt =====
-- Ranges of the bytes of a file, read by pieces from its block list (`inode_t::read`,
-- src/htmpfs/htmpfs.cpp).
use native.Mathlib.Nat.{mod-lt, div-add-mod'}
use htmpfs.Prelude.{
  ℕ, zero, suc, ◌+◌, ◌-◌, ◌*◌, ◌/◌, ◌%◌, ◌≤◌, ◌<◌, ◌≡◌, ◌⊎◌, refl, sym, ap, ◌∙◌, List, [], ◌∷◌,
  ◌++◌, length, length-append, length-drop, arith, take, drop, take_all, drop_all, take-append,
  take-append_le, drop-append, drop-append_le, leb, u64_mod, Bool-cases, inl, inr, concat,
  append-nil,
}
use htmpfs.Errors.{Outcome, ok}
use htmpfs.Buffer.{Buffer}
use htmpfs.Pool.{Pool, BufferRef, Refs}
use htmpfs.Pool.Laws.{buffer_at}
use htmpfs.Blocks.{read_blocks, pieces}
use htmpfs.Blocks.View.{blocks, value, IsLive}
use htmpfs.Blocks.Layout.{IsPacked, sizes, rows, lengths}
use htmpfs.Blocks.Read.{first_long, read_piece, read_blocks-sizes, reached}
use htmpfs.Inode.Truncate.{content}

pub length-lengths : (bs : List Buffer) → length (lengths bs) ≡ length bs
length-lengths [] = refl
length-lengths (b ∷ bs) = ap suc (length-lengths bs)

pub drop-blocks : (k : ℕ) (p : Pool) (refs : Refs) → blocks p (drop k refs) ≡ drop k (blocks p refs)
drop-blocks zero p refs = refl
drop-blocks (suc k) p [] = refl
drop-blocks (suc k) p (r ∷ refs) = drop-blocks k p refs

pub IsLive-drop : (k : ℕ) (p : Pool) (refs : Refs) → IsLive p refs → IsLive p (drop k refs)
IsLive-drop zero p refs w = w
IsLive-drop (suc k) p [] w = tt
IsLive-drop (suc k) p (r ∷ refs) (b, e, n, w) = IsLive-drop k p refs w

pub IsPacked-drop : (n k : ℕ) (bs : List Buffer) → IsPacked n bs → IsPacked n (drop k bs)
IsPacked-drop n zero bs h = h
IsPacked-drop n (suc k) [] h = tt
IsPacked-drop n (suc k) (b ∷ bs) (s, e, h) = IsPacked-drop n k bs h

-- The blocks before block `k`, where there is one, hold `k` times the block size.
pub skip_blocks :
    (n full rest k o : ℕ) (bs : List Buffer)
    → lengths bs ≡ sizes n full rest
    → k < length bs
    → (length (concat bs) ≡ k * n + length (concat (drop k bs)))
      × (drop (k * n + o) (concat bs) ≡ drop o (concat (drop k bs)))
skip_blocks n full rest zero o bs e h =
    (omega arith, ap (λ i. drop i (concat bs)) {x = 0 * n + o} {y = o} (omega arith))
skip_blocks n full rest (suc k) o [] e h = absurd (omega arith)
skip_blocks n full rest (suc k) o (b ∷ []) e h = absurd (omega arith)
skip_blocks n zero zero (suc k) o (b ∷ c ∷ bs) e h = absurd (ground arith)
skip_blocks n zero (suc rest) (suc k) o (b ∷ c ∷ bs) e h = absurd (ground arith)
skip_blocks n (suc full) rest (suc k) o (b ∷ c ∷ bs) e h =
    let whole : length b ≡ n = ground arith in
    let tail : List Buffer = c ∷ bs in
    let (count, skipped) = skip_blocks n full rest k o tail (ground arith) (omega arith) in
    (
      omega (arith, count, length-append b (concat tail)),
      drop-append (suc k * n + o) b (concat tail)
          ∙ ap (λ l. l ++ drop (suc k * n + o - length b) (concat tail))
              (drop_all (suc k * n + o) b (omega arith))
          ∙ ap (λ i. drop i (concat tail)) {x = suc k * n + o - length b} {y = k * n + o}
              (omega arith)
          ∙ skipped,
    )

take_two :
    (s m : ℕ) (d rest : Buffer)
    → s ≤ length d
    → (m ≡ 0) ⊎ (s ≡ length d)
    → take (s + m) (d ++ rest) ≡ take s d ++ take m rest
take_two s m d rest h (inl nothing) =
    ap (λ k. take k (d ++ rest)) {x = s + m} {y = s} (omega arith)
    ∙ take-append_le s d rest h
    ∙ sym (append-nil (take s d))
    ∙ ap (λ k. take s d ++ take k rest) {x = 0} {y = m} (omega arith)
take_two s m d rest h (inr whole) =
    take-append (s + m) d rest
    ∙ ap (λ l. l ++ take (s + m - length d) rest)
        (take_all (s + m) d (omega arith) ∙ sym (take_all s d (omega arith)))
    ∙ ap (λ k. take s d ++ take k rest) {x = s + m - length d} {y = m} (omega arith)

-- A piece of `s` bytes in the first block, and full pieces for the `m` bytes behind it.
read_two :
    (block_size offset s m : ℕ) (r : BufferRef) (refs : Refs) (p : Pool)
    → 0 < block_size
    → block_size < u64_mod
    → IsLive p (r ∷ refs)
    → IsPacked block_size (blocks p refs)
    → offset + s ≤ length (value (buffer_at r.id p))
    → offset + s < u64_mod
    → (m ≡ 0) ⊎ (s ≡ length (value (buffer_at r.id p)) - offset)
    → m ≤ length (content p refs)
    → read_blocks offset (s ∷ rows block_size m) (r ∷ refs) p
      ≡ (ok (take (s + m) (drop offset (content p (r ∷ refs)))), p)
read_two block_size offset s m r refs p h small (b, e, o, w) k inside no_wrap split enough =
    let v : Buffer = value (buffer_at r.id p) in
    let rest : Buffer = content p refs in
    let total = div-add-mod' m block_size in
    read_piece offset s (rows block_size m) p r refs v (take m rest) (reached r.id p b e) inside
      no_wrap
      (read_blocks-sizes block_size (m / block_size) (m % block_size) refs p (mod-lt m h) small w k
          (omega (arith, total))
        ∙ ap {B = Outcome Buffer × Pool} (λ i. (ok (take i rest), p)) total)
    ∙ ap {B = Outcome Buffer × Pool} (λ l. (ok l, p))
        (sym (take_two s m (drop offset v) rest (omega (arith, length-drop offset v)) (cut v split))
          ∙ ap (take (s + m)) (sym (drop-append_le offset v rest (omega arith))))
  where
    cut : (v : Buffer) → (m ≡ 0) ⊎ (s ≡ length v - offset) → (m ≡ 0) ⊎ (s ≡ length (drop offset v))
    cut v (inl nothing) = inl nothing
    cut v (inr whole) = inr (omega (arith, length-drop offset v))

-- The pieces of a range of `n` bytes that begins inside the first block read that range.
pub read_pieces :
    (block_size offset n : ℕ) (r : BufferRef) (refs : Refs) (p : Pool)
    → offset < block_size
    → block_size < u64_mod
    → offset + n < u64_mod
    → IsLive p (r ∷ refs)
    → IsPacked block_size (blocks p (r ∷ refs))
    → offset + n ≤ length (content p (r ∷ refs))
    → read_blocks offset (pieces block_size offset n) (r ∷ refs) p
      ≡ (ok (take n (drop offset (content p (r ∷ refs)))), p)
unfolding pieces
read_pieces block_size offset n r refs p h small no_wrap w k enough =
    let v : Buffer = value (buffer_at r.id p) in
    let rest : Buffer = content p refs in
    let total : length (v ++ rest) ≡ length v + length rest = length-append v rest in
    elim (Bool-cases (leb n (block_size - offset))) [
      | inl all ↦ rw all (
          read_two block_size offset n (n - n) r refs p (omega arith) small w k.2
            (first_long block_size (offset + n) v rest k.1 (ground arith) enough) no_wrap
            (inl (omega arith)) (omega arith)
          ∙ ap {B = Outcome Buffer × Pool}
              (λ i. (ok (take i (drop offset (content p (r ∷ refs)))), p)) {x = n + (n - n)} {y = n}
              (omega arith))
      | inr more ↦
          let s : ℕ = block_size - offset in
          let over : s < n = ground arith in
          let inside = first_long block_size (offset + s) v rest k.1 (omega arith) (omega arith) in
          let whole : length v ≡ block_size = omega (arith, k.0) in
          rw more (
            read_two block_size offset s (n - s) r refs p (omega arith) small w k.2 inside
              (omega arith) (inr (omega arith)) (omega arith)
            ∙ ap {B = Outcome Buffer × Pool}
                (λ i. (ok (take i (drop offset (content p (r ∷ refs)))), p)) {x = s + (n - s)}
                {y = n} (omega arith))
    ]
