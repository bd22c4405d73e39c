-- ===== src/Inode/Read.antt =====
-- The loop of `inode_t::read` (src/htmpfs/htmpfs.cpp) on the list of a version.
use native.Mathlib.Nat.{mod-lt, div-add-mod', div-lt_iff_lt-mul}
use htmpfs.Prelude.{
  ℕ, ◌+◌, ◌-◌, ◌*◌, ◌/◌, ◌%◌, ◌≤◌, ◌<◌, ◌≡◌, ◌≢◌, ◌⊎◌, refl, sym, ap, ◌∙◌, subst, true, false, List,
  [], ◌∷◌, length, length-drop, arith, take, drop, drop_all, take_clamp, take-nil, leb, ltb,
  if◌then◌else◌, u64_mod, Bool-cases, inl, inr, concat, append-nil, min,
}
use htmpfs.Errors.{Outcome, ok, throws, out_of_range}
use htmpfs.Buffer.{Buffer}
use htmpfs.Pool.{Pool, Refs}
use htmpfs.Blocks.{data_size, read_blocks, pieces, block_count}
use htmpfs.Blocks.View.{blocks, IsLive, length-blocks}
use htmpfs.Blocks.Layout.{IsPacked, length-rows}
use htmpfs.Blocks.Read.{data_size-length}
use htmpfs.Inode.{read_list, clip_size}
use htmpfs.Inode.Fit.{IsLaidOut-IsPacked, count_room}
use htmpfs.Inode.Truncate.{content, IsFile}
use htmpfs.Inode.Ranges.{
  length-lengths, drop-blocks, IsLive-drop, IsPacked-drop, skip_blocks, read_pieces,
}

-- Where the range begins in a block of the file.
start_in :
    (block_size size offset : ℕ)
    → 0 < block_size
    → offset ≤ size
    → (offset ≢ size) ⊎ (size % block_size ≢ 0)
    → offset / block_size < block_count block_size size
start_in block_size size offset h le apart = (div-lt_iff_lt-mul h).1 (inside apart)
  where
    inside :
        (offset ≢ size) ⊎ (size % block_size ≢ 0)
        → offset < block_count block_size size * block_size
    inside (inl other) =
        let below : offset < size = grind arith in omega (arith, count_room block_size size h)
    inside (inr odd) = grind arith

-- The same for any list that has a block.
read_some :
    (block_size offset n : ℕ) (refs : Refs) (p : Pool)
    → 0 < length refs
    → offset < block_size
    → block_size < u64_mod
    → offset + n < u64_mod
    → IsLive p refs
    → IsPacked block_size (blocks p refs)
    → offset + n ≤ length (content p refs)
    → read_blocks offset (pieces block_size offset n) refs p
      ≡ (ok (take n (drop offset (content p refs))), p)
read_some block_size offset n [] p some_block h small no_wrap w k enough = absurd (omega arith)
read_some block_size offset n (r ∷ refs) p some_block h small no_wrap w k enough =
    read_pieces block_size offset n r refs p h small no_wrap w k enough

-- The list from the starting block on.
read_from :
    (block_size offset n : ℕ) (refs : Refs) (p : Pool)
    → IsFile block_size p refs
    → offset / block_size < length refs
    → offset + n ≤ length (content p refs)
    → length (content p refs) < u64_mod
    → read_blocks
        (offset % block_size)
        (pieces block_size (offset % block_size) n)
        (drop (offset / block_size) refs)
        p
      ≡ (ok (take n (drop offset (content p refs))), p)
read_from block_size offset n refs p file start enough small =
    let k : ℕ = offset / block_size in
    let o : ℕ = offset % block_size in
    let all : List Buffer = blocks p refs in
    let size : ℕ = length (concat all) in
    let rest : Refs = drop k refs in
    let total : k * block_size + o ≡ offset = div-add-mod' offset block_size in
    let (count, skipped) =
      skip_blocks block_size (size / block_size) (size % block_size) k o all file.laid
        (omega (arith, length-blocks p refs)) in
    let same : content p rest ≡ concat (drop k all) = ap concat (drop-blocks k p refs) in
    let len_same : length (content p rest) ≡ length (concat (drop k all)) = ap length same in
    let packed : IsPacked block_size all =
      subst (IsPacked block_size) (append-nil all)
        (IsLaidOut-IsPacked block_size 0 all file.positive file.laid) in
    read_some block_size o n rest p (omega (arith, length-drop k refs))
      (mod-lt offset file.positive) file.small (omega arith) (IsLive-drop k p refs file.live)
      (subst (IsPacked block_size) (sym (drop-blocks k p refs))
        (IsPacked-drop block_size k all packed))
      (omega arith)
    ∙ ap {B = Outcome Buffer × Pool} (λ l. (ok (take n l), p))
        (ap (drop o) same ∙ sym skipped ∙ ap (λ i. drop i (concat all)) total)

read_blocks_none :
    (offset n : ℕ) (ns : List ℕ) (p : Pool)
    → read_blocks offset (n ∷ ns) [] p ≡ (throws out_of_range, p)
unfolding read_blocks
read_blocks_none offset n ns p = refl

-- Every range has a first piece, so a list without blocks is read out of range.
read_nothing :
    (block_size offset n : ℕ) (refs : Refs) (p : Pool)
    → refs ≡ []
    → read_blocks offset (pieces block_size offset n) refs p ≡ (throws out_of_range, p)
unfolding pieces
read_nothing block_size offset n refs p e =
    ap (λ l. read_blocks offset (pieces block_size offset n) l p) e
    ∙ read_blocks_none offset (if leb n (block_size - offset) then n else block_size - offset) _ p

read_list_throws :
    (block_size len offset size : ℕ) (refs : Refs) (p : Pool)
    → data_size 0 refs p ≡ (ok size, p)
    → ltb size offset ≡ false
    → read_blocks
        (offset % block_size)
        (pieces block_size (offset % block_size) (clip_size size len offset))
        (drop (offset / block_size) refs)
        p
      ≡ (throws out_of_range, p)
    → read_list block_size len offset refs p ≡ (throws out_of_range, p)
unfolding read_list
read_list_throws block_size len offset size refs p e1 e2 e3 = rw (e1, e2, e3)

read_list_inside :
    (block_size len offset size : ℕ) (refs : Refs) (p : Pool) (bytes : Buffer)
    → data_size 0 refs p ≡ (ok size, p)
    → ltb size offset ≡ false
    → read_blocks
        (offset % block_size)
        (pieces block_size (offset % block_size) (clip_size size len offset))
        (drop (offset / block_size) refs)
        p
      ≡ (ok bytes, p)
    → read_list block_size len offset refs p ≡ (ok bytes, p)
unfolding read_list
read_list_inside block_size len offset size refs p bytes e1 e2 e3 = rw (e1, e2, e3)

read_list_beyond :
    (block_size len offset size : ℕ) (refs : Refs) (p : Pool)
    → data_size 0 refs p ≡ (ok size, p)
    → ltb size offset ≡ true
    → read_list block_size len offset refs p ≡ (ok [], p)
unfolding read_list
read_list_beyond block_size len offset size refs p e1 e2 = rw (e1, e2)

blocks_of :
    (block_size : ℕ) (refs : Refs) (p : Pool)
    → IsFile block_size p refs
    → block_count block_size (length (content p refs)) ≡ length refs
blocks_of block_size refs p file =
    sym (length-rows block_size (length (content p refs)))
    ∙ ap length (sym file.laid)
    ∙ length-lengths (blocks p refs)
    ∙ length-blocks p refs

-- The bytes are no more than the blocks have room for.
pub bytes_bound :
    (block_size : ℕ) (refs : Refs) (p : Pool)
    → IsFile block_size p refs
    → length (content p refs) ≤ block_size * length refs
bytes_bound block_size refs p file =
    let size : ℕ = length (content p refs) in
    let fits : size ≤ length refs * block_size =
      subst (λ c. size ≤ c * block_size) (blocks_of block_size refs p file)
        (count_room block_size size file.positive) in
    grind arith

clip_size-min :
    (size len offset : ℕ)
    → len + offset < u64_mod
    → offset ≤ size
    → clip_size size len offset ≡ min len (size - offset)
clip_size-min size len offset no_wrap le = ground arith

within : (size offset n len : ℕ) → n ≡ min len (size - offset) → offset ≤ size → offset + n ≤ size
within size offset n len e le = omega arith

-- `read` stores exactly the bytes of the file from `offset` on, at most `length` of them, for every
-- range that does not begin at the very end of a file of full blocks (beyond the end: none); the
-- file is in order and smaller than 2 ^ 64 bytes, and `length + offset` does not wrap.
pub read_list-slice :
    (block_size len offset : ℕ) (refs : Refs) (p : Pool)
    → IsFile block_size p refs
    → length (content p refs) < u64_mod
    → len + offset < u64_mod
    → (offset ≢ length (content p refs)) ⊎ (length (content p refs) % block_size ≢ 0)
    → read_list block_size len offset refs p ≡ (ok (take len (drop offset (content p refs))), p)
read_list-slice block_size len offset refs p file small no_wrap apart =
    let size : ℕ = length (content p refs) in
    let measured = data_size-length refs p file.live small in
    elim (Bool-cases (ltb size offset)) [
      | inl beyond ↦
          read_list_beyond block_size len offset size refs p measured beyond
          ∙ ap {B = Outcome Buffer × Pool} (λ l. (ok l, p))
              (sym (ap (take len) (drop_all offset (content p refs) (ground arith)) ∙ take-nil len))
      | inr inside ↦
          let n : ℕ = clip_size size len offset in
          let clipped : n ≡ min len (size - offset) =
            clip_size-min size len offset no_wrap (ground arith) in
          read_list_inside block_size len offset size refs p
            (take len (drop offset (content p refs))) measured inside
            (read_from block_size offset n refs p file
                (subst (λ c. offset / block_size < c) (blocks_of block_size refs p file)
                  (start_in block_size size offset file.positive (ground arith) apart))
                (within size offset n len clipped (ground arith)) small
              ∙ ap {B = Outcome Buffer × Pool} (λ l. (ok l, p))
                  (take_clamp len n (drop offset (content p refs))
                    (clipped ∙ ap (min len) (sym (length-drop offset (content p refs))))))
    ]

-- A read that begins at the very end of a file of full blocks (an empty file is one) throws
-- `std::out_of_range` out of `at`, where any other read past the data stores nothing.
pub read_list-end :
    (block_size len : ℕ) (refs : Refs) (p : Pool)
    → IsFile block_size p refs
    → length (content p refs) < u64_mod
    → length (content p refs) % block_size ≡ 0
    → read_list block_size len (length (content p refs)) refs p ≡ (throws out_of_range, p)
read_list-end block_size len refs p file small full =
    let size : ℕ = length (content p refs) in
    let at_end : length refs ≡ size / block_size =
      sym (blocks_of block_size refs p file) ∙ even full in
    read_list_throws block_size len size size refs p (data_size-length refs p file.live small)
      (ground arith)
      (read_nothing block_size (size % block_size) (clip_size size len size)
        (drop (size / block_size) refs) p (drop_all (size / block_size) refs (omega arith)))
  where
    even :
        length (content p refs) % block_size ≡ 0
        → block_count block_size (length (content p refs)) ≡ length (content p refs) / block_size
    even e = grind arith
