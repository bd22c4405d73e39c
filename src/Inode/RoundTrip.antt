-- ===== src/Inode/RoundTrip.antt =====
-- A file written and read back (src/htmpfs/htmpfs.cpp).
use htmpfs.Prelude.{
  ℕ, ◌+◌, ◌*◌, ◌%◌, ◌<◌, ◌≤◌, ◌≡◌, refl, sym, ap, ◌∙◌, false, true, Bool-cases, inr, arith, inl,
  length, length-append, length-take, length-resize, resize, take, take_all, drop,
  drop-append_exact, u64_mod, ◌==◌,
}
use native.Mathlib.Nat.{div-add-mod'}
use htmpfs.Prelude.Bytes.{Bytes, bytes_eq_refl}
use htmpfs.Prelude.Map.{bytes_key, find-assign}
use htmpfs.Errors.{Outcome, ok}
use htmpfs.Exec.{◌>>=◌}
use htmpfs.Pool.{Pool, Refs}
use htmpfs.Pool.Laws.{HasRoom}
use htmpfs.Blocks.{block_count}
use htmpfs.Blocks.Layout.{rows, length-rows}
use htmpfs.Blocks.View.{blocks, length-blocks}
use htmpfs.Inode.{Inode, current, read, write}
use htmpfs.Inode.Isolation.{with_refs}
use htmpfs.Inode.Ranges.{length-lengths}
use htmpfs.Inode.Truncate.{content}
use htmpfs.Inode.Whole.{HasFile, read-content}
use htmpfs.Inode.Write.{Overwritten, write-Overwritten}

-- Less than a block is left free.
blocks_bound : (block_size n : ℕ) → block_count block_size n * block_size ≤ n + block_size
blocks_bound block_size n = elim (Bool-cases (n % block_size == 0)) [
  | inl whole ↦ rw whole (omega (arith, div-add-mod' n block_size))
  | inr more ↦ rw more (omega (arith, div-add-mod' n block_size))
]

module _ (len offset : ℕ) (buffer : Bytes) (p q : Pool) (inode : Inode) (refs refs' : Refs)
    (h : HasFile current p inode refs) (enough : len ≤ length buffer)
    (small : offset + len + inode.block_size < u64_mod)
    (o : Overwritten inode.block_size len offset buffer p refs q refs') where
  size_eq : length (content q refs') ≡ offset + len
  size_eq =
      ap length o.bytes
      ∙ omega (
        arith,
        length-append (resize 0 offset (content p refs)) (take len buffer),
        length-resize 0 offset (content p refs),
        length-take len buffer,
      )

  -- The blocks of the new file are as many as its bytes need.
  count : length refs' ≡ block_count inode.block_size (offset + len)
  count =
      sym (length-blocks q refs')
      ∙ sym (length-lengths (blocks q refs'))
      ∙ ap length o.laid
      ∙ ap (λ n. length (rows inode.block_size n)) size_eq
      ∙ length-rows inode.block_size (offset + len)

  fits : length refs' * inode.block_size < u64_mod
  fits =
      omega
        (arith, ap (λ n. n * inode.block_size) count, blocks_bound inode.block_size (offset + len))

  -- The file is in order again.
  pub written-HasFile : HasFile current q (with_refs refs' inode) refs'
  written-HasFile = record {
    found =
        find-assign current current refs' inode.buffer_map refs h.found
        ∙ rw (bytes_eq_refl current) refl;
    file = record {
      positive = h.file.positive;
      small = h.file.small;
      fits = fits;
      live = o.live;
      laid = o.laid;
    };
    bytes_small = omega (arith, size_eq);
  }

  slice_eq : take len (drop offset (content q refs')) ≡ take len buffer
  slice_eq =
      ap (λ l. take len (drop offset l)) o.bytes
      ∙ ap (take len) (
          drop-append_exact offset (resize 0 offset (content p refs)) (take len buffer)
            (length-resize 0 offset (content p refs)))
      ∙ take_all len (take len buffer) (omega (arith, length-take len buffer))

  read_back :
      0 < len
      → read current len offset (q, with_refs refs' inode)
        ≡ (ok (take len buffer), (q, with_refs refs' inode))
  read_back pos =
      read-content current len offset q (with_refs refs' inode) refs' written-HasFile (omega arith)
        (inl (λ same. omega (arith, same, size_eq)))
      ∙ ap {B = Outcome Bytes × (Pool × Inode)} (λ l. (ok l, (q, with_refs refs' inode))) slice_eq

then_read :
    (len offset : ℕ) (buffer bytes : Bytes) (s t : Pool × Inode)
    → write buffer len offset true false s ≡ (ok len, t)
    → read current len offset t ≡ (ok bytes, t)
    → (write buffer len offset true false >>= λ n. read current n offset) s ≡ (ok bytes, t)
then_read len offset buffer bytes s t e1 e2 = rw (e1, e2) refl

-- What a resizing `write` of `len` bytes, at least one, puts at `offset` of an inode that is no
-- directory, `read` of as many bytes as it returned gives back; both return. The current version is in order, the pool has room, the array holds `len` bytes, and the end
-- of the write and a block more are 64-bit numbers.
pub read-write :
    (len offset : ℕ) (buffer : Bytes) (p : Pool) (inode : Inode) (refs : Refs)
    → inode.is_dentry ≡ false
    → HasFile current p inode refs
    → 0 < len
    → len ≤ length buffer
    → offset + len + inode.block_size < u64_mod
    → HasRoom
        (block_count inode.block_size (offset + len) + block_count inode.block_size (offset + len))
        p
    → (q : Pool) × (refs' : Refs) × ((write buffer len offset true false >>= λ n.
            read current n offset)
          (p, inode)
        ≡ (ok (take len buffer), (q, with_refs refs' inode)))
      × HasFile current q (with_refs refs' inode) refs'
read-write len offset buffer p inode refs plain h pos enough small room =
    let (q, refs', ret, o) =
      write-Overwritten len offset buffer p inode refs plain h pos enough (omega arith) room in
    (
      q,
      refs',
      then_read len offset buffer (take len buffer) (p, inode) (q, with_refs refs' inode) ret
          (read_back len offset buffer p q inode refs refs' h enough small o pos),
      written-HasFile len offset buffer p q inode refs refs' h enough small o,
    )
