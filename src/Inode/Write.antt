-- ===== src/Inode/Write.antt =====
-- The resizing `write` of `inode_t` (src/htmpfs/htmpfs.cpp) on the bytes of a file.
use native.Mathlib.Nat.{mod-lt, div-add-mod'}
use htmpfs.Prelude.{
  ℕ, ◌+◌, ◌-◌, ◌*◌, ◌/◌, ◌%◌, ◌≤◌, ◌<◌, ◌≡◌, refl, sym, ap, ◌∙◌, true, false, ◌++◌, concat, arith,
  length, length-append, length-take, length-resize, take, take-resize, drop, resize, u64_mod,
  add64, some, ◌==◌, if◌then◌else◌, leb,
}
use htmpfs.Prelude.Bytes.{Bytes}
use htmpfs.Prelude.Map
use htmpfs.Prelude.Map.{bytes_key}
use htmpfs.Errors.{ok}
use htmpfs.Buffer.{Buffer}
use htmpfs.Pool.{Pool, Refs}
use htmpfs.Pool.Laws.{HasRoom}
use htmpfs.Blocks.{block_count, pieces, write_blocks}
use htmpfs.Blocks.View.{blocks, IsLive, AllThawed, has_id-owns}
use htmpfs.Blocks.Layout.{IsLaidOut, lengths, rows, length-rows}
use htmpfs.Blocks.Write.{total, write_behind_lem, Written}
use htmpfs.Blocks.Overwrite.{total-rows, write_from-pieces, length-rows-pieces}
use htmpfs.Inode.{Inode, current, write, write_resized, truncate_list}
use htmpfs.Inode.Fit.{LeavesOthers}
use htmpfs.Inode.Truncate.{content, IsFile, Truncated, truncate_list-resize}
use htmpfs.Inode.Whole.{HasFile}
use htmpfs.Inode.Isolation.{with_refs}

-- What a resizing write of `len` bytes at `offset` brings about.
pub record Overwritten (block_size len offset : ℕ) (buffer : Bytes) (p : Pool) (refs : Refs)
    (q : Pool) (refs' : Refs) : Type 0 where
  pub bytes : content q refs' ≡ resize 0 offset (content p refs) ++ take len buffer
  pub live : IsLive q refs'
  pub laid : IsLaidOut block_size (blocks q refs')
  pub thawed : AllThawed refs'
  pub others : LeavesOthers p refs q refs'
  pub limit : q.max_size ≡ p.max_size

write_resized_step :
    (block_size len offset n : ℕ) (buffer : Bytes) (p q1 q : Pool) (refs refs' : Refs)
    → add64 offset len ≡ n
    → truncate_list block_size n (p, refs) ≡ (ok tt, (q1, refs'))
    → write_blocks true
        (offset % block_size)
        (pieces block_size (offset % block_size) len)
        buffer
        (drop (offset / block_size) refs')
        q1
      ≡ (ok tt, q)
    → write_resized block_size buffer len offset (p, refs) ≡ (ok len, (q, refs'))
unfolding write_resized
write_resized_step block_size len offset n buffer p q1 q refs refs' e0 e1 e2 = rw (e0, e1, e2) refl

-- The pieces are as long as the range, and as many as the blocks from the starting one on.
total-pieces : (n offset len : ℕ) → total (pieces n offset len) ≡ len
unfolding pieces
total-pieces n offset len =
    let s : ℕ = if leb len (n - offset) then len else n - offset in
    let fits : s ≤ len = ground arith in omega (arith, total-rows n (len - s))

module _ (block_size len offset : ℕ) (buffer : Bytes) (p : Pool) (refs : Refs)
    (file : IsFile block_size p refs) (pos : 0 < len) (enough : len ≤ length buffer)
    (small : offset + len < u64_mod)
    (room : HasRoom
      (block_count block_size (offset + len) + block_count block_size (offset + len))
      p) where
  spread : offset / block_size * block_size + (offset % block_size + len) ≡ offset + len
  spread = omega (arith, div-add-mod' offset block_size)

  finish_write :
      (q1 q : Pool) (refs' : Refs)
      → Truncated block_size (offset + len) p refs q1 refs'
      → Written
          (offset / block_size)
          (offset % block_size)
          (pieces block_size (offset % block_size) len)
          buffer
          q1
          refs'
          q
      → Overwritten block_size len offset buffer p refs q refs'
  finish_write q1 q refs' t z =
      let old : Buffer = content p refs in
      let size_eq : length (content q1 refs') ≡ offset + len =
        ap length t.bytes ∙ length-resize 0 (offset + len) old in
      let (written, sizes_same) =
        write_from-pieces block_size (offset / block_size) (offset % block_size) len buffer
          (blocks q1 refs') (mod-lt offset file.positive) pos enough
          (t.laid ∙ ap (rows block_size) (size_eq ∙ sym spread)) in
      let bytes : content q refs' ≡ resize 0 offset old ++ take len buffer =
        ap concat z.bytes
        ∙ written
        ∙ ap (λ m. take m (content q1 refs') ++ take len buffer) (div-add-mod' offset block_size)
        ∙ ap (λ l. take offset l ++ take len buffer) t.bytes
        ∙ ap (λ l. l ++ take len buffer) (take-resize 0 offset (offset + len) old (omega arith)) in
      let count : length (content q refs') ≡ length (content q1 refs') =
        ap length bytes
        ∙ omega (
          arith,
          length-append (resize 0 offset old) (take len buffer),
          length-resize 0 offset old,
          length-take len buffer,
        ) in
      record {
        bytes = bytes;
        live = z.live;
        laid = ap lengths z.bytes ∙ sizes_same ∙ t.laid ∙ ap (rows block_size) (sym count);
        thawed = t.thawed;
        others = λ j b e o.
            let (e1, o1) = t.others j b e o in
            (z.others j (has_id-owns j refs' t.thawed o1) ∙ e1, o1);
        limit = z.limit ∙ t.limit;
      }

  write_resized_lem :
      (q : Pool) × (refs' : Refs) × (write_resized block_size buffer len offset (p, refs)
        ≡ (ok len, (q, refs')))
      × Overwritten block_size len offset buffer p refs q refs'
  write_resized_lem =
      let k : ℕ = offset / block_size in
      let o : ℕ = offset % block_size in
      let (q1, refs', ret1, t) = truncate_list-resize block_size (offset + len) p refs file room in
      let rooms : k + length (pieces block_size o len) ≤ length refs' = omega (
        arith,
        t.count,
        length-rows block_size (offset + len),
        length-rows-pieces block_size k o len (mod-lt offset file.positive) pos,
        ap (λ m. length (rows block_size m)) spread,
      ) in
      let (q, ret2, z) =
        write_behind_lem k o (pieces block_size o len) buffer refs' q1 rooms
          (omega (arith, total-pieces block_size o len))
          (omega (arith, total-pieces block_size o len, spread)) t.live in
      (
        q,
        refs',
        write_resized_step block_size len offset (offset + len) buffer p q1 q refs refs'
            (omega arith) ret1 ret2,
        finish_write q1 q refs' t z,
      )

write_step :
    (len offset : ℕ) (buffer : Bytes) (p q : Pool) (inode : Inode) (refs refs' : Refs)
    → inode.is_dentry ≡ false
    → (len == 0) ≡ false
    → Map.find current inode.buffer_map ≡ some refs
    → write_resized inode.block_size buffer len offset (p, refs) ≡ (ok len, (q, refs'))
    → write buffer len offset true false (p, inode) ≡ (ok len, (q, with_refs refs' inode))
unfolding write
write_step len offset buffer p q inode refs refs' e0 e1 e2 e3 = ground (arith, e0, e1, e2, e3)

-- A resizing `write` of `len` bytes, at least one, at `offset`, to an inode that is no directory and
-- whose current version is in order, with room in the pool, returns `len`. The file's bytes are then
-- those that lay before `offset` (zeros where it was shorter) and the bytes written: what lay behind
-- is cut off. The blocks are again in order, none is frozen, and no block that the version did not own
-- has changed. The array must hold `len` bytes, and `offset + len` must not wrap.
pub write-Overwritten :
    (len offset : ℕ) (buffer : Bytes) (p : Pool) (inode : Inode) (refs : Refs)
    → inode.is_dentry ≡ false
    → HasFile current p inode refs
    → 0 < len
    → len ≤ length buffer
    → offset + len < u64_mod
    → HasRoom
        (block_count inode.block_size (offset + len) + block_count inode.block_size (offset + len))
        p
    → (q : Pool) × (refs' : Refs) × (write buffer len offset true false (p, inode)
        ≡ (ok len, (q, with_refs refs' inode)))
      × Overwritten inode.block_size len offset buffer p refs q refs'
write-Overwritten len offset buffer p inode refs plain h pos enough small room =
    let (q, refs', ret, o) =
      write_resized_lem inode.block_size len offset buffer p refs h.file pos enough small room in
    (
      q,
      refs',
      write_step len offset buffer p q inode refs refs' plain (ground arith) h.found ret,
      o,
    )
