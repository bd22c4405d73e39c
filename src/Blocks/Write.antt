-- ===== src/Blocks/Write.antt =====
-- The loop that writes pieces into the blocks of a resized file (`inode_t::write`,
-- src/htmpfs/htmpfs.cpp).
use htmpfs.Prelude.{
  ℕ, zero, suc, ◌+◌, ◌≤◌, ◌<◌, ◌≡◌, refl, ◌∙◌, true, false, some, List, [], ◌∷◌, ◌++◌, arith,
  length, length-drop, take, drop, ◌==◌, u64_mod, resize,
}
use htmpfs.Errors.{ok}
use htmpfs.Buffer
use htmpfs.Buffer.{Buffer}
use htmpfs.Buffer.Content.{write-resize}
use htmpfs.Pool.{Pool, BufferRef, Refs, load, store}
use htmpfs.Pool.Laws.{buffer_at, load_lem, store_lem}
use htmpfs.Blocks.{write_blocks, verify}
use htmpfs.Blocks.View.{blocks, has_id, IsLive, blocks-Agree}

abbrev pub total : List ℕ → ℕ
total [] = 0
total (n ∷ ns) = n + total ns

-- The first blocks, each cut at the offset and followed by its piece of the bytes.
abbrev pub write_each : ℕ → List ℕ → Buffer → List Buffer → List Buffer
write_each offset [] buffer bs = bs
write_each offset (n ∷ ns) buffer [] = []
write_each offset (n ∷ ns) buffer (b ∷ bs) =
    (resize 0 offset b ++ take n buffer) ∷ write_each 0 ns (drop n buffer) bs

-- The same behind `k` blocks.
abbrev pub write_from : ℕ → ℕ → List ℕ → Buffer → List Buffer → List Buffer
write_from zero offset ns buffer bs = write_each offset ns buffer bs
write_from (suc k) offset ns buffer [] = []
write_from (suc k) offset ns buffer (b ∷ bs) = b ∷ write_from k offset ns buffer bs

-- What the loop brings about.
pub record Written (k offset : ℕ) (ns : List ℕ) (buffer : Buffer) (p : Pool) (refs : Refs)
    (q : Pool) : Type 0 where
  pub others : (j : ℕ) → has_id j refs ≡ false → buffer_at j q ≡ buffer_at j p
  pub live : IsLive q refs
  pub bytes : blocks q refs ≡ write_from k offset ns buffer (blocks p refs)
  pub limit : q.max_size ≡ p.max_size

write_step :
    (offset n : ℕ) (ns : List ℕ) (buffer b b' : Buffer) (p p1 q : Pool) (r : BufferRef)
    (refs : Refs)
    → load r.id p ≡ (ok b, p)
    → Buffer.write b buffer n offset true ≡ (n, b')
    → store r.id b' p ≡ (ok tt, p1)
    → verify n n ≡ ok tt
    → write_blocks true 0 ns (drop n buffer) refs p1 ≡ (ok tt, q)
    → write_blocks true offset (n ∷ ns) buffer (r ∷ refs) p ≡ (ok tt, q)
unfolding write_blocks
write_step offset n ns buffer b b' p p1 q r refs e1 e2 e3 e4 e5 = rw (e1, e2, e3, e4, e5)

write_blocks_lem :
    (offset : ℕ) (ns : List ℕ) (buffer : Buffer) (refs : Refs) (p : Pool)
    → length ns ≤ length refs
    → total ns ≤ length buffer
    → offset + total ns < u64_mod
    → IsLive p refs
    → (q : Pool) × (write_blocks true offset ns buffer refs p ≡ (ok tt, q))
      × Written 0 offset ns buffer p refs q
write_blocks_lem offset [] buffer refs p h enough small w = (
  p,
  (unfold write_blocks in refl),
  record { others = λ j e. refl; live = w; bytes = refl; limit = refl },
)
write_blocks_lem offset (n ∷ ns) buffer [] p h enough small w = absurd (omega arith)
write_blocks_lem offset (n ∷ ns) buffer (r ∷ refs) p h enough small (b, e, absent, w) =
    let b' : Buffer = resize 0 offset b ++ take n buffer in
    let (p1, st) = store_lem r.id b' b p e in
    let kept : (j : ℕ) → (j == r.id) ≡ false → buffer_at j p1 ≡ buffer_at j p =
      (λ j ne. ground (arith, st.updates j)) in
    let same = blocks-Agree r.id p p1 refs kept absent w in
    let (q, ret, z) =
      write_blocks_lem 0 ns (drop n buffer) refs p1 (omega arith)
        (omega (arith, length-drop n buffer)) (omega arith) same.1 in
    let here : buffer_at r.id q ≡ some b' = ground (arith, z.others r.id absent, st.updates r.id) in
    (
      q,
      write_step offset n ns buffer b b' p p1 q r refs (load_lem r.id p b e)
          (write-resize b buffer n offset (omega arith) (omega arith)) st.returns (ground arith)
          ret,
      record {
        others = λ j f. ground (arith, z.others j, kept j);
        live = (b', here, absent, z.live);
        bytes = ground (arith, here, e, z.bytes, same.0);
        limit = z.limit ∙ st.limit;
      },
    )

Written-suc :
    (k offset : ℕ) (ns : List ℕ) (buffer b : Buffer) (p q : Pool) (r : BufferRef) (refs : Refs)
    → buffer_at r.id p ≡ some b
    → has_id r.id refs ≡ false
    → Written k offset ns buffer p refs q
    → Written (suc k) offset ns buffer p (r ∷ refs) q
Written-suc k offset ns buffer b p q r refs e absent z =
    let here = z.others r.id absent in
    record {
      others = λ j f. z.others j (ground arith);
      live = (b, here ∙ e, absent, z.live);
      bytes = ground (arith, here, z.bytes);
      limit = z.limit;
    }

-- Writing behind the first `k` blocks.
pub write_behind_lem :
    (k offset : ℕ) (ns : List ℕ) (buffer : Buffer) (refs : Refs) (p : Pool)
    → k + length ns ≤ length refs
    → total ns ≤ length buffer
    → offset + total ns < u64_mod
    → IsLive p refs
    → (q : Pool) × (write_blocks true offset ns buffer (drop k refs) p ≡ (ok tt, q))
      × Written k offset ns buffer p refs q
write_behind_lem zero offset ns buffer refs p h enough small w =
    write_blocks_lem offset ns buffer refs p (omega arith) enough small w
write_behind_lem (suc k) offset ns buffer [] p h enough small w = absurd (omega arith)
write_behind_lem (suc k) offset ns buffer (r ∷ refs) p h enough small (b, e, absent, w) =
    let (q, ret, z) = write_behind_lem k offset ns buffer refs p (omega arith) enough small w in
    (q, ret, Written-suc k offset ns buffer b p q r refs e absent z)
