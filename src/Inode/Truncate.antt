-- ===== src/Inode/Truncate.antt =====
-- `truncate` as a change of the bytes of a file.
use native.Mathlib.Nat.{mod-lt, div-add-mod'}
use htmpfs.Prelude.{
  ℕ, ◌+◌, ◌*◌, ◌/◌, ◌%◌, ◌<◌, ◌≡◌, sym, ap, ◌∙◌, true, false, [], ◌∷◌, length, arith, ◌==◌, u64_mod,
  Bool-cases, inl, inr, resize, length-resize, concat,
}
use htmpfs.Errors.{ok}
use htmpfs.Buffer.{Buffer}
use htmpfs.Pool.{Pool, Refs}
use htmpfs.Pool.Laws.{HasRoom}
use htmpfs.Blocks.{block_count, truncate_blocks, pieces}
use htmpfs.Blocks.View.{blocks, length-blocks, IsLive, AllThawed, has_id-owns}
use htmpfs.Blocks.Resize.{Sized, truncate_blocks_lem}
use htmpfs.Blocks.Layout.{
  IsLaidOut, rows, lengths, pieces-rows, length-rows, resize_each-sizes, lengths-resize_each,
  resize_none, rows-zero,
}
use htmpfs.Inode.{fit_blocks, truncate_list}
use htmpfs.Inode.Fit.{LeavesOthers, Fitted, fit_blocks_lem}

-- The bytes of the file whose blocks the list holds.
abbrev pub content : Pool → Refs → Buffer
content p refs = concat (blocks p refs)

-- The file is in order: its references reach distinct blocks, which are as full as they can be, and
-- the size of the whole is a 64-bit number.
pub record IsFile (block_size : ℕ) (p : Pool) (refs : Refs) : Type 0 where
  pub positive : 0 < block_size
  pub small : block_size < u64_mod
  pub fits : length refs * block_size < u64_mod
  pub live : IsLive p refs
  pub laid : IsLaidOut block_size (blocks p refs)

-- What `truncate(n)` brings about.
pub record Truncated (block_size n : ℕ) (p : Pool) (refs : Refs) (q : Pool) (refs' : Refs)
    : Type 0 where
  pub bytes : content q refs' ≡ resize 0 n (content p refs)
  pub live : IsLive q refs'
  pub laid : IsLaidOut block_size (blocks q refs')
  pub thawed : AllThawed refs'
  pub count : length refs' ≡ block_count block_size n
  pub others : LeavesOthers p refs q refs'
  pub limit : q.max_size ≡ p.max_size

truncate_zero :
    (block_size n : ℕ) (p q : Pool) (refs refs' : Refs)
    → (n == 0) ≡ true
    → fit_blocks block_size n (p, refs) ≡ (ok tt, (q, refs'))
    → truncate_list block_size n (p, refs) ≡ (ok tt, (q, refs'))
unfolding truncate_list
truncate_zero block_size n p q refs refs' e0 e1 = rw (e1, e0)

truncate_some :
    (block_size n : ℕ) (p q1 q : Pool) (refs refs' : Refs)
    → (n == 0) ≡ false
    → fit_blocks block_size n (p, refs) ≡ (ok tt, (q1, refs'))
    → truncate_blocks (pieces block_size 0 n) refs' q1 ≡ (ok tt, q)
    → truncate_list block_size n (p, refs) ≡ (ok tt, (q, refs'))
unfolding truncate_list
truncate_some block_size n p q1 q refs refs' e0 e1 e2 = rw (e1, e0, e2)

-- With no block there is nothing to size.
Fitted-Truncated :
    (block_size n : ℕ) (p q : Pool) (refs refs' : Refs)
    → 0 < block_size
    → n ≡ 0
    → Fitted block_size n p refs q refs'
    → Truncated block_size n p refs q refs'
Fitted-Truncated block_size n p q refs [] h e f = record {
  bytes = sym (resize_none n (content p refs) e);
  live = tt;
  laid = sym (rows-zero block_size h);
  thawed = tt;
  count = f.count;
  others = f.others;
  limit = f.limit;
}
Fitted-Truncated block_size n p q refs (r ∷ refs') h e f = absurd (grind (arith, f.count))

Sized-Truncated :
    (block_size n : ℕ) (p q1 q : Pool) (refs refs' : Refs)
    → 0 < block_size
    → Fitted block_size n p refs q1 refs'
    → Sized (rows block_size n) q1 refs' q
    → Truncated block_size n p refs q refs'
Sized-Truncated block_size n p q1 q refs refs' h f z = record {
  bytes = bytes;
  live = z.live;
  laid =
      ap lengths z.bytes
      ∙ lengths-resize_each (rows block_size n) (blocks q1 refs') same_count
      ∙ ap (rows block_size) (sym (ap length bytes ∙ length-resize 0 n (content p refs)));
  thawed = f.thawed;
  count = f.count;
  others = λ j b e o.
      let (e1, o1) = f.others j b e o in (z.others j (has_id-owns j refs' f.thawed o1) ∙ e1, o1);
  limit = z.limit ∙ f.limit;
}
  where
    same_count : length (blocks q1 refs') ≡ length (rows block_size n)
    same_count = length-blocks q1 refs' ∙ f.count ∙ sym (length-rows block_size n)

    bytes : content q refs' ≡ resize 0 n (content p refs)
    bytes =
        ap concat z.bytes
        ∙ resize_each-sizes block_size (n / block_size) (n % block_size) (blocks q1 refs')
            (mod-lt n h) f.packed same_count
        ∙ ap (λ k. resize 0 k (content q1 refs')) (div-add-mod' n block_size)
        ∙ f.bytes

-- `truncate(n)` returns, on a file that is in order and with room in the pool. The file's bytes
-- are then the old ones cut to `n`, or filled up to `n` with zeros; the new blocks are again distinct
-- and as full as they can be, and none is frozen; and no block that the file did not own itself (one
-- that a snapshot froze, or another file's) has changed.
pub truncate_list-resize :
    (block_size n : ℕ) (p : Pool) (refs : Refs)
    → IsFile block_size p refs
    → HasRoom (block_count block_size n + block_count block_size n) p
    → (q : Pool) × (refs' : Refs) × (truncate_list block_size n (p, refs) ≡ (ok tt, (q, refs')))
      × Truncated block_size n p refs q refs'
truncate_list-resize block_size n p refs file room =
    let (q1, refs', ret, f) =
      fit_blocks_lem block_size n p refs file.positive file.small file.fits file.live file.laid
        room in
    elim (Bool-cases (n == 0)) [
      | inl none_left ↦ (
        q1,
        refs',
        truncate_zero block_size n p q1 refs refs' none_left ret,
        Fitted-Truncated block_size n p q1 refs refs' file.positive (ground arith) f,
      )
      | inr more ↦
          let cut = pieces-rows block_size n file.positive (ground arith) in
          let (q, ret2, z) =
            truncate_blocks_lem (rows block_size n) refs' q1
              (omega (arith, f.count, length-rows block_size n)) f.live in
          (
            q,
            refs',
            truncate_some block_size n p q1 q refs refs' more ret
                (ap (λ ns. truncate_blocks ns refs' q1) cut ∙ ret2),
            Sized-Truncated block_size n p q1 q refs refs' file.positive f z,
          )
    ]
