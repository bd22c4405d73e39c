-- ===== src/Inode/Isolation.antt =====
-- `truncate` of src/htmpfs/htmpfs.cpp on a whole inode, and the snapshot volumes beside the current
-- one.
use htmpfs.Prelude.{
  ℕ, ◌+◌, ◌<◌, ◌≡◌, refl, sym, ap, ◌∙◌, false, some, [], ◌∷◌, arith, length, concat, u64_mod, subst,
}
use htmpfs.Prelude.Map
use htmpfs.Prelude.Map.{bytes_key, find-assign}
use htmpfs.Prelude.Bytes.{bytes_eq}
use htmpfs.Errors.{ok}
use htmpfs.Pool.{Pool, Refs}
use htmpfs.Pool.Laws.{HasRoom}
use htmpfs.Blocks.{block_count}
use htmpfs.Blocks.View.{blocks, owns, IsLive}
use htmpfs.Inode.{Inode, Version, current, truncate, truncate_list}
use htmpfs.Blocks.Layout.{IsLaidOut}
use htmpfs.Inode.Fit.{LeavesOthers}
use htmpfs.Inode.Truncate.{content, Truncated, truncate_list-resize}
use htmpfs.Inode.Whole.{HasFile}

-- No block of `kept` is owned by `refs`: where the two lists share a block, `refs` has it frozen.
abbrev pub IsApart : Refs → Refs → Type 0
IsApart [] refs = Unit {0}
IsApart (r ∷ kept) refs = (owns r.id refs ≡ false) × IsApart kept refs

-- A list apart from one that is changed keeps its blocks.
pub kept_blocks :
    (p q : Pool) (refs refs' kept : Refs)
    → LeavesOthers p refs q refs'
    → IsApart kept refs
    → IsLive p kept
    → (blocks q kept ≡ blocks p kept) × IsLive q kept
kept_blocks p q refs refs' [] o a w = (refl, tt)
kept_blocks p q refs refs' (r ∷ kept) o (free, a) (b, e, n, w) =
    let (same, live) = kept_blocks p q refs refs' kept o a w in
    let here = (o r.id b e free).0 in (ground (arith, e, here, same), (b, here, n, live))

truncate_step :
    (n : ℕ) (p q : Pool) (inode : Inode) (refs refs' : Refs)
    → Map.find current inode.buffer_map ≡ some refs
    → truncate_list inode.block_size n (p, refs) ≡ (ok tt, (q, refs'))
    → truncate n (p, inode)
      ≡ (ok tt, (q, record inode { buffer_map = Map.assign current refs' inode.buffer_map }))
unfolding truncate
truncate_step n p q inode refs refs' e0 e1 = ground (arith, e0, e1)

-- The inode after `truncate`.
abbrev pub with_refs : Refs → Inode → Inode
with_refs refs inode = record inode { buffer_map = Map.assign current refs inode.buffer_map }

-- `truncate(n)` of an inode whose current version is in order, with room in the pool, returns: the
-- current version's bytes are the old ones cut to `n` or filled up to `n` with zeros, its blocks are
-- again in order, none is frozen, and no block that the version did not own has changed.
pub truncate-Truncated :
    (n : ℕ) (p : Pool) (inode : Inode) (refs : Refs)
    → HasFile current p inode refs
    → HasRoom (block_count inode.block_size n + block_count inode.block_size n) p
    → (q : Pool) × (refs' : Refs) × (truncate n (p, inode) ≡ (ok tt, (q, with_refs refs' inode)))
      × Truncated inode.block_size n p refs q refs'
truncate-Truncated n p inode refs h room =
    let (q, refs', ret, t) = truncate_list-resize inode.block_size n p refs h.file room in
    (q, refs', truncate_step n p q inode refs refs' h.found ret, t)

assign_other :
    (version : Version) (refs refs' kept : Refs) (inode : Inode)
    → bytes_eq version current ≡ false
    → Map.find current inode.buffer_map ≡ some refs
    → Map.find version inode.buffer_map ≡ some kept
    → Map.find version (with_refs refs' inode).buffer_map ≡ some kept
assign_other version refs refs' kept inode differs found old =
    find-assign version current refs' inode.buffer_map refs found ∙ rw differs old

-- `truncate(n)` of the current version returns and leaves a snapshot volume of the file as it was:
-- the volume has the same blocks, in order, and the same bytes. What the volume shares with the
-- current version, the current version must have frozen; both are in order, with room in the pool.
pub truncate-snapshot :
    (n : ℕ) (version : Version) (p : Pool) (inode : Inode) (refs kept : Refs)
    → HasFile current p inode refs
    → HasRoom (block_count inode.block_size n + block_count inode.block_size n) p
    → bytes_eq version current ≡ false
    → HasFile version p inode kept
    → IsApart kept refs
    → (q : Pool) × (inode' : Inode) × (truncate n (p, inode) ≡ (ok tt, (q, inode')))
      × HasFile version q inode' kept
      × (content q kept ≡ content p kept)
truncate-snapshot n version p inode refs kept h room differs k a =
    let (q, refs', ret, t) = truncate-Truncated n p inode refs h room in
    let (same, live) = kept_blocks p q refs refs' kept t.others a k.file.live in
    (
      q,
      with_refs refs' inode,
      ret,
      record {
        found = assign_other version refs refs' kept inode differs h.found k.found;
        file = record {
          positive = k.file.positive;
          small = k.file.small;
          fits = k.file.fits;
          live = live;
          laid = subst (IsLaidOut inode.block_size) (sym same) k.file.laid;
        };
        bytes_small = subst (λ l. length (concat l) < u64_mod) (sym same) k.bytes_small;
      },
      ap concat same,
    )
