-- ===== src/Inode/Volume.antt =====
-- `create_new_volume` of src/htmpfs/htmpfs.cpp, and the volume beside later changes of the file.
use htmpfs.Prelude.{
  Bool-cases, inl, inr, ℕ, ◌+◌, ◌*◌, ◌<◌, ◌≡◌, refl, sym, ap, ◌∙◌, false, none, some, [], ◌∷◌,
  arith, length, concat, u64_mod, subst,
}
use htmpfs.Prelude.Map
use htmpfs.Prelude.Map.{bytes_key, find-assign, find-emplace, contains-find}
use htmpfs.Prelude.Bytes.{bytes_eq, bytes_eq_refl, bytes_eq_sound}
use htmpfs.Errors.{ok}
use htmpfs.Exec.{◌>>◌}
use htmpfs.Pool.{Pool, Refs}
use htmpfs.Pool.Laws.{HasRoom}
use htmpfs.Blocks.{block_count, freeze}
use htmpfs.Blocks.Layout.{IsLaidOut}
use htmpfs.Blocks.Freeze.{
  frozen, SameBuffers, freeze_lem, blocks-SameBuffers, blocks-frozen, length-frozen, IsLive-frozen,
  owns-frozen,
}
use htmpfs.Inode.{Inode, Version, current, create_new_volume, truncate}
use htmpfs.Inode.Truncate.{content, IsFile}
use htmpfs.Inode.Whole.{HasFile}
use htmpfs.Inode.Isolation.{IsApart, with_refs, truncate-snapshot}

-- The inode after `create_new_volume`.
abbrev pub with_volume : Version → Refs → Inode → Inode
with_volume version refs inode = record inode {
  buffer_map =
      Map.emplace version (frozen refs) (Map.assign current (frozen refs) inode.buffer_map);
}

create_step :
    (version : Version) (p q : Pool) (inode : Inode) (refs : Refs)
    → Map.find version inode.buffer_map ≡ none
    → Map.find current inode.buffer_map ≡ some refs
    → freeze refs p ≡ (ok (frozen refs), (q, frozen refs))
    → create_new_volume version (p, inode) ≡ (ok tt, (q, with_volume version refs inode))
unfolding create_new_volume
create_step version p q inode refs e0 e1 e2 =
    ground (arith, contains-find version inode.buffer_map e0, e1, e2)

IsApart-frozen : (kept refs : Refs) → IsApart kept (frozen refs)
IsApart-frozen [] refs = tt
IsApart-frozen (r ∷ kept) refs = (owns-frozen r.id refs, IsApart-frozen kept refs)

IsFile-frozen :
    (block_size : ℕ) (p q : Pool) (refs : Refs)
    → IsFile block_size p refs
    → SameBuffers p q
    → (IsFile block_size q (frozen refs)) × (content q (frozen refs) ≡ content p refs)
IsFile-frozen block_size p q refs f s =
    let (same, live) = blocks-SameBuffers p q refs s f.live in
    let unchanged = blocks-frozen q refs ∙ same in
    (
      record {
        positive = f.positive;
        small = f.small;
        fits = subst (λ n. n * block_size < u64_mod) (sym (length-frozen refs)) f.fits;
        live = IsLive-frozen q refs live;
        laid = subst (IsLaidOut block_size) (sym unchanged) f.laid;
      },
      ap concat unchanged,
    )

module _ (version : Version) (p : Pool) (inode : Inode) (refs : Refs)
    (fresh : Map.find version inode.buffer_map ≡ none) (h : HasFile current p inode refs) where
  apart_names :
      (a b : Version)
      → Map.find a inode.buffer_map ≡ none
      → Map.find b inode.buffer_map ≡ some refs
      → bytes_eq a b ≡ false
  apart_names a b e1 e2 = elim (Bool-cases (bytes_eq a b)) [
    | inl same ↦
        absurd
          (clash (sym e1 ∙ ap (λ v. Map.find v inode.buffer_map) (bytes_eq_sound a b same) ∙ e2))
    | inr other ↦ other
  ]
    where
      clash : none ≡ some refs → ⊥
      clash e = ground arith

  -- The versions have different names.
  pub differs : bytes_eq version current ≡ false
  differs = apart_names version current fresh h.found

  absent : Map.find version (with_refs (frozen refs) inode).buffer_map ≡ none
  absent =
      find-assign version current (frozen refs) inode.buffer_map refs h.found ∙ rw differs fresh

  found_volume : Map.find version (with_volume version refs inode).buffer_map ≡ some (frozen refs)
  found_volume =
      find-emplace version version (frozen refs) (with_refs (frozen refs) inode).buffer_map absent
      ∙ rw (bytes_eq_refl version) refl

  found_current : Map.find current (with_volume version refs inode).buffer_map ≡ some (frozen refs)
  found_current =
      find-emplace current version (frozen refs) (with_refs (frozen refs) inode).buffer_map absent
      ∙ ground (
        arith,
        find-assign current current (frozen refs) inode.buffer_map refs h.found,
        bytes_eq_refl current,
      )

  small_frozen : (q : Pool) → SameBuffers p q → length (content q (frozen refs)) < u64_mod
  small_frozen q s =
      subst (λ l. length l < u64_mod) (sym (IsFile-frozen inode.block_size p q refs h.file s).1)
        h.bytes_small

  -- `create_new_volume` of a version that the inode does not have returns. The current version and
  -- the new one then have the same blocks, in order and frozen in both, and both have the bytes that
  -- the current version had; the pool keeps its size.
  pub create_new_volume-content :
      (q : Pool) × (inode' : Inode) × (kept : Refs) × (create_new_volume version (p, inode)
        ≡ (ok tt, (q, inode')))
      × HasFile current q inode' kept
      × HasFile version q inode' kept
      × (content q kept ≡ content p refs)
      × IsApart kept kept
      × (inode'.block_size ≡ inode.block_size)
      × (length q.packs ≡ length p.packs)
      × (q.max_size ≡ p.max_size)
  create_new_volume-content =
      let (q, ret, s) = freeze_lem refs p h.file.live in
      let (file, same) = IsFile-frozen inode.block_size p q refs h.file s in
      (
        q,
        with_volume version refs inode,
        frozen refs,
        create_step version p q inode refs fresh h.found ret,
        record { found = found_current; file = file; bytes_small = small_frozen q s },
        record { found = found_volume; file = file; bytes_small = small_frozen q s },
        same,
        IsApart-frozen (frozen refs) refs,
        refl,
        s.size,
        s.limit,
      )

HasRoom-same :
    (n block_size block_size' : ℕ) (p q : Pool)
    → block_size' ≡ block_size
    → length q.packs ≡ length p.packs
    → q.max_size ≡ p.max_size
    → HasRoom (block_count block_size n + block_count block_size n) p
    → HasRoom (block_count block_size' n + block_count block_size' n) q
HasRoom-same n block_size block_size' p q same packs limit room =
    let counts : block_count block_size' n ≡ block_count block_size n =
      ap (λ b. block_count b n) same in
    record {
      below_limit = omega (arith, counts, room.below_limit);
      small = omega (arith, counts, room.small);
    }

-- A snapshot outlives a change of the file: after `create_new_volume` of a new version and
-- `truncate(n)` of the current one, which both return, the inode has the version, in order and with
-- the bytes that the current version had before both. The current version was in order and the pool
-- has room.
pub snapshot_survives :
    (n : ℕ) (version : Version) (p : Pool) (inode : Inode) (refs : Refs)
    → Map.find version inode.buffer_map ≡ none
    → HasFile current p inode refs
    → HasRoom (block_count inode.block_size n + block_count inode.block_size n) p
    → (q : Pool) × (inode' : Inode) × (kept : Refs) × ((create_new_volume version >> truncate n)
          (p, inode)
        ≡ (ok tt, (q, inode')))
      × HasFile version q inode' kept
      × (content q kept ≡ content p refs)
snapshot_survives n version p inode refs fresh h room =
    let (q1, inode1, kept, ret1, cur, vol, same, apart, size, packs, limit) =
      create_new_volume-content version p inode refs fresh h in
    let (q, inode', ret2, vol', same') =
      truncate-snapshot n version q1 inode1 kept kept cur
        (HasRoom-same n inode.block_size inode1.block_size p q1 size packs limit room)
        (differs version p inode refs fresh h) vol apart in
    (q, inode', kept, rw ret1 ret2, vol', same' ∙ same)
