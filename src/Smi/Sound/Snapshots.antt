-- ===== src/Smi/Sound/Snapshots.antt =====
-- Creation and deletion of snapshot volumes (src/htmpfs/htmpfs.cpp) keep the inode pool sound.
use htmpfs.Prelude.{
  Option, none, some, ◌+◌, ◌<◌, ◌≡◌, refl, arith, u64_mod, inl, inr, Bool-cases, ◌==◌, ==_iff, ap,
  sym, subst, ◌∙◌, ◌-◌, ℕ, List, [], ◌∷◌, add64,
}
use htmpfs.Prelude.Map
use htmpfs.Prelude.Map.{Map, id_key, bytes_key, find-assign}
use htmpfs.Errors.{undefined, throws, out_of_range, ok, requested_inode_not_found, no_such_snapshot}
use htmpfs.Exec.{raise}
use htmpfs.Exec.Yields.{Yields, bind-Yields, lookup-Yields, at_end, from_end}
use htmpfs.Prelude.Sums.{sum}
use htmpfs.Inode.Deletion.{current_refs, Copied, create_new_volume-Copied}
use htmpfs.Exec.Keeps.{Keeps, bind-Keeps, bind_after, if-runs-Keeps, lookup-Keeps}
use htmpfs.Inode
use htmpfs.Inode.{Version, current}
use htmpfs.Inode.Keeps.{create_new_volume-Keeps}
use htmpfs.Inode.Fine.{delete_volume-IsFine}
use htmpfs.Smi.{on_inode}
use htmpfs.Smi.Snapshots.{
  link_inode, unlink_inode, create_volumes, listed, create_snapshot_volume, delete_volumes,
  delete_snapshot_volume,
}
use htmpfs.Pool.Links.{links}
use htmpfs.Blocks.Links.{uses}
use htmpfs.Smi.{Smi, InodePack, put_inode}
use htmpfs.Smi.Sound.{
  Scope, refs_of, Counted-find, put_inode-IsSound, relinked-IsSound, Sound, on_inode-Keeps,
}
use htmpfs.Smi.Sound.Names.{drop_link-IsSound, with_versions-IsSound}

-- How many references with the id a snapshot of the listed inodes copies.
abbrev pub copied_at : ℕ → Option InodePack → ℕ
copied_at j none = 0
copied_at j (some pack) = uses j (current_refs pack.inode)

abbrev pub copies : ℕ → List ℕ → Map ℕ InodePack → ℕ
copies j [] pool = 0
copies j (id ∷ ids) pool = copied_at j (Map.find id pool) + copies j ids pool

-- A snapshot of the listed inodes does not drive a link count past 64 bits.
abbrev pub HasRoomFor : List ℕ → Smi → Type 0
HasRoomFor ids s = (j : ℕ) → links j s.buffer_pool + copies j ids s.inode_pool < u64_mod

-- The same for a snapshot of the whole filesystem.
abbrev pub CanSnapshot : Smi → Type 0
CanSnapshot s =
    (ids : List ℕ) → Map.find current s.snapshot_version_list ≡ some ids → HasRoomFor ids s

-- A node that is written anew counts for what its current version refers to.
module _ (j id : ℕ) (pack old : InodePack) (pool : Map ℕ InodePack)
    (e : Map.find id pool ≡ some old)
    (same : uses j (current_refs pack.inode) ≡ uses j (current_refs old.inode)) where
  copied_at-assign :
      (i : ℕ) → copied_at j (Map.find i (Map.assign id pack pool)) ≡ copied_at j (Map.find i pool)
  copied_at-assign i = elim (Bool-cases (i == id)) [
    | inl this ↦
        ap (copied_at j) {y = some pack} (find-assign i id pack pool old e ∙ rw this refl)
        ∙ same
        ∙ sym (
            ap (copied_at j)
              (subst (λ (k : ℕ). Map.find k pool ≡ some old) (sym ((==_iff i id).0 this)) e))
    | inr other ↦
        ap (copied_at j) {y = Map.find i pool} (find-assign i id pack pool old e ∙ rw other refl)
  ]

  copies-assign : (ids : List ℕ) → copies j ids (Map.assign id pack pool) ≡ copies j ids pool
  copies-assign [] = refl
  copies-assign (i ∷ ids) = omega (arith, copied_at-assign i, copies-assign ids)

module _ (scope : Scope) where
  -- Sound, with room for the snapshot that is being made.
  abbrev Ready : List ℕ → Smi → Type 0
  Ready ids s = Sound scope s × (scope.followed → HasRoomFor ids s)

  link_inode-Ready : (id : ℕ) (ids : List ℕ) → Keeps (Ready ids) (link_inode id)
  unfolding link_inode
  link_inode-Ready id ids s (w, room) =
      lookup-Keeps (Ready ids) (Map.find id s.inode_pool) (raise requested_inode_not_found s) _
        (w, room)
        λ pack e.
          let count : ℕ = add64 pack.link_count 1 in
          (
            relinked-IsSound scope s id count pack w e,
            λ u j. omega (
              arith,
              room u j,
              copies-assign j id (record pack { link_count = count }) pack s.inode_pool e refl ids,
            ),
          )

  -- The volume of one inode.
  create_volume-Ready :
      (version : Version) (id : ℕ) (ids : List ℕ) (s : Smi)
      → Ready (id ∷ ids) s
      → Ready ids (on_inode id (Inode.create_new_volume version) s).1
  unfolding on_inode
  create_volume-Ready version id ids s (w, room) =
      lookup-Keeps (Ready ids) (Map.find id s.inode_pool) (undefined, s)
        (λ pack. put_inode id s pack (Inode.create_new_volume version (s.buffer_pool, pack.inode)))
        (w, λ u j. omega (arith, room u j))
        λ pack e.
          let r = Inode.create_new_volume version (s.buffer_pool, pack.inode) in
          let count : (j : ℕ)
              → copied_at j (Map.find id s.inode_pool) ≡ uses j (current_refs pack.inode) =
            (λ j. ap (copied_at j) e) in
          let made : (scope.followed
              → Copied (λ j. sum (refs_of j) s.inode_pool - refs_of j pack) s.buffer_pool pack.inode
                  r.1) =
            (λ u.
              create_new_volume-Copied (λ j. sum (refs_of j) s.inode_pool - refs_of j pack) version
                s.buffer_pool pack.inode (Counted-find scope id s pack w e u)
                (λ j. omega (arith, room u j, count j))) in
          (
            put_inode-IsSound scope id s pack r w e
                (create_new_volume-Keeps scope.block_size id version (s.buffer_pool, pack.inode)
                  (w.inodes id pack e))
                (λ u. (made u).counted),
            λ u j. omega (
              arith,
              room u j,
              count j,
              (made u).more j,
              copies-assign j id (record pack { inode = r.1.1 }) pack s.inode_pool e
                  ((made u).same j) ids,
            ),
          )

  create_volumes-Ready :
      (version : Version) (ids : List ℕ) (s : Smi)
      → Ready ids s
      → Sound scope (create_volumes version ids s).1
  unfolding create_volumes
  create_volumes-Ready version [] s (w, room) = w
  create_volumes-Ready version (id ∷ ids) s ready =
      bind_after (Ready (id ∷ ids)) (Sound scope) (link_inode id) _ s (λ t x. x.0)
        (link_inode-Ready id (id ∷ ids) s ready)
        λ u1 s1 ready1.
          bind_after (Ready ids) (Sound scope) (on_inode id (Inode.create_new_volume version)) _ s1
            (λ t x. x.0) (create_volume-Ready version id ids s1 ready1)
            λ u2 s2 ready2. create_volumes-Ready version ids s2 ready2

  unlink_inode-Keeps : (id : ℕ) → Keeps (Sound scope) (unlink_inode id)
  unfolding unlink_inode
  unlink_inode-Keeps id s w =
      lookup-Keeps (Sound scope) (Map.find id s.inode_pool) (raise requested_inode_not_found s) _ w
        (λ pack e. drop_link-IsSound scope id s pack e w)

  listed-Yields :
      (s : Smi)
      → Sound scope s
      → (scope.followed → CanSnapshot s)
      → Yields Ready (Sound scope) (listed current s)
  unfolding listed
  listed-Yields s w room =
      lookup-Yields Ready (Sound scope) (Map.find current s.snapshot_version_list)
        (throws out_of_range, s) (λ ids. (ok ids, s)) w (λ ids e. (w, λ u. room u ids e))

  pub create_snapshot_volume-IsSound :
      (version : Version) (s : Smi)
      → Sound scope s
      → (scope.followed → CanSnapshot s)
      → Sound scope (create_snapshot_volume version s).1
  unfolding create_snapshot_volume
  create_snapshot_volume-IsSound version s w room =
      if-runs-Keeps (Sound scope) (Map.contains version s.snapshot_version_list) _ _ w (
        at_end (Sound scope) _ (
          bind-Yields Ready (λ u. Sound scope) (Sound scope) (listed current) _ s
            (listed-Yields s w room)
            λ ids t ready. from_end (Sound scope) _ (
              bind_after (Sound scope) (Sound scope) (create_volumes version ids) _ t (λ x v. v)
                (create_volumes-Ready version ids t ready)
                (λ u x v. with_versions-IsSound scope x _ v))))

  delete_volumes-Keeps :
      (version : Version) (ids : List ℕ) → Keeps (Sound scope) (delete_volumes version ids)
  unfolding delete_volumes
  delete_volumes-Keeps version [] = λ s w. w
  delete_volumes-Keeps version (id ∷ ids) =
      bind-Keeps (Sound scope) (on_inode id (Inode.delete_volume version)) _
        (on_inode-Keeps scope id (Inode.delete_volume version)
          (delete_volume-IsFine scope.block_size id version))
        λ _.
          bind-Keeps (Sound scope) (unlink_inode id) _ (unlink_inode-Keeps id)
            λ _. delete_volumes-Keeps version ids

  pub delete_snapshot_volume-Keeps :
      (version : Version) → Keeps (Sound scope) (delete_snapshot_volume version)
  unfolding delete_snapshot_volume
  delete_snapshot_volume-Keeps version s w =
      lookup-Keeps (Sound scope) (Map.find version s.snapshot_version_list)
        (raise no_such_snapshot s) _ w
        (λ ids e.
          bind-Keeps (Sound scope) (delete_volumes version ids) _ (delete_volumes-Keeps version ids)
            (λ _ s' w'. with_versions-IsSound scope s' _ w') s w)
