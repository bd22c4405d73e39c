-- ===== src/Smi/Sound/Names.antt =====
-- Lookup, creation and removal of children (src/htmpfs/htmpfs.cpp) keep the inode pool sound.
use htmpfs.Prelude.{
  arith, ℕ, ◌+◌, ◌-◌, ◌%◌, ◌≡◌, refl, Bool, not, ◌&&◌, some, List, [], ◌∷◌, inl, inr, if◌then◌else◌,
  ◌==◌, length, u64_mod, Bool-cases,
}
use htmpfs.Prelude.Map
use htmpfs.Prelude.Map.{Map, id_key, bytes_key, find-emplace-some, find-erase-some}
use htmpfs.Prelude.Bytes.{Bytes, bytes_eq, bytes_eq_refl}
use htmpfs.Errors.{throws, undefined, out_of_range, dir_not_empty, requested_inode_not_found}
use htmpfs.Exec.{pure, raise, lift, ◌>>=◌}
use htmpfs.Exec.Keeps.{Keeps, bind-Keeps, if-Keeps, if-runs-Keeps, lookup-Keeps, case-Keeps}
use htmpfs.Dentry
use htmpfs.Dentry.{Entry}
use htmpfs.FilePath
use htmpfs.FilePath.{FilePath, slash, is_empty}
use htmpfs.Pool.{get_free_id}
use htmpfs.Inode
use htmpfs.Inode.{Version, current}
use htmpfs.Inode.Keeps.{IsWhole}
use htmpfs.SnapshotPath.{if_snapshot}
use htmpfs.Smi.{Smi, InodePack, root, get_inode_by_id, member, open_dir, save_current}
use htmpfs.Smi.Names.{
  inode_at, walk, locate, get_inode_id_by_path, any_forbidden, emplace_inode, list_inode,
  make_child_in, make_child_dentry_under_parent, is_not_a_directory, check_empty, unlist_inode,
  drop_link, release_target, remove_child_dentry_under_parent, descend, remove_at,
  remove_inode_by_path, count_link_for_inode,
}
use htmpfs.Prelude.Sums.{sum-emplace, sum-erase_le}
use htmpfs.Smi.Sound.{
  Scope, refs_of, relinked-IsSound, Sound, with_pool-IsSound, emplaced-IsWhole, attempt-Keeps,
  get_inode_by_id-Keeps, member-Keeps, open_dir-Keeps, save_current-Keeps,
}

module _ (scope : Scope) where
  pub with_versions-IsSound :
      (s : Smi) (list : Map Version (List ℕ))
      → Sound scope s
      → Sound scope (record s { snapshot_version_list = list })
  with_versions-IsSound s list w = record { sized = w.sized; inodes = w.inodes; linked = w.linked }

  inode_at-Keeps : (id : ℕ) → Keeps (Sound scope) (inode_at id)
  unfolding inode_at
  inode_at-Keeps id s w = if-runs-Keeps (Sound scope) (Map.contains id s.inode_pool) _ _ w w

  walk-Keeps :
      (version : Version) (id : ℕ) (path : List Bytes) → Keeps (Sound scope) (walk version id path)
  unfolding walk
  walk-Keeps version id [] = λ s w. w
  walk-Keeps version id (i ∷ path) =
      case-Keeps (Sound scope) (is_empty i) _ _ (walk-Keeps version id path) (
        bind-Keeps (Sound scope) (inode_at id) _ (inode_at-Keeps id) λ inode.
          bind-Keeps (Sound scope) (open_dir inode version) _ (open_dir-Keeps scope inode version)
            λ dir.
              bind-Keeps (Sound scope) (lift (Dentry.namei i dir.path)) _ (λ s w. w)
                λ next. walk-Keeps version next path)

  locate-Keeps :
      (version : Version) (vec_path : FilePath) → Keeps (Sound scope) (locate version vec_path)
  unfolding locate
  locate-Keeps version vec_path s w =
      if-runs-Keeps (Sound scope) (not (bytes_eq version current) && (length vec_path == 1)) _ _
        (if-runs-Keeps (Sound scope) (Map.contains version s.snapshot_version_list) _ _ w w)
        (walk-Keeps version root vec_path s w)

  pub get_inode_id_by_path-Keeps : (path : Bytes) → Keeps (Sound scope) (get_inode_id_by_path path)
  unfolding get_inode_id_by_path
  get_inode_id_by_path-Keeps [] = λ s w. w
  get_inode_id_by_path-Keeps (c ∷ path) =
      if-Keeps (Sound scope) (not (c == slash)) _ _ (λ s w. w)
        (bind-Keeps (Sound scope) (lift (if_snapshot (c ∷ path))) _ (λ s w. w)
          λ (version, parsed_path). locate-Keeps version (FilePath.new parsed_path))

  new_inode-IsWhole :
      (id : ℕ) (is_dir : Bool) (s : Smi)
      → Sound scope s
      → IsWhole scope.block_size id (Inode.new s.block_size id is_dir)
  unfolding Map.contains
  new_inode-IsWhole id is_dir s w = record {
    sized = w.sized;
    named = refl;
    has_current = rw (bytes_eq_refl current) refl;
  }

  emplaced-IsSound :
      (id : ℕ) (is_dir : Bool) (s : Smi)
      → Sound scope s
      → Sound scope (record s {
        inode_pool =
            Map.emplace id
              (record { link_count = 1; inode = Inode.new s.block_size id is_dir })
              s.inode_pool;
      })
  emplaced-IsSound id is_dir s w =
      let pack : InodePack = record { link_count = 1; inode = Inode.new s.block_size id is_dir } in
      with_pool-IsSound scope s s.buffer_pool _ w
        (emplaced-IsWhole scope s.inode_pool id pack w.inodes (new_inode-IsWhole id is_dir s w))
        λ (u : scope.followed).
          let (small, held) = w.linked u in
          (small, λ j. omega (arith, held j, sum-emplace (refs_of j) id pack s.inode_pool))

  emplace_inode-Keeps : (is_dir : Bool) → Keeps (Sound scope) (emplace_inode is_dir)
  unfolding emplace_inode
  emplace_inode-Keeps is_dir s =
      bind-Keeps (Sound scope) (lift (get_free_id s.max_inodes s.inode_pool)) _ (λ s w. w)
        (λ id s' w'. emplaced-IsSound id is_dir s' w') s

  list_inode-Keeps : (id : ℕ) → Keeps (Sound scope) (list_inode id)
  unfolding list_inode
  list_inode-Keeps id s w =
      lookup-Keeps (Sound scope) (Map.find current s.snapshot_version_list) (throws out_of_range, s)
        _ w (λ ids e. with_versions-IsSound s _ w)

  make_child_in-Keeps :
      (parent : ℕ) (path : List Entry) (name : Bytes) (is_dir : Bool)
      → Keeps (Sound scope) (make_child_in parent path name is_dir)
  unfolding make_child_in
  make_child_in-Keeps parent path name is_dir =
      if-Keeps (Sound scope) (not (Dentry.check_availability name path)) _ _ (λ s w. w)
        (bind-Keeps (Sound scope) (emplace_inode is_dir) _ (emplace_inode-Keeps is_dir) λ id.
          bind-Keeps (Sound scope) (lift (Dentry.add_path name id path)) _ (λ s w. w)
            λ path'.
              bind-Keeps (Sound scope) (save_current parent path') _
                (save_current-Keeps scope parent path')
                λ _. bind-Keeps (Sound scope) (list_inode id) _ (list_inode-Keeps id) λ _ s w. w)

  pub make_child_dentry_under_parent-Keeps :
      (parent : ℕ) (name : Bytes) (is_dir : Bool)
      → Keeps (Sound scope) (make_child_dentry_under_parent parent name is_dir)
  unfolding make_child_dentry_under_parent
  make_child_dentry_under_parent-Keeps parent name is_dir =
      if-Keeps (Sound scope) (any_forbidden name) _ _ (λ s w. w)
        (bind-Keeps (Sound scope) (get_inode_by_id parent) _ (get_inode_by_id-Keeps scope parent)
          λ inode.
            bind-Keeps (Sound scope) (open_dir inode current) _ (open_dir-Keeps scope inode current)
              λ dir. make_child_in-Keeps inode dir.path name is_dir)

  erased-IsSound :
      (id : ℕ) (s : Smi)
      → Sound scope s
      → Sound scope (record s { inode_pool = Map.erase id s.inode_pool })
  erased-IsSound id s w =
      with_pool-IsSound scope s s.buffer_pool _ w
        (λ j x e. w.inodes j x (find-erase-some j id s.inode_pool x e))
        λ (u : scope.followed).
          let (small, held) = w.linked u in
          (small, λ j. omega (arith, held j, sum-erase_le (refs_of j) id s.inode_pool))

  -- A node that loses a link stays as it is, or goes.
  pub drop_link-IsSound :
      (id : ℕ) (s : Smi) (pack : InodePack)
      → Map.find id s.inode_pool ≡ some pack
      → Sound scope s
      → Sound scope (drop_link id s pack)
  unfolding drop_link
  drop_link-IsSound id s pack e w =
      let count : ℕ = (pack.link_count + u64_mod - 1) % u64_mod in
      elim (Bool-cases (count == 0)) [
        | inl last ↦ rw last (erased-IsSound id s w)
        | inr more ↦ rw more (relinked-IsSound scope s id count pack w e)
      ]

  check_empty-Keeps : (target : ℕ) → Keeps (Sound scope) (check_empty target)
  unfolding check_empty
  check_empty-Keeps target =
      attempt-Keeps scope
        (do
          dir ← open_dir target current
          if length dir.path == 0 then pure tt else raise dir_not_empty)
        (λ e. if is_not_a_directory e then pure tt else lift (throws e))
        (bind-Keeps (Sound scope) (open_dir target current) _ (open_dir-Keeps scope target current)
          λ dir. if-Keeps (Sound scope) (length dir.path == 0) _ _ (λ s w. w) (λ s w. w))
        (λ e. if-Keeps (Sound scope) (is_not_a_directory e) _ _ (λ s w. w) (λ s w. w))

  unlist_inode-Keeps : (id : ℕ) → Keeps (Sound scope) (unlist_inode id)
  unfolding unlist_inode
  unlist_inode-Keeps id s w =
      lookup-Keeps (Sound scope) (Map.find current s.snapshot_version_list) (throws out_of_range, s)
        _ w (λ ids e. with_versions-IsSound s _ w)

  release_target-Keeps : (id : ℕ) → Keeps (Sound scope) (release_target id)
  unfolding release_target
  release_target-Keeps id s w =
      lookup-Keeps (Sound scope) (Map.find id s.inode_pool) (undefined, s) _ w
        (λ pack e. drop_link-IsSound id s pack e w)

  pub remove_child_dentry_under_parent-Keeps :
      (parent : ℕ) (name : Bytes)
      → Keeps (Sound scope) (remove_child_dentry_under_parent parent name)
  unfolding remove_child_dentry_under_parent
  remove_child_dentry_under_parent-Keeps parent name =
      bind-Keeps (Sound scope) (get_inode_by_id parent) _ (get_inode_by_id-Keeps scope parent)
        λ inode.
          bind-Keeps (Sound scope) (open_dir inode current) _ (open_dir-Keeps scope inode current)
            λ dir.
              bind-Keeps (Sound scope) (lift (Dentry.namei name dir.path)) _ (λ s w. w)
                λ target.
                  bind-Keeps (Sound scope) (check_empty target) _ (check_empty-Keeps target) λ _.
                    bind-Keeps (Sound scope) (lift (Dentry.remove_path name dir.path)) _ (λ s w. w)
                      λ path.
                        bind-Keeps (Sound scope) (save_current inode path) _
                          (save_current-Keeps scope inode path)
                          λ _.
                            bind-Keeps (Sound scope) (unlist_inode target) _
                              (unlist_inode-Keeps target) λ _. release_target-Keeps target

  descend-Keeps : (id : ℕ) (path : List Bytes) → Keeps (Sound scope) (descend id path)
  unfolding descend
  descend-Keeps id [] = λ s w. w
  descend-Keeps id (c ∷ []) = λ s w. w
  descend-Keeps id (c ∷ d ∷ path) =
      bind-Keeps (Sound scope) (open_dir id current) _ (open_dir-Keeps scope id current) λ dir.
        bind-Keeps (Sound scope) (lift (Dentry.namei c dir.path)) _ (λ s w. w)
          λ next.
            bind-Keeps (Sound scope) (get_inode_by_id next) _ (get_inode_by_id-Keeps scope next)
              λ inode. descend-Keeps inode (d ∷ path)

  remove_at-Keeps : (path : FilePath) → Keeps (Sound scope) (remove_at path)
  unfolding remove_at
  remove_at-Keeps [] = λ s w. w
  remove_at-Keeps (_ ∷ []) = λ s w. w
  remove_at-Keeps (_ ∷ c ∷ path) =
      bind-Keeps (Sound scope) (descend root (c ∷ path)) _ (descend-Keeps root (c ∷ path)) λ inode.
        bind-Keeps (Sound scope) (member inode (λ i. i.inode_id)) _
          (member-Keeps scope inode (λ i. i.inode_id))
          λ parent. remove_child_dentry_under_parent-Keeps parent (FilePath.last (c ∷ path))

  pub remove_inode_by_path-Keeps : (path : Bytes) → Keeps (Sound scope) (remove_inode_by_path path)
  unfolding remove_inode_by_path
  remove_inode_by_path-Keeps path =
      if-Keeps (Sound scope) (bytes_eq path (slash ∷ [])) _ _ (λ s w. w)
        (remove_at-Keeps (FilePath.new path))

  pub count_link_for_inode-Keeps : (id : ℕ) → Keeps (Sound scope) (count_link_for_inode id)
  unfolding count_link_for_inode
  count_link_for_inode-Keeps id s w =
      lookup-Keeps (Sound scope) (Map.find id s.inode_pool) (raise requested_inode_not_found s)
        (λ pack. pure pack.link_count s) w (λ pack e. w)
