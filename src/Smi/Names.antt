-- ===== src/Smi/Names.antt =====
-- The operations of `inode_smi_t` on names: path lookup, creation and removal of children.
use htmpfs.Prelude.{
  ℕ, ◌+◌, ◌-◌, ◌%◌, Bool, true, false, not, ◌&&◌, ◌||◌, none, some, List, [], ◌∷◌, ◌++◌, length,
  leb, ltb, ◌==◌, if◌then◌else◌, u64_mod,
}
use htmpfs.Prelude.Bytes.{Bytes, bytes_eq}
use htmpfs.Prelude.Map
use htmpfs.Prelude.Map.{Map, id_key, bytes_key}
use htmpfs.Errors.{
  Thrown, htmpfs_error, throws, undefined, out_of_range, invalid_dentry_name,
  requested_inode_not_found, double_mkpathname, no_such_snapshot, not_a_directory, dir_not_empty,
  cannot_remove_root,
}
use htmpfs.Exec.{Exec, pure, raise, lift, modify, ◌>>=◌, ◌>>◌}
use htmpfs.FilePath
use htmpfs.FilePath.{FilePath, slash, is_empty}
use htmpfs.Dentry
use htmpfs.Dentry.{Entry}
use htmpfs.Pool.{get_free_id}
use htmpfs.Inode
use htmpfs.Inode.{Version, current}
use htmpfs.SnapshotPath.{if_snapshot}
use htmpfs.Smi.{Smi, InodePack, root, attempt, get_inode_by_id, member, open_dir, save_current}

-- `inode_pool.at(id)`, where the pointer to the node is wanted.
unfoldable pub inode_at : ℕ → Exec Smi ℕ
inode_at id s = if Map.contains id s.inode_pool then pure id s else (throws out_of_range, s)

-- The loop of `get_inode_id_by_path` over the components.
unfoldable pub walk : Version → ℕ → List Bytes → Exec Smi ℕ
walk version current_inode [] = pure current_inode
walk version current_inode (i ∷ path) = elim (is_empty i) [
  | true ↦ walk version current_inode path
  | false ↦ do
    inode ← inode_at current_inode
    dir ← open_dir inode version
    next ← lift (Dentry.namei i dir.path)
    walk version next path
]

-- The end of `get_inode_id_by_path`, behind `if_snapshot`.
unfoldable pub locate : Version → FilePath → Exec Smi ℕ
locate version vec_path s =
    if not (bytes_eq version current) && (length vec_path == 1)
    then (if Map.contains version s.snapshot_version_list
        then pure root s
        else raise no_such_snapshot s)
    else walk version root vec_path s

-- `get_inode_id_by_path(path)`
unfoldable pub get_inode_id_by_path : Bytes → Exec Smi ℕ
get_inode_id_by_path [] = pure root
get_inode_id_by_path (c ∷ path) = if not (c == slash) then raise invalid_dentry_name else (do
  (version, parsed_path) ← lift (if_snapshot (c ∷ path))
  locate version (FilePath.new parsed_path))

-- `i == '/' || i < 0x1F || i >= 0x7F`, on a byte (a `char` from 0x80 on is negative, and refused).
abbrev pub is_forbidden : ℕ → Bool
is_forbidden i = i == slash || (ltb i 0x1F || leb 0x7F i)

unfoldable pub any_forbidden : Bytes → Bool
any_forbidden [] = false
any_forbidden (i ∷ name) = is_forbidden i || any_forbidden name

-- A new inode in the pool, and its id.
unfoldable pub emplace_inode : Bool → Exec Smi ℕ
emplace_inode is_dir s =
    (do
      new_inode_id ← lift (get_free_id s.max_inodes s.inode_pool)
      modify λ s'. record s' {
        inode_pool =
            Map.emplace new_inode_id
              (record { link_count = 1; inode = Inode.new s'.block_size new_inode_id is_dir })
              s'.inode_pool;
      }
      pure new_inode_id)
      s

-- `snapshot_version_list.at("current").emplace_back(…)`
unfoldable pub list_inode : ℕ → Exec Smi (Unit {0})
list_inode id s = elim (Map.find current s.snapshot_version_list) [
  | none ↦ (throws out_of_range, s)
  | some ids ↦ pure tt (record s {
    snapshot_version_list = Map.assign current (ids ++ id ∷ []) s.snapshot_version_list;
  })
]

-- The rest of `make_child_dentry_under_parent`, in a directory with the entries `path`.
unfoldable pub make_child_in : ℕ → List Entry → Bytes → Bool → Exec Smi ℕ
make_child_in parent path name is_dir =
    if not (Dentry.check_availability name path) then raise double_mkpathname else (do
      new_inode_id ← emplace_inode is_dir
      path' ← lift (Dentry.add_path name new_inode_id path)
      save_current parent path'
      list_inode new_inode_id
      pure new_inode_id)

-- `make_child_dentry_under_parent(parent_inode_id, name, is_dir)`
unfoldable pub make_child_dentry_under_parent : ℕ → Bytes → Bool → Exec Smi ℕ
make_child_dentry_under_parent parent_inode_id name is_dir =
    if any_forbidden name then raise invalid_dentry_name else (do
      parent ← get_inode_by_id parent_inode_id
      dir ← open_dir parent current
      make_child_in parent dir.path name is_dir)

-- What the handler of `remove_child_dentry_under_parent` lets pass.
abbrev pub is_not_a_directory : Thrown → Bool
is_not_a_directory (htmpfs_error not_a_directory) = true
is_not_a_directory _ = false

-- The `try` of `remove_child_dentry_under_parent`: a directory must be empty.
unfoldable pub check_empty : ℕ → Exec Smi (Unit {0})
check_empty target =
    attempt
      (do
        dir ← open_dir target current
        if length dir.path == 0 then pure tt else raise dir_not_empty)
      λ e. if is_not_a_directory e then pure tt else lift (throws e)

-- The first occurrence of an id is erased.
unfoldable pub erase_first : ℕ → List ℕ → List ℕ
erase_first id [] = []
erase_first id (j ∷ ids) = if j == id then ids else j ∷ erase_first id ids

-- "remove inode in version current"
unfoldable pub unlist_inode : ℕ → Exec Smi (Unit {0})
unlist_inode id s = elim (Map.find current s.snapshot_version_list) [
  | none ↦ (throws out_of_range, s)
  | some ids ↦ pure tt (record s {
    snapshot_version_list = Map.assign current (erase_first id ids) s.snapshot_version_list;
  })
]

-- `link_count -= 1` of a node, and its removal from the pool at 0.
unfoldable pub drop_link : ℕ → Smi → InodePack → Smi
drop_link id s pack =
    let count = (pack.link_count + u64_mod - 1) % u64_mod in
    record s {
      inode_pool =
          if count == 0
          then Map.erase id s.inode_pool
          else Map.assign id (record pack { link_count = count }) s.inode_pool;
    }

-- The iterator `target_it`: the end of the pool may not be followed.
unfoldable pub release_target : ℕ → Exec Smi (Unit {0})
release_target id s = elim (Map.find id s.inode_pool) [
  | none ↦ (undefined, s)
  | some pack ↦ pure tt (drop_link id s pack)
]

-- `remove_child_dentry_under_parent(parent_inode_id, name)`
unfoldable pub remove_child_dentry_under_parent : ℕ → Bytes → Exec Smi (Unit {0})
remove_child_dentry_under_parent parent_inode_id name = do
  parent ← get_inode_by_id parent_inode_id
  dir ← open_dir parent current
  target_id ← lift (Dentry.namei name dir.path)
  check_empty target_id
  path ← lift (Dentry.remove_path name dir.path)
  save_current parent path
  unlist_inode target_id
  release_target target_id

-- The loop of `remove_inode_by_path` over the components between the root and the last one.
unfoldable pub descend : ℕ → List Bytes → Exec Smi ℕ
descend ops_inode [] = pure ops_inode
descend ops_inode (c ∷ []) = pure ops_inode
descend ops_inode (c ∷ d ∷ path) = do
  dir ← open_dir ops_inode current
  id ← lift (Dentry.namei c dir.path)
  inode ← get_inode_by_id id
  descend inode (d ∷ path)

unfoldable pub remove_at : FilePath → Exec Smi (Unit {0})
remove_at [] = lift undefined
remove_at (_ ∷ []) = lift undefined
remove_at (_ ∷ c ∷ path) = do
  ops_inode ← descend root (c ∷ path)
  parent ← member ops_inode (λ i. i.inode_id)
  remove_child_dentry_under_parent parent (FilePath.last (c ∷ path))

-- `remove_inode_by_path(pathname)`. For a path other than `/` that has no component, the count
-- `path.size() - 2` wraps and the loop runs off the end of the path.
unfoldable pub remove_inode_by_path : Bytes → Exec Smi (Unit {0})
remove_inode_by_path pathname =
    if bytes_eq pathname (slash ∷ [])
    then raise cannot_remove_root
    else remove_at (FilePath.new pathname)

-- `count_link_for_inode(inode_id)`
unfoldable pub count_link_for_inode : ℕ → Exec Smi ℕ
count_link_for_inode id s = elim (Map.find id s.inode_pool) [
  | none ↦ raise requested_inode_not_found s
  | some pack ↦ pure pack.link_count s
]
