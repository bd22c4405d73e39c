-- ===== src/Fuse/Rename.antt =====
-- `do_rename` (src/utils/fuse.cpp): a new entry in the target's directory, then the removal of the
-- old one.
use htmpfs.Prelude.{ℕ, Bool, true, false, List, length, ◌==◌, if◌then◌else◌}
use htmpfs.Prelude.Bytes.{Bytes}
use htmpfs.Errors.{Thrown, htmpfs_error, throws, invalid_dentry_name, double_mkpathname}
use htmpfs.Exec.{Exec, pure, raise, lift, ◌>>=◌, ◌>>◌}
use htmpfs.FilePath
use htmpfs.FilePath.{FilePath, pop_end, to_string}
use htmpfs.Dentry
use htmpfs.Dentry.{Entry}
use htmpfs.Inode.{current}
use htmpfs.Smi.{Smi, attempt, get_inode_by_id, open_dir, refresh, save_current}
use htmpfs.Smi.Names.{get_inode_id_by_path, remove_child_dentry_under_parent}
use htmpfs.Fuse.{Host, Reply, success, catch_tail, check_rdonly_fs}

-- `HTMPFS_DOUBLE_MKPATHNAME`, the error after which the target is replaced.
abbrev pub is_double : Thrown → Bool
is_double (htmpfs_error double_mkpathname) = true
is_double _ = false

-- `add_path` and `save_current` of a resolver that holds the entries `path`.
unfoldable pub add_entry : ℕ → Bytes → ℕ → List Entry → Exec Smi (Unit {0})
add_entry dir name inode_id path = do
  path' ← lift (Dentry.add_path name inode_id path)
  save_current dir path'

-- The target exists: it is removed, and the entries are read again.
unfoldable pub replace_entry : ℕ → Bytes → ℕ → Exec Smi (Unit {0})
replace_entry dir name inode_id = do
  remove_child_dentry_under_parent dir name
  path ← refresh dir current
  add_entry dir name inode_id path

-- The `try` of `do_rename`.
unfoldable pub link_entry : ℕ → Bytes → ℕ → List Entry → Exec Smi (Unit {0})
link_entry dir name inode_id path =
    attempt (add_entry dir name inode_id path)
      λ e. if is_double e then replace_entry dir name inode_id else lift (throws e)

-- "remove dentry in parent inode"
unfoldable pub unlink_entry : FilePath → Bytes → Exec Smi (Unit {0})
unlink_entry original original_name = do
  parent_inode_id ← get_inode_id_by_path (to_string original)
  parent_inode ← get_inode_by_id parent_inode_id
  dir ← open_dir parent_inode current
  path ← lift (Dentry.remove_path original_name dir.path)
  save_current parent_inode path

-- The rest of `do_rename`, behind the tests of both paths.
unfoldable pub move_entry : ℕ → FilePath → Bytes → FilePath → Bytes → Exec Smi Reply
move_entry inode_id original original_name target target_name = do
  target_parent_inode_id ← get_inode_id_by_path (to_string target)
  target_parent_inode ← get_inode_by_id target_parent_inode_id
  dir ← open_dir target_parent_inode current
  link_entry target_parent_inode target_name inode_id dir.path
  unlink_entry original original_name
  pure success

-- `do_rename(path, name)`
unfoldable pub do_rename : Host → Bytes → Bytes → Exec Smi Reply
do_rename host path name = catch_tail host (
    check_rdonly_fs path (
      check_rdonly_fs name (do
        inode_id ← get_inode_id_by_path path
        let (original_name, original) = pop_end (FilePath.new path)
        let (target_name, target) = pop_end (FilePath.new name)
        (if length original == 0
            then raise invalid_dentry_name
            else if length target == 0
            then raise invalid_dentry_name
            else move_entry inode_id original original_name target target_name))))
