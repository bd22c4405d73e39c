-- ===== src/Fuse/Change.antt =====
-- The handlers of src/utils/fuse.cpp that change files and directories, but for `do_rename`.
use Prim.Native.Nat.{bit_or}
use htmpfs.Prelude.{ℕ, Bool, true, false, ◌&&◌, length, ltb, add64, ◌==◌, if◌then◌else◌}
use htmpfs.Prelude.Bytes.{Bytes, bytes_eq}
use htmpfs.Prelude.Int.{neg, int32}
use htmpfs.Errors.{
  Thrown, htmpfs_error, out_of_range, throws, undefined, invalid_dentry_name, no_such_file_or_dir,
  erofs,
}
use htmpfs.Exec.{Exec, pure, raise, lift, ◌>>=◌, ◌>>◌}
use htmpfs.FilePath
use htmpfs.FilePath.{FilePath, is_empty, pop_end, to_string}
use htmpfs.Inode
use htmpfs.Inode.{Stat, Time, current}
use htmpfs.SnapshotPath.{snapshot_entry}
use htmpfs.Smi.{Smi, attempt, on_inode, get_inode_by_id, root}
use htmpfs.Smi.Names.{get_inode_id_by_path, make_child_dentry_under_parent, remove_inode_by_path}
use htmpfs.Smi.Snapshots.{create_snapshot_volume, delete_snapshot_volume}
use htmpfs.Fuse.{Host, Reply, code, success, catch_tail, check_rdonly_fs, set_stat}
use htmpfs.Fuse.Query.{s_ifdir, s_ifreg, s_iflnk, rwxr_xr_x}

-- `get_inode_by_id(get_inode_id_by_path(path))`
unfoldable pub find_inode : Bytes → Exec Smi ℕ
find_inode path = do inode_id ← get_inode_id_by_path path; get_inode_by_id inode_id

-- `make_child_dentry_under_parent` in the directory `parent`, and the new inode.
unfoldable pub new_child : FilePath → Bytes → Bool → Exec Smi ℕ
new_child parent name is_dir = do
  parent_id ← get_inode_id_by_path (to_string parent)
  child_id ← make_child_dentry_under_parent parent_id name is_dir
  get_inode_by_id child_id

-- `vpath` is `/.snapshot`, so its child is a snapshot volume.
abbrev pub is_snapshot_dir : FilePath → Bool
is_snapshot_dir vpath = length vpath == 2 && bytes_eq (FilePath.last vpath) snapshot_entry

-- `do_mkdir(path, mode)`
unfoldable pub do_mkdir : Host → Bytes → ℕ → Exec Smi Reply
do_mkdir host path mode = catch_tail host (do
  let (target_name, vpath) = pop_end (FilePath.new path)
  (if is_empty target_name
      then raise invalid_dentry_name
      else if is_snapshot_dir vpath
      then (do create_snapshot_volume target_name; pure success)
      else check_rdonly_fs path (do
        child_inode ← new_child vpath target_name true
        set_stat child_inode (λ st. record st {
          st_size = 0;
          st_ctim = host.clock 0;
          st_atim = host.clock 1;
          st_mtim = host.clock 2;
          st_ino = root;
          st_mode = bit_or mode s_ifdir;
          st_nlink = 1;
        })
        pure success)))

-- `do_chmod(path, mode)`
unfoldable pub do_chmod : Host → Bytes → ℕ → Exec Smi Reply
do_chmod host path mode = catch_tail host (
    check_rdonly_fs path (do
      inode ← find_inode path
      set_stat inode (λ st. record st { st_mode = mode; st_ctim = host.clock 0 })
      pure success))

-- `do_chown(path, uid, gid)`
unfoldable pub do_chown : Host → Bytes → ℕ → ℕ → Exec Smi Reply
do_chown host path uid gid = catch_tail host (
    check_rdonly_fs path (do
      inode ← find_inode path
      set_stat inode (λ st. record st { st_uid = uid; st_gid = gid; st_ctim = host.clock 0 })
      pure success))

-- What `do_create` fills in.
abbrev pub created_stat : Host → ℕ → Stat → Stat
created_stat host mode st = record st {
  st_mode = mode;
  st_nlink = 1;
  st_atim = host.clock 0;
  st_ctim = host.clock 0;
  st_mtim = host.clock 0;
  st_gid = host.gid;
  st_uid = host.uid;
}

-- `do_create(path, mode, …)`
unfoldable pub do_create : Host → Bytes → ℕ → Exec Smi Reply
do_create host path mode = catch_tail host (
    check_rdonly_fs path (do
      let (target_name, vpath) = pop_end (FilePath.new path)
      if length vpath == 0 then raise invalid_dentry_name else (do
        new_inode ← new_child vpath target_name false
        set_stat new_inode (created_stat host mode)
        pure success)))

-- `do_write(path, buffer, size, offset, …)`: the write resizes where it ends behind the data.
unfoldable pub do_write : Host → Bytes → Bytes → ℕ → ℕ → Exec Smi Reply
do_write host path buffer size offset = catch_tail host (
    check_rdonly_fs path (do
      inode ← find_inode path
      current_data_sz ← on_inode inode (Inode.current_data_size current)
      set_stat inode (λ st. record st { st_mtim = host.clock 0 })
      written ←
          on_inode inode
            (Inode.write buffer size offset (ltb current_data_sz (add64 offset size)) false)
      pure (code (int32 written))))

-- `do_utimens(path, tv)`
unfoldable pub do_utimens : Host → Bytes → Time → Time → Exec Smi Reply
do_utimens host path atim mtim = catch_tail host (
    check_rdonly_fs path (do
      inode ← find_inode path
      set_stat inode (λ st. record st { st_atim = atim; st_mtim = mtim })
      pure success))

-- `do_unlink(path)`
unfoldable pub do_unlink : Host → Bytes → Exec Smi Reply
do_unlink host path =
    catch_tail host (check_rdonly_fs path (do remove_inode_by_path path; pure success))

-- `do_rmdir(path)`
unfoldable pub do_rmdir : Host → Bytes → Exec Smi Reply
do_rmdir host path = catch_tail host (do
  let (target_name, vpath) = pop_end (FilePath.new path)
  (if is_empty target_name
      then raise invalid_dentry_name
      else if bytes_eq target_name snapshot_entry
      then pure (code (neg erofs))
      else if is_snapshot_dir vpath
      then (do delete_snapshot_volume target_name; pure success)
      else check_rdonly_fs path (do remove_inode_by_path path; pure success)))

-- What `do_truncate` does where the path leads nowhere: a new file.
unfoldable pub create_missing : Host → Bytes → ℕ → Exec Smi ℕ
create_missing host path size = do
  let (target_name, vpath) = pop_end (FilePath.new path)
  if length vpath == 0 then raise invalid_dentry_name else (do
    inode ← new_child vpath target_name false
    set_stat inode (λ st. record st {
      st_size = size;
      st_nlink = 1;
      st_atim = host.clock 0;
      st_ctim = host.clock 0;
      st_mtim = host.clock 0;
    })
    pure inode)

-- The handler inside `do_truncate`. After any other error of the filesystem `inode` is used
-- uninitialised.
unfoldable pub truncate_handler : Host → Bytes → ℕ → Thrown → Exec Smi ℕ
truncate_handler host path size (htmpfs_error no_such_file_or_dir) = create_missing host path size
truncate_handler host path size (htmpfs_error _) = lift undefined
truncate_handler host path size out_of_range = lift (throws out_of_range)

-- `do_truncate(path, size)`
unfoldable pub do_truncate : Host → Bytes → ℕ → Exec Smi Reply
do_truncate host path size = catch_tail host (
    check_rdonly_fs path (do
      inode ← attempt (find_inode path) (truncate_handler host path size)
      on_inode inode (Inode.truncate size)
      pure success))

-- `do_symlink(path, target)`
unfoldable pub do_symlink : Host → Bytes → Bytes → Exec Smi Reply
do_symlink host path target = catch_tail host (
    check_rdonly_fs path (
      check_rdonly_fs target (do
        let (target_name, vpath) = pop_end (FilePath.new target)
        if is_empty target_name then raise invalid_dentry_name else (do
          new_inode ← new_child vpath target_name false
          set_stat new_inode (λ st. record st {
            st_mode = bit_or s_iflnk rwxr_xr_x;
            st_nlink = 1;
            st_atim = host.clock 0;
            st_ctim = host.clock 0;
            st_mtim = host.clock 0;
            st_size = length target;
          })
          on_inode new_inode (Inode.write target (length target) 0 true false)
          pure success))))

-- `do_fallocate(path, mode, offset, length, …)`
unfoldable pub do_fallocate : Host → Bytes → ℕ → ℕ → ℕ → Exec Smi Reply
do_fallocate host path mode offset len = catch_tail host (
    check_rdonly_fs path (do
      inode ← find_inode path
      set_stat inode (λ st. record st {
        st_mode = bit_or mode s_ifreg;
        st_nlink = 1;
        st_ctim = host.clock 0;
        st_size = add64 offset len;
      })
      on_inode inode (Inode.truncate (add64 offset len))
      pure success))

-- `do_mknod(path, mode, device)`
unfoldable pub do_mknod : Host → Bytes → ℕ → ℕ → Exec Smi Reply
do_mknod host path mode device = catch_tail host (
    check_rdonly_fs path (do
      let (target_name, vpath) = pop_end (FilePath.new path)
      if is_empty target_name then raise invalid_dentry_name else (do
        new_inode ← new_child vpath target_name false
        set_stat new_inode (λ st. record st {
          st_mode = mode;
          st_nlink = 1;
          st_atim = host.clock 0;
          st_ctim = host.clock 0;
          st_mtim = host.clock 0;
          st_dev = device;
        })
        pure success)))
