-- ===== src/Fuse/Sound.antt =====
-- The inode pool across requests (src/utils/fuse.cpp, src/utils/mount.htmpfs.cpp).
pub mod Change
pub mod Rename
pub mod Served
use htmpfs.Prelude.{
  ℕ, ◌*◌, ◌≡◌, refl, Bool, true, false, not, ◌&&◌, none, some, List, [], ◌∷◌, ◌++◌, arith,
  if◌then◌else◌, ◌==◌, length, ltb, add64,
}
use Prim.Native.Nat.{bit_and}
use htmpfs.Prelude.Map
use htmpfs.Prelude.Map.{id_key, bytes_key}
use htmpfs.Prelude.Bytes.{Bytes, bytes_eq, bytes_eq_refl}
use htmpfs.Prelude.Int.{pos, neg}
use htmpfs.Errors.{Thrown, htmpfs_error, out_of_range, ErrorCode, throws, undefined}
use htmpfs.Fuse.Change.{find_inode, new_child}
use htmpfs.Exec.{Exec, pure, lift, ◌>>=◌, ◌>>◌}
use htmpfs.Exec.Keeps.{Keeps, bind-Keeps, if-Keeps, if-runs-Keeps}
use htmpfs.FilePath
use htmpfs.FilePath.{FilePath, is_empty, pop_end, to_string}
use htmpfs.Dentry
use htmpfs.Dentry.{Entry}
use htmpfs.Inode
use htmpfs.Inode.{Stat, Version, Time, current}
use htmpfs.Inode.Keeps.{IsWhole}
use htmpfs.Inode.Fine.{truncate-IsFine, write-IsFine, read-IsFine, current_data_size-IsFine}
use htmpfs.SnapshotPath.{if_snapshot, snapshot_entry}
use htmpfs.Smi
use htmpfs.Smi.{
  Smi, InodePack, root, attempt, on_inode, get_inode_by_id, member, open_dir, refresh, save_current,
}
use htmpfs.Smi.Names.{
  get_inode_id_by_path, make_child_dentry_under_parent, remove_inode_by_path,
  remove_child_dentry_under_parent, count_link_for_inode,
}
use htmpfs.Smi.Snapshots.{create_snapshot_volume, delete_snapshot_volume}
use htmpfs.Smi.Sound.{
  Scope, attempt-IsSound, IsSound, Sound, on_inode-Keeps, attempt-Keeps, get_inode_by_id-Keeps,
  member-Keeps, open_dir-Keeps, refresh-Keeps, save_current-Keeps,
}
use htmpfs.Smi.Sound.Names.{
  get_inode_id_by_path-Keeps, make_child_dentry_under_parent-Keeps, remove_inode_by_path-Keeps,
  remove_child_dentry_under_parent-Keeps, count_link_for_inode-Keeps,
}
use htmpfs.Smi.Sound.Snapshots.{delete_snapshot_volume-Keeps}
use htmpfs.Fuse.{
  Host, Reply, code, attributes, listing, bytes, success, thrown_errno, catch_tail, check_rdonly_fs,
  snapshot_root, set_stat,
}
use htmpfs.Fuse.Query.{
  list_dir, dots, snapshot_root_stat, do_getattr, do_readdir, do_access, do_open, do_read,
  do_readlink, s_iflnk,
}

module _ (scope : Scope) where
  abbrev pub I : Smi → Type 0
  I = Sound scope

  pub catch_tail-Keeps :
      (host : Host) (m : Exec Smi Reply) → Keeps I m → Keeps I (catch_tail host m)
  unfolding catch_tail
  catch_tail-Keeps host m h =
      attempt-Keeps scope m (λ e. pure (code (neg (thrown_errno host e)))) h (λ e s w. w)

  -- The same in one state.
  pub catch_tail-IsSound :
      (host : Host) (m : Exec Smi Reply) (s : Smi)
      → Sound scope (m s).1
      → Sound scope (catch_tail host m s).1
  unfolding catch_tail
  catch_tail-IsSound host m s h =
      attempt-IsSound scope m (λ e. pure (code (neg (thrown_errno host e)))) s h (λ e t w. w)

  pub check_rdonly_fs-Keeps :
      (path : Bytes) (m : Exec Smi Reply) → Keeps I m → Keeps I (check_rdonly_fs path m)
  unfolding check_rdonly_fs
  check_rdonly_fs-Keeps path m h =
      bind-Keeps I (lift (if_snapshot path)) _ (λ s w. w)
        λ (version, parsed_path). if-Keeps I (not (bytes_eq version current)) _ _ (λ s w. w) h

  -- A handler behind the test of its path.
  pub guarded-Keeps :
      (host : Host) (path : Bytes) (m : Exec Smi Reply)
      → Keeps I m
      → Keeps I (catch_tail host (check_rdonly_fs path m))
  guarded-Keeps host path m h = catch_tail-Keeps host _ (check_rdonly_fs-Keeps path m h)

  pub set_stat-Keeps : (id : ℕ) (f : Stat → Stat) → Keeps I (set_stat id f)
  unfolding set_stat
  set_stat-Keeps id f =
      on_inode-Keeps scope id _ (
        λ s w. record { sized = w.sized; named = w.named; has_current = w.has_current },
        λ g s w. w,
      )

  pub find_inode-Keeps : (path : Bytes) → Keeps I (find_inode path)
  unfolding find_inode
  find_inode-Keeps path =
      bind-Keeps I (get_inode_id_by_path path) _ (get_inode_id_by_path-Keeps scope path)
        (get_inode_by_id-Keeps scope)

  pub new_child-Keeps :
      (parent : FilePath) (name : Bytes) (is_dir : Bool) → Keeps I (new_child parent name is_dir)
  unfolding new_child
  new_child-Keeps parent name is_dir =
      bind-Keeps I (get_inode_id_by_path (to_string parent)) _
        (get_inode_id_by_path-Keeps scope (to_string parent))
        λ parent_id.
          bind-Keeps I (make_child_dentry_under_parent parent_id name is_dir) _
            (make_child_dentry_under_parent-Keeps scope parent_id name is_dir)
            (get_inode_by_id-Keeps scope)

  -- A path that is looked up together with its version.
  located-Keeps :
      {A : Type 0} (path : Bytes) (m : Version → ℕ → ℕ → Exec Smi A)
      → ((version : Version) (id inode : ℕ) → Keeps I (m version id inode))
      → Keeps I (do
        (version, parsed_path) ← lift (if_snapshot path)
        inode_id ← get_inode_id_by_path path
        inode ← get_inode_by_id inode_id
        m version inode_id inode)
  located-Keeps path m h =
      bind-Keeps I (lift (if_snapshot path)) _ (λ s w. w)
        λ (version, parsed_path).
          bind-Keeps I (get_inode_id_by_path path) _ (get_inode_id_by_path-Keeps scope path) λ id.
            bind-Keeps I (get_inode_by_id id) _ (get_inode_by_id-Keeps scope id)
              λ inode. h version id inode

  pub do_getattr-Keeps :
      (host : Host) (path : Bytes) (stbuf : Stat) → Keeps I (do_getattr host path stbuf)
  unfolding do_getattr
  do_getattr-Keeps host path stbuf = catch_tail-Keeps host _ (
      if-Keeps I (bytes_eq snapshot_root path) _ _ (λ s w. w)
        (located-Keeps path _ λ version id inode.
          bind-Keeps I (member inode (λ i. i.fs_stat)) _ (member-Keeps scope inode (λ i. i.fs_stat))
            λ stat.
              bind-Keeps I (on_inode inode (Inode.current_data_size version)) _
                (on_inode-Keeps scope inode (Inode.current_data_size version)
                  (current_data_size-IsFine scope.block_size inode version))
                λ size.
                  bind-Keeps I (count_link_for_inode id) _ (count_link_for_inode-Keeps scope id)
                    λ links s w. w))

  list_dir-Keeps : (path : Bytes) → Keeps I (list_dir path)
  unfolding list_dir
  list_dir-Keeps path =
      if-Keeps I (bytes_eq snapshot_root path) _ _ (λ s w. w)
        (located-Keeps path _ λ version id inode.
          bind-Keeps I (open_dir inode version) _ (open_dir-Keeps scope inode version) λ dir s w. w)

  pub do_readdir-Keeps : (host : Host) (path : Bytes) → Keeps I (do_readdir host path)
  unfolding do_readdir
  do_readdir-Keeps host path =
      attempt-Keeps scope (do rest ← list_dir path; pure (listing (pos 0) (dots path ++ rest)))
        (λ e. pure (listing (neg (thrown_errno host e)) (dots path)))
        (bind-Keeps I (list_dir path) _ (list_dir-Keeps path) λ rest s w. w) (λ e s w. w)

  pub do_access-Keeps : (host : Host) (path : Bytes) (mode : ℕ) → Keeps I (do_access host path mode)
  unfolding do_access
  do_access-Keeps host path mode = catch_tail-Keeps host _ (
      if-Keeps I (bytes_eq snapshot_root path) _ _ (λ s w. w)
        (bind-Keeps I (get_inode_id_by_path path) _ (get_inode_id_by_path-Keeps scope path) λ id.
          bind-Keeps I (get_inode_by_id id) _ (get_inode_by_id-Keeps scope id) λ inode.
            bind-Keeps I (member inode (λ i. i.fs_stat.st_mode)) _
              (member-Keeps scope inode (λ i. i.fs_stat.st_mode)) λ st_mode s w. w))

  pub do_open-Keeps : (host : Host) (path : Bytes) → Keeps I (do_open host path)
  unfolding do_open
  do_open-Keeps host path = catch_tail-Keeps host _ (
      if-Keeps I (bytes_eq snapshot_root path) _ _ (λ s w. w)
        (bind-Keeps I (get_inode_id_by_path path) _ (get_inode_id_by_path-Keeps scope path)
          λ id s w. w))

  pub do_read-Keeps :
      (host : Host) (path : Bytes) (size offset : ℕ) → Keeps I (do_read host path size offset)
  unfolding do_read
  do_read-Keeps host path size offset = catch_tail-Keeps host _ (
      located-Keeps path _ λ version id inode.
        bind-Keeps I (set_stat inode (λ st. record st { st_atim = host.clock 0 })) _
          (set_stat-Keeps inode (λ st. record st { st_atim = host.clock 0 }))
          λ _.
            bind-Keeps I (on_inode inode (Inode.read version size offset)) _
              (on_inode-Keeps scope inode (Inode.read version size offset)
                (read-IsFine scope.block_size inode version size offset))
              λ data' s w. w)

  pub do_readlink-Keeps :
      (host : Host) (path : Bytes) (size : ℕ) → Keeps I (do_readlink host path size)
  unfolding do_readlink
  do_readlink-Keeps host path size = catch_tail-Keeps host _ (
      located-Keeps path _ λ version id inode.
        bind-Keeps I (member inode (λ i. i.fs_stat.st_mode)) _
          (member-Keeps scope inode (λ i. i.fs_stat.st_mode))
          λ st_mode.
            if-Keeps I (bit_and st_mode s_iflnk == 0) _ _ (λ s w. w)
              (bind-Keeps I (on_inode inode (Inode.read version size 0)) _
                (on_inode-Keeps scope inode (Inode.read version size 0)
                  (read-IsFine scope.block_size inode version size 0))
                λ data' s w. w))
