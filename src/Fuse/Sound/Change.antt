-- ===== src/Fuse/Sound/Change.antt =====
-- The handlers of src/utils/fuse.cpp that change something keep the inode pool sound.
use htmpfs.Prelude.{ℕ, true, false, ◌==◌, length, ltb, add64}
use htmpfs.Prelude.Map.{id_key, bytes_key}
use htmpfs.Prelude.Bytes.{Bytes, bytes_eq}
use htmpfs.Errors.{no_such_file_or_dir, Thrown, htmpfs_error, out_of_range}
use htmpfs.Exec.{Exec, ◌>>◌}
use htmpfs.Exec.Keeps.{Keeps, bind-Keeps, if-Keeps, bind_after, if-exec}
use htmpfs.FilePath
use htmpfs.FilePath.{FilePath, is_empty, pop_end, to_string}
use htmpfs.Inode
use htmpfs.Inode.{Stat, Version, Time, current}
use htmpfs.Inode.Fine.{truncate-IsFine, write-IsFine, current_data_size-IsFine}
use htmpfs.SnapshotPath.{snapshot_entry}
use htmpfs.Smi.{Smi, attempt, on_inode}
use htmpfs.Smi.Names.{remove_inode_by_path}
use htmpfs.Smi.Snapshots.{create_snapshot_volume, delete_snapshot_volume}
use htmpfs.Smi.Sound.{Scope, Sound, on_inode-Keeps, attempt-Keeps}
use htmpfs.Smi.Sound.Names.{remove_inode_by_path-Keeps}
use htmpfs.Smi.Sound.Snapshots.{
  CanSnapshot, create_snapshot_volume-IsSound, delete_snapshot_volume-Keeps,
}
use htmpfs.Fuse.{Host, set_stat}
use htmpfs.Fuse.Change.{
  find_inode, new_child, is_snapshot_dir, do_mkdir, do_chmod, do_chown, do_create, do_write,
  do_utimens, do_unlink, do_rmdir, create_missing, truncate_handler, do_truncate, do_symlink,
  do_fallocate, do_mknod,
}
use htmpfs.Fuse.Sound.{
  catch_tail-IsSound, I, catch_tail-Keeps, check_rdonly_fs-Keeps, guarded-Keeps, set_stat-Keeps,
  find_inode-Keeps, new_child-Keeps,
}

module _ (scope : Scope) where
  -- What a handler does to an inode that it has found: its attributes first.
  stat_then-Keeps :
      {A : Type 0} (id : ℕ) (f : Stat → Stat) (m : Exec Smi A)
      → Keeps (I scope) m
      → Keeps (I scope) (set_stat id f >> m)
  stat_then-Keeps id f m h =
      bind-Keeps (I scope) (set_stat id f) (λ _. m) (set_stat-Keeps scope id f) (λ _. h)

  pub do_chmod-Keeps :
      (host : Host) (path : Bytes) (mode : ℕ) → Keeps (I scope) (do_chmod host path mode)
  unfolding do_chmod
  do_chmod-Keeps host path mode = guarded-Keeps scope host path _ (
      bind-Keeps (I scope) (find_inode path) _ (find_inode-Keeps scope path) λ inode.
        stat_then-Keeps inode (λ st. record st { st_mode = mode; st_ctim = host.clock 0 }) _
          (λ s w. w))

  pub do_chown-Keeps :
      (host : Host) (path : Bytes) (uid gid : ℕ) → Keeps (I scope) (do_chown host path uid gid)
  unfolding do_chown
  do_chown-Keeps host path uid gid = guarded-Keeps scope host path _ (
      bind-Keeps (I scope) (find_inode path) _ (find_inode-Keeps scope path) λ inode.
        stat_then-Keeps inode
          (λ st. record st { st_uid = uid; st_gid = gid; st_ctim = host.clock 0 }) _ (λ s w. w))

  pub do_utimens-Keeps :
      (host : Host) (path : Bytes) (atim mtim : Time)
      → Keeps (I scope) (do_utimens host path atim mtim)
  unfolding do_utimens
  do_utimens-Keeps host path atim mtim = guarded-Keeps scope host path _ (
      bind-Keeps (I scope) (find_inode path) _ (find_inode-Keeps scope path) λ inode.
        stat_then-Keeps inode (λ st. record st { st_atim = atim; st_mtim = mtim }) _ (λ s w. w))

  -- `mkdir` may make a snapshot.
  pub do_mkdir-IsSound :
      (host : Host) (path : Bytes) (mode : ℕ) (s : Smi)
      → Sound scope s
      → (scope.followed → CanSnapshot s)
      → Sound scope (do_mkdir host path mode s).1
  unfolding do_mkdir
  do_mkdir-IsSound host path mode s w room =
      let (target_name, vpath) = pop_end (FilePath.new path) in
      catch_tail-IsSound scope host _ s (
        if-exec (Sound scope) (is_empty target_name) _ _ s w (
          if-exec (Sound scope) (is_snapshot_dir vpath) _ _ s
            (bind_after (Sound scope) (Sound scope) (create_snapshot_volume target_name) _ s
              (λ t v. v) (create_snapshot_volume-IsSound scope target_name s w room) (λ u t v. v))
            (check_rdonly_fs-Keeps scope path _
              (bind-Keeps (I scope) (new_child vpath target_name true) _
                (new_child-Keeps scope vpath target_name true)
                λ inode. stat_then-Keeps inode _ _ (λ t v. v))
              s w)))

  pub do_create-Keeps :
      (host : Host) (path : Bytes) (mode : ℕ) → Keeps (I scope) (do_create host path mode)
  unfolding do_create
  do_create-Keeps host path mode =
      let (target_name, vpath) = pop_end (FilePath.new path) in
      guarded-Keeps scope host path _ (
        if-Keeps (I scope) (length vpath == 0) _ _ (λ s w. w)
          (bind-Keeps (I scope) (new_child vpath target_name false) _
            (new_child-Keeps scope vpath target_name false)
            λ inode. stat_then-Keeps inode _ _ (λ s w. w)))

  pub do_write-Keeps :
      (host : Host) (path buffer : Bytes) (size offset : ℕ)
      → Keeps (I scope) (do_write host path buffer size offset)
  unfolding do_write
  do_write-Keeps host path buffer size offset = guarded-Keeps scope host path _ (
      bind-Keeps (I scope) (find_inode path) _ (find_inode-Keeps scope path) λ inode.
        bind-Keeps (I scope) (on_inode inode (Inode.current_data_size current)) _
          (on_inode-Keeps scope inode (Inode.current_data_size current)
            (current_data_size-IsFine scope.block_size inode current))
          λ size'. stat_then-Keeps inode _ _ (
            bind-Keeps (I scope)
              (on_inode inode
                (Inode.write buffer size offset (ltb size' (add64 offset size)) false))
              _
              (on_inode-Keeps scope inode _ (
                write-IsFine scope.block_size inode buffer size offset
                  (ltb size' (add64 offset size)) false))
              λ written s w. w))

  pub do_unlink-Keeps : (host : Host) (path : Bytes) → Keeps (I scope) (do_unlink host path)
  unfolding do_unlink
  do_unlink-Keeps host path = guarded-Keeps scope host path _ (
      bind-Keeps (I scope) (remove_inode_by_path path) _ (remove_inode_by_path-Keeps scope path)
        λ _ s w. w)

  pub do_rmdir-Keeps : (host : Host) (path : Bytes) → Keeps (I scope) (do_rmdir host path)
  unfolding do_rmdir
  do_rmdir-Keeps host path =
      let (target_name, vpath) = pop_end (FilePath.new path) in
      catch_tail-Keeps scope host _ (
        if-Keeps (I scope) (is_empty target_name) _ _ (λ s w. w)
          (if-Keeps (I scope) (bytes_eq target_name snapshot_entry) _ _ (λ s w. w)
            (if-Keeps (I scope) (is_snapshot_dir vpath) _ _
              (bind-Keeps (I scope) (delete_snapshot_volume target_name) _
                (delete_snapshot_volume-Keeps scope target_name) λ _ s w. w)
              (check_rdonly_fs-Keeps scope path _ (
                bind-Keeps (I scope) (remove_inode_by_path path) _
                  (remove_inode_by_path-Keeps scope path) λ _ s w. w)))))

  create_missing-Keeps :
      (host : Host) (path : Bytes) (size : ℕ) → Keeps (I scope) (create_missing host path size)
  unfolding create_missing
  create_missing-Keeps host path size =
      let (target_name, vpath) = pop_end (FilePath.new path) in
      if-Keeps (I scope) (length vpath == 0) _ _ (λ s w. w)
        (bind-Keeps (I scope) (new_child vpath target_name false) _
          (new_child-Keeps scope vpath target_name false)
          λ inode. stat_then-Keeps inode _ _ (λ s w. w))

  truncate_handler-Keeps :
      (host : Host) (path : Bytes) (size : ℕ) (e : Thrown)
      → Keeps (I scope) (truncate_handler host path size e)
  unfolding truncate_handler
  truncate_handler-Keeps host path size (htmpfs_error no_such_file_or_dir) =
      create_missing-Keeps host path size
  truncate_handler-Keeps host path size (htmpfs_error _) = λ s w. w
  truncate_handler-Keeps host path size out_of_range = λ s w. w

  pub do_truncate-Keeps :
      (host : Host) (path : Bytes) (size : ℕ) → Keeps (I scope) (do_truncate host path size)
  unfolding do_truncate
  do_truncate-Keeps host path size = guarded-Keeps scope host path _ (
      bind-Keeps (I scope) (attempt (find_inode path) (truncate_handler host path size)) _
        (attempt-Keeps scope (find_inode path) (truncate_handler host path size)
          (find_inode-Keeps scope path) (truncate_handler-Keeps host path size))
        λ inode.
          bind-Keeps (I scope) (on_inode inode (Inode.truncate size)) _
            (on_inode-Keeps scope inode (Inode.truncate size)
              (truncate-IsFine scope.block_size inode size))
            λ _ s w. w)

  pub do_symlink-Keeps :
      (host : Host) (path target : Bytes) → Keeps (I scope) (do_symlink host path target)
  unfolding do_symlink
  do_symlink-Keeps host path target =
      let (target_name, vpath) = pop_end (FilePath.new target) in
      guarded-Keeps scope host path _ (
        check_rdonly_fs-Keeps scope target _ (
          if-Keeps (I scope) (is_empty target_name) _ _ (λ s w. w)
            (bind-Keeps (I scope) (new_child vpath target_name false) _
              (new_child-Keeps scope vpath target_name false)
              λ inode. stat_then-Keeps inode _ _ (
                bind-Keeps (I scope)
                  (on_inode inode (Inode.write target (length target) 0 true false)) _
                  (on_inode-Keeps scope inode _
                    (write-IsFine scope.block_size inode target (length target) 0 true false))
                  λ written s w. w))))

  pub do_fallocate-Keeps :
      (host : Host) (path : Bytes) (mode offset len : ℕ)
      → Keeps (I scope) (do_fallocate host path mode offset len)
  unfolding do_fallocate
  do_fallocate-Keeps host path mode offset len = guarded-Keeps scope host path _ (
      bind-Keeps (I scope) (find_inode path) _ (find_inode-Keeps scope path) λ inode.
        stat_then-Keeps inode _ _ (
          bind-Keeps (I scope) (on_inode inode (Inode.truncate (add64 offset len))) _
            (on_inode-Keeps scope inode (Inode.truncate (add64 offset len))
              (truncate-IsFine scope.block_size inode (add64 offset len)))
            λ _ s w. w))

  pub do_mknod-Keeps :
      (host : Host) (path : Bytes) (mode device : ℕ)
      → Keeps (I scope) (do_mknod host path mode device)
  unfolding do_mknod
  do_mknod-Keeps host path mode device =
      let (target_name, vpath) = pop_end (FilePath.new path) in
      guarded-Keeps scope host path _ (
        if-Keeps (I scope) (is_empty target_name) _ _ (λ s w. w)
          (bind-Keeps (I scope) (new_child vpath target_name false) _
            (new_child-Keeps scope vpath target_name false)
            λ inode. stat_then-Keeps inode _ _ (λ s w. w)))
