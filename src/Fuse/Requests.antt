-- ===== src/Fuse/Requests.antt =====
-- The table of handlers and the start of the program (src/utils/mount.htmpfs.cpp): requests that
-- the kernel sends, one after the other (fuse runs single-threaded, `-s`).
use Prim.Native.Nat.{bit_or}
use htmpfs.Prelude.{ℕ, ◌*◌}
use htmpfs.Prelude.Bytes.{Bytes}
use htmpfs.Exec.{Exec, pure}
use htmpfs.Inode.{Time, Stat}
use htmpfs.Smi
use htmpfs.Smi.{Smi, root}
use htmpfs.Fuse.{Host, Reply, success, set_stat}
use htmpfs.Fuse.Query.{
  s_ifdir, rwxr_xr_x, do_getattr, do_readdir, do_access, do_open, do_read, do_readlink,
}
use htmpfs.Fuse.Change.{
  do_mkdir, do_chmod, do_chown, do_create, do_write, do_utimens, do_unlink, do_rmdir, do_truncate,
  do_symlink, do_fallocate, do_mknod,
}
use htmpfs.Fuse.Rename.{do_rename}

-- The fields of `fuse_ops`, with their arguments as far as the handlers use them. `noop` stands for
-- the handlers that return 0 and do nothing: `flush`, `release`, `fsync`, `releasedir`, `fsyncdir`.
pub data Request : Type 0 where
  getattr fgetattr : (path : Bytes) → (stbuf : Stat) → Request
  readlink : (path : Bytes) → (size : ℕ) → Request
  mknod : (path : Bytes) → (mode device : ℕ) → Request
  mkdir : (path : Bytes) → (mode : ℕ) → Request
  unlink rmdir : (path : Bytes) → Request
  symlink rename : (path target : Bytes) → Request
  chmod : (path : Bytes) → (mode : ℕ) → Request
  chown : (path : Bytes) → (uid gid : ℕ) → Request
  truncate ftruncate : (path : Bytes) → (size : ℕ) → Request
  opened opendir readdir : (path : Bytes) → Request
  read : (path : Bytes) → (size offset : ℕ) → Request
  write : (path buffer : Bytes) → (size offset : ℕ) → Request
  noop : (path : Bytes) → Request
  access : (path : Bytes) → (mode : ℕ) → Request
  create : (path : Bytes) → (mode : ℕ) → Request
  utimens : (path : Bytes) → (atim mtim : Time) → Request
  fallocate : (path : Bytes) → (mode offset size : ℕ) → Request

unfoldable pub handle : Host → Request → Exec Smi Reply
handle host (Request.getattr path stbuf) = do_getattr host path stbuf
handle host (Request.fgetattr path stbuf) = do_getattr host path stbuf
handle host (Request.readlink path size) = do_readlink host path size
handle host (Request.mknod path mode device) = do_mknod host path mode device
handle host (Request.mkdir path mode) = do_mkdir host path mode
handle host (Request.unlink path) = do_unlink host path
handle host (Request.rmdir path) = do_rmdir host path
handle host (Request.symlink path target) = do_symlink host path target
handle host (Request.rename path target) = do_rename host path target
handle host (Request.chmod path mode) = do_chmod host path mode
handle host (Request.chown path uid gid) = do_chown host path uid gid
handle host (Request.truncate path size) = do_truncate host path size
handle host (Request.ftruncate path size) = do_truncate host path size
handle host (Request.opened path) = do_open host path
handle host (Request.opendir path) = do_open host path
handle host (Request.readdir path) = do_readdir host path
handle host (Request.read path size offset) = do_read host path size offset
handle host (Request.write path buffer size offset) = do_write host path buffer size offset
handle host (Request.noop path) = pure success
handle host (Request.access path mode) = do_access host path mode
handle host (Request.create path mode) = do_create host path mode
handle host (Request.utimens path atim mtim) = do_utimens host path atim mtim
handle host (Request.fallocate path mode offset size) = do_fallocate host path mode offset size

-- What `main` fills into the root inode.
abbrev pub root_stat : Host → Stat → Stat
root_stat host st = record st {
  st_ctim = host.clock 0;
  st_atim = host.clock 1;
  st_mtim = host.clock 2;
  st_ino = root;
  st_mode = bit_or rwxr_xr_x s_ifdir;
  st_gid = host.gid;
  st_uid = host.uid;
  st_nlink = 1;
  st_size = 0;
}

-- The filesystem that `main` mounts; `max_buffers` and `max_inodes` are the `max_size()` of the pools.
unfoldable pub mount : Host → ℕ → ℕ → Smi
mount host max_buffers max_inodes =
    (set_stat root (root_stat host) (Smi.new max_buffers max_inodes (512 * 1024))).1

-- The states that a mounted filesystem goes through.
pub data Reach (start : Smi) : Smi → Type 0 where
  mounted : Reach start start
  served : {s : Smi} (host : Host) (r : Request) → Reach start s → Reach start (handle host r s).1
