-- ===== src/Fuse.antt =====
-- The FUSE layer (src/utils/fuse.cpp): what its handlers share. A handler runs on the one
-- `inode_smi_t`, `filesystem_inode_smi`. A path is the bytes of a C string. Clock, user and errno
-- are the host's, given with each request.
pub mod Query
pub mod Change
pub mod Rename
pub mod Requests
pub mod ReadOnly
pub mod Queries
pub mod Sound
use htmpfs.Prelude.{ℕ, Bool, not, if◌then◌else◌, List, [], ◌∷◌}
use htmpfs.Prelude.Bytes.{Bytes, codes, bytes_eq}
use htmpfs.Prelude.Int.{ℤ, pos, neg}
use htmpfs.Errors.{Thrown, htmpfs_error, out_of_range, ok, my_errno, erofs}
use htmpfs.Exec.{Exec, pure, lift, ◌>>=◌}
use htmpfs.Inode.{Inode, Time, Stat, current}
use htmpfs.SnapshotPath.{if_snapshot}
use htmpfs.Smi.{Smi, attempt, on_inode}

-- What the host answers while a request runs: the readings of `get_current_time`, one after the
-- other, `getuid`, `getgid`, and the global errno when an exception of the standard library is
-- caught.
pub record Host : Type 0 where
  pub clock : ℕ → Time
  pub uid : ℕ
  pub gid : ℕ
  pub errno : ℕ

-- What a handler gives back: the number that it returns, with what it stored in the caller's buffer.
pub data Reply : Type 0 where
  code : ℤ → Reply
  attributes : Stat → Reply
  listing : ℤ → List Bytes → Reply
  bytes : ℤ → Bytes → Reply

abbrev pub success : Reply
success = code (pos 0)

-- The errno that `CATCH_TAIL` negates.
abbrev pub thrown_errno : Host → Thrown → ℕ
thrown_errno host (htmpfs_error e) = my_errno e
thrown_errno host out_of_range = host.errno

-- `try { … } CATCH_TAIL`
unfoldable pub catch_tail : Host → Exec Smi Reply → Exec Smi Reply
catch_tail host m = attempt m λ e. pure (code (neg (thrown_errno host e)))

-- `CHECK_RDONLY_FS(path)` in front of the rest of a handler.
unfoldable pub check_rdonly_fs : Bytes → Exec Smi Reply → Exec Smi Reply
check_rdonly_fs path rest = lift (if_snapshot path) >>= λ (version, parsed_path).
    if not (bytes_eq version current) then pure (code (neg erofs)) else rest

-- `"/" SNAPSHOT_ENTRY`
abbrev pub snapshot_root : Bytes
snapshot_root = codes "/.snapshot"

-- An assignment to members of `inode->fs_stat`.
unfoldable pub set_stat : ℕ → (Stat → Stat) → Exec Smi (Unit {0})
set_stat id f = on_inode id λ (p, inode). (ok tt, (p, record inode { fs_stat = f inode.fs_stat }))
