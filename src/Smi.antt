-- ===== src/Smi.antt =====
-- `inode_smi_t` (src/include/htmpfs/htmpfs.h, src/htmpfs/htmpfs.cpp), with the directory resolver
-- (src/htmpfs/directory_resolver.cpp) that reads and writes directories through it. An `inode_t *`
-- into the inode pool is the id of its node.
pub mod Names
pub mod Sound
pub mod Still
pub mod Snapshots
use htmpfs.Prelude.{
  ℕ, zero, suc, ◌+◌, ◌-◌, ◌%◌, Bool, true, false, not, ◌||◌, Option, none, some, List, [], ◌∷◌,
  ◌++◌, length, leb, ltb, ◌==◌, if◌then◌else◌, add64, u64_mod,
}
use htmpfs.Prelude.Bytes.{Bytes, bytes_eq}
use htmpfs.Prelude.Map
use htmpfs.Prelude.Map.{Map, id_key, bytes_key}
use htmpfs.Errors.{
  ErrorCode, Outcome, Thrown, htmpfs_error, ok, throws, undefined, out_of_range, throw,
  invalid_dentry_name, requested_inode_not_found, double_mkpathname, double_snapshot,
  no_such_snapshot, not_a_directory, dir_not_empty, cannot_remove_root,
}
use htmpfs.Exec.{Exec, pure, raise, lift, gets, modify, continue, ◌>>=◌, ◌>>◌}
use htmpfs.FilePath
use htmpfs.FilePath.{FilePath, slash, is_empty}
use htmpfs.Dentry
use htmpfs.Dentry.{Entry}
use htmpfs.Pool.{Pool, get_free_id}
use htmpfs.Inode
use htmpfs.Inode.{Inode, Version, current}
use htmpfs.SnapshotPath.{if_snapshot}

-- `inode_pack_t`
pub record InodePack : Type 0 where
  pub link_count : ℕ
  pub inode : Inode

-- The members of `inode_smi_t`; `filesystem_root` points at inode 0, and an `inode_result_t` is the
-- id that it holds. `max_inodes` is what `inode_pool.max_size()` returns.
pub record Smi : Type 0 where
  pub block_size : ℕ
  pub buffer_pool : Pool
  pub max_inodes : ℕ
  pub inode_pool : Map ℕ InodePack
  pub snapshot_version_list : Map Version (List ℕ)

-- `FILESYSTEM_ROOT_INODE_NUMBER`
abbrev pub root : ℕ
root = 0

-- The constructor.
unfoldable pub new : ℕ → ℕ → ℕ → Smi
new max_buffers max_inodes block_size = record {
  block_size = block_size;
  buffer_pool = record { max_size = max_buffers; packs = [] };
  max_inodes = max_inodes;
  inode_pool = (root, record { link_count = 1; inode = Inode.new block_size root true }) ∷ [];
  snapshot_version_list = (current, root ∷ []) ∷ [];
}

abbrev pub put_inode :
    {A : Type 0} → ℕ → Smi → InodePack → Outcome A × (Pool × Inode) → Outcome A × Smi
put_inode id s pack (o, (p, inode)) = (
  o,
  record s {
    buffer_pool = p;
    inode_pool = Map.assign id (record pack { inode = inode }) s.inode_pool;
  },
)

-- A method called through a pointer to an inode.
unfoldable pub on_inode : {A : Type 0} → ℕ → Exec (Pool × Inode) A → Exec Smi A
on_inode id m s = elim (Map.find id s.inode_pool) [
  | none ↦ (undefined, s)
  | some pack ↦ put_inode id s pack (m (s.buffer_pool, pack.inode))
]

-- A step, with a handler for what it throws.
abbrev pub handle_ : {A : Type 0} → Outcome A × Smi → (Thrown → Exec Smi A) → Outcome A × Smi
handle_ (ok a, s) handler = (ok a, s)
handle_ (throws e, s) handler = handler e s
handle_ (undefined, s) handler = (undefined, s)

-- `try { … } catch (…) { … }`
abbrev pub attempt : {A : Type 0} → Exec Smi A → (Thrown → Exec Smi A) → Exec Smi A
attempt m handler s = handle_ (m s) handler

-- `get_inode_by_id(inode_id)`
unfoldable pub get_inode_by_id : ℕ → Exec Smi ℕ
get_inode_by_id id s =
    if Map.contains id s.inode_pool then pure id s else raise requested_inode_not_found s

-- A member of the inode behind a pointer.
unfoldable pub member : {A : Type 0} → ℕ → (Inode → A) → Exec Smi A
member id f s = elim (Map.find id s.inode_pool) [
  | none ↦ (undefined, s)
  | some pack ↦ (ok (f pack.inode), s)
]

-- `directory_resolver_t`
pub record Resolver : Type 0 where
  pub path : List Entry
  pub associated_inode : ℕ
  pub access_version : Version

-- `refresh()`: the entries that are read.
unfoldable pub refresh : ℕ → Version → Exec Smi (List Entry)
refresh inode version = do
  size ← on_inode inode (Inode.current_data_size version)
  if size == 0
      then pure []
      else (do text ← on_inode inode (Inode.to_string version); lift (Dentry.unpack text))

-- `directory_resolver_t(inode, version)`
unfoldable pub open_dir : ℕ → Version → Exec Smi Resolver
open_dir inode version = do
  is_dentry ← member inode (λ i. i.is_dentry)
  if not is_dentry then raise not_a_directory else (do
    path ← refresh inode version
    pure (record { path = path; associated_inode = inode; access_version = version }))

-- `save_current()` of the entries of a directory.
unfoldable pub save_current : ℕ → List Entry → Exec Smi (Unit {0})
save_current inode path = do
  let text = Dentry.pack path
  on_inode inode (Inode.write text (length text) 0 true true)
  pure tt
