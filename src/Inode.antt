-- ===== src/Inode.antt =====
-- `inode_t` (src/include/htmpfs/htmpfs.h, src/htmpfs/htmpfs.cpp): a file or directory as one list of
-- block references per snapshot version. A method runs on the buffer pool and the inode. Block
-- sizes are positive (0 would divide by zero). A subtraction that the source guards is written as
-- it stands; additions and multiplications wrap at 2 ^ 64.
pub mod Ranges
pub mod Read
pub mod Fit
pub mod Truncate
pub mod Keeps
pub mod Links
pub mod Deletion
pub mod Fine
pub mod RoundTrip
pub mod Still
pub mod Whole
pub mod Write
pub mod Volume
pub mod Isolation
use htmpfs.Prelude.{
  ℕ, ◌+◌, ◌-◌, ◌/◌, ◌%◌, Bool, true, false, not, ◌&&◌, none, some, [], ◌∷◌, length, drop, ltb, ◌==◌,
  if◌then◌else◌, add64, mul64,
}
use htmpfs.Prelude.Bytes.{Bytes, codes, bytes_eq}
use htmpfs.Prelude.Map
use htmpfs.Prelude.Map.{Map, bytes_key}
use htmpfs.Errors.{
  Outcome, ok, throws, undefined, out_of_range, throw, no_such_snapshot, double_snapshot,
  buffer_short_ops, invalid_write_invoke,
}
use htmpfs.Exec.{Exec, pure, raise, lift, ◌>>=◌, ◌>>◌}
use htmpfs.Pool.{Pool, Refs}
use htmpfs.Blocks.{
  block_count, pieces, thaw_range, grow, lose, truncate_blocks, write_blocks, read_blocks,
  data_size, freeze, unlink_all,
}

-- A `timespec`: seconds and nanoseconds.
abbrev pub Time : Type 0
Time = ℕ × ℕ

-- The members of `struct stat` that the program uses.
pub record Stat : Type 0 where
  pub st_dev : ℕ
  pub st_ino : ℕ
  pub st_mode : ℕ
  pub st_nlink : ℕ
  pub st_uid : ℕ
  pub st_gid : ℕ
  pub st_size : ℕ
  pub st_atim : Time
  pub st_mtim : Time
  pub st_ctim : Time

-- `struct stat fs_stat { }`
abbrev pub zero_stat : Stat
zero_stat = record {
  st_dev = 0;
  st_ino = 0;
  st_mode = 0;
  st_nlink = 0;
  st_uid = 0;
  st_gid = 0;
  st_size = 0;
  st_atim = (0, 0);
  st_mtim = (0, 0);
  st_ctim = (0, 0);
}

-- `snapshot_ver_t`
abbrev pub Version : Type 0
Version = Bytes

-- `FILESYSTEM_CUR_MODIFIABLE_VER`
abbrev pub current : Version
current = codes "current"

pub record Inode : Type 0 where
  pub block_size : ℕ
  pub inode_id : ℕ
  pub is_dentry : Bool
  pub buffer_map : Map Version Refs
  pub fs_stat : Stat

-- The constructor.
abbrev pub new : ℕ → ℕ → Bool → Inode
new block_size inode_id is_dentry = record {
  block_size = block_size;
  inode_id = inode_id;
  is_dentry = is_dentry;
  buffer_map = (current, []) ∷ [];
  fs_stat = zero_stat;
}

abbrev beside : {A S : Type 0} → S → Outcome A × Pool → Outcome A × (Pool × S)
beside s (o, p) = (o, (p, s))

-- Code that only uses the pool, run beside another state.
abbrev pub on_pool : {A S : Type 0} → Exec Pool A → Exec (Pool × S) A
on_pool m (p, s) = beside s (m p)

abbrev pub put_current :
    {A : Type 0} → Inode → Outcome A × (Pool × Refs) → Outcome A × (Pool × Inode)
put_current inode (o, (p, refs)) =
    (o, (p, record inode { buffer_map = Map.assign current refs inode.buffer_map }))

-- Code on the list `buffer_map.at("current")`; `at` throws where the key is missing.
abbrev pub with_current : {A : Type 0} → Exec (Pool × Refs) A → Exec (Pool × Inode) A
with_current m (p, inode) = elim (Map.find current inode.buffer_map) [
  | none ↦ (throws out_of_range, (p, inode))
  | some refs ↦ put_current inode (m (p, refs))
]

-- The first half of `truncate(length)`: the list gets as many blocks as `length` needs, and none of
-- them is frozen.
unfoldable pub fit_blocks : ℕ → ℕ → Exec (Pool × Refs) (Unit {0})
fit_blocks block_size len (p, refs) =
    let current_bank_size = mul64 (length refs) block_size in
    if ltb current_bank_size len
    then (grow (block_count block_size (len - current_bank_size)) >> λ (p', refs').
          thaw_range block_size 0 (length refs') refs' p')
        (p, refs)
    else (lose (length refs - block_count block_size len) >> λ (p', refs').
          thaw_range block_size 0 (block_count block_size len) refs' p')
        (p, refs)

-- `truncate(length)`
unfoldable pub truncate_list : ℕ → ℕ → Exec (Pool × Refs) (Unit {0})
truncate_list block_size len = fit_blocks block_size len >> λ (p, refs).
    if len == 0
    then (ok tt, (p, refs))
    else on_pool (truncate_blocks (pieces block_size 0 len) refs) (p, refs)

-- `write(buffer, length, offset, true)` behind its checks.
unfoldable pub write_resized : ℕ → Bytes → ℕ → ℕ → Exec (Pool × Refs) ℕ
write_resized block_size buffer len offset =
    (truncate_list block_size (add64 offset len) >> λ (p, refs).
    on_pool
      (write_blocks true (offset % block_size) (pieces block_size (offset % block_size) len) buffer
        (drop (offset / block_size) refs))
      (p, refs))
    >> pure len

-- How much of `len` bytes at `offset` lies inside the `size` bytes of a version.
abbrev pub clip_size : ℕ → ℕ → ℕ → ℕ
clip_size size len offset = if ltb size (add64 offset len) then size - offset else len

-- The `write_size` bytes of an unresized write: frozen blocks are reallocated, then written.
unfoldable pub write_inside : ℕ → Bytes → ℕ → ℕ → Exec (Pool × Refs) ℕ
write_inside block_size buffer write_size offset =
    let start = offset / block_size in
    ((λ (p, refs).
        thaw_range block_size start (block_count block_size (add64 offset write_size) - start) refs
          p)
      >> λ (p, refs).
          on_pool
            (write_blocks false (offset % block_size)
              (pieces block_size (offset % block_size) write_size) buffer (drop start refs))
            (p, refs))
    >> pure write_size

-- `write(buffer, length, offset, false)` behind its checks.
unfoldable pub write_clipped : ℕ → Bytes → ℕ → ℕ → Exec (Pool × Refs) ℕ
write_clipped block_size buffer len offset (p, refs) =
    (on_pool (data_size 0 refs) >>= λ size.
    if ltb size offset
    then pure 0
    else write_inside block_size buffer (clip_size size len offset) offset)
      (p, refs)

-- `write(buffer, length, offset, resize, dentry_only)`
unfoldable pub write : Bytes → ℕ → ℕ → Bool → Bool → Exec (Pool × Inode) ℕ
write buffer len offset resize dentry_only (p, inode) =
    if inode.is_dentry && not dentry_only
    then raise invalid_write_invoke (p, inode)
    else if len == 0
    then pure 0 (p, inode)
    else if resize
    then with_current (write_resized inode.block_size buffer len offset) (p, inode)
    else with_current (write_clipped inode.block_size buffer len offset) (p, inode)

-- `buffer_map.find(version)`, which throws where there is no such version.
abbrev pub version_refs : Version → Inode → Outcome Refs
version_refs version inode = elim (Map.find version inode.buffer_map) [
  | none ↦ throw no_such_snapshot
  | some refs ↦ ok refs
]

-- `current_data_size(version)`
unfoldable pub current_data_size : Version → Exec (Pool × Inode) ℕ
current_data_size version (p, inode) =
    (lift (version_refs version inode) >>= λ refs. on_pool (data_size 0 refs)) (p, inode)

-- `read` on the list of a version, with a positive length.
unfoldable pub read_list : ℕ → ℕ → ℕ → Refs → Exec Pool Bytes
read_list block_size len offset refs = data_size 0 refs >>= λ size.
    if ltb size offset
    then pure []
    else read_blocks (offset % block_size)
        (pieces block_size (offset % block_size) (clip_size size len offset))
        (drop (offset / block_size) refs)

-- `read(version, buffer, length, offset)`: the bytes stored; it returns their number.
unfoldable pub read : Version → ℕ → ℕ → Exec (Pool × Inode) Bytes
read version len offset (p, inode) =
    if len == 0
    then pure [] (p, inode)
    else (lift (version_refs version inode) >>= λ refs.
          on_pool (read_list inode.block_size len offset refs))
        (p, inode)

-- The reading part of `to_string`, for a version of `size` bytes.
unfoldable pub read_all : Version → ℕ → Exec (Pool × Inode) Bytes
read_all version size (p, inode) =
    (do
      refs ← lift (version_refs version inode)
      bytes ← read version (add64 (mul64 inode.block_size (length refs)) 1) 0
      if length bytes == size then pure bytes else raise buffer_short_ops)
      (p, inode)

-- `to_string(version)`, where `buffer_map` is never empty.
unfoldable pub to_string : Version → Exec (Pool × Inode) Bytes
to_string version =
    current_data_size version >>= λ size. if size == 0 then pure [] else read_all version size

abbrev pub put_volume :
    Version → Inode → Outcome Refs × (Pool × Refs) → Outcome (Unit {0}) × (Pool × Inode)
put_volume version inode (ok volume, (p, refs)) = pure tt (
  p,
  record inode {
    buffer_map = Map.emplace version volume (Map.assign current refs inode.buffer_map);
  },
)
put_volume version inode (throws e, (p, refs)) =
    (throws e, (p, record inode { buffer_map = Map.assign current refs inode.buffer_map }))
put_volume version inode (undefined, (p, refs)) = (undefined, (p, inode))

-- `create_new_volume(volume_version)`
unfoldable pub create_new_volume : Version → Exec (Pool × Inode) (Unit {0})
create_new_volume version (p, inode) =
    if Map.contains version inode.buffer_map
    then raise double_snapshot (p, inode)
    else elim (Map.find current inode.buffer_map) [
      | none ↦ (throws out_of_range, (p, inode))
      | some refs ↦ put_volume version inode (freeze refs p)
    ]

abbrev pub erase_volume :
    Version → Outcome (Unit {0}) × (Pool × Inode) → Outcome (Unit {0}) × (Pool × Inode)
erase_volume version (ok _, (p, inode)) =
    pure tt (p, record inode { buffer_map = Map.erase version inode.buffer_map })
erase_volume version (throws e, s) = (throws e, s)
erase_volume version (undefined, s) = (undefined, s)

-- `delete_volume(volume_version)`
unfoldable pub delete_volume : Version → Exec (Pool × Inode) (Unit {0})
delete_volume version (p, inode) =
    if bytes_eq version current
    then raise no_such_snapshot (p, inode)
    else elim (Map.find version inode.buffer_map) [
      | none ↦ raise no_such_snapshot (p, inode)
      | some refs ↦ erase_volume version (on_pool (unlink_all refs) (p, inode))
    ]

-- `truncate(length)`
unfoldable pub truncate : ℕ → Exec (Pool × Inode) (Unit {0})
truncate len (p, inode) = with_current (truncate_list inode.block_size len) (p, inode)
