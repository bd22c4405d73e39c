-- ===== src/Fuse/Query.antt =====
-- The handlers of src/utils/fuse.cpp that answer questions: attributes, directories, access and the
-- contents of files and links.
use Prim.Native.Nat.{bit_and, bit_or}
use htmpfs.Prelude.{
  Bool, true, false, ltb, ℕ, ◌*◌, List, [], ◌∷◌, ◌++◌, length, ◌==◌, if◌then◌else◌,
}
use htmpfs.Prelude.Bytes.{Bytes, codes, bytes_eq}
use htmpfs.Prelude.Map.{Map}
use htmpfs.Prelude.Int.{ℤ, pos, negsuc, neg, int32}
use htmpfs.Errors.{einval}
use htmpfs.Exec.{Exec, pure, lift, gets, ◌>>=◌, ◌>>◌}
use htmpfs.FilePath.{slash}
use htmpfs.Dentry.{Entry}
use htmpfs.Inode
use htmpfs.Inode.{Inode, Stat, Version}
use htmpfs.SnapshotPath.{if_snapshot, snapshot_entry}
use htmpfs.Smi.{Smi, attempt, on_inode, get_inode_by_id, member, open_dir}
use htmpfs.Smi.Names.{get_inode_id_by_path, count_link_for_inode}
use htmpfs.Fuse.{
  Host, Reply, code, attributes, listing, bytes, success, thrown_errno, catch_tail, snapshot_root,
  set_stat,
}

-- `S_IFDIR`, `S_IFREG`, `S_IFLNK` and the permissions `0755`, which are octal.
abbrev pub s_ifdir : ℕ
s_ifdir = 0x4000

abbrev pub s_ifreg : ℕ
s_ifreg = 0x8000

abbrev pub s_iflnk : ℕ
s_iflnk = 0xA000

abbrev pub rwxr_xr_x : ℕ
rwxr_xr_x = 0x1ED

-- What `do_getattr` writes over `stbuf` for `/.snapshot`.
abbrev pub snapshot_root_stat : Host → Stat → Stat
snapshot_root_stat host stbuf = record stbuf {
  st_ctim = host.clock 0;
  st_atim = host.clock 1;
  st_mtim = host.clock 2;
  st_ino = 0;
  st_mode = bit_or rwxr_xr_x s_ifdir;
  st_gid = host.gid;
  st_uid = host.uid;
  st_nlink = 1;
  st_size = 0;
}

-- `do_getattr(path, stbuf)`
unfoldable pub do_getattr : Host → Bytes → Stat → Exec Smi Reply
do_getattr host path stbuf = catch_tail host (
    if bytes_eq snapshot_root path then pure (attributes (snapshot_root_stat host stbuf)) else (do
      (version, parsed_path) ← lift (if_snapshot path)
      inode_id ← get_inode_id_by_path path
      inode ← get_inode_by_id inode_id
      stat ← member inode (λ i. i.fs_stat)
      size ← on_inode inode (Inode.current_data_size version)
      links ← count_link_for_inode inode_id
      pure (attributes (record stat { st_size = size; st_nlink = links; st_ino = inode_id }))))

-- The names that `do_readdir` passes to `filler` first.
abbrev pub dots : Bytes → List Bytes
dots path =
    codes "." ∷ codes ".." ∷ (if bytes_eq (slash ∷ []) path then snapshot_entry ∷ [] else [])

-- `<` of two strings.
unfoldable pub bytes_lt : Bytes → Bytes → Bool
bytes_lt a [] = false
bytes_lt [] (b ∷ bs) = true
bytes_lt (a ∷ as') (b ∷ bs) = if a == b then bytes_lt as' bs else ltb a b

unfoldable pub insert_key : Bytes → List Bytes → List Bytes
insert_key k [] = k ∷ []
insert_key k (j ∷ ks) = if bytes_lt j k then j ∷ insert_key k ks else k ∷ j ∷ ks

-- The keys of a `std::map`, which it lists in order.
unfoldable pub keys : {V : Type 0} → Map Version V → List Bytes
keys [] = []
keys ((version, _) ∷ m) = insert_key version (keys m)

abbrev pub names : List Entry → List Bytes
names [] = []
names (i ∷ path) = i.pathname ∷ names path

-- The rest of `do_readdir`: the further names.
unfoldable pub list_dir : Bytes → Exec Smi (List Bytes)
list_dir path =
    if bytes_eq snapshot_root path then gets (λ s. keys s.snapshot_version_list) else (do
      (version, parsed_path) ← lift (if_snapshot path)
      inode_id ← get_inode_id_by_path path
      inode ← get_inode_by_id inode_id
      dir ← open_dir inode version
      pure (names dir.path))

-- `do_readdir(path, buffer, filler, …)`: what `filler` is called with comes back with the result,
-- also when a later step throws.
unfoldable pub do_readdir : Host → Bytes → Exec Smi Reply
do_readdir host path =
    attempt (do rest ← list_dir path; pure (listing (pos 0) (dots path ++ rest)))
      λ e. pure (listing (neg (thrown_errno host e)) (dots path))

-- `F_OK`
abbrev f_ok : ℕ
f_ok = 0

-- `-!(mode & inode->fs_stat.st_mode)` for the owner's bits.
abbrev pub access_result : ℕ → ℕ → ℤ
access_result mode st_mode =
    if bit_and (bit_and (mode * 64) 0x01C0) st_mode == 0 then negsuc 0 else pos 0

-- `do_access(path, mode)`
unfoldable pub do_access : Host → Bytes → ℕ → Exec Smi Reply
do_access host path mode = catch_tail host (
    if bytes_eq snapshot_root path then pure success else (do
      inode_id ← get_inode_id_by_path path
      inode ← get_inode_by_id inode_id
      st_mode ← member inode (λ i. i.fs_stat.st_mode)
      pure (if mode == f_ok then success else code (access_result mode st_mode))))

-- `do_open(path, info)`, which also serves `opendir`.
unfoldable pub do_open : Host → Bytes → Exec Smi Reply
do_open host path = catch_tail host (
    if bytes_eq snapshot_root path
    then pure success
    else (do get_inode_id_by_path path; pure success))

-- `do_read(path, buffer, size, offset, …)`
unfoldable pub do_read : Host → Bytes → ℕ → ℕ → Exec Smi Reply
do_read host path size offset = catch_tail host (do
  (version, parsed_path) ← lift (if_snapshot path)
  inode_id ← get_inode_id_by_path path
  inode ← get_inode_by_id inode_id
  set_stat inode (λ st. record st { st_atim = host.clock 0 })
  data' ← on_inode inode (Inode.read version size offset)
  pure (bytes (int32 (length data')) data'))

-- `do_readlink(path, buffer, size)`
unfoldable pub do_readlink : Host → Bytes → ℕ → Exec Smi Reply
do_readlink host path size = catch_tail host (do
  (version, parsed_path) ← lift (if_snapshot path)
  inode_id ← get_inode_id_by_path path
  inode ← get_inode_by_id inode_id
  st_mode ← member inode (λ i. i.fs_stat.st_mode)
  if bit_and st_mode s_iflnk == 0
      then pure (code (neg einval))
      else (do data' ← on_inode inode (Inode.read version size 0); pure (bytes (pos 0) data')))
