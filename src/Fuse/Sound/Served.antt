-- ===== src/Fuse/Sound/Served.antt =====
-- Every request that a mounted filesystem serves keeps its inode pool sound
-- (src/utils/mount.htmpfs.cpp).
use htmpfs.Prelude.{ℕ, ◌*◌, ◌<◌, ◌≡◌, refl, ap, true, some, [], ◌∷◌, arith}
use htmpfs.Prelude.Map
use htmpfs.Prelude.Map.{id_key, bytes_key}
use htmpfs.Prelude.Bytes.{bytes_eq}
use htmpfs.Fuse.Requests.{Request, handle, mount, root_stat, Reach, mounted, served}
use htmpfs.Fuse.Sound.Rename.{do_rename-Keeps}
use htmpfs.Fuse.Sound.Change.{
  do_mkdir-IsSound, do_chmod-Keeps, do_chown-Keeps, do_create-Keeps, do_write-Keeps,
  do_utimens-Keeps, do_unlink-Keeps, do_rmdir-Keeps, do_truncate-Keeps, do_symlink-Keeps,
  do_fallocate-Keeps, do_mknod-Keeps,
}
use htmpfs.Pool.{Pool, Refs}
use htmpfs.Pool.Laws.{buffer_at, buffer_of}
use htmpfs.Pool.Links.{links, node_at}
use htmpfs.Prelude.Sums.{sum-find}
use htmpfs.Blocks.View.{has_id}
use htmpfs.Blocks.Links.{uses}
use htmpfs.Buffer.{Buffer}
use htmpfs.Smi.Sound.{refs_of}
use htmpfs.Smi.Sound.Snapshots.{CanSnapshot}
use htmpfs.Inode
use htmpfs.Inode.{Stat, Version, Time, current}
use htmpfs.Inode.Keeps.{IsWhole}
use htmpfs.Smi
use htmpfs.Smi.{
  Smi, InodePack, root, attempt, on_inode, get_inode_by_id, member, open_dir, refresh, save_current,
}
use htmpfs.Smi.Sound.{Scope, emplaced-IsWhole, IsSound}
use htmpfs.Fuse.{Host}
use htmpfs.Fuse.Sound.{
  set_stat-Keeps, do_getattr-Keeps, do_readdir-Keeps, do_access-Keeps, do_open-Keeps, do_read-Keeps,
  do_readlink-Keeps,
}

has_id-uses : (j : ℕ) (refs : Refs) → has_id j refs ≡ true → 0 < uses j refs
has_id-uses j [] h = absurd (ground arith)
has_id-uses j (r ∷ refs) h = ground (arith, has_id-uses j refs)

linked_node : (j : ℕ) (p : Pool) → 0 < links j p → (b : Buffer) × (buffer_at j p ≡ some b)
linked_node j p h = let (pack, e) = node_at j p h in (pack.buffer, ap buffer_of e)

module _ (scope : Scope) where
  handle-IsSound :
      (host : Host) (r : Request) (s : Smi)
      → IsSound scope s
      → (scope.followed → CanSnapshot s)
      → IsSound scope (handle host r s).1
  unfolding handle
  handle-IsSound host (Request.getattr path stbuf) s w room =
      do_getattr-Keeps scope host path stbuf s w
  handle-IsSound host (Request.fgetattr path stbuf) s w room =
      do_getattr-Keeps scope host path stbuf s w
  handle-IsSound host (Request.readlink path size) s w room =
      do_readlink-Keeps scope host path size s w
  handle-IsSound host (Request.mknod path mode device) s w room =
      do_mknod-Keeps scope host path mode device s w
  handle-IsSound host (Request.mkdir path mode) s w room =
      do_mkdir-IsSound scope host path mode s w room
  handle-IsSound host (Request.unlink path) s w room = do_unlink-Keeps scope host path s w
  handle-IsSound host (Request.rmdir path) s w room = do_rmdir-Keeps scope host path s w
  handle-IsSound host (Request.symlink path target) s w room =
      do_symlink-Keeps scope host path target s w
  handle-IsSound host (Request.rename path target) s w room =
      do_rename-Keeps scope host path target s w
  handle-IsSound host (Request.chmod path mode) s w room = do_chmod-Keeps scope host path mode s w
  handle-IsSound host (Request.chown path uid gid) s w room =
      do_chown-Keeps scope host path uid gid s w
  handle-IsSound host (Request.truncate path size) s w room =
      do_truncate-Keeps scope host path size s w
  handle-IsSound host (Request.ftruncate path size) s w room =
      do_truncate-Keeps scope host path size s w
  handle-IsSound host (Request.opened path) s w room = do_open-Keeps scope host path s w
  handle-IsSound host (Request.opendir path) s w room = do_open-Keeps scope host path s w
  handle-IsSound host (Request.readdir path) s w room = do_readdir-Keeps scope host path s w
  handle-IsSound host (Request.read path size offset) s w room =
      do_read-Keeps scope host path size offset s w
  handle-IsSound host (Request.write path buffer size offset) s w room =
      do_write-Keeps scope host path buffer size offset s w
  handle-IsSound host (Request.access path mode) s w room = do_access-Keeps scope host path mode s w
  handle-IsSound host (Request.create path mode) s w room = do_create-Keeps scope host path mode s w
  handle-IsSound host (Request.utimens path atim mtim) s w room =
      do_utimens-Keeps scope host path atim mtim s w
  handle-IsSound host (Request.fallocate path mode offset size) s w room =
      do_fallocate-Keeps scope host path mode offset size s w
  handle-IsSound host (Request.noop path) s w room = w

  root_pack : InodePack
  root_pack = record { link_count = 1; inode = Inode.new scope.block_size root true }

  root-IsWhole : IsWhole scope.block_size root root_pack.inode
  unfolding root_pack Map.contains bytes_eq
  root-IsWhole = record { sized = refl; named = refl; has_current = refl }

  new-IsSound :
      (max_buffers max_inodes : ℕ) → IsSound scope (Smi.new max_buffers max_inodes scope.block_size)
  unfolding Smi.new Map.emplace Map.find root_pack
  new-IsSound max_buffers max_inodes = record {
    sized = refl;
    inodes =
        emplaced-IsWhole scope [] root root_pack (λ j x e. absurd (ground (arith, e))) root-IsWhole;
    linked = λ u. (λ j. omega arith, λ j. omega arith);
  }

-- Blocks of half a megabyte, as `main` asks for.
abbrev mounted_scope : Type 0 → Scope
mounted_scope followed = record { block_size = 512 * 1024; followed = followed }

-- At each request of the run, a snapshot would not drive a link count past 64 bits.
abbrev pub InRange : {start s : Smi} → Reach start s → Type 0
InRange mounted = Unit {0}
InRange (served {s = before} host r run) = CanSnapshot before × InRange run

module _ (start_host : Host) (max_buffers max_inodes : ℕ) where
  mount-IsSound :
      (followed : Type 0)
      → IsSound (mounted_scope followed) (mount start_host max_buffers max_inodes)
  unfolding mount
  mount-IsSound followed =
      set_stat-Keeps (mounted_scope followed) root (root_stat start_host) _
        (new-IsSound (mounted_scope followed) max_buffers max_inodes)

  reachable-IsSound :
      (followed : Type 0) (s : Smi) (run : Reach (mount start_host max_buffers max_inodes) s)
      → (followed → InRange run)
      → IsSound (mounted_scope followed) s
  reachable-IsSound followed s mounted room = mount-IsSound followed
  reachable-IsSound followed s (served {s = before} host r run) room =
      handle-IsSound (mounted_scope followed) host r before
        (reachable-IsSound followed before run (λ u. (room u).1)) (λ u. (room u).0)

  -- Whatever requests a mounted filesystem serves, and whether they succeed, fail or throw: the block
  -- size is half a megabyte, and every inode in the pool stands under its own number, has the block
  -- size of the filesystem and has a current version.
  pub reachable-IsWhole :
      (s : Smi)
      → Reach (mount start_host max_buffers max_inodes) s
      → (s.block_size ≡ 512 * 1024)
        × ((id : ℕ) (pack : InodePack)
            → Map.find id s.inode_pool ≡ some pack
            → IsWhole (512 * 1024) id pack.inode)
  reachable-IsWhole s run =
      let sound = reachable-IsSound ⊥ s run (λ never. absurd never) in (sound.sized, sound.inodes)

  -- No reference dangles: whatever requests a mounted filesystem serves, every block reference of every
  -- version of every inode reaches a node of the buffer pool. At each request of the run, a snapshot of
  -- the whole filesystem would not drive a link count past 64 bits.
  pub reachable_live :
      (s : Smi) (run : Reach (mount start_host max_buffers max_inodes) s)
      → InRange run
      → (id : ℕ) (pack : InodePack) (version : Version) (refs : Refs) (j : ℕ)
      → Map.find id s.inode_pool ≡ some pack
      → Map.find version pack.inode.buffer_map ≡ some refs
      → has_id j refs ≡ true
      → (b : Buffer) × (buffer_at j s.buffer_pool ≡ some b)
  reachable_live s run room id pack version refs j e0 e1 e2 =
      let sound = reachable-IsSound (Unit {0}) s run (λ u. room) in
      let (small, held) = sound.linked tt in
      linked_node j s.buffer_pool (
        omega (
          arith,
          held j,
          sum-find (refs_of j) id s.inode_pool pack e0,
          sum-find (uses j) version pack.inode.buffer_map refs e1,
          has_id-uses j refs e2,
        ))
