-- ===== src/Tests/Requests.antt =====
-- Runs of the request handlers, and instances of the theorems on them.
use htmpfs.Prelude.{
  ℕ, ◌*◌, ◌+◌, ◌<◌, ◌≡◌, refl, false, true, some, [], ◌∷◌, List, arith, subst, u64_mod,
}
use htmpfs.Prelude.Map
use htmpfs.Prelude.Bytes.{Bytes, codes, bytes_eq}
use htmpfs.Prelude.Int.{neg}
use htmpfs.Errors.{ok, erofs}
use htmpfs.FilePath
use htmpfs.SnapshotPath
use htmpfs.SnapshotPath.{if_snapshot}
use htmpfs.Smi.{Smi}
use htmpfs.Buffer
use htmpfs.Buffer.{Buffer}
use htmpfs.Pool.{Refs, request_buffer_allocation, get_free_id, free_id_loop, load, store}
use htmpfs.Pool.Laws.{buffer_at}
use htmpfs.Blocks.{grow, thaw_range, thaw, truncate_blocks, pieces}
use htmpfs.Inode
use htmpfs.Inode.{current, zero_stat}
use htmpfs.Inode.Keeps.{IsWhole}
use htmpfs.Smi
use htmpfs.Smi.{root, InodePack, on_inode, get_inode_by_id}
use htmpfs.Smi.Names
use htmpfs.Smi.Sound.Snapshots.{CanSnapshot, copies}
use htmpfs.Pool.Links.{links}
use htmpfs.Prelude.Map.{id_key, bytes_key}
use htmpfs.Fuse.{catch_tail, check_rdonly_fs, set_stat}
use htmpfs.Fuse.Change.{find_inode, do_truncate}
use htmpfs.Fuse.Requests.{root_stat}
use htmpfs.Fuse.{Host, code}
use htmpfs.Fuse.Requests.{Request, handle, mount, mounted, served}
use htmpfs.Fuse.Queries.{Asks, handle-unchanged}
use htmpfs.Fuse.ReadOnly.{IsGuarded, snapshot_readonly}
use htmpfs.Fuse.Sound.Served.{reachable-IsWhole, reachable_live}

abbrev host : Host
host = record { clock = λ n. (n, n); uid = 7; gid = 8; errno = 0 }

abbrev start : Smi
start = mount host 1000 1000

-- A file, its contents and a snapshot.
abbrev created : Smi
created = (handle host (Request.create (codes "/a") 420) start).1

abbrev written : Smi
written = (handle host (Request.write (codes "/a") (codes "hello") 5 0) created).1

abbrev frozen : Smi
frozen = (handle host (Request.mkdir (codes "/.snapshot/v") 493) written).1

abbrev changed : Smi
changed = (handle host (Request.write (codes "/a") (codes "bye!") 4 3) frozen).1

abbrev inner : Bytes
inner = codes "/.snapshot/v/a"

inner-inside : if_snapshot inner ≡ ok (codes "v", codes "/a")
unfolding if_snapshot bytes_eq SnapshotPath.classify FilePath.new SnapshotPath.snapshot_part
    SnapshotPath.print_from
inner-inside = refl

v_differs : bytes_eq (codes "v") current ≡ false
unfolding bytes_eq
v_differs = refl

snapshot_readonly_example :
    handle host (Request.write inner (codes "no") 2 0) changed ≡ (ok (code (neg erofs)), changed)
snapshot_readonly_example =
    snapshot_readonly host inner (codes "v") (codes "/a") changed inner-inside v_differs
      (Request.write inner (codes "no") 2 0) (IsGuarded.write (codes "no") 2 0)

reachable-IsWhole_example :
    (changed.block_size ≡ 512 * 1024)
    × ((id : ℕ) (pack : InodePack)
        → Map.find id changed.inode_pool ≡ some pack
        → IsWhole (512 * 1024) id pack.inode)
reachable-IsWhole_example = reachable-IsWhole host 1000 1000 changed (
    served host (Request.write (codes "/a") (codes "bye!") 4 3) (
      served host (Request.mkdir (codes "/.snapshot/v") 493) (
        served host (Request.write (codes "/a") (codes "hello") 5 0)
          (served host (Request.create (codes "/a") 420) mounted))))

-- A filesystem whose root has a block.
abbrev grown : Smi
grown = (handle host (Request.truncate (codes "/") 1) start).1

abbrev first_block : Refs
first_block = record { id = 0; is_snapshoted = false } ∷ []

abbrev grown_root : InodePack
grown_root = record {
  link_count = 1;
  inode = record {
    block_size = 512 * 1024;
    inode_id = 0;
    is_dentry = true;
    buffer_map = (current, first_block) ∷ [];
    fs_stat = root_stat host zero_stat;
  };
}

grown-find : Map.find 0 grown.inode_pool ≡ some grown_root
unfolding handle do_truncate catch_tail check_rdonly_fs if_snapshot bytes_eq SnapshotPath.classify
    FilePath.new SnapshotPath.snapshot_part SnapshotPath.print_from find_inode
    Names.get_inode_id_by_path Names.locate Names.walk Names.inode_at Map.contains Map.find
    Map.assign Map.emplace get_inode_by_id on_inode Inode.truncate Inode.truncate_list
    Inode.fit_blocks grow request_buffer_allocation get_free_id free_id_loop thaw_range thaw
    truncate_blocks pieces load store Buffer.truncate mount set_stat Smi.new
grown-find = refl

version-find : Map.find current grown_root.inode.buffer_map ≡ some first_block
unfolding Map.find bytes_eq
version-find = refl

start-CanSnapshot : CanSnapshot start
unfolding mount set_stat on_inode Smi.new Map.find Map.assign bytes_eq
start-CanSnapshot ids e j =
    let listed : root ∷ [] ≡ ids = ground (arith, e) in
    subst (λ (l : List ℕ). links j start.buffer_pool + copies j l start.inode_pool < u64_mod) listed
      (omega arith)

reachable_live_example : (b : Buffer) × (buffer_at 0 grown.buffer_pool ≡ some b)
reachable_live_example =
    reachable_live host 1000 1000 grown (served host (Request.truncate (codes "/") 1) mounted)
      (start-CanSnapshot, tt) 0 grown_root current first_block 0 grown-find version-find refl

handle-unchanged_example : (handle host (Request.readdir (codes "/")) changed).1 ≡ changed
handle-unchanged_example =
    handle-unchanged host (Request.readdir (codes "/")) changed (Asks.readdir (codes "/"))
