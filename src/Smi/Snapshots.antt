-- ===== src/Smi/Snapshots.antt =====
-- The operations of `inode_smi_t` on snapshot volumes.
use htmpfs.Prelude.{ℕ, none, some, List, [], ◌∷◌, if◌then◌else◌, add64}
use htmpfs.Prelude.Map
use htmpfs.Prelude.Map.{Map, id_key, bytes_key}
use htmpfs.Errors.{
  ok, throws, out_of_range, requested_inode_not_found, double_snapshot, no_such_snapshot,
}
use htmpfs.Exec.{Exec, pure, raise, modify, ◌>>=◌, ◌>>◌}
use htmpfs.Inode
use htmpfs.Inode.{Version, current}
use htmpfs.Smi.{Smi, on_inode}
use htmpfs.Smi.Names.{drop_link}

-- `link_inode(inode_id)`
unfoldable pub link_inode : ℕ → Exec Smi (Unit {0})
link_inode id s = elim (Map.find id s.inode_pool) [
  | none ↦ raise requested_inode_not_found s
  | some pack ↦ pure tt (record s {
    inode_pool = Map.assign id (record pack { link_count = add64 pack.link_count 1 }) s.inode_pool;
  })
]

-- `unlink_inode(inode_id)`
unfoldable pub unlink_inode : ℕ → Exec Smi (Unit {0})
unlink_inode id s = elim (Map.find id s.inode_pool) [
  | none ↦ raise requested_inode_not_found s
  | some pack ↦ pure tt (drop_link id s pack)
]

-- The loop of `create_snapshot_volume`.
unfoldable pub create_volumes : Version → List ℕ → Exec Smi (Unit {0})
create_volumes version [] = pure tt
create_volumes version (id ∷ ids) = do
  link_inode id
  on_inode id (Inode.create_new_volume version)
  create_volumes version ids

-- `snapshot_version_list.at(version)`
unfoldable pub listed : Version → Exec Smi (List ℕ)
listed version s = elim (Map.find version s.snapshot_version_list) [
  | none ↦ (throws out_of_range, s)
  | some ids ↦ (ok ids, s)
]

-- `create_snapshot_volume(snapshot_ver)`
unfoldable pub create_snapshot_volume : Version → Exec Smi (Unit {0})
create_snapshot_volume version s =
    if Map.contains version s.snapshot_version_list
    then raise double_snapshot s
    else (do
      root_vec ← listed current
      create_volumes version root_vec
      modify λ s'. record s' {
        snapshot_version_list = Map.emplace version root_vec s'.snapshot_version_list;
      })
        s

-- The loop of `delete_snapshot_volume`.
unfoldable pub delete_volumes : Version → List ℕ → Exec Smi (Unit {0})
delete_volumes version [] = pure tt
delete_volumes version (id ∷ ids) = do
  on_inode id (Inode.delete_volume version)
  unlink_inode id
  delete_volumes version ids

-- `delete_snapshot_volume(version)`
unfoldable pub delete_snapshot_volume : Version → Exec Smi (Unit {0})
delete_snapshot_volume version s = elim (Map.find version s.snapshot_version_list) [
  | none ↦ raise no_such_snapshot s
  | some target_vec ↦
      (delete_volumes version target_vec
          >> modify λ s'. record s' {
            snapshot_version_list = Map.erase version s'.snapshot_version_list;
          })
        s
]
