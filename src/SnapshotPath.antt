-- ===== src/SnapshotPath.antt =====
-- Paths into snapshots: `if_snapshot` (src/htmpfs/htmpfs.cpp) and `make_path_with_version`
-- (src/utils/uni_utils.cpp).
pub mod Laws
use htmpfs.Prelude.{List, [], ◌∷◌, ◌++◌, if◌then◌else◌}
use htmpfs.Prelude.Bytes.{Bytes, codes, bytes_eq}
use htmpfs.Errors.{Outcome, ok, throw, invalid_dentry_name}
use htmpfs.FilePath
use htmpfs.FilePath.{FilePath, slash}
use htmpfs.Inode.{Version, current}

-- The components from `head` on, each behind a slash.
unfoldable pub print_from : List Bytes → Bytes
print_from [] = []
print_from (c ∷ cs) = slash ∷ c ++ print_from cs

-- The part of a path behind `.snapshot`: the version, and the rest of the path.
unfoldable pub snapshot_part : List Bytes → Outcome (Version × Bytes)
snapshot_part [] = throw invalid_dentry_name
snapshot_part (version ∷ rest) = ok (version, print_from rest)

-- `.snapshot`
abbrev pub snapshot_entry : Bytes
snapshot_entry = codes ".snapshot"

-- The components behind the root, of a path that is not `/`.
unfoldable pub classify : Bytes → List Bytes → Outcome (Version × Bytes)
classify path [] = ok (current, [])
classify path (head ∷ rest) =
    if bytes_eq head snapshot_entry then snapshot_part rest else ok (current, path)

abbrev pub behind_root : FilePath → List Bytes
behind_root [] = []
behind_root (_ ∷ cs) = cs

-- `if_snapshot(path, output)`: the version, and what it leaves in `output` (empty before the call).
unfoldable pub if_snapshot : Bytes → Outcome (Version × Bytes)
if_snapshot path =
    if bytes_eq path (slash ∷ [])
    then ok (current, path)
    else classify path (behind_root (FilePath.new path))

-- `make_path_with_version(path, version)`
unfoldable pub make_path_with_version : Bytes → Version → Bytes
make_path_with_version path version =
    if bytes_eq version current then path else (codes "/.snapshot/" ++ version) ++ path
