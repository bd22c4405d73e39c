-- ===== src/Smi/Still.antt =====
-- The operations of `inode_smi_t` (src/htmpfs/htmpfs.cpp) that only look.
use htmpfs.Prelude.{
  ℕ, ◌≡◌, refl, ap, ◌∙◌, Bool, true, false, not, ◌&&◌, some, List, [], ◌∷◌, length, ◌==◌,
}
use htmpfs.Prelude.Map
use htmpfs.Prelude.Map.{id_key, bytes_key, assign_same}
use htmpfs.Prelude.Bytes.{Bytes, bytes_eq}
use htmpfs.Errors.{Outcome, undefined, ok, requested_inode_not_found}
use htmpfs.Exec.{Exec, pure, raise, lift}
use htmpfs.Exec.Keeps.{if-runs-Keeps, lookup-Keeps}
use htmpfs.Exec.Still.{Still, bind-Still, if-Still}
use htmpfs.Dentry
use htmpfs.FilePath
use htmpfs.FilePath.{FilePath, is_empty, slash}
use htmpfs.Pool.{Pool}
use htmpfs.Inode
use htmpfs.Inode.{Inode, Version, current}
use htmpfs.Inode.Still.{current_data_size-Still, to_string-Still}
use htmpfs.SnapshotPath.{if_snapshot}
use htmpfs.Smi.{
  Smi, InodePack, root, put_inode, on_inode, get_inode_by_id, member, refresh, open_dir,
}
use htmpfs.Smi.Names.{inode_at, walk, locate, get_inode_id_by_path, count_link_for_inode}

put_same :
    {A : Type 0} (id : ℕ) (s : Smi) (pack : InodePack) (r : Outcome A × (Pool × Inode))
    → Map.find id s.inode_pool ≡ some pack
    → r.1 ≡ (s.buffer_pool, pack.inode)
    → (put_inode id s pack r).1 ≡ s
put_same id s pack (o, t) e same =
    ap
      (λ (x : Pool × Inode). record s {
        buffer_pool = x.0;
        inode_pool = Map.assign id (record pack { inode = x.1 }) s.inode_pool;
      })
      same
    ∙ ap (λ pool. record s { inode_pool = pool }) (assign_same id s.inode_pool pack e)

pub on_inode-Still :
    {A : Type 0} (id : ℕ) (m : Exec (Pool × Inode) A) → Still m → Still (on_inode id m)
unfolding on_inode
on_inode-Still id m h s =
    lookup-Keeps (λ (t : Smi). t ≡ s) (Map.find id s.inode_pool) (undefined, s)
      (λ pack. put_inode id s pack (m (s.buffer_pool, pack.inode))) refl
      (λ pack e.
        put_same id s pack (m (s.buffer_pool, pack.inode)) e (h (s.buffer_pool, pack.inode)))

pub get_inode_by_id-Still : (id : ℕ) → Still (get_inode_by_id id)
unfolding get_inode_by_id
get_inode_by_id-Still id s =
    if-runs-Keeps (λ (t : Smi). t ≡ s) (Map.contains id s.inode_pool) _ _ refl refl

pub member-Still : {A : Type 0} (id : ℕ) (f : Inode → A) → Still (member id f)
unfolding member
member-Still id f s =
    lookup-Keeps (λ (t : Smi). t ≡ s) (Map.find id s.inode_pool) (undefined, s)
      (λ pack. (ok (f pack.inode), s)) refl (λ pack e. refl)

refresh-Still : (inode : ℕ) (version : Version) → Still (refresh inode version)
unfolding refresh
refresh-Still inode version =
    bind-Still (on_inode inode (Inode.current_data_size version)) _
      (on_inode-Still inode (Inode.current_data_size version) (current_data_size-Still version))
      (λ size.
        if-Still (size == 0) _ _ (λ s. refl)
          (bind-Still (on_inode inode (Inode.to_string version)) _
            (on_inode-Still inode (Inode.to_string version) (to_string-Still version))
            (λ text s. refl)))

pub open_dir-Still : (inode : ℕ) (version : Version) → Still (open_dir inode version)
unfolding open_dir
open_dir-Still inode version =
    bind-Still (member inode (λ i. i.is_dentry)) _ (member-Still inode (λ i. i.is_dentry))
      λ is_dentry.
        if-Still (not is_dentry) _ _ (λ s. refl)
          (bind-Still (refresh inode version) _ (refresh-Still inode version) (λ path s. refl))

inode_at-Still : (id : ℕ) → Still (inode_at id)
unfolding inode_at
inode_at-Still id s =
    if-runs-Keeps (λ (t : Smi). t ≡ s) (Map.contains id s.inode_pool) _ _ refl refl

choose-Still :
    {A : Type 0} (b : Bool) (m n : Exec Smi A)
    → Still m
    → Still n
    → Still (elim b as (λ _. Exec Smi A) [ true ↦ m | false ↦ n ])
choose-Still true m n h k = h
choose-Still false m n h k = k

walk-Still : (version : Version) (id : ℕ) (path : List Bytes) → Still (walk version id path)
unfolding walk
walk-Still version id [] = λ s. refl
walk-Still version id (i ∷ path) = choose-Still (is_empty i) _ _ (walk-Still version id path) (
    bind-Still (inode_at id) _ (inode_at-Still id) λ inode.
      bind-Still (open_dir inode version) _ (open_dir-Still inode version) λ dir.
        bind-Still (lift (Dentry.namei i dir.path)) _ (λ s. refl)
          λ next. walk-Still version next path)

locate-Still : (version : Version) (vec_path : FilePath) → Still (locate version vec_path)
unfolding locate
locate-Still version vec_path s =
    if-runs-Keeps (λ (t : Smi). t ≡ s) (not (bytes_eq version current) && (length vec_path == 1)) _
      _
      (if-runs-Keeps (λ (t : Smi). t ≡ s) (Map.contains version s.snapshot_version_list) _ _ refl
        refl)
      (walk-Still version root vec_path s)

pub get_inode_id_by_path-Still : (path : Bytes) → Still (get_inode_id_by_path path)
unfolding get_inode_id_by_path
get_inode_id_by_path-Still [] = λ s. refl
get_inode_id_by_path-Still (c ∷ path) =
    if-Still (not (c == slash)) _ _ (λ s. refl)
      (bind-Still (lift (if_snapshot (c ∷ path))) _ (λ s. refl)
        λ (version, parsed_path). locate-Still version (FilePath.new parsed_path))

pub count_link_for_inode-Still : (id : ℕ) → Still (count_link_for_inode id)
unfolding count_link_for_inode
count_link_for_inode-Still id s =
    lookup-Keeps (λ (t : Smi). t ≡ s) (Map.find id s.inode_pool) (raise requested_inode_not_found s)
      (λ pack. pure pack.link_count s) refl (λ pack e. refl)
