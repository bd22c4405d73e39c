-- ===== src/Smi/Sound.antt =====
-- The inode pool of `inode_smi_t` (src/htmpfs/htmpfs.cpp) across its operations: every inode stands
-- under its own id, has the filesystem's block size, and a current version.
pub mod Names
pub mod Snapshots
use htmpfs.Prelude.{
  ℕ, ◌+◌, ◌-◌, ◌≤◌, ◌%◌, ◌≡◌, refl, sym, ap, ◌∙◌, Bool, true, false, not, ◌&&◌, Option, none, some,
  List, [], ◌∷◌, arith, inl, inr, if◌then◌else◌, ◌==◌, length, leb, u64_mod, add64, subst, ==_iff,
}
use htmpfs.Prelude.Map
use htmpfs.Prelude.Map.{
  Map, id_key, bytes_key, find-assign-some, find-emplace-some, find-erase-some,
}
use htmpfs.Prelude.Bytes.{Bytes, bytes_eq}
use htmpfs.Errors.{Outcome, ok, throws, undefined, out_of_range, Thrown, requested_inode_not_found}
use htmpfs.Exec.{Exec, pure, raise, lift, ◌>>=◌, ◌>>◌}
use htmpfs.Exec.Keeps.{Keeps, bind-Keeps, if-Keeps, if-runs-Keeps, lookup-Keeps}
use htmpfs.Dentry.{Entry}
use htmpfs.Dentry
use htmpfs.Pool.{Pool, get_free_id}
use htmpfs.Prelude.Sums.{sum, sum-find, sum-assign}
use htmpfs.Pool.Links.{links, IsBounded}
use htmpfs.Inode.Links.{uses_of, Counted}
use htmpfs.Inode.Fine.{IsFine}
use htmpfs.Inode
use htmpfs.Inode.{Inode, Version, current}
use htmpfs.Inode.Keeps.{IsWhole, Whole, create_new_volume-Keeps}
use htmpfs.Inode.Fine.{
  write-IsFine, to_string-IsFine, current_data_size-IsFine, delete_volume-IsFine,
}
use htmpfs.Smi.{
  Smi, InodePack, root, on_inode, put_inode, attempt, handle_, get_inode_by_id, member, refresh,
  open_dir, save_current,
}

-- What is followed of a filesystem: its block size, and a premise under which its links are.
pub record Scope : Type 1 where
  pub block_size : ℕ
  pub followed : Type 0

-- How many references of an inode's versions have the id.
abbrev pub refs_of : ℕ → InodePack → ℕ
refs_of j pack = uses_of j pack.inode

-- Every node of the buffer pool has a link for each reference in the inode pool.
abbrev pub IsLinked : Pool → Map ℕ InodePack → Type 0
IsLinked p pool = IsBounded p × ((j : ℕ) → sum (refs_of j) pool ≤ links j p)

pub record IsSound (scope : Scope) (s : Smi) : Type 0 where
  pub sized : s.block_size ≡ scope.block_size
  pub inodes :
      (id : ℕ) (pack : InodePack)
      → Map.find id s.inode_pool ≡ some pack
      → IsWhole scope.block_size id pack.inode
  pub linked : scope.followed → IsLinked s.buffer_pool s.inode_pool

module _ (scope : Scope) where
  abbrev pub Sound : Smi → Type 0
  Sound = IsSound scope

  -- A filesystem with other pools, whose inodes are whole and linked.
  pub with_pool-IsSound :
      (s : Smi) (p : Pool) (pool : Map ℕ InodePack)
      → Sound s
      → ((id : ℕ) (pack : InodePack)
          → Map.find id pool ≡ some pack
          → IsWhole scope.block_size id pack.inode)
      → (scope.followed → IsLinked p pool)
      → Sound (record s { buffer_pool = p; inode_pool = pool })
  with_pool-IsSound s p pool w k l = record { sized = w.sized; inodes = k; linked = l }

  pub assigned-IsWhole :
      (s : Smi) (id : ℕ) (pack : InodePack)
      → Sound s
      → IsWhole scope.block_size id pack.inode
      → (j : ℕ) (x : InodePack) → Map.find j (Map.assign id pack s.inode_pool) ≡ some x
      → IsWhole scope.block_size j x.inode
  assigned-IsWhole s id pack w new j x e = elim (find-assign-some j id pack s.inode_pool x e) [
    | inl (same, is_new) ↦
        subst (λ (k : ℕ). IsWhole scope.block_size k x.inode) (sym ((==_iff j id).0 same))
          (subst (λ (y : InodePack). IsWhole scope.block_size id y.inode) (sym is_new) new)
    | inr old ↦ w.inodes j x old
  ]

  -- A node whose own link count changes refers to what it did.
  pub relinked-IsSound :
      (s : Smi) (id count : ℕ) (pack : InodePack)
      → Sound s
      → Map.find id s.inode_pool ≡ some pack
      → Sound (record s {
        inode_pool = Map.assign id (record pack { link_count = count }) s.inode_pool;
      })
  relinked-IsSound s id count pack w e =
      let pack' : InodePack = record pack { link_count = count } in
      with_pool-IsSound s s.buffer_pool _ w (assigned-IsWhole s id pack' w (w.inodes id pack e))
        λ (u : scope.followed).
          let (small, held) = w.linked u in
          (small, λ j. omega (arith, held j, sum-assign (refs_of j) id pack' s.inode_pool pack e))

  -- A pool of whole nodes with one more.
  pub emplaced-IsWhole :
      (pool : Map ℕ InodePack) (id : ℕ) (pack : InodePack)
      → ((j : ℕ) (x : InodePack) → Map.find j pool ≡ some x → IsWhole scope.block_size j x.inode)
      → IsWhole scope.block_size id pack.inode
      → (j : ℕ) (x : InodePack) → Map.find j (Map.emplace id pack pool) ≡ some x
      → IsWhole scope.block_size j x.inode
  emplaced-IsWhole pool id pack w new j x e = elim (find-emplace-some j id pack pool x e) [
    | inl (same, is_new) ↦
        subst (λ (k : ℕ). IsWhole scope.block_size k x.inode) (sym ((==_iff j id).0 same))
          (subst (λ (y : InodePack). IsWhole scope.block_size id y.inode) (sym is_new) new)
    | inr old ↦ w j x old
  ]

  -- What a method leaves in the place of its inode.
  pub put_inode-IsSound :
      {A : Type 0} (id : ℕ) (s : Smi) (pack : InodePack) (r : Outcome A × (Pool × Inode))
      → Sound s
      → Map.find id s.inode_pool ≡ some pack
      → IsWhole scope.block_size id r.1.1
      → (scope.followed → Counted (λ j. sum (refs_of j) s.inode_pool - refs_of j pack) r.1)
      → Sound (put_inode id s pack r).1
  put_inode-IsSound id s pack (o, (p, inode)) w e whole counted =
      let pack' : InodePack = record pack { inode = inode } in
      with_pool-IsSound s p _ w (assigned-IsWhole s id pack' w whole) λ (u : scope.followed).
        let (small, held) = counted u in
        (
          small,
          λ j. omega (
            arith,
            held j,
            sum-find (refs_of j) id s.inode_pool pack e,
            sum-assign (refs_of j) id pack' s.inode_pool pack e,
          ),
        )

  -- The links that the other inodes need, and the inode's own.
  pub Counted-find :
      (id : ℕ) (s : Smi) (pack : InodePack)
      → Sound s
      → Map.find id s.inode_pool ≡ some pack
      → scope.followed
      → Counted (λ j. sum (refs_of j) s.inode_pool - refs_of j pack) (s.buffer_pool, pack.inode)
  Counted-find id s pack w e u =
      let (small, held) = w.linked u in
      (small, λ j. omega (arith, held j, sum-find (refs_of j) id s.inode_pool pack e))

  pub on_inode-Keeps :
      {A : Type 0} (id : ℕ) (m : Exec (Pool × Inode) A)
      → IsFine scope.block_size id m
      → Keeps Sound (on_inode id m)
  unfolding on_inode
  on_inode-Keeps id m (k, l) s w =
      lookup-Keeps Sound (Map.find id s.inode_pool) (undefined, s)
        (λ pack. put_inode id s pack (m (s.buffer_pool, pack.inode))) w
        (λ pack e.
          put_inode-IsSound id s pack (m (s.buffer_pool, pack.inode)) w e
            (k (s.buffer_pool, pack.inode) (w.inodes id pack e))
            (λ u.
              l (λ j. sum (refs_of j) s.inode_pool - refs_of j pack) (s.buffer_pool, pack.inode)
                (Counted-find id s pack w e u)))

  handle-Keeps :
      {A : Type 0} (r : Outcome A × Smi) (handler : Thrown → Exec Smi A)
      → Sound r.1
      → ((e : Thrown) → Keeps Sound (handler e))
      → Sound (handle_ r handler).1
  handle-Keeps (ok a, s) handler w k = w
  handle-Keeps (throws e, s) handler w k = k e s w
  handle-Keeps (undefined, s) handler w k = w

  -- A step with a handler, in one state.
  pub attempt-IsSound :
      {A : Type 0} (m : Exec Smi A) (handler : Thrown → Exec Smi A) (s : Smi)
      → Sound (m s).1
      → ((e : Thrown) → Keeps Sound (handler e))
      → Sound (attempt m handler s).1
  attempt-IsSound m handler s w k = handle-Keeps (m s) handler w k

  pub attempt-Keeps :
      {A : Type 0} (m : Exec Smi A) (handler : Thrown → Exec Smi A)
      → Keeps Sound m
      → ((e : Thrown) → Keeps Sound (handler e))
      → Keeps Sound (attempt m handler)
  attempt-Keeps m handler h k s w = handle-Keeps (m s) handler (h s w) k

  pub get_inode_by_id-Keeps : (id : ℕ) → Keeps Sound (get_inode_by_id id)
  unfolding get_inode_by_id
  get_inode_by_id-Keeps id s w = if-runs-Keeps Sound (Map.contains id s.inode_pool) _ _ w w

  pub member-Keeps : {A : Type 0} (id : ℕ) (f : Inode → A) → Keeps Sound (member id f)
  unfolding member
  member-Keeps id f s w =
      lookup-Keeps Sound (Map.find id s.inode_pool) (undefined, s) (λ pack. (ok (f pack.inode), s))
        w (λ pack e. w)

  pub refresh-Keeps : (inode : ℕ) (version : Version) → Keeps Sound (refresh inode version)
  unfolding refresh
  refresh-Keeps inode version =
      bind-Keeps Sound (on_inode inode (Inode.current_data_size version)) _
        (on_inode-Keeps inode (Inode.current_data_size version)
          (current_data_size-IsFine scope.block_size inode version))
        (λ size.
          if-Keeps Sound (size == 0) _ _ (λ s w. w)
            (bind-Keeps Sound (on_inode inode (Inode.to_string version)) _
              (on_inode-Keeps inode (Inode.to_string version)
                (to_string-IsFine scope.block_size inode version))
              (λ text s w. w)))

  pub open_dir-Keeps : (inode : ℕ) (version : Version) → Keeps Sound (open_dir inode version)
  unfolding open_dir
  open_dir-Keeps inode version =
      bind-Keeps Sound (member inode (λ i. i.is_dentry)) _ (member-Keeps inode (λ i. i.is_dentry))
        (λ is_dentry.
          if-Keeps Sound (not is_dentry) _ _ (λ s w. w)
            (bind-Keeps Sound (refresh inode version) _ (refresh-Keeps inode version)
              (λ path s w. w)))

  pub save_current-Keeps : (inode : ℕ) (path : List Entry) → Keeps Sound (save_current inode path)
  unfolding save_current
  save_current-Keeps inode path =
      bind-Keeps Sound
        (on_inode inode (Inode.write (Dentry.pack path) (length (Dentry.pack path)) 0 true true)) _
        (on_inode-Keeps inode
          (Inode.write (Dentry.pack path) (length (Dentry.pack path)) 0 true true)
          (write-IsFine scope.block_size inode (Dentry.pack path) (length (Dentry.pack path)) 0 true
            true))
        (λ n s w. w)
