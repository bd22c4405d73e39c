-- ===== src/Inode/Keeps.antt =====
-- What no method of `inode_t` (src/htmpfs/htmpfs.cpp) changes: block size and id, and that there is
-- a current version.
use htmpfs.Prelude.{
  Bool-cases, length, add64, mul64, ℕ, ◌≡◌, ◌∙◌, Bool, true, false, inl, inr, ◌==◌, not, ◌&&◌,
}
use htmpfs.Prelude.Map
use htmpfs.Prelude.Map.{Map, bytes_key, contains-assign, contains-emplace, contains-erase}
use htmpfs.Prelude.Bytes.{Bytes, bytes_eq, bytes_eq_symm}
use htmpfs.Errors.{Outcome, ok, throws, undefined, out_of_range, no_such_snapshot}
use htmpfs.Exec.{Exec, raise, lift, ◌>>=◌}
use htmpfs.Blocks.{data_size, freeze, unlink_all}
use htmpfs.Exec.Keeps.{Keeps, bind-Keeps, if-Keeps, if-runs-Keeps, lookup-Keeps}
use htmpfs.Pool.{Pool, Refs}
use htmpfs.Inode.{
  Inode, Version, current, on_pool, with_current, read, read_all, to_string, current_data_size,
  write, create_new_volume, delete_volume, truncate, truncate_list, write_resized, write_clipped,
  read_list, version_refs, put_current, put_volume, erase_volume,
}

-- The inode has these, and a current version.
pub record IsWhole (block_size id : ℕ) (inode : Inode) : Type 0 where
  pub sized : inode.block_size ≡ block_size
  pub named : inode.inode_id ≡ id
  pub has_current : Map.contains current inode.buffer_map ≡ true

module _ (block_size id : ℕ) where
  abbrev pub Whole : Pool × Inode → Type 0
  Whole s = IsWhole block_size id s.1

  on_pool-Keeps : {A : Type 0} (m : Exec Pool A) → Keeps Whole (on_pool m)
  on_pool-Keeps m s w = w

  assigned :
      (refs : Refs) (inode : Inode)
      → IsWhole block_size id inode
      → IsWhole block_size id
          (record inode { buffer_map = Map.assign current refs inode.buffer_map })
  assigned refs inode w = record {
    sized = w.sized;
    named = w.named;
    has_current = contains-assign current current refs inode.buffer_map ∙ w.has_current;
  }

  with_current-Keeps : {A : Type 0} (m : Exec (Pool × Refs) A) → Keeps Whole (with_current m)
  with_current-Keeps {A} m (p, inode) w =
      lookup-Keeps Whole (Map.find current inode.buffer_map) (throws out_of_range, (p, inode))
        (λ refs. put_current inode (m (p, refs))) w (λ refs e. assigned (m (p, refs)).1.1 inode w)

  pub truncate-Keeps : (n : ℕ) → Keeps Whole (truncate n)
  unfolding truncate
  truncate-Keeps n (p, inode) w = with_current-Keeps (truncate_list inode.block_size n) (p, inode) w

  pub write-Keeps :
      (buffer : Bytes) (len offset : ℕ) (resize dentry_only : Bool)
      → Keeps Whole (write buffer len offset resize dentry_only)
  unfolding write
  write-Keeps buffer len offset resize dentry_only (p, inode) w =
      if-runs-Keeps Whole (inode.is_dentry && not dentry_only) _ _ w (
        if-runs-Keeps Whole (len == 0) _ _ w (
          if-runs-Keeps Whole resize _ _
            (with_current-Keeps (write_resized inode.block_size buffer len offset) (p, inode) w)
            (with_current-Keeps (write_clipped inode.block_size buffer len offset) (p, inode) w)))

  on_version-Keeps :
      {A : Type 0} (version : Version) (m : Refs → Exec Pool A) (inode : Inode)
      → Keeps Whole (lift (version_refs version inode) >>= λ refs. on_pool (m refs))
  on_version-Keeps version m inode =
      bind-Keeps Whole (lift (version_refs version inode)) (λ refs. on_pool (m refs)) (λ s w. w)
        (λ refs. on_pool-Keeps (m refs))

  pub current_data_size-Keeps : (version : Version) → Keeps Whole (current_data_size version)
  unfolding current_data_size
  current_data_size-Keeps version (p, inode) w =
      on_version-Keeps version (data_size 0) inode (p, inode) w

  pub read-Keeps : (version : Version) (len offset : ℕ) → Keeps Whole (read version len offset)
  unfolding read
  read-Keeps version len offset (p, inode) w =
      if-runs-Keeps Whole (len == 0) _ _ w
        (on_version-Keeps version (read_list inode.block_size len offset) inode (p, inode) w)

  read_all-Keeps : (version : Version) (size : ℕ) → Keeps Whole (read_all version size)
  unfolding read_all
  read_all-Keeps version size (p, inode) =
      bind-Keeps Whole (lift (version_refs version inode)) _ (λ s w. w)
        (λ refs.
          bind-Keeps Whole (read version (add64 (mul64 inode.block_size (length refs)) 1) 0) _
            (read-Keeps version _ 0)
            (λ bytes. if-Keeps Whole (length bytes == size) _ _ (λ s w. w) (λ s w. w)))
        (p, inode)

  pub to_string-Keeps : (version : Version) → Keeps Whole (to_string version)
  unfolding to_string
  to_string-Keeps version =
      bind-Keeps Whole (current_data_size version) _ (current_data_size-Keeps version)
        (λ size. if-Keeps Whole (size == 0) _ _ (λ s w. w) (read_all-Keeps version size))

  volume-Keeps :
      (version : Version) (inode : Inode) (r : Outcome Refs × (Pool × Refs))
      → IsWhole block_size id inode
      → Whole (put_volume version inode r).1
  volume-Keeps version inode (ok volume, (p, refs)) w =
      let a = assigned refs inode w in
      record {
        sized = w.sized;
        named = w.named;
        has_current =
            contains-emplace current version volume (Map.assign current refs inode.buffer_map)
              a.has_current;
      }
  volume-Keeps version inode (throws e, (p, refs)) w = assigned refs inode w
  volume-Keeps version inode (undefined, (p, refs)) w = w

  pub create_new_volume-Keeps : (version : Version) → Keeps Whole (create_new_volume version)
  unfolding create_new_volume
  create_new_volume-Keeps version (p, inode) w =
      if-runs-Keeps Whole (Map.contains version inode.buffer_map) _ _ w (
        lookup-Keeps Whole (Map.find current inode.buffer_map) (throws out_of_range, (p, inode))
          (λ refs. put_volume version inode (freeze refs p)) w
          (λ refs e. volume-Keeps version inode (freeze refs p) w))

  erase-Keeps :
      (version : Version) (r : Outcome (Unit {0}) × (Pool × Inode))
      → bytes_eq version current ≡ false
      → Whole r.1
      → Whole (erase_volume version r).1
  erase-Keeps version (ok _, (p, inode)) other w = record {
    sized = w.sized;
    named = w.named;
    has_current =
        contains-erase current version inode.buffer_map (bytes_eq_symm current version ∙ other)
        ∙ w.has_current;
  }
  erase-Keeps version (throws e, s) other w = w
  erase-Keeps version (undefined, s) other w = w

  pub delete_volume-Keeps : (version : Version) → Keeps Whole (delete_volume version)
  unfolding delete_volume
  delete_volume-Keeps version (p, inode) w = elim (Bool-cases (bytes_eq version current)) [
    | inl same ↦ rw same w
    | inr other ↦ rw other (
        lookup-Keeps Whole (Map.find version inode.buffer_map) (raise no_such_snapshot (p, inode))
          (λ refs. erase_volume version (on_pool (unlink_all refs) (p, inode))) w
          (λ refs e. erase-Keeps version (on_pool (unlink_all refs) (p, inode)) other w))
  ]
