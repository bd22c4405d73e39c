-- ===== src/Inode/Links.antt =====
-- References and link counts of an inode (src/htmpfs/htmpfs.cpp): every method but the creation of a
-- volume keeps a link for each reference in each version, whether it returns or throws.
use htmpfs.Prelude.{
  ℕ, ◌+◌, ◌-◌, ◌/◌, ◌%◌, ◌≤◌, ◌≡◌, Bool, true, false, not, ◌&&◌, some, arith, ◌==◌, drop, add64,
  mul64, length, ltb,
}
use htmpfs.Prelude.Map
use htmpfs.Prelude.Map.{Map, bytes_key}
use htmpfs.Prelude.Sums.{sum, sum-find, sum-assign}
use htmpfs.Prelude.Bytes.{Bytes}
use htmpfs.Errors.{Outcome, throws, out_of_range}
use htmpfs.Exec.{Exec, pure, lift, ◌>>=◌}
use htmpfs.Exec.Keeps.{Keeps, bind-Keeps, if-Keeps, if-runs-Keeps, lookup-Keeps}
use htmpfs.Pool.{Pool, Refs}
use htmpfs.Pool.Links.{links, IsBounded, Gains, nothing, Gains-refl}
use htmpfs.Blocks.{
  block_count, pieces, thaw_range, grow, lose, truncate_blocks, write_blocks, data_size,
}
use htmpfs.Blocks.Links.{
  uses, Held, Held-same, Quiet, thaw_range-Held, grow-Held, lose-Held, truncate_blocks-Quiet,
  write_blocks-Quiet, data_size-Quiet, read_blocks-Quiet,
}
use htmpfs.Inode.{
  Inode, Version, current, on_pool, with_current, put_current, fit_blocks, truncate_list, truncate,
  write_resized, clip_size, write_inside, write_clipped, write, version_refs, current_data_size,
  read_list, read, read_all, to_string,
}

-- How many references of all versions have the id.
abbrev pub uses_of : ℕ → Inode → ℕ
uses_of j inode = sum (uses j) inode.buffer_map

-- Every node has a link for each reference of the inode, and `f` further ones.
abbrev pub Counted : (ℕ → ℕ) → Pool × Inode → Type 0
Counted f (p, inode) = IsBounded p × ((j : ℕ) → f j + uses_of j inode ≤ links j p)

on_pool-Held : {A : Type 0} (f : ℕ → ℕ) (m : Exec Pool A) → Quiet m → Keeps (Held f) (on_pool m)
on_pool-Held f m q (p, refs) h = Held-same p (m p).1 f refs (q p p (Gains-refl p)) h

fit_blocks-Held : (f : ℕ → ℕ) (block_size len : ℕ) → Keeps (Held f) (fit_blocks block_size len)
unfolding fit_blocks
fit_blocks-Held f block_size len (p, refs) h =
    let size : ℕ = mul64 (length refs) block_size in
    let n : ℕ = block_count block_size (len - size) in
    let k : ℕ = length refs - block_count block_size len in
    if-runs-Keeps (Held f) (ltb size len) _ _
      (bind-Keeps (Held f) (grow n) _ (grow-Held f n)
        (λ u (p', refs') w. thaw_range-Held block_size 0 (length refs') refs' p' f w) (p, refs) h)
      (bind-Keeps (Held f) (lose k) _ (lose-Held f k)
        (λ u (p', refs') w. thaw_range-Held block_size 0 (block_count block_size len) refs' p' f w)
        (p, refs) h)

truncate_list-Held :
    (f : ℕ → ℕ) (block_size len : ℕ) → Keeps (Held f) (truncate_list block_size len)
unfolding truncate_list
truncate_list-Held f block_size len =
    bind-Keeps (Held f) (fit_blocks block_size len) _ (fit_blocks-Held f block_size len)
      λ u (p, refs) w. if-runs-Keeps (Held f) (len == 0) _ _ w (
        on_pool-Held f (truncate_blocks (pieces block_size 0 len) refs)
          (truncate_blocks-Quiet (pieces block_size 0 len) refs) (p, refs) w)

write_behind-Held :
    (f : ℕ → ℕ) (resize : Bool) (block_size start offset len : ℕ) (buffer : Bytes) (p : Pool)
    (refs : Refs)
    → Held f (p, refs)
    → Held f
        (on_pool
          (write_blocks resize offset (pieces block_size offset len) buffer (drop start refs))
          (p, refs)).1
write_behind-Held f resize block_size start offset len buffer p refs w =
    on_pool-Held f
      (write_blocks resize offset (pieces block_size offset len) buffer (drop start refs))
      (write_blocks-Quiet resize offset (pieces block_size offset len) buffer (drop start refs))
      (p, refs) w

write_resized-Held :
    (f : ℕ → ℕ) (block_size : ℕ) (buffer : Bytes) (len offset : ℕ)
    → Keeps (Held f) (write_resized block_size buffer len offset)
unfolding write_resized
write_resized-Held f block_size buffer len offset =
    bind-Keeps (Held f) _ (λ u. pure len)
      (bind-Keeps (Held f) (truncate_list block_size (add64 offset len)) _
        (truncate_list-Held f block_size (add64 offset len))
        (λ u (p, refs) w.
          write_behind-Held f true block_size (offset / block_size) (offset % block_size) len buffer
            p refs w))
      (λ u s w. w)

write_inside-Held :
    (f : ℕ → ℕ) (block_size : ℕ) (buffer : Bytes) (size offset : ℕ)
    → Keeps (Held f) (write_inside block_size buffer size offset)
unfolding write_inside
write_inside-Held f block_size buffer size offset =
    let start : ℕ = offset / block_size in
    let n : ℕ = block_count block_size (add64 offset size) - start in
    bind-Keeps (Held f) _ (λ u. pure size)
      (bind-Keeps (Held f) (λ (p, refs). thaw_range block_size start n refs p) _
        (λ (p, refs) w. thaw_range-Held block_size start n refs p f w)
        (λ u (p, refs) w.
          write_behind-Held f false block_size start (offset % block_size) size buffer p refs w))
      (λ u s w. w)

write_clipped-Held :
    (f : ℕ → ℕ) (block_size : ℕ) (buffer : Bytes) (len offset : ℕ)
    → Keeps (Held f) (write_clipped block_size buffer len offset)
unfolding write_clipped
write_clipped-Held f block_size buffer len offset (p, refs) =
    bind-Keeps (Held f) (on_pool (data_size 0 refs)) _
      (on_pool-Held f (data_size 0 refs) (data_size-Quiet 0 refs))
      (λ size.
        if-Keeps (Held f) (ltb size offset) _ _ (λ s w. w)
          (write_inside-Held f block_size buffer (clip_size size len offset) offset))
      (p, refs)

read_list-Quiet :
    (block_size len offset : ℕ) (refs : Refs) → Quiet (read_list block_size len offset refs)
unfolding read_list
read_list-Quiet block_size len offset refs p0 =
    bind-Keeps (Gains p0 nothing) (data_size 0 refs) _ (data_size-Quiet 0 refs p0) λ size.
      if-Keeps (Gains p0 nothing) (ltb size offset) _ _ (λ s w. w)
        (read_blocks-Quiet (offset % block_size)
          (pieces block_size (offset % block_size) (clip_size size len offset))
          (drop (offset / block_size) refs) p0)

module _ (f : ℕ → ℕ) where
  -- What the other versions refer to is more of the rest of the world.
  put_current-Counted :
      {A : Type 0} (p : Pool) (inode : Inode) (refs : Refs) (r : Outcome A × (Pool × Refs))
      → Map.find current inode.buffer_map ≡ some refs
      → Held (λ j. f j + (uses_of j inode - uses j refs)) r.1
      → Counted f (put_current inode r).1
  put_current-Counted p inode refs (o, (q, refs')) e (w, h) = (
    w,
    λ j. omega (
      arith,
      h j,
      sum-find (uses j) current inode.buffer_map refs e,
      sum-assign (uses j) current refs' inode.buffer_map refs e,
    ),
  )

  with_current-Counted :
      {A : Type 0} (m : Exec (Pool × Refs) A)
      → ((g : ℕ → ℕ) → Keeps (Held g) m)
      → Keeps (Counted f) (with_current m)
  with_current-Counted m k (p, inode) (w, h) =
      lookup-Keeps (Counted f) (Map.find current inode.buffer_map) (throws out_of_range, (p, inode))
        (λ refs. put_current inode (m (p, refs))) (w, h)
        λ refs e. put_current-Counted p inode refs (m (p, refs)) e (
          k (λ j. f j + (uses_of j inode - uses j refs)) (p, refs)
            (w, λ j. omega (arith, h j, sum-find (uses j) current inode.buffer_map refs e)))

  pub truncate-Counted : (n : ℕ) → Keeps (Counted f) (truncate n)
  unfolding truncate
  truncate-Counted n (p, inode) w =
      with_current-Counted (truncate_list inode.block_size n)
        (λ g. truncate_list-Held g inode.block_size n) (p, inode) w

  pub write-Counted :
      (buffer : Bytes) (len offset : ℕ) (resize dentry_only : Bool)
      → Keeps (Counted f) (write buffer len offset resize dentry_only)
  unfolding write
  write-Counted buffer len offset resize dentry_only (p, inode) w =
      if-runs-Keeps (Counted f) (inode.is_dentry && not dentry_only) _ _ w (
        if-runs-Keeps (Counted f) (len == 0) _ _ w (
          if-runs-Keeps (Counted f) resize _ _
            (with_current-Counted (write_resized inode.block_size buffer len offset)
              (λ g. write_resized-Held g inode.block_size buffer len offset) (p, inode) w)
            (with_current-Counted (write_clipped inode.block_size buffer len offset)
              (λ g. write_clipped-Held g inode.block_size buffer len offset) (p, inode) w)))

  on_pool-Counted : {A : Type 0} (m : Exec Pool A) → Quiet m → Keeps (Counted f) (on_pool m)
  on_pool-Counted m q (p, inode) (w, h) =
      let a : Gains p nothing (m p).1 = q p p (Gains-refl p) in
      (a.bounded w, λ j. omega (arith, a.gained j, h j))

  on_version-Counted :
      {A : Type 0} (version : Version) (m : Refs → Exec Pool A) (inode : Inode)
      → ((refs : Refs) → Quiet (m refs))
      → Keeps (Counted f) (lift (version_refs version inode) >>= λ refs. on_pool (m refs))
  on_version-Counted version m inode q =
      bind-Keeps (Counted f) (lift (version_refs version inode)) (λ refs. on_pool (m refs))
        (λ s w. w) (λ refs. on_pool-Counted (m refs) (q refs))

  pub current_data_size-Counted :
      (version : Version) → Keeps (Counted f) (current_data_size version)
  unfolding current_data_size
  current_data_size-Counted version (p, inode) w =
      on_version-Counted version (data_size 0) inode (data_size-Quiet 0) (p, inode) w

  pub read-Counted :
      (version : Version) (len offset : ℕ) → Keeps (Counted f) (read version len offset)
  unfolding read
  read-Counted version len offset (p, inode) w = if-runs-Keeps (Counted f) (len == 0) _ _ w (
      on_version-Counted version (read_list inode.block_size len offset) inode
        (read_list-Quiet inode.block_size len offset) (p, inode) w)

  read_all-Counted : (version : Version) (size : ℕ) → Keeps (Counted f) (read_all version size)
  unfolding read_all
  read_all-Counted version size (p, inode) =
      bind-Keeps (Counted f) (lift (version_refs version inode)) _ (λ s w. w)
        (λ refs.
          bind-Keeps (Counted f) (read version (add64 (mul64 inode.block_size (length refs)) 1) 0) _
            (read-Counted version _ 0)
            (λ bytes. if-Keeps (Counted f) (length bytes == size) _ _ (λ s w. w) (λ s w. w)))
        (p, inode)

  pub to_string-Counted : (version : Version) → Keeps (Counted f) (to_string version)
  unfolding to_string
  to_string-Counted version =
      bind-Keeps (Counted f) (current_data_size version) _ (current_data_size-Counted version)
        (λ size. if-Keeps (Counted f) (size == 0) _ _ (λ s w. w) (read_all-Counted version size))
