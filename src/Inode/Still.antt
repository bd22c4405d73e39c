-- ===== src/Inode/Still.antt =====
-- The methods of `inode_t` (src/htmpfs/htmpfs.cpp) that only read.
use htmpfs.Prelude.{
  ℕ, ◌/◌, ◌%◌, ◌≡◌, refl, ap, List, [], ◌∷◌, ◌==◌, length, ltb, drop, add64, mul64,
}
use htmpfs.Prelude.Map
use htmpfs.Errors.{undefined, ok}
use htmpfs.Exec.{Exec, lift, ◌>>=◌}
use htmpfs.Exec.Keeps.{if-runs-Keeps, lookup-Keeps}
use htmpfs.Exec.Still.{Still, bind-Still, if-Still}
use htmpfs.Prelude.Map.{id_key}
use htmpfs.Buffer
use htmpfs.Pool.{Pool, Refs, load}
use htmpfs.Blocks.{data_size, read_blocks, pieces, verify}
use htmpfs.Inode.{
  Inode, Version, on_pool, version_refs, clip_size, current_data_size, read_list, read, read_all,
  to_string,
}

load-Still : (id : ℕ) → Still (load id)
unfolding load
load-Still id p =
    lookup-Keeps (λ (q : Pool). q ≡ p) (Map.find id p.packs) (undefined, p)
      (λ pack. (ok pack.buffer, p)) refl (λ pack e. refl)

data_size-Still : (size : ℕ) (refs : Refs) → Still (data_size size refs)
unfolding data_size
data_size-Still size [] = λ p. refl
data_size-Still size (r ∷ refs) =
    bind-Still (load r.id) _ (load-Still r.id)
      λ data'. data_size-Still (add64 size (length data')) refs

read_blocks-Still : (offset : ℕ) (ns : List ℕ) (refs : Refs) → Still (read_blocks offset ns refs)
unfolding read_blocks
read_blocks-Still offset [] refs = λ p. refl
read_blocks-Still offset (n ∷ ns) [] = λ p. refl
read_blocks-Still offset (n ∷ ns) (r ∷ refs) = bind-Still (load r.id) _ (load-Still r.id) λ data'.
    let bytes = Buffer.read data' n offset in
    bind-Still (lift (verify (length bytes) n)) _ (λ p. refl)
      λ u. bind-Still (read_blocks 0 ns refs) _ (read_blocks-Still 0 ns refs) λ rest p. refl

read_list-Still :
    (block_size len offset : ℕ) (refs : Refs) → Still (read_list block_size len offset refs)
unfolding read_list
read_list-Still block_size len offset refs =
    bind-Still (data_size 0 refs) _ (data_size-Still 0 refs) λ size.
      if-Still (ltb size offset) _ _ (λ p. refl)
        (read_blocks-Still (offset % block_size)
          (pieces block_size (offset % block_size) (clip_size size len offset))
          (drop (offset / block_size) refs))

on_version-Still :
    {A : Type 0} (version : Version) (m : Refs → Exec Pool A) (inode : Inode)
    → ((refs : Refs) → Still (m refs))
    → Still (lift (version_refs version inode) >>= λ refs. on_pool {S = Inode} (m refs))
on_version-Still version m inode h =
    bind-Still (lift (version_refs version inode)) (λ refs. on_pool (m refs)) (λ s. refl)
      λ refs (p, i). ap (λ q. (q, i)) (h refs p)

pub current_data_size-Still : (version : Version) → Still (current_data_size version)
unfolding current_data_size
current_data_size-Still version (p, inode) =
    on_version-Still version (data_size 0) inode (data_size-Still 0) (p, inode)

pub read-Still : (version : Version) (len offset : ℕ) → Still (read version len offset)
unfolding read
read-Still version len offset (p, inode) =
    if-runs-Keeps (λ (s : Pool × Inode). s ≡ (p, inode)) (len == 0) _ _ refl
      (on_version-Still version (read_list inode.block_size len offset) inode
        (read_list-Still inode.block_size len offset) (p, inode))

read_all-Still : (version : Version) (size : ℕ) → Still (read_all version size)
unfolding read_all
read_all-Still version size (p, inode) =
    bind-Still (lift (version_refs version inode)) _ (λ s. refl)
      (λ refs.
        bind-Still (read version (add64 (mul64 inode.block_size (length refs)) 1) 0) _
          (read-Still version _ 0)
          (λ bytes. if-Still (length bytes == size) _ _ (λ s. refl) (λ s. refl)))
      (p, inode)

pub to_string-Still : (version : Version) → Still (to_string version)
unfolding to_string
to_string-Still version =
    bind-Still (current_data_size version) _ (current_data_size-Still version)
      (λ size. if-Still (size == 0) _ _ (λ s. refl) (read_all-Still version size))
