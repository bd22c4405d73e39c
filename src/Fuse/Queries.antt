-- ===== src/Fuse/Queries.antt =====
-- Requests of src/utils/fuse.cpp that only ask.
use Prim.Native.Nat.{bit_and}
use htmpfs.Prelude.{ℕ, ◌≡◌, refl, ◌∙◌, ◌++◌, ◌==◌}
use htmpfs.Prelude.Bytes.{Bytes, bytes_eq}
use htmpfs.Prelude.Int.{pos, neg}
use htmpfs.Errors.{Outcome, ok, throws, undefined, Thrown}
use htmpfs.Exec.{Exec, pure, lift, ◌>>=◌}
use htmpfs.Exec.Still.{Still, bind-Still, if-Still}
use htmpfs.Inode
use htmpfs.Inode.{Stat, Version}
use htmpfs.Inode.Still.{current_data_size-Still, read-Still}
use htmpfs.SnapshotPath.{if_snapshot}
use htmpfs.Smi.{Smi, handle_, on_inode, get_inode_by_id, member, open_dir}
use htmpfs.Smi.Names.{get_inode_id_by_path, count_link_for_inode}
use htmpfs.Smi.Still.{
  on_inode-Still, get_inode_by_id-Still, member-Still, open_dir-Still, get_inode_id_by_path-Still,
  count_link_for_inode-Still,
}
use htmpfs.Fuse.{Host, Reply, code, listing, thrown_errno, catch_tail, snapshot_root}
use htmpfs.Fuse.Query.{
  s_iflnk, dots, list_dir, do_getattr, do_readdir, do_access, do_open, do_readlink,
}
use htmpfs.Fuse.Requests.{Request, handle}

-- The requests that do not ask for a change. `read` is not one: it sets the time of the last access.
pub data Asks : Request → Type 0 where
  getattr : (path : Bytes) (stbuf : Stat) → Asks (Request.getattr path stbuf)
  fgetattr : (path : Bytes) (stbuf : Stat) → Asks (Request.fgetattr path stbuf)
  readlink : (path : Bytes) (size : ℕ) → Asks (Request.readlink path size)
  opened : (path : Bytes) → Asks (Request.opened path)
  opendir : (path : Bytes) → Asks (Request.opendir path)
  readdir : (path : Bytes) → Asks (Request.readdir path)
  access : (path : Bytes) (mode : ℕ) → Asks (Request.access path mode)
  noop : (path : Bytes) → Asks (Request.noop path)

handled :
    {A : Type 0} (s : Smi) (r : Outcome A × Smi) (handler : Thrown → Exec Smi A)
    → r.1 ≡ s
    → ((e : Thrown) → Still (handler e))
    → (handle_ r handler).1 ≡ s
handled s (ok a, t) handler e k = e
handled s (throws x, t) handler e k = k x t ∙ e
handled s (undefined, t) handler e k = e

catch_tail-Still : (host : Host) (m : Exec Smi Reply) → Still m → Still (catch_tail host m)
unfolding catch_tail
catch_tail-Still host m h s =
    handled s (m s) (λ e. pure (code (neg (thrown_errno host e)))) (h s) (λ e t. refl)

-- A path that is looked up together with its version.
located-Still :
    {A : Type 0} (path : Bytes) (m : Version → ℕ → ℕ → Exec Smi A)
    → ((version : Version) (id inode : ℕ) → Still (m version id inode))
    → Still (do
      (version, parsed_path) ← lift (if_snapshot path)
      inode_id ← get_inode_id_by_path path
      inode ← get_inode_by_id inode_id
      m version inode_id inode)
located-Still path m h =
    bind-Still (lift (if_snapshot path)) _ (λ s. refl)
      λ (version, parsed_path).
        bind-Still (get_inode_id_by_path path) _ (get_inode_id_by_path-Still path) λ id.
          bind-Still (get_inode_by_id id) _ (get_inode_by_id-Still id) λ inode. h version id inode

do_getattr-Still : (host : Host) (path : Bytes) (stbuf : Stat) → Still (do_getattr host path stbuf)
unfolding do_getattr
do_getattr-Still host path stbuf = catch_tail-Still host _ (
    if-Still (bytes_eq snapshot_root path) _ _ (λ s. refl)
      (located-Still path _ λ version id inode.
        bind-Still (member inode (λ i. i.fs_stat)) _ (member-Still inode (λ i. i.fs_stat)) λ stat.
          bind-Still (on_inode inode (Inode.current_data_size version)) _
            (on_inode-Still inode (Inode.current_data_size version)
              (current_data_size-Still version))
            λ size.
              bind-Still (count_link_for_inode id) _ (count_link_for_inode-Still id)
                λ links s. refl))

list_dir-Still : (path : Bytes) → Still (list_dir path)
unfolding list_dir
list_dir-Still path =
    if-Still (bytes_eq snapshot_root path) _ _ (λ s. refl)
      (located-Still path _ λ version id inode.
        bind-Still (open_dir inode version) _ (open_dir-Still inode version) λ dir s. refl)

do_readdir-Still : (host : Host) (path : Bytes) → Still (do_readdir host path)
unfolding do_readdir
do_readdir-Still host path s =
    handled s _ (λ e. pure (listing (neg (thrown_errno host e)) (dots path)))
      (bind-Still (list_dir path) (λ rest. pure (listing (pos 0) (dots path ++ rest)))
        (list_dir-Still path) (λ rest t. refl) s)
      (λ e t. refl)

do_access-Still : (host : Host) (path : Bytes) (mode : ℕ) → Still (do_access host path mode)
unfolding do_access
do_access-Still host path mode = catch_tail-Still host _ (
    if-Still (bytes_eq snapshot_root path) _ _ (λ s. refl)
      (bind-Still (get_inode_id_by_path path) _ (get_inode_id_by_path-Still path) λ id.
        bind-Still (get_inode_by_id id) _ (get_inode_by_id-Still id) λ inode.
          bind-Still (member inode (λ i. i.fs_stat.st_mode)) _
            (member-Still inode (λ i. i.fs_stat.st_mode)) λ st_mode s. refl))

do_open-Still : (host : Host) (path : Bytes) → Still (do_open host path)
unfolding do_open
do_open-Still host path = catch_tail-Still host _ (
    if-Still (bytes_eq snapshot_root path) _ _ (λ s. refl)
      (bind-Still (get_inode_id_by_path path) _ (get_inode_id_by_path-Still path) λ id s. refl))

do_readlink-Still : (host : Host) (path : Bytes) (size : ℕ) → Still (do_readlink host path size)
unfolding do_readlink
do_readlink-Still host path size = catch_tail-Still host _ (
    located-Still path _ λ version id inode.
      bind-Still (member inode (λ i. i.fs_stat.st_mode)) _
        (member-Still inode (λ i. i.fs_stat.st_mode))
        λ st_mode.
          if-Still (bit_and st_mode s_iflnk == 0) _ _ (λ s. refl)
            (bind-Still (on_inode inode (Inode.read version size 0)) _
              (on_inode-Still inode (Inode.read version size 0) (read-Still version size 0))
              λ data' s. refl))

-- A request that only asks leaves the whole filesystem as it is, whatever its answer: attributes,
-- links, opening, listing and access rights, and the handlers that do nothing.
pub handle-unchanged : (host : Host) (r : Request) (s : Smi) → Asks r → (handle host r s).1 ≡ s
unfolding handle
handle-unchanged host r s (getattr path stbuf) = do_getattr-Still host path stbuf s
handle-unchanged host r s (fgetattr path stbuf) = do_getattr-Still host path stbuf s
handle-unchanged host r s (readlink path size) = do_readlink-Still host path size s
handle-unchanged host r s (opened path) = do_open-Still host path s
handle-unchanged host r s (opendir path) = do_open-Still host path s
handle-unchanged host r s (readdir path) = do_readdir-Still host path s
handle-unchanged host r s (access path mode) = do_access-Still host path mode s
handle-unchanged host r s (noop path) = refl
