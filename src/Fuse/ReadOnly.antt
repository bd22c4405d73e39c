-- ===== src/Fuse/ReadOnly.antt =====
-- Paths into snapshots, and the handlers of src/utils/fuse.cpp that test CHECK_RDONLY_FS of them.
use htmpfs.Prelude.{◌≡◌, refl, ℕ, Bool-cases, inl, inr, false, [], ◌∷◌, arith}
use htmpfs.Prelude.Bytes.{Bytes, bytes_eq, bytes_eq_refl}
use htmpfs.Prelude.Int.{neg}
use htmpfs.Errors.{ok, erofs}
use htmpfs.Exec.{Exec}
use htmpfs.FilePath
use htmpfs.FilePath.{FilePath, slash, is_empty, pop_end}
use htmpfs.Inode.{Version, Time, current}
use htmpfs.SnapshotPath.{
  if_snapshot, classify, snapshot_part, print_from, behind_root, snapshot_entry,
}
use htmpfs.FilePath.Laws.{IsCanonical, new-IsCanonical, last-proper}
use htmpfs.Smi.{Smi}
use htmpfs.Fuse.{Host, Reply, code, catch_tail, check_rdonly_fs}
use htmpfs.Fuse.Change.{
  is_snapshot_dir, do_mkdir, do_chmod, do_chown, do_create, do_write, do_utimens, do_unlink,
  do_rmdir, do_truncate, do_symlink, do_fallocate, do_mknod,
}
use htmpfs.Fuse.Rename.{do_rename}
use htmpfs.Fuse.Requests.{Request, handle}

-- The requests whose handler asks of `path`, by CHECK_RDONLY_FS, whether it leads into a snapshot; `rest`
-- is what follows the version in it. `mkdir` and `rmdir` ask it below a volume only: on the volume
-- itself they are the making and the deletion of a snapshot. Of the other requests `read` sets the time
-- of the last access, and those of `Queries.Asks` change nothing. Where a request has two paths, the
-- first is asked first, so it is in the current version where the second is meant.
pub data IsGuarded (path rest : Bytes) : Request → Type 0 where
  mknod : (mode device : ℕ) → IsGuarded path rest (Request.mknod path mode device)
  mkdir : (mode : ℕ) → is_empty rest ≡ false → IsGuarded path rest (Request.mkdir path mode)
  unlink : IsGuarded path rest (Request.unlink path)
  rmdir : is_empty rest ≡ false → IsGuarded path rest (Request.rmdir path)
  symlink : (target : Bytes) → IsGuarded path rest (Request.symlink path target)
  symlink_at :
      (other rest' : Bytes)
      → if_snapshot other ≡ ok (current, rest')
      → IsGuarded path rest (Request.symlink other path)
  rename : (target : Bytes) → IsGuarded path rest (Request.rename path target)
  rename_to :
      (other rest' : Bytes)
      → if_snapshot other ≡ ok (current, rest')
      → IsGuarded path rest (Request.rename other path)
  chmod : (mode : ℕ) → IsGuarded path rest (Request.chmod path mode)
  chown : (uid gid : ℕ) → IsGuarded path rest (Request.chown path uid gid)
  truncate : (size : ℕ) → IsGuarded path rest (Request.truncate path size)
  ftruncate : (size : ℕ) → IsGuarded path rest (Request.ftruncate path size)
  write :
      (buffer : Bytes) (size offset : ℕ)
      → IsGuarded path rest (Request.write path buffer size offset)
  create : (mode : ℕ) → IsGuarded path rest (Request.create path mode)
  utimens : (atim mtim : Time) → IsGuarded path rest (Request.utimens path atim mtim)
  fallocate : (mode offset size : ℕ) → IsGuarded path rest (Request.fallocate path mode offset size)

-- A path below a volume has at least four components, so its name is not empty and its parent is not
-- the directory of the volumes. The root's component is empty and counted.
below_volume :
    (path : Bytes) (p : FilePath) (version : Version) (rest : Bytes)
    → IsCanonical p
    → bytes_eq version current ≡ false
    → is_empty rest ≡ false
    → classify path (behind_root p) ≡ ok (version, rest)
    → (is_empty (pop_end p).0 ≡ false) × (is_snapshot_dir (pop_end p).1 ≡ false)
unfolding classify snapshot_part print_from pop_end
below_volume path [] version rest proper other below e = elim proper [ ]
below_volume path (x ∷ []) version rest proper other below e =
    absurd (ground (arith, bytes_eq_refl current))
below_volume path (x ∷ head ∷ []) version rest proper other below e =
    absurd (ground (arith, bytes_eq_refl current))
below_volume path (x ∷ head ∷ v ∷ []) version rest proper other below e =
    absurd (ground (arith, bytes_eq_refl current))
below_volume path (x ∷ head ∷ v ∷ c ∷ cs) version rest (r, (h1, n1, (h2, n2, h))) other below e =
    (last-proper c cs h, ground arith)

module _ (host : Host) (path : Bytes) (version : Version) (rest : Bytes) (s : Smi)
    (inside : if_snapshot path ≡ ok (version, rest))
    (other : bytes_eq version current ≡ false) where
  refused : (m : Exec Smi Reply) → check_rdonly_fs path m s ≡ (ok (code (neg erofs)), s)
  unfolding check_rdonly_fs
  refused m = rw (inside, other) refl

  caught :
      (m : Exec Smi Reply) → catch_tail host (check_rdonly_fs path m) s ≡ (ok (code (neg erofs)), s)
  unfolding catch_tail
  caught m = rw (refused m) refl

  pass_first :
      (first rest' : Bytes) (m : Exec Smi Reply)
      → if_snapshot first ≡ ok (current, rest')
      → check_rdonly_fs first m s ≡ m s
  unfolding check_rdonly_fs
  pass_first first rest' m e = rw (e, bytes_eq_refl current) refl

  passed :
      (first rest' : Bytes) (m : Exec Smi Reply)
      → if_snapshot first ≡ ok (current, rest')
      → catch_tail host (check_rdonly_fs first (check_rdonly_fs path m)) s
        ≡ (ok (code (neg erofs)), s)
  unfolding catch_tail
  passed first rest' m e = rw (pass_first first rest' (check_rdonly_fs path m) e, refused m) refl

  mkdir_refused :
      (mode : ℕ)
      → is_empty (pop_end (FilePath.new path)).0 ≡ false
      → is_snapshot_dir (pop_end (FilePath.new path)).1 ≡ false
      → do_mkdir host path mode s ≡ (ok (code (neg erofs)), s)
  unfolding do_mkdir catch_tail
  mkdir_refused mode e1 e2 = rw (e1, e2, refused _) refl

  rmdir_refused :
      is_empty (pop_end (FilePath.new path)).0 ≡ false
      → is_snapshot_dir (pop_end (FilePath.new path)).1 ≡ false
      → do_rmdir host path s ≡ (ok (code (neg erofs)), s)
  unfolding do_rmdir catch_tail
  rmdir_refused e1 e2 =
      elim (Bool-cases (bytes_eq (pop_end (FilePath.new path)).0 snapshot_entry)) [
        | inl e ↦ rw (e1, e) refl
        | inr e ↦ rw (e1, e, e2, refused _) refl
      ]

  parts :
      is_empty rest ≡ false
      → (is_empty (pop_end (FilePath.new path)).0 ≡ false)
        × (is_snapshot_dir (pop_end (FilePath.new path)).1 ≡ false)
  unfolding if_snapshot
  parts below = elim (Bool-cases (bytes_eq path (slash ∷ []))) [
    | inl e ↦ absurd (ground (arith, inside, other, bytes_eq_refl current))
    | inr e ↦
        below_volume path (FilePath.new path) version rest (new-IsCanonical path) other below (
          let h : classify path (behind_root (FilePath.new path)) ≡ ok (version, rest) =
            rw e at inside in
          h)
  ]

  -- Of a path into a snapshot volume (a version other than `current`), each request whose handler tests CHECK_RDONLY_FS of it is answered
  -- with -EROFS and leaves the filesystem as it is: `mknod`, `unlink`, `chmod`, `chown`, `truncate`,
  -- `ftruncate`, `write`, `create`, `utimens` and `fallocate` of the path; `symlink` and `rename` with it
  -- as the first path, or as the second where the first is in the current version; `mkdir` and `rmdir` of
  -- a path below the volume. `read`, which sets the time of the last access, and `mkdir` and `rmdir` of
  -- the volume itself, which make and delete a snapshot, are not among them.
  pub snapshot_readonly :
      (r : Request) → IsGuarded path rest r → handle host r s ≡ (ok (code (neg erofs)), s)
  unfolding handle
  snapshot_readonly r (mknod mode device) = (unfold do_mknod in caught _)
  snapshot_readonly r (mkdir mode below) =
      let (named, inner) = parts below in mkdir_refused mode named inner
  snapshot_readonly r unlink = (unfold do_unlink in caught _)
  snapshot_readonly r (rmdir below) = let (named, inner) = parts below in rmdir_refused named inner
  snapshot_readonly r (symlink target) = (unfold do_symlink in caught _)
  snapshot_readonly r (symlink_at first rest' e) = (unfold do_symlink in passed first rest' _ e)
  snapshot_readonly r (rename target) = (unfold do_rename in caught _)
  snapshot_readonly r (rename_to first rest' e) = (unfold do_rename in passed first rest' _ e)
  snapshot_readonly r (chmod mode) = (unfold do_chmod in caught _)
  snapshot_readonly r (chown uid gid) = (unfold do_chown in caught _)
  snapshot_readonly r (truncate size) = (unfold do_truncate in caught _)
  snapshot_readonly r (ftruncate size) = (unfold do_truncate in caught _)
  snapshot_readonly r (write buffer size offset) = (unfold do_write in caught _)
  snapshot_readonly r (create mode) = (unfold do_create in caught _)
  snapshot_readonly r (utimens atim mtim) = (unfold do_utimens in caught _)
  snapshot_readonly r (fallocate mode offset size) = (unfold do_fallocate in caught _)
