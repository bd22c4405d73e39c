-- ===== src/Inode/Fine.antt =====
-- Methods of `inode_t` (src/htmpfs/htmpfs.cpp) that keep both what an inode is and the links to what it
-- refers to.
use htmpfs.Prelude.{ℕ, Bool}
use htmpfs.Prelude.Bytes.{Bytes}
use htmpfs.Exec.{Exec}
use htmpfs.Exec.Keeps.{Keeps}
use htmpfs.Pool.{Pool}
use htmpfs.Inode.{
  Inode, Version, truncate, write, read, current_data_size, to_string, delete_volume,
}
use htmpfs.Inode.Deletion.{delete_volume-Counted}
use htmpfs.Inode.Keeps.{
  Whole, truncate-Keeps, write-Keeps, read-Keeps, current_data_size-Keeps, to_string-Keeps,
  delete_volume-Keeps,
}
use htmpfs.Inode.Links.{
  Counted, truncate-Counted, write-Counted, read-Counted, current_data_size-Counted,
  to_string-Counted,
}

-- Whatever links the rest of the world needs.
abbrev pub IsFine : {A : Type 0} → ℕ → ℕ → Exec (Pool × Inode) A → Type 0
IsFine block_size id m = Keeps (Whole block_size id) m × ((f : ℕ → ℕ) → Keeps (Counted f) m)

module _ (block_size id : ℕ) where
  pub truncate-IsFine : (n : ℕ) → IsFine block_size id (truncate n)
  truncate-IsFine n = (truncate-Keeps block_size id n, λ f. truncate-Counted f n)

  pub write-IsFine :
      (buffer : Bytes) (len offset : ℕ) (resize dentry_only : Bool)
      → IsFine block_size id (write buffer len offset resize dentry_only)
  write-IsFine buffer len offset resize dentry_only = (
    write-Keeps block_size id buffer len offset resize dentry_only,
    λ f. write-Counted f buffer len offset resize dentry_only,
  )

  pub read-IsFine :
      (version : Version) (len offset : ℕ) → IsFine block_size id (read version len offset)
  read-IsFine version len offset =
      (read-Keeps block_size id version len offset, λ f. read-Counted f version len offset)

  pub current_data_size-IsFine :
      (version : Version) → IsFine block_size id (current_data_size version)
  current_data_size-IsFine version =
      (current_data_size-Keeps block_size id version, λ f. current_data_size-Counted f version)

  pub to_string-IsFine : (version : Version) → IsFine block_size id (to_string version)
  to_string-IsFine version =
      (to_string-Keeps block_size id version, λ f. to_string-Counted f version)

  pub delete_volume-IsFine : (version : Version) → IsFine block_size id (delete_volume version)
  delete_volume-IsFine version =
      (delete_volume-Keeps block_size id version, λ f. delete_volume-Counted f version)
