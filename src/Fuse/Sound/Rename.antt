-- ===== src/Fuse/Sound/Rename.antt =====
-- `do_rename` of src/utils/fuse.cpp keeps the inode pool sound.
use htmpfs.Prelude.{ℕ, List, ◌==◌, length}
use htmpfs.Prelude.Map.{id_key, bytes_key}
use htmpfs.Prelude.Bytes.{Bytes}
use htmpfs.Fuse.Rename.{
  is_double, add_entry, replace_entry, link_entry, unlink_entry, move_entry, do_rename,
}
use htmpfs.Exec.{lift}
use htmpfs.Exec.Keeps.{Keeps, bind-Keeps, if-Keeps}
use htmpfs.FilePath
use htmpfs.FilePath.{FilePath, is_empty, pop_end, to_string}
use htmpfs.Dentry
use htmpfs.Dentry.{Entry}
use htmpfs.Inode.{current}
use htmpfs.Smi.{get_inode_by_id, open_dir, refresh}
use htmpfs.Smi.Names.{get_inode_id_by_path, remove_child_dentry_under_parent}
use htmpfs.Smi.Sound.{
  Scope, attempt-Keeps, get_inode_by_id-Keeps, open_dir-Keeps, refresh-Keeps, save_current-Keeps,
}
use htmpfs.Smi.Sound.Names.{get_inode_id_by_path-Keeps, remove_child_dentry_under_parent-Keeps}
use htmpfs.Fuse.{Host}
use htmpfs.Fuse.Sound.{I, check_rdonly_fs-Keeps, guarded-Keeps}

module _ (scope : Scope) where
  add_entry-Keeps :
      (dir : ℕ) (name : Bytes) (id : ℕ) (path : List Entry)
      → Keeps (I scope) (add_entry dir name id path)
  unfolding add_entry
  add_entry-Keeps dir name id path =
      bind-Keeps (I scope) (lift (Dentry.add_path name id path)) _ (λ s w. w)
        (save_current-Keeps scope dir)

  replace_entry-Keeps :
      (dir : ℕ) (name : Bytes) (id : ℕ) → Keeps (I scope) (replace_entry dir name id)
  unfolding replace_entry
  replace_entry-Keeps dir name id =
      bind-Keeps (I scope) (remove_child_dentry_under_parent dir name) _
        (remove_child_dentry_under_parent-Keeps scope dir name)
        λ _.
          bind-Keeps (I scope) (refresh dir current) _ (refresh-Keeps scope dir current)
            (add_entry-Keeps dir name id)

  link_entry-Keeps :
      (dir : ℕ) (name : Bytes) (id : ℕ) (path : List Entry)
      → Keeps (I scope) (link_entry dir name id path)
  unfolding link_entry
  link_entry-Keeps dir name id path =
      attempt-Keeps scope (add_entry dir name id path) _ (add_entry-Keeps dir name id path)
        λ e. if-Keeps (I scope) (is_double e) _ _ (replace_entry-Keeps dir name id) (λ s w. w)

  unlink_entry-Keeps :
      (original : FilePath) (name : Bytes) → Keeps (I scope) (unlink_entry original name)
  unfolding unlink_entry
  unlink_entry-Keeps original name =
      bind-Keeps (I scope) (get_inode_id_by_path (to_string original)) _
        (get_inode_id_by_path-Keeps scope (to_string original))
        λ parent_id.
          bind-Keeps (I scope) (get_inode_by_id parent_id) _ (get_inode_by_id-Keeps scope parent_id)
            λ parent.
              bind-Keeps (I scope) (open_dir parent current) _ (open_dir-Keeps scope parent current)
                λ dir.
                  bind-Keeps (I scope) (lift (Dentry.remove_path name dir.path)) _ (λ s w. w)
                    (save_current-Keeps scope parent)

  move_entry-Keeps :
      (id : ℕ) (original : FilePath) (original_name : Bytes) (target : FilePath)
      (target_name : Bytes)
      → Keeps (I scope) (move_entry id original original_name target target_name)
  unfolding move_entry
  move_entry-Keeps id original original_name target target_name =
      bind-Keeps (I scope) (get_inode_id_by_path (to_string target)) _
        (get_inode_id_by_path-Keeps scope (to_string target))
        λ parent_id.
          bind-Keeps (I scope) (get_inode_by_id parent_id) _ (get_inode_by_id-Keeps scope parent_id)
            λ parent.
              bind-Keeps (I scope) (open_dir parent current) _ (open_dir-Keeps scope parent current)
                λ dir.
                  bind-Keeps (I scope) (link_entry parent target_name id dir.path) _
                    (link_entry-Keeps parent target_name id dir.path)
                    λ _.
                      bind-Keeps (I scope) (unlink_entry original original_name) _
                        (unlink_entry-Keeps original original_name) λ _ s w. w

  pub do_rename-Keeps :
      (host : Host) (path name : Bytes) → Keeps (I scope) (do_rename host path name)
  unfolding do_rename
  do_rename-Keeps host path name =
      let (original_name, original) = pop_end (FilePath.new path) in
      let (target_name, target) = pop_end (FilePath.new name) in
      guarded-Keeps scope host path _ (
        check_rdonly_fs-Keeps scope name _ (
          bind-Keeps (I scope) (get_inode_id_by_path path) _ (get_inode_id_by_path-Keeps scope path)
            λ id.
              if-Keeps (I scope) (length original == 0) _ _ (λ s w. w)
                (if-Keeps (I scope) (length target == 0) _ _ (λ s w. w)
                  (move_entry-Keeps id original original_name target target_name))))
