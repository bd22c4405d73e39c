-- ===== src/Dentry.antt =====
-- The dentry list of a directory (src/include/htmpfs/directory_resolver.h and
-- src/htmpfs/directory_resolver.cpp): its entries, what the resolver does with them, and the byte
-- format in which `save_current` stores them and `refresh` reads them.
pub mod Codec
pub mod Entries
use htmpfs.Prelude.{
  ℕ, zero, suc, ◌+◌, ◌*◌, ◌/◌, ◌%◌, Bool, true, false, List, [], ◌∷◌, ◌++◌, length, take, drop,
  resize, ltb, ◌==◌, if◌then◌else◌,
}
use htmpfs.Prelude.Bytes.{Bytes, bytes_eq}
use htmpfs.Errors.{
  Outcome, ok, throw, undefined, and_then, double_mkpathname, no_such_file_or_dir,
  requested_inode_not_found,
}

-- `path_pack_t`
pub record Entry : Type 0 where
  pub pathname : Bytes
  pub inode_id : ℕ

abbrev pub entry : Bytes → ℕ → Entry
entry name id = record { pathname = name; inode_id = id }

-- `check_availability(pathname)`
unfoldable pub check_availability : Bytes → List Entry → Bool
check_availability name [] = true
check_availability name (i ∷ path) =
    if bytes_eq i.pathname name then false else check_availability name path

-- `add_path(pathname, inode_id)`
unfoldable pub add_path : Bytes → ℕ → List Entry → Outcome (List Entry)
add_path name id path =
    if check_availability name path
    then ok (path ++ entry name id ∷ [])
    else throw double_mkpathname

-- `namei(pathname)`
unfoldable pub namei : Bytes → List Entry → Outcome ℕ
namei name [] = throw no_such_file_or_dir
namei name (i ∷ path) = if bytes_eq i.pathname name then ok i.inode_id else namei name path

-- `remove_path(pathname)`: erases the first entry of the name.
unfoldable pub remove_path : Bytes → List Entry → Outcome (List Entry)
remove_path name [] = throw requested_inode_not_found
remove_path name (i ∷ path) =
    if bytes_eq i.pathname name
    then ok path
    else and_then (remove_path name path) (λ rest. ok (i ∷ rest))

-- `sizeof(flat_path_pack_t::pathname)`
abbrev pub name_size : ℕ
name_size = 128

-- `type_to_string<uint64_t>`: the low `n` bytes, least significant first.
unfoldable pub le_bytes : ℕ → ℕ → Bytes
le_bytes zero x = []
le_bytes (suc n) x = x % 256 ∷ le_bytes n (x / 256)

-- `string_to_type<uint64_t>`: the number that the bytes spell.
unfoldable pub from_le_bytes : Bytes → ℕ
from_le_bytes [] = 0
from_le_bytes (b ∷ bs) = b + 256 * from_le_bytes bs

-- `type_to_string(save_pack)`: the name cut to, or padded with zeros to, 128 bytes, and the inode.
unfoldable pub pack_entry : Entry → Bytes
pack_entry i = resize 0 name_size i.pathname ++ le_bytes 8 i.inode_id

unfoldable pub pack_entries : List Entry → Bytes
pack_entries [] = []
pack_entries (i ∷ path) = pack_entry i ++ pack_entries path

-- The text that `save_current` writes.
unfoldable pub pack : List Entry → Bytes
pack path = le_bytes 8 (length path) ++ pack_entries path

-- `strcpy` from an array of characters: what precedes the first zero; with no zero in the array it
-- reads past its end, and (beyond 128 characters) writes past `name_buff`.
unfoldable pub c_string : Bytes → Outcome Bytes
c_string [] = undefined
c_string (b ∷ bs) = if b == 0 then ok [] else and_then (c_string bs) (λ rest. ok (b ∷ rest))

-- `refresh`'s loop over the saved packs. A text that ends before its count of packs is read past
-- its end.
unfoldable pub unpack_entries : ℕ → Bytes → Outcome (List Entry)
unpack_entries zero text = ok []
unpack_entries (suc n) text =
    if ltb (length text) (name_size + 8)
    then undefined
    else and_then (c_string (take name_size text)) λ name.
      and_then (unpack_entries n (drop (name_size + 8) text))
        λ path. ok (entry name (from_le_bytes (take 8 (drop name_size text))) ∷ path)

-- What `refresh` reads out of the directory's text, which is empty for a new directory.
unfoldable pub unpack : Bytes → Outcome (List Entry)
unpack [] = ok []
unpack (b ∷ bs) =
    if ltb (length (b ∷ bs)) 8
    then undefined
    else unpack_entries (from_le_bytes (take 8 (b ∷ bs))) (drop 8 (b ∷ bs))
