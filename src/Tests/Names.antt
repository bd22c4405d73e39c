-- ===== src/Tests/Names.antt =====
-- Instances of the theorems on paths (src/htmpfs/path_t.cpp) and directory entries
-- (src/htmpfs/directory_resolver.cpp).
use htmpfs.Prelude.{ℕ, zero, suc, ◌≡◌, refl, false, List, [], ◌∷◌, ◌++◌, arith, replicate}
use htmpfs.Prelude.Bytes.{codes, bytes_eq}
use htmpfs.Errors.{ok, throw, undefined, no_such_file_or_dir}
use htmpfs.FilePath
use htmpfs.FilePath.{is_empty, to_string, pop_end}
use htmpfs.FilePath.Laws.{IsCanonical, new-IsCanonical, new-to_string, pop_end-new}
use htmpfs.SnapshotPath.{if_snapshot, make_path_with_version}
use htmpfs.SnapshotPath.Laws.{if_snapshot-make_path_with_version}
use htmpfs.Dentry.{Entry, entry, add_path, remove_path, namei, pack, unpack, check_availability}
use htmpfs.Dentry.Entries.{HasUniqueNames, UpdatesName, add_path-namei, remove_path-namei}
use htmpfs.Dentry.Codec.{NoZero, AllStorable, unpack-pack, unpack-pack_long}

abbrev etc : Entry
etc = entry (codes "etc") 3

abbrev usr : Entry
usr = entry (codes "usr") 70000

abbrev two_entries : List Entry
two_entries = etc ∷ usr ∷ []

two_entries-AllStorable : AllStorable two_entries
two_entries-AllStorable = (
  record { short = omega arith; text = NoZero-etc; id = omega arith },
  (record { short = omega arith; text = NoZero-usr; id = omega arith }, tt),
)
  where
    NoZero-etc : NoZero (codes "etc")
    NoZero-etc = (omega arith, (omega arith, (omega arith, tt)))

    NoZero-usr : NoZero (codes "usr")
    NoZero-usr = (omega arith, (omega arith, (omega arith, tt)))

two_entries-HasUniqueNames : HasUniqueNames two_entries
unfolding check_availability bytes_eq
two_entries-HasUniqueNames = (refl, (refl, tt))

abbrev long_entry : Entry
long_entry = entry (replicate 128 97) 9

NoZero-replicate : (n : ℕ) → NoZero (replicate n 97)
NoZero-replicate zero = tt
NoZero-replicate (suc n) = (omega arith, NoZero-replicate n)

no_var : namei (codes "var") two_entries ≡ throw no_such_file_or_dir
unfolding namei bytes_eq
no_var = refl

etc_found : namei (codes "etc") two_entries ≡ ok 3
unfolding namei bytes_eq
etc_found = refl

unpack-pack_example : unpack (pack two_entries) ≡ ok two_entries
unpack-pack_example = unpack-pack two_entries two_entries-AllStorable (omega arith)

unpack-pack_long_example : unpack (pack (two_entries ++ long_entry ∷ [])) ≡ undefined
unpack-pack_long_example =
    unpack-pack_long two_entries long_entry [] two_entries-AllStorable (omega arith)
      (NoZero-replicate 128) (omega arith)

add_path-namei_example :
    (path' : List Entry) × (add_path (codes "var") 12 two_entries ≡ ok path')
    × UpdatesName (codes "var") (ok 12) two_entries path'
    × HasUniqueNames path'
add_path-namei_example =
    add_path-namei (codes "var") 12 two_entries two_entries-HasUniqueNames no_var

remove_path-namei_example :
    (path' : List Entry) × (remove_path (codes "etc") two_entries ≡ ok path')
    × UpdatesName (codes "etc") (throw no_such_file_or_dir) two_entries path'
    × HasUniqueNames path'
remove_path-namei_example =
    remove_path-namei (codes "etc") 3 two_entries two_entries-HasUniqueNames etc_found

usr_bin : FilePath.new (codes "//usr/bin/") ≡ [] ∷ codes "usr" ∷ codes "bin" ∷ []
unfolding FilePath.new FilePath.parse_loop FilePath.finish
usr_bin = refl

usr_bin-IsCanonical : IsCanonical ([] ∷ codes "usr" ∷ codes "bin" ∷ [])
usr_bin-IsCanonical = (refl, ((refl, refl, ((refl, refl, tt)))))

new-IsCanonical_example : IsCanonical (FilePath.new (codes "//usr/bin/"))
new-IsCanonical_example = new-IsCanonical (codes "//usr/bin/")

new-to_string_example :
    FilePath.new (to_string ([] ∷ codes "usr" ∷ codes "bin" ∷ []))
    ≡ [] ∷ codes "usr" ∷ codes "bin" ∷ []
new-to_string_example = new-to_string ([] ∷ codes "usr" ∷ codes "bin" ∷ []) usr_bin-IsCanonical

pop_end-new_example :
    let (name, parent) = pop_end (FilePath.new (codes "//usr/bin/")) in
    (parent ++ name ∷ [] ≡ FilePath.new (codes "//usr/bin/"))
    × (is_empty name ≡ false)
    × (FilePath.new (to_string parent) ≡ parent)
pop_end-new_example = pop_end-new (codes "//usr/bin/") (codes "usr") (codes "bin" ∷ []) usr_bin

if_snapshot-make_path_with_version_example :
    if_snapshot (make_path_with_version (codes "//usr/bin/") (codes "monday"))
    ≡ ok (codes "monday", to_string (FilePath.new (codes "//usr/bin/")))
unfolding bytes_eq
if_snapshot-make_path_with_version_example =
    if_snapshot-make_path_with_version (codes "monday") (codes "/usr/bin/") refl refl refl
