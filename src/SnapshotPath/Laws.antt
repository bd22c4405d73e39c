-- ===== src/SnapshotPath/Laws.antt =====
-- Paths made by `make_path_with_version` (src/utils/uni_utils.cpp), taken apart by `if_snapshot`
-- (src/htmpfs/htmpfs.cpp).
use htmpfs.Prelude.{
  subst, ℕ, ◌≡◌, refl, sym, ap, ◌∙◌, true, false, List, [], ◌∷◌, ◌++◌, append_assoc, arith, ◌==◌,
  Bool-cases, inl, inr,
}
use htmpfs.Prelude.Bytes.{Bytes, codes, bytes_eq, bytes_eq_refl}
use htmpfs.Errors.{ok}
use htmpfs.FilePath
use htmpfs.FilePath.{FilePath, slash, is_empty, finish, parse_loop, to_string}
use htmpfs.FilePath.Laws.{no_slash, Components, IsCanonical, new-IsCanonical, parse_loop-append}
use htmpfs.Inode.{Version, current}
use htmpfs.SnapshotPath.{
  print_from, snapshot_part, snapshot_entry, classify, if_snapshot, make_path_with_version,
}

finish-append : (cur : Bytes) (p q : FilePath) → finish cur (p ++ q) ≡ p ++ finish cur q
unfolding finish
finish-append [] p q = refl
finish-append (b ∷ cur) p q = append_assoc p q ((b ∷ cur) ∷ [])

-- What the loop adds does not depend on the components in front.
parse_loop-front :
    (s cur : Bytes) (p q : FilePath) → parse_loop s cur (p ++ q) ≡ p ++ parse_loop s cur q
unfolding parse_loop
parse_loop-front [] cur p q = finish-append cur p q
parse_loop-front (i ∷ s) cur p q = elim (Bool-cases (i == slash)) [
  | inl here ↦
      rw here
        (ap (parse_loop s []) (finish-append cur p q) ∙ parse_loop-front s [] p (finish cur q))
  | inr there ↦ rw there (parse_loop-front s (cur ++ i ∷ []) p q)
]

parse_loop_end :
    (b : ℕ) (c s : Bytes) (p : FilePath)
    → parse_loop (slash ∷ s) (b ∷ c) p ≡ parse_loop s [] (p ++ (b ∷ c) ∷ [])
unfolding parse_loop finish
parse_loop_end b c s p = refl

-- A component, read from its first byte to the slash behind it.
parse_component :
    (b : ℕ) (c s : Bytes) (p : FilePath)
    → no_slash (b ∷ c) ≡ true
    → parse_loop ((b ∷ c) ++ slash ∷ s) [] p ≡ parse_loop s [] (p ++ (b ∷ c) ∷ [])
parse_component b c s p n = parse_loop-append (b ∷ c) (slash ∷ s) [] p n ∙ parse_loop_end b c s p

new_path :
    (b : ℕ) (c s : Bytes)
    → no_slash (b ∷ c) ≡ true
    → FilePath.new ((codes "/.snapshot/" ++ (b ∷ c)) ++ slash ∷ s)
      ≡ ([] ∷ snapshot_entry ∷ (b ∷ c) ∷ []) ++ parse_loop s [] []
unfolding FilePath.new
new_path b c s n =
    parse_component b c s ([] ∷ snapshot_entry ∷ []) n
    ∙ parse_loop-front s [] ([] ∷ snapshot_entry ∷ (b ∷ c) ∷ []) []

new_absolute : (s : Bytes) → FilePath.new (slash ∷ s) ≡ [] ∷ parse_loop s [] []
unfolding FilePath.new
new_absolute s = parse_loop-front s [] ([] ∷ []) []

behind-Components : (s : Bytes) → Components (parse_loop s [] [])
behind-Components s = (subst IsCanonical (new_absolute s) (new-IsCanonical (slash ∷ s))).1

print_from-to_string : (cs : List Bytes) → Components cs → print_from cs ≡ to_string ([] ∷ cs)
unfolding print_from to_string
print_from-to_string [] h = refl
print_from-to_string ([] ∷ cs) (e, n, h) = absurd (ground arith)
print_from-to_string ((b ∷ c) ∷ cs) (e, n, h) =
    ap (λ l. slash ∷ (b ∷ c) ++ l) (print_from-to_string cs h)

snapshot_step :
    (c : ℕ) (path version : Bytes) (rest : List Bytes)
    → bytes_eq (slash ∷ c ∷ path) (slash ∷ []) ≡ false
    → FilePath.new (slash ∷ c ∷ path) ≡ [] ∷ snapshot_entry ∷ version ∷ rest
    → if_snapshot (slash ∷ c ∷ path) ≡ ok (version, print_from rest)
unfolding if_snapshot classify snapshot_part
snapshot_step c path version rest e1 e2 = rw (e1, e2, bytes_eq_refl snapshot_entry) refl

make_path_step :
    (path : Bytes) (version : Version)
    → bytes_eq version current ≡ false
    → make_path_with_version path version ≡ (codes "/.snapshot/" ++ version) ++ path
unfolding make_path_with_version
make_path_step path version e = rw e refl

-- `if_snapshot` finds the version in the path that `make_path_with_version` makes of an absolute path
-- and a version, and leaves the path in its printed form (no repeated or final slashes). The version is
-- not the current one, not empty, and holds no slash.
pub if_snapshot-make_path_with_version :
    (version : Version) (s : Bytes)
    → bytes_eq version current ≡ false
    → is_empty version ≡ false
    → no_slash version ≡ true
    → if_snapshot (make_path_with_version (slash ∷ s) version)
      ≡ ok (version, to_string (FilePath.new (slash ∷ s)))
if_snapshot-make_path_with_version [] s differs e n = absurd (ground arith)
if_snapshot-make_path_with_version (b ∷ c) s differs e n =
    ap if_snapshot (make_path_step (slash ∷ s) (b ∷ c) differs)
    ∙ snapshot_step b'.' (codes "snapshot/" ++ (b ∷ c) ++ slash ∷ s) (b ∷ c) (parse_loop s [] [])
        longer (new_path b c s n)
    ∙ ap (λ p. ok (b ∷ c, p))
        (print_from-to_string (parse_loop s [] []) (behind-Components s)
          ∙ ap to_string (sym (new_absolute s)))
  where
    longer :
        bytes_eq (slash ∷ b'.' ∷ (codes "snapshot/" ++ (b ∷ c) ++ slash ∷ s)) (slash ∷ []) ≡ false
    longer = (unfold bytes_eq in refl)
