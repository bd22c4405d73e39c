-- ===== src/Dentry/Entries.antt =====
-- The entries of a directory as a finite map from names to inodes: what `add_path` and
-- `remove_path` of src/htmpfs/directory_resolver.cpp do to the lookups by `namei`.
use htmpfs.Prelude.{
  ℕ, subst, ◌≡◌, refl, ◌∙◌, true, false, List, [], ◌∷◌, ◌++◌, arith, if◌then◌else◌, Bool-cases, inl,
  inr,
}
use htmpfs.Prelude.Bytes.{Bytes, bytes_eq, bytes_eq_sound, bytes_eq_refl}
use htmpfs.Errors.{Outcome, ok, throw, no_such_file_or_dir}
use htmpfs.Dentry.{Entry, entry, check_availability, add_path, namei, remove_path}

-- No name stands twice.
abbrev pub HasUniqueNames : List Entry → Type 0
HasUniqueNames [] = Unit {0}
HasUniqueNames (i ∷ path) = (check_availability i.pathname path ≡ true) × HasUniqueNames path

-- The list `path'` holds `result` under `name`, and what `path` holds under every other name.
abbrev pub UpdatesName : Bytes → Outcome ℕ → List Entry → List Entry → Type 0
UpdatesName name result path path' =
    (n : Bytes) → namei n path' ≡ (if bytes_eq name n then result else namei n path)

-- A name is available exactly where the lookup fails.
available-namei :
    (n : Bytes) (path : List Entry)
    → check_availability n path ≡ true
    → namei n path ≡ throw no_such_file_or_dir
unfolding check_availability namei
available-namei n [] h = refl
available-namei n (i ∷ path) h = ground (arith, available-namei n path)

namei-snoc :
    (n name : Bytes) (id : ℕ) (path : List Entry)
    → check_availability name path ≡ true
    → namei n (path ++ entry name id ∷ []) ≡ (if bytes_eq name n then ok id else namei n path)
unfolding check_availability namei
namei-snoc n name id [] h = refl
namei-snoc n name id (i ∷ path) h = elim (Bool-cases (bytes_eq i.pathname n)) [
  | inl here ↦ rw here (elim (Bool-cases (bytes_eq name n)) [
    | inl same ↦ absurd (
        ground
          (arith, bytes_eq_sound i.pathname n here, bytes_eq_sound name n same, bytes_eq_refl name))
    | inr other ↦ rw other refl
  ])
  | inr there ↦ rw there (namei-snoc n name id path (ground arith))
]

available-snoc :
    (n name : Bytes) (id : ℕ) (path : List Entry)
    → check_availability n path ≡ true
    → bytes_eq name n ≡ false
    → check_availability n (path ++ entry name id ∷ []) ≡ true
unfolding check_availability
available-snoc n name id [] h e = ground arith
available-snoc n name id (i ∷ path) h e = ground (arith, available-snoc n name id path)

HasUniqueNames-snoc :
    (name : Bytes) (id : ℕ) (path : List Entry)
    → HasUniqueNames path
    → check_availability name path ≡ true
    → HasUniqueNames (path ++ entry name id ∷ [])
unfolding check_availability
HasUniqueNames-snoc name id [] u h = (refl, tt)
HasUniqueNames-snoc name id (i ∷ path) (e, u) h = elim (Bool-cases (bytes_eq i.pathname name)) [
  | inl same ↦ absurd (ground arith)
  | inr other ↦ (
    available-snoc i.pathname name id path e (different other),
    HasUniqueNames-snoc name id path u (ground arith),
  )
]
  where
    different : bytes_eq i.pathname name ≡ false → bytes_eq name i.pathname ≡ false
    different other = elim (Bool-cases (bytes_eq name i.pathname)) [
      | inl same ↦ absurd (ground (arith, bytes_eq_sound name i.pathname same, bytes_eq_refl name))
      | inr e ↦ e
    ]

namei-available :
    (n : Bytes) (path : List Entry)
    → namei n path ≡ throw no_such_file_or_dir
    → check_availability n path ≡ true
unfolding check_availability namei
namei-available n [] h = refl
namei-available n (i ∷ path) h = elim (Bool-cases (bytes_eq i.pathname n)) [
  | inl here ↦ absurd (ground arith)
  | inr there ↦ rw there (namei-available n path (ground arith))
]

-- `add_path` of a name that is not there, in a directory of unique names, returns: then the name
-- leads to the new inode, every other name where it led before, and the names stay unique.
pub add_path-namei :
    (name : Bytes) (id : ℕ) (path : List Entry)
    → HasUniqueNames path
    → namei name path ≡ throw no_such_file_or_dir
    → (path' : List Entry) × (add_path name id path ≡ ok path')
      × UpdatesName name (ok id) path path'
      × HasUniqueNames path'
unfolding add_path
add_path-namei name id path u missing =
    let available = namei-available name path missing in
    rw available (
      path ++ entry name id ∷ [],
      refl,
      (λ n. namei-snoc n name id path available),
      HasUniqueNames-snoc name id path u available,
    )

remove_found :
    (name : Bytes) (i : Entry) (path : List Entry)
    → bytes_eq i.pathname name ≡ true
    → remove_path name (i ∷ path) ≡ ok path
unfolding remove_path
remove_found name i path e = rw e refl

remove_behind :
    (name : Bytes) (i : Entry) (path rest : List Entry)
    → bytes_eq i.pathname name ≡ false
    → remove_path name path ≡ ok rest
    → remove_path name (i ∷ path) ≡ ok (i ∷ rest)
unfolding remove_path
remove_behind name i path rest e1 e2 = rw (e1, e2)

-- What `remove_path` returns.
abbrev Removed : Bytes → List Entry → List Entry → Type 0
Removed name path path' =
    UpdatesName name (throw no_such_file_or_dir) path path'
    × HasUniqueNames path'
    × ((n : Bytes) → check_availability n path ≡ true → check_availability n path' ≡ true)

Removed-here :
    (name : Bytes) (i : Entry) (path : List Entry)
    → HasUniqueNames (i ∷ path)
    → bytes_eq i.pathname name ≡ true
    → Removed name (i ∷ path) path
unfolding namei check_availability
Removed-here name i path (e, u) same = (lookups, u, λ n h. ground arith)
  where
    name_eq : i.pathname ≡ name
    name_eq = bytes_eq_sound i.pathname name same

    lookups : UpdatesName name (throw no_such_file_or_dir) (i ∷ path) path
    lookups n = elim (Bool-cases (bytes_eq name n)) [
      | inl this ↦ rw this (
          available-namei n path (
            subst (λ m. check_availability m path ≡ true) (name_eq ∙ bytes_eq_sound name n this) e))
      | inr other ↦ rw (name_eq, other) refl
    ]

Removed-behind :
    (name : Bytes) (i : Entry) (path rest : List Entry)
    → HasUniqueNames (i ∷ path)
    → bytes_eq i.pathname name ≡ false
    → Removed name path rest
    → Removed name (i ∷ path) (i ∷ rest)
unfolding namei check_availability
Removed-behind name i path rest (e, u) differs (lookups, unique, fewer) =
    (lookups', (fewer i.pathname e, unique), λ n h. ground (arith, fewer n))
  where
    lookups' : UpdatesName name (throw no_such_file_or_dir) (i ∷ path) (i ∷ rest)
    lookups' n = elim (Bool-cases (bytes_eq i.pathname n)) [
      | inl here ↦ elim (Bool-cases (bytes_eq name n)) [
        | inl this ↦ absurd (
            ground (
              arith,
              bytes_eq_sound i.pathname n here,
              bytes_eq_sound name n this,
              bytes_eq_refl name,
            ))
        | inr other ↦ rw (here, other) refl
      ]
      | inr there ↦ rw there (lookups n)
    ]

remove_path-Removed :
    (name : Bytes) (id : ℕ) (path : List Entry)
    → HasUniqueNames path
    → namei name path ≡ ok id
    → (path' : List Entry) × (remove_path name path ≡ ok path') × Removed name path path'
unfolding namei
remove_path-Removed name id [] u found = absurd (ground arith)
remove_path-Removed name id (i ∷ path) u found = elim (Bool-cases (bytes_eq i.pathname name)) [
  | inl same ↦ (path, remove_found name i path same, Removed-here name i path u same)
  | inr differs ↦
      let (rest, ret, r) = remove_path-Removed name id path u.1 (behind differs found) in
      (
        i ∷ rest,
        remove_behind name i path rest differs ret,
        Removed-behind name i path rest u differs r,
      )
]
  where
    behind :
        bytes_eq i.pathname name ≡ false → namei name (i ∷ path) ≡ ok id → namei name path ≡ ok id
    behind differs found = ground arith

-- `remove_path` of a name that is there, in a directory of unique names, returns: the name then
-- leads nowhere, every other name where it led before, and the names stay unique.
pub remove_path-namei :
    (name : Bytes) (id : ℕ) (path : List Entry)
    → HasUniqueNames path
    → namei name path ≡ ok id
    → (path' : List Entry) × (remove_path name path ≡ ok path')
      × UpdatesName name (throw no_such_file_or_dir) path path'
      × HasUniqueNames path'
remove_path-namei name id path u found =
    let (path', ret, (lookups, unique, fewer)) = remove_path-Removed name id path u found in
    (path', ret, lookups, unique)
