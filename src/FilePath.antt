-- ===== src/FilePath.antt =====
-- `path_t` (src/include/htmpfs/path_t.h, src/htmpfs/path_t.cpp): a path as its components, behind
-- an empty one that stands for the root.
pub mod Laws
use htmpfs.Prelude.{
  ℕ, Bool, true, false, List, [], ◌∷◌, ◌++◌, length, pop_back, last_or, ◌==◌, if◌then◌else◌,
}
use htmpfs.Prelude.Bytes.{Bytes}

-- The member `pathname`.
abbrev pub FilePath : Type 0
FilePath = List Bytes

abbrev pub slash : ℕ
slash = b'/'

-- `std::string::empty`
abbrev pub is_empty : Bytes → Bool
is_empty [] = true
is_empty (_ ∷ _) = false

-- The end of the constructor: the last component, unless it is empty.
unfoldable pub finish : Bytes → FilePath → FilePath
finish cur pathname = if is_empty cur then pathname else pathname ++ cur ∷ []

-- The constructor's loop, over the characters that are left.
unfoldable pub parse_loop : Bytes → Bytes → FilePath → FilePath
unfolding finish
parse_loop [] cur pathname = finish cur pathname
parse_loop (i ∷ rest) cur pathname =
    parse_loop rest (if i == slash then [] else cur ++ i ∷ [])
      (if i == slash then finish cur pathname else pathname)

-- `path_t(given_path)`
unfoldable pub new : Bytes → FilePath
unfolding parse_loop
new given_path = parse_loop given_path [] ([] ∷ [])

-- `to_string()`
unfoldable pub to_string : FilePath → Bytes
to_string [] = []
to_string (i ∷ rest) = if is_empty i then to_string rest else (slash ∷ i) ++ to_string rest

abbrev pub size : FilePath → ℕ
size = length

-- `*last()`; every path that the constructor builds has a last component.
abbrev pub last : FilePath → Bytes
last p = last_or p []

-- `pop_end()`: the last component, and the path without it.
unfoldable pub pop_end : FilePath → Bytes × FilePath
pop_end p = (last p, pop_back p)
