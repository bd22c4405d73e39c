-- ===== src/Dentry/Codec.antt =====
-- The stored form of a directory: `refresh` after `save_current`.
use native.Mathlib.Nat.{pow-suc}
use htmpfs.Prelude.{
  ℕ, zero, suc, ◌+◌, ◌-◌, ◌/◌, ◌^◌, ◌<◌, ◌≤◌, ◌≡◌, refl, ap, ◌∙◌, false, List, [], ◌∷◌, ◌++◌,
  append_assoc, arith, length, length-append, take, drop, take-append_exact, drop-append_exact,
  resize, resize_grow, resize_shrink, length-resize, replicate, u64_mod, ltb, ◌==◌,
}
use htmpfs.Prelude.Bytes.{Bytes}
use htmpfs.Errors.{ok, undefined, and_then}
use htmpfs.Dentry.{
  Entry, name_size, le_bytes, from_le_bytes, pack_entry, pack_entries, pack, c_string,
  unpack_entries, unpack,
}

-- No byte is zero.
abbrev pub NoZero : Bytes → Type 0
NoZero [] = Unit {0}
NoZero (b ∷ bs) = (0 < b) × NoZero bs

-- The entry survives a save: its name leaves room for the terminating zero and holds no zero, and
-- its inode id is a 64-bit number.
pub record Storable (i : Entry) : Type 0 where
  pub short : length i.pathname < name_size
  pub text : NoZero i.pathname
  pub id : i.inode_id < u64_mod

abbrev pub AllStorable : List Entry → Type 0
AllStorable [] = Unit {0}
AllStorable (i ∷ path) = Storable i × AllStorable path

length-le_bytes : (n x : ℕ) → length (le_bytes n x) ≡ n
unfolding le_bytes
length-le_bytes zero x = refl
length-le_bytes (suc n) x = ap suc (length-le_bytes n (x / 256))

from_le_bytes-le_bytes : (n x : ℕ) → x < 256 ^ n → from_le_bytes (le_bytes n x) ≡ x
unfolding le_bytes from_le_bytes
from_le_bytes-le_bytes zero x h = omega (arith, h)
from_le_bytes-le_bytes (suc n) x h =
    omega (arith, from_le_bytes-le_bytes n (x / 256) (omega (arith, pow-suc 256 n)))

c_string-pad :
    (name : Bytes) (k : ℕ) → NoZero name → c_string (name ++ replicate (suc k) 0) ≡ ok name
unfolding c_string
c_string-pad [] k h = refl
c_string-pad (b ∷ bs) k (pos, h) =
    let nonzero : (b == 0) ≡ false = ground arith in rw (nonzero, c_string-pad bs k h)

c_string-resize :
    (name : Bytes)
    → NoZero name
    → length name < name_size
    → c_string (resize 0 name_size name) ≡ ok name
c_string-resize name h short =
    ap c_string (
      resize_grow 0 name_size name (omega arith)
      ∙ ap (λ k. name ++ replicate k 0) {x = name_size - length name}
          {y = suc (name_size - length name - 1)} (omega arith))
    ∙ c_string-pad name (name_size - length name - 1) h

length-pack_entry : (i : Entry) → length (pack_entry i) ≡ name_size + 8
unfolding pack_entry
length-pack_entry i = omega (
  arith,
  length-append (resize 0 name_size i.pathname) (le_bytes 8 i.inode_id),
  length-resize 0 name_size i.pathname,
  length-le_bytes 8 i.inode_id,
)

take-pack_entry :
    (i : Entry) (rest : Bytes)
    → take name_size (pack_entry i ++ rest) ≡ resize 0 name_size i.pathname
unfolding pack_entry
take-pack_entry i rest =
    ap (take name_size) (append_assoc (resize 0 name_size i.pathname) (le_bytes 8 i.inode_id) rest)
    ∙ take-append_exact name_size (resize 0 name_size i.pathname) (le_bytes 8 i.inode_id ++ rest)
        (length-resize 0 name_size i.pathname)

id-pack_entry :
    (i : Entry) (rest : Bytes)
    → i.inode_id < u64_mod
    → from_le_bytes (take 8 (drop name_size (pack_entry i ++ rest))) ≡ i.inode_id
unfolding pack_entry
id-pack_entry i rest small =
    ap (λ l. from_le_bytes (take 8 (drop name_size l)))
      (append_assoc (resize 0 name_size i.pathname) (le_bytes 8 i.inode_id) rest)
    ∙ ap (λ l. from_le_bytes (take 8 l))
        (drop-append_exact name_size (resize 0 name_size i.pathname) (le_bytes 8 i.inode_id ++ rest)
          (length-resize 0 name_size i.pathname))
    ∙ ap from_le_bytes
        (take-append_exact 8 (le_bytes 8 i.inode_id) rest (length-le_bytes 8 i.inode_id))
    ∙ from_le_bytes-le_bytes 8 i.inode_id small

-- One round of `refresh`'s loop on a text that begins with a saved entry.
unpack_entries-cons :
    (n : ℕ) (i : Entry) (rest : Bytes)
    → Storable i
    → unpack_entries (suc n) (pack_entry i ++ rest)
      ≡ and_then (unpack_entries n rest) (λ path. ok (i ∷ path))
unfolding unpack_entries
unpack_entries-cons n i rest s =
    let enough : ltb (length (pack_entry i ++ rest)) (name_size + 8) ≡ false =
      ground (arith, length-append (pack_entry i) rest, length-pack_entry i) in
    rw (
      enough,
      drop-append_exact (name_size + 8) (pack_entry i) rest (length-pack_entry i),
      take-pack_entry i rest,
      c_string-resize i.pathname s.text s.short,
      id-pack_entry i rest s.id,
    )

unpack_entries-pack_entries :
    (path : List Entry)
    → AllStorable path
    → unpack_entries (length path) (pack_entries path) ≡ ok path
unfolding pack_entries
unpack_entries-pack_entries [] h = (unfold unpack_entries in refl)
unpack_entries-pack_entries (i ∷ path) (s, h) =
    unpack_entries-cons (length path) i (pack_entries path) s
    ∙ ap (λ r. and_then r (λ path'. ok (i ∷ path'))) (unpack_entries-pack_entries path h)

unpack_text :
    (t : Bytes) → 8 ≤ length t → unpack t ≡ unpack_entries (from_le_bytes (take 8 t)) (drop 8 t)
unfolding unpack
unpack_text [] h = absurd (omega arith)
unpack_text (b ∷ bs) h = let enough : ltb (length (b ∷ bs)) 8 ≡ false = ground arith in rw enough

c_string-NoZero : (text : Bytes) → NoZero text → c_string text ≡ undefined
unfolding c_string
c_string-NoZero [] h = refl
c_string-NoZero (b ∷ bs) (pos, h) =
    let nonzero : (b == 0) ≡ false = ground arith in rw (nonzero, c_string-NoZero bs h)

NoZero-take : (n : ℕ) (text : Bytes) → NoZero text → NoZero (take n text)
NoZero-take zero text h = tt
NoZero-take (suc n) [] h = tt
NoZero-take (suc n) (b ∷ bs) (pos, h) = (pos, NoZero-take n bs h)

unpack_entries-long :
    (n : ℕ) (i : Entry) (rest : Bytes)
    → name_size ≤ length i.pathname
    → NoZero i.pathname
    → unpack_entries (suc n) (pack_entry i ++ rest) ≡ undefined
unfolding unpack_entries
unpack_entries-long n i rest long h =
    let enough : ltb (length (pack_entry i ++ rest)) (name_size + 8) ≡ false =
      ground (arith, length-append (pack_entry i) rest, length-pack_entry i) in
    rw (
      enough,
      take-pack_entry i rest,
      resize_shrink 0 name_size i.pathname long,
      c_string-NoZero (take name_size i.pathname) (NoZero-take name_size i.pathname h),
    )

unpack_entries-before :
    (before : List Entry) (i : Entry) (after : List Entry)
    → AllStorable before
    → name_size ≤ length i.pathname
    → NoZero i.pathname
    → unpack_entries (length (before ++ i ∷ after)) (pack_entries (before ++ i ∷ after)) ≡ undefined
unfolding pack_entries
unpack_entries-before [] i after b long h =
    unpack_entries-long (length after) i (pack_entries after) long h
unpack_entries-before (x ∷ before) i after (s, b) long h =
    unpack_entries-cons (length (before ++ i ∷ after)) x (pack_entries (before ++ i ∷ after)) s
    ∙ ap (λ r. and_then r (λ path. ok (x ∷ path))) (unpack_entries-before before i after b long h)

unpack-pack_text :
    (path : List Entry)
    → length path < u64_mod
    → unpack (pack path) ≡ unpack_entries (length path) (pack_entries path)
unfolding pack
unpack-pack_text path small =
    unpack_text (le_bytes 8 n ++ pack_entries path)
      (omega (arith, length-append (le_bytes 8 n) (pack_entries path), length-le_bytes 8 n))
    ∙ rw (
      take-append_exact 8 (le_bytes 8 n) (pack_entries path) (length-le_bytes 8 n),
      drop-append_exact 8 (le_bytes 8 n) (pack_entries path) (length-le_bytes 8 n),
      from_le_bytes-le_bytes 8 n small,
    )
  where
    n : ℕ
    n = length path

-- The text that `save_current` stores is read by `refresh` as the same entries in the same order, for
-- names of fewer than 128 bytes without a zero, 64-bit inode ids and a 64-bit number of entries.
pub unpack-pack :
    (path : List Entry) → AllStorable path → length path < u64_mod → unpack (pack path) ≡ ok path
unpack-pack path h small = unpack-pack_text path small ∙ unpack_entries-pack_entries path h

-- Where a name of 128 bytes or more, without a zero, is stored behind storable entries, reading the
-- text back runs `strcpy` off the end of the stored name, whatever entries follow (there are fewer
-- than 2 ^ 64 in all).
pub unpack-pack_long :
    (before : List Entry) (i : Entry) (after : List Entry)
    → AllStorable before
    → name_size ≤ length i.pathname
    → NoZero i.pathname
    → length (before ++ i ∷ after) < u64_mod
    → unpack (pack (before ++ i ∷ after)) ≡ undefined
unpack-pack_long before i after b long h small =
    unpack-pack_text (before ++ i ∷ after) small ∙ unpack_entries-before before i after b long h
