-- ===== src/Inode/Whole.antt =====
-- The reading methods of `inode_t` on a whole inode: a version of the file is what its block list
-- holds.
use htmpfs.Prelude.{
  ℕ, ◌+◌, ◌*◌, ◌%◌, ◌<◌, ◌≡◌, ◌≢◌, ◌⊎◌, refl, sym, ap, ◌∙◌, [], arith, true, false, length, take,
  drop, take_all, drop_all, ◌==◌, u64_mod, mul64, add64, Bool-cases, inl, inr, some,
}
use htmpfs.Prelude.Map
use htmpfs.Prelude.Map.{bytes_key}
use htmpfs.Prelude.Bytes.{Bytes}
use htmpfs.Errors.{Outcome, ok, throws, out_of_range}
use htmpfs.Pool.{Pool, Refs}
use htmpfs.Blocks.Read.{data_size-length}
use htmpfs.Inode.{
  Inode, Version, version_refs, read_list, read, read_all, to_string, current_data_size,
}
use htmpfs.Inode.Truncate.{content, IsFile}
use htmpfs.Inode.Read.{read_list-slice, read_list-end, bytes_bound}

-- The inode has the version, and the blocks of the version are in order.
pub record HasFile (version : Version) (p : Pool) (inode : Inode) (refs : Refs) : Type 0 where
  pub found : Map.find version inode.buffer_map ≡ some refs
  pub file : IsFile inode.block_size p refs
  pub bytes_small : length (content p refs) < u64_mod

read_step :
    (version : Version) (len offset : ℕ) (p : Pool) (inode : Inode) (refs : Refs)
    (r : Outcome Bytes)
    → (len == 0) ≡ false
    → version_refs version inode ≡ ok refs
    → read_list inode.block_size len offset refs p ≡ (r, p)
    → read version len offset (p, inode) ≡ (r, (p, inode))
unfolding read
read_step version len offset p inode refs r e0 e1 e2 = rw (e0, e1, e2) refl

read_none :
    (version : Version) (len offset : ℕ) (p : Pool) (inode : Inode)
    → (len == 0) ≡ true
    → read version len offset (p, inode) ≡ (ok [], (p, inode))
unfolding read
read_none version len offset p inode e0 = rw e0 refl

found_refs :
    (version : Version) (inode : Inode) (refs : Refs)
    → Map.find version inode.buffer_map ≡ some refs
    → version_refs version inode ≡ ok refs
found_refs version inode refs e = ground arith

-- `read` of a version that the inode has, with its blocks in order, stores exactly the bytes of that
-- version from `offset` on, at most `length` of them, for every range that does not begin at the very
-- end of a file of full blocks, and changes nothing; `length + offset` must not wrap.
pub read-content :
    (version : Version) (len offset : ℕ) (p : Pool) (inode : Inode) (refs : Refs)
    → HasFile version p inode refs
    → len + offset < u64_mod
    → (offset ≢ length (content p refs)) ⊎ (length (content p refs) % inode.block_size ≢ 0)
    → read version len offset (p, inode)
      ≡ (ok (take len (drop offset (content p refs))), (p, inode))
read-content version len offset p inode refs h no_wrap apart = elim (Bool-cases (len == 0)) [
  | inl nothing ↦
      read_none version len offset p inode nothing
      ∙ ap {B = Outcome Bytes × (Pool × Inode)}
          (λ n. (ok (take n (drop offset (content p refs))), (p, inode))) {x = 0} {y = len}
          (ground arith)
  | inr some_bytes ↦
      read_step version len offset p inode refs (ok (take len (drop offset (content p refs))))
        some_bytes (found_refs version inode refs h.found)
        (read_list-slice inode.block_size len offset refs p h.file h.bytes_small no_wrap apart)
]

-- A `read` of a positive length that begins at the very end of a version whose blocks are all full
-- (an empty file is one) throws `std::out_of_range` out of `at`.
pub read_end :
    (version : Version) (len : ℕ) (p : Pool) (inode : Inode) (refs : Refs)
    → HasFile version p inode refs
    → 0 < len
    → length (content p refs) % inode.block_size ≡ 0
    → read version len (length (content p refs)) (p, inode) ≡ (throws out_of_range, (p, inode))
read_end version len p inode refs h pos full =
    read_step version len (length (content p refs)) p inode refs (throws out_of_range)
      (ground arith) (found_refs version inode refs h.found)
      (read_list-end inode.block_size len refs p h.file h.bytes_small full)

-- `current_data_size` of a version that the inode has, with its blocks in order, returns the number
-- of its bytes and changes nothing.
pub current_data_size-length :
    (version : Version) (p : Pool) (inode : Inode) (refs : Refs)
    → HasFile version p inode refs
    → current_data_size version (p, inode) ≡ (ok (length (content p refs)), (p, inode))
unfolding current_data_size
current_data_size-length version p inode refs h =
    rw (found_refs version inode refs h.found, data_size-length refs p h.file.live h.bytes_small)
      refl

to_string_none :
    (version : Version) (p : Pool) (inode : Inode) (size : ℕ)
    → current_data_size version (p, inode) ≡ (ok size, (p, inode))
    → (size == 0) ≡ true
    → to_string version (p, inode) ≡ (ok [], (p, inode))
unfolding to_string
to_string_none version p inode size e0 e1 = rw (e0, e1) refl

to_string_some :
    (version : Version) (p : Pool) (inode : Inode) (size : ℕ) (refs : Refs) (bytes : Bytes)
    → current_data_size version (p, inode) ≡ (ok size, (p, inode))
    → (size == 0) ≡ false
    → version_refs version inode ≡ ok refs
    → read version (add64 (mul64 inode.block_size (length refs)) 1) 0 (p, inode)
      ≡ (ok bytes, (p, inode))
    → (length bytes == size) ≡ true
    → to_string version (p, inode) ≡ (ok bytes, (p, inode))
unfolding to_string read_all
to_string_some version p inode size refs bytes e0 e1 e2 e3 e4 = rw (e0, e1, e2, e3, e4) refl

-- `to_string` of a version that the inode has, with its blocks in order, returns all its bytes and
-- changes nothing, where the blocks' total room and one byte more are still a 64-bit number.
pub to_string-content :
    (version : Version) (p : Pool) (inode : Inode) (refs : Refs)
    → HasFile version p inode refs
    → inode.block_size * length refs + 1 < u64_mod
    → to_string version (p, inode) ≡ (ok (content p refs), (p, inode))
to_string-content version p inode refs h room =
    let bytes : Bytes = content p refs in
    let size : ℕ = length bytes in
    let measured = current_data_size-length version p inode refs h in
    elim (Bool-cases (size == 0)) [
      | inl nothing ↦
          to_string_none version p inode size measured nothing
          ∙ ap {B = Outcome Bytes × (Pool × Inode)} (λ l. (ok l, (p, inode)))
              (sym (drop_all 0 bytes (ground arith)))
      | inr some_bytes ↦
          let n : ℕ = add64 (mul64 inode.block_size (length refs)) 1 in
          let n_eq : n ≡ inode.block_size * length refs + 1 = omega arith in
          to_string_some version p inode size refs bytes measured some_bytes
            (found_refs version inode refs h.found)
            (read-content version n 0 p inode refs h (omega arith) (inl (ground arith))
              ∙ ap {B = Outcome Bytes × (Pool × Inode)} (λ l. (ok l, (p, inode)))
                  (take_all n bytes (omega (arith, bytes_bound inode.block_size refs p h.file))))
            (ground arith)
    ]
