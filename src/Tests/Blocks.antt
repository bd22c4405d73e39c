-- ===== src/Tests/Blocks.antt =====
-- A device of twelve bytes that takes transfers at multiples of four bytes only, as O_DIRECT does with
-- its alignment: a block written and read back (src/disk_ops/ll_io.cpp), and blocks of three bytes.
use htmpfs.Prelude.{
  ℕ, ◌+◌, ◌≡◌, ◌⊎◌, refl, sym, subst, ◌∙◌, ◌++◌, take-append-drop, [], ◌∷◌, arith, length,
  length-take, take, take_all, drop, overwrite, Bool, ltb, ◌==◌, ◌≤◌, ◌&&◌, ◌%◌, zero, suc, ap,
  if◌then◌else◌, Bool-cases, inl, inr,
}
use htmpfs.Prelude.Bytes.{Bytes}
use htmpfs.Prelude.Int.{ℤ, pos, negsuc}
use htmpfs.Errors.{ErrorCode, ok, throws, htmpfs_error, block_short_ops}
use htmpfs.Buffer
use htmpfs.LlIo.{Device, LlIo, minus_one, read, write, read_block, write_block}
use htmpfs.LlIo.Disk.{IsDisk, Sought, Fetched, Stored}
use htmpfs.LlIo.Ends.{IsInside, HasRead, HasWritten}
use htmpfs.LlIo.Laws.{read_block-write_block}

-- The position and the bytes of a file.
abbrev Disk : Type 0
Disk = ℕ × Bytes

abbrev seek : ℤ → ℤ → Disk → ℤ × Disk
seek fd (pos n) (at, bytes) = if ltb 12 n then (minus_one, (at, bytes)) else (pos n, (n, bytes))
seek fd (negsuc n) d = (minus_one, d)

abbrev is_aligned : ℕ → ℕ → Bool
is_aligned at n = at % 4 == 0 && n % 4 == 0

abbrev read_at : ℤ → ℕ → Disk → (ℤ × Bytes) × Disk
read_at fd n (at, bytes) =
    let found = take n (drop at bytes) in
    if is_aligned at n
    then ((pos (length found), found), (at + length found, bytes))
    else ((minus_one, []), (at, bytes))

abbrev write_at : ℤ → Bytes → Disk → ℤ × Disk
write_at fd new (at, bytes) =
    if is_aligned at (length new)
    then (pos (length new), (at + length new, overwrite at new bytes))
    else (minus_one, (at, bytes))

abbrev disk : Device Disk
disk = record {
  open_device = λ path flags d. (pos 3, d);
  seek_end = λ fd (at, bytes). (pos (length bytes), (length bytes, bytes));
  seek_set = seek;
  read_bytes = read_at;
  write_bytes = write_at;
  close_device = λ fd d. d;
}

abbrev position : Disk → ℕ
position (at, bytes) = at

abbrev contents : Disk → Bytes
contents (at, bytes) = bytes

disk-seeks :
    (offset : ℕ) (d : Disk) → Sought position contents offset d (seek (pos 3) (pos offset) d)
disk-seeks offset (at, bytes) = elim (Bool-cases (ltb 12 offset)) [
  | inl e ↦ rw e (Sought.sought_nothing (at, bytes) refl)
  | inr e ↦ rw e (Sought.reached (offset, bytes) refl refl)
]

take-length : (n : ℕ) (xs : Bytes) → take (length (take n xs)) xs ≡ take n xs
take-length zero xs = refl
take-length (suc n) [] = refl
take-length (suc n) (x ∷ xs) = ap (x ∷◌) (take-length n xs)

disk-reads : (n : ℕ) (d : Disk) → Fetched position contents n d (read_at (pos 3) n d)
disk-reads n (at, bytes) = elim (Bool-cases (is_aligned at n)) [
  | inl e ↦
      let rest : Bytes = drop at bytes in
      let k : ℕ = length (take n rest) in
      rw e (
        subst (λ found. Fetched position contents n (at, bytes) ((pos k, found), (at + k, bytes)))
          (take-length n rest)
          (Fetched.fetched k (at + k, bytes) (omega (arith, length-take n rest))
            (ap length (take-length n rest)) refl))
  | inr e ↦ rw e (Fetched.fetched_nothing [] (at, bytes) refl)
]

overwrite_none : (at : ℕ) (bytes : Bytes) → overwrite at [] bytes ≡ bytes
unfolding overwrite
overwrite_none at bytes =
    ap (λ k. take at bytes ++ drop k bytes) {x = at + 0} {y = at} (omega arith)
    ∙ take-append-drop at bytes

disk-writes :
    (new : Bytes) (d : Disk)
    → position d + length new ≤ length (contents d)
    → Stored position contents new d (write_at (pos 3) new d)
disk-writes new (at, bytes) inside = elim (Bool-cases (is_aligned at (length new))) [
  | inl e ↦ rw e (
      Stored.stored (length new) (at + length new, overwrite at new bytes) (omega arith)
        (ap (λ l. overwrite at l bytes) (sym (take_all (length new) new (omega arith)))))
  | inr e ↦ rw e (Stored.stored_badly [] (at, bytes) (omega arith) (sym (overwrite_none at bytes)))
]

disk-IsDisk : IsDisk disk (pos 3) position contents
disk-IsDisk = record {
  seeks = λ offset d small. disk-seeks offset d;
  reads = λ n d small. disk-reads n d;
  writes = λ new d inside small. disk-writes new d inside;
}

abbrev io : LlIo
io = record { fd = pos 3; dev_len = pos 12; block_size = 4; block_count = 3 }

abbrev twelve : Disk
twelve = (0, 1 ∷ 2 ∷ 3 ∷ 4 ∷ 5 ∷ 6 ∷ 7 ∷ 8 ∷ 9 ∷ 10 ∷ 11 ∷ 12 ∷ [])

abbrev zeros : Bytes
zeros = 0 ∷ 0 ∷ 0 ∷ 0 ∷ []

abbrev after : Disk
after = (8, 1 ∷ 2 ∷ 3 ∷ 4 ∷ 0 ∷ 0 ∷ 0 ∷ 0 ∷ 9 ∷ 10 ∷ 11 ∷ 12 ∷ [])

second-IsInside : IsInside disk io contents 1 twelve
second-IsInside = record { counted = omega arith; inside = omega arith; small = omega arith }

written : write_block disk io zeros 1 twelve ≡ (ok tt, after)
unfolding write_block write Buffer.read overwrite Buffer.copy_out Buffer.clip
written = refl

found : read_block disk io [] 1 after ≡ (ok zeros, after)
unfolding read_block read Buffer.write Buffer.copy_in Buffer.fit
found = refl

-- Blocks of three bytes are not aligned, so the transfer fails and the test of its length throws.
misaligned :
    write_block disk (record io { block_size = 3 }) (0 ∷ 0 ∷ 0 ∷ []) 1 twelve
    ≡ (throws (htmpfs_error block_short_ops), (3, twelve.1))
unfolding write_block write Buffer.read Buffer.copy_out Buffer.clip
misaligned = refl

read_block-write_block_example :
    ((d1 : Disk) × (write_block disk io zeros 1 twelve ≡ (ok tt, d1))
      × HasWritten disk io contents 1 zeros twelve (ok tt, d1)
      × HasRead disk io contents 1 zeros d1 (read_block disk io [] 1 d1))
    ⊎ ((e : ErrorCode) × (d1 : Disk) × (write_block disk io zeros 1 twelve
          ≡ (throws (htmpfs_error e), d1))
        × HasWritten disk io contents 1 zeros twelve (throws (htmpfs_error e), d1))
read_block-write_block_example =
    read_block-write_block disk io position contents disk-IsDisk 1 zeros [] twelve second-IsInside
      refl
