-- ===== src/LlIo/Steps.antt =====
-- The steps of `read_block` and `write_block` (src/disk_ops/ll_io.cpp), one lemma for each way the
-- calls under them end.
use htmpfs.Prelude.{
  ℕ, ◌+◌, ◌^◌, ◌<◌, ◌≤◌, ◌≡◌, refl, ap, ◌∙◌, Bool, true, false, ◌++◌, arith, length, length-append,
  length-take, length-drop, take, take_all, take-append_le, drop, drop-append_exact, overwrite, ltb,
  ◌==◌, ==_iff, if◌then◌else◌, mul64,
}
use htmpfs.Prelude.Bytes.{Bytes}
use htmpfs.Prelude.Int.{ℤ, pos}
use htmpfs.Errors.{ok, throws, htmpfs_error, cannot_lseek_device, block_short_ops}
use htmpfs.Buffer
use htmpfs.Buffer.{Buffer}
use htmpfs.Buffer.Content.{read-slice, write-resize}
use htmpfs.Blocks.Layout.{resize_none}
use htmpfs.LlIo.{
  Device, LlIo, minus_one, to_off, to_u64, read, write, filled, read_block, write_block,
}
use htmpfs.LlIo.Ends.{IsShort, fewer, failed}

pub overwrite-slice :
    (off : ℕ) (ys xs : Bytes)
    → off ≤ length xs
    → take (length ys) (drop off (overwrite off ys xs)) ≡ ys
unfolding overwrite
overwrite-slice off ys xs h =
    ap (take (length ys)) (
      drop-append_exact off (take off xs) (ys ++ drop (off + length ys) xs)
        (omega (arith, length-take off xs)))
    ∙ take-append_le (length ys) ys (drop (off + length ys) xs) (omega arith)
    ∙ take_all (length ys) ys (omega arith)

pub length-overwrite_lem :
    (off : ℕ) (ys xs : Bytes)
    → off + length ys ≤ length xs
    → length (overwrite off ys xs) ≡ length xs
unfolding overwrite
length-overwrite_lem off ys xs h = omega (
  arith,
  length-append (take off xs) (ys ++ drop (off + length ys) xs),
  length-append ys (drop (off + length ys) xs),
  length-take off xs,
  length-drop (off + length ys) xs,
)

itself : (n : ℕ) → (n == n) ≡ true
itself n = (==_iff n n).1 refl

pub fits_u64 : (k : ℕ) → k < 2 ^ 63 → (to_u64 (pos k) == k) ≡ true
fits_u64 k h = ground arith

pub short_u64 : (n : ℕ) (done : ℤ) → n < 2 ^ 63 → IsShort n done → (to_u64 done == n) ≡ false
short_u64 n done h (fewer k less) = ground arith
short_u64 n done h failed = ground arith

module _ {D : Type 0} (device : Device D) (io : LlIo) where
  pub read_reached :
      (n offset : ℕ) (r : ℤ × Bytes) (d d1 d2 : D)
      → device.seek_set io.fd (pos offset) d ≡ (pos offset, d1)
      → device.read_bytes io.fd n d1 ≡ (r, d2)
      → read device io n (pos offset) d ≡ (ok r, d2)
  unfolding read
  read_reached n offset r d d1 d2 e1 e2 = rw (e1, itself offset, e2) refl

  pub read_lost :
      (n offset : ℕ) (d d1 : D)
      → device.seek_set io.fd (pos offset) d ≡ (minus_one, d1)
      → read device io n (pos offset) d ≡ (throws (htmpfs_error cannot_lseek_device), d1)
  unfolding read
  read_lost n offset d d1 e = rw e refl

  pub write_reached :
      (offset : ℕ) (bytes : Bytes) (done : ℤ) (d d1 d2 : D)
      → device.seek_set io.fd (pos offset) d ≡ (pos offset, d1)
      → device.write_bytes io.fd bytes d1 ≡ (done, d2)
      → write device io bytes (pos offset) d ≡ (ok done, d2)
  unfolding write
  write_reached offset bytes done d d1 d2 e1 e2 = rw (e1, itself offset, e2) refl

  pub write_lost :
      (offset : ℕ) (bytes : Bytes) (d d1 : D)
      → device.seek_set io.fd (pos offset) d ≡ (minus_one, d1)
      → write device io bytes (pos offset) d ≡ (throws (htmpfs_error cannot_lseek_device), d1)
  unfolding write
  write_lost offset bytes d d1 e = rw e refl

  -- The exception of `read` and of `write` passes through.
  pub read_block_lost :
      (n offset : ℕ) (buffer : Buffer) (d d1 : D)
      → ltb io.block_count n ≡ false
      → to_off (mul64 n io.block_size) ≡ pos offset
      → read device io io.block_size (pos offset) d
        ≡ (throws (htmpfs_error cannot_lseek_device), d1)
      → read_block device io buffer n d ≡ (throws (htmpfs_error cannot_lseek_device), d1)
  unfolding read_block
  read_block_lost n offset buffer d d1 e0 e1 e2 = rw (e0, e1, e2) refl

  pub read_block_got :
      (n offset : ℕ) (buffer bytes : Buffer) (got : ℤ) (b : Bool) (d d2 : D)
      → ltb io.block_count n ≡ false
      → to_off (mul64 n io.block_size) ≡ pos offset
      → read device io io.block_size (pos offset) d ≡ (ok (got, bytes), d2)
      → (to_u64 got == io.block_size) ≡ b
      → read_block device io buffer n d ≡ (
          if b
          then (ok (Buffer.write buffer bytes io.block_size 0 true).1, d2)
          else (throws (htmpfs_error block_short_ops), d2))
  unfolding read_block
  read_block_got n offset buffer bytes got true d d2 e0 e1 e2 e3 = rw (e0, e1, e2, e3) refl
  read_block_got n offset buffer bytes got false d d2 e0 e1 e2 e3 = rw (e0, e1, e2, e3) refl

  pub write_block_lost :
      (n offset : ℕ) (buffer bytes : Buffer) (d d1 : D)
      → ltb io.block_count n ≡ false
      → filled device io buffer ≡ ok bytes
      → to_off (mul64 n io.block_size) ≡ pos offset
      → write device io bytes (pos offset) d ≡ (throws (htmpfs_error cannot_lseek_device), d1)
      → write_block device io buffer n d ≡ (throws (htmpfs_error cannot_lseek_device), d1)
  unfolding write_block
  write_block_lost n offset buffer bytes d d1 e0 e1 e2 e3 = rw (e0, e1, e2, e3) refl

  pub write_block_done :
      (n offset : ℕ) (buffer bytes : Buffer) (done : ℤ) (b : Bool) (d d2 : D)
      → ltb io.block_count n ≡ false
      → filled device io buffer ≡ ok bytes
      → to_off (mul64 n io.block_size) ≡ pos offset
      → write device io bytes (pos offset) d ≡ (ok done, d2)
      → (to_u64 done == io.block_size) ≡ b
      → write_block device io buffer n d
        ≡ (if b then (ok tt, d2) else (throws (htmpfs_error block_short_ops), d2))
  unfolding write_block
  write_block_done n offset buffer bytes done true d d2 e0 e1 e2 e3 e4 =
      rw (e0, e1, e2, e3, e4) refl
  write_block_done n offset buffer bytes done false d d2 e0 e1 e2 e3 e4 =
      rw (e0, e1, e2, e3, e4) refl

  pub filled_lem :
      (buffer : Buffer)
      → length buffer ≡ io.block_size
      → io.block_size < 2 ^ 63
      → filled device io buffer ≡ ok buffer
  filled_lem buffer whole small =
      let c_buff : Buffer.read buffer io.block_size 0 ≡ buffer =
        read-slice buffer io.block_size 0 (omega arith)
        ∙ take_all io.block_size buffer (omega (arith, whole)) in
      rw (c_buff, (==_iff (length buffer) io.block_size).1 whole) refl

  -- The bytes that a full transfer leaves in the buffer.
  pub kept_bytes :
      (buffer bytes : Buffer)
      → length bytes ≡ io.block_size
      → io.block_size < 2 ^ 63
      → (Buffer.write buffer bytes io.block_size 0 true).1 ≡ bytes
  kept_bytes buffer bytes count small =
      ap {A = ℕ × Buffer} (λ t. t.1)
        (write-resize buffer bytes io.block_size 0 (omega (arith, count)) (omega (arith, small)))
      ∙ ap (λ l. l ++ take io.block_size bytes) (resize_none 0 buffer refl)
      ∙ take_all io.block_size bytes (omega (arith, count))
