-- ===== src/LlIo/Ends.antt =====
-- How `read_block` and `write_block` of src/disk_ops/ll_io.cpp end.
use htmpfs.Prelude.{
  ℕ, ◌+◌, ◌-◌, ◌*◌, ◌%◌, ◌^◌, ◌<◌, ◌≤◌, ◌≡◌, ap, true, false, arith, length, overwrite, ltb,
  if◌then◌else◌, u64_mod, mul64,
}
use htmpfs.Prelude.Bytes.{Bytes}
use htmpfs.Prelude.Int.{ℤ, pos, negsuc}
use htmpfs.Errors.{Outcome, ok, throws, htmpfs_error, cannot_lseek_device, block_short_ops}
use htmpfs.Buffer.{Buffer}
use htmpfs.LlIo.{to_off, Device, LlIo, minus_one, to_off}

-- What a call that moved fewer bytes than `n`, or failed, returns.
pub data IsShort (n : ℕ) : ℤ → Type 0 where
  fewer : (k : ℕ) → k < n → IsShort n (pos k)
  failed : IsShort n minus_one

small_off :
    (w n : ℕ)
    → w ≡ n
    → n < 2 ^ 63
    → (if ltb w (2 ^ 63) then pos w else negsuc (u64_mod - w - 1)) ≡ pos n
small_off w n e h = let below : ltb w (2 ^ 63) ≡ true = ground arith in rw below (ap pos e)

to_off-small : (n : ℕ) → n < 2 ^ 63 → to_off (n % u64_mod) ≡ pos n
to_off-small n h = small_off (n % u64_mod % u64_mod) n (omega arith) h

module _ {D : Type 0} (device : Device D) (io : LlIo) (contents : D → Bytes) where
  -- A block inside the device, whose offsets are not negative as an `off_t`.
  pub record IsInside (n : ℕ) (d : D) : Type 0 where
    pub counted : n < io.block_count
    pub inside : n * io.block_size + io.block_size ≤ length (contents d)
    pub small : length (contents d) < 2 ^ 63

  -- How `read_block` ends where block `n` holds `block`: with these bytes, or with the exception for
  -- the call that failed or came short. The file stays as it is.
  pub data HasRead (n : ℕ) (block : Bytes) (d : D) : Outcome Buffer × D → Type 0 where
    read_whole :
        (d1 d2 : D)
        → device.seek_set io.fd (pos (n * io.block_size)) d ≡ (pos (n * io.block_size), d1)
        → device.read_bytes io.fd io.block_size d1 ≡ ((pos io.block_size, block), d2)
        → contents d2 ≡ contents d
        → HasRead n block d (ok block, d2)
    read_nowhere :
        (d1 : D)
        → device.seek_set io.fd (pos (n * io.block_size)) d ≡ (minus_one, d1)
        → contents d1 ≡ contents d
        → HasRead n block d (throws (htmpfs_error cannot_lseek_device), d1)
    read_short :
        (got : ℤ) (bytes : Bytes) (d1 d2 : D)
        → device.seek_set io.fd (pos (n * io.block_size)) d ≡ (pos (n * io.block_size), d1)
        → device.read_bytes io.fd io.block_size d1 ≡ ((got, bytes), d2)
        → IsShort io.block_size got
        → contents d2 ≡ contents d
        → HasRead n block d (throws (htmpfs_error block_short_ops), d2)

  -- How `write_block` of `buffer` ends: the block holds its bytes; or the exception for the call that
  -- failed or came short, and no byte outside the block is another.
  pub data HasWritten (n : ℕ) (buffer : Buffer) (d : D) : Outcome (Unit {0}) × D → Type 0 where
    written_whole :
        (d1 d2 : D)
        → device.seek_set io.fd (pos (n * io.block_size)) d ≡ (pos (n * io.block_size), d1)
        → device.write_bytes io.fd buffer d1 ≡ (pos io.block_size, d2)
        → contents d2 ≡ overwrite (n * io.block_size) buffer (contents d)
        → HasWritten n buffer d (ok tt, d2)
    written_nowhere :
        (d1 : D)
        → device.seek_set io.fd (pos (n * io.block_size)) d ≡ (minus_one, d1)
        → contents d1 ≡ contents d
        → HasWritten n buffer d (throws (htmpfs_error cannot_lseek_device), d1)
    written_short :
        (done : ℤ) (put : Bytes) (d1 d2 : D)
        → device.seek_set io.fd (pos (n * io.block_size)) d ≡ (pos (n * io.block_size), d1)
        → device.write_bytes io.fd buffer d1 ≡ (done, d2)
        → IsShort io.block_size done
        → length put ≤ io.block_size
        → contents d2 ≡ overwrite (n * io.block_size) put (contents d)
        → HasWritten n buffer d (throws (htmpfs_error block_short_ops), d2)

  pub in_count : (n : ℕ) (d : D) → IsInside n d → ltb io.block_count n ≡ false
  in_count n d w = ground (arith, w.counted)

  pub at_offset :
      (n : ℕ) (d : D) → IsInside n d → to_off (mul64 n io.block_size) ≡ pos (n * io.block_size)
  at_offset n d w = to_off-small (n * io.block_size) (omega (arith, w.inside, w.small))

  pub small_block : (n : ℕ) (d : D) → IsInside n d → io.block_size < 2 ^ 63
  small_block n d w = omega (arith, w.inside, w.small)
