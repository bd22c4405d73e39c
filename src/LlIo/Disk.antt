-- ===== src/LlIo/Disk.antt =====
-- What the C library documents of `lseek`, `read` and `write` on an open file, which
-- src/disk_ops/ll_io.cpp relies on: a call fails, or moves some of the bytes it was asked to.
use htmpfs.Prelude.{ℕ, ◌+◌, ◌^◌, ◌<◌, ◌≤◌, ◌≡◌, length, take, drop, overwrite}
use htmpfs.Prelude.Bytes.{Bytes}
use htmpfs.Prelude.Int.{ℤ, pos}
use htmpfs.LlIo.{Device, minus_one}

module _ {D : Type 0} (position : D → ℕ) (contents : D → Bytes) where
  -- `lseek(fd, offset, SEEK_SET)`: the new offset, or -1 (EINVAL where the device has no such offset,
  -- ESPIPE).
  pub data Sought (offset : ℕ) (d : D) : ℤ × D → Type 0 where
    reached :
        (d' : D)
        → position d' ≡ offset
        → contents d' ≡ contents d
        → Sought offset d (pos offset, d')
    sought_nothing : (d' : D) → contents d' ≡ contents d → Sought offset d (minus_one, d')

  -- `read(fd, buffer, n)`: as many of the bytes from the position on as it says, at most `n`, or -1
  -- (EIO; EINVAL under O_DIRECT where the address, the length or the position is not aligned).
  pub data Fetched (n : ℕ) (d : D) : (ℤ × Bytes) × D → Type 0 where
    fetched :
        (k : ℕ) (d' : D)
        → k ≤ n
        → length (take k (drop (position d) (contents d))) ≡ k
        → contents d' ≡ contents d
        → Fetched n d ((pos k, take k (drop (position d) (contents d))), d')
    fetched_nothing :
        (garbage : Bytes) (d' : D)
        → contents d' ≡ contents d
        → Fetched n d ((minus_one, garbage), d')

  -- `write(fd, bytes, length)`: it stored as many of the bytes as it says; or -1, after which the range
  -- may hold anything (as documented for O_DIRECT) and the rest of the file is as it was.
  pub data Stored (bytes : Bytes) (d : D) : ℤ × D → Type 0 where
    stored :
        (k : ℕ) (d' : D)
        → k ≤ length bytes
        → contents d' ≡ overwrite (position d) (take k bytes) (contents d)
        → Stored bytes d (pos k, d')
    stored_badly :
        (garbage : Bytes) (d' : D)
        → length garbage ≤ length bytes
        → contents d' ≡ overwrite (position d) garbage (contents d)
        → Stored bytes d (minus_one, d')

-- The calls on the file that `fd` is open on. Offsets and lengths are those that `off_t` and `ssize_t`
-- hold, and a range to write lies inside the file.
pub record IsDisk {D : Type 0} (device : Device D) (fd : ℤ) (position : D → ℕ)
    (contents : D → Bytes) : Type 0 where
  pub seeks :
      (offset : ℕ) (d : D)
      → offset < 2 ^ 63
      → Sought position contents offset d (device.seek_set fd (pos offset) d)
  pub reads :
      (n : ℕ) (d : D) → n < 2 ^ 63 → Fetched position contents n d (device.read_bytes fd n d)
  pub writes :
      (bytes : Bytes) (d : D)
      → position d + length bytes ≤ length (contents d)
      → length (contents d) < 2 ^ 63
      → Stored position contents bytes d (device.write_bytes fd bytes d)
