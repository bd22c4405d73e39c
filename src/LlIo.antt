-- ===== src/LlIo.antt =====
-- `ll_io` and `ll_io_blockized` (src/include/ll_io/ll_io.h, src/disk_ops/ll_io.cpp): blocks of a
-- device. What the operating system does is a parameter, `Device`, over a state of its own.
pub mod Disk
pub mod Ends
pub mod Laws
pub mod Reading
pub mod Steps
use Prim.Native.Nat.{bit_or}
use htmpfs.Prelude.{
  ℕ, zero, suc, ◌-◌, ◌/◌, ◌%◌, ◌^◌, Bool, true, false, length, ltb, ◌==◌, if◌then◌else◌, u64_mod,
  mul64,
}
use htmpfs.Prelude.Bytes.{Bytes}
use htmpfs.Prelude.Int.{ℤ, pos, negsuc}
use htmpfs.Errors.{
  Outcome, ok, undefined, cannot_open_device, cannot_lseek_device, meet_device_boundary,
  block_short_ops,
}
use htmpfs.Exec.{Exec, pure, raise, lift, ◌>>=◌, ◌>>◌}
use htmpfs.Buffer
use htmpfs.Buffer.{Buffer}

-- `open` with its flags, `lseek` to the end and to an offset, `read`, `write` and `close` of the C
-- library. `read` gives the bytes that it stored beside what it returns.
pub record Device (D : Type 0) : Type 0 where
  pub open_device : Bytes → ℕ → D → ℤ × D
  pub seek_end : ℤ → D → ℤ × D
  pub seek_set : ℤ → ℤ → D → ℤ × D
  pub read_bytes : ℤ → ℕ → D → (ℤ × Bytes) × D
  pub write_bytes : ℤ → Bytes → D → ℤ × D
  pub close_device : ℤ → D → D

-- The cast of a `uint64_t` to `off_t`.
abbrev pub to_off : ℕ → ℤ
to_off n = let w = n % u64_mod in if ltb w (2 ^ 63) then pos w else negsuc (u64_mod - w - 1)

-- The conversion of an `off_t` to `uint64_t`.
abbrev pub to_u64 : ℤ → ℕ
to_u64 (pos n) = n % u64_mod
to_u64 (negsuc n) = u64_mod - 1 - n % u64_mod

-- `==` of two `off_t`.
abbrev pub same_off : ℤ → ℤ → Bool
same_off (pos a) (pos b) = a == b
same_off (negsuc a) (negsuc b) = a == b
same_off (pos a) (negsuc b) = false
same_off (negsuc a) (pos b) = false

abbrev pub minus_one : ℤ
minus_one = negsuc 0

-- The flags of `open` that <fcntl.h> of Linux on x86 gives the source.
abbrev pub o_rdwr : ℕ
o_rdwr = 2

abbrev pub o_direct : ℕ
o_direct = 0x4000

-- The members of both classes.
pub record LlIo : Type 0 where
  pub fd : ℤ
  pub dev_len : ℤ
  pub block_size : ℕ
  pub block_count : ℕ

module _ {D : Type 0} (device : Device D) where
  abbrev call : {A : Type 0} → A × D → Outcome A × D
  call (a, d) = (ok a, d)

  -- `ll_io::open(pathname)`: what it stores in `fd` and `dev_len`.
  unfoldable pub open_ : Bytes → Exec D (ℤ × ℤ)
  open_ pathname = do
    fd ← λ d. call (device.open_device pathname (bit_or o_rdwr o_direct) d)
    if same_off fd minus_one then raise cannot_open_device else (do
      dev_len ← λ d. call (device.seek_end fd d)
      if same_off dev_len minus_one then raise cannot_lseek_device else pure (fd, dev_len))

  -- `ll_io::read(buffer, length, offset)`
  unfoldable pub read : LlIo → ℕ → ℤ → Exec D (ℤ × Bytes)
  read io len offset = do
    reached ← λ d. call (device.seek_set io.fd offset d)
    if same_off reached offset
        then (λ d. call (device.read_bytes io.fd len d))
        else raise cannot_lseek_device

  -- `ll_io::write(buffer, length, offset)`, of an array of that length.
  unfoldable pub write : LlIo → Bytes → ℤ → Exec D ℤ
  write io buffer offset = do
    reached ← λ d. call (device.seek_set io.fd offset d)
    if same_off reached offset
        then (λ d. call (device.write_bytes io.fd buffer d))
        else raise cannot_lseek_device

  -- `ll_io_blockized(pathname, block_size)`, with a block size that is not 0.
  unfoldable pub new : Bytes → ℕ → Exec D LlIo
  new pathname block_size = do
    (fd, dev_len) ← open_ pathname
    pure (record {
      fd = fd;
      dev_len = dev_len;
      block_size = block_size;
      block_count = to_u64 dev_len / block_size;
    })

  -- `ll_io::close()`, which the destructor calls.
  abbrev pub close : LlIo → Exec D (Unit {0})
  close io d = (ok tt, device.close_device io.fd d)

  -- `VERIFY_DATA_OPS_LEN`
  abbrev pub verify : ℤ → ℕ → Exec D (Unit {0})
  verify done len = if to_u64 done == len then pure tt else raise block_short_ops

  -- `read_block(buffer, block_num)`: the buffer that it leaves.
  unfoldable pub read_block : LlIo → Buffer → ℕ → Exec D Buffer
  read_block io buffer block_num =
      if ltb io.block_count block_num then raise meet_device_boundary else (do
        (done, c_buff) ← read io io.block_size (to_off (mul64 block_num io.block_size))
        verify done io.block_size
        pure (Buffer.write buffer c_buff io.block_size 0 true).1)

  -- The array that `write_block` fills from the buffer; where the buffer is shorter, the rest of it
  -- has no value.
  abbrev pub filled : LlIo → Buffer → Outcome Bytes
  filled io buffer =
      let c_buff = Buffer.read buffer io.block_size 0 in
      if length c_buff == io.block_size then ok c_buff else undefined

  -- `write_block(buffer, block_num)`
  unfoldable pub write_block : LlIo → Buffer → ℕ → Exec D (Unit {0})
  write_block io buffer block_num =
      if ltb io.block_count block_num then raise meet_device_boundary else (do
        c_buff ← lift (filled io buffer)
        done ← write io c_buff (to_off (mul64 block_num io.block_size))
        verify done io.block_size)
