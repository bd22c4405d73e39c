-- ===== src/Bitmap.antt =====
-- `bitmap_t` (src/include/htmpfs/bitmap_t.h, src/htmpfs/bitmap_t.cpp): bits in the blocks of the
-- buffer pool.
pub mod Bits
pub mod Laws
use Prim.Native.Nat.{bit_and, bit_or}
use htmpfs.Prelude.{
  ℕ, ◌+◌, ◌-◌, ◌*◌, ◌/◌, ◌%◌, ◌^◌, Bool, false, not, [], ◌∷◌, ◌==◌, if◌then◌else◌, add64,
}
use htmpfs.Prelude.Bytes.{Bytes}
use htmpfs.Errors.{Outcome, ok, undefined}
use htmpfs.Exec.{Exec, pure, lift, ◌>>=◌, ◌>>◌}
use htmpfs.Buffer
use htmpfs.Pool.{Pool, get_buffer_by_id, load, store}

-- `(uint8_t)0x01 << bit_offset`, kept in a `uint8_t`.
abbrev pub comp : ℕ → ℕ
comp bit_offset = 2 ^ bit_offset % 256

-- `set_bit_of(val8, bit_offset)`
unfoldable pub set_bit_of : ℕ → ℕ → ℕ
set_bit_of val8 bit_offset = bit_or val8 (comp bit_offset)

-- `remove_bit_of(val8, bit_offset)`
unfoldable pub remove_bit_of : ℕ → ℕ → ℕ
remove_bit_of val8 bit_offset = bit_and val8 (255 - comp bit_offset)

-- `get_bit_of(val8, bit_offset)`
unfoldable pub get_bit_of : ℕ → ℕ → Bool
get_bit_of val8 bit_offset = not (bit_and (comp bit_offset) val8 == 0)

-- The class, but for the pointer to the filesystem, whose pool is the state.
pub record Bitmap : Type 0 where
  pub bitmap_length : ℕ
  pub starting_buffer_id : ℕ

-- `byte`, after `read` stored at most one byte in it: where it stored none, it has no value.
abbrev pub byte_of : Bytes → Outcome ℕ
byte_of [] = undefined
byte_of (b ∷ bs) = ok b

-- `byte_loc_in_block`
abbrev pub byte_loc_in_block : ℕ → Bitmap → ℕ → ℕ
byte_loc_in_block block_size map location = add64 (location / 8 / block_size) map.starting_buffer_id

-- `byte_off_in_block`
abbrev pub byte_off_in_block : ℕ → ℕ → ℕ
byte_off_in_block block_size location = location / 8 % block_size

abbrev pub change_bit : Bool → ℕ → ℕ → ℕ
change_bit bit byte bit_offset =
    if bit then set_bit_of byte bit_offset else remove_bit_of byte bit_offset

-- `set_bit_in_map(location, bit)`, in a filesystem whose block size is not 0. The methods of the
-- class do not look at `bitmap_length`.
unfoldable pub set_bit_in_map : ℕ → Bitmap → ℕ → Bool → Exec Pool (Unit {0})
set_bit_in_map block_size map location bit = do
  buffer ← get_buffer_by_id (byte_loc_in_block block_size map location)
  data' ← load buffer
  byte ← lift (byte_of (Buffer.read data' 1 (byte_off_in_block block_size location)))
  let changed = change_bit bit byte (location % 8)
  store buffer (Buffer.write data' (changed ∷ []) 1 (byte_off_in_block block_size location) false).1

-- `get_bit_in_map(location)`
unfoldable pub get_bit_in_map : ℕ → Bitmap → ℕ → Exec Pool Bool
get_bit_in_map block_size map location = do
  buffer ← get_buffer_by_id (byte_loc_in_block block_size map location)
  data' ← load buffer
  byte ← lift (byte_of (Buffer.read data' 1 (byte_off_in_block block_size location)))
  pure (get_bit_of byte (location % 8))
