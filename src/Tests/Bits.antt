-- ===== src/Tests/Bits.antt =====
-- A bit set in a bitmap of two blocks (src/htmpfs/bitmap_t.cpp).
use htmpfs.Prelude.{◌≡◌, refl, Bool, true, if◌then◌else◌, ◌==◌, [], ◌∷◌, arith}
use htmpfs.Prelude.Map
use htmpfs.Prelude.Map.{id_key}
use htmpfs.Errors.{ok}
use htmpfs.Bitmap.{Bitmap, set_bit_in_map, get_bit_in_map}
use htmpfs.Bitmap.Laws.{Lies, get_bit_in_map-set_bit_in_map}
use htmpfs.Buffer.{Buffer}
use htmpfs.Pool.{Pool}

abbrev low : Buffer
low = 1 ∷ 2 ∷ 3 ∷ 4 ∷ []

abbrev high : Buffer
high = 5 ∷ 6 ∷ 7 ∷ 8 ∷ []

abbrev pool : Pool
pool = record {
  max_size = 1000;
  packs =
      (4, record { link_count = 1; buffer = high })
      ∷ (3, record { link_count = 1; buffer = low })
      ∷ [];
}

abbrev bits : Bitmap
bits = record { bitmap_length = 64; starting_buffer_id = 3 }

ten-Lies : Lies 4 bits 10 pool low
unfolding Map.find
ten-Lies = record { found = refl; inside = omega arith; small = omega arith; is_byte = omega arith }

forty-Lies : Lies 4 bits 40 pool high
unfolding Map.find
forty-Lies = record {
  found = refl;
  inside = omega arith;
  small = omega arith;
  is_byte = omega arith;
}

get_bit_in_map-set_bit_in_map_example :
    (q : Pool) × (old : Bool) × (set_bit_in_map 4 bits 10 true pool ≡ (ok tt, q))
    × (get_bit_in_map 4 bits 40 pool ≡ (ok old, pool))
    × (get_bit_in_map 4 bits 40 q ≡ (ok (if 40 == 10 then true else old), q))
get_bit_in_map-set_bit_in_map_example =
    get_bit_in_map-set_bit_in_map 4 bits 10 40 true pool low high (omega arith) (omega arith)
      (omega arith) ten-Lies forty-Lies
