-- ===== src/Bitmap/Bits.antt =====
-- The bits of one byte (src/include/htmpfs/bitmap_t.h), checked for every byte.
use htmpfs.Prelude.{
  ℕ, zero, suc, ◌<◌, ◌≡◌, refl, Bool, true, false, not, ◌&&◌, arith, ◌==◌, ltb, if◌then◌else◌,
}
use htmpfs.Bitmap.{set_bit_of, remove_bit_of, get_bit_of, change_bit}

-- A test that holds below a number.
holds_below : ℕ → (ℕ → Bool) → Bool
holds_below zero test = true
holds_below (suc n) test = test n && holds_below n test

holds_below-holds :
    (n : ℕ) (test : ℕ → Bool) (x : ℕ) → holds_below n test ≡ true → x < n → test x ≡ true
unfolding holds_below
holds_below-holds zero test x h below = absurd (omega arith)
holds_below-holds (suc n) test x h below = ground (arith, holds_below-holds n test x)

abbrev agree : Bool → Bool → Bool
agree a b = if a then b else not b

-- The bit at `k` after a change of the bit at `o`, and the byte still a byte.
abbrev changes : Bool → ℕ → ℕ → ℕ → Bool
changes bit o k v =
    agree (get_bit_of (change_bit bit v o) k) (if k == o then bit else get_bit_of v k)
    && ltb (change_bit bit v o) 256

abbrev table : Bool → Bool
table bit = holds_below 8 λ o. holds_below 8 λ k. holds_below 256 λ v. changes bit o k v

set_table : table true ≡ true
unfolding holds_below set_bit_of get_bit_of
set_table = refl

remove_table : table false ≡ true
unfolding holds_below remove_bit_of get_bit_of
remove_table = refl

table-holds : (bit : Bool) → table bit ≡ true
table-holds true = set_table
table-holds false = remove_table

-- Changing a bit of a byte gives a byte with that bit, and with every other bit as it was.
pub get_bit_of-change_bit :
    (bit : Bool) (o k v : ℕ)
    → o < 8
    → k < 8
    → v < 256
    → (get_bit_of (change_bit bit v o) k ≡ (if k == o then bit else get_bit_of v k))
      × (change_bit bit v o < 256)
get_bit_of-change_bit bit o k v h1 h2 h3 =
    let row =
      holds_below-holds 8 (λ o'. holds_below 8 λ k'. holds_below 256 λ v'. changes bit o' k' v') o
        (table-holds bit) h1 in
    let cell = holds_below-holds 8 (λ k'. holds_below 256 λ v'. changes bit o k' v') k row h2 in
    let entry = holds_below-holds 256 (changes bit o k) v cell h3 in
    split_entry (get_bit_of (change_bit bit v o) k) (if k == o then bit else get_bit_of v k)
      (change_bit bit v o) entry
  where
    split_entry : (a b : Bool) (n : ℕ) → (agree a b && ltb n 256) ≡ true → (a ≡ b) × (n < 256)
    split_entry true true n h = (refl, ground (arith, h))
    split_entry true false n h = absurd (ground (arith, h))
    split_entry false true n h = absurd (ground (arith, h))
    split_entry false false n h = (refl, ground (arith, h))
