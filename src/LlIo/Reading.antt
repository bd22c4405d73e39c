-- ===== src/LlIo/Reading.antt =====
-- How `read_block` of src/disk_ops/ll_io.cpp ends, by what the calls under it give.
use htmpfs.Prelude.{
  ℕ, ◌*◌, ◌≡◌, refl, ap, ◌∙◌, true, false, arith, take, drop, ◌==◌, ==_iff, Bool-cases, inl, inr,
}
use htmpfs.Prelude.Bytes.{Bytes}
use htmpfs.Prelude.Int.{ℤ, pos}
use htmpfs.Buffer.{Buffer}
use htmpfs.LlIo.{Device, LlIo, minus_one, to_u64, read_block}
use htmpfs.LlIo.Disk.{IsDisk, Sought, reached, sought_nothing, Fetched, fetched, fetched_nothing}
use htmpfs.LlIo.Ends.{in_count, at_offset, small_block, IsShort, IsInside, HasRead}
use htmpfs.LlIo.Steps.{
  fits_u64, short_u64, read_reached, read_lost, read_block_lost, read_block_got, kept_bytes,
}

module _ {D : Type 0} (device : Device D) (io : LlIo) (position : D → ℕ) (contents : D → Bytes)
    (disk : IsDisk device io.fd position contents) where
  unfoldable pub block_at : ℕ → D → Bytes
  block_at n d = take io.block_size (drop (n * io.block_size) (contents d))

  module _ (n : ℕ) (buffer : Buffer) (d : D) (w : IsInside device io contents n d) where
    read_transfer :
        (d1 : D) (r : (ℤ × Bytes) × D)
        → device.seek_set io.fd (pos (n * io.block_size)) d ≡ (pos (n * io.block_size), d1)
        → position d1 ≡ n * io.block_size
        → contents d1 ≡ contents d
        → device.read_bytes io.fd io.block_size d1 ≡ r
        → Fetched position contents io.block_size d1 r
        → HasRead device io contents n (block_at n d) d (read_block device io buffer n d)
    unfolding block_at
    read_transfer d1 r e1 at same e2 (fetched k d2 le count same2) =
        let off : ℕ = n * io.block_size in
        let bytes : Bytes = take k (drop (position d1) (contents d1)) in
        let got = read_reached device io io.block_size off (pos k, bytes) d d1 d2 e1 e2 in
        elim (Bool-cases (k == io.block_size)) [
          | inl e ↦
              let full : k ≡ io.block_size = (==_iff k io.block_size).0 e in
              let same_bytes : bytes ≡ take io.block_size (drop off (contents d)) =
                ap (λ m. take m (drop (position d1) (contents d1))) full
                ∙ ap (λ m. take io.block_size (drop m (contents d1))) at
                ∙ ap (λ l. take io.block_size (drop off l)) same in
              rw
                (
                  read_block_got device io n off buffer bytes (pos k) true d d2
                      (in_count device io contents n d w) (at_offset device io contents n d w) got
                      (ap (λ m. to_u64 (pos m) == io.block_size) full
                        ∙ fits_u64 io.block_size (small_block device io contents n d w)),
                  kept_bytes device io buffer bytes (count ∙ full)
                      (small_block device io contents n d w),
                  same_bytes,
                )
                (HasRead.read_whole d1 d2 e1
                  (e2
                    ∙ ap {B = (ℤ × Bytes) × D} (λ m. ((pos m, bytes), d2)) full
                    ∙ ap {B = (ℤ × Bytes) × D} (λ l. ((pos io.block_size, l), d2)) same_bytes)
                  (same2 ∙ same))
          | inr e ↦
              let less : IsShort io.block_size (pos k) = IsShort.fewer k (ground arith) in
              rw
                (read_block_got device io n off buffer bytes (pos k) false d d2
                  (in_count device io contents n d w) (at_offset device io contents n d w) got
                  (short_u64 io.block_size (pos k) (small_block device io contents n d w) less))
                (HasRead.read_short (pos k) bytes d1 d2 e1 e2 less (same2 ∙ same))
        ]
    read_transfer d1 r e1 at same e2 (fetched_nothing garbage d2 same2) =
        rw
          (read_block_got device io n (n * io.block_size) buffer garbage minus_one false d d2
            (in_count device io contents n d w) (at_offset device io contents n d w)
            (read_reached device io io.block_size (n * io.block_size) (minus_one, garbage) d d1 d2
              e1 e2)
            (short_u64 io.block_size minus_one (small_block device io contents n d w)
              IsShort.failed))
          (HasRead.read_short minus_one garbage d1 d2 e1 e2 IsShort.failed (same2 ∙ same))

    read_seek :
        (r : ℤ × D)
        → device.seek_set io.fd (pos (n * io.block_size)) d ≡ r
        → Sought position contents (n * io.block_size) d r
        → HasRead device io contents n (block_at n d) d (read_block device io buffer n d)
    read_seek r e (reached d1 at same) =
        read_transfer d1 _ e at same refl
          (disk.reads io.block_size d1 (small_block device io contents n d w))
    read_seek r e (sought_nothing d1 same) =
        rw
          (read_block_lost device io n (n * io.block_size) buffer d d1
            (in_count device io contents n d w) (at_offset device io contents n d w)
            (read_lost device io io.block_size (n * io.block_size) d d1 e))
          (HasRead.read_nowhere d1 e same)

    pub read_block_lem :
        HasRead device io contents n (block_at n d) d (read_block device io buffer n d)
    read_block_lem =
        read_seek _ refl (disk.seeks (n * io.block_size) d (omega (arith, w.inside, w.small)))
