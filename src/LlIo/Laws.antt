-- ===== src/LlIo/Laws.antt =====
-- Blocks written to a device and read back (src/disk_ops/ll_io.cpp).
use htmpfs.Prelude.{
  ℕ, ◌*◌, ◌≡◌, refl, sym, ap, ◌∙◌, true, false, arith, length, length-take, take, take_all, drop,
  overwrite, ◌==◌, ==_iff, Bool-cases, inl, inr, ◌⊎◌, subst,
}
use htmpfs.Prelude.Bytes.{Bytes}
use htmpfs.Prelude.Int.{ℤ, pos}
use htmpfs.Errors.{
  ErrorCode, Outcome, ok, throws, htmpfs_error, cannot_lseek_device, block_short_ops,
}
use htmpfs.Buffer.{Buffer}
use htmpfs.LlIo.{Device, LlIo, minus_one, to_u64, read_block, write_block}
use htmpfs.LlIo.Disk.{IsDisk, Sought, reached, sought_nothing, Stored, stored, stored_badly}
use htmpfs.LlIo.Ends.{
  in_count, at_offset, small_block, IsShort, IsInside, HasRead, HasWritten, written_whole,
  written_nowhere, written_short,
}
use htmpfs.LlIo.Steps.{
  overwrite-slice, length-overwrite_lem, fits_u64, short_u64, write_reached, write_lost,
  write_block_lost, write_block_done, filled_lem,
}
use htmpfs.LlIo.Reading.{block_at, read_block_lem}

module _ {D : Type 0} (device : Device D) (io : LlIo) (position : D → ℕ) (contents : D → Bytes)
    (disk : IsDisk device io.fd position contents) where
  module _ (n : ℕ) (buffer : Buffer) (d : D) (w : IsInside device io contents n d) where
    put_at :
        (d1 d2 : D) (put : Bytes)
        → position d1 ≡ n * io.block_size
        → contents d1 ≡ contents d
        → contents d2 ≡ overwrite (position d1) put (contents d1)
        → contents d2 ≡ overwrite (n * io.block_size) put (contents d)
    put_at d1 d2 put at same e =
        e ∙ ap (λ m. overwrite m put (contents d1)) at ∙ ap (overwrite (n * io.block_size) put) same

    module _ (whole : length buffer ≡ io.block_size) where
      write_transfer :
          (d1 : D) (r : ℤ × D)
          → device.seek_set io.fd (pos (n * io.block_size)) d ≡ (pos (n * io.block_size), d1)
          → position d1 ≡ n * io.block_size
          → contents d1 ≡ contents d
          → device.write_bytes io.fd buffer d1 ≡ r
          → Stored position contents buffer d1 r
          → HasWritten device io contents n buffer d (write_block device io buffer n d)
      write_transfer d1 r e1 at same e2 (stored k d2 le put) =
          let off : ℕ = n * io.block_size in
          let ready = filled_lem device io buffer whole (small_block device io contents n d w) in
          let done = write_reached device io off buffer (pos k) d d1 d2 e1 e2 in
          elim (Bool-cases (k == io.block_size)) [
            | inl e ↦
                let full : k ≡ io.block_size = (==_iff k io.block_size).0 e in
                rw
                  (write_block_done device io n off buffer buffer (pos k) true d d2
                    (in_count device io contents n d w) ready (at_offset device io contents n d w)
                    done
                    (ap (λ m. to_u64 (pos m) == io.block_size) full
                      ∙ fits_u64 io.block_size (small_block device io contents n d w)))
                  (HasWritten.written_whole d1 d2 e1 (e2 ∙ ap {B = ℤ × D} (λ m. (pos m, d2)) full) (
                    put_at d1 d2 buffer at same (
                      put
                      ∙ ap (λ l. overwrite (position d1) l (contents d1))
                          (take_all k buffer (omega (arith, full, whole))))))
            | inr e ↦
                let less : IsShort io.block_size (pos k) =
                  IsShort.fewer k (ground (arith, le, whole)) in
                rw
                  (write_block_done device io n off buffer buffer (pos k) false d d2
                    (in_count device io contents n d w) ready (at_offset device io contents n d w)
                    done
                    (short_u64 io.block_size (pos k) (small_block device io contents n d w) less))
                  (HasWritten.written_short (pos k) (take k buffer) d1 d2 e1 e2 less
                    (omega (arith, length-take k buffer, le, whole))
                    (put_at d1 d2 (take k buffer) at same put))
          ]
      write_transfer d1 r e1 at same e2 (stored_badly garbage d2 le put) =
          rw
            (write_block_done device io n (n * io.block_size) buffer buffer minus_one false d d2
              (in_count device io contents n d w)
              (filled_lem device io buffer whole (small_block device io contents n d w))
              (at_offset device io contents n d w)
              (write_reached device io (n * io.block_size) buffer minus_one d d1 d2 e1 e2)
              (short_u64 io.block_size minus_one (small_block device io contents n d w)
                IsShort.failed))
            (HasWritten.written_short minus_one garbage d1 d2 e1 e2 IsShort.failed
              (omega (arith, le, whole)) (put_at d1 d2 garbage at same put))

      write_seek :
          (r : ℤ × D)
          → device.seek_set io.fd (pos (n * io.block_size)) d ≡ r
          → Sought position contents (n * io.block_size) d r
          → HasWritten device io contents n buffer d (write_block device io buffer n d)
      write_seek r e (reached d1 at same) = write_transfer d1 _ e at same refl (
          disk.writes buffer d1 (omega (arith, w.inside, whole, at, ap length same))
            (omega (arith, w.small, ap length same)))
      write_seek r e (sought_nothing d1 same) =
          rw
            (write_block_lost device io n (n * io.block_size) buffer buffer d d1
              (in_count device io contents n d w)
              (filled_lem device io buffer whole (small_block device io contents n d w))
              (at_offset device io contents n d w)
              (write_lost device io (n * io.block_size) buffer d d1 e))
            (HasWritten.written_nowhere d1 e same)

      write_block_lem : HasWritten device io contents n buffer d (write_block device io buffer n d)
      write_block_lem =
          write_seek _ refl (disk.seeks (n * io.block_size) d (omega (arith, w.inside, w.small)))

  -- The block after the write holds the buffer, whatever then becomes of the read.
  read_back :
      (n : ℕ) (buffer other : Buffer) (d d1 : D)
      → IsInside device io contents n d
      → length buffer ≡ io.block_size
      → contents d1 ≡ overwrite (n * io.block_size) buffer (contents d)
      → HasRead device io contents n buffer d1 (read_block device io other n d1)
  unfolding block_at
  read_back n buffer other d d1 w whole after =
      let off : ℕ = n * io.block_size in
      let size : length (contents d1) ≡ length (contents d) =
        ap length after
        ∙ length-overwrite_lem off buffer (contents d) (omega (arith, w.inside, whole)) in
      let back : take io.block_size (drop off (contents d1)) ≡ buffer =
        ap (λ l. take io.block_size (drop off l)) after
        ∙ ap (λ k. take k (drop off (overwrite off buffer (contents d)))) (sym whole)
        ∙ overwrite-slice off buffer (contents d) (omega (arith, w.inside)) in
      subst (λ l. HasRead device io contents n l d1 (read_block device io other n d1)) back
        (read_block_lem device io position contents disk n other d1 (record {
          counted = w.counted;
          inside = omega (arith, w.inside, size);
          small = omega (arith, w.small, size);
        }))

  returned :
      (n : ℕ) (buffer other : Buffer) (d : D) (r : Outcome (Unit {0}) × D)
      → IsInside device io contents n d
      → length buffer ≡ io.block_size
      → write_block device io buffer n d ≡ r
      → HasWritten device io contents n buffer d r
      → ((d1 : D) × (write_block device io buffer n d ≡ (ok tt, d1))
          × HasWritten device io contents n buffer d (ok tt, d1)
          × HasRead device io contents n buffer d1 (read_block device io other n d1))
        ⊎ ((e : ErrorCode) × (d1 : D) × (write_block device io buffer n d
              ≡ (throws (htmpfs_error e), d1))
            × HasWritten device io contents n buffer d (throws (htmpfs_error e), d1))
  returned n buffer other d r w whole e (written_whole d1 d2 e1 e2 after) = inl (
    d2,
    e,
    HasWritten.written_whole d1 d2 e1 e2 after,
    read_back n buffer other d d2 w whole after,
  )
  returned n buffer other d r w whole e (written_nowhere d1 e1 same) =
      inr (cannot_lseek_device, d1, e, HasWritten.written_nowhere d1 e1 same)
  returned n buffer other d r w whole e (written_short done put d1 d2 e1 e2 less le same) =
      inr (block_short_ops, d2, e, HasWritten.written_short done put d1 d2 e1 e2 less le same)

  -- `write_block` of a buffer as long as a block returns or throws. Where it returns, the block holds the
  -- bytes of the buffer and every other byte of the device is as it was, and `read_block` of that block,
  -- whatever buffer it is given, then gives these bytes back or throws, and leaves the device as it is.
  -- Where `write_block` throws, no byte outside the block has changed. An exception is always that of a
  -- call of the C library: HTMPFS_CANNOT_LSEEK_DEVICE where `lseek` gave -1, HTMPFS_BLOCK_SHORT_OPS where
  -- `write` or `read` gave -1 or fewer bytes than a block; so both return where the calls move whole
  -- blocks. The block is below the block count and inside the device, whose length an `off_t` holds. Of
  -- the calls it is assumed that each gives -1 or moves as many bytes as it says, at most those asked
  -- for; that `lseek` and `read` change no byte of the device, and `write` none outside its range, even
  -- where it fails (`IsDisk`). Alignment that O_DIRECT asks for shows as a call that gives -1.
  pub read_block-write_block :
      (n : ℕ) (buffer other : Buffer) (d : D)
      → IsInside device io contents n d
      → length buffer ≡ io.block_size
      → ((d1 : D) × (write_block device io buffer n d ≡ (ok tt, d1))
          × HasWritten device io contents n buffer d (ok tt, d1)
          × HasRead device io contents n buffer d1 (read_block device io other n d1))
        ⊎ ((e : ErrorCode) × (d1 : D) × (write_block device io buffer n d
              ≡ (throws (htmpfs_error e), d1))
            × HasWritten device io contents n buffer d (throws (htmpfs_error e), d1))
  read_block-write_block n buffer other d w whole =
      returned n buffer other d _ w whole refl (write_block_lem n buffer d w whole)
