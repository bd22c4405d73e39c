-- ===== src/Tests/Buffers.antt =====
-- Instances of the theorems on buffers (src/htmpfs/buffer_t.cpp).
use htmpfs.Prelude.{◌≡◌, true, false, [], ◌∷◌, arith, resize, overwrite}
use htmpfs.Buffer.{Buffer, new, read, write, truncate}
use htmpfs.Buffer.Content.{new-take, read-slice, write-resize, write-overwrite, truncate-resize}

abbrev five : Buffer
five = 1 ∷ 2 ∷ 3 ∷ 4 ∷ 5 ∷ []

new-take_example : new five 3 ≡ 1 ∷ 2 ∷ 3 ∷ []
new-take_example = new-take five 3 (omega arith)

read-slice_example : read five 4 3 ≡ 4 ∷ 5 ∷ []
read-slice_example = read-slice five 4 3 (omega arith)

write-resize_example : write five (8 ∷ 9 ∷ []) 2 1 true ≡ (2, 1 ∷ 8 ∷ 9 ∷ [])
unfolding resize
write-resize_example = write-resize five (8 ∷ 9 ∷ []) 2 1 (omega arith) (omega arith)

write-overwrite_example : write five (8 ∷ 9 ∷ []) 2 4 false ≡ (1, 1 ∷ 2 ∷ 3 ∷ 4 ∷ 8 ∷ [])
unfolding overwrite
write-overwrite_example = write-overwrite five (8 ∷ 9 ∷ []) 2 4 (omega arith) (omega arith)

truncate-resize_example : truncate 7 five ≡ 1 ∷ 2 ∷ 3 ∷ 4 ∷ 5 ∷ 0 ∷ 0 ∷ []
unfolding resize
truncate-resize_example = truncate-resize 7 five
