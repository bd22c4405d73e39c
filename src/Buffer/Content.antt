-- ===== src/Buffer/Content.antt =====
-- What the loops of buffer_t.cpp compute: slices, paddings and overwritings of the byte vector.
use htmpfs.Prelude.{
  ℕ, zero, suc, ◌+◌, ◌-◌, ◌<◌, ◌≤◌, min, ◌≡◌, refl, sym, ap, ◌∙◌, true, false, List, [], ◌∷◌, ◌++◌,
  append-nil, append_assoc, arith, length, length-take, length-pop_back, pop_back, get_or, set,
  take, drop, replicate, take_all, take_clamp, resize_grow, resize_shrink, drop_all, drop-get_or,
  take-set, drop-set, length-set, take-append-drop, length-drop, pop_back-take, take-take, resize,
  overwrite, length-resize, take-resize, add64, u64_mod, Bool-cases, inl, inr, ltb,
}
use htmpfs.Prelude.Bytes.{Bytes}
use htmpfs.Buffer.{
  Buffer, append_zeros, pop_times, copy_out, copy_in, clip, read, fit, write, truncate, new,
  new_loop,
}

append_zeros-replicate : (n : ℕ) (data' : Buffer) → append_zeros n data' ≡ data' ++ replicate n 0
unfolding append_zeros
append_zeros-replicate zero data' = sym (append-nil data')
append_zeros-replicate (suc n) data' =
    append_zeros-replicate n (data' ++ 0 ∷ []) ∙ append_assoc data' (0 ∷ []) (replicate n 0)

pop_times-take : (n : ℕ) (data' : Buffer) → pop_times n data' ≡ take (length data' - n) data'
unfolding pop_times
pop_times-take zero data' = sym (take_all (length data' - 0) data' (omega arith))
pop_times-take (suc n) data' =
    pop_times-take n (pop_back data')
    ∙ ap (take (length (pop_back data') - n)) (pop_back-take data')
    ∙ take-take (length (pop_back data') - n) (length data' - 1) data'
        (omega (arith, length-pop_back data'))
    ∙ ap (λ k. take k data') {x = length (pop_back data') - n} {y = length data' - suc n}
        (omega (arith, length-pop_back data'))

copy_out-slice :
    (data' : Buffer) (offset i n : ℕ)
    → i + offset + n ≤ length data'
    → copy_out data' offset i n ≡ take n (drop (i + offset) data')
unfolding copy_out
copy_out-slice data' offset i zero h = refl
copy_out-slice data' offset i (suc n) h =
    ap (get_or data' (i + offset) 0 ∷◌) (
      copy_out-slice data' offset (i + 1) n (omega arith)
      ∙ ap (λ k. take n (drop k data')) {x = i + 1 + offset} {y = i + offset + 1} (omega arith))
    ∙ ap (take (suc n)) (sym (drop-get_or (i + offset) data' 0 (omega arith)))

copy_in-overwrite :
    (buffer : Bytes) (offset i n : ℕ) (data' : Buffer)
    → offset + i + n ≤ length data'
    → i + n ≤ length buffer
    → copy_in buffer offset i n data'
      ≡ take (offset + i) data' ++ (take n (drop i buffer) ++ drop (offset + i + n) data')
unfolding copy_in
copy_in-overwrite buffer offset i zero data' h k =
    sym (take-append-drop (offset + i) data')
    ∙ ap (λ j. take (offset + i) data' ++ drop j data') {x = offset + i} {y = offset + i + 0}
        (omega arith)
copy_in-overwrite buffer offset i (suc n) data' h k =
    copy_in-overwrite buffer offset (i + 1) n data''
      (omega (arith, length-set data' (offset + i) byte)) (omega arith)
    ∙ ap (λ j. take j data'' ++ (take n (drop (i + 1) buffer) ++ drop (j + n) data''))
        {x = offset + (i + 1)} {y = offset + i + 1} (omega arith)
    ∙ ap (λ l. l ++ (take n (drop (i + 1) buffer) ++ drop (offset + i + 1 + n) data''))
        (take-set (offset + i) data' byte (omega arith))
    ∙ append_assoc (take (offset + i) data') (byte ∷ [])
        (take n (drop (i + 1) buffer) ++ drop (offset + i + 1 + n) data'')
    ∙ ap (λ l. take (offset + i) data' ++ byte ∷ (take n (drop (i + 1) buffer) ++ l))
        (drop-set (offset + i) (offset + i + 1 + n) data' byte (omega arith))
    ∙ ap (λ j. take (offset + i) data' ++ byte ∷ (take n (drop (i + 1) buffer) ++ drop j data'))
        {x = offset + i + 1 + n} {y = offset + i + suc n} (omega arith)
    ∙ ap (λ l. take (offset + i) data' ++ (take (suc n) l ++ drop (offset + i + suc n) data'))
        (sym (drop-get_or i buffer 0 (omega arith)))
  where
    byte : ℕ
    byte = get_or buffer i 0

    data'' : Buffer
    data'' = set data' (offset + i) byte

new_loop-append :
    (bytes : Bytes) (i n : ℕ) (data' : Buffer)
    → i + n ≤ length bytes
    → new_loop bytes i n data' ≡ data' ++ take n (drop i bytes)
unfolding new_loop
new_loop-append bytes i zero data' h = sym (append-nil data')
new_loop-append bytes i (suc n) data' h =
    new_loop-append bytes (i + 1) n (data' ++ get_or bytes i 0 ∷ []) (omega arith)
    ∙ append_assoc data' (get_or bytes i 0 ∷ []) (take n (drop (i + 1) bytes))
    ∙ ap (λ l. data' ++ take (suc n) l) (sym (drop-get_or i bytes 0 (omega arith)))

-- `buffer_t(new_data, length)` holds the first `length` bytes of an array that has so many.
pub new-take : (bytes : Bytes) (n : ℕ) → n ≤ length bytes → new bytes n ≡ take n bytes
unfolding new
new-take bytes n h = new_loop-append bytes 0 n [] (omega arith)

clip-min :
    (data' : Buffer) (len offset : ℕ)
    → len + offset < u64_mod
    → clip data' len offset ≡ min len (length data' - offset)
unfolding clip
clip-min data' len offset h = ground arith

-- `read` stores exactly the bytes of the buffer from `offset` on, at most `length` of them, as long
-- as `length + offset` does not wrap.
pub read-slice :
    (data' : Buffer) (len offset : ℕ)
    → len + offset < u64_mod
    → read data' len offset ≡ take len (drop offset data')
unfolding read copy_out
read-slice data' len offset h =
    ap (copy_out data' offset 0) (clip-min data' len offset h)
    ∙ clipped (min len (length data' - offset)) (omega arith)
  where
    clipped :
        (n : ℕ)
        → n ≡ min len (length data' - offset)
        → copy_out data' offset 0 n ≡ take len (drop offset data')
    clipped zero e = take_clamp len 0 (drop offset data') (omega (arith, length-drop offset data'))
    clipped (suc n) e =
        copy_out-slice data' offset 0 (suc n) (omega arith)
        ∙ ap (λ k. take (suc n) (drop k data')) {x = 0 + offset} {y = offset} (omega arith)
        ∙ take_clamp len (suc n) (drop offset data') (omega (arith, length-drop offset data'))

fit-resize : (n : ℕ) (data' : Buffer) → fit n data' ≡ resize 0 n data'
unfolding fit
fit-resize n data' = elim (Bool-cases (ltb (length data') n)) [
  | inl grow ↦
      rw (grow, resize_grow 0 n data' (ground arith))
        (append_zeros-replicate (n - length data') data')
  | inr cut ↦
      rw (cut, resize_shrink 0 n data' (ground arith))
        (pop_times-take (length data' - n) data'
          ∙ ap (λ k. take k data') {x = length data' - (length data' - n)} {y = n} (ground arith))
]

-- `truncate` cuts the buffer to `length` bytes, or fills it up with zeros to that size.
pub truncate-resize : (n : ℕ) (data' : Buffer) → truncate n data' ≡ resize 0 n data'
unfolding truncate
truncate-resize n data' = elim (Bool-cases (ltb (length data') n)) [
  | inl grow ↦
      rw (grow, resize_grow 0 n data' (ground arith))
        (append_zeros-replicate (n - length data') data')
  | inr keep ↦ rw keep (elim (Bool-cases (ltb n (length data'))) [
    | inl cut ↦
        rw (cut, resize_shrink 0 n data' (ground arith))
          (pop_times-take (length data' - n) data'
            ∙ ap (λ k. take k data') {x = length data' - (length data' - n)} {y = n} (ground arith))
    | inr same ↦
        rw (same, resize_shrink 0 n data' (ground arith)) (sym (take_all n data' (ground arith)))
  ])
]

copy_none :
    (buffer : Bytes) (offset : ℕ) (data' : Buffer)
    → copy_in buffer offset 0 0 data' ≡ overwrite offset (take 0 buffer) data'
unfolding copy_in overwrite
copy_none buffer offset data' =
    sym (take-append-drop offset data')
    ∙ ap (λ j. take offset data' ++ drop j data') {x = offset} {y = offset + 0} (omega arith)

copy_in-all :
    (buffer : Bytes) (offset n : ℕ) (data' : Buffer)
    → offset + n ≤ length data'
    → n ≤ length buffer
    → copy_in buffer offset 0 n data' ≡ overwrite offset (take n buffer) data'
unfolding overwrite
copy_in-all buffer offset n data' h k =
    copy_in-overwrite buffer offset 0 n data' (omega arith) (omega arith)
    ∙ ap (λ j. take j data' ++ (take n buffer ++ drop (j + n) data')) {x = offset + 0} {y = offset}
        (omega arith)
    ∙ ap (λ j. take offset data' ++ (take n buffer ++ drop j data')) {x = offset + n}
        {y = offset + length (take n buffer)} (omega (arith, length-take n buffer))

overwrite_end :
    (data' : Buffer) (buffer : Bytes) (len offset : ℕ)
    → len ≤ length buffer
    → overwrite offset (take len buffer) (resize 0 (offset + len) data')
      ≡ resize 0 offset data' ++ take len buffer
unfolding overwrite
overwrite_end data' buffer len offset h =
    let full : List ℕ = resize 0 (offset + len) data' in
    ap (λ l. l ++ (take len buffer ++ drop (offset + length (take len buffer)) full))
      (take-resize 0 offset (offset + len) data' (omega arith))
    ∙ ap (λ l. resize 0 offset data' ++ (take len buffer ++ l))
        (drop_all (offset + length (take len buffer)) full
          (omega (arith, length-take len buffer, length-resize 0 (offset + len) data')))
    ∙ ap (resize 0 offset data' ++◌) (append-nil (take len buffer))

-- A resizing `write` of `length` bytes leaves the buffer `offset + length` bytes long: what lay
-- before `offset` (zeros where the buffer was shorter), then the bytes written. What lay behind is
-- cut off. It reports `length`. The array must hold `length` bytes, and the sum must not wrap.
pub write-resize :
    (data' : Buffer) (buffer : Bytes) (len offset : ℕ)
    → len ≤ length buffer
    → len + offset < u64_mod
    → write data' buffer len offset true ≡ (len, resize 0 offset data' ++ take len buffer)
unfolding write
write-resize data' buffer len offset h small =
    let full : List ℕ = resize 0 (offset + len) data' in
    ap {B = ℕ × Buffer} (λ d. (len, d))
      (ap (λ n. copy_in buffer offset 0 len (fit n data')) {x = add64 len offset} {y = offset + len}
          (omega arith)
        ∙ ap (copy_in buffer offset 0 len) (fit-resize (offset + len) data')
        ∙ copy_in-all buffer offset len full (omega (arith, length-resize 0 (offset + len) data')) h
        ∙ overwrite_end data' buffer len offset h)

-- A `write` that does not resize reports and stores the bytes that fall inside the buffer, writes
-- them over the old ones, and changes no other byte and not the size. The array must hold `length`
-- bytes, and `length + offset` must not wrap.
pub write-overwrite :
    (data' : Buffer) (buffer : Bytes) (len offset : ℕ)
    → len ≤ length buffer
    → len + offset < u64_mod
    → let n = min len (length data' - offset) in
      write data' buffer len offset false ≡ (n, overwrite offset (take n buffer) data')
unfolding write
write-overwrite data' buffer len offset h small =
    let n : ℕ = min len (length data' - offset) in
    rw (clip-min data' len offset small)
      (ap {B = ℕ × Buffer} (λ d. (n, d)) (inside n (omega arith) (omega arith)))
  where
    inside :
        (n : ℕ)
        → n ≤ length data' - offset
        → n ≤ length buffer
        → copy_in buffer offset 0 n data' ≡ overwrite offset (take n buffer) data'
    inside zero e k = copy_none buffer offset data'
    inside (suc n) e k = copy_in-all buffer offset (suc n) data' (omega arith) k
