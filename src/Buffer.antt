-- ===== src/Buffer.antt =====
-- `buffer_t` (src/include/htmpfs/buffer_t.h, src/htmpfs/buffer_t.cpp): a vector of bytes. The
-- loops are written as in the source; `Buffer.Content` says what they compute.
pub mod Content
use htmpfs.Prelude.{
  ℕ, zero, suc, ◌+◌, ◌-◌, Bool, true, false, [], ◌∷◌, ◌++◌, length, get_or, set, pop_back, ltb,
  if◌then◌else◌, add64,
}
use htmpfs.Prelude.Bytes.{Bytes}

-- The member `data` is all that the class holds.
abbrev pub Buffer : Type 0
Buffer = Bytes

-- `for (i = 0; i < n; i++) data.emplace_back(0);`
unfoldable pub append_zeros : ℕ → Buffer → Buffer
append_zeros zero data' = data'
append_zeros (suc n) data' = append_zeros n (data' ++ 0 ∷ [])

-- `for (i = 0; i < n; i++) data.pop_back();`
unfoldable pub pop_times : ℕ → Buffer → Buffer
pop_times zero data' = data'
pop_times (suc n) data' = pop_times n (pop_back data')

-- `for (i = 0; i < n; i++) out[i] = data[i + offset];`, the bytes put into `out`, from round `i`.
unfoldable pub copy_out : Buffer → ℕ → ℕ → ℕ → Bytes
copy_out data' offset i zero = []
copy_out data' offset i (suc n) = get_or data' (i + offset) 0 ∷ copy_out data' offset (i + 1) n

-- `for (i = 0; i < n; i++) data[offset + i] = buffer[i];`, from round `i`.
unfoldable pub copy_in : Bytes → ℕ → ℕ → ℕ → Buffer → Buffer
copy_in buffer offset i zero data' = data'
copy_in buffer offset i (suc n) data' =
    copy_in buffer offset (i + 1) n (set data' (offset + i) (get_or buffer i 0))

-- `buffer_t(new_data, length)`
pub new_loop : Bytes → ℕ → ℕ → Buffer → Buffer
new_loop new_data i zero data' = data'
new_loop new_data i (suc n) data' = new_loop new_data (i + 1) n (data' ++ get_or new_data i 0 ∷ [])

unfoldable pub new : Bytes → ℕ → Buffer
unfolding new_loop
new new_data len = new_loop new_data 0 len []

-- The test cascade that `read` and an unresized `write` share: how much of `len` bytes at `offset`
-- lies inside the buffer.
unfoldable pub clip : Buffer → ℕ → ℕ → ℕ
clip data' len offset =
    if ltb (length data') offset
    then 0
    else if ltb (length data') (add64 len offset)
    then length data' - offset
    else len

-- `read(buffer, length, offset)`: the bytes that it stores; it returns their number.
unfoldable pub read : Buffer → ℕ → ℕ → Bytes
read data' len offset = copy_out data' offset 0 (clip data' len offset)

-- The resizing of `write(…, true)`: to `length + offset` bytes, both up and down.
unfoldable pub fit : ℕ → Buffer → Buffer
unfolding append_zeros pop_times
fit wanted data' =
    if ltb (length data') wanted
    then append_zeros (wanted - length data') data'
    else pop_times (length data' - wanted) data'

-- `write(buffer, length, offset, resize)`: the number of bytes written, and the new buffer.
unfoldable pub write : Buffer → Bytes → ℕ → ℕ → Bool → ℕ × Buffer
write data' buffer len offset false =
    let size = clip data' len offset in (size, copy_in buffer offset 0 size data')
write data' buffer len offset true =
    (len, copy_in buffer offset 0 len (fit (add64 len offset) data'))

-- `truncate(length)`
unfoldable pub truncate : ℕ → Buffer → Buffer
unfolding append_zeros pop_times
truncate len data' =
    if ltb (length data') len
    then append_zeros (len - length data') data'
    else if ltb len (length data')
    then pop_times (length data' - len) data'
    else data'

-- `to_string()`
unfoldable pub to_string : Buffer → Bytes
to_string data' = data'
