-- ===== src/Blocks.antt =====
-- The loops of the `inode_t` methods (src/htmpfs/htmpfs.cpp) over a list of block references. A
-- loop `for (i = start; i < end; i++)` that touches element `i` walks down the list, from element
-- `start`. The state is the buffer pool, and the list where the loop changes it.
pub mod View
pub mod Thaw
pub mod Read
pub mod Freeze
pub mod Write
pub mod Overwrite
pub mod Resize
pub mod Layout
pub mod Links
pub mod Volumes
use htmpfs.Prelude.{
  ℕ, zero, suc, ◌+◌, ◌-◌, ◌/◌, ◌%◌, Bool, true, List, [], ◌∷◌, ◌++◌, length, drop, replicate,
  pop_back, last_or, leb, ◌==◌, if◌then◌else◌, add64,
}
use htmpfs.Prelude.Bytes.{Bytes}
use htmpfs.Errors.{Outcome, ok, throws, undefined, and_then, out_of_range, throw, buffer_short_ops}
use htmpfs.Exec.{Exec, pure, lift, ◌>>=◌, ◌>>◌}
use htmpfs.Buffer
use htmpfs.Buffer.{Buffer}
use htmpfs.Pool.{
  Pool, BufferRef, Refs, request_buffer_allocation, unlink_buffer, link_buffer, load, store,
}

-- `n / block_size + (n % block_size != 0)`
abbrev pub block_count : ℕ → ℕ → ℕ
block_count block_size n = n / block_size + (if n % block_size == 0 then 0 else 1)

-- The last operation, if it has anything to do.
abbrev pub last_piece : ℕ → List ℕ
last_piece n = if n == 0 then [] else n ∷ []

-- `offset_for_starting_buffer`, and the number of bytes, give the lengths of the operations on the
-- starting block, on the full blocks behind it, and on the last block.
unfoldable pub pieces : ℕ → ℕ → ℕ → List ℕ
pieces block_size offset n =
    let start = if leb n (block_size - offset) then n else block_size - offset in
    start
    ∷ (replicate ((n - start) / block_size) block_size ++ last_piece ((n - start) % block_size))

-- A new block in the place of a frozen one: the data is read, a buffer is allocated, and the data
-- is written there.
unfoldable pub replace : ℕ → BufferRef → Exec Pool BufferRef
replace block_size frozen = do
  data' ← load frozen.id
  let tmp = Buffer.read data' block_size 0
  new_buffer ← request_buffer_allocation
  old ← load new_buffer.id
  store new_buffer.id (Buffer.write old tmp (length tmp) 0 true).1
  pure new_buffer

-- "if frozen buffer detected"
unfoldable pub thaw : ℕ → BufferRef → Exec Pool BufferRef
thaw block_size r = if r.is_snapshoted then replace block_size r else pure r

-- A step on the pool inside a loop that also changes the list: where the step does not return, the
-- loop leaves the list as it is then.
abbrev pub step :
    {A B : Type 0}
    → Outcome A × Pool
    → Refs
    → (A → Pool → Outcome B × (Pool × Refs))
    → Outcome B × (Pool × Refs)
step (ok a, p) refs next = next a p
step (throws e, p) refs next = (throws e, (p, refs))
step (undefined, p) refs next = (undefined, (p, refs))

abbrev pub cons_ref :
    BufferRef → Outcome (Unit {0}) × (Pool × Refs) → Outcome (Unit {0}) × (Pool × Refs)
cons_ref r (o, (p, refs)) = (o, (p, r ∷ refs))

-- The loop that reallocates the frozen buffers among elements `start` to `start + n`. `operator[]`
-- past the end is undefined.
unfoldable pub thaw_range : ℕ → ℕ → ℕ → Refs → Pool → Outcome (Unit {0}) × (Pool × Refs)
thaw_range block_size zero zero refs p = (ok tt, (p, refs))
thaw_range block_size zero (suc n) [] p = (undefined, (p, []))
thaw_range block_size zero (suc n) (r ∷ refs) p =
    step (thaw block_size r p) (r ∷ refs)
      λ r' p'. cons_ref r' (thaw_range block_size zero n refs p')
thaw_range block_size (suc start) zero [] p = (ok tt, (p, []))
thaw_range block_size (suc start) (suc n) [] p = (undefined, (p, []))
thaw_range block_size (suc start) n (r ∷ refs) p = cons_ref r (thaw_range block_size start n refs p)

-- The loop that appends `n` new buffers.
unfoldable pub grow : ℕ → Exec (Pool × Refs) (Unit {0})
grow zero s = (ok tt, s)
grow (suc n) (p, refs) = step (request_buffer_allocation p) refs λ r p'. grow n (p', refs ++ r ∷ [])

-- The loop that drops the last `n` references, and unlinks the buffers that no snapshot froze.
-- (Taking the last of an empty vector would be undefined.)
unfoldable pub lose : ℕ → Exec (Pool × Refs) (Unit {0})
lose zero s = (ok tt, s)
lose (suc n) (p, []) = (undefined, (p, []))
lose (suc n) (p, r ∷ refs) =
    let last_buffer = last_or refs r in
    step (if last_buffer.is_snapshoted then pure tt p else unlink_buffer last_buffer.id p)
      (r ∷ refs) λ _ p'. lose n (p', pop_back (r ∷ refs))

-- `data->truncate(…)` on the first blocks of the list, by the given sizes; `at` past the end throws.
unfoldable pub truncate_blocks : List ℕ → Refs → Exec Pool (Unit {0})
truncate_blocks [] refs = pure tt
truncate_blocks (n ∷ ns) [] = lift (throws out_of_range)
truncate_blocks (n ∷ ns) (r ∷ refs) = do
  data' ← load r.id
  store r.id (Buffer.truncate n data')
  truncate_blocks ns refs

-- `VERIFY_DATA_OPS_LEN`
abbrev pub verify : ℕ → ℕ → Outcome (Unit {0})
verify done len = if done == len then ok tt else throw buffer_short_ops

-- `data->write(…, resize)` on the first blocks of the list, the first one at `offset` and the rest
-- at 0; the pieces take up the source buffer one behind the other.
unfoldable pub write_blocks : Bool → ℕ → List ℕ → Bytes → Refs → Exec Pool (Unit {0})
write_blocks resize offset [] buffer refs = pure tt
write_blocks resize offset (n ∷ ns) buffer [] = lift (throws out_of_range)
write_blocks resize offset (n ∷ ns) buffer (r ∷ refs) = do
  data' ← load r.id
  let (written, data'') = Buffer.write data' buffer n offset resize
  store r.id data''
  lift (verify written n)
  write_blocks resize 0 ns (drop n buffer) refs

-- `data->read(…)` likewise; the pieces fill the target buffer one behind the other.
unfoldable pub read_blocks : ℕ → List ℕ → Refs → Exec Pool Bytes
read_blocks offset [] refs = pure []
read_blocks offset (n ∷ ns) [] = lift (throws out_of_range)
read_blocks offset (n ∷ ns) (r ∷ refs) = do
  data' ← load r.id
  let bytes = Buffer.read data' n offset
  lift (verify (length bytes) n)
  rest ← read_blocks 0 ns refs
  pure (bytes ++ rest)

-- The sum of the sizes of the blocks.
unfoldable pub data_size : ℕ → Refs → Exec Pool ℕ
data_size size [] = pure size
data_size size (r ∷ refs) = do data' ← load r.id; data_size (add64 size (length data')) refs

abbrev pub cons_frozen : BufferRef → Outcome Refs × (Pool × Refs) → Outcome Refs × (Pool × Refs)
cons_frozen r (o, (p, refs)) = (and_then o (λ volume. ok (r ∷ volume)), (p, r ∷ refs))

-- The loop of `create_new_volume`: each reference is marked frozen, copied to the new volume and
-- its buffer linked once more. The new volume's references come back beside the state.
unfoldable pub freeze : Refs → Pool → Outcome Refs × (Pool × Refs)
freeze [] p = (ok [], (p, []))
freeze (r ∷ refs) p =
    let frozen : BufferRef = record r { is_snapshoted = true } in
    step (link_buffer r.id p) (frozen ∷ refs) λ _ p'. cons_frozen frozen (freeze refs p')

-- The loop of `delete_volume`.
unfoldable pub unlink_all : Refs → Exec Pool (Unit {0})
unlink_all [] = pure tt
unlink_all (r ∷ refs) = unlink_buffer r.id >> unlink_all refs
