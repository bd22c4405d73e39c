-- ===== src/Blocks/Read.antt =====
-- The loops that read blocks: the size of a file, and the bytes of a range.
use htmpfs.Prelude.{
  ℕ, zero, suc, ◌+◌, ◌-◌, ◌*◌, ◌≤◌, ◌<◌, ◌≡◌, ◌⊎◌, refl, sym, ap, ◌∙◌, some, List, [], ◌∷◌, ◌++◌,
  length, length-append, length-take, length-drop, arith, take, drop, take_all, take-append,
  take-append_le, u64_mod, add64, inl, inr, concat, append-nil,
}
use htmpfs.Errors.{Outcome, ok}
use htmpfs.Buffer
use htmpfs.Buffer.{Buffer}
use htmpfs.Buffer.Content.{read-slice}
use htmpfs.Pool.{Pool, BufferRef, Refs, load}
use htmpfs.Pool.Laws.{buffer_at, load_lem}
use htmpfs.Blocks.{data_size, read_blocks, verify}
use htmpfs.Blocks.View.{blocks, value, IsLive}
use htmpfs.Blocks.Layout.{IsPacked, sizes, last_piece-suc}

size_step :
    (acc : ℕ) (p : Pool) (r : BufferRef) (refs : Refs) (b : Buffer)
    → load r.id p ≡ (ok b, p)
    → data_size acc (r ∷ refs) p ≡ data_size (add64 acc (length b)) refs p
unfolding data_size
size_step acc p r refs b e = rw e

-- A reference that reaches a buffer reaches its value.
pub reached :
    (id : ℕ) (p : Pool) (b : Buffer)
    → buffer_at id p ≡ some b
    → buffer_at id p ≡ some (value (buffer_at id p))
reached id p b e = ground (arith, e)

data_size-add :
    (acc : ℕ) (refs : Refs) (p : Pool)
    → IsLive p refs
    → acc + length (concat (blocks p refs)) < u64_mod
    → data_size acc refs p ≡ (ok (acc + length (concat (blocks p refs))), p)
data_size-add acc [] p w small =
    (unfold data_size in
      ap {B = Outcome ℕ × Pool} (λ n. (ok n, p)) {x = acc} {y = acc + 0} (omega arith))
data_size-add acc (r ∷ refs) p (b, e, n, w) small =
    let v : Buffer = value (buffer_at r.id p) in
    let rest : Buffer = concat (blocks p refs) in
    let total : length (v ++ rest) ≡ length v + length rest = length-append v rest in
    let next : add64 acc (length v) ≡ acc + length v = omega arith in
    size_step acc p r refs v (load_lem r.id p v (reached r.id p b e))
    ∙ ap (λ a. data_size a refs p) {x = add64 acc (length v)} {y = acc + length v} next
    ∙ data_size-add (acc + length v) refs p w (omega arith)
    ∙ ap {B = Outcome ℕ × Pool} (λ a. (ok a, p)) {x = acc + length v + length rest}
        {y = acc + length (v ++ rest)} (omega arith)

-- The computed size is the number of bytes.
pub data_size-length :
    (refs : Refs) (p : Pool)
    → IsLive p refs
    → length (concat (blocks p refs)) < u64_mod
    → data_size 0 refs p ≡ (ok (length (concat (blocks p refs))), p)
data_size-length refs p w small =
    data_size-add 0 refs p w (omega arith)
    ∙ ap {B = Outcome ℕ × Pool} (λ a. (ok a, p)) {x = 0 + length (concat (blocks p refs))}
        {y = length (concat (blocks p refs))} (omega arith)

read_step :
    (offset n : ℕ) (ns : List ℕ) (p : Pool) (r : BufferRef) (refs : Refs) (b bytes rest : Buffer)
    → load r.id p ≡ (ok b, p)
    → Buffer.read b n offset ≡ bytes
    → verify (length bytes) n ≡ ok tt
    → read_blocks 0 ns refs p ≡ (ok rest, p)
    → read_blocks offset (n ∷ ns) (r ∷ refs) p ≡ (ok (bytes ++ rest), p)
unfolding read_blocks
read_step offset n ns p r refs b bytes rest e1 e2 e3 e4 = rw (e1, e2, e3, e4)

-- A piece that lies inside a block, in front of pieces that read `rest`.
pub read_piece :
    (offset n : ℕ) (ns : List ℕ) (p : Pool) (r : BufferRef) (refs : Refs) (b rest : Buffer)
    → buffer_at r.id p ≡ some b
    → offset + n ≤ length b
    → offset + n < u64_mod
    → read_blocks 0 ns refs p ≡ (ok rest, p)
    → read_blocks offset (n ∷ ns) (r ∷ refs) p ≡ (ok (take n (drop offset b) ++ rest), p)
read_piece offset n ns p r refs b rest e inside small ret =
    let count : length (take n (drop offset b)) ≡ n =
      omega (arith, length-take n (drop offset b), length-drop offset b) in
    read_step offset n ns p r refs b (take n (drop offset b)) rest (load_lem r.id p b e)
      (read-slice b n offset (omega arith)) (ground (arith, count)) ret

-- A first block that is full, or alone, holds the first `l` bytes.
pub first_long :
    (n l : ℕ) (v rest : Buffer)
    → (length v ≡ n) ⊎ (rest ≡ [])
    → l ≤ n
    → l ≤ length (v ++ rest)
    → l ≤ length v
first_long n l v rest (inl whole) h k = omega arith
first_long n l v rest (inr nothing) h k =
    omega (arith, ap length (ap (v ++◌) nothing ∙ append-nil v))

pub take_past :
    (v rest : Buffer) (m k : ℕ) → k ≡ length v + m → take k (v ++ rest) ≡ v ++ take m rest
take_past v rest m k h =
    take-append k v rest
    ∙ ap (λ l. l ++ take (k - length v) rest) (take_all k v (omega arith))
    ∙ ap (λ i. v ++ take i rest) {x = k - length v} {y = m} (omega arith)

-- Full pieces and a last one read the first bytes of packed blocks that hold so many.
pub read_blocks-sizes :
    (n full rest : ℕ) (refs : Refs) (p : Pool)
    → rest < n
    → n < u64_mod
    → IsLive p refs
    → IsPacked n (blocks p refs)
    → full * n + rest ≤ length (concat (blocks p refs))
    → read_blocks 0 (sizes n full rest) refs p
      ≡ (ok (take (full * n + rest) (concat (blocks p refs))), p)
read_blocks-sizes n zero zero refs p h small w k enough =
    (unfold read_blocks in
      ap {B = Outcome Buffer × Pool} (λ k. (ok (take k (concat (blocks p refs))), p)) {x = 0}
        {y = 0 * n + 0} (omega arith))
read_blocks-sizes n zero (suc rest) [] p h small w k enough = absurd (omega arith)
read_blocks-sizes n zero (suc rest) (r ∷ refs) p h small (b, e, o, w) k enough =
    let v : Buffer = value (buffer_at r.id p) in
    let rest' : Buffer = concat (blocks p refs) in
    let inside = first_long n (suc rest) v rest' k.1 (omega arith) (omega arith) in
    rw last_piece-suc (
      read_piece 0 (suc rest) [] p r refs v [] (reached r.id p b e) (omega arith) (omega arith)
        (unfold read_blocks in refl))
    ∙ ap {B = Outcome Buffer × Pool} (λ l. (ok l, p))
        (append-nil (take (suc rest) v)
          ∙ sym (take-append_le (suc rest) v rest' inside)
          ∙ ap (λ i. take i (v ++ rest')) {x = suc rest} {y = 0 * n + suc rest} (omega arith))
read_blocks-sizes n (suc full) rest [] p h small w k enough = absurd (omega arith)
read_blocks-sizes n (suc full) rest (r ∷ refs) p h small (b, e, o, w) k enough =
    let v : Buffer = value (buffer_at r.id p) in
    let rest' : Buffer = concat (blocks p refs) in
    let m : ℕ = full * n + rest in
    let inside = first_long n n v rest' k.1 (omega arith) (omega arith) in
    let whole : length v ≡ n = omega (arith, k.0) in
    read_piece 0 n (sizes n full rest) p r refs v (take m rest') (reached r.id p b e) (omega arith)
      (omega arith)
      (read_blocks-sizes n full rest refs p h small w k.2 (omega (arith, length-append v rest')))
    ∙ ap {B = Outcome Buffer × Pool} (λ l. (ok l, p))
        (ap (λ l. l ++ take m rest') (take_all n v (omega arith))
          ∙ sym (take_past v rest' m (suc full * n + rest) (omega arith)))
