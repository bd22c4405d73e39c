-- ===== src/Blocks/Links.antt =====
-- References and link counts: the loops of `inode_t` (src/htmpfs/htmpfs.cpp) over the references of
-- the current version keep a link for every reference, whether they return or throw.
use htmpfs.Prelude.{
  ℕ, zero, suc, ◌+◌, ◌-◌, ◌≤◌, ◌≡◌, Bool, true, List, [], ◌∷◌, ◌++◌, arith, if◌then◌else◌, pop_back,
  last_or, drop, add64, length,
}
use htmpfs.Prelude.Bytes.{Bytes}
use htmpfs.Errors.{Outcome, ok, throws, undefined}
use htmpfs.Exec.{Exec, pure, lift}
use htmpfs.Exec.Keeps.{Keeps, bind-Keeps}
use htmpfs.Exec.Yields.{Yields, bind-Yields, if-Yields, choose-Yields, weaken-Yields}
use htmpfs.Buffer
use htmpfs.Buffer.{Buffer}
use htmpfs.Pool.{Pool, BufferRef, Refs, request_buffer_allocation, unlink_buffer, load, store}
use htmpfs.Pool.Links.{
  links, IsBounded, one, Gains, nothing, Gains-refl, Gains-trans, Gains-less, Same, load-Same,
  store-Same, Requested, request_buffer_allocation-Requested, unlink_one_lem,
}
use htmpfs.Blocks.{
  replace, thaw, step, cons_ref, thaw_range, grow, lose, truncate_blocks, write_blocks, read_blocks,
  data_size, verify,
}

-- How many references have the id.
abbrev pub uses : ℕ → Refs → ℕ
uses j [] = 0
uses j (r ∷ refs) = one r.id j + uses j refs

-- Every node has a link for each reference in the list, and `f` further ones.
abbrev pub Held : (ℕ → ℕ) → Pool × Refs → Type 0
Held f (p, refs) = IsBounded p × ((j : ℕ) → f j + uses j refs ≤ links j p)

pub uses-append : (j : ℕ) (xs ys : Refs) → uses j (xs ++ ys) ≡ uses j xs + uses j ys
uses-append j [] ys = omega arith
uses-append j (r ∷ xs) ys = omega (arith, uses-append j xs ys)

uses-pop_back :
    (j : ℕ) (r : BufferRef) (refs : Refs)
    → uses j (pop_back (r ∷ refs)) + one (last_or refs r).id j ≡ uses j (r ∷ refs)
uses-pop_back j r [] = omega arith
uses-pop_back j r (s ∷ refs) = omega (arith, uses-pop_back j s refs)

-- Gains pay for references.
Held-Gains :
    (p q : Pool) (f g : ℕ → ℕ) (refs refs' : Refs)
    → Gains p g q
    → ((j : ℕ) → uses j refs' ≤ uses j refs + g j)
    → Held f (p, refs)
    → Held f (q, refs')
Held-Gains p q f g refs refs' a more (w, h) =
    (a.bounded w, λ j. omega (arith, a.gained j, more j, h j))

pub Held-same :
    (p q : Pool) (f : ℕ → ℕ) (refs : Refs) → Gains p nothing q → Held f (p, refs) → Held f (q, refs)
Held-same p q f refs a h = Held-Gains p q f nothing refs refs a (λ j. omega arith) h

-- A step that keeps the counts, behind one that gains.
then-Same :
    {A : Type 0} (p q : Pool) (g : ℕ → ℕ) (r : Outcome A × Pool)
    → Gains p g q
    → Same q r
    → Yields (λ a s. Gains p g s) (Gains p nothing) r
then-Same p q g r a same =
    weaken-Yields (λ x s. Gains q nothing s) (λ x s. Gains p g s) (Gains q nothing)
      (Gains p nothing) r
      (λ x s b.
        Gains-less p s (λ j. g j + 0) g (λ j. omega arith) (Gains-trans p q s g nothing a b))
      (λ s b.
        Gains-less p s (λ j. g j + 0) nothing (λ j. omega arith) (Gains-trans p q s g nothing a b))
      same

replace-Requested :
    (block_size : ℕ) (r : BufferRef) (p : Pool) → Requested p (replace block_size r p)
unfolding replace
replace-Requested block_size r p =
    let Q : BufferRef → Pool → Type 0 = λ r' q. Gains p (one r'.id) q in
    bind-Yields (λ data' q. Gains p nothing q) Q (Gains p nothing) (load r.id) _ p
      (load-Same r.id p)
      λ data' p1 g1.
        bind-Yields Q Q (Gains p nothing) request_buffer_allocation _ p1 (requested p p1 g1)
          λ new_buffer p2 g2.
            bind-Yields (λ old q. Gains p (one new_buffer.id) q) Q (Gains p nothing)
              (load new_buffer.id) _ p2
              (then-Same p p2 (one new_buffer.id) (load new_buffer.id p2) g2
                (load-Same new_buffer.id p2))
              λ old p3 g3.
                let tmp : Buffer = Buffer.read data' block_size 0 in
                let b : Buffer = (Buffer.write old tmp (length tmp) 0 true).1 in
                bind-Yields (λ u q. Gains p (one new_buffer.id) q) Q (Gains p nothing)
                  (store new_buffer.id b) _ p3
                  (then-Same p p3 (one new_buffer.id) (store new_buffer.id b p3) g3
                    (store-Same new_buffer.id b p3))
                  λ u p4 g4. g4
  where
    requested : (p p1 : Pool) → Gains p nothing p1 → Requested p (request_buffer_allocation p1)
    requested p p1 g1 =
        weaken-Yields (λ r' q. Gains p1 (one r'.id) q) (λ r' q. Gains p (one r'.id) q)
          (Gains p1 nothing) (Gains p nothing) (request_buffer_allocation p1)
          (λ r' q a.
            Gains-less p q (λ j. 0 + one r'.id j) (one r'.id) (λ j. omega arith)
              (Gains-trans p p1 q nothing (one r'.id) g1 a))
          (λ q a.
            Gains-less p q (λ j. 0 + 0) nothing (λ j. omega arith)
              (Gains-trans p p1 q nothing nothing g1 a))
          (request_buffer_allocation-Requested p1)

-- What `thaw` puts in the place of a reference is paid for.
thaw-Yields :
    (block_size : ℕ) (r : BufferRef) (p : Pool)
    → Yields
        (λ r' q. Gains p (λ j. one r'.id j - one r.id j) q)
        (Gains p nothing)
        (thaw block_size r p)
unfolding thaw
thaw-Yields block_size r p =
    let paid : (q : Pool) (r' : BufferRef)
        → Gains p (one r'.id) q
        → Gains p (λ j. one r'.id j - one r.id j) q =
      (λ q r' a. Gains-less p q (one r'.id) (λ j. one r'.id j - one r.id j) (λ j. omega arith) a) in
    choose-Yields (λ r' q. Gains p (λ j. one r'.id j - one r.id j) q) (Gains p nothing)
      r.is_snapshoted (replace block_size r) (pure r) p
      (weaken-Yields (λ r' q. Gains p (one r'.id) q)
        (λ r' q. Gains p (λ j. one r'.id j - one r.id j) q) (Gains p nothing) (Gains p nothing)
        (replace block_size r p) (λ r' q. paid q r') (λ q a. a) (replace-Requested block_size r p))
      (Gains-less p p nothing (λ j. one r.id j - one r.id j) (λ j. omega arith) (Gains-refl p))

step-Held :
    {A B : Type 0} (P : A → Pool → Type 0) (E : Pool → Type 0) (I : Pool × Refs → Type 0)
    (r : Outcome A × Pool) (refs : Refs) (next : A → Pool → Outcome B × (Pool × Refs))
    → Yields P E r
    → ((q : Pool) → E q → I (q, refs))
    → ((a : A) (q : Pool) → P a q → I (next a q).1)
    → I (step r refs next).1
step-Held P E I (ok a, q) refs next y e k = k a q y
step-Held P E I (throws x, q) refs next y e k = e q y
step-Held P E I (undefined, q) refs next y e k = e q y

-- A reference in front of the list is one link more for the rest of the world.
cons-Held :
    (f : ℕ → ℕ) (r : BufferRef) (t : Outcome (Unit {0}) × (Pool × Refs))
    → Held (λ j. f j + one r.id j) t.1
    → Held f (cons_ref r t).1
cons-Held f r (o, (p, refs)) (w, h) = (w, λ j. omega (arith, h j))

uncons-Held :
    (f : ℕ → ℕ) (r : BufferRef) (refs : Refs) (p : Pool)
    → Held f (p, r ∷ refs)
    → Held (λ j. f j + one r.id j) (p, refs)
uncons-Held f r refs p (w, h) = (w, λ j. omega (arith, h j))

pub thaw_range-Held :
    (block_size start n : ℕ) (refs : Refs) (p : Pool) (f : ℕ → ℕ)
    → Held f (p, refs)
    → Held f (thaw_range block_size start n refs p).1
unfolding thaw_range
thaw_range-Held block_size zero zero refs p f h = h
thaw_range-Held block_size zero (suc n) [] p f h = h
thaw_range-Held block_size zero (suc n) (r ∷ refs) p f h =
    step-Held (λ r' q. Gains p (λ j. one r'.id j - one r.id j) q) (Gains p nothing) (Held f)
      (thaw block_size r p) (r ∷ refs) _ (thaw-Yields block_size r p)
      (λ q a. Held-same p q f (r ∷ refs) a h)
      (λ r' q a. cons-Held f r' (thaw_range block_size zero n refs q) (
        thaw_range-Held block_size zero n refs q (λ j. f j + one r'.id j)
          (uncons-Held f r' refs q (
            Held-Gains p q f (λ j. one r'.id j - one r.id j) (r ∷ refs) (r' ∷ refs) a
              (λ j. omega arith) h))))
thaw_range-Held block_size (suc start) zero [] p f h = h
thaw_range-Held block_size (suc start) (suc n) [] p f h = h
thaw_range-Held block_size (suc start) zero (r ∷ refs) p f h =
    cons-Held f r (thaw_range block_size start zero refs p) (
      thaw_range-Held block_size start zero refs p (λ j. f j + one r.id j)
        (uncons-Held f r refs p h))
thaw_range-Held block_size (suc start) (suc n) (r ∷ refs) p f h =
    cons-Held f r (thaw_range block_size start (suc n) refs p) (
      thaw_range-Held block_size start (suc n) refs p (λ j. f j + one r.id j)
        (uncons-Held f r refs p h))

pub grow-Held : (f : ℕ → ℕ) (n : ℕ) → Keeps (Held f) (grow n)
unfolding grow
grow-Held f zero s h = h
grow-Held f (suc n) (p, refs) h =
    step-Held (λ r q. Gains p (one r.id) q) (Gains p nothing) (Held f) (request_buffer_allocation p)
      refs _ (request_buffer_allocation-Requested p) (λ q a. Held-same p q f refs a h)
      (λ r q a.
        grow-Held f n (q, refs ++ r ∷ [])
          (Held-Gains p q f (one r.id) refs (refs ++ r ∷ []) a
            (λ j. omega (arith, uses-append j refs (r ∷ []))) h))

lose-Yields :
    (f : ℕ → ℕ) (p : Pool) (r : BufferRef) (refs : Refs)
    → Held f (p, r ∷ refs)
    → Yields
        (λ u q. Held f (q, pop_back (r ∷ refs)))
        (λ q. Held f (q, r ∷ refs))
        (if (last_or refs r).is_snapshoted then (ok tt, p) else unlink_buffer (last_or refs r).id p)
lose-Yields f p r refs (w, h) =
    let id : ℕ = (last_or refs r).id in
    let pops : (j : ℕ) → uses j (pop_back (r ∷ refs)) + one id j ≡ uses j (r ∷ refs) =
      (λ j. uses-pop_back j r refs) in
    let (q, d) = unlink_one_lem id p w (ground (arith, h id, pops id)) in
    if-Yields (λ u q. Held f (q, pop_back (r ∷ refs))) (λ q. Held f (q, r ∷ refs))
      (last_or refs r).is_snapshoted _ _ (w, λ j. omega (arith, h j, pops j))
      (rw d.returns (d.bounded, λ j. omega (arith, h j, pops j, d.dropped j)))

pub lose-Held : (f : ℕ → ℕ) (n : ℕ) → Keeps (Held f) (lose n)
unfolding lose
lose-Held f zero s h = h
lose-Held f (suc n) (p, []) h = h
lose-Held f (suc n) (p, r ∷ refs) h =
    step-Held (λ u q. Held f (q, pop_back (r ∷ refs))) (λ q. Held f (q, r ∷ refs)) (Held f) _
      (r ∷ refs) _ (lose-Yields f p r refs h) (λ q a. a)
      (λ u q a. lose-Held f n (q, pop_back (r ∷ refs)) a)

-- Code that leaves the link counts as they are.
abbrev pub Quiet : {A : Type 0} → Exec Pool A → Type 0
Quiet m = (p0 : Pool) → Keeps (Gains p0 nothing) m

Quiet-Gains : (p0 p q : Pool) → Gains p0 nothing p → Gains p nothing q → Gains p0 nothing q
Quiet-Gains p0 p q a b =
    Gains-less p0 q (λ j. 0 + 0) nothing (λ j. omega arith) (Gains-trans p0 p q nothing nothing a b)

Same-Gains : {A : Type 0} (p : Pool) (r : Outcome A × Pool) → Same p r → Gains p nothing r.1
Same-Gains p (ok a, q) y = y
Same-Gains p (throws e, q) y = y
Same-Gains p (undefined, q) y = y

load-Quiet : (id : ℕ) → Quiet (load id)
load-Quiet id p0 p a = Quiet-Gains p0 p _ a (Same-Gains p (load id p) (load-Same id p))

store-Quiet : (id : ℕ) (b : Buffer) → Quiet (store id b)
store-Quiet id b p0 p a = Quiet-Gains p0 p _ a (Same-Gains p (store id b p) (store-Same id b p))

pub truncate_blocks-Quiet : (ns : List ℕ) (refs : Refs) → Quiet (truncate_blocks ns refs)
unfolding truncate_blocks
truncate_blocks-Quiet [] refs p0 = λ s w. w
truncate_blocks-Quiet (n ∷ ns) [] p0 = λ s w. w
truncate_blocks-Quiet (n ∷ ns) (r ∷ refs) p0 =
    bind-Keeps (Gains p0 nothing) (load r.id) _ (load-Quiet r.id p0) λ data'.
      bind-Keeps (Gains p0 nothing) (store r.id (Buffer.truncate n data')) _
        (store-Quiet r.id (Buffer.truncate n data') p0) λ u. truncate_blocks-Quiet ns refs p0

pub write_blocks-Quiet :
    (resize : Bool) (offset : ℕ) (ns : List ℕ) (buffer : Bytes) (refs : Refs)
    → Quiet (write_blocks resize offset ns buffer refs)
unfolding write_blocks
write_blocks-Quiet resize offset [] buffer refs p0 = λ s w. w
write_blocks-Quiet resize offset (n ∷ ns) buffer [] p0 = λ s w. w
write_blocks-Quiet resize offset (n ∷ ns) buffer (r ∷ refs) p0 =
    bind-Keeps (Gains p0 nothing) (load r.id) _ (load-Quiet r.id p0) λ data'.
      let (written, data'') = Buffer.write data' buffer n offset resize in
      bind-Keeps (Gains p0 nothing) (store r.id data'') _ (store-Quiet r.id data'' p0) λ u.
        bind-Keeps (Gains p0 nothing) (lift (verify written n)) _ (λ s w. w)
          λ v. write_blocks-Quiet resize 0 ns (drop n buffer) refs p0

pub data_size-Quiet : (size : ℕ) (refs : Refs) → Quiet (data_size size refs)
unfolding data_size
data_size-Quiet size [] p0 = λ s w. w
data_size-Quiet size (r ∷ refs) p0 =
    bind-Keeps (Gains p0 nothing) (load r.id) _ (load-Quiet r.id p0)
      λ data'. data_size-Quiet (add64 size (length data')) refs p0

pub read_blocks-Quiet :
    (offset : ℕ) (ns : List ℕ) (refs : Refs) → Quiet (read_blocks offset ns refs)
unfolding read_blocks
read_blocks-Quiet offset [] refs p0 = λ s w. w
read_blocks-Quiet offset (n ∷ ns) [] p0 = λ s w. w
read_blocks-Quiet offset (n ∷ ns) (r ∷ refs) p0 =
    bind-Keeps (Gains p0 nothing) (load r.id) _ (load-Quiet r.id p0) λ data'.
      let bytes = Buffer.read data' n offset in
      bind-Keeps (Gains p0 nothing) (lift (verify (length bytes) n)) _ (λ s w. w)
        λ v.
          bind-Keeps (Gains p0 nothing) (read_blocks 0 ns refs) _ (read_blocks-Quiet 0 ns refs p0)
            λ rest s w. w
