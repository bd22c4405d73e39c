-- ===== src/Blocks/View.antt =====
-- What a list of block references stands for: the bytes of its blocks; and how a loop may change
-- pool and list without touching what others refer to.
use htmpfs.Prelude.{
  ◌∙◌, ℕ, suc, ◌≤◌, ◌≡◌, refl, Bool, false, not, ◌&&◌, ◌||◌, Option, none, some, List, [], ◌∷◌,
  ◌++◌, length, arith, ◌==◌, ap,
}
use htmpfs.Buffer.{Buffer}
use htmpfs.Pool.{Pool, BufferRef, Refs}
use htmpfs.Pool.Laws.{buffer_at}

abbrev pub value : Option Buffer → Buffer
value none = []
value (some b) = b

-- The blocks that the references reach.
abbrev pub blocks : Pool → Refs → List Buffer
blocks p [] = []
blocks p (r ∷ refs) = value (buffer_at r.id p) ∷ blocks p refs

-- Some reference has the id; some reference that is not frozen has it.
abbrev pub has_id : ℕ → Refs → Bool
has_id j [] = false
has_id j (r ∷ refs) = (j == r.id) || has_id j refs

abbrev pub owns : ℕ → Refs → Bool
owns j [] = false
owns j (r ∷ refs) = (not r.is_snapshoted && (j == r.id)) || owns j refs

-- Every reference reaches a node, and no two the same.
abbrev pub IsLive : Pool → Refs → Type 0
IsLive p [] = Unit {0}
IsLive p (r ∷ refs) =
    (b : Buffer) × (buffer_at r.id p ≡ some b) × (has_id r.id refs ≡ false) × IsLive p refs

-- No block is longer than the block size.
abbrev pub AllFit : ℕ → List Buffer → Type 0
AllFit n [] = Unit {0}
AllFit n (b ∷ bs) = (length b ≤ n) × AllFit n bs

-- No reference is frozen.
abbrev pub AllThawed : Refs → Type 0
AllThawed [] = Unit {0}
AllThawed (r ∷ refs) = (r.is_snapshoted ≡ false) × AllThawed refs

-- Every buffer stays.
abbrev pub Extends : Pool → Pool → Type 0
Extends p q = (j : ℕ) (b : Buffer) → buffer_at j p ≡ some b → buffer_at j q ≡ some b

-- Nodes of `p` that the list had not are not in the new list; those that it did not own, the new list
-- does not own.
abbrev pub NoStealing : Pool → Refs → Refs → Type 0
NoStealing p refs refs' =
    (j : ℕ) (b : Buffer)
    → buffer_at j p ≡ some b
    → (has_id j refs ≡ false → has_id j refs' ≡ false)
      × (owns j refs ≡ false → owns j refs' ≡ false)

pub has_id-append : (j : ℕ) (xs ys : Refs) → has_id j (xs ++ ys) ≡ (has_id j xs || has_id j ys)
has_id-append j [] ys = refl
has_id-append j (r ∷ xs) ys = ground (arith, has_id-append j xs ys)

pub owns-append : (j : ℕ) (xs ys : Refs) → owns j (xs ++ ys) ≡ (owns j xs || owns j ys)
owns-append j [] ys = refl
owns-append j (r ∷ xs) ys = ground (arith, owns-append j xs ys)

pub blocks-append : (p : Pool) (xs ys : Refs) → blocks p (xs ++ ys) ≡ blocks p xs ++ blocks p ys
blocks-append p [] ys = refl
blocks-append p (r ∷ xs) ys = ap (value (buffer_at r.id p) ∷◌) (blocks-append p xs ys)

pub length-blocks : (p : Pool) (refs : Refs) → length (blocks p refs) ≡ length refs
length-blocks p [] = refl
length-blocks p (r ∷ refs) = ap suc (length-blocks p refs)

pub blocks-Extends :
    (p q : Pool) (refs : Refs) → Extends p q → IsLive p refs → blocks q refs ≡ blocks p refs
blocks-Extends p q [] x w = refl
blocks-Extends p q (r ∷ refs) x (b, e, n, w) =
    ground (arith, x r.id b e, blocks-Extends p q refs x w)

pub IsLive-Extends : (p q : Pool) (refs : Refs) → Extends p q → IsLive p refs → IsLive q refs
IsLive-Extends p q [] x w = tt
IsLive-Extends p q (r ∷ refs) x (b, e, n, w) = (b, x r.id b e, n, IsLive-Extends p q refs x w)

-- An id that reaches nothing is in no live list.
pub has_id-fresh :
    (j : ℕ) (p : Pool) (refs : Refs) → buffer_at j p ≡ none → IsLive p refs → has_id j refs ≡ false
has_id-fresh j p [] f w = refl
has_id-fresh j p (r ∷ refs) f (b, e, n, w) = ground (arith, has_id-fresh j p refs f w)

-- What is in no reference is owned by none.
pub owns-has_id : (j : ℕ) (refs : Refs) → has_id j refs ≡ false → owns j refs ≡ false
owns-has_id j [] h = refl
owns-has_id j (r ∷ refs) h = ground (arith, owns-has_id j refs)

-- Of a list with no frozen reference, what is not owned is in no reference.
pub has_id-owns :
    (j : ℕ) (refs : Refs) → AllThawed refs → owns j refs ≡ false → has_id j refs ≡ false
has_id-owns j [] t h = refl
has_id-owns j (r ∷ refs) (u, t) h = ground (arith, has_id-owns j refs t)

-- Pools that agree on every id but one agree on a list that does not hold it.
pub blocks-Agree :
    (id : ℕ) (p q : Pool) (refs : Refs)
    → ((j : ℕ) → (j == id) ≡ false → buffer_at j q ≡ buffer_at j p)
    → has_id id refs ≡ false
    → IsLive p refs
    → (blocks q refs ≡ blocks p refs) × IsLive q refs
blocks-Agree id p q [] a h w = (refl, tt)
blocks-Agree id p q (r ∷ refs) a h (b, e, n, w) =
    let rest = blocks-Agree id p q refs a (ground arith) w in
    let here : buffer_at r.id q ≡ buffer_at r.id p = a r.id (ground arith) in
    (ground (arith, here, rest.0), (b, here ∙ e, n, rest.1))

-- A new last reference.
pub IsLive-snoc :
    (p : Pool) (refs : Refs) (r : BufferRef) (b : Buffer)
    → IsLive p refs
    → buffer_at r.id p ≡ some b
    → has_id r.id refs ≡ false
    → IsLive p (refs ++ r ∷ [])
IsLive-snoc p [] r b w e h = (b, e, refl, tt)
IsLive-snoc p (x ∷ refs) r b (c, k, n, w) e h =
    let (ne, rest) = split in
    (c, k, ground (arith, has_id-append x.id refs (r ∷ [])), IsLive-snoc p refs r b w e rest)
  where
    split : ((x.id == r.id) ≡ false) × (has_id r.id refs ≡ false)
    split = ground arith

-- The last reference taken off.
pub IsLive-unsnoc :
    (p : Pool) (refs : Refs) (r : BufferRef)
    → IsLive p (refs ++ r ∷ [])
    → IsLive p refs × (has_id r.id refs ≡ false) × (b : Buffer) × (buffer_at r.id p ≡ some b)
IsLive-unsnoc p [] r (b, e, n, w) = (tt, refl, b, e)
IsLive-unsnoc p (x ∷ refs) r (c, k, n, w) =
    let (live, absent, b, e) = IsLive-unsnoc p refs r w in
    (
      (c, k, ground (arith, has_id-append x.id refs (r ∷ [])), live),
      ground (arith, has_id-append x.id refs (r ∷ [])),
      b,
      e,
    )
