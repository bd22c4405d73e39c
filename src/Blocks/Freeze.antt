-- ===== src/Blocks/Freeze.antt =====
-- The loop of `create_new_volume` (src/htmpfs/htmpfs.cpp) over the references of a file.
use htmpfs.Prelude.{ℕ, ◌≡◌, refl, ap, ◌∙◌, true, false, [], ◌∷◌, arith, length, suc}
use htmpfs.Errors.{ok}
use htmpfs.Pool.{Pool, BufferRef, Refs, link_buffer}
use htmpfs.Pool.Laws.{buffer_at, link_lem}
use htmpfs.Blocks.{freeze}
use htmpfs.Blocks.View.{blocks, value, has_id, owns, IsLive}

-- Every reference, frozen.
abbrev pub frozen : Refs → Refs
frozen [] = []
frozen (r ∷ refs) = record r { is_snapshoted = true } ∷ frozen refs

-- Both pools reach the same buffers.
pub record SameBuffers (p q : Pool) : Type 0 where
  pub same : (j : ℕ) → buffer_at j q ≡ buffer_at j p
  pub size : length q.packs ≡ length p.packs
  pub limit : q.max_size ≡ p.max_size

SameBuffers-trans : (p q r : Pool) → SameBuffers p q → SameBuffers q r → SameBuffers p r
SameBuffers-trans p q r a b = record {
  same = λ j. b.same j ∙ a.same j;
  size = b.size ∙ a.size;
  limit = b.limit ∙ a.limit;
}

-- A live list stays live, with its blocks.
pub blocks-SameBuffers :
    (p q : Pool) (refs : Refs)
    → SameBuffers p q
    → IsLive p refs
    → (blocks q refs ≡ blocks p refs) × IsLive q refs
blocks-SameBuffers p q [] s w = (refl, tt)
blocks-SameBuffers p q (r ∷ refs) s (b, e, n, w) =
    let (same, live) = blocks-SameBuffers p q refs s w in
    let here = s.same r.id in (ground (arith, e, here, same), (b, here ∙ e, n, live))

has_id-frozen : (j : ℕ) (refs : Refs) → has_id j (frozen refs) ≡ has_id j refs
has_id-frozen j [] = refl
has_id-frozen j (r ∷ refs) = ground (arith, has_id-frozen j refs)

pub owns-frozen : (j : ℕ) (refs : Refs) → owns j (frozen refs) ≡ false
owns-frozen j [] = refl
owns-frozen j (r ∷ refs) = owns-frozen j refs

pub blocks-frozen : (p : Pool) (refs : Refs) → blocks p (frozen refs) ≡ blocks p refs
blocks-frozen p [] = refl
blocks-frozen p (r ∷ refs) = ap (value (buffer_at r.id p) ∷◌) (blocks-frozen p refs)

pub length-frozen : (refs : Refs) → length (frozen refs) ≡ length refs
length-frozen [] = refl
length-frozen (r ∷ refs) = ap suc (length-frozen refs)

pub IsLive-frozen : (p : Pool) (refs : Refs) → IsLive p refs → IsLive p (frozen refs)
IsLive-frozen p [] w = tt
IsLive-frozen p (r ∷ refs) (b, e, n, w) =
    (b, e, has_id-frozen r.id refs ∙ n, IsLive-frozen p refs w)

pub freeze_step :
    (r : BufferRef) (refs : Refs) (p p1 q : Pool) (volume refs' : Refs)
    → link_buffer r.id p ≡ (ok tt, p1)
    → freeze refs p1 ≡ (ok volume, (q, refs'))
    → freeze (r ∷ refs) p ≡ (
      ok (record r { is_snapshoted = true } ∷ volume),
      (q, record r { is_snapshoted = true } ∷ refs'),
    )
unfolding freeze
freeze_step r refs p p1 q volume refs' e1 e2 = rw (e1, e2) refl

-- The loop over a live list returns: the list and its copy are frozen, and no buffer changes.
pub freeze_lem :
    (refs : Refs) (p : Pool)
    → IsLive p refs
    → (q : Pool) × (freeze refs p ≡ (ok (frozen refs), (q, frozen refs))) × SameBuffers p q
freeze_lem [] p w =
    (p, (unfold freeze in refl), record { same = λ j. refl; size = refl; limit = refl })
freeze_lem (r ∷ refs) p (b, e, n, w) =
    let (p1, l) = link_lem r.id b p e in
    let first : SameBuffers p p1 = record { same = l.same; size = l.size; limit = l.limit } in
    let (q, ret, rest) = freeze_lem refs p1 (blocks-SameBuffers p p1 refs first w).1 in
    (
      q,
      freeze_step r refs p p1 q (frozen refs) (frozen refs) l.returns ret,
      SameBuffers-trans p p1 q first rest,
    )
