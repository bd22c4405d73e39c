-- ===== src/Blocks/Volumes.antt =====
-- The loops of `create_new_volume` and `delete_volume` (src/htmpfs/htmpfs.cpp) on link counts.
use htmpfs.Prelude.{ℕ, ◌+◌, ◌<◌, ◌≤◌, ◌≡◌, refl, ◌∙◌, [], ◌∷◌, arith, u64_mod}
use htmpfs.Errors.{ok}
use htmpfs.Pool.{Pool, BufferRef, Refs, unlink_buffer}
use htmpfs.Pool.Laws.{buffer_at}
use htmpfs.Pool.Links.{links, IsBounded, unlink_one_lem, link_one_lem}
use htmpfs.Blocks.{freeze, unlink_all}
use htmpfs.Blocks.Freeze.{frozen, freeze_step}
use htmpfs.Blocks.Links.{uses}

pub uses-frozen : (j : ℕ) (refs : Refs) → uses j (frozen refs) ≡ uses j refs
uses-frozen j [] = refl
uses-frozen j (r ∷ refs) = omega (arith, uses-frozen j refs)

-- The loop that freezes returns where each reference has its link and there are links to spare; each
-- reference then has one link more.
pub freeze-links :
    (refs : Refs) (p : Pool)
    → ((j : ℕ) → uses j refs ≤ links j p)
    → ((j : ℕ) → links j p + uses j refs < u64_mod)
    → (q : Pool) × (freeze refs p ≡ (ok (frozen refs), (q, frozen refs)))
      × ((j : ℕ) → links j q ≡ links j p + uses j refs)
freeze-links [] p h room = (p, (unfold freeze in refl), λ j. omega arith)
freeze-links (r ∷ refs) p h room =
    let (p1, l) = link_one_lem r.id p (ground (arith, h r.id)) (ground (arith, room r.id)) in
    let (q, ret, more) =
      freeze-links refs p1 (λ j. omega (arith, h j, l.linked j))
        (λ j. omega (arith, room j, l.linked j)) in
    (
      q,
      freeze_step r refs p p1 q (frozen refs) (frozen refs) l.returns ret,
      λ j. omega (arith, more j, l.linked j),
    )

-- What the loop over the references of a deleted volume brings about.
pub record Released (refs : Refs) (p q : Pool) : Type 0 where
  pub returns : unlink_all refs p ≡ (ok tt, q)
  pub dropped : (j : ℕ) → links j p ≤ links j q + uses j refs
  pub fewer : (j : ℕ) → links j q ≤ links j p
  pub bounded : IsBounded q
  pub kept : (j : ℕ) → 0 < links j q → buffer_at j q ≡ buffer_at j p

unlink_step :
    (r : BufferRef) (refs : Refs) (p p1 q : Pool)
    → unlink_buffer r.id p ≡ (ok tt, p1)
    → unlink_all refs p1 ≡ (ok tt, q)
    → unlink_all (r ∷ refs) p ≡ (ok tt, q)
unfolding unlink_all
unlink_step r refs p p1 q e1 e2 = rw e1 e2

pub unlink_all_lem :
    (refs : Refs) (p : Pool)
    → IsBounded p
    → ((j : ℕ) → uses j refs ≤ links j p)
    → (q : Pool) × Released refs p q
unlink_all_lem [] p w h = (
  p,
  record {
    returns = (unfold unlink_all in refl);
    dropped = λ j. omega arith;
    fewer = λ j. omega arith;
    bounded = w;
    kept = λ j e. refl;
  },
)
unlink_all_lem (r ∷ refs) p w h =
    let (p1, d) = unlink_one_lem r.id p w (ground (arith, h r.id)) in
    let (q, z) = unlink_all_lem refs p1 d.bounded (λ j. omega (arith, h j, d.dropped j)) in
    (
      q,
      record {
        returns = unlink_step r refs p p1 q d.returns z.returns;
        dropped = λ j. omega (arith, d.dropped j, z.dropped j);
        fewer = λ j. omega (arith, d.fewer j, z.fewer j);
        bounded = z.bounded;
        kept = λ j e. z.kept j e ∙ d.kept j (omega (arith, z.fewer j));
      },
    )
