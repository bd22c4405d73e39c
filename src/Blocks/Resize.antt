-- ===== src/Blocks/Resize.antt =====
-- The loops of `truncate` that change the number of blocks and their sizes.
use htmpfs.Prelude.{
  ℕ, zero, suc, ◌+◌, ◌-◌, ◌≤◌, ◌≡◌, refl, sym, ap, ◌∙◌, false, some, List, [], ◌∷◌, ◌++◌, length,
  length-append, arith, take, take_all, take-append_le, ◌==◌, if◌then◌else◌, Bool-cases, inl, inr,
  resize, replicate, append-nil, append_assoc, pop_back, last_or, subst, length-pop_back,
}
use htmpfs.Errors.{ok}
use htmpfs.Exec.{pure}
use htmpfs.Buffer
use htmpfs.Buffer.{Buffer}
use htmpfs.Buffer.Content.{truncate-resize}
use htmpfs.Pool.{Pool, BufferRef, Refs, request_buffer_allocation, unlink_buffer, load, store}
use htmpfs.Pool.Laws.{buffer_at, HasRoom, load_lem, store_lem, request_lem, unlink_lem}
use htmpfs.Blocks.{grow, lose, truncate_blocks}
use htmpfs.Blocks.View.{
  blocks, has_id, owns, IsLive, Extends, NoStealing, blocks-Extends, IsLive-Extends, has_id-fresh,
  blocks-append, length-blocks, has_id-append, owns-append, blocks-Agree, IsLive-snoc,
  IsLive-unsnoc,
}

-- What appending `n` new blocks brings about.
pub record Grown (n : ℕ) (p : Pool) (refs : Refs) (q : Pool) (refs' : Refs) : Type 0 where
  pub extends : Extends p q
  pub apart : NoStealing p refs refs'
  pub live : IsLive q refs'
  pub bytes : blocks q refs' ≡ blocks p refs ++ replicate n []
  pub size : length q.packs ≡ length p.packs + n
  pub limit : q.max_size ≡ p.max_size
  pub count : length refs' ≡ length refs + n

grow_step :
    (n : ℕ) (p p1 q : Pool) (refs refs' : Refs) (r : BufferRef)
    → request_buffer_allocation p ≡ (ok r, p1)
    → grow n (p1, refs ++ r ∷ []) ≡ (ok tt, (q, refs'))
    → grow (suc n) (p, refs) ≡ (ok tt, (q, refs'))
unfolding grow
grow_step n p p1 q refs refs' r e1 e2 = rw (e1, e2)

pub grow_lem :
    (n : ℕ) (p : Pool) (refs : Refs)
    → IsLive p refs
    → HasRoom n p
    → (q : Pool) × (refs' : Refs) × (grow n (p, refs) ≡ (ok tt, (q, refs')))
      × Grown n p refs q refs'
grow_lem zero p refs w room = (
  p,
  refs,
  (unfold grow in refl),
  record {
    extends = λ j b e. e;
    apart = λ j b e. (λ h. h, λ h. h);
    live = w;
    bytes = sym (append-nil (blocks p refs));
    size = omega arith;
    limit = refl;
    count = omega arith;
  },
)
grow_lem (suc n) p refs w room =
    let (r, p1, a) = request_lem n p room in
    let grown : Extends p p1 = (λ j c k. ground (arith, a.updates j, a.fresh)) in
    let new : has_id r.id refs ≡ false = has_id-fresh r.id p refs a.fresh w in
    let here : buffer_at r.id p1 ≡ some [] = ground (arith, a.updates r.id) in
    let (q, refs', ret, g) =
      grow_lem n p1 (refs ++ r ∷ [])
        (IsLive-snoc p1 refs r [] (IsLive-Extends p p1 refs grown w) here new)
        (record { below_limit = omega (arith, a.size, a.limit); small = omega (arith, a.size) }) in
    (
      q,
      refs',
      grow_step n p p1 q refs refs' r a.returns ret,
      record {
        extends = λ j c k. g.extends j c (grown j c k);
        apart = λ j c k.
            let other : (j == r.id) ≡ false = ground (arith, a.fresh) in
            (
              λ h.
                  ground
                    (arith, (g.apart j c (grown j c k)).0, other, has_id-append j refs (r ∷ [])),
              λ h.
                  ground (arith, (g.apart j c (grown j c k)).1, other, owns-append j refs (r ∷ [])),
            );
        live = g.live;
        bytes =
            g.bytes
            ∙ ap (λ l. l ++ replicate n []) (blocks-append p1 refs (r ∷ []))
            ∙ append_assoc (blocks p1 refs) (blocks p1 (r ∷ [])) (replicate n [])
            ∙ rw (blocks-Extends p p1 refs grown w, here);
        size = omega (arith, g.size, a.size);
        limit = g.limit ∙ a.limit;
        count = omega (arith, g.count, length-append refs (r ∷ []));
      },
    )

-- What dropping the last blocks, down to `m` references, brings about.
pub record Lost (m : ℕ) (p : Pool) (refs : Refs) (q : Pool) (refs' : Refs) : Type 0 where
  pub kept : refs' ≡ take m refs
  pub others : (j : ℕ) → owns j refs ≡ false → buffer_at j q ≡ buffer_at j p
  pub live : IsLive q refs'
  pub bytes : blocks q refs' ≡ take m (blocks p refs)
  pub size : length q.packs ≤ length p.packs
  pub limit : q.max_size ≡ p.max_size

snoc_view : (r : BufferRef) (refs : Refs) → pop_back (r ∷ refs) ++ last_or refs r ∷ [] ≡ r ∷ refs
snoc_view r [] = refl
snoc_view r (x ∷ refs) = ap (r ∷◌) (snoc_view x refs)

-- One round: the last reference goes, and with it its node if it was not frozen.
record LostLast (p : Pool) (init : Refs) (r : BufferRef) (q : Pool) : Type 0 where
  returns : (if r.is_snapshoted then pure tt p else unlink_buffer r.id p) ≡ (ok tt, q)
  others : (j : ℕ) → owns j (init ++ r ∷ []) ≡ false → buffer_at j q ≡ buffer_at j p
  live : IsLive q init
  bytes : blocks q init ≡ blocks p init
  size : length q.packs ≤ length p.packs
  limit : q.max_size ≡ p.max_size

lose_last :
    (p : Pool) (init : Refs) (r : BufferRef)
    → IsLive p (init ++ r ∷ [])
    → (q : Pool) × LostLast p init r q
lose_last p init r w =
    let (live, absent, b, e) = IsLive-unsnoc p init r w in
    elim (Bool-cases r.is_snapshoted) [
      | inl frozen ↦ (
        p,
        record {
          returns = rw frozen;
          others = λ j h. refl;
          live = live;
          bytes = refl;
          size = omega arith;
          limit = refl;
        },
      )
      | inr free ↦
          let (q, u) = unlink_lem r.id b p e in
          let same = blocks-Agree r.id p q init u.others absent live in
          (
            q,
            record {
              returns = ground (arith, u.returns);
              others = λ j h. u.others j (ground (arith, owns-append j init (r ∷ [])));
              live = same.1;
              bytes = same.0;
              size = u.size;
              limit = u.limit;
            },
          )
    ]

lose_step :
    (n : ℕ) (p p1 q : Pool) (r : BufferRef) (refs refs' : Refs)
    → (let x = last_or refs r in if x.is_snapshoted then pure tt p else unlink_buffer x.id p)
      ≡ (ok tt, p1)
    → lose n (p1, pop_back (r ∷ refs)) ≡ (ok tt, (q, refs'))
    → lose (suc n) (p, r ∷ refs) ≡ (ok tt, (q, refs'))
unfolding lose
lose_step n p p1 q r refs refs' e1 e2 = rw (e1, e2)

Lost-snoc :
    (n : ℕ) (p p1 q : Pool) (init refs' : Refs) (x : BufferRef)
    → n ≤ length init
    → LostLast p init x p1
    → Lost (length init - n) p1 init q refs'
    → Lost (length (init ++ x ∷ []) - suc n) p (init ++ x ∷ []) q refs'
Lost-snoc n p p1 q init refs' x h l rest =
    let m : ℕ = length init - n in
    let m_eq : m ≡ length (init ++ x ∷ []) - suc n = omega (arith, length-append init (x ∷ [])) in
    subst (λ k. Lost k p (init ++ x ∷ []) q refs') m_eq
      (record {
        kept = rest.kept ∙ sym (take-append_le m init (x ∷ []) (omega arith));
        others = λ j o. rest.others j (ground (arith, owns-append j init (x ∷ []))) ∙ l.others j o;
        live = rest.live;
        bytes =
            rest.bytes
            ∙ ap (take m) l.bytes
            ∙ sym (
                take-append_le m (blocks p init) (blocks p (x ∷ []))
                  (omega (arith, length-blocks p init)))
            ∙ ap (take m) (sym (blocks-append p init (x ∷ [])));
        size = omega (arith, rest.size, l.size);
        limit = rest.limit ∙ l.limit;
      })

pub lose_lem :
    (n : ℕ) (p : Pool) (refs : Refs)
    → n ≤ length refs
    → IsLive p refs
    → (q : Pool) × (refs' : Refs) × (lose n (p, refs) ≡ (ok tt, (q, refs')))
      × Lost (length refs - n) p refs q refs'
lose_lem zero p refs h w = (
  p,
  refs,
  (unfold lose in refl),
  record {
    kept = sym (take_all (length refs - 0) refs (omega arith));
    others = λ j h. refl;
    live = w;
    bytes = sym (take_all (length refs - 0) (blocks p refs) (omega (arith, length-blocks p refs)));
    size = omega arith;
    limit = refl;
  },
)
lose_lem (suc n) p [] h w = absurd (omega arith)
lose_lem (suc n) p (r ∷ refs) h w =
    let init : Refs = pop_back (r ∷ refs) in
    let x : BufferRef = last_or refs r in
    let whole : init ++ x ∷ [] ≡ r ∷ refs = snoc_view r refs in
    let (p1, l) = lose_last p init x (rw whole w) in
    let enough : n ≤ length init = omega (arith, length-pop_back (r ∷ refs)) in
    let (q, refs', ret, rest) = lose_lem n p1 init enough l.live in
    (
      q,
      refs',
      lose_step n p p1 q r refs refs' l.returns ret,
      subst (λ k. Lost (length k - suc n) p k q refs') whole
          (Lost-snoc n p p1 q init refs' x enough l rest),
    )

-- Each block resized to its size, as far as there are sizes.
abbrev pub resize_each : List ℕ → List Buffer → List Buffer
resize_each [] bs = bs
resize_each (n ∷ ns) [] = []
resize_each (n ∷ ns) (b ∷ bs) = resize 0 n b ∷ resize_each ns bs

-- What resizing the first blocks of a list brings about.
pub record Sized (ns : List ℕ) (p : Pool) (refs : Refs) (q : Pool) : Type 0 where
  pub others : (j : ℕ) → has_id j refs ≡ false → buffer_at j q ≡ buffer_at j p
  pub live : IsLive q refs
  pub bytes : blocks q refs ≡ resize_each ns (blocks p refs)
  pub size : length q.packs ≡ length p.packs
  pub limit : q.max_size ≡ p.max_size

truncate_step :
    (n : ℕ) (ns : List ℕ) (b : Buffer) (p p1 q : Pool) (r : BufferRef) (refs : Refs)
    → load r.id p ≡ (ok b, p)
    → store r.id (Buffer.truncate n b) p ≡ (ok tt, p1)
    → truncate_blocks ns refs p1 ≡ (ok tt, q)
    → truncate_blocks (n ∷ ns) (r ∷ refs) p ≡ (ok tt, q)
unfolding truncate_blocks
truncate_step n ns b p p1 q r refs e1 e2 e3 = rw (e1, e2, e3)

pub truncate_blocks_lem :
    (ns : List ℕ) (refs : Refs) (p : Pool)
    → length ns ≤ length refs
    → IsLive p refs
    → (q : Pool) × (truncate_blocks ns refs p ≡ (ok tt, q)) × Sized ns p refs q
truncate_blocks_lem [] refs p h w = (
  p,
  (unfold truncate_blocks in refl),
  record { others = λ j e. refl; live = w; bytes = refl; size = refl; limit = refl },
)
truncate_blocks_lem (n ∷ ns) [] p h w = absurd (omega arith)
truncate_blocks_lem (n ∷ ns) (r ∷ refs) p h (b, e, absent, w) =
    let (p1, st) = store_lem r.id (Buffer.truncate n b) b p e in
    let kept : (j : ℕ) → (j == r.id) ≡ false → buffer_at j p1 ≡ buffer_at j p =
      (λ j ne. ground (arith, st.updates j)) in
    let same = blocks-Agree r.id p p1 refs kept absent w in
    let (q, ret, z) = truncate_blocks_lem ns refs p1 (omega arith) same.1 in
    let here : buffer_at r.id q ≡ some (Buffer.truncate n b) =
      ground (arith, z.others r.id absent, st.updates r.id) in
    (
      q,
      truncate_step n ns b p p1 q r refs (load_lem r.id p b e) st.returns ret,
      record {
        others = λ j f. ground (arith, z.others j, kept j);
        live = (Buffer.truncate n b, here, absent, z.live);
        bytes = ground (arith, here, e, z.bytes, same.0, truncate-resize n b);
        size = z.size ∙ st.size;
        limit = z.limit ∙ st.limit;
      },
    )
