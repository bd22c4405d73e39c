-- ===== src/Blocks/Thaw.antt =====
-- The reallocation of frozen blocks.
use htmpfs.Prelude.{
  ℕ, zero, suc, ◌+◌, ◌≤◌, ◌<◌, ◌≡◌, refl, ap, ◌∙◌, true, false, none, some, [], ◌∷◌, length, arith,
  take, drop, take_all, ◌==◌, u64_mod, Bool-cases, inl, inr, resize,
}
use htmpfs.Errors.{ok}
use htmpfs.Buffer
use htmpfs.Buffer.{Buffer}
use htmpfs.Buffer.Content.{read-slice, write-resize}
use htmpfs.Pool.{Pool, BufferRef, Refs, request_buffer_allocation, load, store}
use htmpfs.Pool.Laws.{buffer_at, HasRoom, Updates, load_lem, store_lem, request_lem}
use htmpfs.Blocks.{replace, thaw, thaw_range}
use htmpfs.Blocks.View.{
  blocks, IsLive, AllFit, AllThawed, Extends, NoStealing, blocks-Extends, IsLive-Extends,
  has_id-fresh,
}

pub record Replaced (block_size : ℕ) (b : Buffer) (r : BufferRef) (p : Pool) (r' : BufferRef)
    (q : Pool) : Type 0 where
  pub returns : replace block_size r p ≡ (ok r', q)
  pub fresh : buffer_at r'.id p ≡ none
  pub unfrozen : r'.is_snapshoted ≡ false
  pub updates : Updates r'.id b p q
  pub size : length q.packs ≡ suc (length p.packs)
  pub limit : q.max_size ≡ p.max_size

read_whole : (b : Buffer) (n : ℕ) → length b ≤ n → n < u64_mod → Buffer.read b n 0 ≡ b
read_whole b n h small = read-slice b n 0 (omega arith) ∙ take_all n b h

write_whole : (b : Buffer) → length b < u64_mod → (Buffer.write [] b (length b) 0 true).1 ≡ b
unfolding resize
write_whole b small =
    ap {A = ℕ × Buffer} (λ s. s.1) (write-resize [] b (length b) 0 (omega arith) (omega arith))
    ∙ take_all (length b) b (omega arith)

replace_returns :
    (block_size : ℕ) (b : Buffer) (r r' : BufferRef) (p p1 q : Pool)
    → load r.id p ≡ (ok b, p)
    → Buffer.read b block_size 0 ≡ b
    → request_buffer_allocation p ≡ (ok r', p1)
    → load r'.id p1 ≡ (ok [], p1)
    → (Buffer.write [] b (length b) 0 true).1 ≡ b
    → store r'.id b p1 ≡ (ok tt, q)
    → replace block_size r p ≡ (ok r', q)
unfolding replace
replace_returns block_size b r r' p p1 q e1 e2 e3 e4 e5 e6 = rw (e1, e2, e3, e4, e5, e6)

pub replace_lem :
    (block_size n : ℕ) (b : Buffer) (r : BufferRef) (p : Pool)
    → buffer_at r.id p ≡ some b
    → length b ≤ block_size
    → block_size < u64_mod
    → HasRoom (suc n) p
    → (r' : BufferRef) × (q : Pool) × Replaced block_size b r p r' q
replace_lem block_size n b r p e fits small room =
    let (r', p1, a) = request_lem n p room in
    let old : buffer_at r'.id p1 ≡ some [] = ground (arith, a.updates r'.id) in
    let (q, st) = store_lem r'.id b [] p1 old in
    (
      r',
      q,
      record {
        returns =
            replace_returns block_size b r r' p p1 q (load_lem r.id p b e)
              (read_whole b block_size fits small) a.returns (load_lem r'.id p1 [] old)
              (write_whole b (omega arith)) st.returns;
        fresh = a.fresh;
        unfrozen = a.unfrozen;
        updates = λ j. ground (arith, a.updates j, st.updates j);
        size = omega (arith, a.size, st.size);
        limit = st.limit ∙ a.limit;
      },
    )

-- What reallocating the frozen blocks among some references brings about: the same bytes behind a
-- list that reaches them all, with every older node kept and none taken over.
pub record Thawed (n : ℕ) (p : Pool) (refs : Refs) (q : Pool) (refs' : Refs) : Type 0 where
  pub extends : Extends p q
  pub apart : NoStealing p refs refs'
  pub live : IsLive q refs'
  pub same : blocks q refs' ≡ blocks p refs
  pub size : length q.packs ≤ length p.packs + n
  pub limit : q.max_size ≡ p.max_size
  pub count : length refs' ≡ length refs

Thawed-refl : (n : ℕ) (p : Pool) (refs : Refs) → IsLive p refs → Thawed n p refs p refs
Thawed-refl n p refs w = record {
  extends = λ j b e. e;
  apart = λ j b e. (λ h. h, λ h. h);
  live = w;
  same = refl;
  size = omega arith;
  limit = refl;
  count = refl;
}

-- An element that stays in front of a list that is thawed.
Thawed-keep :
    (n : ℕ) (p q : Pool) (r : BufferRef) (refs refs' : Refs)
    → IsLive p (r ∷ refs)
    → Thawed n p refs q refs'
    → Thawed n p (r ∷ refs) q (r ∷ refs')
Thawed-keep n p q r refs refs' (b, e, absent, w) t = record {
  extends = t.extends;
  apart = λ j c k. (λ h. ground (arith, (t.apart j c k).0), λ h. ground (arith, (t.apart j c k).1));
  live = (b, t.extends r.id b e, (t.apart r.id b e).0 absent, t.live);
  same = ground (arith, t.same, t.extends r.id b e);
  size = t.size;
  limit = t.limit;
  count = ap suc t.count;
}

Thawed-more :
    (n : ℕ) (p q : Pool) (refs refs' : Refs)
    → Thawed n p refs q refs'
    → Thawed (suc n) p refs q refs'
Thawed-more n p q refs refs' t = record {
  extends = t.extends;
  apart = t.apart;
  live = t.live;
  same = t.same;
  size = omega (arith, t.size);
  limit = t.limit;
  count = t.count;
}

-- An element that is replaced in front of a list that is thawed afterwards.
Thawed-replace :
    (n block_size : ℕ) (p p1 q : Pool) (b : Buffer) (r r' : BufferRef) (refs refs' : Refs)
    → IsLive p (r ∷ refs)
    → buffer_at r.id p ≡ some b
    → Replaced block_size b r p r' p1
    → Thawed n p1 refs q refs'
    → Thawed (suc n) p (r ∷ refs) q (r' ∷ refs')
Thawed-replace n block_size p p1 q b r r' refs refs' (b', e', absent, w) e a t =
    let grown : Extends p p1 = (λ j c k. ground (arith, a.updates j, a.fresh)) in
    let here : buffer_at r'.id p1 ≡ some b = ground (arith, a.updates r'.id) in
    record {
      extends = λ j c k. t.extends j c (grown j c k);
      apart = λ j c k.
          let other : (j == r'.id) ≡ false = ground (arith, a.fresh) in
          (
            λ h. ground (arith, (t.apart j c (grown j c k)).0, other),
            λ h. ground (arith, (t.apart j c (grown j c k)).1, other, a.unfrozen),
          );
      live = (
        b,
        t.extends r'.id b here,
        (t.apart r'.id b here).0 (has_id-fresh r'.id p refs a.fresh w),
        t.live,
      );
      same = ground (arith, t.same, t.extends r'.id b here, blocks-Extends p p1 refs grown w);
      size = omega (arith, t.size, a.size);
      limit = t.limit ∙ a.limit;
      count = ap suc t.count;
    }

module _ (block_size : ℕ) (small : block_size < u64_mod) where
  -- What the loop over `n` elements from element `start` on returns.
  abbrev pub Thaws : ℕ → ℕ → Refs → Pool → Type 0
  Thaws start n refs p =
      (q : Pool) × (refs' : Refs) × (thaw_range block_size start n refs p ≡ (ok tt, (q, refs')))
      × Thawed n p refs q refs'
      × AllThawed (take n (drop start refs'))

  thaw_step :
      (n : ℕ) (r r' : BufferRef) (refs refs' : Refs) (p p1 q : Pool)
      → thaw block_size r p ≡ (ok r', p1)
      → thaw_range block_size 0 n refs p1 ≡ (ok tt, (q, refs'))
      → thaw_range block_size 0 (suc n) (r ∷ refs) p ≡ (ok tt, (q, r' ∷ refs'))
  unfolding thaw_range
  thaw_step n r r' refs refs' p p1 q e1 e2 = rw (e1, e2)

  thaw_skip :
      (start n : ℕ) (r : BufferRef) (refs refs' : Refs) (p q : Pool)
      → thaw_range block_size start n refs p ≡ (ok tt, (q, refs'))
      → thaw_range block_size (suc start) n (r ∷ refs) p ≡ (ok tt, (q, r ∷ refs'))
  unfolding thaw_range
  thaw_skip start zero r refs refs' p q e = rw e
  thaw_skip start (suc n) r refs refs' p q e = rw e

  thaw-frozen :
      (r : BufferRef) (p : Pool)
      → r.is_snapshoted ≡ true
      → thaw block_size r p ≡ replace block_size r p
  unfolding thaw
  thaw-frozen r p h = ground arith

  thaw-free : (r : BufferRef) (p : Pool) → r.is_snapshoted ≡ false → thaw block_size r p ≡ (ok r, p)
  unfolding thaw
  thaw-free r p h = ground arith

  pub thaw_range_lem :
      (start n : ℕ) (refs : Refs) (p : Pool)
      → start + n ≤ length refs
      → IsLive p refs
      → AllFit block_size (blocks p refs)
      → HasRoom n p
      → Thaws start n refs p
  thaw_range_lem zero zero refs p h w f room =
      (p, refs, (unfold thaw_range in refl), Thawed-refl 0 p refs w, tt)
  thaw_range_lem zero (suc n) [] p h w f room = absurd (omega arith)
  thaw_range_lem zero (suc n) (r ∷ refs) p h (b, e, absent, w) (fits, f) room =
      elim (Bool-cases r.is_snapshoted) [
        | inl frozen ↦
            let (r', p1, a) = replace_lem block_size n b r p e (ground arith) small room in
            let grown : Extends p p1 = (λ j c k. ground (arith, a.updates j, a.fresh)) in
            let (q, refs', ret, t, un) =
              thaw_range_lem zero n refs p1 (omega arith) (IsLive-Extends p p1 refs grown w)
                (rw (blocks-Extends p p1 refs grown w) f)
                (record {
                  below_limit = omega (arith, a.size, a.limit);
                  small = omega (arith, a.size);
                }) in
            (
              q,
              r' ∷ refs',
              thaw_step n r r' refs refs' p p1 q (thaw-frozen r p frozen ∙ a.returns) ret,
              Thawed-replace n block_size p p1 q b r r' refs refs' (b, e, absent, w) e a t,
              (a.unfrozen, un),
            )
        | inr free ↦
            let (q, refs', ret, t, un) =
              thaw_range_lem zero n refs p (omega arith) w f (omega arith) in
            (
              q,
              r ∷ refs',
              thaw_step n r r refs refs' p p q (thaw-free r p free) ret,
              Thawed-more n p q (r ∷ refs) (r ∷ refs')
                  (Thawed-keep n p q r refs refs' (b, e, absent, w) t),
              (free, un),
            )
      ]
  thaw_range_lem (suc start) n [] p h w f room = absurd (omega arith)
  thaw_range_lem (suc start) n (r ∷ refs) p h (b, e, absent, w) (fits, f) room =
      let (q, refs', ret, t, un) = thaw_range_lem start n refs p (omega arith) w f room in
      (
        q,
        r ∷ refs',
        thaw_skip start n r refs refs' p q ret,
        Thawed-keep n p q r refs refs' (b, e, absent, w) t,
        un,
      )
