-- ===== src/Inode/Deletion.antt =====
-- `delete_volume` and `create_new_volume` of src/htmpfs/htmpfs.cpp on references and link counts.
use htmpfs.Prelude.{
  Option, ℕ, ◌+◌, ◌*◌, ◌<◌, ◌≤◌, ◌≡◌, refl, sym, ap, ◌∙◌, false, none, some, [], ◌∷◌, arith, length,
  concat, u64_mod, subst,
}
use htmpfs.Prelude.Map
use htmpfs.Prelude.Map.{Map, bytes_key, find-assign, find-erase, find-emplace_kept}
use htmpfs.Prelude.Sums.{sum-find, sum-assign, sum-erase, sum-emplace}
use htmpfs.Prelude.Bytes.{bytes_eq, bytes_eq_refl}
use htmpfs.Errors.{ok, throws, out_of_range, no_such_snapshot}
use htmpfs.Exec.{raise}
use htmpfs.Exec.Keeps.{Keeps, if-runs-Keeps, lookup-Keeps}
use htmpfs.Pool.{Pool, Refs}
use htmpfs.Pool.Laws.{buffer_at}
use htmpfs.Pool.Links.{links}
use htmpfs.Blocks.{freeze, unlink_all}
use htmpfs.Blocks.Freeze.{frozen}
use htmpfs.Blocks.Layout.{IsLaidOut}
use htmpfs.Blocks.Links.{uses}
use htmpfs.Blocks.View.{blocks, IsLive}
use htmpfs.Blocks.Volumes.{uses-frozen, freeze-links, unlink_all_lem, Released}
use htmpfs.Inode.{
  Inode, Version, current, on_pool, put_volume, create_new_volume, erase_volume, delete_volume,
}
use htmpfs.Inode.Links.{Counted}
use htmpfs.Inode.Truncate.{content}
use htmpfs.Inode.Whole.{HasFile}

-- The inode after `delete_volume`.
abbrev pub without : Version → Inode → Inode
without version inode = record inode { buffer_map = Map.erase version inode.buffer_map }

delete_step :
    (version : Version) (p q : Pool) (inode : Inode) (refs : Refs)
    → bytes_eq version current ≡ false
    → Map.find version inode.buffer_map ≡ some refs
    → unlink_all refs p ≡ (ok tt, q)
    → delete_volume version (p, inode) ≡ (ok tt, (q, without version inode))
unfolding delete_volume
delete_step version p q inode refs e0 e1 e2 = ground (arith, e0, e1, e2)

module _ (f : ℕ → ℕ) (version : Version) (p : Pool) (inode : Inode) (refs : Refs)
    (counted : Counted f (p, inode)) (found : Map.find version inode.buffer_map ≡ some refs) where
  pub released : (q : Pool) × Released refs p q
  released =
      unlink_all_lem refs p counted.0
        (λ j. omega (arith, counted.1 j, sum-find (uses j) version inode.buffer_map refs found))

  pub without-Counted : (q : Pool) → Released refs p q → Counted f (q, without version inode)
  without-Counted q z = (
    z.bounded,
    λ j.
        omega
          (arith, counted.1 j, z.dropped j, sum-erase (uses j) version inode.buffer_map refs found),
  )

pub delete_volume-Counted :
    (f : ℕ → ℕ) (version : Version) → Keeps (Counted f) (delete_volume version)
unfolding delete_volume
delete_volume-Counted f version (p, inode) w =
    if-runs-Keeps (Counted f) (bytes_eq version current) _ _ w (
      lookup-Keeps (Counted f) (Map.find version inode.buffer_map)
        (raise no_such_snapshot (p, inode))
        (λ refs. erase_volume version (on_pool (unlink_all refs) (p, inode))) w
        λ refs e.
          let (q, z) = released f version p inode refs w e in
          rw z.returns (without-Counted f version p inode refs w e q z))

-- A list whose nodes keep their buffers keeps its blocks.
kept-IsLive :
    (p q : Pool) (refs : Refs)
    → ((j : ℕ) → 0 < uses j refs → buffer_at j q ≡ buffer_at j p)
    → IsLive p refs
    → (blocks q refs ≡ blocks p refs) × IsLive q refs
kept-IsLive p q [] k w = (refl, tt)
kept-IsLive p q (r ∷ refs) k (b, e, n, w) =
    let (same, live) = kept-IsLive p q refs (λ j u. k j (omega arith)) w in
    let here = k r.id (ground arith) in (ground (arith, e, here, same), (b, here ∙ e, n, live))

HasFile-kept :
    (version : Version) (p q : Pool) (inode inode' : Inode) (kept : Refs)
    → HasFile version p inode kept
    → Map.find version inode'.buffer_map ≡ some kept
    → inode'.block_size ≡ inode.block_size
    → (blocks q kept ≡ blocks p kept) × IsLive q kept
    → HasFile version q inode' kept
HasFile-kept version p q inode inode' kept h found size (same, live) = record {
  found = found;
  file = record {
    positive = subst (λ n. 0 < n) (sym size) h.file.positive;
    small = subst (λ n. n < u64_mod) (sym size) h.file.small;
    fits = subst (λ n. length kept * n < u64_mod) (sym size) h.file.fits;
    live = live;
    laid =
        subst (λ n. IsLaidOut n (blocks q kept)) (sym size)
          (subst (IsLaidOut inode.block_size) (sym same) h.file.laid);
  };
  bytes_small = subst (λ l. length (concat l) < u64_mod) (sym same) h.bytes_small;
}

-- `delete_volume` of a snapshot of an inode returns; the inode does not have the version any more. Every
-- other version, the current one too, keeps its blocks, in order and with the same bytes, and no node
-- that something else has a link to changes. Before and after, each reference of the inode has its link
-- beside the `f` links of the rest of the world.
pub delete_volume-HasFile :
    (f : ℕ → ℕ) (version other : Version) (p : Pool) (inode : Inode) (refs kept : Refs)
    → Counted f (p, inode)
    → bytes_eq version current ≡ false
    → Map.find version inode.buffer_map ≡ some refs
    → bytes_eq other version ≡ false
    → HasFile other p inode kept
    → (q : Pool) × (inode' : Inode) × (delete_volume version (p, inode) ≡ (ok tt, (q, inode')))
      × (Map.find version inode'.buffer_map ≡ none)
      × HasFile other q inode' kept
      × (content q kept ≡ content p kept)
      × Counted f (q, inode')
      × ((j : ℕ) → 0 < f j → buffer_at j q ≡ buffer_at j p)
delete_volume-HasFile f version other p inode refs kept counted snapshot found differs h =
    let (q, z) = released f version p inode refs counted found in
    let after : Counted f (q, without version inode) =
      without-Counted f version p inode refs counted found q z in
    let still : Map.find other (Map.erase version inode.buffer_map) ≡ some kept =
      find-erase other version inode.buffer_map ∙ rw differs h.found in
    let live =
      kept-IsLive p q kept
        (λ j u. z.kept j (
          omega (
            arith,
            after.1 j,
            sum-find (uses j) other (Map.erase version inode.buffer_map) kept still,
          )))
        h.file.live in
    (
      q,
      without version inode,
      delete_step version p q inode refs snapshot found z.returns,
      find-erase version version inode.buffer_map ∙ rw (bytes_eq_refl version) refl,
      HasFile-kept other p q inode (without version inode) kept h still refl live,
      ap concat live.0,
      after,
      λ j u. z.kept j (omega (arith, after.1 j)),
    )

abbrev pub refs_at : Option Refs → Refs
refs_at none = []
refs_at (some refs) = refs

-- The references of the current version.
abbrev pub current_refs : Inode → Refs
current_refs inode = refs_at (Map.find current inode.buffer_map)

-- Whether it refuses or not, `create_new_volume` copies at most the current version's references, and
-- leaves the current version with them.
pub record Copied (f : ℕ → ℕ) (p : Pool) (inode : Inode) (s : Pool × Inode) : Type 0 where
  pub counted : Counted f s
  pub more : (j : ℕ) → links j s.0 ≤ links j p + uses j (current_refs inode)
  pub same : (j : ℕ) → uses j (current_refs s.1) ≡ uses j (current_refs inode)

Copied-refl :
    (f : ℕ → ℕ) (p : Pool) (inode : Inode) → Counted f (p, inode) → Copied f p inode (p, inode)
Copied-refl f p inode w = record { counted = w; more = λ j. omega arith; same = λ j. refl }

volume-Copied :
    (f : ℕ → ℕ) (version : Version) (p : Pool) (inode : Inode) (refs : Refs)
    → Counted f (p, inode)
    → Map.find current inode.buffer_map ≡ some refs
    → ((j : ℕ) → links j p + uses j (current_refs inode) < u64_mod)
    → Copied f p inode (put_volume version inode (freeze refs p)).1
volume-Copied f version p inode refs (w, h) found room =
    let is_current : current_refs inode ≡ refs = ap refs_at found in
    let counts : (j : ℕ) → uses j (current_refs inode) ≡ uses j refs =
      (λ j. ap (uses j) is_current) in
    let (q, ret, more) =
      freeze-links refs p
        (λ j. omega (arith, h j, sum-find (uses j) current inode.buffer_map refs found))
        (λ j. omega (arith, room j, counts j)) in
    let kept : Map.find current (Map.assign current (frozen refs) inode.buffer_map)
        ≡ some (frozen refs) =
      find-assign current current (frozen refs) inode.buffer_map refs found
      ∙ rw (bytes_eq_refl current) refl in
    let still =
      find-emplace_kept version current (frozen refs) (frozen refs)
        (Map.assign current (frozen refs) inode.buffer_map) kept in
    rw ret (record {
      counted = (
        λ j. omega (arith, room j, counts j, more j),
        λ j. omega (
          arith,
          h j,
          more j,
          uses-frozen j refs,
          sum-assign (uses j) current (frozen refs) inode.buffer_map refs found,
          sum-emplace (uses j) version (frozen refs)
              (Map.assign current (frozen refs) inode.buffer_map),
        ),
      );
      more = λ j. omega (arith, more j, counts j);
      same = λ j. ap (λ o. uses j (refs_at o)) still ∙ uses-frozen j refs ∙ sym (counts j);
    })

pub create_new_volume-Copied :
    (f : ℕ → ℕ) (version : Version) (p : Pool) (inode : Inode)
    → Counted f (p, inode)
    → ((j : ℕ) → links j p + uses j (current_refs inode) < u64_mod)
    → Copied f p inode (create_new_volume version (p, inode)).1
unfolding create_new_volume
create_new_volume-Copied f version p inode w room =
    if-runs-Keeps (Copied f p inode) (Map.contains version inode.buffer_map) _ _
      (Copied-refl f p inode w)
      (lookup-Keeps (Copied f p inode) (Map.find current inode.buffer_map)
        (throws out_of_range, (p, inode)) (λ refs. put_volume version inode (freeze refs p))
        (Copied-refl f p inode w) (λ refs e. volume-Copied f version p inode refs w e room))
