-- ===== src/Pool/Laws.antt =====
-- What the operations of the pool do to the buffers that its ids reach.
use htmpfs.Prelude.{
  ℕ, suc, ◌+◌, ◌-◌, ◌*◌, ◌%◌, ◌<◌, ◌≤◌, ◌≡◌, refl, false, Option, none, some, [], ◌∷◌, length,
  arith, ◌==◌, if◌then◌else◌, u64_mod, add64, Bool-cases, inl, inr,
}
use htmpfs.Prelude.Map
use htmpfs.Prelude.Map.{Map, id_key}
use htmpfs.Errors.{ok}
use htmpfs.Buffer.{Buffer}
use htmpfs.Pool.{
  Pool, BufferPack, BufferRef, fresh_pack, request_buffer_allocation, unlink_buffer, link_buffer,
  load, store,
}
use htmpfs.Pool.FreeId.{get_free_id-free}

-- The buffer of a node.
abbrev pub buffer_of : Option BufferPack → Option Buffer
buffer_of none = none
buffer_of (some pack) = some pack.buffer

-- The buffer that an id reaches.
abbrev pub buffer_at : ℕ → Pool → Option Buffer
buffer_at id p = buffer_of (Map.find id p.packs)

-- So many allocations succeed: the pool stays below its limit, and ids below 2 ^ 64.
pub record HasRoom (n : ℕ) (p : Pool) : Type 0 where
  pub below_limit : length p.packs + n ≤ p.max_size
  pub small : 2 * (length p.packs + n) + 1 < u64_mod

-- The buffers of `p` are those of `q`, but for `b` at `id`.
abbrev pub Updates : ℕ → Buffer → Pool → Pool → Type 0
Updates id b p q = (j : ℕ) → buffer_at j q ≡ (if j == id then some b else buffer_at j p)

pub load_lem : (id : ℕ) (p : Pool) (b : Buffer) → buffer_at id p ≡ some b → load id p ≡ (ok b, p)
unfolding load
load_lem id p b h = ground arith

pub record Stored (id : ℕ) (b : Buffer) (p q : Pool) : Type 0 where
  pub returns : store id b p ≡ (ok tt, q)
  pub updates : Updates id b p q
  pub size : length q.packs ≡ length p.packs
  pub limit : q.max_size ≡ p.max_size

store_pack :
    (id : ℕ) (b old : Buffer) (p : Pool)
    → buffer_at id p ≡ some old
    → (pack : BufferPack) × (Map.find id p.packs ≡ some pack)
store_pack id b old p h = ground arith

pub store_lem :
    (id : ℕ) (b old : Buffer) (p : Pool) → buffer_at id p ≡ some old → (q : Pool) × Stored id b p q
unfolding store
store_lem id b old p h =
    let (pack, e) = store_pack id b old p h in
    let packs = Map.assign id (record pack { buffer = b }) p.packs in
    (
      record p { packs = packs },
      record {
        returns = rw (e, store);
        updates =
            λ j. ground (arith, Map.find-assign j id (record pack { buffer = b }) p.packs pack);
        size = Map.length-assign id (record pack { buffer = b }) p.packs;
        limit = refl;
      },
    )

pub record Allocated (p : Pool) (r : BufferRef) (q : Pool) : Type 0 where
  pub returns : request_buffer_allocation p ≡ (ok r, q)
  pub fresh : buffer_at r.id p ≡ none
  pub unfrozen : r.is_snapshoted ≡ false
  pub updates : Updates r.id [] p q
  pub size : length q.packs ≡ suc (length p.packs)
  pub limit : q.max_size ≡ p.max_size

find-contains :
    {V : Type 0} (id : ℕ) (m : Map ℕ V) → Map.contains id m ≡ false → Map.find id m ≡ none
unfolding Map.contains Map.find
find-contains id [] h = refl
find-contains id ((j, v) ∷ m) h = ground (arith, find-contains id m)

pub request_lem :
    (n : ℕ) (p : Pool) → HasRoom (suc n) p → (r : BufferRef) × (q : Pool) × Allocated p r q
unfolding request_buffer_allocation
request_lem n p room =
    let (id, e, free, bound) = get_free_id-free p.max_size p.packs (omega arith) (omega arith) in
    let absent = find-contains id p.packs free in
    (
      record { id = id; is_snapshoted = false },
      record p { packs = Map.emplace id fresh_pack p.packs },
      record {
        returns = rw e;
        fresh = rw absent;
        unfrozen = refl;
        updates = λ j. ground (arith, Map.find-emplace j id fresh_pack p.packs);
        size = Map.length-emplace id fresh_pack p.packs absent;
        limit = refl;
      },
    )

abbrev decreased : BufferPack → BufferPack
decreased pack = record pack { link_count = (pack.link_count + u64_mod - 1) % u64_mod }

-- Unlinking a node that is there succeeds, and leaves every other node as it is.
pub record Unlinked (id : ℕ) (p q : Pool) : Type 0 where
  pub returns : unlink_buffer id p ≡ (ok tt, q)
  pub others : (j : ℕ) → (j == id) ≡ false → buffer_at j q ≡ buffer_at j p
  pub size : length q.packs ≤ length p.packs
  pub limit : q.max_size ≡ p.max_size

pub unlink_lem :
    (id : ℕ) (b : Buffer) (p : Pool) → buffer_at id p ≡ some b → (q : Pool) × Unlinked id p q
unfolding unlink_buffer
unlink_lem id b p h =
    let (pack, e) = store_pack id b b p h in
    elim (Bool-cases (pack.link_count == 1)) [
      | inl single ↦ (
        record p { packs = Map.erase id p.packs },
        record {
          returns = rw (e, unlink_buffer, single);
          others = λ j ne. ground (arith, Map.find-erase j id p.packs);
          size = Map.length-erase_le id p.packs;
          limit = refl;
        },
      )
      | inr shared ↦ (
        record p { packs = Map.assign id (decreased pack) p.packs },
        record {
          returns = rw (e, unlink_buffer, shared);
          others = λ j ne. ground (arith, Map.find-assign j id (decreased pack) p.packs pack);
          size = omega (arith, Map.length-assign id (decreased pack) p.packs);
          limit = refl;
        },
      )
    ]

-- Linking a node that is there once more succeeds, and changes no buffer.
pub record Linked (id : ℕ) (p q : Pool) : Type 0 where
  pub returns : link_buffer id p ≡ (ok tt, q)
  pub same : (j : ℕ) → buffer_at j q ≡ buffer_at j p
  pub size : length q.packs ≡ length p.packs
  pub limit : q.max_size ≡ p.max_size

abbrev increased : BufferPack → BufferPack
increased pack = record pack { link_count = add64 pack.link_count 1 }

pub link_lem :
    (id : ℕ) (b : Buffer) (p : Pool) → buffer_at id p ≡ some b → (q : Pool) × Linked id p q
unfolding link_buffer
link_lem id b p h =
    let (pack, e) = store_pack id b b p h in
    (
      record p { packs = Map.assign id (increased pack) p.packs },
      record {
        returns = rw (e, link_buffer);
        same = λ j. elim (Bool-cases (j == id)) [
          | inl here ↦ ground (arith, Map.find-assign j id (increased pack) p.packs pack)
          | inr there ↦ ground (arith, Map.find-assign j id (increased pack) p.packs pack)
        ];
        size = Map.length-assign id (increased pack) p.packs;
        limit = refl;
      },
    )
