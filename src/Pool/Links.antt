-- ===== src/Pool/Links.antt =====
-- The link counts of the buffer pool (src/htmpfs/htmpfs.cpp): what the operations of the pool do to
-- them, whether they return or throw.
use htmpfs.Prelude.{
  Bool-cases, inl, inr, ℕ, zero, suc, ◌+◌, ◌-◌, ◌%◌, ◌<◌, ◌≤◌, ◌≡◌, refl, false, true, Option, none,
  some, [], ◌∷◌, arith, ◌==◌, if◌then◌else◌, u64_mod, add64, length,
}
use htmpfs.Prelude.Map
use htmpfs.Prelude.Map.{Map, id_key, find-assign, find-emplace, find-erase}
use htmpfs.Pool.Laws.{buffer_at}
use htmpfs.Errors.{Outcome, ok, throws, undefined}
use htmpfs.Exec.Yields.{Yields, lookup-Yields}
use htmpfs.Buffer.{Buffer}
use htmpfs.Pool.{
  Pool, BufferPack, BufferRef, fresh_pack, free_id_loop, get_free_id, request,
  request_buffer_allocation, unlink_buffer, link_buffer, load, store,
}

abbrev pub count_of : Option BufferPack → ℕ
count_of none = 0
count_of (some pack) = pack.link_count

-- The link count of a node, 0 where there is none.
abbrev pub links : ℕ → Pool → ℕ
links j p = count_of (Map.find j p.packs)

-- The link counts are 64-bit numbers.
abbrev pub IsBounded : Pool → Type 0
IsBounded p = (j : ℕ) → links j p < u64_mod

abbrev pub one : ℕ → ℕ → ℕ
one id j = if j == id then 1 else 0

-- From `p` to `q` the link counts grow by at least `g`, and stay in range.
pub record Gains (p : Pool) (g : ℕ → ℕ) (q : Pool) : Type 0 where
  pub gained : (j : ℕ) → links j p + g j ≤ links j q
  pub bounded : IsBounded p → IsBounded q

abbrev pub nothing : ℕ → ℕ
nothing j = 0

pub Gains-refl : (p : Pool) → Gains p nothing p
Gains-refl p = record { gained = λ j. omega arith; bounded = λ b. b }

pub Gains-trans :
    (p q r : Pool) (g h : ℕ → ℕ) → Gains p g q → Gains q h r → Gains p (λ j. g j + h j) r
Gains-trans p q r g h a b = record {
  gained = λ j. omega (arith, a.gained j, b.gained j);
  bounded = λ w. b.bounded (a.bounded w);
}

pub Gains-less : (p q : Pool) (g h : ℕ → ℕ) → ((j : ℕ) → h j ≤ g j) → Gains p g q → Gains p h q
Gains-less p q g h le a = record {
  gained = λ j. omega (arith, a.gained j, le j);
  bounded = a.bounded;
}

-- A step that leaves the counts as they are.
abbrev pub Same : {A : Type 0} → Pool → Outcome A × Pool → Type 0
Same p r = Yields (λ a q. Gains p nothing q) (Gains p nothing) r

pub load-Same : (id : ℕ) (p : Pool) → Same p (load id p)
unfolding load
load-Same id p =
    lookup-Yields (λ a q. Gains p nothing q) (Gains p nothing) (Map.find id p.packs) (undefined, p)
      (λ pack. (ok pack.buffer, p)) (Gains-refl p) (λ pack e. Gains-refl p)

pub store-Same : (id : ℕ) (b : Buffer) (p : Pool) → Same p (store id b p)
unfolding store
store-Same id b p =
    lookup-Yields (λ a q. Gains p nothing q) (Gains p nothing) (Map.find id p.packs) (undefined, p)
      _ (Gains-refl p)
      λ pack e.
        let q : Pool = record p { packs = Map.assign id (record pack { buffer = b }) p.packs } in
        let same : (j : ℕ) → links j q ≡ links j p =
          (λ j. ground (arith, e, find-assign j id (record pack { buffer = b }) p.packs pack e)) in
        record { gained = λ j. omega (arith, same j); bounded = λ w j. omega (arith, same j, w j) }

free_id_loop-free :
    {V : Type 0} (n i : ℕ) (m : Map ℕ V) (id : ℕ)
    → free_id_loop n i m ≡ ok id
    → Map.contains id m ≡ false
unfolding free_id_loop
free_id_loop-free zero i m id h = absurd (ground arith)
free_id_loop-free (suc n) i m id h = ground (arith, free_id_loop-free n (add64 i 1) m id)

get_free_id-unused :
    {V : Type 0} (limit : ℕ) (m : Map ℕ V) (id : ℕ)
    → get_free_id limit m ≡ ok id
    → Map.contains id m ≡ false
unfolding get_free_id
get_free_id-unused limit m id h = ground (arith, free_id_loop-free (suc (length m)) (length m) m id)

find-absent : {V : Type 0} (id : ℕ) (m : Map ℕ V) → Map.contains id m ≡ false → Map.find id m ≡ none
unfolding Map.contains Map.find
find-absent id [] h = refl
find-absent id ((j, v) ∷ m) h = ground (arith, find-absent id m)

-- A new node has one link.
abbrev pub Requested : Pool → Outcome BufferRef × Pool → Type 0
Requested p r = Yields (λ r' q. Gains p (one r'.id) q) (Gains p nothing) r

emplaced-Gains :
    (id : ℕ) (p : Pool)
    → Map.find id p.packs ≡ none
    → Gains p (one id) (record p { packs = Map.emplace id fresh_pack p.packs })
emplaced-Gains id p absent =
    let q : Pool = record p { packs = Map.emplace id fresh_pack p.packs } in
    let now : (j : ℕ) → links j q ≡ links j p + one id j =
      (λ j. ground (arith, absent, find-emplace j id fresh_pack p.packs absent)) in
    let small : (j : ℕ) → IsBounded p → links j q < u64_mod =
      (λ j w. ground (arith, absent, find-emplace j id fresh_pack p.packs absent, w j)) in
    record { gained = λ j. omega (arith, now j); bounded = λ w j. small j w }

request-Requested :
    (p : Pool) (o : Outcome ℕ)
    → ((id : ℕ) → o ≡ ok id → Map.find id p.packs ≡ none)
    → Requested p (request o p)
request-Requested p (ok id) free = emplaced-Gains id p (free id refl)
request-Requested p (throws e) free = Gains-refl p
request-Requested p undefined free = Gains-refl p

pub request_buffer_allocation-Requested : (p : Pool) → Requested p (request_buffer_allocation p)
unfolding request_buffer_allocation
request_buffer_allocation-Requested p =
    request-Requested p (get_free_id p.max_size p.packs)
      (λ id e. find-absent id p.packs (get_free_id-unused p.max_size p.packs id e))

-- One link less on a node that has one: the node goes with its last link, and no buffer that is
-- still linked changes.
pub record Dropped (id : ℕ) (p q : Pool) : Type 0 where
  pub returns : unlink_buffer id p ≡ (ok tt, q)
  pub dropped : (j : ℕ) → links j p ≤ links j q + one id j
  pub fewer : (j : ℕ) → links j q ≤ links j p
  pub bounded : IsBounded q
  pub kept : (j : ℕ) → 0 < links j q → buffer_at j q ≡ buffer_at j p

pub node_at :
    (id : ℕ) (p : Pool) → 0 < links id p → (pack : BufferPack) × (Map.find id p.packs ≡ some pack)
node_at id p h = ground arith

last_link :
    (id : ℕ) (p : Pool) (pack : BufferPack)
    → IsBounded p
    → Map.find id p.packs ≡ some pack
    → (pack.link_count == 1) ≡ true
    → Dropped id p (record p { packs = Map.erase id p.packs })
unfolding unlink_buffer
last_link id p pack w e last = record {
  returns = rw (e, unlink_buffer, last);
  dropped = λ j. ground (arith, e, find-erase j id p.packs);
  fewer = λ j. ground (arith, find-erase j id p.packs);
  bounded = λ j. ground (arith, w j, find-erase j id p.packs);
  kept = λ j h. ground (arith, find-erase j id p.packs);
}

one_less :
    (id : ℕ) (p : Pool) (pack : BufferPack)
    → IsBounded p
    → Map.find id p.packs ≡ some pack
    → 0 < pack.link_count
    → (pack.link_count == 1) ≡ false
    → (q : Pool) × Dropped id p q
unfolding unlink_buffer
one_less id p pack w e pos more =
    let pack' : BufferPack = record pack {
      link_count = (pack.link_count + u64_mod - 1) % u64_mod;
    } in
    let small : pack.link_count < u64_mod = ground (arith, w id, e) in
    let count : pack'.link_count ≡ pack.link_count - 1 = omega arith in
    (
      record p { packs = Map.assign id pack' p.packs },
      record {
        returns = rw (e, unlink_buffer, more);
        dropped = λ j. ground (arith, e, count, find-assign j id pack' p.packs pack e);
        fewer = λ j. ground (arith, e, count, find-assign j id pack' p.packs pack e);
        bounded = λ j. ground (arith, w j, small, count, find-assign j id pack' p.packs pack e);
        kept = λ j h. ground (arith, e, find-assign j id pack' p.packs pack e);
      },
    )

pub unlink_one_lem :
    (id : ℕ) (p : Pool) → IsBounded p → 0 < links id p → (q : Pool) × Dropped id p q
unlink_one_lem id p w pos =
    let (pack, e) = node_at id p pos in
    elim (Bool-cases (pack.link_count == 1)) [
      | inl last ↦ (record p { packs = Map.erase id p.packs }, last_link id p pack w e last)
      | inr more ↦ one_less id p pack w e (ground (arith, e, pos)) more
    ]

-- One link more on a node, which is there and has links to spare.
pub record LinkedMore (id : ℕ) (p q : Pool) : Type 0 where
  pub returns : link_buffer id p ≡ (ok tt, q)
  pub linked : (j : ℕ) → links j q ≡ links j p + one id j

pub link_one_lem :
    (id : ℕ) (p : Pool) → 0 < links id p → links id p + 1 < u64_mod → (q : Pool) × LinkedMore id p q
unfolding link_buffer
link_one_lem id p pos room =
    let (pack, e) = node_at id p pos in
    let pack' : BufferPack = record pack { link_count = add64 pack.link_count 1 } in
    let count : pack'.link_count ≡ pack.link_count + 1 = ground (arith, e, room) in
    (
      record p { packs = Map.assign id pack' p.packs },
      record {
        returns = rw (e, link_buffer);
        linked = λ j. ground (arith, e, count, find-assign j id pack' p.packs pack e);
      },
    )
