-- ===== src/Pool.antt =====
-- The buffer pool of `inode_smi_t` (src/htmpfs/htmpfs.cpp): blocks under 64-bit ids, with a count
-- of the links to each. A `buffer_t *` into the pool is the id of its node; following one whose
-- node is gone is undefined.
pub mod FreeId
pub mod Laws
pub mod Links
use htmpfs.Prelude.{
  ℕ, zero, suc, ◌+◌, ◌-◌, ◌%◌, Bool, true, false, Option, none, some, List, [], length, ◌==◌,
  if◌then◌else◌, add64, u64_mod,
}
use htmpfs.Prelude.Map
use htmpfs.Prelude.Map.{Map, id_key}
use htmpfs.Errors.{
  Outcome, ok, throw, throws, undefined, buffer_id_depleted, requested_buffer_not_found,
}
use htmpfs.Exec.{Exec, pure, raise, ◌>>=◌, ◌>>◌}
use htmpfs.Buffer.{Buffer}

-- `buffer_pack_t`
pub record BufferPack : Type 0 where
  pub link_count : ℕ
  pub buffer : Buffer

-- The map `buffer_pool`, and what its `max_size()` returns.
pub record Pool : Type 0 where
  pub max_size : ℕ
  pub packs : Map ℕ BufferPack

-- `buffer_result_t`; `data` points at the buffer of the node `id`.
pub record BufferRef : Type 0 where
  pub id : ℕ
  pub is_snapshoted : Bool

abbrev pub Refs : Type 0
Refs = List BufferRef

-- The loop of `get_free_id`. Fuel `pool.size() + 1` is enough, since so many ids cannot all be taken.
unfoldable pub free_id_loop : {V : Type 0} → ℕ → ℕ → Map ℕ V → Outcome ℕ
free_id_loop zero id pool = undefined
free_id_loop (suc fuel) id pool = elim (Map.contains id pool) [
  | true ↦ free_id_loop fuel (add64 id 1) pool
  | false ↦ ok id
]

-- `get_free_id(pool)` of htmpfs.h, for a pool whose `max_size()` is `limit`.
unfoldable pub get_free_id : {V : Type 0} → ℕ → Map ℕ V → Outcome ℕ
get_free_id limit pool =
    if length pool == limit
    then throw buffer_id_depleted
    else free_id_loop (suc (length pool)) (length pool) pool

abbrev pub fresh_pack : BufferPack
fresh_pack = record { link_count = 1; buffer = [] }

abbrev request : Outcome ℕ → Exec Pool BufferRef
request (ok id) p =
    pure (record { id = id; is_snapshoted = false })
      (record p { packs = Map.emplace id fresh_pack p.packs })
request (throws e) p = (throws e, p)
request undefined p = (undefined, p)

-- `request_buffer_allocation()`
unfoldable pub request_buffer_allocation : Exec Pool BufferRef
request_buffer_allocation p = request (get_free_id p.max_size p.packs) p

-- `unlink_buffer(buffer_id)`
unfoldable pub unlink_buffer : ℕ → Exec Pool (Unit {0})
unlink_buffer id p = elim (Map.find id p.packs) [
  | none ↦ raise requested_buffer_not_found p
  | some pack ↦
      if pack.link_count == 1
      then pure tt (record p { packs = Map.erase id p.packs })
      else pure tt (record p {
        packs =
            Map.assign id (record pack { link_count = (pack.link_count + u64_mod - 1) % u64_mod })
              p.packs;
      })
]

-- `link_buffer(buffer_id)`
unfoldable pub link_buffer : ℕ → Exec Pool (Unit {0})
link_buffer id p = elim (Map.find id p.packs) [
  | none ↦ raise requested_buffer_not_found p
  | some pack ↦ pure tt (record p {
    packs = Map.assign id (record pack { link_count = add64 pack.link_count 1 }) p.packs;
  })
]

-- `get_buffer_by_id(buffer_id)`: the pointer is the id, once the node is there.
unfoldable pub get_buffer_by_id : ℕ → Exec Pool ℕ
get_buffer_by_id id p = elim (Map.find id p.packs) [
  | none ↦ raise requested_buffer_not_found p
  | some pack ↦ pure id p
]

-- `data->`: the buffer that a reference points at.
unfoldable pub load : ℕ → Exec Pool Buffer
load id p = elim (Map.find id p.packs) [ none ↦ (undefined, p) | some pack ↦ (ok pack.buffer, p) ]

-- A method of `buffer_t` called through the pointer stores the buffer that it leaves.
unfoldable pub store : ℕ → Buffer → Exec Pool (Unit {0})
store id b p = elim (Map.find id p.packs) [
  | none ↦ (undefined, p)
  | some pack ↦ pure tt (record p { packs = Map.assign id (record pack { buffer = b }) p.packs })
]
