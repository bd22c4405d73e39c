-- ===== src/Tests/Files.antt =====
-- Instances of the theorems on inodes (src/htmpfs/htmpfs.cpp), on a file of six bytes in two blocks.
use htmpfs.Prelude.{
  ℕ, ◌*◌, ◌≤◌, ◌≡◌, refl, inl, List, [], ◌∷◌, Bool, true, false, none, arith, length,
}
use htmpfs.Prelude.Map
use htmpfs.Prelude.Map.{Map, id_key, bytes_key}
use htmpfs.Prelude.Bytes.{codes, bytes_eq}
use htmpfs.Errors.{ok, throws, out_of_range}
use htmpfs.Exec.{◌>>◌, ◌>>=◌}
use htmpfs.Inode.RoundTrip.{read-write}
use htmpfs.Pool.{Pool, BufferPack, BufferRef, Refs, get_free_id}
use htmpfs.Pool.Laws.{HasRoom}
use htmpfs.Pool.FreeId.{get_free_id-free}
use htmpfs.Inode.{
  Inode, Version, current, zero_stat, read, to_string, current_data_size, truncate, write,
  create_new_volume,
}
use htmpfs.Inode.Truncate.{content, IsFile, Truncated}
use htmpfs.Inode.Whole.{
  HasFile, read-content, read_end, to_string-content, current_data_size-length,
}
use htmpfs.Inode.Isolation.{IsApart, with_refs, truncate-Truncated, truncate-snapshot}
use htmpfs.Inode.Write.{Overwritten, write-Overwritten}
use htmpfs.Inode.Volume.{create_new_volume-content, snapshot_survives}

abbrev node : ℕ → List ℕ → BufferPack
node count bytes = record { link_count = count; buffer = bytes }

abbrev ref : ℕ → Bool → BufferRef
ref id frozen = record { id = id; is_snapshoted = frozen }

abbrev two_blocks : Pool
two_blocks = record {
  max_size = 1000;
  packs = (1, node 1 (5 ∷ 6 ∷ [])) ∷ (0, node 1 (1 ∷ 2 ∷ 3 ∷ 4 ∷ [])) ∷ [];
}

abbrev both : Refs
both = ref 0 false ∷ ref 1 false ∷ []

-- The same, as a snapshot leaves it.
abbrev shared : Refs
shared = ref 0 true ∷ ref 1 true ∷ []

abbrev monday : Version
monday = codes "monday"

abbrev six_bytes : Inode
six_bytes = record {
  block_size = 4;
  inode_id = 7;
  is_dentry = false;
  buffer_map = (current, both) ∷ [];
  fs_stat = zero_stat;
}

abbrev saved : Inode
saved = record six_bytes { buffer_map = (monday, shared) ∷ (current, shared) ∷ [] }

abbrev full_block : Inode
full_block = record six_bytes { buffer_map = (current, ref 0 false ∷ []) ∷ [] }

both-HasFile : HasFile current two_blocks six_bytes both
unfolding Map.find bytes_eq
both-HasFile = record {
  found = refl;
  file = record {
    positive = omega arith;
    small = omega arith;
    fits = omega arith;
    live = (1 ∷ 2 ∷ 3 ∷ 4 ∷ [], refl, refl, (5 ∷ 6 ∷ [], refl, refl, tt));
    laid = refl;
  };
  bytes_small = omega arith;
}

full_block-HasFile : HasFile current two_blocks full_block (ref 0 false ∷ [])
unfolding Map.find bytes_eq
full_block-HasFile = record {
  found = refl;
  file = record {
    positive = omega arith;
    small = omega arith;
    fits = omega arith;
    live = (1 ∷ 2 ∷ 3 ∷ 4 ∷ [], refl, refl, tt);
    laid = refl;
  };
  bytes_small = omega arith;
}

shared-IsFile : IsFile 4 two_blocks shared
unfolding Map.find bytes_eq
shared-IsFile = record {
  positive = omega arith;
  small = omega arith;
  fits = omega arith;
  live = (1 ∷ 2 ∷ 3 ∷ 4 ∷ [], refl, refl, (5 ∷ 6 ∷ [], refl, refl, tt));
  laid = refl;
}

current-HasFile : HasFile current two_blocks saved shared
unfolding Map.find bytes_eq
current-HasFile = record { found = refl; file = shared-IsFile; bytes_small = omega arith }

monday-HasFile : HasFile monday two_blocks saved shared
unfolding Map.find bytes_eq
monday-HasFile = record { found = refl; file = shared-IsFile; bytes_small = omega arith }

shared-IsApart : IsApart shared shared
shared-IsApart = (refl, (refl, tt))

room : HasRoom 4 two_blocks
room = record { below_limit = omega arith; small = omega arith }

no_monday : Map.find monday six_bytes.buffer_map ≡ none
unfolding Map.find bytes_eq
no_monday = refl

monday_differs : bytes_eq monday current ≡ false
unfolding bytes_eq
monday_differs = refl

snapshot_survives_example :
    (q : Pool) × (inode' : Inode) × (kept : Refs) × ((create_new_volume monday >> truncate 5)
        (two_blocks, six_bytes)
      ≡ (ok tt, (q, inode')))
    × HasFile monday q inode' kept
    × (content q kept ≡ content two_blocks both)
snapshot_survives_example =
    snapshot_survives 5 monday two_blocks six_bytes both no_monday both-HasFile room

truncate-snapshot_example :
    (q : Pool) × (inode' : Inode) × (truncate 5 (two_blocks, saved) ≡ (ok tt, (q, inode')))
    × HasFile monday q inode' shared
    × (content q shared ≡ content two_blocks shared)
truncate-snapshot_example =
    truncate-snapshot 5 monday two_blocks saved shared shared current-HasFile room monday_differs
      monday-HasFile shared-IsApart

truncate-Truncated_example :
    (q : Pool) × (refs' : Refs) × (truncate 5 (two_blocks, six_bytes)
      ≡ (ok tt, (q, with_refs refs' six_bytes)))
    × Truncated 4 5 two_blocks both q refs'
truncate-Truncated_example = truncate-Truncated 5 two_blocks six_bytes both both-HasFile room

write-Overwritten_example :
    (q : Pool) × (refs' : Refs) × (write (8 ∷ 9 ∷ 10 ∷ []) 3 2 true false (two_blocks, six_bytes)
      ≡ (ok 3, (q, with_refs refs' six_bytes)))
    × Overwritten 4 3 2 (8 ∷ 9 ∷ 10 ∷ []) two_blocks both q refs'
write-Overwritten_example =
    write-Overwritten 3 2 (8 ∷ 9 ∷ 10 ∷ []) two_blocks six_bytes both refl both-HasFile
      (omega arith) (omega arith) (omega arith) room

create_new_volume-content_example :
    (q : Pool) × (inode' : Inode) × (kept : Refs) × (create_new_volume monday
        (two_blocks, six_bytes)
      ≡ (ok tt, (q, inode')))
    × HasFile current q inode' kept
    × HasFile monday q inode' kept
    × (content q kept ≡ content two_blocks both)
    × IsApart kept kept
    × (inode'.block_size ≡ 4)
    × (length q.packs ≡ 2)
    × (q.max_size ≡ 1000)
create_new_volume-content_example =
    create_new_volume-content monday two_blocks six_bytes both no_monday both-HasFile

read-content_example :
    read current 3 2 (two_blocks, six_bytes) ≡ (ok (3 ∷ 4 ∷ 5 ∷ []), (two_blocks, six_bytes))
unfolding Map.find
read-content_example =
    read-content current 3 2 two_blocks six_bytes both both-HasFile (omega arith)
      (inl (omega arith))

read_end_example :
    read current 10 4 (two_blocks, full_block) ≡ (throws out_of_range, (two_blocks, full_block))
unfolding Map.find
read_end_example =
    read_end current 10 two_blocks full_block (ref 0 false ∷ []) full_block-HasFile (omega arith)
      refl

to_string-content_example :
    to_string current (two_blocks, six_bytes)
    ≡ (ok (1 ∷ 2 ∷ 3 ∷ 4 ∷ 5 ∷ 6 ∷ []), (two_blocks, six_bytes))
unfolding Map.find
to_string-content_example =
    to_string-content current two_blocks six_bytes both both-HasFile (omega arith)

current_data_size-length_example :
    current_data_size current (two_blocks, six_bytes) ≡ (ok 6, (two_blocks, six_bytes))
unfolding Map.find
current_data_size-length_example =
    current_data_size-length current two_blocks six_bytes both both-HasFile

get_free_id-free_example :
    (id : ℕ) × (get_free_id 1000 two_blocks.packs ≡ ok id)
    × (Map.contains id two_blocks.packs ≡ false)
    × (id ≤ 2 * length two_blocks.packs)
get_free_id-free_example = get_free_id-free 1000 two_blocks.packs (omega arith) (omega arith)

read-write_example :
    (q : Pool) × (refs' : Refs) × ((write (8 ∷ 9 ∷ 10 ∷ []) 3 2 true false >>= λ n.
    read current n 2)
        (two_blocks, six_bytes)
      ≡ (ok (8 ∷ 9 ∷ 10 ∷ []), (q, with_refs refs' six_bytes)))
    × HasFile current q (with_refs refs' six_bytes) refs'
read-write_example =
    read-write 3 2 (8 ∷ 9 ∷ 10 ∷ []) two_blocks six_bytes both refl both-HasFile (omega arith)
      (omega arith) (omega arith) room
