-- ===== src/Tests/Volumes.antt =====
-- The deletion of a snapshot (src/htmpfs/htmpfs.cpp), on a file of six bytes in two blocks.
use htmpfs.Prelude.{ℕ, ◌<◌, ◌≡◌, refl, [], ◌∷◌, true, false, none, some, arith}
use htmpfs.Prelude.Map
use htmpfs.Prelude.Map.{id_key, bytes_key}
use htmpfs.Prelude.Bytes.{codes, bytes_eq}
use htmpfs.Errors.{ok}
use htmpfs.Pool.{Pool, BufferRef, Refs}
use htmpfs.Pool.Laws.{buffer_at}
use htmpfs.Inode.{Inode, Version, current, zero_stat, delete_volume}
use htmpfs.Inode.Deletion.{delete_volume-HasFile}
use htmpfs.Inode.Links.{Counted}
use htmpfs.Inode.Truncate.{content}
use htmpfs.Inode.Whole.{HasFile}

abbrev monday : Version
monday = codes "monday"

-- The first block is shared by both versions, the last one is the snapshot's.
abbrev pool : Pool
pool = record {
  max_size = 1000;
  packs =
      (1, record { link_count = 1; buffer = 5 ∷ 6 ∷ [] })
      ∷ (0, record { link_count = 2; buffer = 1 ∷ 2 ∷ 3 ∷ 4 ∷ [] })
      ∷ [];
}

abbrev ref : ℕ → BufferRef
ref id = record { id = id; is_snapshoted = true }

abbrev old_refs : Refs
old_refs = ref 0 ∷ ref 1 ∷ []

abbrev new_refs : Refs
new_refs = ref 0 ∷ []

abbrev file : Inode
file = record {
  block_size = 4;
  inode_id = 7;
  is_dentry = false;
  buffer_map = (monday, old_refs) ∷ (current, new_refs) ∷ [];
  fs_stat = zero_stat;
}

abbrev no_others : ℕ → ℕ
no_others j = 0

file-Counted : Counted no_others (pool, file)
unfolding Map.find
file-Counted = (λ j. ground arith, λ j. ground arith)

found_monday : Map.find monday file.buffer_map ≡ some old_refs
unfolding Map.find bytes_eq
found_monday = refl

monday_differs : bytes_eq monday current ≡ false
unfolding bytes_eq
monday_differs = refl

current_differs : bytes_eq current monday ≡ false
unfolding bytes_eq
current_differs = refl

current-HasFile : HasFile current pool file new_refs
unfolding Map.find bytes_eq
current-HasFile = record {
  found = refl;
  file = record {
    positive = omega arith;
    small = omega arith;
    fits = omega arith;
    live = (1 ∷ 2 ∷ 3 ∷ 4 ∷ [], refl, refl, tt);
    laid = refl;
  };
  bytes_small = omega arith;
}

delete_volume-HasFile_example :
    (q : Pool) × (inode' : Inode) × (delete_volume monday (pool, file) ≡ (ok tt, (q, inode')))
    × (Map.find monday inode'.buffer_map ≡ none)
    × HasFile current q inode' new_refs
    × (content q new_refs ≡ content pool new_refs)
    × Counted no_others (q, inode')
    × ((j : ℕ) → 0 < no_others j → buffer_at j q ≡ buffer_at j pool)
delete_volume-HasFile_example =
    delete_volume-HasFile no_others monday current pool file old_refs new_refs file-Counted
      monday_differs found_monday current_differs current-HasFile
