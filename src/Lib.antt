-- ===== src/Lib.antt =====
-- htmpfs, a filesystem in memory with snapshots, served through FUSE. This library models the code
-- under src/htmpfs, src/include, src/utils, src/disk_ops and src/debug/error.cpp of the repository.
--
-- The program's parts and how they interact. A file or directory is an inode, which keeps for each
-- snapshot version a list of references to blocks. The blocks live in one buffer pool, with a count of
-- links to each; a snapshot shares the blocks of the current version, which marks them as frozen and
-- reallocates a frozen block before it changes it. A directory's contents are entries packed into the
-- bytes of its inode. inode_smi_t holds the pools of buffers and inodes and the list of inodes of each
-- version, finds inodes by path, and makes and removes children and snapshot volumes. The handlers
-- that FUSE calls work on one inode_smi_t: they take paths apart, refuse changes inside snapshots, call
-- the pool's operations, fill in attributes and turn exceptions into error numbers.
--
-- Files and code:
--   Prelude      numbers with 64-bit wrap-around, lists, slices, bytes, and std::map as an
--                association list whose keys are compared by an instance (Prelude.Map)
--   Errors       htmpfs_error.h and error.cpp: codes, errno, and the outcome of a call
--   Exec         calls that change a state and may throw; the state comes back beside the outcome
--   Buffer       buffer_t (htmpfs/buffer_t.cpp)
--   FilePath     path_t (htmpfs/path_t.cpp)
--   Dentry       directory_resolver_t (htmpfs/directory_resolver.cpp): entries, packing, unpacking
--   Pool         buffer_pool, get_free_id, request_buffer_allocation, link_buffer, unlink_buffer
--   Blocks       the loops of inode_t over block references
--   Inode        inode_t: write, read, to_string, current_data_size, create_new_volume,
--                delete_volume, truncate (htmpfs/htmpfs.cpp)
--   SnapshotPath if_snapshot and make_path_with_version
--   Smi          inode_smi_t: state, access to inodes, refresh and save_current of a resolver;
--                Smi.Names path lookup and children, Smi.Snapshots snapshot volumes
--   Bitmap       bitmap_t.h and htmpfs/bitmap_t.cpp: bits in the blocks of the pool
--   LlIo         ll_io and ll_io_blockized (disk_ops/ll_io.cpp) over the calls of the C library,
--                which are a parameter (LlIo.Device); what is assumed of them, that each fails or
--                moves as many bytes as it says, is LlIo.Disk.IsDisk; LlIo.Ends how the calls
--                on a block end
--   Fuse         the handlers of utils/fuse.cpp: Fuse.Query those that answer questions, Fuse.Change
--                and Fuse.Rename those that change something; Fuse.Requests the table of handlers
--                and the start in utils/mount.htmpfs.cpp; Fuse.ReadOnly requests into
--                snapshots, Fuse.Queries requests that only ask
-- Pool.Links, Blocks.Links, Blocks.Volumes and Inode.Links count the references to each buffer against
-- its links. The modules Keeps and Sound say which predicates on the state a call keeps, the modules
-- Still which calls keep the state. The modules below Blocks hold the lemmas on the loops, those below
-- Inode the lemmas on inodes; Tests has the runs.
--
-- How the code is modelled. A pointer into a pool is the id of its node, and following one whose node
-- is gone is undefined, as is operator[] past the end; at past the end throws out_of_range. An outcome
-- is a result, an exception (an HTMPFS_error_t or out_of_range) or undefined behaviour. What was
-- written before a throw stays written. Sizes and ids are natural numbers; additions and
-- multiplications of the code wrap at 2 ^ 64, and subtractions are as in the code, which guards them.
-- Reading a source array past its end gives zero; the theorems ask for arrays that are long enough.
--
-- Bounds and fuel. Only get_free_id runs on fuel, pool.size() + 1, which is enough since so many ids
-- cannot all be in use. Block sizes are positive. max_size() of a map is a parameter of the state.
--
-- Requests are served one after the other, as the program asks of FUSE (-s). The clock, the user, the
-- group and errno are the host's (Fuse.Host), given with each request. Sizes and offsets of requests
-- are not negative, as the kernel sends them.
--
-- What is not modelled: the empty handlers init and destroy, the listing export_as_filesystem_map,
-- command line parsing, debug output, and allocation failure of the standard library.
pub mod Prelude
pub mod Errors
pub mod Exec
pub mod Buffer
pub mod FilePath
pub mod Dentry
pub mod LlIo
pub mod Pool
pub mod Bitmap
pub mod Blocks
pub mod Inode
pub mod SnapshotPath
pub mod Smi
pub mod Fuse
pub mod Tests
