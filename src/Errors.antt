-- ===== src/Errors.antt =====
-- `HTMPFS_error_t` (src/include/htmpfs_error.h, src/debug/error.cpp): the error codes, the errno
-- that `fill_out_errno` gives each, and the outcome of code that may throw.
use htmpfs.Prelude.{ℕ}

-- The codes of htmpfs_error.h that some code throws or some switch names.
pub data ErrorCode : Type 0 where
  successful ext_lib_err double_alloc illegal_access snapshot_ver_depleted no_such_snapshot :
      ErrorCode
  double_snapshot block_not_found buffer_id_depleted buffer_short_ops not_a_directory : ErrorCode
  double_mkpathname no_such_file_or_dir requested_buffer_not_found : ErrorCode
  requested_inode_not_found dir_not_empty invalid_dentry_name invalid_write_invoke : ErrorCode
  invalid_read_invoke cannot_remove_root cannot_open_device cannot_lseek_device : ErrorCode
  meet_device_boundary block_short_ops : ErrorCode

-- The values of <cerrno> on Linux that the table names.
abbrev pub eperm : ℕ
eperm = 1

abbrev pub enoent : ℕ
enoent = 2

abbrev pub eexist : ℕ
eexist = 17

abbrev pub enotdir : ℕ
enotdir = 20

abbrev pub eisdir : ℕ
eisdir = 21

abbrev pub einval : ℕ
einval = 22

abbrev pub erofs : ℕ
erofs = 30

abbrev pub enotempty : ℕ
enotempty = 39

-- `code##_ERRNO_CODE`, the errno that the table of htmpfs_error.h declares for each code.
unfoldable pub errno_code : ErrorCode → ℕ
errno_code successful = 0
errno_code double_alloc = eexist
errno_code no_such_snapshot = enoent
errno_code double_snapshot = eexist
errno_code not_a_directory = enotdir
errno_code double_mkpathname = eexist
errno_code no_such_file_or_dir = enoent
errno_code dir_not_empty = enotempty
errno_code invalid_dentry_name = einval
errno_code cannot_remove_root = eisdir
errno_code _ = 1

-- `my_errno()` after `fill_out_errno()`: the switch has no case for six of the codes (the success
-- code among them), whose `_errno` keeps its initial 0.
unfoldable pub my_errno : ErrorCode → ℕ
unfolding errno_code
my_errno successful = 0
my_errno block_not_found = 0
my_errno cannot_open_device = 0
my_errno cannot_lseek_device = 0
my_errno meet_device_boundary = 0
my_errno block_short_ops = 0
my_errno c = errno_code c

-- What a call may throw: an `HTMPFS_error_t`, or an exception of the standard library
-- (`std::out_of_range` of `at`, which `CATCH_TAIL` reports by the global errno).
pub data Thrown : Type 0 where
  htmpfs_error : ErrorCode → Thrown
  out_of_range : Thrown

-- A call returns, throws, or does what the language leaves undefined.
pub data Outcome {ℓ} (A : Type ℓ) : Type ℓ where
  ok : A → Outcome A
  throws : Thrown → Outcome A
  undefined : Outcome A

abbrev pub throw {ℓ} : {A : Type ℓ} → ErrorCode → Outcome A
throw c = throws (htmpfs_error c)

-- A step after a step that may not return.
abbrev pub and_then {ℓ κ} : {A : Type ℓ} {B : Type κ} → Outcome A → (A → Outcome B) → Outcome B
and_then (ok a) f = f a
and_then (throws e) f = throws e
and_then undefined f = undefined
