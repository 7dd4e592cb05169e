-- ===== src/Fs/Calls.antt =====
-- kernel/fs.c: the calls of the file system.
pub mod Unwritten
pub mod Runs
pub mod Accepts
use nostalux_os.Base.{ℕ, Bool, List}
use nostalux_os.Fs.{Fs}
use nostalux_os.Fs.Files.{
  fs_touch, fs_write_bytes_internal, fs_append, fs_rename_internal, fs_remove_internal,
}
use nostalux_os.Fs.Sync.{Answers}

-- A call that may change files, of a user or of the system.
pub data Call : Type 0 where
  call_touch : List ℕ → Call
  call_write : List ℕ → List ℕ → Bool → Call
  call_append : List ℕ → List ℕ → Call
  call_rename : List ℕ → List ℕ → Bool → Call
  call_remove : List ℕ → Bool → Call

unfoldable pub perform : Call → Answers → Fs → Bool × Fs
perform (call_touch name) answers fs = fs_touch name answers fs
perform (call_write name contents system) answers fs =
    fs_write_bytes_internal name contents system answers fs
perform (call_append name contents) answers fs = fs_append name contents answers fs
perform (call_rename old_name new_name system) answers fs =
    fs_rename_internal old_name new_name system answers fs
perform (call_remove name system) answers fs = fs_remove_internal name system answers fs
