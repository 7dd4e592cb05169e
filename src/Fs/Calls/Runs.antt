-- ===== src/Fs/Calls/Runs.antt =====
-- kernel/fs.c: runs of calls of the file system.
use nostalux_os.Base.{◌≡◌, refl, ap, ◌∙◌, false, List, [], ◌∷◌, All}
use nostalux_os.Fs.{Fs}
use nostalux_os.Fs.Calls.{
  Call, call_touch, call_write, call_append, call_rename, call_remove, perform,
}
use nostalux_os.Fs.Calls.Unwritten.{perform-IsUnwritten}
use nostalux_os.Fs.Files.{is_persistent}
use nostalux_os.Fs.Files.Spec.Append.{fs_append-Updates, fs_touch-Updates}
use nostalux_os.Fs.Files.Spec.Remove.{fs_remove_internal-Updates}
use nostalux_os.Fs.Files.Spec.Rename.{fs_rename_internal-Renames}
use nostalux_os.Fs.Files.Spec.Write.{fs_write_bytes_internal-Updates}
use nostalux_os.Fs.Sync.{Answers}
use nostalux_os.Fs.Valid.{AreFiles}
use nostalux_os.KString.Order.{IsString}

-- The names of the call are C strings.
abbrev pub IsCall : Call → Type 0
IsCall (call_touch name) = IsString name
IsCall (call_write name contents system) = IsString name
IsCall (call_append name contents) = IsString name
IsCall (call_rename old_name new_name system) = IsString old_name × IsString new_name
IsCall (call_remove name system) = IsString name

perform-AreFiles :
    (c : Call) (answers : Answers) (fs : Fs)
    → IsCall c
    → AreFiles fs.files
    → AreFiles (perform c answers fs).1.files
unfolding perform
perform-AreFiles (call_touch name) answers fs s h =
    (fs_touch-Updates name [] answers fs h s tt).files
perform-AreFiles (call_write name contents system) answers fs s h =
    (fs_write_bytes_internal-Updates name [] contents system answers fs h s tt).files
perform-AreFiles (call_append name contents) answers fs s h =
    (fs_append-Updates name [] contents answers fs h s tt).files
perform-AreFiles (call_rename old_name new_name system) answers fs s h =
    (fs_rename_internal-Renames old_name new_name [] system answers fs h s.0 s.1 tt).files
perform-AreFiles (call_remove name system) answers fs s h =
    (fs_remove_internal-Updates name [] system answers fs h s tt).files

-- A run of calls, each with the answers that the driver gives in its course.
unfoldable pub run : List (Call × Answers) → Fs → Fs
run [] fs = fs
run ((c, answers) ∷ calls) fs = run calls (perform c answers fs).1

abbrev pub IsStep : Call × Answers → Type 0
IsStep step = IsCall step.0

-- Whatever calls are made and whatever the driver answers, FILES holds 32 places, stored files in those
-- that are in use, and no two files of the same name, when it did at the start and the names are C
-- strings.
pub run-AreFiles :
    (calls : List (Call × Answers)) (fs : Fs)
    → All IsStep calls
    → AreFiles fs.files
    → AreFiles (run calls fs).files
unfolding run
run-AreFiles [] fs s h = h
run-AreFiles ((c, answers) ∷ calls) fs s h =
    run-AreFiles calls (perform c answers fs).1 s.1 (perform-AreFiles c answers fs s.0 h)

-- On a volume that is not persistent, no run of calls that touch, write, append to, rename or remove files
-- changes the disk.
pub run-disk :
    (calls : List (Call × Answers)) (fs : Fs)
    → is_persistent fs.backend ≡ false
    → (run calls fs).disk ≡ fs.disk
unfolding run
run-disk [] fs v = refl
run-disk ((c, answers) ∷ calls) fs v =
    let after = (perform c answers fs).1 in
    let h = perform-IsUnwritten c answers fs v in
    run-disk calls after (ap is_persistent h.backend ∙ v) ∙ h.disk
