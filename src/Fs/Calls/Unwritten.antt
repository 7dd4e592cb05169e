-- ===== src/Fs/Calls/Unwritten.antt =====
-- kernel/fs.c: a volume that is not persistent is never written.
use nostalux_os.Base.{
  ℕ, ◌-◌, ◌≡◌, refl, sym, subst, inl, inr, Bool, true, false, not, ◌&&◌, ◌||◌, Option, none, some,
  List, [], ◌++◌, ltb, leb, if◌then◌else◌, Bool-cases, length,
}
use nostalux_os.Fs.{fs_max_file_size, File, Fs}
use nostalux_os.Fs.Calls.{
  Call, call_touch, call_write, call_append, call_rename, call_remove, perform,
}
use nostalux_os.Fs.Files.{
  is_persistent, commit_records, fs_commit_changes, with_file, or_undo, change_file, new_file,
  file_of_index, touch_found, fs_touch, write_found, fs_write_bytes_internal, append_at,
  append_found, fs_append, is_hidden, rename_to, rename_found, fs_rename_internal, remove_found,
  fs_remove_internal,
}
use nostalux_os.Fs.Names.{
  fs_is_valid_name, same_name, fs_name_is_system_managed, fs_name_is_system_log,
  fs_name_is_self_test_file, fs_copy_name, fs_find_mutable, fs_allocate_slot,
}
use nostalux_os.Fs.Sync.{Answers}
use nostalux_os.Fs.Table.{DiskRecord, fs_serialize, cleared_file}

volatile_commit :
    (answers : Answers) (fs : Fs)
    → is_persistent fs.backend ≡ false
    → (fs_commit_changes answers fs).1 ≡ fs
unfolding fs_commit_changes
volatile_commit answers fs v = records (fs_serialize fs.files)
  where
    records : (o : Option (List DiskRecord)) → (commit_records o answers fs).1 ≡ fs
    records none = refl
    records (some r) = simp v refl

-- The disk and the kind of the volume are as they were.
pub record IsUnwritten (fs after : Fs) : Type 0 where
  pub disk : after.disk ≡ fs.disk
  pub backend : after.backend ≡ fs.backend

IsUnwritten-self : (fs : Fs) → IsUnwritten fs fs
IsUnwritten-self fs = record { disk = refl; backend = refl }

IsUnwritten-undo :
    (fs : Fs) (i : ℕ) (undo : File) (r : Bool × Fs)
    → IsUnwritten fs r.1
    → IsUnwritten fs (or_undo i undo r).1
IsUnwritten-undo fs i undo (true, after) h = h
IsUnwritten-undo fs i undo (false, after) h = record { disk = h.disk; backend = h.backend }

change_file-IsUnwritten :
    (i : ℕ) (file undo : File) (answers : Answers) (fs : Fs)
    → is_persistent fs.backend ≡ false
    → IsUnwritten fs (change_file i file undo answers fs).1
unfolding change_file
change_file-IsUnwritten i file undo answers fs v =
    IsUnwritten-undo fs i undo (fs_commit_changes answers (with_file fs i file)) (
      subst (λ (x : Fs). IsUnwritten fs x) (sym (volatile_commit answers (with_file fs i file) v))
        (record { disk = refl; backend = refl }))

IsUnwritten-if :
    (b : Bool) (ok : Bool) (fs : Fs) (r : Bool × Fs)
    → IsUnwritten fs r.1
    → IsUnwritten fs (if b then (ok, fs) else r).1
IsUnwritten-if true ok fs r h = IsUnwritten-self fs
IsUnwritten-if false ok fs r h = h

touch_found-IsUnwritten :
    (o free : Option ℕ) (name : List ℕ) (answers : Answers) (fs : Fs)
    → is_persistent fs.backend ≡ false
    → fs_allocate_slot fs.files ≡ free
    → IsUnwritten fs (touch_found o name answers fs).1
touch_found-IsUnwritten (some i) free name answers fs v e = IsUnwritten-self fs
touch_found-IsUnwritten none none name answers fs v e = rw e (IsUnwritten-self fs)
touch_found-IsUnwritten none (some i) name answers fs v e =
    rw e (change_file-IsUnwritten i (new_file name []) cleared_file answers fs v)

write_found-IsUnwritten :
    (o free : Option ℕ) (name contents : List ℕ) (answers : Answers) (fs : Fs)
    → is_persistent fs.backend ≡ false
    → fs_allocate_slot fs.files ≡ free
    → IsUnwritten fs (write_found o name contents answers fs).1
write_found-IsUnwritten (some i) free name contents answers fs v e =
    change_file-IsUnwritten i (record (file_of_index fs i) { contents = contents })
      (file_of_index fs i) answers fs v
write_found-IsUnwritten none none name contents answers fs v e = rw e (IsUnwritten-self fs)
write_found-IsUnwritten none (some i) name contents answers fs v e =
    rw e (change_file-IsUnwritten i (new_file name contents) cleared_file answers fs v)

append_at-IsUnwritten :
    (i : ℕ) (file undo : File) (contents : List ℕ) (answers : Answers) (fs : Fs)
    → is_persistent fs.backend ≡ false
    → IsUnwritten fs (append_at i file undo contents answers fs).1
unfolding append_at
append_at-IsUnwritten i file undo contents answers fs v =
    elim (Bool-cases (ltb (fs_max_file_size - 1 - length file.contents) (length contents))) [
      | inl e ↦ simp e (record { disk = refl; backend = refl })
      | inr n ↦ simp n (
          change_file-IsUnwritten i (record file { contents = file.contents ++ contents }) undo
            answers fs v)
    ]

append_found-IsUnwritten :
    (o free : Option ℕ) (name contents : List ℕ) (answers : Answers) (fs : Fs)
    → is_persistent fs.backend ≡ false
    → fs_allocate_slot fs.files ≡ free
    → IsUnwritten fs (append_found o name contents answers fs).1
append_found-IsUnwritten (some i) free name contents answers fs v e =
    append_at-IsUnwritten i (file_of_index fs i) (file_of_index fs i) contents answers fs v
append_found-IsUnwritten none none name contents answers fs v e = rw e (IsUnwritten-self fs)
append_found-IsUnwritten none (some i) name contents answers fs v e =
    rw e (append_at-IsUnwritten i (new_file name []) cleared_file contents answers fs v)

rename_to-IsUnwritten :
    (o : Option ℕ) (i : ℕ) (name : List ℕ) (answers : Answers) (fs : Fs)
    → is_persistent fs.backend ≡ false
    → IsUnwritten fs (rename_to o i name answers fs).1
rename_to-IsUnwritten (some j) i name answers fs v = IsUnwritten-self fs
rename_to-IsUnwritten none i name answers fs v =
    change_file-IsUnwritten i (record (file_of_index fs i) { name = fs_copy_name name })
      (record (file_of_index fs i) { name = fs_copy_name (file_of_index fs i).name }) answers fs v

rename_found-IsUnwritten :
    (o : Option ℕ) (old_name new_name : List ℕ) (answers : Answers) (fs : Fs)
    → is_persistent fs.backend ≡ false
    → IsUnwritten fs (rename_found o old_name new_name answers fs).1
rename_found-IsUnwritten none old_name new_name answers fs v = IsUnwritten-self fs
rename_found-IsUnwritten (some i) old_name new_name answers fs v =
    let to = rename_to (fs_find_mutable fs.files new_name) i new_name answers fs in
    IsUnwritten-if (is_hidden old_name (file_of_index fs i) fs) false fs
      (if same_name old_name new_name then (true, fs) else to)
      (IsUnwritten-if (same_name old_name new_name) true fs to
        (rename_to-IsUnwritten (fs_find_mutable fs.files new_name) i new_name answers fs v))

remove_found-IsUnwritten :
    (o : Option ℕ) (name : List ℕ) (answers : Answers) (fs : Fs)
    → is_persistent fs.backend ≡ false
    → IsUnwritten fs (remove_found o name answers fs).1
remove_found-IsUnwritten none name answers fs v = IsUnwritten-self fs
remove_found-IsUnwritten (some i) name answers fs v =
    IsUnwritten-if (is_hidden name (file_of_index fs i) fs) false fs
      (change_file i cleared_file (file_of_index fs i) answers fs)
      (change_file-IsUnwritten i cleared_file (file_of_index fs i) answers fs v)

-- On a volume that is not persistent no call changes the disk, and the volume stays what it is.
pub perform-IsUnwritten :
    (c : Call) (answers : Answers) (fs : Fs)
    → is_persistent fs.backend ≡ false
    → IsUnwritten fs (perform c answers fs).1
unfolding perform fs_touch fs_write_bytes_internal fs_append fs_rename_internal fs_remove_internal
perform-IsUnwritten (call_touch name) answers fs v =
    let inner = touch_found (fs_find_mutable fs.files name) name answers fs in
    let bad =
      not (fs_is_valid_name name) || (fs_name_is_self_test_file name && not fs.self_test_active) in
    IsUnwritten-if (fs_name_is_system_log name || fs_name_is_system_managed name) false fs
      (if bad then (false, fs) else inner)
      (IsUnwritten-if bad false fs inner (
        touch_found-IsUnwritten (fs_find_mutable fs.files name) (fs_allocate_slot fs.files) name
          answers fs v refl))
perform-IsUnwritten (call_write name contents system) answers fs v =
    IsUnwritten-if
      (not (fs_is_valid_name name)
        || fs_name_is_system_log name
        || (not system && fs_name_is_system_managed name)
        || (fs_name_is_self_test_file name && not fs.self_test_active)
        || leb fs_max_file_size (length contents))
      false fs (write_found (fs_find_mutable fs.files name) name contents answers fs)
      (write_found-IsUnwritten (fs_find_mutable fs.files name) (fs_allocate_slot fs.files) name
        contents answers fs v refl)
perform-IsUnwritten (call_append name contents) answers fs v =
    IsUnwritten-if
      (not (fs_is_valid_name name)
        || fs_name_is_system_log name
        || fs_name_is_system_managed name
        || (fs_name_is_self_test_file name && not fs.self_test_active)
        || leb fs_max_file_size (length contents))
      false fs (append_found (fs_find_mutable fs.files name) name contents answers fs)
      (append_found-IsUnwritten (fs_find_mutable fs.files name) (fs_allocate_slot fs.files) name
        contents answers fs v refl)
perform-IsUnwritten (call_rename old_name new_name system) answers fs v =
    let inner = rename_found (fs_find_mutable fs.files old_name) old_name new_name answers fs in
    let log = fs_name_is_system_log old_name || fs_name_is_system_log new_name in
    let managed =
      not system && (fs_name_is_system_managed old_name || fs_name_is_system_managed new_name) in
    let test = fs_name_is_self_test_file new_name && not fs.self_test_active in
    IsUnwritten-if (not (fs_is_valid_name old_name) || not (fs_is_valid_name new_name)) false fs
      (if log
        then (false, fs)
        else if managed
        then (false, fs)
        else if test
        then (false, fs)
        else inner)
      (IsUnwritten-if log false fs
        (if managed then (false, fs) else if test then (false, fs) else inner)
        (IsUnwritten-if managed false fs (if test then (false, fs) else inner) (
          IsUnwritten-if test false fs inner (
            rename_found-IsUnwritten (fs_find_mutable fs.files old_name) old_name new_name answers
              fs v))))
perform-IsUnwritten (call_remove name system) answers fs v =
    let inner = remove_found (fs_find_mutable fs.files name) name answers fs in
    let managed = not system && fs_name_is_system_managed name in
    IsUnwritten-if (fs_name_is_system_log name) false fs (if managed then (false, fs) else inner) (
      IsUnwritten-if managed false fs inner
        (remove_found-IsUnwritten (fs_find_mutable fs.files name) name answers fs v))
