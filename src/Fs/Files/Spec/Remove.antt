-- ===== src/Fs/Files/Spec/Remove.antt =====
-- kernel/fs.c: `fs_remove` against a map from names to contents.
use nostalux_os.Base.{
  ℕ, ◌≡◌, refl, sym, ap, subst, Bool, false, not, ◌&&◌, Option, none, some, List, if◌then◌else◌,
  set,
}
use nostalux_os.Fs.{File, Fs}
use nostalux_os.Fs.Files.{change_file, file_of_index, is_hidden, remove_found, fs_remove_internal}
use nostalux_os.Fs.Files.Places.{lookup, find-found}
use nostalux_os.Fs.Files.Spec.{
  Updates, Updates-refused, Updates-if, set_cleared-lookup, AreFiles-cleared, Updates-change,
}
use nostalux_os.Fs.Files.Undo.{set_same, change_file-Changed}
use nostalux_os.Fs.Names.{fs_name_is_system_managed, fs_name_is_system_log, fs_find_mutable}
use nostalux_os.Fs.Sync.{Answers}
use nostalux_os.Fs.Table.{cleared_file}
use nostalux_os.Fs.Valid.{AreFiles}
use nostalux_os.KString.Order.{IsString}

remove_found-Updates :
    (o : Option ℕ) (name q : List ℕ) (answers : Answers) (fs : Fs)
    → AreFiles fs.files
    → IsString name
    → IsString q
    → fs_find_mutable fs.files name ≡ o
    → Updates fs name q none (remove_found o name answers fs)
remove_found-Updates none name q answers fs h hn hq e = Updates-refused fs name q none h
remove_found-Updates (some i) name q answers fs h hn hq e =
    let f = file_of_index fs i in
    let found = find-found fs.files i name e in
    let back : set fs.files i f ≡ fs.files = set_same fs.files i cleared_file in
    Updates-if (is_hidden name f fs) fs name q none (change_file i cleared_file f answers fs) h
      (λ k.
        Updates-change fs i cleared_file f name q none (change_file i cleared_file f answers fs)
          (change_file-Changed i cleared_file f answers fs) (AreFiles-cleared fs.files i h)
          (subst AreFiles (sym back) h) (set_cleared-lookup fs.files i name q h hn hq found)
          (ap (λ (t : List File). lookup t q) back))

-- For C strings and stored files of different names, removing a name, as a user or as the system, keeps
-- FILES so; when it reports success no file has the name any more, and in all other cases, as for
-- every other name, the contents are what they were, also when the disk failed.
pub fs_remove_internal-Updates :
    (name q : List ℕ) (allow_system : Bool) (answers : Answers) (fs : Fs)
    → AreFiles fs.files
    → IsString name
    → IsString q
    → Updates fs name q none (fs_remove_internal name allow_system answers fs)
unfolding fs_remove_internal
fs_remove_internal-Updates name q allow_system answers fs h hn hq =
    let inner = remove_found (fs_find_mutable fs.files name) name answers fs in
    let managed = not allow_system && fs_name_is_system_managed name in
    Updates-if (fs_name_is_system_log name) fs name q none (if managed then (false, fs) else inner)
      h
      (λ e.
        Updates-if managed fs name q none inner h (λ e'.
          remove_found-Updates (fs_find_mutable fs.files name) name q answers fs h hn hq refl))
