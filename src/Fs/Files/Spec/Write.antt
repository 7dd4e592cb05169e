-- ===== src/Fs/Files/Spec/Write.antt =====
-- kernel/fs.c: `fs_write_bytes`, `fs_append` and `fs_touch` against a map from names to contents.
use nostalux_os.Base.{
  ℕ, ◌<◌, ◌≡◌, refl, sym, ap, subst, inr, Bool, true, false, not, ◌&&◌, ◌||◌, Option, none, some,
  List, arith, leb, tests, length, set, take-all, All,
}
use nostalux_os.Fs.{fs_max_file_size, File, Fs}
use nostalux_os.Fs.Files.{
  change_file, new_file, file_of_index, write_free, write_found, fs_write_bytes_internal,
}
use nostalux_os.Fs.Files.Distinct.{AreFiles-set, ApartAt-same, ApartAt-new}
use nostalux_os.Fs.Files.Places.{
  lookup, FoundAt, FreeAt, Unmatched, find-found, find-none, allocate-free,
}
use nostalux_os.Fs.Files.Spec.{
  Updates, Updates-refused, Updates-if, found-IsStored, set_found-lookup, set_free-lookup,
  set_unused-lookup, AreFiles-cleared, Updates-change,
}
use nostalux_os.Fs.Files.Undo.{set_same, change_file-Changed}
use nostalux_os.Fs.Names.{
  fs_is_valid_name, fs_name_is_system_managed, fs_name_is_system_log, fs_name_is_self_test_file,
  fs_find_mutable, fs_allocate_slot,
}
use nostalux_os.Fs.Sync.{Answers}
use nostalux_os.Fs.Table.{cleared_file}
use nostalux_os.Fs.Valid.{IsStored, AreFiles, valid-lt}
use nostalux_os.KString.Order.{IsString}

pub five_false : (a b c d e : Bool) → (a || b || c || d || e) ≡ false → (a ≡ false) × (e ≡ false)
five_false a b c d e h = ground arith

pub not-false : (b : Bool) → not b ≡ false → b ≡ true
not-false b h = ground arith

-- A file of the name with other contents at the place of the one that was found.
pub change_found-Updates :
    (i : ℕ) (name q contents : List ℕ) (answers : Answers) (fs : Fs)
    → AreFiles fs.files
    → IsString name
    → IsString q
    → length contents < fs_max_file_size
    → FoundAt name fs.files i (file_of_index fs i)
    → Updates fs name q (some contents) (
        change_file i
          (record (file_of_index fs i) { contents = contents })
          (file_of_index fs i)
          answers
          fs)
change_found-Updates i name q contents answers fs h hn hq lt found =
    let f = file_of_index fs i in
    let g = record f { contents = contents } in
    let (used, stored, e) = found-IsStored fs.files i name h hn found in
    let back : set fs.files i f ≡ fs.files = set_same fs.files i cleared_file in
    Updates-change fs i g f name q (some contents) (change_file i g f answers fs)
      (change_file-Changed i g f answers fs)
      (AreFiles-set fs.files i g h (inr (used, (stored.0, stored.1, lt)))
        (ApartAt-same name fs.files i f g found h.distinct used refl))
      (subst AreFiles (sym back) h) (set_found-lookup fs.files i g name q h hn hq found used e)
      (ap (λ (t : List File). lookup t q) back)

-- A new file at a free place.
pub change_free-Updates :
    (i : ℕ) (name q contents : List ℕ) (answers : Answers) (fs : Fs)
    → AreFiles fs.files
    → IsString name
    → IsString q
    → fs_is_valid_name name ≡ true
    → length contents < fs_max_file_size
    → All (Unmatched name) fs.files
    → FreeAt fs.files i
    → Updates fs name q
        (some contents)
        (change_file i (new_file name contents) cleared_file answers fs)
change_free-Updates i name q contents answers fs h hn hq valid lt unm free =
    let g = new_file name contents in
    let e : g.name ≡ name = take-all 31 name (omega (arith, valid-lt name valid)) in
    let stored : IsStored g =
      subst (λ (n : List ℕ). IsStored (record g { name = n })) (sym e) (valid, hn, lt) in
    Updates-change fs i g cleared_file name q (some contents)
      (change_file i g cleared_file answers fs) (change_file-Changed i g cleared_file answers fs)
      (AreFiles-set fs.files i g h (inr (refl, stored)) (
        ApartAt-new fs.files i g h.stored stored.1
          (subst (λ (n : List ℕ). All (Unmatched n) fs.files) (sym e) unm)))
      (AreFiles-cleared fs.files i h) (set_free-lookup fs.files i g name q hn hq free unm refl e)
      (set_unused-lookup fs.files i q free)

write_free-Updates :
    (o : Option ℕ) (name q contents : List ℕ) (answers : Answers) (fs : Fs)
    → AreFiles fs.files
    → IsString name
    → IsString q
    → fs_is_valid_name name ≡ true
    → length contents < fs_max_file_size
    → All (Unmatched name) fs.files
    → fs_allocate_slot fs.files ≡ o
    → Updates fs name q (some contents) (write_free o name contents answers fs)
write_free-Updates none name q contents answers fs h hn hq valid lt unm e =
    Updates-refused fs name q (some contents) h
write_free-Updates (some i) name q contents answers fs h hn hq valid lt unm e =
    change_free-Updates i name q contents answers fs h hn hq valid lt unm
      (allocate-free fs.files i e)

write_found-Updates :
    (o : Option ℕ) (name q contents : List ℕ) (answers : Answers) (fs : Fs)
    → AreFiles fs.files
    → IsString name
    → IsString q
    → fs_is_valid_name name ≡ true
    → length contents < fs_max_file_size
    → fs_find_mutable fs.files name ≡ o
    → Updates fs name q (some contents) (write_found o name contents answers fs)
write_found-Updates (some i) name q contents answers fs h hn hq valid lt e =
    change_found-Updates i name q contents answers fs h hn hq lt (find-found fs.files i name e)
write_found-Updates none name q contents answers fs h hn hq valid lt e =
    write_free-Updates (fs_allocate_slot fs.files) name q contents answers fs h hn hq valid lt
      (find-none fs.files name e) refl

-- For C strings and stored files of different names, writing bytes under a name, as a user or as the
-- system, keeps FILES so; when it reports success the name has those bytes, and in all other cases,
-- as for every other name, the contents are what they were, also when the disk failed.
pub fs_write_bytes_internal-Updates :
    (name q contents : List ℕ) (allow_system : Bool) (answers : Answers) (fs : Fs)
    → AreFiles fs.files
    → IsString name
    → IsString q
    → Updates fs name q
        (some contents)
        (fs_write_bytes_internal name contents allow_system answers fs)
unfolding fs_write_bytes_internal
fs_write_bytes_internal-Updates name q contents allow_system answers fs h hn hq =
    let a = not (fs_is_valid_name name) in
    let c = not allow_system && fs_name_is_system_managed name in
    let d = fs_name_is_self_test_file name && not fs.self_test_active in
    let large = leb fs_max_file_size (length contents) in
    Updates-if (a || fs_name_is_system_log name || c || d || large) fs name q (some contents)
      (write_found (fs_find_mutable fs.files name) name contents answers fs) h
      (λ e.
        let (valid, small) = five_false a (fs_name_is_system_log name) c d large e in
        write_found-Updates (fs_find_mutable fs.files name) name q contents answers fs h hn hq
          (not-false (fs_is_valid_name name) valid) (omega (tests, small)) refl)
