-- ===== src/Fs/Files/Spec/Append.antt =====
-- kernel/fs.c: `fs_append` and `fs_touch` against a map from names to contents.
use nostalux_os.Base.{
  ℕ, ◌-◌, ◌<◌, ◌≡◌, refl, sym, ap, subst, inl, inr, Bool, true, false, not, ◌&&◌, ◌||◌, Option,
  none, some, List, [], ◌++◌, arith, ltb, leb, if◌then◌else◌, le→ltb, tests, Bool-cases, length,
  set, length-append, All,
}
use nostalux_os.Fs.{fs_max_file_size, File, Fs}
use nostalux_os.Fs.Files.{
  file_of_index, touch_free, touch_found, fs_touch, append_at, append_free, append_found, fs_append,
}
use nostalux_os.Fs.Files.Change.{lookup-none, lookup-found}
use nostalux_os.Fs.Files.Places.{lookup, Unmatched, find-found, find-none, allocate-free}
use nostalux_os.Fs.Files.Spec.{
  Updates, Updates-refused, Updates-if, found-IsStored, same_lookup, Updates-undone,
}
use nostalux_os.Fs.Files.Spec.Write.{
  five_false, not-false, change_found-Updates, change_free-Updates,
}
use nostalux_os.Fs.Files.Undo.{set_same}
use nostalux_os.Fs.Names.{
  fs_is_valid_name, same_name, fs_name_is_system_managed, fs_name_is_system_log,
  fs_name_is_self_test_file, fs_find_mutable, fs_allocate_slot,
}
use nostalux_os.Fs.Sync.{Answers}
use nostalux_os.Fs.Table.{cleared_file}
use nostalux_os.Fs.Valid.{AreFiles}
use nostalux_os.KString.Order.{IsString}

abbrev pub or_empty : Option (List ℕ) → List ℕ
or_empty none = []
or_empty (some contents) = contents

-- The contents of a name with more bytes behind them; of a name without a file, the bytes alone.
abbrev pub appended : Fs → List ℕ → List ℕ → Option (List ℕ)
appended fs name contents = some (or_empty (lookup fs.files name) ++ contents)

append_free-Updates :
    (o : Option ℕ) (name q contents : List ℕ) (answers : Answers) (fs : Fs)
    → AreFiles fs.files
    → IsString name
    → IsString q
    → fs_is_valid_name name ≡ true
    → length contents < fs_max_file_size
    → All (Unmatched name) fs.files
    → fs_allocate_slot fs.files ≡ o
    → Updates fs name q (appended fs name contents) (append_free o name contents answers fs)
unfolding append_at
append_free-Updates none name q contents answers fs h hn hq valid lt unm e =
    Updates-refused fs name q (appended fs name contents) h
append_free-Updates (some i) name q contents answers fs h hn hq valid lt unm e =
    rw (lookup-none fs.files name unm) (
      simp (le→ltb 8191 (length contents) (omega (arith, lt))) (
        change_free-Updates i name q contents answers fs h hn hq valid lt unm
          (allocate-free fs.files i e)))

append_found-Updates :
    (o : Option ℕ) (name q contents : List ℕ) (answers : Answers) (fs : Fs)
    → AreFiles fs.files
    → IsString name
    → IsString q
    → fs_is_valid_name name ≡ true
    → length contents < fs_max_file_size
    → fs_find_mutable fs.files name ≡ o
    → Updates fs name q (appended fs name contents) (append_found o name contents answers fs)
unfolding append_at
append_found-Updates (some i) name q contents answers fs h hn hq valid lt e =
    let f = file_of_index fs i in
    let found = find-found fs.files i name e in
    let back : set fs.files i f ≡ fs.files = set_same fs.files i cleared_file in
    let old : lookup fs.files name ≡ some f.contents = lookup-found fs.files name i f found in
    let large = ltb (fs_max_file_size - 1 - length f.contents) (length contents) in
    rw old (elim (Bool-cases large) [
      | inl e ↦ simp e (
          Updates-undone fs i f name q (some (f.contents ++ contents)) (subst AreFiles (sym back) h)
            (ap (λ (t : List File). lookup t q) back))
      | inr n ↦ simp n (
          change_found-Updates i name q (f.contents ++ contents) answers fs h hn hq
            (omega (
              tests,
              n,
              length-append f.contents contents,
              (found-IsStored fs.files i name h hn found).1.2,
            ))
            found)
    ])
append_found-Updates none name q contents answers fs h hn hq valid lt e =
    append_free-Updates (fs_allocate_slot fs.files) name q contents answers fs h hn hq valid lt
      (find-none fs.files name e) refl

-- For C strings and stored files of different names, appending keeps FILES so; when it reports success
-- the name has the bytes behind those it had before, and in all other cases, as for every other name,
-- the contents are what they were, also when the disk failed.
pub fs_append-Updates :
    (name q contents : List ℕ) (answers : Answers) (fs : Fs)
    → AreFiles fs.files
    → IsString name
    → IsString q
    → Updates fs name q (appended fs name contents) (fs_append name contents answers fs)
unfolding fs_append
fs_append-Updates name q contents answers fs h hn hq =
    let a = not (fs_is_valid_name name) in
    let d = fs_name_is_self_test_file name && not fs.self_test_active in
    let large = leb fs_max_file_size (length contents) in
    Updates-if (a || fs_name_is_system_log name || fs_name_is_system_managed name || d || large) fs
      name q (appended fs name contents)
      (append_found (fs_find_mutable fs.files name) name contents answers fs) h
      (λ e.
        let (valid, small) =
          five_false a (fs_name_is_system_log name) (fs_name_is_system_managed name) d large e in
        append_found-Updates (fs_find_mutable fs.files name) name q contents answers fs h hn hq
          (not-false (fs_is_valid_name name) valid) (omega (tests, small)) refl)

abbrev pub touched : Fs → List ℕ → Option (List ℕ)
touched fs name = some (or_empty (lookup fs.files name))

touch_free-Updates :
    (o : Option ℕ) (name q : List ℕ) (answers : Answers) (fs : Fs)
    → AreFiles fs.files
    → IsString name
    → IsString q
    → fs_is_valid_name name ≡ true
    → All (Unmatched name) fs.files
    → fs_allocate_slot fs.files ≡ o
    → Updates fs name q (touched fs name) (touch_free o name answers fs)
touch_free-Updates none name q answers fs h hn hq valid unm e =
    Updates-refused fs name q (touched fs name) h
touch_free-Updates (some i) name q answers fs h hn hq valid unm e =
    rw (lookup-none fs.files name unm) (
      change_free-Updates i name q [] answers fs h hn hq valid (omega arith) unm
        (allocate-free fs.files i e))

touch_found-Updates :
    (o : Option ℕ) (name q : List ℕ) (answers : Answers) (fs : Fs)
    → AreFiles fs.files
    → IsString name
    → IsString q
    → fs_is_valid_name name ≡ true
    → fs_find_mutable fs.files name ≡ o
    → Updates fs name q (touched fs name) (touch_found o name answers fs)
touch_found-Updates (some i) name q answers fs h hn hq valid e =
    let f = file_of_index fs i in
    let old : lookup fs.files name ≡ some f.contents =
      lookup-found fs.files name i f (find-found fs.files i name e) in
    record {
      files = h;
      contents = rw old (elim (Bool-cases (same_name name q)) [
        | inl s ↦ simp s (same_lookup fs.files name q (some f.contents) hn hq s old)
        | inr n ↦ simp n refl
      ]);
    }
touch_found-Updates none name q answers fs h hn hq valid e =
    touch_free-Updates (fs_allocate_slot fs.files) name q answers fs h hn hq valid
      (find-none fs.files name e) refl

two_false : (a b : Bool) → (a || b) ≡ false → a ≡ false
two_false a b h = ground arith

-- For C strings and stored files of different names, touching a name keeps FILES so; when it reports
-- success the name has a file, empty unless it had one before, and in all other cases, as for every
-- other name, the contents are what they were.
pub fs_touch-Updates :
    (name q : List ℕ) (answers : Answers) (fs : Fs)
    → AreFiles fs.files
    → IsString name
    → IsString q
    → Updates fs name q (touched fs name) (fs_touch name answers fs)
unfolding fs_touch
fs_touch-Updates name q answers fs h hn hq =
    let inner = touch_found (fs_find_mutable fs.files name) name answers fs in
    let bad = not (fs_is_valid_name name) in
    let d = fs_name_is_self_test_file name && not fs.self_test_active in
    Updates-if (fs_name_is_system_log name || fs_name_is_system_managed name) fs name q
      (touched fs name) (if bad || d then (false, fs) else inner) h
      (λ e. Updates-if (bad || d) fs name q (touched fs name) inner h (λ e'.
        touch_found-Updates (fs_find_mutable fs.files name) name q answers fs h hn hq
          (not-false (fs_is_valid_name name) (two_false bad d e')) refl))
