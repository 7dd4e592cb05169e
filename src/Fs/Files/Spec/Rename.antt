-- ===== src/Fs/Files/Spec/Rename.antt =====
-- kernel/fs.c: `fs_rename` against a map from names to contents.
use nostalux_os.Base.{
  ℕ, ◌≡◌, refl, sym, ap, ◌∙◌, subst, inl, inr, Bool, true, false, not, ◌&&◌, ◌||◌, Option, none,
  some, List, arith, if◌then◌else◌, Bool-cases, set, take-all, All,
}
use nostalux_os.Fs.{File, Fs}
use nostalux_os.Fs.Files.{
  change_file, file_of_index, is_hidden, rename_to, rename_found, fs_rename_internal,
}
use nostalux_os.Fs.Files.Change.{
  matches_self, lookup-found, lookup-set_other, lookup-set_removed, lookup-set_new, found-lt,
}
use nostalux_os.Fs.Files.Distinct.{AreFiles-set, ApartAt-new}
use nostalux_os.Fs.Files.Places.{lookup, FoundAt, Unmatched, find-found, find-none}
use nostalux_os.Fs.Files.Spec.{unmatched-name, found-IsStored, same_lookup}
use nostalux_os.Fs.Files.Spec.Write.{not-false}
use nostalux_os.Fs.Files.Undo.{set_same, Changed, stands, undone, change_file-Changed}
use nostalux_os.Fs.Names.{
  fs_is_valid_name, same_name, fs_name_is_system_managed, fs_name_is_system_log,
  fs_name_is_self_test_file, fs_copy_name, fs_find_mutable,
}
use nostalux_os.Fs.Sync.{Answers}
use nostalux_os.Fs.Table.{cleared_file}
use nostalux_os.Fs.Table.Scan.{Bool-differ}
use nostalux_os.Fs.Valid.{IsStored, AreFiles, same_name-eq, same_name_self, valid-lt}
use nostalux_os.KString.Order.{IsString}

-- The contents of the name `q` after the file of one name got another.
abbrev pub renamed : Fs → List ℕ → List ℕ → List ℕ → Option (List ℕ)
renamed fs old_name new_name q =
    if same_name new_name q
    then lookup fs.files old_name
    else if same_name old_name q
    then none
    else lookup fs.files q

pub record Renames (fs : Fs) (old_name new_name q : List ℕ) (r : Bool × Fs) : Type 0 where
  pub files : AreFiles r.1.files
  pub contents : lookup r.1.files q ≡ (
      if r.0 && not (same_name old_name new_name)
      then renamed fs old_name new_name q
      else lookup fs.files q)

Renames-refused :
    (fs : Fs) (old_name new_name q : List ℕ)
    → AreFiles fs.files
    → Renames fs old_name new_name q (false, fs)
Renames-refused fs old_name new_name q h = record { files = h; contents = refl }

Renames-if :
    (b : Bool) (fs : Fs) (old_name new_name q : List ℕ) (r : Bool × Fs)
    → AreFiles fs.files
    → (b ≡ false → Renames fs old_name new_name q r)
    → Renames fs old_name new_name q (if b then (false, fs) else r)
Renames-if true fs old_name new_name q r h k = Renames-refused fs old_name new_name q h
Renames-if false fs old_name new_name q r h k = k refl

same_name-sym :
    (a b : List ℕ) → IsString a → IsString b → same_name a b ≡ false → same_name b a ≡ false
same_name-sym a b ha hb h = elim (Bool-cases (same_name b a)) [
  | inl e ↦
      let s =
        subst (λ (n : List ℕ). same_name n b ≡ true) (same_name-eq b a hb ha e)
          (same_name_self b) in
      absurd (Bool-differ s h)
  | inr n ↦ n
]

renamed-lookup :
    (fs : Fs) (i : ℕ) (old_name new_name q : List ℕ) (g : File)
    → AreFiles fs.files
    → IsString old_name
    → IsString new_name
    → IsString q
    → FoundAt old_name fs.files i (file_of_index fs i)
    → All (Unmatched new_name) fs.files
    → same_name old_name new_name ≡ false
    → g.in_use ≡ true
    → g.name ≡ new_name
    → g.contents ≡ (file_of_index fs i).contents
    → lookup (set fs.files i g) q ≡ renamed fs old_name new_name q
renamed-lookup fs i old_name new_name q g h ho hn hq found unm apart used e c =
    let f = file_of_index fs i in
    let old : lookup fs.files old_name ≡ some f.contents =
      lookup-found fs.files old_name i f found in
    let old_is = (found-IsStored fs.files i old_name h ho found).2 in
    elim (Bool-cases (same_name new_name q)) [
      | inl s ↦ simp s (
          same_lookup (set fs.files i g) new_name q (lookup fs.files old_name) hn hq s (
            lookup-set_new fs.files i g new_name (found-lt old_name fs.files i f found) unm
              (matches_self g new_name used e)
            ∙ ap some c
            ∙ sym old))
      | inr n ↦ simp n (elim (Bool-cases (same_name old_name q)) [
        | inl s ↦ simp s (
            same_lookup (set fs.files i g) old_name q none ho hq s (
              lookup-set_removed fs.files i f g old_name found ho h.stored h.distinct (
                unmatched-name g new_name old_name e
                  (same_name-sym old_name new_name ho hn apart))))
        | inr m ↦ simp m (
            lookup-set_other fs.files i g q (unmatched-name f old_name q old_is m)
              (unmatched-name g new_name q e n))
      ])
    ]

Renames-change :
    (fs : Fs) (i : ℕ) (file undo : File) (old_name new_name q : List ℕ) (r : Bool × Fs)
    → Changed fs.files i file undo r
    → same_name old_name new_name ≡ false
    → AreFiles (set fs.files i file)
    → AreFiles (set fs.files i undo)
    → lookup (set fs.files i file) q ≡ renamed fs old_name new_name q
    → lookup (set fs.files i undo) q ≡ lookup fs.files q
    → Renames fs old_name new_name q r
Renames-change fs i file undo old_name new_name q r (stands ok e) apart new old l k = record {
  files = subst AreFiles (sym e) new;
  contents = simp (ok, apart) (ap (λ (t : List File). lookup t q) e ∙ l);
}
Renames-change fs i file undo old_name new_name q r (undone failed e) apart new old l k = record {
  files = subst AreFiles (sym e) old;
  contents = simp failed (ap (λ (t : List File). lookup t q) e ∙ k);
}

rename_to-Renames :
    (o : Option ℕ) (i : ℕ) (old_name new_name q : List ℕ) (answers : Answers) (fs : Fs)
    → AreFiles fs.files
    → IsString old_name
    → IsString new_name
    → IsString q
    → fs_is_valid_name new_name ≡ true
    → same_name old_name new_name ≡ false
    → FoundAt old_name fs.files i (file_of_index fs i)
    → fs_find_mutable fs.files new_name ≡ o
    → Renames fs old_name new_name q (rename_to o i new_name answers fs)
rename_to-Renames (some j) i old_name new_name q answers fs h ho hn hq valid apart found e =
    Renames-refused fs old_name new_name q h
rename_to-Renames none i old_name new_name q answers fs h ho hn hq valid apart found e =
    let f = file_of_index fs i in
    let g = record f { name = fs_copy_name new_name } in
    let u = record f { name = fs_copy_name f.name } in
    let (used, stored, name_is) = found-IsStored fs.files i old_name h ho found in
    let new_is : g.name ≡ new_name =
      take-all 31 new_name (omega (arith, valid-lt new_name valid)) in
    let same : u ≡ f =
      ap (λ (n : List ℕ). record f { name = n })
        (take-all 31 f.name (omega (arith, valid-lt f.name stored.0))) in
    let back : set fs.files i u ≡ fs.files =
      ap (λ (x : File). set fs.files i x) same ∙ set_same fs.files i cleared_file in
    let unm = find-none fs.files new_name e in
    let g_stored : IsStored g =
      subst (λ (n : List ℕ). IsStored (record f { name = n })) (sym new_is) (valid, hn, stored.2) in
    Renames-change fs i g u old_name new_name q (change_file i g u answers fs)
      (change_file-Changed i g u answers fs) apart
      (AreFiles-set fs.files i g h (inr (used, g_stored)) (
        ApartAt-new fs.files i g h.stored g_stored.1
          (subst (λ (n : List ℕ). All (Unmatched n) fs.files) (sym new_is) unm)))
      (subst AreFiles (sym back) h)
      (renamed-lookup fs i old_name new_name q g h ho hn hq found unm apart used new_is refl)
      (ap (λ (t : List File). lookup t q) back)

second_false : (a b : Bool) → (a || b) ≡ false → b ≡ false
second_false a b h = ground arith

rename_found-Renames :
    (o : Option ℕ) (old_name new_name q : List ℕ) (answers : Answers) (fs : Fs)
    → AreFiles fs.files
    → IsString old_name
    → IsString new_name
    → IsString q
    → fs_is_valid_name new_name ≡ true
    → fs_find_mutable fs.files old_name ≡ o
    → Renames fs old_name new_name q (rename_found o old_name new_name answers fs)
rename_found-Renames none old_name new_name q answers fs h ho hn hq valid e =
    Renames-refused fs old_name new_name q h
rename_found-Renames (some i) old_name new_name q answers fs h ho hn hq valid e =
    let f = file_of_index fs i in
    let to = rename_to (fs_find_mutable fs.files new_name) i new_name answers fs in
    Renames-if (is_hidden old_name f fs) fs old_name new_name q
      (if same_name old_name new_name then (true, fs) else to) h
      (λ k. elim (Bool-cases (same_name old_name new_name)) [
        | inl s ↦ simp s (record { files = h; contents = simp s refl })
        | inr n ↦ simp n (
            rename_to-Renames (fs_find_mutable fs.files new_name) i old_name new_name q answers fs h
              ho hn hq valid n (find-found fs.files i old_name e) refl)
      ])

-- For C strings and stored files of different names, renaming, as a user or as the system, keeps FILES
-- so; when it reports success for two names that differ, the contents have moved from the old name
-- to the new, and in all other cases, as for every other name, they are what they were, also when
-- the disk failed.
pub fs_rename_internal-Renames :
    (old_name new_name q : List ℕ) (allow_system : Bool) (answers : Answers) (fs : Fs)
    → AreFiles fs.files
    → IsString old_name
    → IsString new_name
    → IsString q
    → Renames fs old_name new_name q (fs_rename_internal old_name new_name allow_system answers fs)
unfolding fs_rename_internal
fs_rename_internal-Renames old_name new_name q allow_system answers fs h ho hn hq =
    let inner = rename_found (fs_find_mutable fs.files old_name) old_name new_name answers fs in
    let bad_old = not (fs_is_valid_name old_name) in
    let bad_new = not (fs_is_valid_name new_name) in
    let log = fs_name_is_system_log old_name || fs_name_is_system_log new_name in
    let managed =
      not allow_system
      && (fs_name_is_system_managed old_name || fs_name_is_system_managed new_name) in
    let test = fs_name_is_self_test_file new_name && not fs.self_test_active in
    Renames-if (bad_old || bad_new) fs old_name new_name q
      (if log
        then (false, fs)
        else if managed
        then (false, fs)
        else if test
        then (false, fs)
        else inner)
      h
      (λ e.
        Renames-if log fs old_name new_name q
          (if managed then (false, fs) else if test then (false, fs) else inner) h
          (λ e1.
            Renames-if managed fs old_name new_name q (if test then (false, fs) else inner) h (λ e2.
              Renames-if test fs old_name new_name q inner h (λ e3.
                rename_found-Renames (fs_find_mutable fs.files old_name) old_name new_name q answers
                  fs h ho hn hq
                  (not-false (fs_is_valid_name new_name) (second_false bad_old bad_new e)) refl))))
