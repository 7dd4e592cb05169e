-- ===== src/Fs/Files/Spec.antt =====
-- kernel/fs.c: writing, appending, touching and removing against a map from names to contents.
pub mod Write
pub mod Remove
pub mod Append
pub mod Rename
use nostalux_os.Base.{
  ℕ, zero, suc, ◌≡◌, refl, sym, ap, ◌∙◌, subst, inl, inr, Bool, true, false, ◌&&◌, Option, none,
  some, List, [], ◌∷◌, if◌then◌else◌, Bool-cases, get_or, set, All,
}
use nostalux_os.Fs.{File, Fs}
use nostalux_os.Fs.Files.{with_file}
use nostalux_os.Fs.Files.Change.{
  matches-name, matches_self, lookup-set_other, lookup-set_found, lookup-set_free,
  lookup-set_removed,
}
use nostalux_os.Fs.Files.Distinct.{AreFiles-set, ApartAt-unused}
use nostalux_os.Fs.Files.Places.{lookup, matches, FoundAt, here, there, FreeAt, Unmatched}
use nostalux_os.Fs.Files.Undo.{Changed, stands, undone}
use nostalux_os.Fs.Names.{same_name}
use nostalux_os.Fs.Table.{cleared_file}
use nostalux_os.Fs.Valid.{IsStored, IsFile, AreFiles, same_name-eq}
use nostalux_os.KString.Order.{IsString}

-- After a call, FILES holds stored files of different names, and the contents of the name `q` are those
-- before, but for the name of the call when it succeeded, whose contents are `value`.
pub record Updates (fs : Fs) (name q : List ℕ) (value : Option (List ℕ)) (r : Bool × Fs)
    : Type 0 where
  pub files : AreFiles r.1.files
  pub contents : lookup r.1.files q ≡ (if r.0 && same_name name q then value else lookup fs.files q)

pub Updates-refused :
    (fs : Fs) (name q : List ℕ) (value : Option (List ℕ))
    → AreFiles fs.files
    → Updates fs name q value (false, fs)
Updates-refused fs name q value h = record { files = h; contents = refl }

pub Updates-if :
    (b : Bool) (fs : Fs) (name q : List ℕ) (value : Option (List ℕ)) (r : Bool × Fs)
    → AreFiles fs.files
    → (b ≡ false → Updates fs name q value r)
    → Updates fs name q value (if b then (false, fs) else r)
Updates-if true fs name q value r h k = Updates-refused fs name q value h
Updates-if false fs name q value r h k = k refl

and_false : (b : Bool) → (b && false) ≡ false
and_false true = refl
and_false false = refl

pub unmatched-name :
    (f : File) (name q : List ℕ) → f.name ≡ name → same_name name q ≡ false → matches f q ≡ false
unmatched-name f name q e n = rw e (rw n (and_false f.in_use))

pub found-IsFile :
    (name : List ℕ) (files : List File) (k : ℕ) (f : File)
    → FoundAt name files k f
    → All IsFile files
    → IsFile f
found-IsFile name [] k f found s = elim found [ ]
found-IsFile name (f ∷ files) zero g (here m) s = s.0
found-IsFile name (f ∷ files) (suc k) g (there n found) s = found-IsFile name files k g found s.1

pub found-matches :
    (name : List ℕ) (files : List File) (k : ℕ) (f : File)
    → FoundAt name files k f
    → matches f name ≡ true
found-matches name [] k f found = elim found [ ]
found-matches name (f ∷ files) zero g (here m) = m
found-matches name (f ∷ files) (suc k) g (there n found) = found-matches name files k g found

free-unmatched :
    (files : List File) (i : ℕ) (q : List ℕ)
    → FreeAt files i
    → matches (get_or files i cleared_file) q ≡ false
free-unmatched [] i q free = elim free [ ]
free-unmatched (f ∷ files) zero q (here u) = simp u refl
free-unmatched (f ∷ files) (suc i) q (there free) = free-unmatched files i q free

-- The file that is found by a name is stored under it.
pub found-IsStored :
    (files : List File) (i : ℕ) (name : List ℕ)
    → AreFiles files
    → IsString name
    → FoundAt name files i (get_or files i cleared_file)
    → let f = get_or files i cleared_file in (f.in_use ≡ true) × IsStored f × (f.name ≡ name)
found-IsStored files i name h hn found =
    let f = get_or files i cleared_file in
    matches-name f name (found-IsFile name files i f found h.stored) hn
      (found-matches name files i f found)

pub same_lookup :
    (files : List File) (name q : List ℕ) (o : Option (List ℕ))
    → IsString name
    → IsString q
    → same_name name q ≡ true
    → lookup files name ≡ o
    → lookup files q ≡ o
same_lookup files name q o hn hq e k =
    subst (λ (n : List ℕ). lookup files n ≡ o) (same_name-eq name q hn hq e) k

-- A file of the name is put at the place of the file of the name.
pub set_found-lookup :
    (files : List File) (i : ℕ) (g : File) (name q : List ℕ)
    → AreFiles files
    → IsString name
    → IsString q
    → FoundAt name files i (get_or files i cleared_file)
    → g.in_use ≡ true
    → g.name ≡ name
    → lookup (set files i g) q ≡ (if same_name name q then some g.contents else lookup files q)
set_found-lookup files i g name q h hn hq found used e =
    let f = get_or files i cleared_file in
    let new = lookup-set_found files i f g name found (matches_self g name used e) in
    let old = (found-IsStored files i name h hn found).2 in
    elim (Bool-cases (same_name name q)) [
      | inl s ↦ simp s (same_lookup (set files i g) name q (some g.contents) hn hq s new)
      | inr n ↦ simp n (
          lookup-set_other files i g q (unmatched-name f name q old n)
            (unmatched-name g name q e n))
    ]

-- A file of a new name is put at a free place.
pub set_free-lookup :
    (files : List File) (i : ℕ) (g : File) (name q : List ℕ)
    → IsString name
    → IsString q
    → FreeAt files i
    → All (Unmatched name) files
    → g.in_use ≡ true
    → g.name ≡ name
    → lookup (set files i g) q ≡ (if same_name name q then some g.contents else lookup files q)
set_free-lookup files i g name q hn hq free unm used e =
    let new = lookup-set_free files i g name free unm (matches_self g name used e) in
    elim (Bool-cases (same_name name q)) [
      | inl s ↦ simp s (same_lookup (set files i g) name q (some g.contents) hn hq s new)
      | inr n ↦ simp n (
          lookup-set_other files i g q (free-unmatched files i q free)
            (unmatched-name g name q e n))
    ]

-- The file of the name is cleared.
pub set_cleared-lookup :
    (files : List File) (i : ℕ) (name q : List ℕ)
    → AreFiles files
    → IsString name
    → IsString q
    → FoundAt name files i (get_or files i cleared_file)
    → lookup (set files i cleared_file) q ≡ (if same_name name q then none else lookup files q)
set_cleared-lookup files i name q h hn hq found =
    let f = get_or files i cleared_file in
    let old = (found-IsStored files i name h hn found).2 in
    elim (Bool-cases (same_name name q)) [
      | inl s ↦ simp s (
          same_lookup (set files i cleared_file) name q none hn hq s
            (lookup-set_removed files i f cleared_file name found hn h.stored h.distinct refl))
      | inr n ↦
          simp n (lookup-set_other files i cleared_file q (unmatched-name f name q old n) refl)
    ]

-- A cleared file at a free place changes no contents.
pub set_unused-lookup :
    (files : List File) (i : ℕ) (q : List ℕ)
    → FreeAt files i
    → lookup (set files i cleared_file) q ≡ lookup files q
set_unused-lookup files i q free =
    lookup-set_other files i cleared_file q (free-unmatched files i q free) refl

pub AreFiles-cleared :
    (files : List File) (i : ℕ) → AreFiles files → AreFiles (set files i cleared_file)
AreFiles-cleared files i h =
    AreFiles-set files i cleared_file h (inl refl) (ApartAt-unused files i cleared_file refl)

-- A change of one file that stands or is taken back.
pub Updates-change :
    (fs : Fs) (i : ℕ) (file undo : File) (name q : List ℕ) (value : Option (List ℕ)) (r : Bool × Fs)
    → Changed fs.files i file undo r
    → AreFiles (set fs.files i file)
    → AreFiles (set fs.files i undo)
    → lookup (set fs.files i file) q ≡ (if same_name name q then value else lookup fs.files q)
    → lookup (set fs.files i undo) q ≡ lookup fs.files q
    → Updates fs name q value r
Updates-change fs i file undo name q value r (stands ok e) new old l k = record {
  files = subst AreFiles (sym e) new;
  contents = simp ok (ap (λ (t : List File). lookup t q) e ∙ l);
}
Updates-change fs i file undo name q value r (undone failed e) new old l k = record {
  files = subst AreFiles (sym e) old;
  contents = simp failed (ap (λ (t : List File). lookup t q) e ∙ k);
}

pub Updates-undone :
    (fs : Fs) (i : ℕ) (undo : File) (name q : List ℕ) (value : Option (List ℕ))
    → AreFiles (set fs.files i undo)
    → lookup (set fs.files i undo) q ≡ lookup fs.files q
    → Updates fs name q value (false, with_file fs i undo)
Updates-undone fs i undo name q value old k = record { files = old; contents = k }
