-- ===== src/Fs/Files/Places.antt =====
-- kernel/fs.c: the place of a file in FILES, and what a change at it does to the files of each name.
use nostalux_os.Base.{
  ℕ, suc, ◌+◌, ◌≡◌, sym, ◌∙◌, subst, inl, inr, Bool, true, false, not, ◌&&◌, Option, none, some,
  List, [], ◌∷◌, arith, if◌then◌else◌, Bool-cases, get_or, All,
}
use nostalux_os.Fs.{File}
use nostalux_os.Fs.Names.{same_name, find_from, fs_find_mutable, allocate_from, fs_allocate_slot}
use nostalux_os.Fs.Table.{cleared_file}

abbrev pub matches : File → List ℕ → Bool
matches file name = file.in_use && same_name file.name name

-- The contents of the first file of a name.
abbrev pub contents_if : Bool → List ℕ → Option (List ℕ) → Option (List ℕ)
contents_if found contents rest = if found then some contents else rest

unfoldable pub lookup : List File → List ℕ → Option (List ℕ)
lookup [] name = none
lookup (file ∷ files) name = contents_if (matches file name) file.contents (lookup files name)

pub data FoundAt (name : List ℕ) : List File → ℕ → File → Type 0 where
  here : {f : File} {fs : List File} → matches f name ≡ true → FoundAt name (f ∷ fs) 0 f
  there :
      {f g : File} {fs : List File} {k : ℕ}
      → matches f name ≡ false
      → FoundAt name fs k g
      → FoundAt name (f ∷ fs) (suc k) g

pub data FreeAt : List File → ℕ → Type 0 where
  here : {f : File} {fs : List File} → f.in_use ≡ false → FreeAt (f ∷ fs) 0
  there : {f : File} {fs : List File} {k : ℕ} → FreeAt fs k → FreeAt (f ∷ fs) (suc k)

abbrev pub Unmatched : List ℕ → File → Type 0
Unmatched name file = matches file name ≡ false

matched :
    (used same : Bool) (i : ℕ) (rest : Option ℕ)
    → (if not used then rest else if same then some i else rest)
      ≡ (if used && same then some i else rest)
matched used same i rest = ground arith

find_from-found :
    (files : List File) (i j : ℕ) (name : List ℕ)
    → find_from i files name ≡ some j
    → (k : ℕ) × (j ≡ i + k) × FoundAt name files k (get_or files k cleared_file)
unfolding find_from
find_from-found [] i j name e = absurd (ground arith)
find_from-found (f ∷ files) i j name e = elim (Bool-cases (matches f name)) [
  | inl m ↦
      let q : some i ≡ some j =
        simp m at
          (sym (matched f.in_use (same_name f.name name) i (find_from (i + 1) files name)) ∙ e) in
      (0, ground arith, FoundAt.here m)
  | inr n ↦
      let q : find_from (i + 1) files name ≡ some j =
        simp n at
          (sym (matched f.in_use (same_name f.name name) i (find_from (i + 1) files name)) ∙ e) in
      let (k, s, found) = find_from-found files (i + 1) j name q in
      (suc k, omega (arith, s), FoundAt.there n found)
]

find_from-none :
    (files : List File) (i : ℕ) (name : List ℕ)
    → find_from i files name ≡ none
    → All (Unmatched name) files
unfolding find_from
find_from-none [] i name e = tt
find_from-none (f ∷ files) i name e = elim (Bool-cases (matches f name)) [
  | inl m ↦
      let q : some i ≡ none =
        simp m at
          (sym (matched f.in_use (same_name f.name name) i (find_from (i + 1) files name)) ∙ e) in
      absurd (ground arith)
  | inr n ↦
      let q : find_from (i + 1) files name ≡ none =
        simp n at
          (sym (matched f.in_use (same_name f.name name) i (find_from (i + 1) files name)) ∙ e) in
      (n, find_from-none files (i + 1) name q)
]

allocate_from-free :
    (files : List File) (i j : ℕ)
    → allocate_from i files ≡ some j
    → (k : ℕ) × (j ≡ i + k) × FreeAt files k
unfolding allocate_from
allocate_from-free [] i j e = absurd (ground arith)
allocate_from-free (f ∷ files) i j e = elim (Bool-cases f.in_use) [
  | inl u ↦
      let q : allocate_from (i + 1) files ≡ some j = simp u at e in
      let (k, s, free) = allocate_from-free files (i + 1) j q in
      (suc k, omega (arith, s), FreeAt.there free)
  | inr n ↦ let q : some i ≡ some j = simp n at e in (0, ground arith, FreeAt.here n)
]

pub find-found :
    (files : List File) (j : ℕ) (name : List ℕ)
    → fs_find_mutable files name ≡ some j
    → FoundAt name files j (get_or files j cleared_file)
find-found files j name e =
    let (k, q, found) = find_from-found files 0 j name e in
    subst (λ (n : ℕ). FoundAt name files n (get_or files n cleared_file)) (omega (arith, q)) found

pub find-none :
    (files : List File) (name : List ℕ)
    → fs_find_mutable files name ≡ none
    → All (Unmatched name) files
find-none files name e = find_from-none files 0 name e

pub allocate-free : (files : List File) (j : ℕ) → fs_allocate_slot files ≡ some j → FreeAt files j
allocate-free files j e =
    let (k, q, free) = allocate_from-free files 0 j e in
    subst (λ (n : ℕ). FreeAt files n) (omega (arith, q)) free
