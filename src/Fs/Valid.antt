-- ===== src/Fs/Valid.antt =====
-- kernel/fs.c: which files FILES may hold.
use nostalux_os.Base.{
  ℕ, suc, ◌+◌, ◌<◌, ◌≡◌, refl, ◌≢◌, ◌⊎◌, inl, inr, Bool, true, false, ◌||◌, List, [], ◌∷◌, arith,
  leb, ◌==◌, if◌then◌else◌, eq→==, tests, Bool-cases, length, All, Pairwise,
}
use nostalux_os.Fs.{fs_max_files, fs_max_filename, fs_max_file_size, File}
use nostalux_os.Fs.Names.{valid_from, fs_is_valid_name, same_name}
use nostalux_os.KString.{kstrcmp}
use nostalux_os.KString.Order.{IsString, equal, less, greater, kstrcmp-Compares}

-- A file in use has a valid name and fits its array.
abbrev pub IsStored : File → Type 0
IsStored file =
    (fs_is_valid_name file.name ≡ true)
    × IsString file.name
    × (length file.contents < fs_max_file_size)

abbrev pub IsFile : File → Type 0
IsFile file = (file.in_use ≡ false) ⊎ ((file.in_use ≡ true) × IsStored file)

abbrev pub Differ : File → File → Type 0
Differ f g = (f.in_use ≡ false) ⊎ ((g.in_use ≡ false) ⊎ (f.name ≢ g.name))

-- FILES: no two files in use have the same name.
pub record AreFiles (files : List File) : Type 0 where
  pub count : length files ≡ fs_max_files
  pub stored : All IsFile files
  pub distinct : Pairwise Differ files

pub same_name-eq : (a b : List ℕ) → IsString a → IsString b → same_name a b ≡ true → a ≡ b
same_name-eq a b ha hb e =
    let z : kstrcmp a b ≡ 0 = omega (tests, e) in
    elim (kstrcmp-Compares a b ha hb) [
      | equal z e ↦ e
      | less h l ↦ absurd (omega (arith, z, h.0))
      | greater h l ↦ absurd (omega (arith, z, h.0))
    ]

pub kstrcmp_self : (a : List ℕ) → kstrcmp a a ≡ 0
unfolding kstrcmp
kstrcmp_self [] = refl
kstrcmp_self (c ∷ a) = simp (eq→== c c refl) (kstrcmp_self a)

pub same_name_self : (a : List ℕ) → same_name a a ≡ true
same_name_self a = rw (kstrcmp_self a) refl

pub same_name-ne : (a b : List ℕ) → IsString a → IsString b → a ≢ b → same_name a b ≡ false
same_name-ne a b ha hb ne = elim (Bool-cases (same_name a b)) [
  | inl e ↦ absurd (ne (same_name-eq a b ha hb e))
  | inr e ↦ e
]

passes :
    (a b r : Bool) → (if a then false else if b then false else r) ≡ true → (b ≡ false) × (r ≡ true)
passes a b r h = ground arith

pub valid_from-lt :
    (n c : ℕ) (name : List ℕ)
    → valid_from n (c ∷ name) ≡ true
    → n + suc (length name) < fs_max_filename
unfolding valid_from
valid_from-lt n c [] h = ground arith
valid_from-lt n c (d ∷ name) h =
    let p =
      passes ((c == 32) || (c == 9) || (c == 47) || (c == 92)) (leb fs_max_filename (n + 1))
        (valid_from (n + 1) (d ∷ name)) h in
    omega (arith, valid_from-lt (n + 1) d name p.1)

pub valid-lt : (name : List ℕ) → fs_is_valid_name name ≡ true → length name < fs_max_filename
unfolding fs_is_valid_name
valid-lt [] h = omega arith
valid-lt (c ∷ name) h = omega (arith, valid_from-lt 0 c name h)
