-- ===== src/Fs/Files/Change.antt =====
-- kernel/fs.c: what a change at one place of FILES does to the contents of each name.
use nostalux_os.Base.{
  ℕ, zero, suc, ◌<◌, ◌≡◌, refl, sym, ap, ◌∙◌, inl, inr, Bool, true, false, ◌&&◌, Option, none, some,
  List, [], ◌∷◌, arith, Bool-cases, length, get_or, set, All, Pairwise,
}
use nostalux_os.Fs.{File}
use nostalux_os.Fs.Files.Places.{
  lookup, matches, contents_if, FoundAt, here, there, FreeAt, Unmatched,
}
use nostalux_os.Fs.Names.{same_name}
use nostalux_os.Fs.Table.{cleared_file}
use nostalux_os.Fs.Valid.{IsStored, IsFile, Differ, same_name-eq, same_name_self}
use nostalux_os.KString.Order.{IsString}

unused_matches : (a b : Bool) → a ≡ false → (a && b) ≡ true → ⊥
unused_matches a b h k = ground arith

matching : (a b : Bool) → (a && b) ≡ true → b ≡ true
matching a b k = ground arith

same-Differ : (f g : File) → f.in_use ≡ true → g.in_use ≡ true → f.name ≡ g.name → Differ f g → ⊥
same-Differ f g uf ug e (inl u) = cc
same-Differ f g uf ug e (inr (inl u)) = cc
same-Differ f g uf ug e (inr (inr ne)) = ne e

pub matches-name :
    (f : File) (name : List ℕ)
    → IsFile f
    → IsString name
    → matches f name ≡ true
    → (f.in_use ≡ true) × IsStored f × (f.name ≡ name)
matches-name f name (inl unused) hn m =
    absurd (unused_matches f.in_use (same_name f.name name) unused m)
matches-name f name (inr (used, stored)) hn m = (
  used,
  stored,
  same_name-eq f.name name stored.1 hn (matching f.in_use (same_name f.name name) m),
)

pub matches_self :
    (f : File) (name : List ℕ) → f.in_use ≡ true → f.name ≡ name → matches f name ≡ true
matches_self f name used e = simp used (rw e (same_name_self name))

pub lookup-none :
    (files : List File) (name : List ℕ) → All (Unmatched name) files → lookup files name ≡ none
unfolding lookup
lookup-none [] name h = refl
lookup-none (f ∷ files) name h = simp h.0 (lookup-none files name h.1)

pub lookup-found :
    (files : List File) (name : List ℕ) (k : ℕ) (f : File)
    → FoundAt name files k f
    → lookup files name ≡ some f.contents
unfolding lookup
lookup-found [] name k g h = elim h [ ]
lookup-found (f ∷ files) name zero g (here m) = simp m refl
lookup-found (f ∷ files) name (suc k) g (there n h) = simp n (lookup-found files name k g h)

-- A name that neither the old nor the new file at the place has keeps its contents.
pub lookup-set_other :
    (files : List File) (k : ℕ) (g : File) (q : List ℕ)
    → matches (get_or files k cleared_file) q ≡ false
    → matches g q ≡ false
    → lookup (set files k g) q ≡ lookup files q
unfolding lookup
lookup-set_other [] k g q old new = refl
lookup-set_other (f ∷ files) zero g q old new = simp (old, new) refl
lookup-set_other (f ∷ files) (suc k) g q old new =
    ap (λ (o : Option (List ℕ)). contents_if (matches f q) f.contents o)
      (lookup-set_other files k g q old new)

pub lookup-set_found :
    (files : List File) (k : ℕ) (f g : File) (name : List ℕ)
    → FoundAt name files k f
    → matches g name ≡ true
    → lookup (set files k g) name ≡ some g.contents
unfolding lookup
lookup-set_found [] k f' g name found h = elim found [ ]
lookup-set_found (f ∷ files) zero f' g name (here m) h = simp h refl
lookup-set_found (f ∷ files) (suc k) f' g name (there n found) h =
    simp n (lookup-set_found files k f' g name found h)

pub lookup-set_free :
    (files : List File) (k : ℕ) (g : File) (name : List ℕ)
    → FreeAt files k
    → All (Unmatched name) files
    → matches g name ≡ true
    → lookup (set files k g) name ≡ some g.contents
unfolding lookup
lookup-set_free [] k g name free unm h = elim free [ ]
lookup-set_free (f ∷ files) zero g name (here u) unm h = simp h refl
lookup-set_free (f ∷ files) (suc k) g name (there free) unm h =
    simp unm.0 (lookup-set_free files k g name free unm.1 h)

-- Behind a file of a name, no file has the name.
Unmatched-behind :
    (f : File) (files : List File) (name : List ℕ)
    → f.in_use ≡ true
    → f.name ≡ name
    → IsString name
    → All IsFile files
    → All (Differ f) files
    → All (Unmatched name) files
Unmatched-behind f [] name used e hn s d = tt
Unmatched-behind f (g ∷ files) name used e hn s d = elim (Bool-cases (matches g name)) [
  | inl m ↦
      let (used', stored, e') = matches-name g name s.0 hn m in
      absurd (same-Differ f g used used' (e ∙ sym e') d.0)
  | inr n ↦ (n, Unmatched-behind f files name used e hn s.1 d.1)
]

pub lookup-set_removed :
    (files : List File) (k : ℕ) (f g : File) (name : List ℕ)
    → FoundAt name files k f
    → IsString name
    → All IsFile files
    → Pairwise Differ files
    → matches g name ≡ false
    → lookup (set files k g) name ≡ none
unfolding lookup
lookup-set_removed [] k f' g name found hn s d h = elim found [ ]
lookup-set_removed (f ∷ files) zero f' g name (here m) hn s d h =
    let (used, stored, e) = matches-name f name s.0 hn m in
    simp h (lookup-none files name (Unmatched-behind f files name used e hn s.1 d.0))
lookup-set_removed (f ∷ files) (suc k) f' g name (there n found) hn s d h =
    simp n (lookup-set_removed files k f' g name found hn s.1 d.1 h)

pub lookup-set_new :
    (files : List File) (k : ℕ) (g : File) (name : List ℕ)
    → k < length files
    → All (Unmatched name) files
    → matches g name ≡ true
    → lookup (set files k g) name ≡ some g.contents
unfolding lookup
lookup-set_new [] k g name lt unm h = absurd (omega arith)
lookup-set_new (f ∷ files) zero g name lt unm h = simp h refl
lookup-set_new (f ∷ files) (suc k) g name lt unm h =
    simp unm.0 (lookup-set_new files k g name (omega arith) unm.1 h)

pub found-lt :
    (name : List ℕ) (files : List File) (k : ℕ) (f : File)
    → FoundAt name files k f
    → k < length files
found-lt name [] k f found = elim found [ ]
found-lt name (f ∷ files) zero g (here m) = omega arith
found-lt name (f ∷ files) (suc k) g (there n found) = omega (arith, found-lt name files k g found)
