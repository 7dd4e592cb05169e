-- ===== src/Fs/Files/Distinct.antt =====
-- kernel/fs.c: FILES keeps stored files of different names.
use nostalux_os.Base.{
  ℕ, zero, suc, ◌≡◌, sym, ◌∙◌, inl, inr, true, false, List, [], ◌∷◌, set, length-set, All, All-set,
  Pairwise,
}
use nostalux_os.Fs.{File}
use nostalux_os.Fs.Files.Change.{matches_self}
use nostalux_os.Fs.Files.Places.{FoundAt, here, there, Unmatched}
use nostalux_os.Fs.Valid.{IsFile, Differ, AreFiles}
use nostalux_os.KString.Order.{IsString}

-- The file `g` differs from those at other places than `k`.
abbrev pub ApartAt : List File → ℕ → File → Type 0
ApartAt [] k g = Unit
ApartAt (f ∷ files) zero g = All (Differ g) files
ApartAt (f ∷ files) (suc k) g = Differ f g × ApartAt files k g

Pairwise-set :
    (files : List File) (k : ℕ) (g : File)
    → Pairwise Differ files
    → ApartAt files k g
    → Pairwise Differ (set files k g)
Pairwise-set [] k g d a = tt
Pairwise-set (f ∷ files) zero g d a = (a, d.1)
Pairwise-set (f ∷ files) (suc k) g d a =
    (All-set (Differ f) files k g d.0 a.0, Pairwise-set files k g d.1 a.1)

pub AreFiles-set :
    (files : List File) (k : ℕ) (g : File)
    → AreFiles files
    → IsFile g
    → ApartAt files k g
    → AreFiles (set files k g)
AreFiles-set files k g h s a = record {
  count = length-set files k g ∙ h.count;
  stored = All-set IsFile files k g h.stored s;
  distinct = Pairwise-set files k g h.distinct a;
}

Differ-all_unused : (g : File) (files : List File) → g.in_use ≡ false → All (Differ g) files
Differ-all_unused g [] u = tt
Differ-all_unused g (f ∷ files) u = (inl u, Differ-all_unused g files u)

pub ApartAt-unused : (files : List File) (k : ℕ) (g : File) → g.in_use ≡ false → ApartAt files k g
ApartAt-unused [] k g u = tt
ApartAt-unused (f ∷ files) zero g u = Differ-all_unused g files u
ApartAt-unused (f ∷ files) (suc k) g u = (inr (inl u), ApartAt-unused files k g u)

used_unused : (f : File) → f.in_use ≡ true → f.in_use ≡ false → ⊥
used_unused f u n = cc

Differ-sym : (f g : File) → Differ f g → Differ g f
Differ-sym f g (inl n) = inr (inl n)
Differ-sym f g (inr (inl n)) = inl n
Differ-sym f g (inr (inr n)) = inr (inr (λ e. n (sym e)))

used-Unmatched : (f g : File) → f.in_use ≡ true → f.name ≡ g.name → Unmatched g.name f → ⊥
used-Unmatched f g used e free = let m = matches_self f g.name used e in cc

found-Differ :
    (name : List ℕ) (files : List File) (k : ℕ) (f f' : File)
    → FoundAt name files k f'
    → All (Differ f) files
    → Differ f f'
found-Differ name [] k f f' found d = elim found [ ]
found-Differ name (h ∷ files) zero f f' (here m) d = d.0
found-Differ name (h ∷ files) (suc k) f f' (there n found) d =
    found-Differ name files k f f' found d.1

-- A file of the name that the file at the place had.
same_apart :
    (f g : File) (files : List File)
    → g.name ≡ f.name
    → f.in_use ≡ true
    → All (Differ f) files
    → All (Differ g) files
same_apart f g [] e u d = tt
same_apart f g (h ∷ files) e u d = (one d.0, same_apart f g files e u d.1)
  where
    one : Differ f h → Differ g h
    one (inl n) = absurd (used_unused f u n)
    one (inr (inl n)) = inr (inl n)
    one (inr (inr n)) = inr (inr (λ q. n (sym e ∙ q)))

before_apart : (f f' g : File) → g.name ≡ f'.name → f'.in_use ≡ true → Differ f f' → Differ f g
before_apart f f' g e u (inl n) = inl n
before_apart f f' g e u (inr (inl n)) = absurd (used_unused f' u n)
before_apart f f' g e u (inr (inr n)) = inr (inr (λ q. n (q ∙ e)))

pub ApartAt-same :
    (name : List ℕ) (files : List File) (k : ℕ) (f g : File)
    → FoundAt name files k f
    → Pairwise Differ files
    → f.in_use ≡ true
    → g.name ≡ f.name
    → ApartAt files k g
ApartAt-same name [] k f g found d u e = elim found [ ]
ApartAt-same name (f ∷ files) zero f' g (here m) d u e = same_apart f g files e u d.0
ApartAt-same name (f ∷ files) (suc k) f' g (there n found) d u e = (
  before_apart f f' g e u (found-Differ name files k f f' found d.0),
  ApartAt-same name files k f' g found d.1 u e,
)

-- A file of a name that no file has.
apart_new : (f g : File) → IsFile f → IsString g.name → Unmatched g.name f → Differ f g
apart_new f g (inl n) hn free = inl n
apart_new f g (inr (used, stored)) hn free = inr (inr (λ e. used-Unmatched f g used e free))

apart_all :
    (g : File) (files : List File)
    → All IsFile files
    → IsString g.name
    → All (Unmatched g.name) files
    → All (Differ g) files
apart_all g [] s hn free = tt
apart_all g (f ∷ files) s hn free =
    (Differ-sym f g (apart_new f g s.0 hn free.0), apart_all g files s.1 hn free.1)

pub ApartAt-new :
    (files : List File) (k : ℕ) (g : File)
    → All IsFile files
    → IsString g.name
    → All (Unmatched g.name) files
    → ApartAt files k g
ApartAt-new [] k g s hn free = tt
ApartAt-new (f ∷ files) zero g s hn free = apart_all g files s.1 hn free.1
ApartAt-new (f ∷ files) (suc k) g s hn free =
    (apart_new f g s.0 hn free.0, ApartAt-new files k g s.1 hn free.1)
