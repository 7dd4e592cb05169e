-- ===== src/Fs/Files/Listed.antt =====
-- kernel/fs.c: the files that are listed, by their count and by their index.
use nostalux_os.Base.{
  ℕ, suc, ◌+◌, ◌-◌, ◌≡◌, sym, ◌∙◌, inl, inr, Bool, true, false, Option, none, some, List, [], ◌∷◌,
  arith, ltb, ◌==◌, if◌then◌else◌, lt→ltb, tests, Bool-cases,
}
use nostalux_os.Fs.{File, Fs}
use nostalux_os.Fs.Files.{is_listed, count_listed, fs_file_count, file_at_from, fs_file_at}
use nostalux_os.Syslog.Text.{log_text}

abbrev pub is_some : Option File → Bool
is_some none = false
is_some (some f) = true

ltb_pred : (i c v : ℕ) → (i == 0) ≡ false → ltb (i - 1) (c + v) ≡ ltb i (suc c + v)
ltb_pred i c v h = ground arith

file_at_from-count :
    (files : List File) (virtual : Bool) (log_text : List ℕ) (index : ℕ)
    → is_some (file_at_from virtual log_text index files)
      ≡ ltb index (count_listed virtual files + (if virtual then 1 else 0))
unfolding file_at_from count_listed
file_at_from-count [] virtual log_text index = ground arith
file_at_from-count (f ∷ files) virtual log_text index = elim (Bool-cases (is_listed virtual f)) [
  | inl e ↦ simp e (elim (Bool-cases (index == 0)) [
    | inl z ↦ simp z (
        sym (
          lt→ltb index (suc (count_listed virtual files) + (if virtual then 1 else 0))
            (omega (tests, z))))
    | inr z ↦ simp z (
        file_at_from-count files virtual log_text (index - 1)
        ∙ ltb_pred index (count_listed virtual files) (if virtual then 1 else 0) z)
  ])
  | inr n ↦ simp n (file_at_from-count files virtual log_text index)
]

-- `fs_file_at` returns a file at exactly the indices below `fs_file_count`.
pub fs_file_at-fs_file_count :
    (log_text : List ℕ) (index : ℕ) (fs : Fs)
    → is_some (fs_file_at log_text index fs) ≡ ltb index (fs_file_count fs)
unfolding fs_file_at fs_file_count
fs_file_at-fs_file_count log_text index fs =
    file_at_from-count fs.files fs.log_is_virtual log_text index
