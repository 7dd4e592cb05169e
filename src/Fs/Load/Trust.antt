-- ===== src/Fs/Load/Trust.antt =====
-- kernel/fs.c: what the header of the slot that is not mounted says of a mount.
use nostalux_os.Base.{
  ℕ, ◌≡◌, refl, inl, inr, true, false, Option, none, some, List, [], ◌∷◌, arith, ◌==◌, ==→eq, eq→==,
  Bool-cases, All,
}
use nostalux_os.Fs.Bytes.{fs_header_is_valid, fs_bytes_are_blank, fs_header_is_blank}
use nostalux_os.Fs.Load.{
  LoadResult, loaded, loaded_io_error, loaded_corrupt, fs_loaded_result, HeaderRead, header_read,
}

-- What a mount returns when the other header was read as `p`.
abbrev pub load_result : HeaderRead → LoadResult
load_result p = fs_loaded_result p.saw_io_error p.saw_nonblank_invalid

blank-zeros : (bytes : List ℕ) → fs_header_is_blank bytes ≡ true → All (λ (b : ℕ). b ≡ 0) bytes
unfolding fs_bytes_are_blank
blank-zeros [] h = tt
blank-zeros (b ∷ bytes) h = elim (Bool-cases (b == 0)) [
  | inl z ↦ (==→eq b 0 z, blank-zeros bytes (simp z at h))
  | inr n ↦ absurd (ground arith)
]

zeros-blank : (bytes : List ℕ) → fs_header_is_blank bytes ≡ false → All (λ (b : ℕ). b ≡ 0) bytes → ⊥
unfolding fs_bytes_are_blank
zeros-blank [] h z = ground arith
zeros-blank (b ∷ bytes) h z = zeros-blank bytes (simp (eq→== b 0 z.0) at h) z.1

-- What the other header says of the mount: it could not be read, it is a valid one, it is blank, which is
-- a sector of zeros, or neither.
pub data Trusts (o : Option (List ℕ)) : LoadResult → Type 0 where
  unread : o ≡ none → Trusts o loaded_io_error
  read_valid : (bytes : List ℕ) → o ≡ some bytes → fs_header_is_valid bytes ≡ true → Trusts o loaded
  read_blank :
      (bytes : List ℕ)
      → o ≡ some bytes
      → fs_header_is_valid bytes ≡ false
      → All (λ (b : ℕ). b ≡ 0) bytes
      → Trusts o loaded
  read_damaged :
      (bytes : List ℕ)
      → o ≡ some bytes
      → fs_header_is_valid bytes ≡ false
      → ¬ All (λ (b : ℕ). b ≡ 0) bytes
      → Trusts o loaded_corrupt

pub header_read-Trusts : (o : Option (List ℕ)) → Trusts o (load_result (header_read o))
unfolding header_read fs_loaded_result
header_read-Trusts none = unread refl
header_read-Trusts (some bytes) = elim (Bool-cases (fs_header_is_valid bytes)) [
  | inl v ↦ simp v (read_valid bytes refl v)
  | inr n ↦ elim (Bool-cases (fs_header_is_blank bytes)) [
    | inl b ↦ simp (n, b) (read_blank bytes refl n (blank-zeros bytes b))
    | inr d ↦ simp (n, d) (read_damaged bytes refl n (λ z. zeros-blank bytes d z))
  ]
]
