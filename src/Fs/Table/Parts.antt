-- ===== src/Fs/Table/Parts.antt =====
-- kernel/fs.c: the records of one file.
use nostalux_os.Base.{
  ℕ, zero, suc, ◌+◌, ◌-◌, ◌*◌, ◌/◌, ◌≤◌, min, ◌≡◌, refl, sym, ap, ◌∙◌, subst, inl, inr, true, false,
  List, [], ◌∷◌, ◌++◌, arith, ◌==◌, eq→==, ne→==, tests, Bool-cases, length, get_or, take, drop,
  length-replicate, length-take, length-drop, All,
}
use nostalux_os.Fs.Table.{
  fs_disk_record_continuation, DiskRecord, zeros, fs_disk_records_needed, continuation_record,
  continuations, are_blank, fs_disk_continuation_is_valid, chain_is_valid, read_parts,
}
use nostalux_os.KString.Order.{IsString}
use nostalux_os.Syslog.{chars_of}

pub length-zeros : (n : ℕ) → length (zeros n) ≡ n
unfolding zeros
length-zeros n = length-replicate n 0

pub chars_of-zeros : (name : List ℕ) (n : ℕ) → IsString name → chars_of (name ++ zeros n) ≡ name
unfolding zeros
chars_of-zeros [] zero h = refl
chars_of-zeros [] (suc n) h = refl
chars_of-zeros (c ∷ name) n h =
    simp (ne→== c 0 (λ e. omega (arith, e, h.0)))
      (ap (λ (t : List ℕ). c ∷ t) (chars_of-zeros name n h.1))

pub get_or-zeros : (bytes : List ℕ) (n i : ℕ) → length bytes ≤ i → get_or (bytes ++ zeros n) i 0 ≡ 0
unfolding zeros
get_or-zeros [] zero i h = refl
get_or-zeros [] (suc n) zero h = refl
get_or-zeros [] (suc n) (suc i) h = get_or-zeros [] n i (omega arith)
get_or-zeros (b ∷ bytes) n zero h = absurd (omega arith)
get_or-zeros (b ∷ bytes) n (suc i) h = get_or-zeros bytes n i (omega arith)

pub are_blank-zeros : (n : ℕ) → are_blank (zeros n) ≡ true
unfolding zeros
are_blank-zeros zero = refl
are_blank-zeros (suc n) = are_blank-zeros n

pub take-append {ℓ} : {A : Type ℓ} (xs ys : List A) → take (length xs) (xs ++ ys) ≡ xs
take-append [] ys = refl
take-append (x ∷ xs) ys = ap (λ t. x ∷ t) (take-append xs ys)

pub take-drop {ℓ} : {A : Type ℓ} (n : ℕ) (xs : List A) → take n xs ++ drop n xs ≡ xs
take-drop zero xs = refl
take-drop (suc n) [] = refl
take-drop (suc n) (x ∷ xs) = ap (λ t. x ∷ t) (take-drop n xs)

pub length-zero {ℓ} : {A : Type ℓ} (xs : List A) → length xs ≡ 0 → xs ≡ []
length-zero [] h = refl
length-zero (x ∷ xs) h = absurd (omega (arith, h))

pub ap2 : {A B C : Type 0} (f : A → B → C) {a a' : A} {b b' : B} → a ≡ a' → b ≡ b' → f a b ≡ f a' b'
ap2 f {a' = a'} {b = b} p q = ap (λ x. f x b) p ∙ ap (f a') q

-- The parts behind the first record of a file.
abbrev pub parts_of : ℕ → ℕ
parts_of left = (left + 1023) / 1024

pub needed-parts_of : (size : ℕ) → fs_disk_records_needed size ≡ suc (parts_of (size - 1024))
unfolding fs_disk_records_needed
needed-parts_of size = ground arith

pub length-continuations :
    (fuel : ℕ) (left : List ℕ)
    → length left ≤ 1024 * fuel
    → length (continuations fuel left) ≡ parts_of (length left)
unfolding continuations
length-continuations zero left h = omega arith
length-continuations (suc fuel) left h = elim (Bool-cases (length left == 0)) [
  | inl e ↦ simp e (omega (tests, e))
  | inr n ↦ simp n (
      omega (
        tests,
        n,
        length-drop 1024 left,
        length-continuations fuel (drop 1024 left) (omega (arith, length-drop 1024 left)),
      ))
]

abbrev pub IsContinuation : DiskRecord → Type 0
IsContinuation r = r.in_use ≡ fs_disk_record_continuation

pub continuations-IsContinuation :
    (fuel : ℕ) (left : List ℕ) → All IsContinuation (continuations fuel left)
unfolding continuations
continuations-IsContinuation zero left = tt
continuations-IsContinuation (suc fuel) left = elim (Bool-cases (length left == 0)) [
  | inl e ↦ simp e tt
  | inr n ↦ simp n (refl, continuations-IsContinuation fuel (drop 1024 left))
]

valid_part :
    (chunk : List ℕ) (expected : ℕ)
    → length chunk ≡ expected
    → fs_disk_continuation_is_valid (continuation_record chunk) expected ≡ true
unfolding fs_disk_continuation_is_valid
valid_part chunk expected e = rw e (simp (eq→== expected expected refl) (are_blank-zeros 32))

continuations-suc :
    (fuel : ℕ) (left : List ℕ)
    → (length left == 0) ≡ false
    → continuations (suc fuel) left
      ≡ continuation_record (take 1024 left) ∷ continuations fuel (drop 1024 left)
unfolding continuations
continuations-suc fuel left n = simp n refl

continuations-empty :
    (fuel : ℕ) (left : List ℕ) → (length left == 0) ≡ true → continuations fuel left ≡ []
unfolding continuations
continuations-empty zero left e = refl
continuations-empty (suc fuel) left e = simp e refl

abbrev Passes : List ℕ → List DiskRecord → List DiskRecord → Type 0
Passes left parts rest = chain_is_valid (length parts) (length left) (parts ++ rest) ≡ true

Passes-cons :
    (left : List ℕ) (parts rest : List DiskRecord)
    → Passes (drop 1024 left) parts rest
    → Passes left (continuation_record (take 1024 left) ∷ parts) rest
unfolding chain_is_valid
Passes-cons left parts rest h =
    let ok =
      valid_part (take 1024 left) (min (length left) 1024) (omega (arith, length-take 1024 left)) in
    let len : length (drop 1024 left) ≡ length left - min (length left) 1024 =
      omega (arith, length-drop 1024 left) in
    rw ok (subst (λ (m : ℕ). chain_is_valid (length parts) m (parts ++ rest) ≡ true) len h)

Passes-nil :
    (left : List ℕ) (rest : List DiskRecord) → (length left == 0) ≡ true → Passes left [] rest
unfolding chain_is_valid
Passes-nil left rest e = e

-- The parts that were written for the bytes pass the test of the parts, whatever follows them.
pub continuations-chain :
    (fuel : ℕ) (left : List ℕ) (rest : List DiskRecord)
    → length left ≤ 1024 * fuel
    → Passes left (continuations fuel left) rest
continuations-chain zero left rest h =
    let e = eq→== (length left) 0 (omega arith) in
    rw (continuations-empty zero left e) (Passes-nil left rest e)
continuations-chain (suc fuel) left rest h = elim (Bool-cases (length left == 0)) [
  | inl e ↦ rw (continuations-empty (suc fuel) left e) (Passes-nil left rest e)
  | inr n ↦ rw (continuations-suc fuel left n) (
      Passes-cons left (continuations fuel (drop 1024 left)) rest
        (continuations-chain fuel (drop 1024 left) rest (omega (arith, length-drop 1024 left))))
]

abbrev ReadsBack : List ℕ → List DiskRecord → List DiskRecord → Type 0
ReadsBack left parts rest = read_parts (length parts) (parts ++ rest) ≡ left

ReadsBack-nil :
    (left : List ℕ) (rest : List DiskRecord) → (length left == 0) ≡ true → ReadsBack left [] rest
unfolding read_parts
ReadsBack-nil left rest e = sym (length-zero left (omega (tests, e)))

ReadsBack-cons :
    (left : List ℕ) (parts rest : List DiskRecord)
    → ReadsBack (drop 1024 left) parts rest
    → ReadsBack left (continuation_record (take 1024 left) ∷ parts) rest
unfolding read_parts
ReadsBack-cons left parts rest h =
    let chunk = take 1024 left in
    ap2 ◌++◌ (take-append chunk (zeros (1024 - length chunk))) h ∙ take-drop 1024 left

-- They read back as the bytes.
pub continuations-read :
    (fuel : ℕ) (left : List ℕ) (rest : List DiskRecord)
    → length left ≤ 1024 * fuel
    → ReadsBack left (continuations fuel left) rest
continuations-read zero left rest h =
    let e = eq→== (length left) 0 (omega arith) in
    rw (continuations-empty zero left e) (ReadsBack-nil left rest e)
continuations-read (suc fuel) left rest h = elim (Bool-cases (length left == 0)) [
  | inl e ↦ rw (continuations-empty (suc fuel) left e) (ReadsBack-nil left rest e)
  | inr n ↦ rw (continuations-suc fuel left n) (
      ReadsBack-cons left (continuations fuel (drop 1024 left)) rest
        (continuations-read fuel (drop 1024 left) rest (omega (arith, length-drop 1024 left))))
]
