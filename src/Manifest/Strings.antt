-- ===== src/Manifest/Strings.antt =====
-- kernel/app_manifest.c: a text in an array, as the characters before its first zero.
use nostalux_os.Base.{
  ℕ, ◌+◌, ◌≡◌, refl, sym, ap, ◌∙◌, ◌≢◌, ◌↔◌, ◌⊎◌, inl, inr, true, Option, none, some, List, [], ◌∷◌,
  arith, ◌==◌, if◌then◌else◌, tests, Bool-cases, Option-cases, length, take,
}
use nostalux_os.Manifest.{string_is_terminated, strings_equal_bounded}

-- `none` when the array has no zero.
abbrev pub string_of : List ℕ → Option (List ℕ)
string_of [] = none
string_of (c ∷ text) =
    if c == 0 then some [] else elim (string_of text) [ none ↦ none | some s ↦ some (c ∷ s) ]

string_of-zero : (text : List ℕ) → string_of (0 ∷ text) ≡ some []
string_of-zero text = refl

string_of-step :
    (c : ℕ) (text s : List ℕ)
    → c ≢ 0
    → string_of text ≡ some s
    → string_of (c ∷ text) ≡ some (c ∷ s)
string_of-step c text s n e = ground arith

equal-strings :
    (first second : List ℕ)
    → strings_equal_bounded first second ≡ true
    → (s : List ℕ) × (string_of first ≡ some s) × (string_of second ≡ some s)
unfolding strings_equal_bounded
equal-strings [] second e = absurd (ground arith)
equal-strings (a ∷ first) [] e = absurd (ground arith)
equal-strings (a ∷ first) (b ∷ second) e = elim (Bool-cases (a == 0)) [
  | inl z ↦ ([], ground arith, ground arith)
  | inr z ↦
      let q : a ≡ b = ground arith in
      let rest = equal-strings first second (ground arith) in
      (
        a ∷ rest.0,
        string_of-step a first rest.0 (omega (tests, z)) rest.1,
        rw q (string_of-step b second rest.0 (omega (tests, z, q)) rest.2),
      )
]

string_of-cases :
    (c : ℕ) (text s : List ℕ)
    → string_of (c ∷ text) ≡ some s
    → ((c ≡ 0) × (s ≡ []))
      ⊎ ((rest : List ℕ) × (c ≢ 0) × (s ≡ c ∷ rest) × (string_of text ≡ some rest))
string_of-cases c text s e = elim (Bool-cases (c == 0)) [
  | inl z ↦ inl (ground arith, ground arith)
  | inr z ↦ elim (Option-cases (string_of text)) [
    | inl none_ ↦ absurd (ground arith)
    | inr (rest, some_) ↦ inr (rest, omega (tests, z), ground arith, some_)
  ]
]

same_head : (a b : ℕ) (s t : List ℕ) → a ∷ s ≡ b ∷ t → (a ≡ b) × (s ≡ t)
same_head a b s t e = ground arith

strings-equal :
    (first second s : List ℕ)
    → string_of first ≡ some s
    → string_of second ≡ some s
    → strings_equal_bounded first second ≡ true
unfolding strings_equal_bounded
strings-equal [] second s e1 e2 = absurd (ground arith)
strings-equal (a ∷ first) [] s e1 e2 = absurd (ground arith)
strings-equal (a ∷ first) (b ∷ second) s e1 e2 = elim (string_of-cases a first s e1) [
  | inl (z, n) ↦ elim (string_of-cases b second s e2) [
    | inl (z2, n2) ↦ ground arith
    | inr (t, nz, c, r) ↦ absurd (ground arith)
  ]
  | inr (t, nz, c, r) ↦ elim (string_of-cases b second s e2) [
    | inl (z2, n2) ↦ absurd (ground arith)
    | inr (u, nz2, c2, r2) ↦
        let h = same_head a b t u (sym c ∙ c2) in
        ground (arith, strings-equal first second t r (r2 ∙ ap some (sym h.1)))
  ]
]

-- The comparison finds two arrays equal exactly when each holds a text that ends in the array and the
-- two texts are the same.
pub strings_equal_bounded-string_of :
    (first second : List ℕ)
    → strings_equal_bounded first second ≡ true
      ↔ ((s : List ℕ) × (string_of first ≡ some s) × (string_of second ≡ some s))
strings_equal_bounded-string_of first second =
    ((λ e. equal-strings first second e), (λ w. strings-equal first second w.0 w.1 w.2))

pub string_is_terminated-string_of :
    (text : List ℕ) (index n : ℕ)
    → string_is_terminated text index ≡ some n
    → (s : List ℕ) × (string_of text ≡ some s) × (index + length s ≡ n) × (take (length s) text ≡ s)
unfolding string_is_terminated
string_is_terminated-string_of [] index n e = absurd (ground arith)
string_is_terminated-string_of (c ∷ text) index n e = elim (Bool-cases (c == 0)) [
  | inl z ↦ ([], ground arith, ground arith, refl)
  | inr z ↦
      let rest = string_is_terminated-string_of text (index + 1) n (ground arith) in
      (
        c ∷ rest.0,
        string_of-step c text rest.0 (omega (tests, z)) rest.1,
        omega (arith, rest.2),
        ap (λ (t : List ℕ). c ∷ t) rest.3,
      )
]

pub strings_equal_bounded_self :
    (text s : List ℕ) → string_of text ≡ some s → strings_equal_bounded text text ≡ true
strings_equal_bounded_self text s e = strings-equal text text s e e
