-- ===== src/KString/Order.antt =====
-- kernel/kstring.c: the comparisons against the order of the dictionary.
use nostalux_os.Base.{
  ℕ, zero, suc, ◌^◌, ◌≤◌, ◌<◌, ◌≡◌, refl, ap, ◌⊎◌, inl, inr, List, [], ◌∷◌, arith, ltb, ◌==◌, tests,
  Bool-cases, take, All,
}
use nostalux_os.KString.{kstrcmp, kstrncmp}

-- The bytes of a string are not zero.
abbrev pub IsString : List ℕ → Type 0
IsString = All (λ c. (0 < c) × (c < 256))

abbrev pub Before : List ℕ → List ℕ → Type 0
Before a [] = ⊥
Before [] (cb ∷ b) = Unit
Before (ca ∷ a) (cb ∷ b) = (ca < cb) ⊎ ((ca ≡ cb) × Before a b)

-- The three results of a comparison.
pub data Compares (a b : List ℕ) (result : ℕ) : Type 0 where
  equal : result ≡ 0 → a ≡ b → Compares a b result
  less : (2 ^ 31 ≤ result) × (result < 2 ^ 32) → Before a b → Compares a b result
  greater : (0 < result) × (result < 2 ^ 31) → Before b a → Compares a b result

after_head : (c : ℕ) (a b : List ℕ) (r : ℕ) → Compares a b r → Compares (c ∷ a) (c ∷ b) r
after_head c a b r (equal z e) = equal z (ap (λ (t : List ℕ). c ∷ t) e)
after_head c a b r (less h l) = less h (inr (refl, l))
after_head c a b r (greater h l) = greater h (inr (refl, l))

-- For strings of nonzero bytes, the result of `kstrcmp` is 0 when they are equal, negative when the
-- first comes before the second in the order of the dictionary, and positive when it comes after
-- it.
pub kstrcmp-Compares : (a b : List ℕ) → IsString a → IsString b → Compares a b (kstrcmp a b)
unfolding kstrcmp
kstrcmp-Compares [] [] ha hb = equal refl refl
kstrcmp-Compares [] (cb ∷ b) ha hb = less (omega (arith, hb.0), omega (arith, hb.0)) tt
kstrcmp-Compares (ca ∷ a) [] ha hb = greater (omega (arith, ha.0), omega (arith, ha.0)) tt
kstrcmp-Compares (ca ∷ a) (cb ∷ b) ha hb = elim (Bool-cases (ca == cb)) [
  | inl e ↦
      let q : cb ≡ ca = omega (tests, e) in
      simp e (rw q (after_head ca a b (kstrcmp a b) (kstrcmp-Compares a b ha.1 hb.1)))
  | inr n ↦ simp n (elim (Bool-cases (ltb ca cb)) [
    | inl lt ↦ less (omega (tests, lt, hb.0), omega (tests, lt, hb.0)) (inl (omega (tests, lt)))
    | inr ge ↦
        greater (omega (tests, n, ge, ha.0), omega (tests, n, ge, ha.0))
          (inl (omega (tests, n, ge)))
  ])
]

-- `kstrncmp` compares the first `n` characters of the strings.
pub kstrncmp-take : (a b : List ℕ) (n : ℕ) → kstrncmp a b n ≡ kstrcmp (take n a) (take n b)
unfolding kstrncmp kstrcmp
kstrncmp-take a b zero = refl
kstrncmp-take [] [] (suc n) = refl
kstrncmp-take [] (cb ∷ b) (suc n) = refl
kstrncmp-take (ca ∷ a) [] (suc n) = refl
kstrncmp-take (ca ∷ a) (cb ∷ b) (suc n) = ground (arith, kstrncmp-take a b n)
