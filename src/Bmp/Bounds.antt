-- ===== src/Bmp/Bounds.antt =====
-- kernel/bmp.c: no read leaves the buffer.
use nostalux_os.Base.{
  ℕ, zero, suc, ◌+◌, ◌^◌, ◌≤◌, ◌<◌, ◌≡◌, refl, subst, ◌≢◌, Bool, true, false, List, [], ◌∷◌, arith,
  length, All,
}
use nostalux_os.Base.Bits.{bit_or-lt}
use nostalux_os.Bmp.{
  Access, value, refuse, fault, ◌>>=◌, refuse_if, byte_at, read_u16_le, read_u32_le,
}

abbrev pub IsBytes : List ℕ → Type 0
IsBytes = All (λ b. b < 256)

-- The computation makes no access outside of a buffer, and a value that it gives satisfies `P`.
pub data Safely {ℓ} {A : Type ℓ} (P : A → Type 0) : Access A → Type ℓ where
  gives : (a : A) → P a → Safely P (value a)
  refuses : Safely P refuse

module _ {ℓ κ} {A : Type ℓ} {B : Type κ} where
  pub Safely-bind :
      (P : A → Type 0) (Q : B → Type 0) {m : Access A} (f : A → Access B)
      → Safely P m
      → ((a : A) → P a → Safely Q (f a))
      → Safely Q (m >>= f)
  Safely-bind P Q f (gives a h) g = g a h
  Safely-bind P Q f refuses g = refuses

module _ {ℓ} {A : Type ℓ} where
  pub Safely-refuse_if :
      (Q : A → Type 0) (b : Bool) (m : Access A)
      → (b ≡ false → Safely Q m)
      → Safely Q (refuse_if b >>= λ _. m)
  Safely-refuse_if Q true m h = refuses
  Safely-refuse_if Q false m h = h refl

  pub Safely-ne-fault : (P : A → Type 0) {m : Access A} → Safely P m → m ≢ fault
  Safely-ne-fault P (gives a h) e = cc
  Safely-ne-fault P refuses e = cc

  pub Safely-value : (P : A → Type 0) {m : Access A} {a : A} → Safely P m → m ≡ value a → P a
  Safely-value P (gives b h) e = subst P (cc) h
  Safely-value P refuses e = cc

pub Safely-refuse_last : (P : Type 0) (b : Bool) → (b ≡ false → P) → Safely (λ _. P) (refuse_if b)
Safely-refuse_last P true h = refuses
Safely-refuse_last P false h = gives tt (h refl)

pub byte_at-Safely :
    (bytes : List ℕ) (i : ℕ)
    → IsBytes bytes
    → i < length bytes
    → Safely (λ b. b < 256) (byte_at bytes i)
byte_at-Safely [] i h lt = absurd (omega arith)
byte_at-Safely (b ∷ bs) zero h lt = gives b h.0
byte_at-Safely (b ∷ bs) (suc i) h lt = byte_at-Safely bs i h.1 (omega arith)

pub byte_at-value :
    (bytes : List ℕ) (i : ℕ)
    → IsBytes bytes
    → i < length bytes
    → (b : ℕ) × (byte_at bytes i ≡ value b) × (b < 256)
byte_at-value [] i h lt = absurd (omega arith)
byte_at-value (b ∷ bs) zero h lt = (b, refl, h.0)
byte_at-value (b ∷ bs) (suc i) h lt = byte_at-value bs i h.1 (omega arith)

-- Reads in the buffer, followed by the rest of a computation.
module _ {ℓ} (bytes : List ℕ) (h : IsBytes bytes) {B : Type ℓ} (Q : B → Type 0) where
  pub then_byte :
      (i : ℕ) (f : ℕ → Access B)
      → i < length bytes
      → ((b : ℕ) → b < 256 → Safely Q (f b))
      → Safely Q (byte_at bytes i >>= f)
  then_byte i f lt g = Safely-bind (λ b. b < 256) Q f (byte_at-Safely bytes i h lt) g

module _ (bytes : List ℕ) (h : IsBytes bytes) where
  read_u16_le-Safely :
      (i : ℕ) → i + 2 ≤ length bytes → Safely (λ v. v < 2 ^ 16) (read_u16_le bytes i)
  unfolding read_u16_le
  read_u16_le-Safely i lt = then_byte bytes h _ i _ (omega arith) λ b0 h0.
      then_byte bytes h _ (i + 1) _ (omega arith)
        λ b1 h1. gives _ (bit_or-lt 16 _ _ (omega arith) (omega arith))

  read_u32_le-Safely :
      (i : ℕ) → i + 4 ≤ length bytes → Safely (λ v. v < 2 ^ 32) (read_u32_le bytes i)
  unfolding read_u32_le
  read_u32_le-Safely i lt = then_byte bytes h _ i _ (omega arith) λ b0 h0.
      then_byte bytes h _ (i + 1) _ (omega arith) λ b1 h1.
        then_byte bytes h _ (i + 2) _ (omega arith) λ b2 h2.
          then_byte bytes h _ (i + 3) _ (omega arith) λ b3 h3. gives _ (
            bit_or-lt 32 _ _
              (bit_or-lt 32 _ _ (bit_or-lt 32 _ _ (omega arith) (omega arith)) (omega arith))
              (omega arith))

module _ {ℓ} (bytes : List ℕ) (h : IsBytes bytes) {B : Type ℓ} (Q : B → Type 0) where
  pub then_u16 :
      (i : ℕ) (f : ℕ → Access B)
      → i + 2 ≤ length bytes
      → ((v : ℕ) → v < 2 ^ 16 → Safely Q (f v))
      → Safely Q (read_u16_le bytes i >>= f)
  then_u16 i f lt g = Safely-bind (λ v. v < 2 ^ 16) Q f (read_u16_le-Safely bytes h i lt) g

  pub then_u32 :
      (i : ℕ) (f : ℕ → Access B)
      → i + 4 ≤ length bytes
      → ((v : ℕ) → v < 2 ^ 32 → Safely Q (f v))
      → Safely Q (read_u32_le bytes i >>= f)
  then_u32 i f lt g = Safely-bind (λ v. v < 2 ^ 32) Q f (read_u32_le-Safely bytes h i lt) g
