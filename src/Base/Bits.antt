-- ===== src/Base/Bits.antt =====
-- The bit operations at variables: one equation for the lowest digit, and the masks of the code.
use Prim.Native.Nat.{
  ℕ, zero, suc, ◌+◌, ◌-◌, ◌*◌, ◌/◌, ◌%◌, ◌^◌, ◌≤◌, ◌<◌, min, max, bit_and, bit_or, digits, bitwise,
  bit_and-bitwise, bit_or-bitwise,
}
use mathlib.Core.Path.{◌≡◌, ◌∙◌, refl, sym, ap}
use native.Mathlib.Nat.{le_refl, mul_assoc, mul_comm, div-div-eq-div-mul}
use native.Mathlib.Omega.{arith}

-- The library gives a bitwise operation as `digits`, which halves its first operand once for each
-- unit of fuel. Fuel beyond that operand changes nothing.
module _ (rest : ℕ → ℕ) (join : ℕ → ℕ → ℕ) where
  spare_unit :
      (fuel left right : ℕ)
      → left ≤ fuel
      → digits rest join (suc fuel) left right ≡ digits rest join fuel left right
  spare_unit zero zero right h = refl
  spare_unit zero (suc left) right h = absurd (omega arith)
  spare_unit (suc fuel) zero right h = refl
  spare_unit (suc fuel) (suc left) right h =
      ap (λ (t : ℕ). t * 2 + join (suc left % 2) (right % 2))
        (spare_unit fuel (suc left / 2) (right / 2) (omega arith))

  spare_fuel :
      (extra fuel total left right : ℕ)
      → extra + fuel ≡ total
      → left ≤ fuel
      → digits rest join total left right ≡ digits rest join fuel left right
  spare_fuel zero fuel total left right e h =
      ap (λ (t : ℕ). digits rest join t left right) (omega arith)
  spare_fuel (suc extra) fuel total left right e h =
      let more : total ≡ suc (extra + fuel) = omega arith in
      rw more (
        spare_unit (extra + fuel) left right (omega arith)
        ∙ spare_fuel extra fuel (extra + fuel) left right refl h)

  -- So the operation has an equation for its lowest digit.
  lowest_digit :
      (left right : ℕ)
      → bitwise rest join (suc left) right
        ≡ bitwise rest join (suc left / 2) (right / 2) * 2 + join (suc left % 2) (right % 2)
  lowest_digit left right =
      ap (λ (t : ℕ). t * 2 + join (suc left % 2) (right % 2))
        (spare_fuel (left - suc left / 2) (suc left / 2) left (suc left / 2) (right / 2)
          (omega arith) (omega arith))

pub bit_or_step :
    (left right : ℕ)
    → bit_or left right ≡ bit_or (left / 2) (right / 2) * 2 + max (left % 2) (right % 2)
bit_or_step zero right = simp bit_or-bitwise (omega arith)
bit_or_step (suc left) right = simp bit_or-bitwise (lowest_digit (λ t. t) max left right)

pub bit_and_step :
    (left right : ℕ)
    → bit_and left right ≡ bit_and (left / 2) (right / 2) * 2 + min (left % 2) (right % 2)
bit_and_step zero right = simp bit_and-bitwise (omega arith)
bit_and_step (suc left) right = simp bit_and-bitwise (lowest_digit (λ t. 0) min left right)

bit_and-le_bound : (bound a b : ℕ) → a ≤ bound → bit_and a b ≤ b
bit_and-le_bound zero a b h =
    let e : a ≡ 0 = omega arith in rw e (simp bit_and-bitwise (omega arith))
bit_and-le_bound (suc bound) a b h =
    ground (arith, bit_and_step a b, bit_and-le_bound bound (a / 2) (b / 2) (omega arith))

-- A mask keeps a value below itself.
pub bit_and-le : (a b : ℕ) → bit_and a b ≤ b
bit_and-le a b = bit_and-le_bound a a b (le_refl a)

pub bit_and-zero : (a : ℕ) → bit_and a 0 ≡ 0
bit_and-zero a = omega (arith, bit_and-le a 0)

-- A number of `n` ones, computed by doubling so that it is a numeral at a numeral `n`.
abbrev pub pow2 : ℕ → ℕ
pow2 zero = 1
pow2 (suc n) = pow2 n * 2

abbrev pub ones : ℕ → ℕ
ones zero = 0
ones (suc n) = ones n * 2 + 1

-- A mask of low ones is a remainder.
pub bit_and-ones : (n a : ℕ) → bit_and a (ones n) ≡ a % pow2 n
bit_and-ones zero a = omega (arith, bit_and-zero a)
bit_and-ones (suc n) a = grind (arith, bit_and_step a (ones (suc n)), bit_and-ones n (a / 2))

pub bit_and-fifteen : (a : ℕ) → bit_and a 15 ≡ a % 16
bit_and-fifteen a = bit_and-ones 4 a

pub bit_and-double : (a m : ℕ) → bit_and a (m * 2) ≡ bit_and (a / 2) m * 2
bit_and-double a m = ground (arith, bit_and_step a (m * 2))

-- `a & ~15` and `a & ~4095`, for 64-bit `a`.
half-div : (k a : ℕ) → a / 2 / pow2 k ≡ a / (pow2 k * 2)
half-div k a = div-div-eq-div-mul a 2 (pow2 k) ∙ ap (λ (q : ℕ). a / q) (mul_comm 2 (pow2 k))

bit_and-high_ones : (n k a : ℕ) → bit_and a (ones n * pow2 k) ≡ a / pow2 k % pow2 n * pow2 k
bit_and-high_ones n zero a = grind (arith, bit_and-ones n a)
bit_and-high_ones n (suc k) a = rw (← mul_assoc (ones n) (pow2 k) 2) (
    omega (
      arith,
      bit_and-double a (ones n * pow2 k),
      bit_and-high_ones n k (a / 2),
      ap (λ (q : ℕ). q % pow2 n * pow2 k) (half-div k a),
    ))

pub bit_and-align16 : (a : ℕ) → a < 2 ^ 64 → bit_and a (2 ^ 64 - 16) ≡ a / 16 * 16
bit_and-align16 a h = omega (arith, bit_and-high_ones 60 4 a)

pub bit_and-align_page : (a : ℕ) → a < 2 ^ 64 → bit_and a (2 ^ 64 - 4096) ≡ a / 4096 * 4096
bit_and-align_page a h = omega (arith, bit_and-high_ones 52 12 a)

pub bit_and-align4 : (a : ℕ) → a < 2 ^ 64 → bit_and a (2 ^ 64 - 4) ≡ a / 4 * 4
bit_and-align4 a h = omega (arith, bit_and-high_ones 62 2 a)

-- Single bits.
pub bit_and-bit0 : (a : ℕ) → bit_and a 1 ≡ a % 2
bit_and-bit0 a = bit_and-ones 1 a

pub bit_and-bit1 : (a : ℕ) → bit_and a 2 ≡ a / 2 % 2 * 2
bit_and-bit1 a = bit_and-high_ones 1 1 a

pub bit_and-bit2 : (a : ℕ) → bit_and a 4 ≡ a / 4 % 2 * 4
bit_and-bit2 a = bit_and-high_ones 1 2 a

pub bit_or-bit0 : (a b : ℕ) → bit_or a b % 2 ≡ max (a % 2) (b % 2)
bit_or-bit0 a b = omega (arith, bit_or_step a b)

pub bit_or-bit1 : (a b : ℕ) → bit_or a b / 2 % 2 ≡ max (a / 2 % 2) (b / 2 % 2)
bit_or-bit1 a b = omega (arith, bit_or_step a b, bit_or-bit0 (a / 2) (b / 2))

pub bit_or-double : (a b : ℕ) → bit_or (a * 2) (b * 2) ≡ bit_or a b * 2
bit_or-double a b = ground (arith, bit_or_step (a * 2) (b * 2))

zero-bit_or : (a : ℕ) → bit_or 0 a ≡ a
zero-bit_or a = simp bit_or-bitwise

-- `low | (high << k)` is a sum when `low` fits `k` bits.
pub bit_or_fields :
    (k low high : ℕ) → low < pow2 k → bit_or low (high * pow2 k) ≡ low + high * pow2 k
bit_or_fields zero low high h = let e : low ≡ 0 = omega arith in rw (e, zero-bit_or) (omega arith)
bit_or_fields (suc k) low high h =
    let m : high * (pow2 k * 2) ≡ high * pow2 k * 2 = sym (mul_assoc high (pow2 k) 2) in
    ground
      (arith, m, bit_or_step low (high * pow2 k * 2), bit_or_fields k (low / 2) high (omega arith))

-- The bitwise or of two `k`-bit numbers fits `k` bits.
pub bit_or-lt : (k a b : ℕ) → a < pow2 k → b < pow2 k → bit_or a b < pow2 k
bit_or-lt zero a b ha hb = let e : a ≡ 0 = omega arith in rw (e, zero-bit_or) (omega arith)
bit_or-lt (suc k) a b ha hb =
    omega (arith, bit_or_step a b, bit_or-lt k (a / 2) (b / 2) (omega arith) (omega arith))

-- The bit of weight `2 ^ k`.
abbrev pub bit : ℕ → ℕ → ℕ
bit zero a = a % 2
bit (suc k) a = bit k (a / 2)

pub bit-bit_and : (k a b : ℕ) → bit k (bit_and a b) ≡ min (bit k a) (bit k b)
bit-bit_and zero a b = omega (arith, bit_and_step a b)
bit-bit_and (suc k) a b =
    let half : bit_and a b / 2 ≡ bit_and (a / 2) (b / 2) = omega (arith, bit_and_step a b) in
    ap (bit k) half ∙ bit-bit_and k (a / 2) (b / 2)

pub bit-bit_or : (k a b : ℕ) → bit k (bit_or a b) ≡ max (bit k a) (bit k b)
bit-bit_or zero a b = omega (arith, bit_or_step a b)
bit-bit_or (suc k) a b =
    let half : bit_or a b / 2 ≡ bit_or (a / 2) (b / 2) = omega (arith, bit_or_step a b) in
    ap (bit k) half ∙ bit-bit_or k (a / 2) (b / 2)
