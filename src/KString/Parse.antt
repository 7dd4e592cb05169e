-- ===== src/KString/Parse.antt =====
-- kernel/kstring.c: the numbers that are read against their decimal value.
use nostalux_os.Base.{
  u32_mod, ℕ, ◌+◌, ◌-◌, ◌*◌, Bool, not, ◌&&◌, Option, none, some, List, [], ◌∷◌, ltb, ◌==◌,
  if◌then◌else◌, length,
}
use nostalux_os.KString.{is_digit}

-- The digits that a text starts with, and what follows them.
abbrev pub digits_of : List ℕ → List ℕ
digits_of [] = []
digits_of (c ∷ text) = if is_digit c then (c - 48) ∷ digits_of text else []

abbrev pub after_digits : List ℕ → List ℕ
after_digits [] = []
after_digits (c ∷ text) = if is_digit c then after_digits text else c ∷ text

-- The digits `ds` written behind the number `value`.
abbrev pub decimal : ℕ → List ℕ → ℕ
decimal value [] = value
decimal value (d ∷ ds) = decimal (value * 10 + d) ds

abbrev pub parsed : List ℕ → ℕ → Bool → Option (List ℕ × ℕ)
parsed text value has_digits =
    if not has_digits && (length (digits_of text) == 0)
    then none
    else if ltb (decimal value (digits_of text)) u32_mod
    then some (after_digits text, decimal value (digits_of text))
    else none
