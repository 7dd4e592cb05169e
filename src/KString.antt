-- ===== src/KString.antt =====
-- kernel/kstring.c: C strings. A string is the list of its characters, as unsigned bytes, up to its
-- final zero, which is the end of the list; an `int` is a word of 32 bits, negative from 2^31 on.
pub mod Order
pub mod Parse
mod Examples
use nostalux_os.Base.{
  u32_mod, add64, sub32, ℕ, zero, suc, ◌+◌, ◌-◌, ◌*◌, ◌/◌, ◌%◌, Bool, true, false, not, ◌&&◌, ◌||◌,
  Option, none, some, List, [], ◌∷◌, ltb, leb, ◌==◌, if◌then◌else◌,
}

-- The loop ends at the first difference or at the end of a string, which is read as the character 0.
unfoldable pub kstrcmp : List ℕ → List ℕ → ℕ
kstrcmp [] [] = 0
kstrcmp [] (cb ∷ b) = sub32 0 cb
kstrcmp (ca ∷ a) [] = sub32 ca 0
kstrcmp (ca ∷ a) (cb ∷ b) = let rest = kstrcmp a b in if not (ca == cb) then sub32 ca cb else rest

-- `i` runs up to `n`; the end of a string is read as the character 0.
unfoldable pub kstrncmp : List ℕ → List ℕ → ℕ → ℕ
kstrncmp a b zero = 0
kstrncmp [] [] (suc n) = 0
kstrncmp [] (cb ∷ b) (suc n) = sub32 0 cb
kstrncmp (ca ∷ a) [] (suc n) = sub32 ca 0
kstrncmp (ca ∷ a) (cb ∷ b) (suc n) =
    let rest = kstrncmp a b n in if not (ca == cb) then sub32 ca cb else rest

unfoldable pub kstrlen : List ℕ → ℕ
kstrlen [] = 0
kstrlen (c ∷ str) = add64 (kstrlen str) 1

unfoldable pub kskip_spaces : List ℕ → List ℕ
kskip_spaces [] = []
kskip_spaces (c ∷ str) = if (c == 32) || (c == 9) then kskip_spaces str else c ∷ str

abbrev pub is_digit : ℕ → Bool
is_digit c = leb 48 c && leb c 57

-- The loop of `kparse_uint`: the number and what is left of the string, or none when the number does
-- not fit `unsigned int` or has no digit.
unfoldable pub parse_digits : List ℕ → ℕ → Bool → Option (List ℕ × ℕ)
parse_digits [] value has_digits = if has_digits then some ([], value) else none
parse_digits (c ∷ cursor) value has_digits =
    let digit = c - 48 in
    let rest = parse_digits cursor ((value * 10 + digit) % u32_mod) true in
    if is_digit c
    then (if ltb ((u32_mod - 1 - digit) / 10) value then none else rest)
    else if has_digits
    then some (c ∷ cursor, value)
    else none

unfoldable pub kparse_uint : List ℕ → Option (List ℕ × ℕ)
kparse_uint str = parse_digits (kskip_spaces str) 0 false
