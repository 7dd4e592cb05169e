-- ===== src/KString/Examples.antt =====
-- The strings "ab", "b" and " 4294967296x" in the comparisons and the parser.
use nostalux_os.Base.{ℕ, ◌≡◌, refl, none, some, List, [], ◌∷◌, arith}
use nostalux_os.KString.{kstrcmp, kskip_spaces, parse_digits, kparse_uint}
use nostalux_os.KString.Order.{Compares, kstrcmp-Compares}

abbrev ab : List ℕ
ab = 97 ∷ 98 ∷ []

abbrev b_ : List ℕ
b_ = 98 ∷ []

abbrev too_large : List ℕ
too_large = 32 ∷ 52 ∷ 50 ∷ 57 ∷ 52 ∷ 57 ∷ 54 ∷ 55 ∷ 50 ∷ 57 ∷ 54 ∷ 120 ∷ []

parse_large : kparse_uint too_large ≡ none
unfolding kparse_uint kskip_spaces parse_digits
parse_large = refl

parse_number : kparse_uint (9 ∷ 52 ∷ 50 ∷ 120 ∷ []) ≡ some (120 ∷ [], 42)
unfolding kparse_uint kskip_spaces parse_digits
parse_number = refl

kstrcmp-Compares_example : Compares ab b_ (kstrcmp ab b_)
kstrcmp-Compares_example =
    kstrcmp-Compares ab b_ ((omega arith, omega arith), ((omega arith, omega arith), tt))
      ((omega arith, omega arith), tt)
