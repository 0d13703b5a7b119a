-- ===== src/Clauses/Expressions.antt =====
-- The regular expressions of src/domain/clauses/clause-number-patterns.ts.
use senecial.Base.{ℕ, Bool, false, none, some, List, [], ◌∷◌, leb, ◌==◌, ◌&&◌, ◌||◌, not, is_white}
use senecial.Base.Regex.{Regex, chars, group, both, or, optional, edge}

-- The units 제, 조, 항, 년, 월, 일 and 원.
abbrev pub je : ℕ
je = 0xc81c

abbrev pub jo : ℕ
jo = 0xc870

abbrev pub hang : ℕ
hang = 0xd56d

abbrev nyeon : ℕ
nyeon = 0xb144

abbrev wol : ℕ
wol = 0xc6d4

abbrev il : ℕ
il = 0xc77c

abbrev won : ℕ
won = 0xc6d0

abbrev pub is_digit : ℕ → Bool
is_digit c = leb b'0' c && leb c b'9'

abbrev is_capital : ℕ → Bool
is_capital c = leb b'A' c && leb c b'Z'

-- One of a class, one unit, any number of a class, and the digits between two bounds.
abbrev one : (ℕ → Bool) → Regex
one p = chars p 1 (some 1)

abbrev unit : ℕ → Regex
unit c = one (λ d. d == c)

abbrev any : (ℕ → Bool) → Regex
any p = chars p 0 none

abbrev blanks : Regex
blanks = any is_white

abbrev digits : ℕ → ℕ → Regex
digits lo hi = chars is_digit lo (some hi)

abbrev sequence : List Regex → Regex
sequence [] = chars (λ c. false) 0 none
sequence (r ∷ []) = r
sequence (r ∷ q ∷ rs) = both r (sequence (q ∷ rs))

abbrev pub date_like_line : Regex
date_like_line = both blanks (
    or
      (sequence (
        digits 4 4
        ∷ blanks
        ∷ one (λ c. c == b'.' || c == b'-' || c == nyeon)
        ∷ blanks
        ∷ digits 1 2
        ∷ blanks
        ∷ one (λ c. c == b'.' || c == b'-' || c == wol)
        ∷ blanks
        ∷ digits 1 2
        ∷ blanks
        ∷ optional (unit il)
        ∷ optional (unit b'.')
        ∷ []))
      (sequence (digits 4 4 ∷ unit b'-' ∷ digits 2 2 ∷ unit b'-' ∷ digits 2 2 ∷ [])))

abbrev pub amount_like_line : Regex
amount_like_line = sequence (
    blanks
    ∷ optional (one (λ c. c == 0x20a9 || c == b'$' || c == 0xa5 || c == 0x20ac))
    ∷ blanks
    ∷ chars (λ c. is_digit c || c == b',') 1 none
    ∷ blanks
    ∷ unit won
    ∷ [])

abbrev pub contract_number_like_line : Regex
contract_number_like_line = sequence (
    blanks
    ∷ chars is_capital 2 none
    ∷ unit b'-'
    ∷ chars (λ c. is_capital c || is_digit c || c == b'-') 1 none
    ∷ [])

abbrev pub article_pattern : Regex
article_pattern = sequence (
    unit je
    ∷ blanks
    ∷ group 1 (chars is_digit 1 none)
    ∷ blanks
    ∷ unit jo
    ∷ optional
        (sequence (blanks ∷ unit b'(' ∷ group 2 (any (λ c. not (c == b')'))) ∷ unit b')' ∷ []))
    ∷ [])

abbrev pub paragraph_pattern : Regex
paragraph_pattern =
    sequence (unit je ∷ blanks ∷ group 1 (chars is_digit 1 none) ∷ blanks ∷ unit hang ∷ [])

abbrev pub circled_number_pattern : Regex
circled_number_pattern = group 1 (one (λ c. leb 0x2460 c && leb c 0x2473))

abbrev pub numbered_item_pattern : Regex
numbered_item_pattern =
    both
      (or (sequence (unit b'(' ∷ group 1 (digits 1 2) ∷ unit b')' ∷ []))
        (both (group 2 (digits 1 2)) (one (λ c. c == b'.' || c == b')'))))
      edge

abbrev pub korean_letter_item_pattern : Regex
korean_letter_item_pattern =
    sequence (group 1 (one (λ c. leb 0xac00 c && leb c 0xd7a3)) ∷ unit b'.' ∷ edge ∷ [])
