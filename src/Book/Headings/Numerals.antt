-- ===== src/Book/Headings/Numerals.antt =====
-- `parse_numeral_or_word` of src/book/mod.rs: the number of a heading in digits, in Roman numerals or
-- as a word. Lengths are in characters, where the source counts the bytes of the same prefix.
use paperbridge.Prelude.{
  Bool, List, Option, [], foldl, if◌then◌else◌, is_empty, leb, length, ltb, none, not, option_or,
  reverse, some, ℕ, ◌&&◌, ◌*◌, ◌+◌, ◌-◌, ◌==◌, ◌>>=◌, ◌^◌, ◌||◌, ◌∷◌,
}
use paperbridge.Text.{Text, codes, eq_text, is_ascii_digit, split_whitespace, to_ascii_uppercase}

abbrev pub roman : List (Text × ℕ)
roman =
    (codes "I", 1)
    ∷ (codes "II", 2)
    ∷ (codes "III", 3)
    ∷ (codes "IV", 4)
    ∷ (codes "V", 5)
    ∷ (codes "VI", 6)
    ∷ (codes "VII", 7)
    ∷ (codes "VIII", 8)
    ∷ (codes "IX", 9)
    ∷ (codes "X", 10)
    ∷ (codes "XI", 11)
    ∷ (codes "XII", 12)
    ∷ (codes "XIII", 13)
    ∷ (codes "XIV", 14)
    ∷ (codes "XV", 15)
    ∷ (codes "XVI", 16)
    ∷ (codes "XVII", 17)
    ∷ (codes "XVIII", 18)
    ∷ (codes "XIX", 19)
    ∷ (codes "XX", 20)
    ∷ []

abbrev pub number_words : List (Text × ℕ)
number_words =
    (codes "ONE", 1)
    ∷ (codes "TWO", 2)
    ∷ (codes "THREE", 3)
    ∷ (codes "FOUR", 4)
    ∷ (codes "FIVE", 5)
    ∷ (codes "SIX", 6)
    ∷ (codes "SEVEN", 7)
    ∷ (codes "EIGHT", 8)
    ∷ (codes "NINE", 9)
    ∷ (codes "TEN", 10)
    ∷ (codes "ELEVEN", 11)
    ∷ (codes "TWELVE", 12)
    ∷ (codes "THIRTEEN", 13)
    ∷ (codes "FOURTEEN", 14)
    ∷ (codes "FIFTEEN", 15)
    ∷ (codes "SIXTEEN", 16)
    ∷ (codes "SEVENTEEN", 17)
    ∷ (codes "EIGHTEEN", 18)
    ∷ (codes "NINETEEN", 19)
    ∷ (codes "TWENTY", 20)
    ∷ []

-- The loop over a table of names.
unfoldable pub named_value : Text → List (Text × ℕ) → Option ℕ
named_value name [] = none
named_value name ((n, value) ∷ others) =
    let later = named_value name others in if eq_text name n then some value else later

abbrev pub is_mark : ℕ → Bool
is_mark c = c == b':' || (c == b'.' || (c == b'-' || (c == 0x2014 || c == b',')))

abbrev pub skip_marks : Text → Text
skip_marks [] = []
skip_marks (c ∷ s) = let rest = skip_marks s in if is_mark c then rest else c ∷ s

abbrev pub leading_digits : Text → Text
leading_digits [] = []
leading_digits (c ∷ s) = let rest = leading_digits s in if is_ascii_digit c then c ∷ rest else []

abbrev pub digits_value : Text → ℕ
digits_value = foldl (λ n c. n * 10 + (c - 48)) 0

unfoldable pub max_heading_number : ℕ
max_heading_number = 999

-- A number in digits: `parse::<u32>()` and the bound.
unfoldable pub parse_digits : Text → Option (ℕ × ℕ)
unfolding max_heading_number
parse_digits digits =
    if ltb (digits_value digits) (2 ^ 32) && leb (digits_value digits) max_heading_number
    then some (digits_value digits, length digits)
    else none

unfoldable pub parse_token : Text → Option (ℕ × ℕ)
unfolding named_value
parse_token token =
    let bare = reverse (skip_marks (reverse (skip_marks token))) in
    let name = to_ascii_uppercase bare in
    let size = (length token - length (skip_marks token)) + length bare in
    option_or (named_value name roman) (named_value name number_words) >>= λ n. some (n, size)

abbrev pub first_word : List Text → Option Text
first_word [] = none
first_word (w ∷ ws) = some w

-- The number, and how much of the text it takes.
unfoldable pub parse_numeral_or_word : Text → Option (ℕ × ℕ)
unfolding parse_digits parse_token
parse_numeral_or_word s =
    if not (is_empty (leading_digits s))
    then parse_digits (leading_digits s)
    else (first_word (split_whitespace s) >>= parse_token)
