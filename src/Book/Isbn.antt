-- ===== src/Book/Isbn.antt =====
-- src/book/isbn.rs: normalization, validation and conversion of ISBNs. Bytes and characters are
-- numbers; the sums are `u32` in the source and stay far below its range (`weighed-le`).
pub mod Checksum
pub mod Checksum10
pub mod Convert
pub mod Canonical
use paperbridge.Prelude.{
  ◌||◌, Bool, List, Option, [], drop, false, get_elem?, if◌then◌else◌, is_empty, length, ltb, none,
  some, take, ℕ, ◌%◌, ◌&&◌, ◌*◌, ◌++◌, ◌+◌, ◌-◌, ◌==◌, ◌∷◌, ◌>>=◌,
}
use paperbridge.Text.{
  Text, codes, is_ascii_digit, is_whitespace, starts_with, to_ascii_uppercase, trim,
}

abbrev pub Isbn : Type 0
Isbn = Text

-- The weight of the byte at position `i` of an ISBN-13.
abbrev pub weight13 : ℕ → ℕ
weight13 i = if i % 2 == 0 then 1 else 3

-- The loop over the bytes: `none` stands for the early `return`.
unfoldable pub isbn13_sum : ℕ → ℕ → Text → Option ℕ
isbn13_sum i sum [] = some sum
isbn13_sum i sum (b ∷ bs) =
    let rest = isbn13_sum (i + 1) (sum + (b - b'0') * weight13 i) bs in
    if is_ascii_digit b then rest else none

abbrev pub divides : ℕ → Option ℕ → Bool
divides k none = false
divides k (some sum) = sum % k == 0

unfoldable pub is_valid_isbn13_bytes : Text → Bool
unfolding isbn13_sum
is_valid_isbn13_bytes bytes =
    if length bytes == 13
    then (if starts_with (codes "978") bytes || starts_with (codes "979") bytes
        then divides 10 (isbn13_sum 0 0 bytes)
        else false)
    else false

unfoldable pub isbn10_sum : ℕ → ℕ → Text → Option ℕ
isbn10_sum i sum [] = some sum
isbn10_sum i sum (b ∷ bs) =
    let rest = isbn10_sum (i + 1) (sum + (10 - i) * (b - b'0')) bs in
    if is_ascii_digit b then rest else none

-- The value of the last byte; `none` stands for `return false`.
abbrev pub isbn10_check : Option ℕ → Option ℕ
isbn10_check none = none
isbn10_check (some b) =
    if b == b'X' || b == b'x' then some 10 else if is_ascii_digit b then some (b - b'0') else none

unfoldable pub is_valid_isbn10_bytes : Text → Bool
unfolding isbn10_sum
is_valid_isbn10_bytes bytes =
    if length bytes == 10
    then divides 11 (do
      sum ← isbn10_sum 0 0 (take 9 bytes)
      check ← isbn10_check (get_elem? bytes 9)
      some (sum + check))
    else false

unfoldable pub isbn10_to_isbn13_bytes : Text → Option Isbn
unfolding isbn13_sum
isbn10_to_isbn13_bytes isbn10 =
    if length isbn10 == 10
    then (let out = codes "978" ++ take 9 isbn10 in
        do sum ← isbn13_sum 0 0 out; some (out ++ (b'0' + (10 - sum % 10) % 10) ∷ []))
    else none

abbrev pub prefixes : List Text
prefixes =
    codes "ISBN-13:"
    ∷ codes "ISBN-10:"
    ∷ codes "ISBN13:"
    ∷ codes "ISBN10:"
    ∷ codes "ISBN-13"
    ∷ codes "ISBN-10"
    ∷ codes "ISBN13"
    ∷ codes "ISBN10"
    ∷ codes "ISBN:"
    ∷ codes "ISBN"
    ∷ []

-- `PREFIXES.iter().find(|p| upper.starts_with(*p))`.
unfoldable pub find_prefix : List Text → Text → Option Text
find_prefix [] upper = none
find_prefix (p ∷ ps) upper =
    let later = find_prefix ps upper in if starts_with p upper then some p else later

-- `trim_start_matches([' ', ':', '-'])`.
unfoldable pub trim_label : Text → Text
trim_label [] = []
trim_label (c ∷ s) =
    let rest = trim_label s in if c == b' ' || c == b':' || c == b'-' then rest else c ∷ s

unfoldable pub after_label : Option Text → Text → Text
unfolding trim_label
after_label none trimmed = trimmed
after_label (some p) trimmed = trim_label (drop (length p) trimmed)

abbrev pub is_separator : ℕ → Bool
is_separator c =
    c == b'-' || c == b' ' || c == b'.' || c == 0x2010 || c == 0x2013 || c == 0x2014 || c == 0x2212

-- One character of the body: kept, ignored, or refused.
unfoldable pub keep_char : Text → ℕ → Option Text
keep_char cleaned c =
    if is_ascii_digit c
    then some (cleaned ++ c ∷ [])
    else if (c == b'X' || c == b'x') && length cleaned == 9
    then some (cleaned ++ b'X' ∷ [])
    else if is_separator c
    then some cleaned
    else none

unfoldable pub clean : Text → Text → Option Text
unfolding keep_char
clean cleaned [] = some cleaned
clean cleaned (c ∷ s) = do next ← keep_char cleaned c; clean next s

unfoldable pub classify : Text → Option Isbn
classify cleaned =
    if length cleaned == 13 && is_valid_isbn13_bytes cleaned
    then some cleaned
    else if length cleaned == 10 && is_valid_isbn10_bytes cleaned
    then isbn10_to_isbn13_bytes cleaned
    else none

unfoldable pub normalize_single_isbn : Text → Option Isbn
unfolding find_prefix after_label clean classify
normalize_single_isbn raw =
    let trimmed = trim raw in
    do
      cleaned ← clean [] (after_label (find_prefix prefixes (to_ascii_uppercase trimmed)) trimmed)
      classify cleaned

abbrev pub is_delimiter : ℕ → Bool
is_delimiter c = is_whitespace c || c == b',' || c == b';'

-- `raw.split(is_delimiter)`: the first piece, and the others.
unfoldable pub pieces : Text → Text × List Text
pieces [] = ([], [])
pieces (c ∷ s) = let (p, ps) = pieces s in if is_delimiter c then ([], p ∷ ps) else (c ∷ p, ps)

unfoldable pub trimmed_tokens : List Text → List Text
trimmed_tokens [] = []
trimmed_tokens (p ∷ ps) =
    let rest = trimmed_tokens ps in if is_empty (trim p) then rest else trim p ∷ rest

unfoldable pub tokens : Text → List Text
unfolding pieces trimmed_tokens
tokens raw = let (p, ps) = pieces raw in trimmed_tokens (p ∷ ps)

-- The loop over the tokens, and the fall-back behind it.
unfoldable pub first_isbn : List Text → Option Isbn → Option Isbn
first_isbn [] fallback = fallback
first_isbn (t ∷ ts) fallback = elim (normalize_single_isbn t) [
  | some norm ↦ some norm
  | none ↦ first_isbn ts fallback
]

unfoldable pub normalize_isbn : Text → Option Isbn
unfolding tokens first_isbn
normalize_isbn raw =
    if ltb 1 (length (tokens raw))
    then first_isbn (tokens raw) (normalize_single_isbn raw)
    else normalize_single_isbn raw
