-- ===== src/Book/Headings/Detect.antt =====
-- `detect_chapter_heading` of src/book/mod.rs, with the parsers it calls. Lengths are in characters,
-- where the source counts the bytes of the same prefix.
pub mod Numbers
use paperbridge.Prelude.{
  Bool, Option, [], drop, false, if◌then◌else◌, is_empty, length, ltb, none, not, some, true, ℕ,
  ◌&&◌, ◌++◌, ◌+◌, ◌-◌, ◌==◌, ◌>>=◌, ◌||◌, ◌∷◌,
}
use paperbridge.Text.{
  Text, ascii_lower, ascii_upper, codes, contains, eq_text, is_whitespace, starts_with,
  to_ascii_lowercase, trim, trim_start, within,
}
use paperbridge.Book.Headings.Numerals.{parse_numeral_or_word}
use paperbridge.Validation.Decimal.{to_decimal}

pub record DetectedHeading : Type 0 where
  pub sequence_num : ℕ
  pub id : Text
  pub chapter_number : Option ℕ
  pub title : Text

abbrev pub is_separator : ℕ → Text → Bool
is_separator c rest =
    c == b':' || (c == b'-' || (c == 0x2014 || (c == b'.' && not (starts_with (codes ".") rest))))

unfoldable pub parse_separator_and_title : Text → Bool × Text
parse_separator_and_title [] = (false, [])
parse_separator_and_title (c ∷ rest) =
    if is_separator c rest then (true, trim rest) else (false, c ∷ rest)

-- What stands in front of the last `p`: `rfind` and the slice.
abbrev pub before_last : Text → Text → Option Text
before_last p [] = if starts_with p [] then some [] else none
before_last p (c ∷ s) = in_front (before_last p s)
  where
    in_front : Option Text → Option Text
    in_front none = if starts_with p (c ∷ s) then some [] else none
    in_front (some a) = some (c ∷ a)

abbrev pub trimmed_or : Text → Option Text → Text
trimmed_or title none = title
trimmed_or title (some s) = trim s

abbrev pub is_lower_start : Text → Bool
is_lower_start [] = false
is_lower_start (c ∷ s) = within b'a' b'z' c

abbrev pub ends_sentence : Text → Bool
ends_sentence [] = false
ends_sentence (c ∷ []) = c == b'.' || (c == b'!' || c == b'?')
ends_sentence (c ∷ d ∷ s) = ends_sentence (d ∷ s)

unfoldable pub clean_and_validate_title : Text → Bool → Text → Option Text
clean_and_validate_title title_part has_separator default_title =
    let clean_title = trimmed_or title_part (before_last (codes "..") title_part) in
    if not has_separator && is_lower_start title_part
    then none
    else if ends_sentence clean_title
    then none
    else some (if is_empty clean_title then default_title else clean_title)

-- The end of the three branches: what stands behind the number or the letter.
unfoldable pub titled : ℕ → Text → Option ℕ → Text → Text → Option DetectedHeading
unfolding parse_separator_and_title clean_and_validate_title
titled sequence_num id chapter_number after default_title =
    let (has_separator, title_part) = parse_separator_and_title after in
    if starts_with (codes ",") after
    then none
    else (clean_and_validate_title title_part has_separator default_title >>= λ title.
        some (record {
          sequence_num = sequence_num;
          id = id;
          chapter_number = chapter_number;
          title = title;
        }))

unfoldable pub chapter_heading : Text → Option DetectedHeading
unfolding titled parse_numeral_or_word
chapter_heading trimmed =
    let rest = trim_start (drop 7 trimmed) in
    parse_numeral_or_word rest >>= λ (num, size).
    titled num (codes "ch-" ++ to_decimal num) (some num) (trim_start (drop size rest)) trimmed

abbrev pub is_letter : ℕ → Bool
is_letter c = within b'a' b'z' c || within b'A' b'Z' c

abbrev pub ends_letter : Text → Bool
ends_letter [] = true
ends_letter (c ∷ s) = is_whitespace c || (c == b':' || (c == b'-' || (c == 0x2014 || c == b'.')))

-- An appendix with a number, behind the branch for a letter.
unfoldable pub numbered_appendix : Text → Option DetectedHeading
unfolding titled parse_numeral_or_word
numbered_appendix rest = parse_numeral_or_word rest >>= λ (num, size).
    titled (1000 + num) (codes "appendix-" ++ to_decimal num) (some num)
      (trim_start (drop size rest)) (codes "Appendix " ++ to_decimal num)

unfoldable pub appendix_heading : Text → Option DetectedHeading
unfolding numbered_appendix
appendix_heading [] = none
appendix_heading (c ∷ after_first) =
    if is_letter c && ends_letter after_first
    then titled (1000 + (ascii_upper c - 65 + 1)) (codes "appendix-" ++ ascii_lower c ∷ []) none
        (trim_start after_first) (codes "Appendix " ++ ascii_upper c ∷ [])
    else numbered_appendix (c ∷ after_first)

abbrev pub begins_with_word : Text → Text → Bool
begins_with_word word lower =
    starts_with (word ++ 32 ∷ []) lower || starts_with (word ++ 9 ∷ []) lower

unfoldable pub bare_appendix : Text → Option DetectedHeading
bare_appendix trimmed =
    if eq_text (to_ascii_lowercase trimmed) (codes "appendix")
    then some (record {
      sequence_num = 1001;
      id = codes "appendix";
      chapter_number = none;
      title = trimmed;
    })
    else none

abbrev pub has_leaders : Text → Bool
has_leaders trimmed =
    contains (codes "....") trimmed
    || (contains (codes ". . .") trimmed || contains (0x2026 ∷ 0x2026 ∷ []) trimmed)

unfoldable pub detect_trimmed : Text → Option DetectedHeading
unfolding chapter_heading appendix_heading bare_appendix
detect_trimmed trimmed =
    let lower = to_ascii_lowercase trimmed in
    if is_empty trimmed || ltb 120 (length trimmed)
    then none
    else if has_leaders trimmed
    then none
    else if begins_with_word (codes "chapter") lower
    then chapter_heading trimmed
    else if begins_with_word (codes "appendix") lower
    then appendix_heading (trim_start (drop 8 trimmed))
    else bare_appendix trimmed

unfoldable pub detect_chapter_heading : Text → Option DetectedHeading
unfolding detect_trimmed
detect_chapter_heading line = detect_trimmed (trim line)
