-- ===== src/Book/Headings/Collect.antt =====
-- `collect_raw_candidate_headings` of src/book/mod.rs.
pub mod Places
use paperbridge.Prelude.{
  Bool, List, Option, [], if◌then◌else◌, is_empty, is_some, leb, length, none, not, some, true, ℕ,
  ◌&&◌, ◌+◌, ◌==◌, ◌>>=◌, ◌||◌, ◌∷◌,
}
use paperbridge.Text.{
  Text, byte_len, codes, contains, eq_text, starts_with, to_ascii_lowercase, trim,
}
use paperbridge.Book.Headings.{CandidateHeading}
use paperbridge.Book.Headings.Detect.{DetectedHeading, detect_chapter_heading}

abbrev push_front : ℕ → List Text → List Text
push_front c [] = (c ∷ []) ∷ []
push_front c (l ∷ ls) = (c ∷ l) ∷ ls

-- `split_inclusive('\n')`.
unfoldable pub split_inclusive : Text → List Text
split_inclusive [] = []
split_inclusive (c ∷ s) =
    let rest = split_inclusive s in if c == 10 then (c ∷ []) ∷ rest else push_front c rest

abbrev is_heading : Text → Bool
is_heading line = is_some (detect_chapter_heading line)

-- The test of the line in front, if there is one.
unfoldable pub preceded_cleanly : Option Text → Bool
preceded_cleanly none = true
preceded_cleanly (some line) =
    is_empty (trim line)
    || (contains (codes "contents") (to_ascii_lowercase (trim line)) || is_heading (trim line))

-- The first line that is not blank.
abbrev next_line : List Text → Option Text
next_line [] = none
next_line (l ∷ ls) = let later = next_line ls in if is_empty (trim l) then later else some (trim l)

abbrev lacks_title : Text → Text → Bool
lacks_title title trimmed =
    eq_text title trimmed
    || (is_empty title
        || (eq_text (to_ascii_lowercase title) (codes "chapter")
            || eq_text (to_ascii_lowercase title) (codes "appendix")))

abbrev opens_bracket : Text → Bool
opens_bracket line =
    starts_with (codes "[") line || (starts_with (codes "(") line || starts_with (codes "{") line)

abbrev may_be_title : Text → Bool
may_be_title line =
    leb (length line) 120
    && (not (is_heading line) && (not (contains (codes "....") line) && not (opens_bracket line)))

abbrev replaced_by : Text → Option Text → Text
replaced_by title none = title
replaced_by title (some line) = if may_be_title line then line else title

-- The title of a heading, that of the next line where the heading has none.
unfoldable pub title_of : Text → Text → List Text → Text
title_of title trimmed later =
    if lacks_title title trimmed then replaced_by title (next_line later) else title

abbrev pub candidate : DetectedHeading → ℕ → Text → List Text → CandidateHeading
candidate heading byte_offset raw_line later = record {
  number = heading.sequence_num;
  id = heading.id;
  chapter_number = heading.chapter_number;
  byte_offset = byte_offset;
  heading_line_len = byte_len raw_line;
  title = title_of heading.title (trim raw_line) later;
}

-- What one line adds.
unfoldable pub candidate_of : Option Text → ℕ → Text → List Text → Option CandidateHeading
unfolding preceded_cleanly title_of
candidate_of before byte_offset raw_line later =
    if preceded_cleanly before
    then (detect_chapter_heading (trim raw_line) >>= λ heading.
        some (candidate heading byte_offset raw_line later))
    else none

abbrev pub prepend {ℓ} : {A : Type ℓ} → Option A → List A → List A
prepend none xs = xs
prepend (some x) xs = x ∷ xs

-- The loop, from a line on: the line in front of it, and where it begins.
unfoldable pub collect_from : Option Text → ℕ → List Text → List CandidateHeading
unfolding candidate_of
collect_from before byte_offset [] = []
collect_from before byte_offset (raw_line ∷ later) =
    let rest = collect_from (some raw_line) (byte_offset + byte_len raw_line) later in
    prepend (candidate_of before byte_offset raw_line later) rest

unfoldable pub collect_raw_candidate_headings : Text → List CandidateHeading
unfolding collect_from split_inclusive
collect_raw_candidate_headings content = collect_from none 0 (split_inclusive content)
