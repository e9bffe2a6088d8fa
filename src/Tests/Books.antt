-- ===== src/Tests/Books.antt =====
-- The headings of a short book, and its pages.
use paperbridge.Book.Headings.Collect.{collect_raw_candidate_headings}
use paperbridge.Validation.Decimal.{to_decimal}
use paperbridge.Prelude.{
  All, List, Option, [], arith, concat, length, none, refl, reverse, some, ℕ, ◌+◌, ◌∷◌, ◌≡◌, ◌≤◌,
}
use paperbridge.Text.{
  Text, ascii_lower, ascii_upper, codes, is_whitespace, push_trimmed, push_word, split_whitespace,
  trim, trim_end, trim_start, words,
}
use paperbridge.Book.Headings.{CandidateHeading}
use paperbridge.Book.Headings.Monotonic.{filter_monotonic_candidates, headings_at}
use paperbridge.Book.Headings.Monotonic.Longest.{IsRun, filter_monotonic_candidates-longest}
use paperbridge.Book.Headings.Detect.{DetectedHeading, detect_chapter_heading}
use paperbridge.Book.Headings.Detect.Numbers.{IsDetected, detect_chapter_heading-IsDetected}
use paperbridge.Book.Headings.Toc.{partition_toc_and_body_candidates}
use paperbridge.Book.Headings.Slice.{BestSlice, extract_chapter_slice}
use paperbridge.Book.Headings.Slice.Part.{
  IsBestSlice, extract_chapter_slice-IsSlice, NoneLonger, size_of,
}
use paperbridge.Service.Fulltext.{FulltextContent}
use paperbridge.Service.Fulltext.Pages.{paginate_fulltext-whole, read_pages}

abbrev book : Text
book = codes "Chapter 1: Foundations\nSystems fail.\n\nChapter 2 - Models\nGraphs.\n"

abbrev candidate_at : ℕ → ℕ → CandidateHeading
candidate_at number byte_offset = record {
  number = number;
  id = codes "ch";
  chapter_number = some number;
  byte_offset = byte_offset;
  heading_line_len = 10;
  title = codes "T";
}

abbrev candidates : List CandidateHeading
candidates = candidate_at 1 0 ∷ candidate_at 5 900 ∷ candidate_at 2 1800 ∷ candidate_at 3 2700 ∷ []

filter_monotonic_candidates-longest_example :
    (is : List ℕ) × (out : List CandidateHeading) × (filter_monotonic_candidates candidates
      ≡ some out)
    × (headings_at candidates (reverse is) ≡ some out)
    × IsRun candidates is
    × ((js : List ℕ) → IsRun candidates js → length js ≤ length is)
filter_monotonic_candidates-longest_example = filter_monotonic_candidates-longest candidates

extract_chapter_slice-IsSlice_example :
    (chosen : List CandidateHeading) × (found : Option BestSlice) × (filter_monotonic_candidates
        (partition_toc_and_body_candidates (collect_raw_candidate_headings book)).1
      ≡ some chosen)
    × (extract_chapter_slice book 1 ≡ some found)
    × IsBestSlice book 1 chosen found
    × NoneLonger book 1 (size_of found) chosen
extract_chapter_slice-IsSlice_example = extract_chapter_slice-IsSlice book 1

abbrev first_heading : DetectedHeading
first_heading = record {
  sequence_num = 4;
  id = codes "ch-4";
  chapter_number = some 4;
  title = codes "Storage";
}

detected : detect_chapter_heading (codes "Chapter IV: Storage") ≡ some first_heading
unfolding detect_chapter_heading trim trim_end trim_start is_whitespace push_trimmed ascii_lower
    split_whitespace push_word words ascii_upper to_decimal
detected = refl

detect_chapter_heading-IsDetected_example : IsDetected first_heading
detect_chapter_heading-IsDetected_example =
    detect_chapter_heading-IsDetected (codes "Chapter IV: Storage") first_heading detected

abbrev fulltext : FulltextContent
fulltext = record {
  item_key = codes "K";
  content = book;
  indexed_pages = none;
  total_pages = none;
  indexed_chars = none;
  total_chars = none;
}

paginate_fulltext-whole_example :
    (pages : List Text) × (read_pages (length book + 1) fulltext 20 0 ≡ some pages)
    × (concat pages ≡ book)
    × All (λ t. length t ≤ 20) pages
paginate_fulltext-whole_example = paginate_fulltext-whole fulltext 20 (omega arith)
