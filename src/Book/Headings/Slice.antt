-- ===== src/Book/Headings/Slice.antt =====
-- `extract_chapter_slice` of src/book/mod.rs: the text of one chapter.
pub mod Ends
pub mod Cut
pub mod Part
use paperbridge.Text.Bytes.{byte_drop, byte_take}
use paperbridge.Prelude.{
  Bool, List, Option, [], false, if◌then◌else◌, leb, length, ltb, min, none, not, some, ℕ, ◌&&◌,
  ◌-◌, ◌==◌, ◌>>=◌, ◌||◌, ◌∷◌,
}
use paperbridge.Text.{Text, byte_len, codes, starts_with, trim}
use paperbridge.Book.Headings.{CandidateHeading}
use paperbridge.Book.Headings.Collect.{collect_raw_candidate_headings}
use paperbridge.Book.Headings.Toc.{partition_toc_and_body_candidates}
use paperbridge.Book.Headings.Monotonic.{filter_monotonic_candidates}

abbrev pub is_number : Option ℕ → ℕ → Bool
is_number none n = false
is_number (some m) n = m == n

abbrev pub is_wanted : ℕ → CandidateHeading → Bool
is_wanted chapter_num c =
    c.number == chapter_num
    || (is_number c.chapter_number chapter_num && not (starts_with (codes "appendix") c.id))

-- Where the next heading with another number begins, or the end of the text.
unfoldable pub end_of : ℕ → List CandidateHeading → ℕ → ℕ
end_of number [] len = len
end_of number (c ∷ cs) len =
    let later = end_of number cs len in if c.number == number then later else c.byte_offset

pub record BestSlice : Type 0 where
  pub slice : Text
  pub title : Text
  pub body_len : ℕ

abbrev pub longer : Option BestSlice → BestSlice → Option BestSlice
longer none new = some new
longer (some best) new = if leb new.body_len best.body_len then some best else some new

-- The slice of a candidate.
unfoldable pub slice_of : Text → CandidateHeading → List CandidateHeading → Text
unfolding byte_drop byte_take end_of
slice_of content c later =
    let start = min c.byte_offset (byte_len content) in
    let end_pos = min (end_of c.number later (byte_len content)) (byte_len content) in
    byte_take (end_pos - start) (byte_drop start content)

-- The body of the loop for a candidate that matches.
unfoldable pub consider :
    Text → CandidateHeading → List CandidateHeading → Option BestSlice → Option BestSlice
unfolding slice_of
consider content c later best =
    let start = min c.byte_offset (byte_len content) in
    let end_pos = min (end_of c.number later (byte_len content)) (byte_len content) in
    let slice = slice_of content c later in
    let body_len = length (trim (byte_drop (min c.heading_line_len (byte_len slice)) slice)) in
    if ltb start end_pos && ltb 0 body_len
    then longer best (record { slice = slice; title = c.title; body_len = body_len })
    else best

unfoldable pub best_slice : Text → ℕ → List CandidateHeading → Option BestSlice → Option BestSlice
unfolding consider
best_slice content chapter_num [] best = best
best_slice content chapter_num (c ∷ later) best =
    best_slice content chapter_num later
      (if is_wanted chapter_num c then consider content c later best else best)

-- `none` outside stands for fuel that ran out. The source leaves the length out of its answer.
unfoldable pub extract_chapter_slice : Text → ℕ → Option (Option BestSlice)
unfolding best_slice
extract_chapter_slice content chapter_num =
    let raw = collect_raw_candidate_headings content in
    filter_monotonic_candidates (partition_toc_and_body_candidates raw).1 >>= λ candidates.
    some (best_slice content chapter_num candidates none)
