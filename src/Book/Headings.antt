-- ===== src/Book/Headings.antt =====
-- src/book/mod.rs: the headings of a book's text, its table of contents and its chapters.
pub mod Monotonic
pub mod Toc
pub mod Slice
pub mod Numerals
pub mod Detect
pub mod Collect
use paperbridge.Prelude.{Option, ℕ}
use paperbridge.Text.{Text}

pub record CandidateHeading : Type 0 where
  pub number : ℕ
  pub id : Text
  pub chapter_number : Option ℕ
  pub byte_offset : ℕ
  pub heading_line_len : ℕ
  pub title : Text
