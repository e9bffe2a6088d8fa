-- ===== src/Service/Fulltext.antt =====
-- `validated_fulltext_limit` and `paginate_fulltext` of src/service.rs: the pages of a full text.
pub mod Pages
use paperbridge.Prelude.{
  Option, if◌then◌else◌, leb, length, ltb, min, none, some, take, ℕ, ◌&&◌, ◌+◌, ◌-◌, ◌^◌,
}
use paperbridge.Text.{Text, byte_len}
use paperbridge.Text.Bytes.{byte_drop, byte_take, is_char_boundary}

pub record FulltextContent : Type 0 where
  pub item_key : Text
  pub content : Text
  pub indexed_pages : Option ℕ
  pub total_pages : Option ℕ
  pub indexed_chars : Option ℕ
  pub total_chars : Option ℕ

pub record FulltextPage : Type 0 where
  pub fulltext : FulltextContent
  pub offset : Option ℕ
  pub next_offset : Option ℕ

-- The two refusals.
pub data InvalidInput : Type 0 where
  limit_out_of_range offset_inside_character : InvalidInput

pub data PageResult {ℓ} (A : Type ℓ) : Type ℓ where
  page : A → PageResult A
  refused : InvalidInput → PageResult A

abbrev pub default_fulltext_max_chars : ℕ
default_fulltext_max_chars = 8000

abbrev limit_or_default : Option ℕ → ℕ
limit_or_default none = default_fulltext_max_chars
limit_or_default (some n) = n

unfoldable pub validated_fulltext_limit : Option ℕ → PageResult ℕ
validated_fulltext_limit max_chars =
    let limit = limit_or_default max_chars in
    if leb 1 limit && leb limit 32000 then page limit else refused limit_out_of_range

-- `u32::try_from(n).ok()`.
abbrev to_u32 : ℕ → Option ℕ
to_u32 n = if ltb n (2 ^ 32) then some n else none

abbrev pub total_or_count : Option ℕ → Text → ℕ
total_or_count none source = length source
total_or_count (some n) source = n

-- Where the page ends: in front of character `max_chars` of the rest, or at the end.
abbrev pub page_end : Text → ℕ → ℕ → ℕ
page_end source start max_chars =
    let remaining = byte_drop start source in
    if ltb max_chars (length remaining)
    then start + byte_len (take max_chars remaining)
    else byte_len source

-- The page between two positions.
abbrev pub page_between : FulltextContent → ℕ → ℕ → FulltextPage
page_between fulltext start end_pos =
    let source = fulltext.content in
    let content = byte_take (end_pos - start) (byte_drop start source) in
    record {
      fulltext = record fulltext {
        content = content;
        indexed_chars = to_u32 (length content);
        total_chars = to_u32 (total_or_count fulltext.total_chars source);
      };
      offset = if ltb 0 start then some start else none;
      next_offset = if ltb end_pos (byte_len source) then some end_pos else none;
    }

unfoldable pub paginate_fulltext : FulltextContent → ℕ → ℕ → PageResult FulltextPage
unfolding is_char_boundary
paginate_fulltext fulltext max_chars offset =
    let start = min offset (byte_len fulltext.content) in
    if is_char_boundary fulltext.content start
    then page (page_between fulltext start (page_end fulltext.content start max_chars))
    else refused offset_inside_character
