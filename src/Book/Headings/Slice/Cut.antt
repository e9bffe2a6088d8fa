-- ===== src/Book/Headings/Slice/Cut.antt =====
-- What a slice is: the part of the text from a heading of the chapter asked for to the next heading
-- with another number.
use paperbridge.Text.Bytes.{
  byte_drop, byte_drop-append, byte_len-append, byte_take, byte_take-append-drop,
}
use paperbridge.Text.{Text, byte_len, trim}
use paperbridge.Book.Headings.Collect.Places.{IsPlaced}
use paperbridge.Book.Headings.Slice.Ends.{EndsAt, IsOf, end_of-EndsAt, is_wanted_iff}
use paperbridge.Book.Headings.Slice.{BestSlice, end_of, is_wanted, slice_of}
use paperbridge.Book.Headings.{CandidateHeading}
use paperbridge.Prelude.{
  List, ap, arith, length, min, refl, subst, sym, true, ℕ, ◌++◌, ◌-◌, ◌<◌, ◌∙◌, ◌∷◌, ◌≡◌,
}

-- The size of the text under the heading of a slice.
abbrev pub body_of : CandidateHeading → Text → ℕ
body_of c slice = length (trim (byte_drop (min c.heading_line_len (byte_len slice)) slice))

-- A best slice, of the headings that were chosen.
pub record IsSlice (content : Text) (n : ℕ) (chosen : List CandidateHeading) (best : BestSlice)
    : Type 0 where
  pub earlier : List CandidateHeading
  pub heading : CandidateHeading
  pub later : List CandidateHeading
  pub stands : chosen ≡ earlier ++ heading ∷ later
  pub wanted : IsOf n heading
  pub placed : IsPlaced content heading
  pub titled : best.title ≡ heading.title
  pub stop : ℕ
  pub ends : EndsAt content heading.number later stop
  pub cut :
      best.slice
      ≡ byte_take
          (min stop (byte_len content) - heading.byte_offset)
          (byte_drop heading.byte_offset content)
  pub before : Text
  pub after : Text
  pub whole : content ≡ before ++ (best.slice ++ after)
  pub starts : byte_len before ≡ heading.byte_offset
  pub has_body : 0 < best.body_len
  pub body_size : best.body_len ≡ body_of heading best.slice

pub slice_of-IsSlice :
    (content : Text) (n : ℕ) (chosen earlier : List CandidateHeading) (c : CandidateHeading)
    (later : List CandidateHeading)
    → chosen ≡ earlier ++ c ∷ later
    → is_wanted n c ≡ true
    → IsPlaced content c
    → 0 < body_of c (slice_of content c later)
    → IsSlice content n chosen (record {
      slice = slice_of content c later;
      title = c.title;
      body_len = body_of c (slice_of content c later);
    })
unfolding slice_of
slice_of-IsSlice content n chosen earlier c later stands wanted placed pos =
    let total =
      ap byte_len placed.whole ∙ byte_len-append placed.before (placed.line ++ placed.after) in
    let offset = placed.offset in
    let start : min c.byte_offset (byte_len content) ≡ c.byte_offset = omega arith in
    let stop = end_of c.number later (byte_len content) in
    let rest : byte_drop c.byte_offset content ≡ placed.line ++ placed.after = rw offset (
      subst (λ t. byte_drop (byte_len placed.before) t ≡ placed.line ++ placed.after)
        (sym placed.whole) (byte_drop-append placed.before (placed.line ++ placed.after))) in
    let size = min stop (byte_len content) - c.byte_offset in
    record {
      earlier = earlier;
      heading = c;
      later = later;
      stands = stands;
      wanted = (is_wanted_iff n c).0 wanted;
      placed = placed;
      titled = refl;
      stop = stop;
      ends = end_of-EndsAt content c.number later;
      cut = rw start refl;
      before = placed.before;
      after = byte_drop size (byte_drop c.byte_offset content);
      whole = rw start (
          placed.whole
          ∙ ap (λ t. placed.before ++ t)
              (sym rest ∙ sym (byte_take-append-drop size (byte_drop c.byte_offset content))));
      starts = sym offset;
      has_body = pos;
      body_size = refl;
    }
