-- ===== src/Service/Fulltext/Pages.antt =====
-- Reading a full text page by page.
use paperbridge.Prelude.{
  All, Bool-cases, List, Option, [], ap, append-nil, append_assoc, arith, concat, drop, false,
  if◌then◌else◌, inl, inr, length, length-append, length-take, ltb, lt→ltb, min, none, refl, some,
  subst, suc, sym, take, take-all, take-append-drop, true, zero, ℕ, ◌++◌, ◌+◌, ◌-◌, ◌<◌, ◌==◌,
  ◌>>=◌, ◌∙◌, ◌∷◌, ◌≡◌, ◌≤◌,
}
use paperbridge.Text.{Text, byte_len, len_utf8}
use paperbridge.Text.Bytes.{
  byte_drop, byte_drop-append, byte_len-append, byte_take, is_char_boundary, len_utf8-pos,
}
use paperbridge.Service.Fulltext.{
  FulltextContent, FulltextPage, PageResult, page, page_between, page_end, paginate_fulltext,
  refused,
}

is_char_boundary-append : (s t : Text) → is_char_boundary (s ++ t) (byte_len s) ≡ true
unfolding is_char_boundary byte_len
is_char_boundary-append [] [] = refl
is_char_boundary-append [] (c ∷ t) = refl
is_char_boundary-append (c ∷ s) t =
    let left : (len_utf8 c + byte_len s) - len_utf8 c ≡ byte_len s = omega arith in
    rw (left, is_char_boundary-append s t) (ground arith)

byte_take-append : (s t : Text) → byte_take (byte_len s) (s ++ t) ≡ s
unfolding byte_take byte_len
byte_take-append [] [] = refl
byte_take-append [] (c ∷ t) = refl
byte_take-append (c ∷ s) t =
    let pos = len_utf8-pos c in
    let more : (len_utf8 c + byte_len s == 0) ≡ false = ground arith in
    let left : (len_utf8 c + byte_len s) - len_utf8 c ≡ byte_len s = omega arith in
    rw (more, left, byte_take-append s t) refl

-- The page that begins behind `before`.
pub record IsPage (before rest : Text) (max_chars : ℕ) (p : FulltextPage) : Type 0 where
  pub shown : p.fulltext.content ≡ take max_chars rest
  pub continued : p.next_offset ≡ (
      if ltb max_chars (length rest) then some (byte_len (before ++ take max_chars rest)) else none)

byte_len-pos : (s : Text) → 0 < length s → 0 < byte_len s
unfolding byte_len
byte_len-pos [] h = absurd (omega arith)
byte_len-pos (c ∷ s) h = omega (arith, len_utf8-pos c)

-- Where the page ends in bytes, counted from where it begins.
page_size : ℕ → Text → ℕ
page_size max_chars rest = byte_len (take max_chars rest)

page_end-append :
    (before rest : Text) (max_chars : ℕ)
    → page_end (before ++ rest) (byte_len before) max_chars
      ≡ byte_len before + page_size max_chars rest
unfolding page_size
page_end-append before rest max_chars =
    let start = byte_drop-append before rest in
    let total = byte_len-append before rest in
    elim (Bool-cases (ltb max_chars (length rest))) [
      | inl e ↦ rw (start, e) refl
      | inr e ↦ rw (start, e, take-all max_chars rest (ground arith)) total
    ]

page_content :
    (rest : Text) (max_chars : ℕ) → byte_take (page_size max_chars rest) rest ≡ take max_chars rest
unfolding page_size
page_content rest max_chars =
    subst (λ t. byte_take (byte_len (take max_chars rest)) t ≡ take max_chars rest)
      (take-append-drop max_chars rest)
      (byte_take-append (take max_chars rest) (drop max_chars rest))

-- There is more text exactly when there are more characters.
page_more :
    (before rest : Text) (max_chars : ℕ)
    → ltb (byte_len before + page_size max_chars rest) (byte_len (before ++ rest))
      ≡ ltb max_chars (length rest)
unfolding page_size
page_more before rest max_chars =
    let total = byte_len-append before rest in
    let bytes = byte_len-append (take max_chars rest) (drop max_chars rest) in
    let chars = length-append (take max_chars rest) (drop max_chars rest) in
    let whole = take-append-drop max_chars rest in
    let size = length-take max_chars rest in
    let sum : byte_len rest ≡ byte_len (take max_chars rest) + byte_len (drop max_chars rest) =
      sym (ap byte_len whole) ∙ bytes in
    let count : length rest ≡ length (take max_chars rest) + length (drop max_chars rest) =
      sym (ap length whole) ∙ chars in
    elim (Bool-cases (ltb max_chars (length rest))) [
      | inl e ↦
          (let pos = byte_len-pos (drop max_chars rest) (ground arith) in
            rw e (lt→ltb _ _ (omega arith)))
      | inr e ↦
          (let all_of = take-all max_chars rest (ground arith) in
            let same = ap byte_len all_of in rw e (ground arith))
    ]

page_at :
    (f : FulltextContent) (max_chars : ℕ) (before rest : Text)
    → f.content ≡ before ++ rest
    → (p : FulltextPage) × (paginate_fulltext f max_chars (byte_len before) ≡ page p)
      × IsPage before rest max_chars p
unfolding paginate_fulltext page_size
page_at f max_chars before rest whole =
    let total = ap byte_len whole ∙ byte_len-append before rest in
    let start : min (byte_len before) (byte_len f.content) ≡ byte_len before = omega arith in
    let boundary : is_char_boundary f.content (byte_len before) ≡ true =
      rw whole (is_char_boundary-append before rest) in
    let stop : page_end f.content (byte_len before) max_chars
        ≡ byte_len before + page_size max_chars rest =
      subst
        (λ t. page_end t (byte_len before) max_chars ≡ byte_len before + page_size max_chars rest)
        (sym whole) (page_end-append before rest max_chars) in
    let size : (byte_len before + page_size max_chars rest) - byte_len before
        ≡ page_size max_chars rest =
      omega arith in
    let dropped : byte_drop (byte_len before) f.content ≡ rest =
      rw whole (byte_drop-append before rest) in
    let more : ltb (byte_len before + page_size max_chars rest) (byte_len f.content)
        ≡ ltb max_chars (length rest) =
      subst
        (λ t.
          ltb (byte_len before + page_size max_chars rest) (byte_len t)
          ≡ ltb max_chars (length rest))
        (sym whole) (page_more before rest max_chars) in
    (
      page_between f (byte_len before) (byte_len before + page_size max_chars rest),
      rw (start, boundary, stop) refl,
      record {
        shown = rw (size, dropped) (page_content rest max_chars);
        continued = rw more (
            ap (λ n. if ltb max_chars (length rest) then some n else none)
              (sym (byte_len-append before (take max_chars rest))));
      },
    )

-- What a reader does with an answer; `later` reads on from an offset.
abbrev read_next : (ℕ → Option (List Text)) → Text → Option ℕ → Option (List Text)
read_next later content none = some (content ∷ [])
read_next later content (some offset) = later offset >>= λ pages. some (content ∷ pages)

abbrev read_answer : (ℕ → Option (List Text)) → PageResult FulltextPage → Option (List Text)
read_answer later (refused e) = none
read_answer later (page p) = read_next later p.fulltext.content p.next_offset

-- A reader that asks for the page at an offset and then for those behind it, on fuel.
pub read_pages : ℕ → FulltextContent → ℕ → ℕ → Option (List Text)
read_pages zero f max_chars offset = none
read_pages (suc fuel) f max_chars offset =
    read_answer (read_pages fuel f max_chars) (paginate_fulltext f max_chars offset)

read_pages-whole :
    (fuel : ℕ) (f : FulltextContent) (max_chars : ℕ) (before rest : Text)
    → 0 < max_chars
    → f.content ≡ before ++ rest
    → length rest < fuel
    → (pages : List Text) × (read_pages fuel f max_chars (byte_len before) ≡ some pages)
      × (concat pages ≡ rest)
      × All (λ t. length t ≤ max_chars) pages
unfolding read_pages
read_pages-whole zero f max_chars before rest pos whole enough = absurd (omega arith)
read_pages-whole (suc fuel) f max_chars before rest pos whole enough =
    let (p, found, is_page) = page_at f max_chars before rest whole in
    let size = length-take max_chars rest in
    let split = take-append-drop max_chars rest in
    let total : length rest ≡ length (take max_chars rest) + length (drop max_chars rest) =
      sym (ap length split) ∙ length-append (take max_chars rest) (drop max_chars rest) in
    elim (Bool-cases (ltb max_chars (length rest))) [
      | inl e ↦
          let (later, run, rest_of, few) =
            read_pages-whole fuel f max_chars (before ++ take max_chars rest) (drop max_chars rest)
              pos
              (whole
                ∙ ap (λ t. before ++ t) (sym split)
                ∙ sym (append_assoc before (take max_chars rest) (drop max_chars rest)))
              (ground arith) in
          let next : p.next_offset ≡ some (byte_len (before ++ take max_chars rest)) =
            rw e at is_page.continued in
          (
            take max_chars rest ∷ later,
            rw (found, is_page.shown, next, run) refl,
            ap (λ t. take max_chars rest ++ t) rest_of ∙ split,
            (omega arith, few),
          )
      | inr e ↦
          let all_of = take-all max_chars rest (ground arith) in
          let next : p.next_offset ≡ none = rw e at is_page.continued in
          (
            take max_chars rest ∷ [],
            rw (found, is_page.shown, next) refl,
            append-nil (take max_chars rest) ∙ all_of,
            (omega arith, tt),
          )
    ]

-- Reading a full text from its beginning by pages of at least one character, each time with the offset that the page before gives, ends
-- after at most one page more than the text has characters. No page is refused or longer than
-- asked for, and the pages one after the other are the text.
pub paginate_fulltext-whole :
    (f : FulltextContent) (max_chars : ℕ)
    → 0 < max_chars
    → (pages : List Text) × (read_pages (length f.content + 1) f max_chars 0 ≡ some pages)
      × (concat pages ≡ f.content)
      × All (λ t. length t ≤ max_chars) pages
unfolding byte_len
paginate_fulltext-whole f max_chars pos =
    read_pages-whole (length f.content + 1) f max_chars [] f.content pos refl (omega arith)
