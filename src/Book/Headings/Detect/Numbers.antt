-- ===== src/Book/Headings/Detect/Numbers.antt =====
-- The sequence numbers of the headings that are found.
use paperbridge.Prelude.{
  All, Bool, Bool-cases, List, Option, Option-cases, [], arith, drop, false, inl, inr, is_empty,
  length, ltb, none, not, refl, reverse, some, some-injective, subst, true, ℕ, ◌&&◌, ◌++◌, ◌+◌, ◌-◌,
  ◌||◌, ◌∷◌, ◌≡◌, ◌≤◌, ◌⊎◌,
}
use paperbridge.Text.{
  Text, ascii_lower, ascii_upper, codes, eq_text, split_whitespace, starts_with, to_ascii_lowercase,
  to_ascii_uppercase, trim, trim_start,
}
use paperbridge.Validation.Decimal.{to_decimal}
use paperbridge.Book.Headings.Numerals.{
  first_word, leading_digits, max_heading_number, named_value, number_words, parse_digits,
  parse_numeral_or_word, parse_token, roman, skip_marks,
}
use paperbridge.Book.Headings.Detect.{
  DetectedHeading, appendix_heading, bare_appendix, before_last, begins_with_word, chapter_heading,
  clean_and_validate_title, detect_chapter_heading, detect_trimmed, ends_letter, ends_sentence,
  has_leaders, is_letter, is_lower_start, numbered_appendix, parse_separator_and_title, titled,
  trimmed_or,
}

-- A chapter has its own number, below those of the appendices.
abbrev pub IsChapter : DetectedHeading → Type 0
IsChapter h =
    (h.sequence_num ≤ 999)
    × (h.chapter_number ≡ some h.sequence_num)
    × (h.id ≡ codes "ch-" ++ to_decimal h.sequence_num)

abbrev pub IsAppendix : DetectedHeading → Type 0
IsAppendix h =
    (1000 ≤ h.sequence_num)
    × (h.sequence_num ≤ 1999)
    × ((rest : Text) × (h.id ≡ codes "appendix" ++ rest))

-- A number that is read is at most 999.
named_value-le :
    (name : Text) (table : List (Text × ℕ)) (most n : ℕ)
    → All (λ e. e.1 ≤ most) table
    → named_value name table ≡ some n
    → n ≤ most
unfolding named_value
named_value-le name [] most n h e = absurd (cc)
named_value-le name ((m, v) ∷ table) most n (h, hs) e = elim (Bool-cases (eq_text name m)) [
  | inl f ↦ (let x = some-injective _ _ (rw f at e) in omega arith)
  | inr f ↦ named_value-le name table most n hs (rw f at e)
]

small_words : All (λ e. e.1 ≤ 999) number_words
small_words = ground arith

small_roman : All (λ e. e.1 ≤ 999) roman
small_roman = ground arith

parse_token-le : (token : Text) (n k : ℕ) → parse_token token ≡ some (n, k) → n ≤ 999
unfolding parse_token
parse_token-le token n k h =
    let name = to_ascii_uppercase (reverse (skip_marks (reverse (skip_marks token)))) in
    elim (Option-cases (named_value name roman)) [
      | inl e ↦ elim (Option-cases (named_value name number_words)) [
        | inl f ↦ (let x = rw (e, f) at h in absurd (cc))
        | inr (v, f) ↦
            let bound = named_value-le name number_words 999 v small_words f in
            let x = rw (e, f) at h in ground arith
      ]
      | inr (v, e) ↦
          let bound = named_value-le name roman 999 v small_roman e in
          let x = rw e at h in ground arith
    ]

parse_numeral_or_word-le : (s : Text) (n k : ℕ) → parse_numeral_or_word s ≡ some (n, k) → n ≤ 999
unfolding parse_numeral_or_word parse_digits max_heading_number
parse_numeral_or_word-le s n k h = elim (Bool-cases (is_empty (leading_digits s))) [
  | inl e ↦ elim (Option-cases (first_word (split_whitespace s))) [
    | inl f ↦ (let x = rw (e, f) at h in absurd (cc))
    | inr (w, f) ↦ parse_token-le w n k (rw (e, f) at h)
  ]
  | inr e ↦ (let x = rw e at h in ground arith)
]

-- What `titled` makes keeps its number and its id, and has a title if the default is one.
record IsTitled (n : ℕ) (id : Text) (chapter : Option ℕ) (h : DetectedHeading) : Type 0 where
  number : h.sequence_num ≡ n
  same_id : h.id ≡ id
  same_chapter : h.chapter_number ≡ chapter
  has_title : is_empty h.title ≡ false

clean_and_validate_title-full :
    (part : Text) (sep : Bool) (default_title title : Text)
    → is_empty default_title ≡ false
    → clean_and_validate_title part sep default_title ≡ some title
    → is_empty title ≡ false
unfolding clean_and_validate_title
clean_and_validate_title-full part sep default_title title full h =
    let clean = trimmed_or part (before_last (codes "..") part) in
    elim (Bool-cases (not sep && is_lower_start part)) [
      | inl e ↦ (let x = rw e at h in absurd (cc))
      | inr e ↦ elim (Bool-cases (ends_sentence clean)) [
        | inl f ↦ (let x = rw (e, f) at h in absurd (cc))
        | inr f ↦ elim (Bool-cases (is_empty clean)) [
          | inl g ↦ subst (λ t. is_empty t ≡ false) (some-injective _ _ (rw (e, f, g) at h)) full
          | inr g ↦ subst (λ t. is_empty t ≡ false) (some-injective _ _ (rw (e, f, g) at h)) g
        ]
      ]
    ]

titled_sound :
    (n : ℕ) (id : Text) (chapter : Option ℕ) (after default_title : Text) (h : DetectedHeading)
    → is_empty default_title ≡ false
    → titled n id chapter after default_title ≡ some h
    → IsTitled n id chapter h
unfolding titled
titled_sound n id chapter after default_title h full e =
    let sep = (parse_separator_and_title after).0 in
    let part = (parse_separator_and_title after).1 in
    elim (Bool-cases (starts_with (codes ",") after)) [
      | inl f ↦ (let x = rw f at e in absurd (cc))
      | inr f ↦ elim (Option-cases (clean_and_validate_title part sep default_title)) [
        | inl g ↦ (let x = rw (f, g) at e in absurd (cc))
        | inr (title, g) ↦
            let same = some-injective _ _ (rw (f, g) at e) in
            subst (IsTitled n id chapter) same (record {
              number = refl;
              same_id = refl;
              same_chapter = refl;
              has_title = clean_and_validate_title-full part sep default_title title full g;
            })
      ]
    ]

abbrev pub IsDetected : DetectedHeading → Type 0
IsDetected h = (IsChapter h ⊎ IsAppendix h) × (is_empty h.title ≡ false)

numeral-cases :
    (s : Text)
    → (parse_numeral_or_word s ≡ none)
      ⊎ ((n k : ℕ) × (parse_numeral_or_word s ≡ some (n, k)) × (n ≤ 999))
numeral-cases s = elim (Option-cases (parse_numeral_or_word s)) [
  | inl e ↦ inl e
  | inr ((n, k), e) ↦ inr (n, k, e, parse_numeral_or_word-le s n k e)
]

chapter_heading_sound :
    (trimmed : Text) (h : DetectedHeading)
    → is_empty trimmed ≡ false
    → chapter_heading trimmed ≡ some h
    → IsDetected h
unfolding chapter_heading
chapter_heading_sound trimmed h full e = elim (numeral-cases (trim_start (drop 7 trimmed))) [
  | inl f ↦ (let x = rw f at e in absurd (cc))
  | inr (n, k, f, le) ↦
      let t =
        titled_sound n (codes "ch-" ++ to_decimal n) (some n)
          (trim_start (drop k (trim_start (drop 7 trimmed)))) trimmed h full (rw f at e) in
      (inl (rw t.number (le, t.same_chapter, t.same_id)), t.has_title)
]

numbered_appendix_sound :
    (rest : Text) (h : DetectedHeading) → numbered_appendix rest ≡ some h → IsDetected h
unfolding numbered_appendix
numbered_appendix_sound rest h e = elim (numeral-cases rest) [
  | inl f ↦ (let x = rw f at e in absurd (cc))
  | inr (n, k, f, le) ↦
      let t =
        titled_sound (1000 + n) (codes "appendix-" ++ to_decimal n) (some n)
          (trim_start (drop k rest)) (codes "Appendix " ++ to_decimal n) h refl (rw f at e) in
      (inr (rw t.number (omega arith, omega arith, (45 ∷ to_decimal n, t.same_id))), t.has_title)
]

letter-le : (c : ℕ) → is_letter c ≡ true → ascii_upper c - 65 + 1 ≤ 999
unfolding ascii_upper
letter-le c h = ground arith

appendix_heading_sound :
    (rest : Text) (h : DetectedHeading) → appendix_heading rest ≡ some h → IsDetected h
unfolding appendix_heading
appendix_heading_sound [] h e = absurd (cc)
appendix_heading_sound (c ∷ s) h e = elim (Bool-cases (is_letter c && ends_letter s)) [
  | inl f ↦
      let t =
        titled_sound (1000 + (ascii_upper c - 65 + 1)) (codes "appendix-" ++ ascii_lower c ∷ [])
          none (trim_start s) (codes "Appendix " ++ ascii_upper c ∷ []) h refl (rw f at e) in
      let le = letter-le c (ground arith) in
      (
        inr (rw t.number (omega arith, omega arith, (45 ∷ ascii_lower c ∷ [], t.same_id))),
        t.has_title,
      )
  | inr f ↦ numbered_appendix_sound (c ∷ s) h (rw f at e)
]

bare_appendix_sound :
    (trimmed : Text) (h : DetectedHeading)
    → is_empty trimmed ≡ false
    → bare_appendix trimmed ≡ some h
    → IsDetected h
unfolding bare_appendix
bare_appendix_sound trimmed h full e =
    elim (Bool-cases (eq_text (to_ascii_lowercase trimmed) (codes "appendix"))) [
      | inl f ↦
          subst IsDetected (some-injective _ _ (rw f at e))
            (inr (omega arith, omega arith, ([], refl)), full)
      | inr f ↦ (let x = rw f at e in absurd (cc))
    ]

-- A heading that is found is a chapter, whose sequence number is its own and at most 999, or an
-- appendix, whose sequence number is from 1000 to 1999; the id says which, and the title is not empty.
pub detect_chapter_heading-IsDetected :
    (line : Text) (h : DetectedHeading) → detect_chapter_heading line ≡ some h → IsDetected h
unfolding detect_chapter_heading detect_trimmed
detect_chapter_heading-IsDetected line h e =
    let lower = to_ascii_lowercase (trim line) in
    elim (Bool-cases (is_empty (trim line) || ltb 120 (length (trim line)))) [
      | inl f ↦ (let x = rw f at e in absurd (cc))
      | inr f ↦
          let full : is_empty (trim line) ≡ false = ground arith in
          elim (Bool-cases (has_leaders (trim line))) [
            | inl g ↦ (let x = rw (f, g) at e in absurd (cc))
            | inr g ↦ elim (Bool-cases (begins_with_word (codes "chapter") lower)) [
              | inl a ↦ chapter_heading_sound (trim line) h full (rw (f, g, a) at e)
              | inr a ↦ elim (Bool-cases (begins_with_word (codes "appendix") lower)) [
                | inl b ↦
                    appendix_heading_sound (trim_start (drop 8 (trim line))) h
                      (rw (f, g, a, b) at e)
                | inr b ↦ bare_appendix_sound (trim line) h full (rw (f, g, a, b) at e)
              ]
            ]
          ]
    ]
