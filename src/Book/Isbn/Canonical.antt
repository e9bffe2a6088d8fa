-- ===== src/Book/Isbn/Canonical.antt =====
-- What `normalize_isbn` returns: a valid ISBN-13, which it maps to itself.
use paperbridge.Prelude.{
  >>=-eq-some, All-imp, Bool-cases, List, Option, Option-cases, [], append-nil, append_assoc, arith,
  false, inl, inr, length, ltb, none, refl, some, true, ℕ, ◌++◌, ◌∙◌, ◌∷◌, ◌≡◌, ==_iff,
}
use paperbridge.Text.{Text, ascii_upper, is_ascii_digit, is_whitespace, to_ascii_uppercase, trim}
use paperbridge.Text.Sizes.{trim_ink}
use paperbridge.Book.Isbn.{
  Isbn, after_label, classify, clean, find_prefix, first_isbn, is_valid_isbn13_bytes,
  normalize_isbn, normalize_single_isbn, pieces, prefixes, tokens, is_separator, keep_char,
  trimmed_tokens,
}
use paperbridge.Book.Isbn.Checksum.{
  AllDigits, is_valid_isbn13_bytes_sound, IsBookland, is_valid_isbn13_bytes-IsBookland,
}
use paperbridge.Book.Isbn.Convert.{isbn10_to_isbn13_bytes_sound}

classify_valid :
    (cleaned : Text) {n : Isbn} → classify cleaned ≡ some n → is_valid_isbn13_bytes n ≡ true
unfolding classify
classify_valid cleaned {n} h = ground (arith, isbn10_to_isbn13_bytes_sound cleaned {n = n})

-- What one candidate yields is a valid ISBN-13.
pub normalize_single_isbn_valid :
    (raw : Text) {n : Isbn} → normalize_single_isbn raw ≡ some n → is_valid_isbn13_bytes n ≡ true
unfolding normalize_single_isbn
normalize_single_isbn_valid raw {n} h =
    let trimmed = trim raw in
    let (cleaned, p, q) =
      >>=-eq-some
        (clean [] (after_label (find_prefix prefixes (to_ascii_uppercase trimmed)) trimmed))
        classify h in
    classify_valid cleaned q

first_isbn_valid :
    (ts : List Text) (fallback : Option Isbn) {n : Isbn}
    → ((m : Isbn) → fallback ≡ some m → is_valid_isbn13_bytes m ≡ true)
    → first_isbn ts fallback ≡ some n
    → is_valid_isbn13_bytes n ≡ true
unfolding first_isbn
first_isbn_valid [] fallback {n} ok h = ok n h
first_isbn_valid (t ∷ ts) fallback {n} ok h = elim (Option-cases (normalize_single_isbn t)) [
  | inl e ↦ first_isbn_valid ts fallback ok (rw (e, first_isbn) at h)
  | inr (m, e) ↦ normalize_single_isbn_valid t {n = n} (e ∙ (rw (e, first_isbn) at h))
]

pub normalize_isbn_valid :
    (raw : Text) {n : Isbn} → normalize_isbn raw ≡ some n → is_valid_isbn13_bytes n ≡ true
unfolding normalize_isbn
normalize_isbn_valid raw {n} h = elim (Bool-cases (ltb 1 (length (tokens raw)))) [
  | inl many ↦
      first_isbn_valid (tokens raw) (normalize_single_isbn raw)
        (λ m e. normalize_single_isbn_valid raw e) (rw many at h)
  | inr few ↦ normalize_single_isbn_valid raw (rw few at h)
]

digit-ink : (c : ℕ) → is_ascii_digit c ≡ true → is_whitespace c ≡ false
unfolding is_whitespace
digit-ink c h = ground arith

pub trim_digits : (s : Text) → AllDigits s → trim s ≡ s
trim_digits s h =
    trim_ink s (All-imp (λ c. is_ascii_digit c ≡ true) (λ c. is_whitespace c ≡ false) digit-ink s h)

clean_digits : (acc s : Text) → AllDigits s → clean acc s ≡ some (acc ++ s)
unfolding clean
clean_digits acc [] h = rw append-nil
clean_digits acc (c ∷ s) (d, ds) =
    ground (arith, clean_digits (acc ++ c ∷ []) s, append_assoc acc (c ∷ []) s)

pieces_digits : (s : Text) → AllDigits s → pieces s ≡ (s, [])
unfolding pieces
pieces_digits [] h = refl
pieces_digits (c ∷ s) (d, ds) = ground (arith, digit-ink c, pieces_digits s)

-- A digit in front rules out every label.
find_prefix_digit :
    (c : ℕ) (s : Text) → is_ascii_digit c ≡ true → find_prefix prefixes (c ∷ s) ≡ none
unfolding find_prefix
find_prefix_digit c s h = ground arith

ascii_upper_digit : (c : ℕ) → is_ascii_digit c ≡ true → ascii_upper c ≡ c
unfolding ascii_upper
ascii_upper_digit c h = ground arith

no_label :
    (s : Text) → AllDigits s → after_label (find_prefix prefixes (to_ascii_uppercase s)) s ≡ s
unfolding after_label
no_label [] h = unfold find_prefix in refl
no_label (c ∷ s) (d, ds) = rw (ascii_upper_digit c d, find_prefix_digit c (to_ascii_uppercase s) d)

classify_self : (n : Isbn) → length n ≡ 13 → is_valid_isbn13_bytes n ≡ true → classify n ≡ some n
unfolding classify
classify_self n len valid = rw (valid, (==_iff (length n) 13).1 len)

normalize_single_isbn_self :
    (n : Isbn) → is_valid_isbn13_bytes n ≡ true → normalize_single_isbn n ≡ some n
unfolding normalize_single_isbn
normalize_single_isbn_self n valid =
    let (len, digits, _) = is_valid_isbn13_bytes_sound n valid in
    rw (trim_digits n digits, no_label n digits, clean_digits [] n digits)
      (classify_self n len valid)

one_token : (n : Isbn) → AllDigits n → ltb 1 (length (tokens n)) ≡ false
unfolding tokens trimmed_tokens
one_token n digits = rw (pieces_digits n digits) (ground arith)

-- A valid ISBN-13 is normalized to itself.
pub normalize_isbn_self : (n : Isbn) → is_valid_isbn13_bytes n ≡ true → normalize_isbn n ≡ some n
unfolding normalize_isbn
normalize_isbn_self n valid =
    let (len, digits, _) = is_valid_isbn13_bytes_sound n valid in
    rw (one_token n digits) (normalize_single_isbn_self n valid)

-- Whatever text is given, a result of `normalize_isbn` has 13 digits, begins with 978 or 979, has a
-- correct check digit (the sum of the digits, every second one three times, is a multiple of ten),
-- and is normalized to itself.
pub normalize_isbn_canonical :
    (raw : Text) {n : Isbn}
    → normalize_isbn raw ≡ some n
    → IsBookland n × (normalize_isbn n ≡ some n)
normalize_isbn_canonical raw {n} h =
    let valid = normalize_isbn_valid raw h in
    (is_valid_isbn13_bytes-IsBookland n valid, normalize_isbn_self n valid)

keep_separator :
    (cleaned : Text) (c : ℕ) → is_separator c ≡ true → keep_char cleaned c ≡ some cleaned
unfolding keep_char
keep_separator cleaned c h = ground arith

-- Separators inside the body of a candidate change nothing: they may be dropped anywhere.
pub clean_separator :
    (cleaned xs ys : Text) (c : ℕ)
    → is_separator c ≡ true
    → clean cleaned (xs ++ c ∷ ys) ≡ clean cleaned (xs ++ ys)
unfolding clean
clean_separator cleaned [] ys c h = rw (keep_separator cleaned c h)
clean_separator cleaned (x ∷ xs) ys c h = elim (Option-cases (keep_char cleaned x)) [
  | inl e ↦ rw e
  | inr (next, e) ↦ rw e (clean_separator next xs ys c h)
]
