-- ===== src/Book/Isbn/Checksum.antt =====
-- The check digits detect a wrong digit.
use paperbridge.Text.Prefix.{starts_with_sound}
use paperbridge.Prelude.{
  All, All-of_append, Bool-cases, Option-cases, [], ap, arith, false, inl, inr, length, some, suc,
  true, ℕ, ◌%◌, ◌*◌, ◌++◌, ◌+◌, ◌-◌, ◌∷◌, ◌≡◌, ◌≢◌, ◌≤◌, sym, ◌∙◌, refl, ◌⊎◌,
}
use paperbridge.Text.{Text, is_ascii_digit, codes, starts_with}
use paperbridge.Book.Isbn.{is_valid_isbn13_bytes, isbn13_sum, weight13}

abbrev pub AllDigits : Text → Type 0
AllDigits = All (λ c. is_ascii_digit c ≡ true)

-- The weighed sum of digits, with no test.
abbrev pub weighed : ℕ → Text → ℕ
weighed i [] = 0
weighed i (b ∷ bs) = (b - b'0') * weight13 i + weighed (i + 1) bs

-- The loop accepts digits only, and adds up their weighed sum.
pub isbn13_sum_sound :
    (i sum : ℕ) (bs : Text) {r : ℕ}
    → isbn13_sum i sum bs ≡ some r
    → AllDigits bs × (r ≡ sum + weighed i bs)
unfolding isbn13_sum
isbn13_sum_sound i sum [] h = (tt, ground arith)
isbn13_sum_sound i sum (b ∷ bs) {r} h =
    ground (arith, isbn13_sum_sound (i + 1) (sum + (b - b'0') * weight13 i) bs {r = r})

pub isbn13_sum_complete :
    (i sum : ℕ) (bs : Text) → AllDigits bs → isbn13_sum i sum bs ≡ some (sum + weighed i bs)
unfolding isbn13_sum
isbn13_sum_complete i sum [] h = ground arith
isbn13_sum_complete i sum (b ∷ bs) (d, ds) =
    ground (arith, isbn13_sum_complete (i + 1) (sum + (b - b'0') * weight13 i) bs)

pub weighed-append :
    (i : ℕ) (xs ys : Text) → weighed i (xs ++ ys) ≡ weighed i xs + weighed (i + length xs) ys
weighed-append i [] ys = ground arith
weighed-append i (x ∷ xs) ys =
    let e : i + 1 + length xs ≡ i + suc (length xs) = omega arith in
    omega (arith, weighed-append (i + 1) xs ys, ap (λ k. weighed k ys) e)

weighed_at :
    (xs : Text) (d : ℕ) (ys : Text)
    → weighed 0 (xs ++ d ∷ ys)
      ≡ weighed 0 xs + ((d - b'0') * weight13 (length xs) + weighed (length xs + 1) ys)
weighed_at xs d ys =
    let e : 0 + length xs ≡ length xs = omega arith in
    weighed-append 0 xs (d ∷ ys) ∙ ap (λ k. weighed 0 xs + weighed k (d ∷ ys)) e

-- The sum of a digit string cannot leave the range of `u32`.
pub weighed-le : (i : ℕ) (bs : Text) → AllDigits bs → weighed i bs ≤ 27 * length bs
weighed-le i [] h = omega arith
weighed-le i (b ∷ bs) (d, ds) = ground (arith, weighed-le (i + 1) bs)

abbrev pub IsIsbn13 : Text → Type 0
IsIsbn13 bs = (length bs ≡ 13) × AllDigits bs × (weighed 0 bs % 10 ≡ 0)

pub is_valid_isbn13_bytes_sound : (bs : Text) → is_valid_isbn13_bytes bs ≡ true → IsIsbn13 bs
unfolding is_valid_isbn13_bytes
is_valid_isbn13_bytes_sound bs h = elim (Option-cases (isbn13_sum 0 0 bs)) [
  | inl e ↦ ground arith
  | inr (r, e) ↦ let s = isbn13_sum_sound 0 0 bs e in ground arith
]

-- The digits in turn, every second one three times.
abbrev pub alternating : Text → ℕ
alternating [] = 0
alternating (a ∷ []) = a - b'0'
alternating (a ∷ b ∷ bs) = (a - b'0') + 3 * (b - b'0') + alternating bs

weighed-alternating : (i : ℕ) (bs : Text) → i % 2 ≡ 0 → weighed i bs ≡ alternating bs
weighed-alternating i [] h = refl
weighed-alternating i (a ∷ []) h = ground arith
weighed-alternating i (a ∷ b ∷ bs) h =
    let next : (i + 1) % 2 ≡ 1 = omega arith in
    let later : i + 1 + 1 ≡ i + 2 = omega arith in
    let rest = weighed-alternating (i + 1 + 1) bs (omega arith) in ground arith

-- What an ISBN-13 is: thirteen digits that begin with 978 or 979, every second one counted three times
-- making a multiple of ten.
pub record IsBookland (bs : Text) : Type 0 where
  pub size : length bs ≡ 13
  pub digits : AllDigits bs
  pub rest : Text
  pub prefixed : (bs ≡ codes "978" ++ rest) ⊎ (bs ≡ codes "979" ++ rest)
  pub checked : alternating bs % 10 ≡ 0

prefix_sound :
    (bs : Text)
    → is_valid_isbn13_bytes bs ≡ true
    → (rest : Text) × ((bs ≡ codes "978" ++ rest) ⊎ (bs ≡ codes "979" ++ rest))
unfolding is_valid_isbn13_bytes
prefix_sound bs h = elim (Bool-cases (starts_with (codes "978") bs)) [
  | inl e ↦ let (rest, same) = starts_with_sound (codes "978") bs e in (rest, inl same)
  | inr e ↦ elim (Bool-cases (starts_with (codes "979") bs)) [
    | inl f ↦ let (rest, same) = starts_with_sound (codes "979") bs f in (rest, inr same)
    | inr f ↦ ground arith
  ]
]

pub is_valid_isbn13_bytes-IsBookland : (bs : Text) → is_valid_isbn13_bytes bs ≡ true → IsBookland bs
is_valid_isbn13_bytes-IsBookland bs h =
    let (size, digits, sum) = is_valid_isbn13_bytes_sound bs h in
    let (rest, prefixed) = prefix_sound bs h in
    record {
      size = size;
      digits = digits;
      rest = rest;
      prefixed = prefixed;
      checked = ap (λ k. k % 10) (sym (weighed-alternating 0 bs (omega arith))) ∙ sum;
    }

one_digit :
    (i d e : ℕ)
    → is_ascii_digit d ≡ true
    → is_ascii_digit e ≡ true
    → (rest : ℕ) → (rest + (d - b'0') * weight13 i) % 10 ≡ 0
    → (rest + (e - b'0') * weight13 i) % 10 ≡ 0
    → d ≡ e
one_digit i d e hd he rest h k = ground arith

-- Replacing one digit of a valid ISBN-13 by another makes it invalid.
pub isbn13_detects_wrong_digit :
    (xs ys : Text) (d e : ℕ)
    → is_valid_isbn13_bytes (xs ++ d ∷ ys) ≡ true
    → e ≢ d
    → is_valid_isbn13_bytes (xs ++ e ∷ ys) ≡ false
isbn13_detects_wrong_digit xs ys d e valid differs =
    elim (Bool-cases (is_valid_isbn13_bytes (xs ++ e ∷ ys))) [
      | inr wrong ↦ wrong
      | inl also ↦
          let (len, digits, sum) = is_valid_isbn13_bytes_sound (xs ++ d ∷ ys) valid in
          let (len', digits', sum') = is_valid_isbn13_bytes_sound (xs ++ e ∷ ys) also in
          let (hx, hd) = All-of_append (λ c. is_ascii_digit c ≡ true) xs (d ∷ ys) digits in
          let (hx', he) = All-of_append (λ c. is_ascii_digit c ≡ true) xs (e ∷ ys) digits' in
          absurd (
            differs (
              sym (
                one_digit (length xs) d e hd.0 he.0 (weighed 0 xs + weighed (length xs + 1) ys)
                  (omega (arith, weighed_at xs d ys, sum))
                  (omega (arith, weighed_at xs e ys, sum')))))
    ]
