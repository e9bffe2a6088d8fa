-- ===== src/Book/Isbn/Convert.antt =====
-- Conversion of an ISBN-10 to an ISBN-13.
use paperbridge.Prelude.{
  ==_iff, >>=-eq-some, All-append, Bool-cases, [], ap, arith, inl, inr, length, length-append,
  length-take, refl, some, subst, take, take-append_left, true, ℕ, ◌%◌, ◌++◌, ◌+◌, ◌-◌, ◌==◌, ◌||◌,
  ◌∷◌, ◌≡◌, some-injective,
}
use paperbridge.Text.{Text, codes, is_ascii_digit, starts_with}
use paperbridge.Book.Isbn.{
  Isbn, is_valid_isbn10_bytes, is_valid_isbn13_bytes, isbn10_to_isbn13_bytes, isbn13_sum,
}
use paperbridge.Book.Isbn.Checksum.{
  AllDigits, IsIsbn13, isbn13_sum_complete, isbn13_sum_sound, weighed, weighed-append,
}
use paperbridge.Book.Isbn.Checksum10.{is_valid_isbn10_bytes_sound}

pub is_valid_isbn13_bytes_complete :
    (bs : Text)
    → IsIsbn13 bs
    → (starts_with (codes "978") bs || starts_with (codes "979") bs) ≡ true
    → is_valid_isbn13_bytes bs ≡ true
unfolding is_valid_isbn13_bytes
is_valid_isbn13_bytes_complete bs (len, digits, sum) bookland =
    rw ((==_iff (length bs) 13).1 len, bookland, isbn13_sum_complete 0 0 bs digits) (ground arith)

-- The digit that makes a sum a multiple of ten.
abbrev check13 : ℕ → ℕ
check13 sum = b'0' + (10 - sum % 10) % 10

weighed_check :
    (body : Text) (sum : ℕ)
    → length body ≡ 9
    → sum ≡ weighed 0 (codes "978" ++ body)
    → weighed 0 ((codes "978" ++ body) ++ check13 sum ∷ []) % 10 ≡ 0
weighed_check body sum len e =
    let out = codes "978" ++ body in
    let twelve : 0 + length out ≡ 12 = omega arith in
    omega (
      arith,
      weighed-append 0 out (check13 sum ∷ []),
      ap (λ k. weighed k (check13 sum ∷ [])) twelve,
    )

converted :
    (body : Text) (sum : ℕ)
    → length body ≡ 9
    → AllDigits body
    → sum ≡ weighed 0 (codes "978" ++ body)
    → is_valid_isbn13_bytes ((codes "978" ++ body) ++ check13 sum ∷ []) ≡ true
converted body sum len digits e =
    is_valid_isbn13_bytes_complete _
      (
        omega (arith, length-append body (check13 sum ∷ [])),
        All-append (λ c. is_ascii_digit c ≡ true) (codes "978" ++ body) (check13 sum ∷ [])
            (refl, (refl, (refl, digits))) (ground arith, tt),
        weighed_check body sum len e,
      )
      refl

-- A valid ISBN-10 is converted: the result is a valid ISBN-13, and consists of "978", the first
-- nine digits and one check digit.
pub isbn10_to_isbn13_bytes_valid :
    (body : Text) (c : ℕ)
    → is_valid_isbn10_bytes (body ++ c ∷ []) ≡ true
    → (check : ℕ) × (isbn10_to_isbn13_bytes (body ++ c ∷ [])
        ≡ some ((codes "978" ++ body) ++ check ∷ []))
      × (is_valid_isbn13_bytes ((codes "978" ++ body) ++ check ∷ []) ≡ true)
unfolding isbn10_to_isbn13_bytes
isbn10_to_isbn13_bytes_valid body c valid =
    let (len, digits, _) = is_valid_isbn10_bytes_sound body c valid in
    let ten : length (body ++ c ∷ []) ≡ 10 = omega (arith, length-append body (c ∷ [])) in
    let sum = weighed 0 (codes "978" ++ body) in
    (
      check13 (0 + sum),
      rw (
        (==_iff (length (body ++ c ∷ [])) 10).1 ten,
        take-append_left body (c ∷ []) 9 len,
        isbn13_sum_complete 0 0 (codes "978" ++ body) (refl, (refl, (refl, digits))),
      ),
      converted body (0 + sum) len digits (omega arith),
    )

-- The conversion of any ten bytes that begin with nine digits is a valid ISBN-13.
pub isbn10_to_isbn13_bytes_sound :
    (bs : Text) {n : Isbn} → isbn10_to_isbn13_bytes bs ≡ some n → is_valid_isbn13_bytes n ≡ true
unfolding isbn10_to_isbn13_bytes
isbn10_to_isbn13_bytes_sound bs {n} h = elim (Bool-cases (length bs == 10)) [
  | inr other ↦ cc (rw other at h)
  | inl ten ↦
      let body = take 9 bs in
      let len : length body ≡ 9 = omega (arith, length-take 9 bs, (==_iff (length bs) 10).0 ten) in
      let (sum, p, q) =
        >>=-eq-some (isbn13_sum 0 0 (codes "978" ++ body))
          (λ sum. some ((codes "978" ++ body) ++ check13 sum ∷ [])) (rw ten at h) in
      let (digits, total) = isbn13_sum_sound 0 0 (codes "978" ++ body) p in
      subst (λ m. is_valid_isbn13_bytes m ≡ true) (some-injective _ _ q)
        (converted body sum len digits.1.1.1 (omega arith))
]
