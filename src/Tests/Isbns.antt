-- ===== src/Tests/Isbns.antt =====
-- The ISBN 9781491903070, which is the ISBN-10 1491903074 as an ISBN-13, and licenses.
use paperbridge.Prelude.{[], arith, false, refl, some, true, ℕ, ◌++◌, ◌↔◌, ◌∷◌, ◌≡◌, ◌⊎◌}
use paperbridge.Text.{Text, codes}
use paperbridge.Book.Isbn.{
  is_valid_isbn10_bytes, is_valid_isbn13_bytes, isbn10_sum, isbn10_to_isbn13_bytes, isbn13_sum,
  normalize_isbn,
}
use paperbridge.Book.Isbn.Canonical.{normalize_isbn_canonical, normalize_isbn_self}
use paperbridge.Book.Isbn.Checksum.{isbn13_detects_wrong_digit, IsBookland}
use paperbridge.Book.Isbn.Checksum10.{isbn10_detects_swap, isbn10_detects_wrong_digit}
use paperbridge.Book.Isbn.Convert.{isbn10_to_isbn13_bytes_valid}
use paperbridge.Policy.{
  download, evaluate, restricted, seed_redistribute, unknown, user_owned_private,
}
use paperbridge.Policy.Laws.{evaluate_blocks}

abbrev isbn13 : Text
isbn13 = codes "9781491903070"

isbn13_valid : is_valid_isbn13_bytes isbn13 ≡ true
unfolding is_valid_isbn13_bytes isbn13_sum
isbn13_valid = refl

isbn10_valid : is_valid_isbn10_bytes (codes "0306406152") ≡ true
unfolding is_valid_isbn10_bytes isbn10_sum
isbn10_valid = refl

normalize_isbn_canonical_example : IsBookland isbn13 × (normalize_isbn isbn13 ≡ some isbn13)
normalize_isbn_canonical_example =
    normalize_isbn_canonical isbn13 {n = isbn13} (normalize_isbn_self isbn13 isbn13_valid)

isbn13_detects_wrong_digit_example :
    is_valid_isbn13_bytes (codes "978149" ++ b'2' ∷ codes "903070") ≡ false
isbn13_detects_wrong_digit_example =
    isbn13_detects_wrong_digit (codes "978149") (codes "903070") b'1' b'2' isbn13_valid
      (omega arith)

isbn10_detects_wrong_digit_example :
    is_valid_isbn10_bytes ((codes "03" ++ b'1' ∷ codes "640615") ++ b'2' ∷ []) ≡ false
isbn10_detects_wrong_digit_example =
    isbn10_detects_wrong_digit (codes "03") (codes "640615") b'0' b'1' b'2' isbn10_valid
      (omega arith)

isbn10_detects_swap_example :
    is_valid_isbn10_bytes ((codes "03" ++ b'6' ∷ b'0' ∷ codes "40615") ++ b'2' ∷ []) ≡ false
isbn10_detects_swap_example =
    isbn10_detects_swap (codes "03") (codes "40615") b'0' b'6' b'2' isbn10_valid (omega arith)

isbn10_to_isbn13_bytes_valid_example :
    (check : ℕ) × (isbn10_to_isbn13_bytes (codes "030640615" ++ b'2' ∷ [])
      ≡ some ((codes "978" ++ codes "030640615") ++ check ∷ []))
    × (is_valid_isbn13_bytes ((codes "978" ++ codes "030640615") ++ check ∷ []) ≡ true)
isbn10_to_isbn13_bytes_valid_example =
    isbn10_to_isbn13_bytes_valid (codes "030640615") b'2' isbn10_valid

evaluate_blocks_example : ((evaluate download unknown).allowed ≡ false) ↔ (
    (unknown ≡ restricted)
    ⊎ (((download ≡ download) ⊎ (download ≡ seed_redistribute))
        × ((unknown ≡ unknown) ⊎ (unknown ≡ user_owned_private))))
evaluate_blocks_example = evaluate_blocks download unknown
