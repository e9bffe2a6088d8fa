-- ===== src/Book/Isbn/Checksum10.antt =====
-- The check digit of an ISBN-10 detects a wrong digit and two digits in the wrong order.
use paperbridge.Prelude.{
  All-of_append, Bool-cases, Option, [], ap, arith, false, get_elem?-append_mid, inl, inr, length,
  length-append, none, refl, some, suc, sym, take-append_left, true, zero, ℕ, ◌%◌, ◌*◌, ◌++◌, ◌+◌,
  ◌-◌, ◌==◌, ◌>>=◌, ◌∙◌, ◌∷◌, ◌≡◌, ◌≢◌, ◌≤◌, ==_iff,
}
use paperbridge.Text.{Text, is_ascii_digit}
use paperbridge.Book.Isbn.{divides, is_valid_isbn10_bytes, isbn10_check, isbn10_sum}
use paperbridge.Book.Isbn.Checksum.{AllDigits}

-- The weighed sum of the digits in front of the check digit.
abbrev pub weighed10 : ℕ → Text → ℕ
weighed10 i [] = 0
weighed10 i (b ∷ bs) = (10 - i) * (b - b'0') + weighed10 (i + 1) bs

isbn10_sum_sound :
    (i sum : ℕ) (bs : Text) {r : ℕ}
    → isbn10_sum i sum bs ≡ some r
    → AllDigits bs × (r ≡ sum + weighed10 i bs)
unfolding isbn10_sum
isbn10_sum_sound i sum [] h = (tt, ground arith)
isbn10_sum_sound i sum (b ∷ bs) {r} h =
    ground (arith, isbn10_sum_sound (i + 1) (sum + (10 - i) * (b - b'0')) bs {r = r})

weighed10-append :
    (i : ℕ) (xs ys : Text) → weighed10 i (xs ++ ys) ≡ weighed10 i xs + weighed10 (i + length xs) ys
weighed10-append i [] ys = ground arith
weighed10-append i (x ∷ xs) ys =
    let e : i + 1 + length xs ≡ i + suc (length xs) = omega arith in
    omega (arith, weighed10-append (i + 1) xs ys, ap (λ k. weighed10 k ys) e)

weighed10_at : (xs ys : Text) → weighed10 0 (xs ++ ys) ≡ weighed10 0 xs + weighed10 (length xs) ys
weighed10_at xs ys =
    let e : 0 + length xs ≡ length xs = omega arith in
    weighed10-append 0 xs ys ∙ ap (λ k. weighed10 0 xs + weighed10 k ys) e

-- Nine digits and a check character, whose weighed sum is a multiple of 11.
abbrev pub IsIsbn10 : Text → ℕ → Type 0
IsIsbn10 body c =
    (length body ≡ 9)
    × AllDigits body
    × ((k : ℕ) × (isbn10_check (some c) ≡ some k) × ((weighed10 0 body + k) % 11 ≡ 0))

checked_sum :
    (body : Text) (c : ℕ) (sum check : Option ℕ)
    → isbn10_sum 0 0 body ≡ sum
    → isbn10_check (some c) ≡ check
    → divides 11 (do s ← sum; k ← check; some (s + k)) ≡ true
    → AllDigits body
      × ((k : ℕ) × (isbn10_check (some c) ≡ some k) × ((weighed10 0 body + k) % 11 ≡ 0))
checked_sum body c none check p q h = cc
checked_sum body c (some s) none p q h = cc
checked_sum body c (some s) (some k) p q h =
    let (digits, total) = isbn10_sum_sound 0 0 body p in (digits, (k, q, ground arith))

pub is_valid_isbn10_bytes_sound :
    (body : Text) (c : ℕ) → is_valid_isbn10_bytes (body ++ c ∷ []) ≡ true → IsIsbn10 body c
unfolding is_valid_isbn10_bytes
is_valid_isbn10_bytes_sound body c h = elim (Bool-cases (length (body ++ c ∷ []) == 10)) [
  | inl ten ↦
      let len : length body ≡ 9 =
        omega (arith, length-append body (c ∷ []), (==_iff (length (body ++ c ∷ [])) 10).0 ten) in
      let (digits, check) = checked_sum body c _ _ refl refl (
        rw (ten, take-append_left body (c ∷ []) 9 len, get_elem?-append_mid body c [] 9 len) at
          h) in
      (len, digits, check)
  | inr other ↦ cc (rw other at h)
]

-- A weight below 11 and above 0 has an inverse modulo 11.
one_digit :
    (i d e rest : ℕ)
    → i ≤ 8
    → is_ascii_digit d ≡ true
    → is_ascii_digit e ≡ true
    → (rest + (10 - i) * (d - b'0')) % 11 ≡ 0
    → (rest + (10 - i) * (e - b'0')) % 11 ≡ 0
    → d ≡ e
one_digit zero d e rest small hd he h k = ground arith
one_digit (suc zero) d e rest small hd he h k = ground arith
one_digit (suc (suc zero)) d e rest small hd he h k = ground arith
one_digit (suc (suc (suc zero))) d e rest small hd he h k = ground arith
one_digit (suc (suc (suc (suc zero)))) d e rest small hd he h k = ground arith
one_digit (suc (suc (suc (suc (suc zero))))) d e rest small hd he h k = ground arith
one_digit (suc (suc (suc (suc (suc (suc zero)))))) d e rest small hd he h k = ground arith
one_digit (suc (suc (suc (suc (suc (suc (suc zero))))))) d e rest small hd he h k = ground arith
one_digit (suc (suc (suc (suc (suc (suc (suc (suc zero)))))))) d e rest small hd he h k =
    ground arith
one_digit (suc (suc (suc (suc (suc (suc (suc (suc (suc i))))))))) d e rest small hd he h k =
    absurd (omega arith)

check_unique : (c k l : ℕ) → isbn10_check (some c) ≡ some k → isbn10_check (some c) ≡ some l → k ≡ l
check_unique c k l p q = ground arith

-- Replacing one of the first nine digits of a valid ISBN-10 by another makes it invalid.
pub isbn10_detects_wrong_digit :
    (xs ys : Text) (d e c : ℕ)
    → is_valid_isbn10_bytes ((xs ++ d ∷ ys) ++ c ∷ []) ≡ true
    → e ≢ d
    → is_valid_isbn10_bytes ((xs ++ e ∷ ys) ++ c ∷ []) ≡ false
isbn10_detects_wrong_digit xs ys d e c valid differs =
    elim (Bool-cases (is_valid_isbn10_bytes ((xs ++ e ∷ ys) ++ c ∷ []))) [
      | inr wrong ↦ wrong
      | inl also ↦
          let (len, digits, (k, p, sum)) = is_valid_isbn10_bytes_sound (xs ++ d ∷ ys) c valid in
          let (len', digits', (k', p', sum')) = is_valid_isbn10_bytes_sound (xs ++ e ∷ ys) c also in
          let (hx, hd) = All-of_append (λ b. is_ascii_digit b ≡ true) xs (d ∷ ys) digits in
          let (hx', he) = All-of_append (λ b. is_ascii_digit b ≡ true) xs (e ∷ ys) digits' in
          let same = check_unique c k k' p p' in
          absurd (
            differs (
              sym (
                one_digit (length xs) d e (weighed10 0 xs + weighed10 (length xs + 1) ys + k)
                  (omega (arith, length-append xs (d ∷ ys))) hd.0 he.0
                  (omega (arith, weighed10_at xs (d ∷ ys), sum))
                  (omega (arith, weighed10_at xs (e ∷ ys), sum', same)))))
    ]

swapped :
    (w d e rest : ℕ)
    → is_ascii_digit d ≡ true
    → is_ascii_digit e ≡ true
    → (rest + (w + 1) * (d - b'0') + w * (e - b'0')) % 11 ≡ 0
    → (rest + (w + 1) * (e - b'0') + w * (d - b'0')) % 11 ≡ 0
    → d ≡ e
swapped w d e rest hd he h k = ground arith

-- Exchanging two different neighbouring digits among the first nine makes a valid ISBN-10 invalid.
pub isbn10_detects_swap :
    (xs ys : Text) (d e c : ℕ)
    → is_valid_isbn10_bytes ((xs ++ d ∷ e ∷ ys) ++ c ∷ []) ≡ true
    → e ≢ d
    → is_valid_isbn10_bytes ((xs ++ e ∷ d ∷ ys) ++ c ∷ []) ≡ false
isbn10_detects_swap xs ys d e c valid differs =
    elim (Bool-cases (is_valid_isbn10_bytes ((xs ++ e ∷ d ∷ ys) ++ c ∷ []))) [
      | inr wrong ↦ wrong
      | inl also ↦
          let (len, digits, (k, p, sum)) = is_valid_isbn10_bytes_sound (xs ++ d ∷ e ∷ ys) c valid in
          let (len', digits', (k', p', sum')) =
            is_valid_isbn10_bytes_sound (xs ++ e ∷ d ∷ ys) c also in
          let (hx, hd) = All-of_append (λ b. is_ascii_digit b ≡ true) xs (d ∷ e ∷ ys) digits in
          let same = check_unique c k k' p p' in
          let w = 10 - (length xs + 1) in
          let room : 10 - length xs ≡ w + 1 = omega (arith, length-append xs (d ∷ e ∷ ys), len) in
          absurd (
            differs (
              sym (
                swapped w d e (weighed10 0 xs + weighed10 (length xs + 1 + 1) ys + k) hd.0 hd.1.0
                  (omega (arith, weighed10_at xs (d ∷ e ∷ ys), sum, ap (λ t. t * (d - b'0')) room))
                  (omega (
                    arith,
                    weighed10_at xs (e ∷ d ∷ ys),
                    sum',
                    same,
                    ap (λ t. t * (e - b'0')) room,
                  )))))
    ]
