-- ===== src/Paper/Selector/Indices.antt =====
-- Printing an index and reading it back.
use paperbridge.Prelude.{
  All, Bool-cases, [], arith, false, inl, inr, is_empty, ltb, refl, some, suc, true, zero, ℕ, ◌%◌,
  ◌*◌, ◌+◌, ◌-◌, ◌/◌, ◌<◌, ◌==◌, ◌^◌, ◌∙◌, ◌∷◌, ◌≡◌,
}
use paperbridge.Text.{Text, is_ascii_digit}
use paperbridge.Router.Delay.{digits_u64, parse_u64}
use paperbridge.Validation.Decimal.{show_on, to_decimal}

abbrev pub AllDigits : Text → Type 0
AllDigits = All (λ c. is_ascii_digit c ≡ true)

show_on-AllDigits : (fuel n : ℕ) (acc : Text) → AllDigits acc → AllDigits (show_on fuel n acc)
unfolding show_on
show_on-AllDigits zero n acc h = h
show_on-AllDigits (suc fuel) n acc h =
    let digit : is_ascii_digit (48 + n % 10) ≡ true = ground arith in
    elim (Bool-cases (ltb n 10)) [
      | inl e ↦ rw e (digit, h)
      | inr e ↦ rw e (show_on-AllDigits fuel (n / 10) ((48 + n % 10) ∷ acc) (digit, h))
    ]

-- Reading back what was printed.
digits_u64-show_on :
    (fuel n : ℕ) (acc : Text)
    → n < fuel
    → n < 2 ^ 64
    → digits_u64 0 (show_on fuel n acc) ≡ digits_u64 n acc
unfolding show_on
digits_u64-show_on zero n acc h small = absurd (omega arith)
digits_u64-show_on (suc fuel) n acc h small = elim (Bool-cases (ltb n 10)) [
  | inl e ↦
      let value : 0 * 10 + ((48 + n % 10) - 48) ≡ n = ground arith in rw (e, value) (ground arith)
  | inr e ↦
      let value : n / 10 * 10 + ((48 + n % 10) - 48) ≡ n = omega arith in
      rw e (
        digits_u64-show_on fuel (n / 10) ((48 + n % 10) ∷ acc) (ground arith) (omega arith)
        ∙ rw value (ground arith))
]

pub to_decimal-AllDigits : (n : ℕ) → AllDigits (to_decimal n)
unfolding to_decimal
to_decimal-AllDigits n = show_on-AllDigits (n + 1) n [] tt

show_on-ne :
    (fuel n : ℕ) (acc : Text) → is_empty acc ≡ false → is_empty (show_on fuel n acc) ≡ false
unfolding show_on
show_on-ne zero n acc h = h
show_on-ne (suc fuel) n acc h = elim (Bool-cases (ltb n 10)) [
  | inl e ↦ rw e refl
  | inr e ↦ rw e (show_on-ne fuel (n / 10) ((48 + n % 10) ∷ acc) refl)
]

show_on-full : (fuel n : ℕ) (acc : Text) → n < fuel → is_empty (show_on fuel n acc) ≡ false
unfolding show_on
show_on-full zero n acc h = absurd (omega arith)
show_on-full (suc fuel) n acc h = elim (Bool-cases (ltb n 10)) [
  | inl e ↦ rw e refl
  | inr e ↦ rw e (show_on-ne fuel (n / 10) ((48 + n % 10) ∷ acc) refl)
]

parse_digits : (s : Text) → is_empty s ≡ false → AllDigits s → parse_u64 s ≡ digits_u64 0 s
unfolding parse_u64
parse_digits [] h all_digits = absurd (cc)
parse_digits (c ∷ []) h all_digits = refl
parse_digits (c ∷ d ∷ ds) h (digit, _) =
    let no_sign : (c == 43) ≡ false = ground arith in rw no_sign refl

pub to_decimal-full : (n : ℕ) → is_empty (to_decimal n) ≡ false
unfolding to_decimal
to_decimal-full n = show_on-full (n + 1) n [] (omega arith)

pub parse_u64-to_decimal : (n : ℕ) → n < 2 ^ 64 → parse_u64 (to_decimal n) ≡ some n
unfolding to_decimal
parse_u64-to_decimal n small =
    let ne = show_on-full (n + 1) n [] (omega arith) in
    parse_digits (to_decimal n) ne (to_decimal-AllDigits n)
    ∙ digits_u64-show_on (n + 1) n [] (omega arith) small
