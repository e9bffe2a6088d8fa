-- ===== src/Validation/Decimal.antt =====
-- Printing of an index in the name of a field (`format!("tags[{idx}]")` in src/validation.rs).
use paperbridge.Prelude.{
  Bool-cases, [], arith, if◌then◌else◌, inl, inr, ltb, refl, suc, zero, ℕ, ◌%◌, ◌+◌, ◌/◌, ◌<◌, ◌∷◌,
  ◌≡◌, ◌≤◌,
}
use paperbridge.Text.{Text}

-- The digits of `n` in front of `acc`, on fuel.
unfoldable pub show_on : ℕ → ℕ → Text → Text
show_on zero n acc = acc
show_on (suc fuel) n acc =
    let rest = show_on fuel (n / 10) ((48 + n % 10) ∷ acc) in
    if ltb n 10 then (48 + n % 10) ∷ acc else rest

-- Fuel above the number is enough: more changes nothing.
pub show_on-fuel : (f g n : ℕ) (acc : Text) → n < f → n < g → show_on f n acc ≡ show_on g n acc
unfolding show_on
show_on-fuel zero g n acc h k = ground arith
show_on-fuel (suc f) zero n acc h k = ground arith
show_on-fuel (suc f) (suc g) n acc h k = elim (Bool-cases (ltb n 10)) [
  | inl last ↦ rw last refl
  | inr more ↦
      let big : 10 ≤ n = ground arith in
      rw more (show_on-fuel f g (n / 10) ((48 + n % 10) ∷ acc) (omega arith) (omega arith))
]

unfoldable pub to_decimal : ℕ → Text
unfolding show_on
to_decimal n = show_on (n + 1) n []
