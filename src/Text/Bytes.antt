-- ===== src/Text/Bytes.antt =====
-- Slices of a text by bytes, as `s[n..]` and `s[..n]`.
use paperbridge.Prelude.{
  Bool-cases, [], ap, arith, false, if◌then◌else◌, inl, inr, refl, ℕ, ◌++◌, ◌+◌, ◌-◌, ◌<◌, ◌==◌,
  ◌∷◌, ◌≡◌, Bool, leb, ◌&&◌, ◌||◌,
}
use paperbridge.Text.{Text, byte_len, len_utf8}

-- `s[n..]` and `s[..n]`, where `n` bytes end between two characters.
unfoldable pub byte_drop : ℕ → Text → Text
byte_drop n [] = []
byte_drop n (c ∷ s) = let rest = byte_drop (n - len_utf8 c) s in if n == 0 then c ∷ s else rest

unfoldable pub byte_take : ℕ → Text → Text
byte_take n [] = []
byte_take n (c ∷ s) = let rest = byte_take (n - len_utf8 c) s in if n == 0 then [] else c ∷ rest

-- `is_char_boundary`, up to the length.
unfoldable pub is_char_boundary : Text → ℕ → Bool
is_char_boundary [] n = n == 0
is_char_boundary (c ∷ s) n =
    let rest = is_char_boundary s (n - len_utf8 c) in n == 0 || (leb (len_utf8 c) n && rest)

pub byte_len-append : (s t : Text) → byte_len (s ++ t) ≡ byte_len s + byte_len t
unfolding byte_len
byte_len-append [] t = omega arith
byte_len-append (c ∷ s) t = omega (arith, byte_len-append s t)

pub byte_take-append-drop : (n : ℕ) (s : Text) → byte_take n s ++ byte_drop n s ≡ s
unfolding byte_take byte_drop
byte_take-append-drop n [] = refl
byte_take-append-drop n (c ∷ s) = elim (Bool-cases (n == 0)) [
  | inl e ↦ rw e refl
  | inr e ↦ rw e (ap (λ t. c ∷ t) (byte_take-append-drop (n - len_utf8 c) s))
]

pub len_utf8-pos : (c : ℕ) → 0 < len_utf8 c
unfolding len_utf8
len_utf8-pos c = ground arith

pub byte_drop-append : (s t : Text) → byte_drop (byte_len s) (s ++ t) ≡ t
unfolding byte_drop byte_len
byte_drop-append [] [] = refl
byte_drop-append [] (c ∷ t) = refl
byte_drop-append (c ∷ s) t =
    let pos = len_utf8-pos c in
    let more : (len_utf8 c + byte_len s == 0) ≡ false = ground arith in
    let left : (len_utf8 c + byte_len s) - len_utf8 c ≡ byte_len s = omega arith in
    rw (more, left) (byte_drop-append s t)
