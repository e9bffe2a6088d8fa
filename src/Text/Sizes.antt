-- ===== src/Text/Sizes.antt =====
-- Trimming and splitting make no text longer.
use paperbridge.Prelude.{
  ℕ, ◌+◌, ◌≤◌, List, [], ◌∷◌, ◌≢◌, arith, length, All, ap, false, refl, ◌∙◌, ◌≡◌,
}
use paperbridge.Text.{is_whitespace, Text, trim_start, push_trimmed, trim_end, trim, push_word}

length-trim_start : (s : Text) → length (trim_start s) ≤ length s
unfolding trim_start
length-trim_start [] = omega arith
length-trim_start (c ∷ s) = ground (arith, length-trim_start s)

length-push_trimmed : (c : ℕ) (s : Text) → length (push_trimmed c s) ≤ length s + 1
unfolding push_trimmed
length-push_trimmed c [] = ground arith
length-push_trimmed c (d ∷ s) = omega arith

pub length-trim_end : (s : Text) → length (trim_end s) ≤ length s
unfolding trim_end
length-trim_end [] = omega arith
length-trim_end (c ∷ s) = omega (arith, length-push_trimmed c (trim_end s), length-trim_end s)

pub length-trim : (s : Text) → length (trim s) ≤ length s
unfolding trim
length-trim s = omega (arith, length-trim_end (trim_start s), length-trim_start s)

abbrev pub NonEmpty : Text → Type 0
NonEmpty s = s ≢ []

push_word-NonEmpty : (w : Text) (ws : List Text) → All NonEmpty ws → All NonEmpty (push_word w ws)
unfolding push_word
push_word-NonEmpty [] ws h = h
push_word-NonEmpty (c ∷ w) ws h = (λ e. cc, h)

-- Trimming twice is trimming once.
trim_end-push_trimmed :
    (c : ℕ) (s : Text) → trim_end s ≡ s → trim_end (push_trimmed c s) ≡ push_trimmed c s
unfolding trim_end push_trimmed
trim_end-push_trimmed c [] h = ground arith
trim_end-push_trimmed c (d ∷ r) h = rw h

trim_end_idem : (s : Text) → trim_end (trim_end s) ≡ trim_end s
unfolding trim_end
trim_end_idem [] = refl
trim_end_idem (c ∷ s) = trim_end-push_trimmed c (trim_end s) (trim_end_idem s)

-- A text that does not begin with whitespace.
abbrev StartsInk : Text → Type 0
StartsInk [] = Unit
StartsInk (c ∷ s) = is_whitespace c ≡ false

trim_start-StartsInk : (s : Text) → StartsInk (trim_start s)
unfolding trim_start
trim_start-StartsInk [] = tt
trim_start-StartsInk (c ∷ s) = ground (arith, trim_start-StartsInk s)

trim_start_self : (s : Text) → StartsInk s → trim_start s ≡ s
unfolding trim_start
trim_start_self [] h = refl
trim_start_self (c ∷ s) h = ground arith

push_trimmed-StartsInk : (c : ℕ) (s : Text) → is_whitespace c ≡ false → StartsInk (push_trimmed c s)
unfolding push_trimmed
push_trimmed-StartsInk c [] h = ground arith
push_trimmed-StartsInk c (d ∷ r) h = h

trim_end-StartsInk : (s : Text) → StartsInk s → StartsInk (trim_end s)
unfolding trim_end
trim_end-StartsInk [] h = tt
trim_end-StartsInk (c ∷ s) h = push_trimmed-StartsInk c (trim_end s) h

pub trim_idem : (s : Text) → trim (trim s) ≡ trim s
unfolding trim
trim_idem s =
    ap trim_end (
      trim_start_self (trim_end (trim_start s))
        (trim_end-StartsInk (trim_start s) (trim_start-StartsInk s)))
    ∙ trim_end_idem (trim_start s)

push_trimmed_ink : (c : ℕ) (s : Text) → is_whitespace c ≡ false → push_trimmed c s ≡ c ∷ s
unfolding push_trimmed
push_trimmed_ink c [] h = ground arith
push_trimmed_ink c (d ∷ r) h = refl

AllInk-trim_end : (s : Text) → All (λ c. is_whitespace c ≡ false) s → trim_end s ≡ s
unfolding trim_end
AllInk-trim_end [] h = refl
AllInk-trim_end (c ∷ s) (h, hs) = rw (AllInk-trim_end s hs) (push_trimmed_ink c s h)

AllInk-StartsInk : (s : Text) → All (λ c. is_whitespace c ≡ false) s → StartsInk s
AllInk-StartsInk [] h = tt
AllInk-StartsInk (c ∷ s) (h, hs) = h

-- A text with no whitespace stays as it is.
pub trim_ink : (s : Text) → All (λ c. is_whitespace c ≡ false) s → trim s ≡ s
unfolding trim
trim_ink s h = rw (trim_start_self s (AllInk-StartsInk s h)) (AllInk-trim_end s h)
