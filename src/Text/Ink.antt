-- ===== src/Text/Ink.antt =====
-- What splitting and trimming at whitespace keep: the other characters, in their order.
use paperbridge.Prelude.{
  ℕ, List, [], ◌∷◌, ◌++◌, not, ◌≡◌, refl, ◌∙◌, arith, retain, retain-append, concat,
}
use paperbridge.Text.{
  Text, is_whitespace, trim_start, trim_end, push_trimmed, trim, push_word, words, split_whitespace,
  line_pieces, codes, end_lines, lines, strip_cr,
}

-- The characters of a text that are no whitespace.
abbrev pub ink : Text → Text
ink = retain (λ c. not (is_whitespace c))

pub ink-append : (s t : Text) → ink (s ++ t) ≡ ink s ++ ink t
ink-append s t = retain-append (λ c. not (is_whitespace c)) s t

ink-trim_start : (s : Text) → ink (trim_start s) ≡ ink s
unfolding trim_start
ink-trim_start [] = refl
ink-trim_start (c ∷ s) = ground (arith, ink-trim_start s)

ink-push_trimmed : (c : ℕ) (s : Text) → ink (push_trimmed c s) ≡ ink (c ∷ s)
unfolding push_trimmed
ink-push_trimmed c [] = ground arith
ink-push_trimmed c (d ∷ s) = refl

pub ink-trim_end : (s : Text) → ink (trim_end s) ≡ ink s
unfolding trim_end
ink-trim_end [] = refl
ink-trim_end (c ∷ s) = ground (arith, ink-push_trimmed c (trim_end s), ink-trim_end s)

pub ink-trim : (s : Text) → ink (trim s) ≡ ink s
unfolding trim
ink-trim s = ink-trim_end (trim_start s) ∙ ink-trim_start s

concat-push_word : (w : Text) (ws : List Text) → concat (push_word w ws) ≡ w ++ concat ws
unfolding push_word
concat-push_word [] ws = refl
concat-push_word (c ∷ w) ws = refl

ink-words : (s : Text) → (words s).0 ++ concat (words s).1 ≡ ink s
unfolding words
ink-words [] = refl
ink-words (c ∷ s) = ground (arith, ink-words s, concat-push_word (words s).0 (words s).1)

-- The words of a text are its characters that are no whitespace, cut into pieces.
pub concat-split_whitespace : (s : Text) → concat (split_whitespace s) ≡ ink s
unfolding split_whitespace
concat-split_whitespace s = concat-push_word (words s).0 (words s).1 ∙ ink-words s

pub ink_idem : (s : Text) → ink (ink s) ≡ ink s
ink_idem [] = refl
ink_idem (c ∷ s) = ground (arith, ink_idem s)

pub ink_space : ink (codes " ") ≡ []
unfolding is_whitespace
ink_space = refl

pub ink_newline : ink (codes "\n") ≡ []
unfolding is_whitespace
ink_newline = refl

ink-line_pieces : (s : Text) → ink ((line_pieces s).0 ++ concat (line_pieces s).1) ≡ ink s
unfolding line_pieces is_whitespace
ink-line_pieces [] = refl
ink-line_pieces (c ∷ s) = ground (arith, ink-line_pieces s)

ink-strip_cr : (s : Text) → ink (strip_cr s) ≡ ink s
unfolding strip_cr is_whitespace
ink-strip_cr [] = refl
ink-strip_cr (c ∷ []) = ground arith
ink-strip_cr (c ∷ d ∷ s) = ground (arith, ink-strip_cr (d ∷ s))

ink-end_lines : (l : Text) (ls : List Text) → ink (concat (end_lines l ls)) ≡ ink (l ++ concat ls)
unfolding end_lines
ink-end_lines [] [] = refl
ink-end_lines (c ∷ l) [] = refl
ink-end_lines l (m ∷ ls) = ground (
  arith,
  ink-append (strip_cr l) (concat (end_lines m ls)),
  ink-strip_cr l,
  ink-end_lines m ls,
  ink-append l (m ++ concat ls),
)

-- The lines of a text hold its characters that are no whitespace.
pub ink-lines : (s : Text) → ink (concat (lines s)) ≡ ink s
unfolding lines
ink-lines s = ink-end_lines (line_pieces s).0 (line_pieces s).1 ∙ ink-line_pieces s
