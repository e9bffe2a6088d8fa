-- ===== src/Chunking/Tts/Ink.antt =====
-- What `split_for_tts` keeps of its input.
use paperbridge.Prelude.{
  Bool-cases, List, [], ap, append-nil, append_assoc, arith, concat, concat-concat, false, foldl,
  inl, inr, is_empty, is_empty→eq, length, ltb, max, sym, ℕ, ◌++◌, ◌∙◌, ◌∷◌, ◌≡◌,
}
use paperbridge.Text.{Text, codes, trim}
use paperbridge.Text.Ink.{ink, ink-append, ink-trim, ink_space}
use paperbridge.Chunking.Pack.{
  Packer, concat-finish, emit-ink, empty_packer, held, ink-pack, ink_loop,
}
use paperbridge.Chunking.HardSplit.{hard_split, hard_split-ink}
use paperbridge.Chunking.Tts.{
  squeeze_step, squeeze, cut_step, tts_step, Squeeze, Cut, push_sentence, normalize_text_for_tts,
  sentence_split, split_for_tts,
}

tts_step-ink :
    (m : ℕ) (s : Packer) (sentence : Text)
    → ink (held (tts_step m s sentence)) ≡ ink (held s) ++ ink sentence
unfolding tts_step
tts_step-ink m s sentence = elim (Bool-cases (ltb m (length sentence))) [
  | inl long ↦ rw long (emit-ink s (hard_split sentence m) ∙ rw hard_split-ink)
  | inr short ↦ rw short (ink-pack (codes " ") m s sentence ink_space)
]

concat-push_sentence :
    (out : List Text) (t : Text) → ink (concat (push_sentence out (trim t))) ≡ ink (concat out ++ t)
unfolding push_sentence
concat-push_sentence out t = ground (
  arith,
  concat-concat out (trim t),
  ink-append (concat out) (trim t),
  ink-append (concat out) t,
  ink-trim t,
  is_empty→eq (trim t),
  append-nil (ink (concat out)),
)

cut_step-ink :
    (c : Cut) (ch : ℕ)
    → ink (concat (cut_step c ch).out ++ (cut_step c ch).since)
      ≡ ink (concat c.out ++ c.since) ++ ink (ch ∷ [])
unfolding cut_step
cut_step-ink c ch = ground (
  arith,
  concat-push_sentence c.out (c.since ++ ch ∷ []),
  append-nil (concat (push_sentence c.out (trim (c.since ++ ch ∷ [])))),
  ink-append (concat c.out ++ c.since) (ch ∷ []),
  append_assoc (concat c.out) c.since (ch ∷ []),
)

cut_loop-ink :
    (c : Cut) (text : Text)
    → (let d = foldl cut_step c text in ink (concat d.out ++ d.since))
      ≡ ink (concat c.out ++ c.since) ++ ink text
cut_loop-ink c [] = sym (append-nil (ink (concat c.out ++ c.since)))
cut_loop-ink c (ch ∷ text) =
    rw (cut_loop-ink (cut_step c ch) text, cut_step-ink c ch, ink-append (ch ∷ []) text)
      (append_assoc (ink (concat c.out ++ c.since)) (ink (ch ∷ [])) (ink text))

sentence_split-ink : (text : Text) → ink (concat (sentence_split text)) ≡ ink text
unfolding sentence_split
sentence_split-ink text =
    let c = foldl cut_step (record { out = []; since = [] }) text in
    concat-push_sentence c.out c.since ∙ cut_loop-ink (record { out = []; since = [] }) text

squeeze_step-ink : (s : Squeeze) (ch : ℕ) → ink (squeeze_step s ch).out ≡ ink s.out ++ ink (ch ∷ [])
unfolding squeeze_step
squeeze_step-ink s ch = ground (
  arith,
  ink-append s.out (codes " "),
  ink-append s.out (ch ∷ []),
  ink_space,
  append-nil (ink s.out),
)

squeeze-ink : (s : Squeeze) (text : Text) → ink (squeeze s text).out ≡ ink s.out ++ ink text
unfolding squeeze
squeeze-ink s [] = sym (append-nil (ink s.out))
squeeze-ink s (ch ∷ text) =
    rw (squeeze-ink (squeeze_step s ch) text, squeeze_step-ink s ch, ink-append (ch ∷ []) text)
      (append_assoc (ink s.out) (ink (ch ∷ [])) (ink text))

pub normalize-ink : (input : Text) → ink (normalize_text_for_tts input) ≡ ink input
unfolding normalize_text_for_tts
normalize-ink input =
    ink-trim (squeeze (record { out = []; prev_was_ws = false }) input).out
    ∙ squeeze-ink (record { out = []; prev_was_ws = false }) input

-- The chunks hold exactly the characters of the input that are no whitespace, in their order:
-- splitting for speech drops, adds and moves nothing else.
pub split_for_tts-ink :
    (input : Text) (max_chars : ℕ) → ink (concat (split_for_tts input max_chars)) ≡ ink input
unfolding split_for_tts
split_for_tts-ink input max_chars =
    let m = max max_chars 1 in
    let text = normalize_text_for_tts input in
    elim (Bool-cases (is_empty text)) [
      | inl blank ↦ rw blank (sym (ap ink (is_empty→eq text blank)) ∙ normalize-ink input)
      | inr full ↦ rw full (
          ap ink (concat-finish (foldl (tts_step m) empty_packer (sentence_split text)))
          ∙ ink_loop (tts_step m) (tts_step-ink m) empty_packer (sentence_split text)
          ∙ sentence_split-ink text
          ∙ normalize-ink input)
    ]
