-- ===== src/Chunking/Tts.antt =====
-- `normalize_text_for_tts`, `sentence_split` and `split_for_tts` of src/chunking.rs.
pub mod Bounds
pub mod Ink
use paperbridge.Prelude.{
  Bool, List, [], false, foldl, if◌then◌else◌, is_empty, length, ltb, max, true, ℕ, ◌++◌, ◌==◌,
  ◌||◌, ◌∷◌,
}
use paperbridge.Text.{Text, codes, is_whitespace, trim}
use paperbridge.Chunking.Pack.{Packer, empty_packer, finish, pack, take_current}
use paperbridge.Chunking.HardSplit.{hard_split}

pub record Squeeze : Type 0 where
  pub out : Text
  pub prev_was_ws : Bool

squeeze_step : Squeeze → ℕ → Squeeze
squeeze_step s ch =
    if is_whitespace ch
    then if s.prev_was_ws then s else record { out = s.out ++ codes " "; prev_was_ws = true }
    else record { out = s.out ++ ch ∷ []; prev_was_ws = false }

squeeze : Squeeze → Text → Squeeze
squeeze = foldl squeeze_step

unfoldable pub normalize_text_for_tts : Text → Text
unfolding squeeze squeeze_step
normalize_text_for_tts input = trim (squeeze (record { out = []; prev_was_ws = false }) input).out

abbrev is_terminator : ℕ → Bool
is_terminator ch = ch == b'.' || ch == b'!' || ch == b'?' || ch == b';'

-- `out`, and the text since the last boundary: `text[start..idx]`.
pub record Cut : Type 0 where
  pub out : List Text
  pub since : Text

unfoldable pub push_sentence : List Text → Text → List Text
push_sentence out sentence = if is_empty sentence then out else out ++ sentence ∷ []

cut_step : Cut → ℕ → Cut
cut_step c ch =
    let t = c.since ++ ch ∷ [] in
    if is_terminator ch
    then record { out = push_sentence c.out (trim t); since = [] }
    else record c { since = t }

unfoldable pub sentence_split : Text → List Text
unfolding cut_step push_sentence
sentence_split text =
    let c = foldl cut_step (record { out = []; since = [] }) text in
    push_sentence c.out (trim c.since)

-- The body of the loop over the sentences.
tts_step : ℕ → Packer → Text → Packer
tts_step safe_max s sentence =
    if ltb safe_max (length sentence)
    then (let t = take_current s in record t { out = t.out ++ hard_split sentence safe_max })
    else pack (codes " ") safe_max s sentence

unfoldable pub split_for_tts : Text → ℕ → List Text
unfolding tts_step
split_for_tts input max_chars =
    let text = normalize_text_for_tts input in
    if is_empty text
    then []
    else finish (foldl (tts_step (max max_chars 1)) empty_packer (sentence_split text))
