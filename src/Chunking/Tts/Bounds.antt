-- ===== src/Chunking/Tts/Bounds.antt =====
-- The limit on the chunks of `split_for_tts`.
use paperbridge.Prelude.{
  All, Bool-cases, [], arith, foldl_inv, inl, inr, is_empty, length, ltb, max, not_ltb→le, subst, ℕ,
  ◌<◌, ◌≢◌, ◌≤◌,
}
use paperbridge.Text.{Text, codes}
use paperbridge.Chunking.Pack.{
  Fits, IsPacked, Packer, emit-IsPacked, empty_packer, finish-Fits, pack-IsPacked,
}
use paperbridge.Chunking.HardSplit.{hard_split, hard_split-Fits}
use paperbridge.Chunking.Tts.{tts_step, normalize_text_for_tts, sentence_split, split_for_tts}

tts_step-IsPacked :
    (m : ℕ)
    → 0 < m
    → (s : Packer) (sentence : Text) → IsPacked m s
    → IsPacked m (tts_step m s sentence)
unfolding tts_step
tts_step-IsPacked m pos s sentence h = elim (Bool-cases (ltb m (length sentence))) [
  | inl long ↦ rw long (
      emit-IsPacked m s (hard_split sentence m)
        (subst (λ k. All (Fits k) (hard_split sentence m)) (omega arith)
          (hard_split-Fits sentence m))
        h)
  | inr short ↦
      rw short (pack-IsPacked m s (codes " ") sentence (not_ltb→le m (length sentence) short) h)
]

-- Every chunk for speech holds a character and is at most `max(max_chars, 1)` characters long,
-- whatever the input and the limit.
pub split_for_tts-Fits :
    (input : Text) (max_chars : ℕ)
    → All (λ c. (c ≢ []) × (length c ≤ max max_chars 1)) (split_for_tts input max_chars)
unfolding split_for_tts
split_for_tts-Fits input max_chars =
    let m = max max_chars 1 in
    let text = normalize_text_for_tts input in
    elim (Bool-cases (is_empty text)) [
      | inl blank ↦ rw blank tt
      | inr full ↦ rw full (
          finish-Fits m _ (
            foldl_inv (IsPacked m) (tts_step m) (tts_step-IsPacked m (omega arith)) empty_packer
              (sentence_split text) (ground arith)))
    ]
