-- ===== src/Book/Headings/Collect/Places.antt =====
-- Where the candidates stand in the text.
use paperbridge.Text.Bytes.{byte_len-append}
use paperbridge.Prelude.{
  All, Bool-cases, List, Option, Option-cases, [], ap, append_assoc, arith, concat, inl, inr, none,
  refl, some, some-injective, subst, sym, ℕ, ◌++◌, ◌+◌, ◌==◌, ◌∙◌, ◌∷◌, ◌≡◌, ◌≤◌,
}
use paperbridge.Text.{Text, byte_len, trim}
use paperbridge.Book.Headings.{CandidateHeading}
use paperbridge.Book.Headings.Detect.{DetectedHeading, detect_chapter_heading}
use paperbridge.Book.Headings.Collect.{
  candidate, candidate_of, collect_from, collect_raw_candidate_headings, preceded_cleanly,
  push_front, split_inclusive,
}

concat-push_front : (c : ℕ) (ls : List Text) → concat (push_front c ls) ≡ c ∷ concat ls
concat-push_front c [] = refl
concat-push_front c (l ∷ ls) = refl

concat-split_inclusive : (s : Text) → concat (split_inclusive s) ≡ s
unfolding split_inclusive
concat-split_inclusive [] = refl
concat-split_inclusive (c ∷ s) = elim (Bool-cases (c == 10)) [
  | inl e ↦ rw e (ap (λ t. c ∷ t) (concat-split_inclusive s))
  | inr e ↦
      rw e (concat-push_front c (split_inclusive s) ∙ ap (λ t. c ∷ t) (concat-split_inclusive s))
]

-- A candidate stands on a line of the text: its offset and its length are those of the line in bytes,
-- and the line is a heading with its number and its id.
pub record IsPlaced (content : Text) (c : CandidateHeading) : Type 0 where
  pub before : Text
  pub line : Text
  pub after : Text
  pub whole : content ≡ before ++ (line ++ after)
  pub offset : c.byte_offset ≡ byte_len before
  pub size : c.heading_line_len ≡ byte_len line
  pub heading : DetectedHeading
  pub detected : detect_chapter_heading (trim line) ≡ some heading
  pub same_number : c.number ≡ heading.sequence_num
  pub same_id : c.id ≡ heading.id

-- The offsets ascend.
abbrev pub Ascending : ℕ → List CandidateHeading → Type 0
Ascending from [] = Unit
Ascending from (c ∷ cs) = (from ≤ c.byte_offset) × Ascending (c.byte_offset + c.heading_line_len) cs

Ascending-le : (a b : ℕ) (cs : List CandidateHeading) → a ≤ b → Ascending b cs → Ascending a cs
Ascending-le a b [] h hs = tt
Ascending-le a b (c ∷ cs) h (h', hs) = (omega arith, hs)

candidate_of_sound :
    (prior : Option Text) (offset : ℕ) (l : Text) (ls : List Text) (c : CandidateHeading)
    → candidate_of prior offset l ls ≡ some c
    → (heading : DetectedHeading) × (detect_chapter_heading (trim l) ≡ some heading)
      × (c ≡ candidate heading offset l ls)
unfolding candidate_of
candidate_of_sound prior offset l ls c h = elim (Bool-cases (preceded_cleanly prior)) [
  | inl e ↦ elim (Option-cases (detect_chapter_heading (trim l))) [
    | inl f ↦ (let x = rw (e, f) at h in cc)
    | inr (heading, f) ↦ (heading, f, sym (some-injective _ _ (rw (e, f) at h)))
  ]
  | inr e ↦ (let x = rw e at h in cc)
]

collect_from-IsPlaced :
    (content : Text) (prior : Option Text) (before : Text) (ls : List Text)
    → content ≡ before ++ concat ls
    → All (IsPlaced content) (collect_from prior (byte_len before) ls)
      × Ascending (byte_len before) (collect_from prior (byte_len before) ls)
unfolding collect_from
collect_from-IsPlaced content prior before [] whole = (tt, tt)
collect_from-IsPlaced content prior before (l ∷ ls) whole =
    let size = byte_len-append before l in
    let (placed, ascending) = rw size at (
      collect_from-IsPlaced content (some l) (before ++ l) ls
        (whole ∙ sym (append_assoc before l (concat ls)))) in
    elim (Option-cases (candidate_of prior (byte_len before) l ls)) [
      | inl e ↦ rw e (placed, Ascending-le _ _ _ (omega arith) ascending)
      | inr (c, e) ↦
          let (heading, detected, same) = candidate_of_sound prior (byte_len before) l ls c e in
          let placed_here : IsPlaced content c = subst (IsPlaced content) (sym same) (record {
            before = before;
            line = l;
            after = concat ls;
            whole = whole;
            offset = refl;
            size = refl;
            heading = heading;
            detected = detected;
            same_number = refl;
            same_id = refl;
          }) in
          let starts : c.byte_offset ≡ byte_len before = ap (λ x. x.byte_offset) same in
          let sizes : c.heading_line_len ≡ byte_len l = ap (λ x. x.heading_line_len) same in
          rw e ((placed_here, placed), (omega arith, Ascending-le _ _ _ (omega arith) ascending))
    ]

-- Every candidate heading stands on a line of the text: its offset and its length are those of the
-- line in bytes, and the line reads as a heading with its number and its id. No candidate begins
-- before the line of the one in front of it ends.
pub collect_raw_candidate_headings-IsPlaced :
    (content : Text)
    → All (IsPlaced content) (collect_raw_candidate_headings content)
      × Ascending 0 (collect_raw_candidate_headings content)
unfolding collect_raw_candidate_headings byte_len
collect_raw_candidate_headings-IsPlaced content =
    collect_from-IsPlaced content none [] (split_inclusive content)
      (sym (concat-split_inclusive content))
