-- ===== src/Book/Headings/Slice/Part.antt =====
-- What `extract_chapter_slice` finds: of the slices of the chapter asked for, one with the most text.
use paperbridge.Book.Headings.Slice.Cut.{IsSlice, body_of, slice_of-IsSlice}
use paperbridge.Book.Headings.Slice.Ends.{IsOf, is_wanted_iff}
use paperbridge.Book.Headings.Monotonic.{filter_monotonic_candidates}
use paperbridge.Text.Bytes.{byte_drop, byte_take}
use paperbridge.Prelude.{
  All, Bool-cases, List, Option, [], arith, inl, inr, leb, ltb, min, none, refl, some, subst, sym,
  true, ℕ, ◌++◌, ◌-◌, ◌∙◌, ◌∷◌, ◌≡◌, append_assoc, false, ◌≤◌, ◌⊎◌, if◌then◌else◌,
}
use paperbridge.Text.{Text, byte_len, trim, trim_end, trim_start}
use paperbridge.Book.Headings.{CandidateHeading}
use paperbridge.Book.Headings.Collect.{collect_raw_candidate_headings}
use paperbridge.Book.Headings.Collect.Places.{IsPlaced, collect_raw_candidate_headings-IsPlaced}
use paperbridge.Book.Headings.Toc.{partition_toc_and_body_candidates}
use paperbridge.Book.Headings.Toc.Once.{body-All}
use paperbridge.Book.Headings.Monotonic.Longest.{filter_monotonic_candidates-longest}
use paperbridge.Book.Headings.Slice.{
  BestSlice, best_slice, consider, end_of, extract_chapter_slice, is_wanted, longer, slice_of,
}

abbrev pub IsBestSlice : Text → ℕ → List CandidateHeading → Option BestSlice → Type 0
IsBestSlice content n chosen none = Unit
IsBestSlice content n chosen (some best) = IsSlice content n chosen best

-- The size of a slice that is found, 0 of none.
abbrev pub size_of : Option BestSlice → ℕ
size_of none = 0
size_of (some best) = best.body_len

-- No heading of the chapter has more text under it.
abbrev pub NoneLonger : Text → ℕ → ℕ → List CandidateHeading → Type 0
NoneLonger content n size [] = Unit
NoneLonger content n size (c ∷ later) =
    ((¬ IsOf n c) ⊎ (body_of c (slice_of content c later) ≤ size)) × NoneLonger content n size later

longer-IsBestSlice :
    (content : Text) (n : ℕ) (chosen : List CandidateHeading) (best : Option BestSlice)
    (new : BestSlice)
    → IsBestSlice content n chosen best
    → IsSlice content n chosen new
    → IsBestSlice content n chosen (longer best new)
      × (size_of best ≤ size_of (longer best new))
      × (new.body_len ≤ size_of (longer best new))
longer-IsBestSlice content n chosen none new h k = (k, omega arith, omega arith)
longer-IsBestSlice content n chosen (some best) new h k =
    elim (Bool-cases (leb new.body_len best.body_len)) [
      | inl e ↦ rw e (h, omega arith, ground arith)
      | inr e ↦ rw e (k, ground arith, omega arith)
    ]

byte_take_zero : (s : Text) → byte_take 0 s ≡ []
unfolding byte_take
byte_take_zero [] = refl
byte_take_zero (c ∷ s) = refl

-- No text is under the heading of a slice that ends where it starts.
no_slice :
    (content : Text) (c : CandidateHeading) (later : List CandidateHeading)
    → ltb
        (min c.byte_offset (byte_len content))
        (min (end_of c.number later (byte_len content)) (byte_len content))
      ≡ false
    → body_of c (slice_of content c later) ≡ 0
unfolding slice_of
no_slice content c later h =
    let start = min c.byte_offset (byte_len content) in
    let stop = min (end_of c.number later (byte_len content)) (byte_len content) in
    let none_left : stop - start ≡ 0 = ground arith in
    rw none_left (
      rw (byte_take_zero (byte_drop start content))
        (unfold byte_drop trim trim_end trim_start in refl))

consider-IsBestSlice :
    (content : Text) (n : ℕ) (chosen earlier : List CandidateHeading) (c : CandidateHeading)
    (later : List CandidateHeading) (best : Option BestSlice)
    → chosen ≡ earlier ++ c ∷ later
    → is_wanted n c ≡ true
    → IsPlaced content c
    → IsBestSlice content n chosen best
    → IsBestSlice content n chosen (consider content c later best)
      × (size_of best ≤ size_of (consider content c later best))
      × (body_of c (slice_of content c later) ≤ size_of (consider content c later best))
unfolding consider
consider-IsBestSlice content n chosen earlier c later best stands wanted placed h =
    let start = min c.byte_offset (byte_len content) in
    let stop = min (end_of c.number later (byte_len content)) (byte_len content) in
    let size = body_of c (slice_of content c later) in
    elim (Bool-cases (ltb start stop)) [
      | inr e ↦ let empty = no_slice content c later e in rw e (h, omega arith, omega arith)
      | inl e ↦ elim (Bool-cases (ltb 0 size)) [
        | inl f ↦
            rw (e, f)
              (longer-IsBestSlice content n chosen best _ h (
                slice_of-IsSlice content n chosen earlier c later stands wanted placed
                  (ground arith)))
        | inr f ↦ rw (e, f) (h, omega arith, ground arith)
      ]
    ]

best_slice_step :
    (content : Text) (n : ℕ) (c : CandidateHeading) (later : List CandidateHeading)
    (best : Option BestSlice)
    → best_slice content n (c ∷ later) best
      ≡ best_slice content n later (if is_wanted n c then consider content c later best else best)
unfolding best_slice
best_slice_step content n c later best = refl

-- The loop from one heading on.
abbrev Finds :
    Text
    → ℕ
    → List CandidateHeading
    → List CandidateHeading
    → Option BestSlice
    → Option BestSlice
    → Type 0
Finds content n chosen cs best found =
    IsBestSlice content n chosen found
    × (size_of best ≤ size_of found)
    × NoneLonger content n (size_of found) cs

best_slice-Finds :
    (content : Text) (n : ℕ) (chosen earlier cs : List CandidateHeading) (best : Option BestSlice)
    → chosen ≡ earlier ++ cs
    → All (IsPlaced content) cs
    → IsBestSlice content n chosen best
    → Finds content n chosen cs best (best_slice content n cs best)
best_slice-Finds content n chosen earlier [] best stands hs h =
    unfold best_slice in (h, omega arith, tt)
best_slice-Finds content n chosen earlier (c ∷ later) best stands (placed, hs) h =
    let next : chosen ≡ (earlier ++ c ∷ []) ++ later =
      stands ∙ sym (append_assoc earlier (c ∷ []) later) in
    let step = best_slice_step content n c later best in
    elim (Bool-cases (is_wanted n c)) [
      | inl e ↦
          let (kept, grown, covers) =
            consider-IsBestSlice content n chosen earlier c later best stands e placed h in
          let (last, more, others) =
            best_slice-Finds content n chosen (earlier ++ c ∷ []) later
              (consider content c later best) next hs kept in
          subst (Finds content n chosen (c ∷ later) best) (sym (rw e at step))
            (last, omega arith, (inr (omega arith), others))
      | inr e ↦
          let (last, more, others) =
            best_slice-Finds content n chosen (earlier ++ c ∷ []) later best next hs h in
          let other : ¬ IsOf n c = λ k. (let x = (is_wanted_iff n c).1 k in absurd (cc)) in
          subst (Finds content n chosen (c ∷ later) best) (sym (rw e at step))
            (last, more, (inl other, others))
    ]

-- Asking any text for a chapter ends, and a chapter that is found is a part of the text: it begins at
-- the line of one of the headings that were chosen, which is a heading of that chapter, and ends at
-- the next of them with another number, or with the text; it has the heading's title, and under the
-- heading there is more than white space, and as much as under any heading of the chapter that was
-- chosen. Where none is found, there is only white space under each of these.
pub extract_chapter_slice-IsSlice :
    (content : Text) (chapter_num : ℕ)
    → (chosen : List CandidateHeading) × (found : Option BestSlice) × (filter_monotonic_candidates
          (partition_toc_and_body_candidates (collect_raw_candidate_headings content)).1
        ≡ some chosen)
      × (extract_chapter_slice content chapter_num ≡ some found)
      × IsBestSlice content chapter_num chosen found
      × NoneLonger content chapter_num (size_of found) chosen
unfolding extract_chapter_slice
extract_chapter_slice-IsSlice content chapter_num =
    let raw = collect_raw_candidate_headings content in
    let (places, _) = collect_raw_candidate_headings-IsPlaced content in
    let (_, body, found, _, _, _) =
      filter_monotonic_candidates-longest (partition_toc_and_body_candidates raw).1 in
    let kept = body-All (IsPlaced content) raw body places found in
    let (best, _, others) = best_slice-Finds content chapter_num body [] body none refl kept tt in
    (body, best_slice content chapter_num body none, found, rw found refl, best, others)
