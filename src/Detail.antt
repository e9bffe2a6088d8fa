-- ===== src/Detail.antt =====
-- `apply_detail` of src/hit_enrich.rs: how much of a hit an answer shows.
use paperbridge.Prelude.{
  All, Bool, Bool-cases, List, Option, [], ap, arith, false, if◌then◌else◌, inl, inr, leb, length,
  length-append, length-take, ltb, none, not, refl, some, some-injective, subst, suc, take,
  take-all, true, ℕ, ◌&&◌, ◌++◌, ◌-◌, ◌<◌, ◌==◌, ◌||◌, ◌∙◌, ◌∷◌, ◌≡◌, ◌≤◌, take-append_left, ◌⊎◌,
}
use paperbridge.Hits.{Hit, HitTruncation}
use paperbridge.Text.{Text, byte_len}

pub data SearchDetail : Type 0 where
  compact full : SearchDetail

-- `…`, as one character.
abbrev ellipsis : Text
ellipsis = 0x2026 ∷ []

-- The text, and whether it was shortened.
unfoldable pub truncate_display : Text → ℕ → Bool × Text
truncate_display text max_chars =
    if leb (length text) max_chars
    then (false, text)
    else (true, take (max_chars - 1) text ++ ellipsis)

-- The loop over the authors.
unfoldable pub truncate_authors : List Text → Bool × List Text
unfolding truncate_display
truncate_authors [] = (false, [])
truncate_authors (a ∷ as') =
    let (cut, b) = truncate_display a 80 in
    let (others, bs) = truncate_authors as' in (cut || others, b ∷ bs)

-- `truncation.take().unwrap_or_default()`, and `(title || authors).then_some(truncated)`.
abbrev unwrap_or_default : Option HitTruncation → HitTruncation
unwrap_or_default none = record { title = false; authors = false }
unwrap_or_default (some t) = t

abbrev then_some : HitTruncation → Option HitTruncation
then_some t = if t.title || t.authors then some t else none

-- What is reported as shortened, now or before.
abbrev flags : {F32 : Type 0} → Hit F32 → HitTruncation
flags hit =
    let before = unwrap_or_default hit.truncation in
    let title_cut = (truncate_display hit.title 240).0 in
    let author_cut = (truncate_authors (take 3 hit.authors)).0 in
    record {
      title = before.title || title_cut;
      authors = before.authors || (ltb 3 (length hit.authors) || author_cut);
    }

unfoldable pub cap_compact : {F32 : Type 0} → Hit F32 → Hit F32
unfolding truncate_display truncate_authors
cap_compact hit = record hit {
  title = (truncate_display hit.title 240).1;
  authors = (truncate_authors (take 3 hit.authors)).1;
  truncation = then_some (flags hit);
}

abbrev keep_short : Option Text → Option Text
keep_short none = none
keep_short (some venue) = if ltb 80 (byte_len venue) then none else some venue

abbrev cap_abstract : ℕ → Option Text → Option Text
cap_abstract most none = none
cap_abstract most (some text) =
    if not (most == 0) && ltb most (length text)
    then some (take (most - 1) text ++ ellipsis)
    else some text

abbrev pub max_or_default : Option ℕ → ℕ
max_or_default none = 280
max_or_default (some n) = n

unfoldable pub apply_detail : {F32 : Type 0} → Hit F32 → SearchDetail → Option ℕ → Hit F32
unfolding cap_compact
apply_detail hit compact abstract_max_chars =
    let capped = cap_compact hit in
    record capped { abstract_note = none; venue = keep_short hit.venue }
apply_detail hit full abstract_max_chars = record hit {
  abstract_note = cap_abstract (max_or_default abstract_max_chars) hit.abstract_note;
}

truncate_display-fits :
    (text : Text) (max_chars : ℕ)
    → 0 < max_chars
    → (length (truncate_display text max_chars).1 ≤ max_chars)
      × ((truncate_display text max_chars).0 ≡ false → (truncate_display text max_chars).1 ≡ text)
      × ((truncate_display text max_chars).0 ≡ ltb max_chars (length text))
unfolding truncate_display
truncate_display-fits text max_chars positive = elim (Bool-cases (leb (length text) max_chars)) [
  | inl fits ↦ rw fits (ground arith, (λ h. refl), ground arith)
  | inr long ↦
      let size = length-append (take (max_chars - 1) text) ellipsis in
      let cut = length-take (max_chars - 1) text in rw long (omega arith, (λ h. cc), ground arith)
]

truncate_authors-fits :
    (authors : List Text)
    → (length (truncate_authors authors).1 ≡ length authors)
      × All (λ a. length a ≤ 80) (truncate_authors authors).1
      × ((truncate_authors authors).0 ≡ false → (truncate_authors authors).1 ≡ authors)
unfolding truncate_authors
truncate_authors-fits [] = (refl, tt, (λ h. refl))
truncate_authors-fits (a ∷ authors) =
    let (short, same, _) = truncate_display-fits a 80 (omega arith) in
    let (count, rest, same') = truncate_authors-fits authors in
    (
      ap suc count,
      (short, rest),
      (λ h. let first = same (ground arith) in let others = same' (ground arith) in cc),
    )

-- What a compact hit holds: caps on the title, the authors and the venue, and no abstract. Where no
-- truncation is reported, title and authors are those of the full hit.
pub record IsCompact {F32 : Type 0} (hit shown : Hit F32) : Type 0 where
  pub title_short : length shown.title ≤ 240
  pub authors_few : length shown.authors ≤ 3
  pub authors_short : All (λ a. length a ≤ 80) shown.authors
  pub no_abstract : shown.abstract_note ≡ none
  pub venue_kept :
      (venue : Text) → shown.venue ≡ some venue → (hit.venue ≡ some venue) × (byte_len venue ≤ 80)
  pub honest : shown.truncation ≡ none → (shown.title ≡ hit.title) × (shown.authors ≡ hit.authors)

then_some-none : (t : HitTruncation) → then_some t ≡ none → (t.title ≡ false) × (t.authors ≡ false)
then_some-none t h = (ground arith, ground arith)

-- A text as it is, where zero or enough characters are asked for; else a cut of the size asked for,
-- which begins as the text does, up to one character.
abbrev pub IsCut : ℕ → Text → Text → Type 0
IsCut most whole shown =
    ((shown ≡ whole) × ((most ≡ 0) ⊎ (length whole ≤ most)))
    ⊎ ((0 < most)
        × (most < length whole)
        × (length shown ≡ most)
        × (take (most - 1) shown ≡ take (most - 1) whole))

-- No abstract of none, and a cut of one that is there.
abbrev pub IsCutNote : ℕ → Option Text → Option Text → Type 0
IsCutNote most none note = note ≡ none
IsCutNote most (some whole) note = (shown : Text) × (note ≡ some shown) × IsCut most whole shown

cap_abstract-IsCutNote :
    (most : ℕ) (note : Option Text) → IsCutNote most note (cap_abstract most note)
cap_abstract-IsCutNote most none = refl
cap_abstract-IsCutNote most (some whole) =
    let size = length-append (take (most - 1) whole) ellipsis in
    let cut = length-take (most - 1) whole in
    elim (Bool-cases (not (most == 0) && ltb most (length whole))) [
      | inl long ↦
          let positive : 0 < most = ground arith in
          let above : most < length whole = ground arith in
          rw long (
            take (most - 1) whole ++ ellipsis,
            refl,
            inr (
              positive,
              above,
              omega arith,
              take-append_left (take (most - 1) whole) ellipsis (most - 1) (omega arith),
            ),
          )
      | inr fits ↦ rw fits (whole, refl, inl (refl, ground arith))
    ]

keep_short_sound :
    (venue : Option Text) (shown : Text)
    → keep_short venue ≡ some shown
    → (venue ≡ some shown) × (byte_len shown ≤ 80)
keep_short_sound none shown h = absurd (cc)
keep_short_sound (some whole) shown h = elim (Bool-cases (ltb 80 (byte_len whole))) [
  | inl long ↦ (let x = rw long at h in absurd (cc))
  | inr fits ↦
      let e = some-injective _ _ (rw fits at h) in
      let same : whole ≡ shown = e in
      (ap some same, subst (λ x. byte_len x ≤ 80) same (ground arith))
]

compact-IsCompact :
    {F32 : Type 0} (hit : Hit F32) (abstract_max_chars : Option ℕ)
    → IsCompact hit (apply_detail hit compact abstract_max_chars)
unfolding apply_detail cap_compact
compact-IsCompact hit abstract_max_chars =
    let (title_short, title_same, _) = truncate_display-fits hit.title 240 (omega arith) in
    let (count, authors_short, authors_same) = truncate_authors-fits (take 3 hit.authors) in
    let few = length-take 3 hit.authors in
    record {
      venue_kept = λ venue h. keep_short_sound hit.venue venue h;
      title_short = title_short;
      authors_few = omega arith;
      authors_short = authors_short;
      no_abstract = refl;
      honest = λ h.
          let (t, a) = then_some-none (flags hit) h in
          let all_there : length hit.authors ≤ 3 = ground (arith, a) in
          (
            title_same (ground (arith, t)),
            authors_same (ground (arith, a)) ∙ take-all 3 hit.authors all_there,
          );
    }

-- A compact hit has a title of at most 240 characters, at most three authors of at most 80
-- characters each, no abstract, and the hit's own venue or none, of at most 80 bytes; where it does
-- not report a truncation, its title and its authors are complete. A full hit differs from the hit in
-- the abstract at most: it has one exactly if the hit has, complete if zero is asked for or if it has
-- no more characters than asked for, 280 by default, and else cut to that number of characters, which
-- up to the last are those of the abstract.
pub apply_detail-caps :
    {F32 : Type 0} (hit : Hit F32) (abstract_max_chars : Option ℕ)
    → IsCompact hit (apply_detail hit compact abstract_max_chars)
      × (apply_detail hit full abstract_max_chars
          ≡ record hit { abstract_note = (apply_detail hit full abstract_max_chars).abstract_note })
      × IsCutNote
          (max_or_default abstract_max_chars)
          hit.abstract_note
          (apply_detail hit full abstract_max_chars).abstract_note
unfolding apply_detail
apply_detail-caps hit abstract_max_chars = (
  compact-IsCompact hit abstract_max_chars,
  refl,
  cap_abstract-IsCutNote (max_or_default abstract_max_chars) hit.abstract_note,
)
