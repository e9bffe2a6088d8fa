-- ===== src/Paper/Sections/Ids.antt =====
-- The ids of sections: the loop of `unique_section_id` finds one that is free.
use paperbridge.Prelude.{
  List, Bool-cases, [], ap, arith, false, inl, inr, length, none, not, refl, retain, some,
  some-injective, suc, sym, true, zero, ℕ, ◌++◌, ◌+◌, ◌<◌, ◌^◌, ◌∙◌, ◌∷◌, ◌≡◌, ◌≤◌,
}
use paperbridge.Text.{Text, eq_text, lines}
use paperbridge.Text.Prefix.{eq_text_sound}
use paperbridge.Validation.Decimal.{to_decimal}
use paperbridge.Paper.Selector.Indices.{parse_u64-to_decimal}
use paperbridge.Router.Delay.{parse_u64}
use paperbridge.Paper.Sections.{
  PaperSection, section, PaperSectionKind, candidate, collapse_lines, flush_section, has_id, id_of,
  next_free, no_sections, section_id, unique_section_id,
}

-- The sections with another id.
abbrev without : Text → List PaperSection → List PaperSection
without id sections = retain (λ s. not (eq_text (id_of s) id)) sections

length-without :
    (id : Text) (sections : List PaperSection) → length (without id sections) ≤ length sections
length-without id [] = omega arith
length-without id (s ∷ sections) =
    let less = length-without id sections in
    elim (Bool-cases (eq_text (id_of s) id)) [
      | inl e ↦ rw e (omega arith)
      | inr e ↦ rw e (omega arith)
    ]

length-without_less :
    (id : Text) (sections : List PaperSection)
    → has_id sections id ≡ true
    → length (without id sections) < length sections
length-without_less id [] h = absurd (cc)
length-without_less id (s ∷ sections) h = elim (Bool-cases (eq_text (id_of s) id)) [
  | inl e ↦ let less = length-without id sections in rw e (omega arith)
  | inr e ↦ let x = rw e at h in let less = length-without_less id sections x in rw e (omega arith)
]

has_id-without :
    (gone id : Text) (sections : List PaperSection)
    → eq_text gone id ≡ false
    → has_id sections id ≡ true
    → has_id (without gone sections) id ≡ true
has_id-without gone id [] e h = h
has_id-without gone id (s ∷ sections) e h = elim (Bool-cases (eq_text (id_of s) gone)) [
  | inl same ↦
      let eq = eq_text_sound (id_of s) gone same in
      let differs : eq_text (id_of s) id ≡ false = rw eq e in
      let x = rw differs at h in rw same (has_id-without gone id sections e x)
  | inr other_id ↦ elim (Bool-cases (eq_text (id_of s) id)) [
    | inl found ↦ rw other_id (rw found refl)
    | inr differs ↦
        let x = rw differs at h in rw other_id (rw differs (has_id-without gone id sections e x))
  ]
]

append-cancel : (s t u : Text) → s ++ t ≡ s ++ u → t ≡ u
append-cancel [] t u e = e
append-cancel (c ∷ s) t u e = append-cancel s t u (cc)

to_decimal-injective : (m n : ℕ) → m < 2 ^ 64 → n < 2 ^ 64 → to_decimal m ≡ to_decimal n → m ≡ n
to_decimal-injective m n small small' e =
    some-injective m n
      (sym (parse_u64-to_decimal m small) ∙ ap parse_u64 e ∙ parse_u64-to_decimal n small')

candidate-differs :
    (base : Text) (m n : ℕ)
    → m < n
    → n < 2 ^ 64
    → eq_text (candidate base m) (candidate base n) ≡ false
candidate-differs base m n less small =
    elim (Bool-cases (eq_text (candidate base m) (candidate base n))) [
      | inl same ↦
          let e = eq_text_sound (candidate base m) (candidate base n) same in
          let tails = append-cancel base (b'-' ∷ to_decimal m) (b'-' ∷ to_decimal n) e in
          let eq = to_decimal-injective m n (omega arith) small (cc) in absurd (omega arith)
      | inr differs ↦ differs
    ]

-- The candidates that are taken are among `others`, from `suffix` on.
abbrev TakenIn : List PaperSection → List PaperSection → Text → ℕ → Type 0
TakenIn sections others base suffix =
    (n : ℕ)
    → suffix ≤ n
    → n < 2 ^ 64
    → has_id sections (candidate base n) ≡ true
    → has_id others (candidate base n) ≡ true

next_free-free :
    (fuel : ℕ) (others sections : List PaperSection) (base : Text) (suffix : ℕ)
    → length others < fuel
    → suffix + fuel < 2 ^ 64
    → TakenIn sections others base suffix
    → (id : Text) × (next_free fuel sections base suffix ≡ some id) × (has_id sections id ≡ false)
unfolding next_free
next_free-free zero others sections base suffix enough small taken = absurd (omega arith)
next_free-free (suc fuel) others sections base suffix enough small taken =
    elim (Bool-cases (has_id sections (candidate base suffix))) [
      | inl used ↦
          let fewer =
            length-without_less (candidate base suffix) others
              (taken suffix (omega arith) (omega arith) used) in
          let (id, e, free) =
            next_free-free fuel (without (candidate base suffix) others) sections base (suffix + 1)
              (omega arith) (omega arith)
              (λ n le lt h.
                has_id-without (candidate base suffix) (candidate base n) others
                  (candidate-differs base suffix n (omega arith) lt)
                  (taken n (omega arith) lt h)) in
          (id, rw used e, free)
      | inr free ↦ (candidate base suffix, rw free refl, free)
    ]

-- The open section is always closed, where the suffixes fit in 31 bits: it stands behind the
-- sections so far, with its lines and an id that none of those has, and no section is open then.
pub flush_section-fresh :
    (sections : List PaperSection) (heading : Text) (kind : PaperSectionKind) (lines : List Text)
    → length sections + 3 < 2 ^ 31
    → (id : Text) × (flush_section sections (some (heading, (kind, lines)))
        ≡ some (
          sections ++ section id heading (some kind) 1 (collapse_lines lines) no_sections ∷ [],
          none,
        ))
      × (has_id sections id ≡ false)
unfolding flush_section unique_section_id
flush_section-fresh sections heading kind lines few =
    elim (Bool-cases (has_id sections (section_id kind))) [
      | inl used ↦
          let (id, e, free) =
            next_free-free (length sections + 1) sections sections (section_id kind) 2 (omega arith)
              (omega arith) (λ n le lt h. h) in
          (id, rw (used, e) refl, free)
      | inr free ↦ (section_id kind, rw free refl, free)
    ]
