-- ===== src/Paper/Sections.antt =====
-- The sections of src/paper/fallback.rs: their ids, and `flush_section`. `PaperSection` is of
-- src/models.rs.
pub mod Ids
use paperbridge.Prelude.{
  List, Bool, Option, [], false, if◌then◌else◌, length, none, not, some, suc, zero, ℕ, ◌++◌, ◌+◌,
  ◌>>=◌, ◌||◌, ◌∷◌,
}
use paperbridge.Text.{Text, codes, eq_text, to_ascii_lowercase, trim, lines}
use paperbridge.Validation.Decimal.{to_decimal}

pub data PaperSectionKind : Type 0 where
  abstract_text introduction background related_work method design : PaperSectionKind
  implementation evaluation results discussion limitations conclusion : PaperSectionKind
  acknowledgements references appendix other : PaperSectionKind

-- In the order of the fields; the subsections are the last.
mutual
  pub data PaperSection : Type 0 where
    section : Text → Text → Option PaperSectionKind → ℕ → Text → PaperSections → PaperSection

  pub data PaperSections : Type 0 where
    no_sections : PaperSections
    section_and : PaperSection → PaperSections → PaperSections

abbrev pub id_of : PaperSection → Text
id_of (section id heading kind level text subsections) = id

-- `{kind:?}`.
abbrev debug_name : PaperSectionKind → Text
debug_name abstract_text = codes "Abstract"
debug_name introduction = codes "Introduction"
debug_name background = codes "Background"
debug_name related_work = codes "RelatedWork"
debug_name method = codes "Method"
debug_name design = codes "Design"
debug_name implementation = codes "Implementation"
debug_name evaluation = codes "Evaluation"
debug_name results = codes "Results"
debug_name discussion = codes "Discussion"
debug_name limitations = codes "Limitations"
debug_name conclusion = codes "Conclusion"
debug_name acknowledgements = codes "Acknowledgements"
debug_name references = codes "References"
debug_name appendix = codes "Appendix"
debug_name other = codes "Other"

unfoldable pub section_id : PaperSectionKind → Text
section_id related_work = codes "related_work"
section_id acknowledgements = codes "acknowledgements"
section_id other = codes "body"
section_id kind = to_ascii_lowercase (debug_name kind)

-- `sections.iter().any(|section| section.id == id)`.
abbrev pub has_id : List PaperSection → Text → Bool
has_id [] id = false
has_id (s ∷ sections) id = eq_text (id_of s) id || has_id sections id

-- `{base}-{suffix}`.
abbrev pub candidate : Text → ℕ → Text
candidate base suffix = base ++ (b'-' ∷ to_decimal suffix)

-- The loop over the suffixes on fuel: `none` where that runs out.
unfoldable pub next_free : ℕ → List PaperSection → Text → ℕ → Option Text
next_free zero sections base suffix = none
next_free (suc fuel) sections base suffix =
    let later = next_free fuel sections base (suffix + 1) in
    if not (has_id sections (candidate base suffix)) then some (candidate base suffix) else later

unfoldable pub unique_section_id : List PaperSection → PaperSectionKind → Option Text
unfolding section_id next_free
unique_section_id sections kind =
    let base = section_id kind in
    if not (has_id sections base)
    then some base
    else next_free (length sections + 1) sections base 2

-- Between the lines, a line feed: `join("\n")`.
abbrev join_lines : List Text → Text
join_lines [] = []
join_lines (x ∷ []) = x
join_lines (x ∷ y ∷ ys) = x ++ (b'\n' ∷ join_lines (y ∷ ys))

unfoldable pub collapse_lines : List Text → Text
collapse_lines lines = trim (join_lines lines)

-- The section that is open: its heading, kind and lines.
abbrev pub Current : Type 0
Current = Option (Text × (PaperSectionKind × List Text))

-- `none` where the ids run out of fuel.
unfoldable pub flush_section : List PaperSection → Current → Option (List PaperSection × Current)
unfolding unique_section_id collapse_lines
flush_section sections none = some (sections, none)
flush_section sections (some (heading, (kind, lines))) = unique_section_id sections kind >>= λ id.
    some
      (sections ++ section id heading (some kind) 1 (collapse_lines lines) no_sections ∷ [], none)
