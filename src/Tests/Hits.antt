-- ===== src/Tests/Hits.antt =====
-- Hits in ASCII, with URLs of one form and whole numbers as scores.
use paperbridge.Hits.Match.Kinds.{IsPart, NamesId, classify_match-exact}
use paperbridge.Prelude.{
  Bool, List, [], arith, false, if◌then◌else◌, is_empty, length, none, refl, some, true, ℕ, ◌==◌,
  ◌||◌, ◌↔◌, ◌∷◌, ◌≡◌, ◌≤◌, ◌⊎◌, ◌≢◌,
}
use paperbridge.Text.{
  Text, ascii_lower, codes, is_ascii_digit, starts_with, within, split_whitespace,
}
use paperbridge.Tests.Items.{ascii_lowercase}
use paperbridge.Hits.{
  Hit, Platform, crossref, exact_id, exact_title, normalize_text_key, paper, phrase, weak,
}
use paperbridge.Hits.Dedupe.{Identity, dedupe}
use paperbridge.Hits.Dedupe.Idempotent.{dedupe_idem}
use paperbridge.Hits.Unique.{NoneCompatible, dedupe_hits, dedupe_hits-NoneCompatible}
use paperbridge.Hits.Merge.{IsMerge, merge_hit_metadata, merge_hit_metadata-IsMerge}
use paperbridge.Hits.Enrich.{enrich_hit_identity}
use paperbridge.Hits.Enrich.Idempotent.{enrich_hit_identity_idem}
use paperbridge.Hits.Match.{classify_match, prepare}
use paperbridge.Detail.{IsCompact, apply_detail, apply_detail-caps, compact, full, IsCutNote}

abbrev https : Text → Bool
https raw = starts_with (codes "https://") raw

abbrev ascii_platform : Platform
ascii_platform = record {
  lowercase = ascii_lowercase;
  is_alphanumeric = λ c. within b'a' b'z' (ascii_lower c) || is_ascii_digit c;
  parse_url = λ raw.
      if https raw
      then some (record {
        scheme = codes "https";
        host = some (codes "a");
        username = [];
        password = none;
      })
      else none;
}

abbrev hit : Hit ℕ
hit = record {
  hit_id = none;
  source = crossref;
  title = codes "On parsing";
  truncation = none;
  authors = codes "A" ∷ codes "B" ∷ codes "C" ∷ codes "D" ∷ [];
  year = some (codes "2024");
  doi = some (codes "10.1000/x1");
  arxiv_id = none;
  pmid = none;
  abstract_note = some (codes "We parse papers.");
  url = some (codes "https://a/1");
  pdf_url = none;
  oa_pdf_url = none;
  venue = none;
  citation_count = some 3;
  cache = none;
  relevance_score = some 7;
  ids = none;
  match_info = none;
  access = none;
  work_type = some paper;
  isbn = none;
  next = [];
}

abbrev copy : Hit ℕ
copy = record hit { doi = some (codes "https://doi.org/10.1000/X1"); authors = codes "E" ∷ [] }

apply_detail-caps_example :
    IsCompact hit (apply_detail hit compact (some 8))
    × (apply_detail hit full (some 8)
        ≡ record hit { abstract_note = (apply_detail hit full (some 8)).abstract_note })
    × IsCutNote 8 hit.abstract_note (apply_detail hit full (some 8)).abstract_note
apply_detail-caps_example = apply_detail-caps hit (some 8)

dedupe_hits-NoneCompatible_example :
    (after : List (Hit ℕ)) × (dedupe_hits ascii_platform (hit ∷ copy ∷ []) ≡ some after)
    × NoneCompatible ascii_platform after
    × (length after ≤ length (hit ∷ copy ∷ []))
dedupe_hits-NoneCompatible_example = dedupe_hits-NoneCompatible ascii_platform (hit ∷ copy ∷ [])

==_comm : (k l : ℕ) → (k == l) ≡ (l == k)
==_comm k l = ground arith

-- Numbers that are their own keys.
abbrev numbers_alike : Identity ℕ ℕ
numbers_alike = record {
  keys_of = λ n. n;
  compatible = λ k l. k == l;
  merge = λ m n. m;
  compatible_comm = ==_comm;
}

merged_once : dedupe numbers_alike (1 ∷ 2 ∷ 1 ∷ []) ≡ some (1 ∷ 2 ∷ [])
unfolding dedupe
merged_once = refl

dedupe_idem_example : dedupe numbers_alike (1 ∷ 2 ∷ []) ≡ some (1 ∷ 2 ∷ [])
dedupe_idem_example = dedupe_idem numbers_alike (1 ∷ 2 ∷ 1 ∷ []) (1 ∷ 2 ∷ []) merged_once

merge_hit_metadata-IsMerge_example :
    IsMerge ascii_platform hit copy (merge_hit_metadata ascii_platform hit copy)
merge_hit_metadata-IsMerge_example = merge_hit_metadata-IsMerge ascii_platform hit copy

enrich_hit_identity_idem_example :
    enrich_hit_identity ascii_platform (enrich_hit_identity ascii_platform hit)
    ≡ enrich_hit_identity ascii_platform hit
enrich_hit_identity_idem_example = enrich_hit_identity_idem ascii_platform hit

classify_match-exact_example :
    let kind = classify_match ascii_platform (prepare ascii_platform (codes "On Parsing!")) hit in
    let q = normalize_text_key ascii_platform (codes "On Parsing!") in
    let title = normalize_text_key ascii_platform hit.title in
    ((is_empty q ≡ true) × (kind ≡ weak))
    ⊎ ((is_empty q ≡ false)
        × ((kind ≡ exact_id) ↔ NamesId ascii_platform (codes "On Parsing!") hit)
        × ((kind ≡ exact_title)
            ↔ ((¬ NamesId ascii_platform (codes "On Parsing!") hit) × (title ≡ q)))
        × ((kind ≡ phrase) ↔ (
            (¬ NamesId ascii_platform (codes "On Parsing!") hit)
            × (title ≢ q)
            × IsPart q title
            × (2 ≤ length (split_whitespace q)))))
classify_match-exact_example = classify_match-exact ascii_platform (codes "On Parsing!") hit
