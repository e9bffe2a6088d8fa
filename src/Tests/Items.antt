-- ===== src/Tests/Items.antt =====
-- Requests on items, and a DOI, in ASCII.
use paperbridge.Prelude.{[], arith, false, map, none, refl, some, true, ◌++◌, ◌↔◌, ◌∷◌, ◌≡◌, ◌⊎◌}
use paperbridge.Text.{
  Text, ascii_lower, byte_len, codes, is_whitespace, len_utf8, push_trimmed, split_once, trim,
  trim_end, trim_start,
}
use paperbridge.Identifiers.{
  Lowercase, checked_doi, is_doi_parts, normalize_doi_str, strip_doi_prefix, strip_scheme,
}
use paperbridge.Identifiers.Doi.{IsDoi, normalize_doi_str_canonical}
use paperbridge.Identifiers.Arxiv.{
  IsLegacy, IsModern, around_last, checked_arxiv, is_legacy, is_modern, normalize_arxiv_str,
  normalize_arxiv_str_sound, strip_arxiv_prefix, strip_arxiv_version,
}
use paperbridge.Validation.{
  ItemUpdateRequest, ItemWriteRequest, looks_like_doi, validate_doi, validate_item_request,
  validate_item_update_request,
}
use paperbridge.Validation.Acceptable.{IsItem, IsItemUpdate}
use paperbridge.Validation.Items.{validate_item_request_iff, validate_item_update_request_iff}
use paperbridge.Validation.Dois.{looks_like_doi-normalize_doi_str}

pub lower_idem : (s : Text) → map ascii_lower (map ascii_lower s) ≡ map ascii_lower s
unfolding ascii_lower
lower_idem [] = refl
lower_idem (c ∷ s) = ground (arith, lower_idem s)

lower_front : (s after : Text) → map ascii_lower (s ++ after) ≡ s ++ after → map ascii_lower s ≡ s
lower_front [] after h = refl
lower_front (c ∷ s) after h = ground (arith, lower_front s after)

pub lower_part :
    (before s after : Text)
    → map ascii_lower (before ++ (s ++ after)) ≡ before ++ (s ++ after)
    → map ascii_lower s ≡ s
lower_part [] s after h = lower_front s after h
lower_part (c ∷ before) s after h = lower_part before s after (ground arith)

abbrev pub ascii_lowercase : Lowercase
ascii_lowercase = record {
  to_lowercase = λ s. map ascii_lower s;
  lower_idem = lower_idem;
  lower_part = lower_part;
}

abbrev raw_doi : Text
raw_doi = codes " https://doi.org/10.1000/X1"

abbrev doi : Text
doi = codes "10.1000/x1"

normalized : normalize_doi_str ascii_lowercase raw_doi ≡ some doi
unfolding normalize_doi_str checked_doi is_doi_parts strip_doi_prefix strip_scheme trim trim_start
    trim_end push_trimmed is_whitespace ascii_lower split_once
normalized = refl

normalize_doi_str_canonical_example : IsDoi doi × (normalize_doi_str ascii_lowercase doi ≡ some doi)
normalize_doi_str_canonical_example =
    normalize_doi_str_canonical ascii_lowercase raw_doi {n = doi} normalized

looks_like_doi-normalize_doi_str_example :
    (looks_like_doi ascii_lowercase raw_doi ≡ true)
    × (validate_doi ascii_lowercase (some raw_doi) ≡ [])
looks_like_doi-normalize_doi_str_example =
    looks_like_doi-normalize_doi_str ascii_lowercase raw_doi {n = doi} normalized

abbrev article : ItemWriteRequest
article = record {
  item_type = codes "journalArticle";
  title = some (codes "On parsing");
  creators =
      record {
        creator_type = codes "author";
        first_name = some (codes "Ada");
        last_name = some (codes "Byron");
        name = none;
      }
      ∷ [];
  abstract_note = none;
  date = none;
  url = none;
  doi = some raw_doi;
  isbn = none;
  tags = record { tag = codes " "; tag_type = none } ∷ [];
  collections = [];
  extra = none;
  parent_item = none;
}

validate_item_request_iff_example :
    ((validate_item_request ascii_lowercase article).valid ≡ true) ↔ IsItem article
validate_item_request_iff_example = validate_item_request_iff ascii_lowercase article

abbrev retitled : ItemUpdateRequest
retitled = record {
  key = codes "ABCD2345";
  version = some 7;
  item_type = none;
  title = some (codes "On parsing papers");
  creators = none;
  abstract_note = none;
  date = none;
  url = none;
  doi = none;
  isbn = none;
  tags = none;
  collections = none;
  extra = none;
  parent_item = none;
  clear_parent = false;
}

validate_item_update_request_iff_example :
    ((validate_item_update_request ascii_lowercase retitled).valid ≡ true) ↔ IsItemUpdate retitled
validate_item_update_request_iff_example = validate_item_update_request_iff ascii_lowercase retitled

abbrev arxiv : Text
arxiv = codes "2401.12345"

arxiv_normalized : normalize_arxiv_str ascii_lowercase (codes "arXiv:2401.12345v2") ≡ some arxiv
unfolding normalize_arxiv_str checked_arxiv is_modern is_legacy strip_arxiv_prefix
    strip_arxiv_version around_last strip_scheme trim trim_start trim_end push_trimmed is_whitespace
    ascii_lower split_once byte_len len_utf8
arxiv_normalized = refl

normalize_arxiv_str_sound_example : IsModern arxiv ⊎ IsLegacy arxiv
normalize_arxiv_str_sound_example =
    normalize_arxiv_str_sound ascii_lowercase (codes "arXiv:2401.12345v2") {n = arxiv}
      arxiv_normalized
