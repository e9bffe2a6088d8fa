-- ===== src/Hits/Match.antt =====
-- How a hit matches a query: `PreparedQuery`, `classify_match` and `enrich_match` of
-- src/hit_enrich.rs. The five scores are a function of the kind.
pub mod Kinds
use paperbridge.Prelude.{
  Bool, List, Option, false, if◌then◌else◌, is_empty, leb, length, none, not, retain, some, ◌&&◌,
  ◌*◌, ◌==◌, ◌>>=◌, ◌||◌, [], ◌∷◌,
}
use paperbridge.Text.{Text, contains, eq_text, split_whitespace}
use paperbridge.Book.Isbn.{normalize_isbn}
use paperbridge.Identifiers.{normalize_doi_str}
use paperbridge.Identifiers.Arxiv.{normalize_arxiv_str}
use paperbridge.Hits.{
  Hit, MatchKind, Platform, exact_id, exact_title, matching_tokens, normalize_text_key, phrase,
  weak,
}

pub record PreparedQuery : Type 0 where
  pub normalized : Text
  pub doi : Option Text
  pub arxiv_id : Option Text
  pub isbn : Option Text

abbrev pub prepare : Platform → Text → PreparedQuery
prepare p query = record {
  normalized = normalize_text_key p query;
  doi = normalize_doi_str p.lowercase query;
  arxiv_id = normalize_arxiv_str p.lowercase query;
  isbn = normalize_isbn query;
}

-- Both have an id, and the ids are equal.
abbrev pub same_id : Option Text → Option Text → Bool
same_id (some a) (some b) = eq_text a b
same_id (some a) none = false
same_id none b = false

abbrev is_member : List Text → Text → Bool
is_member [] t = false
is_member (u ∷ us) t = eq_text t u || is_member us t

-- The branches on tokens.
unfoldable pub token_kind : List Text → List Text → MatchKind
token_kind q_tokens t_tokens =
    let matches = length (retain (is_member t_tokens) q_tokens) in
    if not (is_empty q_tokens)
      && (matches == length q_tokens || leb (length q_tokens) (matches * 2))
    then matching_tokens
    else weak

unfoldable pub title_kind : Text → Text → MatchKind
unfolding token_kind
title_kind q title =
    if not (is_empty title) && eq_text title q
    then exact_title
    else if not (is_empty title) && (contains q title && leb 2 (length (split_whitespace q)))
    then phrase
    else token_kind (split_whitespace q) (split_whitespace title)

module _ (p : Platform) {F32 : Type 0} where
  abbrev pub same_ids : PreparedQuery → Hit F32 → Bool
  same_ids prep hit =
      same_id prep.doi (hit.doi >>= normalize_doi_str p.lowercase)
      || (same_id prep.arxiv_id (hit.arxiv_id >>= normalize_arxiv_str p.lowercase)
          || same_id prep.isbn (hit.isbn >>= normalize_isbn))

  unfoldable pub classify_match : PreparedQuery → Hit F32 → MatchKind
  unfolding title_kind
  classify_match prep hit =
      if is_empty prep.normalized
      then weak
      else if same_ids prep hit
      then exact_id
      else title_kind prep.normalized (normalize_text_key p hit.title)

  unfoldable pub enrich_match : (MatchKind → F32) → Hit F32 → Text → Hit F32
  unfolding classify_match
  enrich_match score hit query =
      let kind = classify_match (prepare p query) hit in
      record hit { match_info = some (record { kind = kind; score = some (score kind) }) }
