-- ===== src/Hits.antt =====
-- Search hits (`PaperHit` of src/models.rs): identity keys, merging, deduplication and ranking data.
-- `F32` is the type of the scores.
pub mod Dedupe
pub mod Keys
pub mod Merge
pub mod Unique
pub mod Cached
pub mod Enrich
pub mod Match
use paperbridge.Prelude.{
  Bool, List, Option, [], false, if◌then◌else◌, is_empty, is_some, none, not, retain, some, ℕ, ◌&&◌,
  ◌++◌, ◌||◌, ◌∷◌,
}
use paperbridge.Text.{Text, codes, eq_text, is_whitespace, split_whitespace, trim}
use paperbridge.Identifiers.{Lowercase}

pub data PaperSource : Type 0 where
  arxiv research paperseed hugging_face semantic_scholar crossref open_alex europe_pmc dblp
        open_review :
      PaperSource
  core ads pubmed scholar_api open_library : PaperSource

pub data WorkType : Type 0 where
  paper book chapter : WorkType

pub data MatchKind : Type 0 where
  exact_id exact_title phrase matching_tokens weak : MatchKind

pub data ContentState : Type 0 where
  ready metadata_only queued stale failed : ContentState

pub record HitTruncation : Type 0 where
  pub title : Bool
  pub authors : Bool

pub record CachedPaperSummary : Type 0 where
  pub paper_id : Text
  pub cached : Bool
  pub has_full_text : Bool
  pub yams_indexed : Bool

pub record PaperIds : Type 0 where
  pub doi : Option Text
  pub arxiv : Option Text
  pub pmid : Option Text
  pub zotero_key : Option Text
  pub paper_id : Option Text
  pub research_hash : Option Text
  pub isbn : Option Text
  pub openlibrary_id : Option Text

pub record AccessInfo : Type 0 where
  pub pdf : Bool
  pub cached : Bool
  pub full_text : Bool
  pub content_state : Option ContentState

pub record MatchInfo (F32 : Type 0) : Type 0 where
  pub kind : MatchKind
  pub score : Option F32

pub record Hit (F32 : Type 0) : Type 0 where
  pub hit_id : Option Text
  pub source : PaperSource
  pub title : Text
  pub truncation : Option HitTruncation
  pub authors : List Text
  pub year : Option Text
  pub doi : Option Text
  pub arxiv_id : Option Text
  pub pmid : Option Text
  pub abstract_note : Option Text
  pub url : Option Text
  pub pdf_url : Option Text
  pub oa_pdf_url : Option Text
  pub venue : Option Text
  pub citation_count : Option ℕ
  pub cache : Option CachedPaperSummary
  pub relevance_score : Option F32
  pub ids : Option PaperIds
  pub match_info : Option (MatchInfo F32)
  pub access : Option AccessInfo
  pub work_type : Option WorkType
  pub isbn : Option Text
  pub next : List Text

-- What the `url` crate finds in a text.
pub record Url : Type 0 where
  pub scheme : Text
  pub host : Option Text
  pub username : Text
  pub password : Option Text

-- The Unicode tables and the parser of URLs.
pub record Platform : Type 0 where
  pub lowercase : Lowercase
  pub is_alphanumeric : ℕ → Bool
  pub parse_url : Text → Option Url

-- Between the words that are not empty, one space: `split_whitespace` and `join(" ")`.
abbrev pub join_words : List Text → Text
join_words [] = []
join_words (x ∷ []) = x
join_words (x ∷ y ∷ ys) = x ++ (codes " " ++ join_words (y ∷ ys))

-- `filter` of an option.
abbrev pub keep_if : (Text → Bool) → Option Text → Option Text
keep_if p none = none
keep_if p (some s) = if p s then some s else none

abbrev pub not_empty : Text → Bool
not_empty s = not (is_empty s)

module _ (p : Platform) where
  -- `normalize_text_key` of src/external/mod.rs, and `normalize` of src/hit_enrich.rs.
  unfoldable pub normalize_text_key : Text → Text
  normalize_text_key raw = join_words (
      split_whitespace (
        retain (λ c. p.is_alphanumeric c || is_whitespace c) (p.lowercase.to_lowercase (trim raw))))

  unfoldable pub is_usable_url : Option Url → Bool
  is_usable_url none = false
  is_usable_url (some url) =
      (eq_text url.scheme (codes "http") || eq_text url.scheme (codes "https"))
      && (is_some url.host && (is_empty url.username && not (is_some url.password)))

  unfoldable pub usable_http_url : Text → Bool
  unfolding is_usable_url
  usable_http_url raw = is_usable_url (p.parse_url raw)
