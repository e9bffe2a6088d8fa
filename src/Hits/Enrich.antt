-- ===== src/Hits/Enrich.antt =====
-- `enrich_hit_identity` of src/hit_enrich.rs: the stable id of a hit, its identifiers, its access and
-- what may be called next.
pub mod Hash
pub mod Idempotent
use paperbridge.Prelude.{
  Bool, List, Option, [], all, false, if◌then◌else◌, is_some, none, option_or, some, true, ◌&&◌,
  ◌++◌, ◌>>=◌, ◌||◌, ◌∷◌,
}
use paperbridge.Text.{Text, codes, is_ascii_digit, strip_prefix, trim}
use paperbridge.Book.Isbn.{normalize_isbn}
use paperbridge.Identifiers.{normalize_doi_str}
use paperbridge.Identifiers.Arxiv.{normalize_arxiv_str}
use paperbridge.Hits.{
  AccessInfo, CachedPaperSummary, ContentState, Hit, PaperSource, Platform, WorkType, arxiv, book,
  chapter, keep_if, not_empty, paper, ready, research, stale, usable_http_url,
}
use paperbridge.Hits.Enrich.Hash.{short_hash}

-- `strip_prefix("research:")` of the id, unless nothing is left.
abbrev pub hash_in : Option Text → Option Text
hash_in none = none
hash_in (some id) = keep_if not_empty (strip_prefix (codes "research:") id)

abbrev digits_of : Option Text → Option Text
digits_of none = none
digits_of (some s) = keep_if (λ t. not_empty t && all is_ascii_digit t) (some (trim s))

abbrev cached_paper_id : Option CachedPaperSummary → Option Text
cached_paper_id none = none
cached_paper_id (some c) = keep_if (λ t. not_empty (trim t)) (some c.paper_id)

abbrev cache_flag : (CachedPaperSummary → Bool) → Option CachedPaperSummary → Bool
cache_flag f none = false
cache_flag f (some c) = f c

abbrev access_flag : (AccessInfo → Bool) → Option AccessInfo → Bool
access_flag f none = false
access_flag f (some a) = f a

abbrev state_of : Option AccessInfo → Option ContentState
state_of none = none
state_of (some a) = a.content_state

abbrev is_research : PaperSource → Bool
is_research research = true
is_research _ = false

abbrev unless_chapter : Option WorkType → Option Text → Option Text
unless_chapter (some chapter) isbn = none
unless_chapter (some paper) isbn = isbn
unless_chapter (some book) isbn = isbn
unless_chapter none isbn = isbn

-- `if let Some(x) = … { format!("prefix{x}") } else { … }`.
abbrev or_prefixed : Text → Option Text → Text → Text
or_prefixed prefix none later = later
or_prefixed prefix (some x) later = prefix ++ x

abbrev default_state : Bool → PaperSource → Option ContentState
default_state full_text source =
    if is_research source then some (if full_text then ready else stale) else none

module _ (p : Platform) {F32 : Type 0} where
  abbrev pub open_url : Hit F32 → Option Text
  open_url hit =
      option_or (keep_if (usable_http_url p) hit.oa_pdf_url)
        (option_or (keep_if (usable_http_url p) hit.pdf_url) (keep_if (usable_http_url p) hit.url))

  abbrev pub minted_id : Hit F32 → Option Text → Text
  minted_id hit research_hash = or_prefixed (codes "research:") research_hash (
      or_prefixed (codes "arxiv:") (hit.arxiv_id >>= normalize_arxiv_str p.lowercase) (
        or_prefixed (codes "doi:") (hit.doi >>= normalize_doi_str p.lowercase) (
          or_prefixed (codes "isbn:") (unless_chapter hit.work_type (hit.isbn >>= normalize_isbn)) (
            or_prefixed (codes "paperseed:") (cached_paper_id hit.cache) (
              or_prefixed (codes "url:") (open_url hit) (
                or_prefixed (codes "pmid:") (digits_of hit.pmid)
                  (codes "title:" ++ short_hash hit.title)))))))

  abbrev pub merged_access : Hit F32 → AccessInfo
  merged_access hit =
      let full_text =
        access_flag (λ a. a.full_text) hit.access || cache_flag (λ c. c.has_full_text) hit.cache in
      record {
        pdf =
            access_flag (λ a. a.pdf) hit.access
            || (is_some (keep_if (usable_http_url p) hit.pdf_url)
                || is_some (keep_if (usable_http_url p) hit.oa_pdf_url));
        cached = access_flag (λ a. a.cached) hit.access || cache_flag (λ c. c.cached) hit.cache;
        full_text = full_text;
        content_state = option_or (state_of hit.access) (default_state full_text hit.source);
      }

  abbrev pub next_calls : Hit F32 → Option Text → AccessInfo → List Text
  next_calls hit research_hash access =
      let doi = hit.doi >>= normalize_doi_str p.lowercase in
      let arxiv_id = hit.arxiv_id >>= normalize_arxiv_str p.lowercase in
      if (access.cached || access.full_text)
        && (is_some (cached_paper_id hit.cache) || is_some research_hash)
      then codes "open_paper" ∷ codes "get_paper_structure" ∷ []
      else if is_some (open_url hit)
          || (is_some doi || (is_some arxiv_id || is_some (hit.isbn >>= normalize_isbn)))
      then codes "open_paper" ∷ (if is_some doi then codes "resolve_doi" ∷ [] else [])
      else []

  -- The body behind the first statement, with the access it computes.
  abbrev pub with_access : Hit F32 → Option Text → AccessInfo → Hit F32
  with_access hit research_hash merged = record hit {
    ids = some (record {
      doi = hit.doi >>= normalize_doi_str p.lowercase;
      arxiv = hit.arxiv_id >>= normalize_arxiv_str p.lowercase;
      pmid = digits_of hit.pmid;
      zotero_key = none;
      paper_id = cached_paper_id hit.cache;
      research_hash = research_hash;
      isbn = hit.isbn >>= normalize_isbn;
      openlibrary_id = none;
    });
    hit_id = some (minted_id hit research_hash);
    access = some merged;
    next = next_calls hit research_hash merged;
  }

  unfoldable pub mint : Hit F32 → Option Text → Hit F32
  mint hit research_hash = with_access hit research_hash (merged_access hit)

  unfoldable pub enrich_hit_identity : Hit F32 → Hit F32
  unfolding mint
  enrich_hit_identity hit = mint hit (hash_in hit.hit_id)
