-- ===== src/Hits/Keys.antt =====
-- `IdentityKeys` and the normalized keys of src/external/mod.rs.
use paperbridge.Prelude.{
  Bool, List, Option, [], arith, false, if◌then◌else◌, is_empty, none, not, option_or, refl, some,
  true, ◌&&◌, ◌++◌, ◌>>=◌, ◌||◌, ◌∷◌, ◌≡◌,
}
use paperbridge.Text.{Text, codes, eq_text, trim}
use paperbridge.Book.Isbn.{normalize_isbn}
use paperbridge.Identifiers.{normalize_doi_str, strip_doi_prefix}
use paperbridge.Identifiers.Arxiv.{normalize_arxiv_str, strip_arxiv_prefix, strip_arxiv_version}
use paperbridge.Hits.{
  CachedPaperSummary, Hit, PaperIds, Platform, WorkType, book, chapter, keep_if, normalize_text_key,
  not_empty, paper,
}

pub record IdentityKeys : Type 0 where
  pub doi : Option Text
  pub arxiv : Option Text
  pub pmid : Option Text
  pub paper_id : Option Text
  pub isbn : Option Text
  pub is_chapter : Bool
  pub title_author : Option Text

abbrev trimmed : Option Text → Option Text
trimmed none = none
trimmed (some s) = some (trim s)

abbrev is_chapter_type : Option WorkType → Bool
is_chapter_type (some chapter) = true
is_chapter_type (some paper) = false
is_chapter_type (some book) = false
is_chapter_type none = false

abbrev cached_id : Option CachedPaperSummary → Option Text
cached_id none = none
cached_id (some c) = some (trim c.paper_id)

abbrev known_id : Option PaperIds → Option Text
known_id none = none
known_id (some ids) = trimmed ids.paper_id

module _ (p : Platform) where
  -- `normalize_doi_key`, and the canonical or stripped arXiv id.
  unfoldable pub normalize_doi_key : Text → Option Text
  normalize_doi_key raw =
      keep_if not_empty
        (option_or (normalize_doi_str p.lowercase raw) (some (strip_doi_prefix p.lowercase raw)))

  unfoldable pub normalize_arxiv_key : Text → Option Text
  normalize_arxiv_key raw = keep_if not_empty (
      option_or (normalize_arxiv_str p.lowercase raw)
        (some (strip_arxiv_version (strip_arxiv_prefix p.lowercase raw))))

  -- The key of a title and its first author; empty if either is.
  unfoldable pub title_authors_key : Text → List Text → Text
  title_authors_key title [] = []
  title_authors_key title (first ∷ rest) =
      let t = normalize_text_key p title in
      let a = normalize_text_key p first in
      if is_empty t || is_empty a then [] else t ++ (codes "||" ++ a)

module _ (p : Platform) {F32 : Type 0} where
  unfoldable pub keys_of : Hit F32 → IdentityKeys
  unfolding normalize_doi_key normalize_arxiv_key title_authors_key
  keys_of hit = record {
    doi = hit.doi >>= normalize_doi_key p;
    arxiv = hit.arxiv_id >>= normalize_arxiv_key p;
    pmid = keep_if not_empty (trimmed hit.pmid);
    paper_id =
        option_or (keep_if not_empty (cached_id hit.cache)) (keep_if not_empty (known_id hit.ids));
    isbn = hit.isbn >>= normalize_isbn;
    is_chapter = is_chapter_type hit.work_type;
    title_author = keep_if not_empty (some (title_authors_key p hit.title hit.authors));
  }

-- `conflict` and `shared`.
abbrev pub conflict : Option Text → Option Text → Bool
conflict (some a) (some b) = not (eq_text a b)
conflict (some a) none = false
conflict none b = false

abbrev pub shared : Option Text → Option Text → Bool
shared (some a) (some b) = eq_text a b
shared (some a) none = false
shared none b = false

unfoldable pub compatible : IdentityKeys → IdentityKeys → Bool
compatible k l =
    if conflict k.doi l.doi || (conflict k.arxiv l.arxiv || conflict k.pmid l.pmid)
    then false
    else (not k.is_chapter && (not l.is_chapter && shared k.isbn l.isbn))
      || (shared k.doi l.doi
          || (shared k.arxiv l.arxiv
              || (shared k.pmid l.pmid
                  || (shared k.paper_id l.paper_id || shared k.title_author l.title_author))))

eq_text_comm : (s t : Text) → eq_text s t ≡ eq_text t s
eq_text_comm [] [] = refl
eq_text_comm [] (d ∷ t) = refl
eq_text_comm (c ∷ s) [] = refl
eq_text_comm (c ∷ s) (d ∷ t) = ground (arith, eq_text_comm s t)

conflict_comm : (a b : Option Text) → conflict a b ≡ conflict b a
conflict_comm none none = refl
conflict_comm none (some b) = refl
conflict_comm (some a) none = refl
conflict_comm (some a) (some b) = rw (eq_text_comm a b) refl

shared_comm : (a b : Option Text) → shared a b ≡ shared b a
shared_comm none none = refl
shared_comm none (some b) = refl
shared_comm (some a) none = refl
shared_comm (some a) (some b) = eq_text_comm a b

-- Whether two hits describe the same work does not depend on their order.
pub compatible_comm : (k l : IdentityKeys) → compatible k l ≡ compatible l k
unfolding compatible
compatible_comm k l = ground (
  arith,
  conflict_comm k.doi l.doi,
  conflict_comm k.arxiv l.arxiv,
  conflict_comm k.pmid l.pmid,
  shared_comm k.isbn l.isbn,
  shared_comm k.doi l.doi,
  shared_comm k.arxiv l.arxiv,
  shared_comm k.pmid l.pmid,
  shared_comm k.paper_id l.paper_id,
  shared_comm k.title_author l.title_author,
)
