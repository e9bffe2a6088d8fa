-- ===== src/Hits/Merge.antt =====
-- `merge_hit_metadata` of src/external/mod.rs.
use paperbridge.Prelude.{
  All, Bool, Bool-cases, List, Option, [], append-nil, append_assoc, arith, false, if◌then◌else◌,
  inl, inr, max, none, not, option_or, refl, some, sym, true, ℕ, ◌&&◌, ◌++◌, ◌>>=◌, ◌||◌, ◌∙◌, ◌∷◌,
  ◌≡◌,
}
use paperbridge.Text.{Text, eq_text, trim}
use paperbridge.Text.Prefix.{eq_text_refl}
use paperbridge.Book.Isbn.{normalize_isbn}
use paperbridge.Hits.{
  AccessInfo, Hit, Platform, keep_if, normalize_text_key, not_empty, usable_http_url,
}

-- `take().filter(|s| !s.trim().is_empty())`.
abbrev pub unless_blank : Option Text → Option Text
unless_blank = keep_if (λ s. not_empty (trim s))

-- The larger of two counts, where none is the least.
abbrev max_count : Option ℕ → Option ℕ → Option ℕ
max_count none b = b
max_count (some a) none = some a
max_count (some a) (some b) = some (max a b)

module _ (p : Platform) where
  abbrev usable : Option Text → Bool
  usable none = false
  usable (some url) = usable_http_url p url

  -- An URL that can be opened is preferred to a local path.
  unfoldable pub merge_pdf_url : Option Text → Option Text → Option Text
  merge_pdf_url kept other =
      if not (usable kept) && usable other then other else option_or kept other

  abbrev pub same_author : Text → Text → Bool
  same_author a b = eq_text (normalize_text_key p a) (normalize_text_key p b)

  abbrev pub known_author : Text → List Text → Bool
  known_author author [] = false
  known_author author (a ∷ authors) = same_author a author || known_author author authors

  -- The loop over the other record's authors.
  unfoldable pub merge_authors : List Text → List Text → List Text
  merge_authors kept [] = kept
  merge_authors kept (author ∷ others) =
      merge_authors (if known_author author kept then kept else kept ++ author ∷ []) others

abbrev merge_access : Option AccessInfo → Option AccessInfo → Option AccessInfo
merge_access kept none = kept
merge_access none (some access) = some access
merge_access (some existing) (some access) = some (record {
  pdf = existing.pdf || access.pdf;
  cached = existing.cached || access.cached;
  full_text = existing.full_text || access.full_text;
  content_state = option_or existing.content_state access.content_state;
})

module _ (p : Platform) {F32 : Type 0} where
  unfoldable pub merge_hit_metadata : Hit F32 → Hit F32 → Hit F32
  unfolding merge_pdf_url merge_authors
  merge_hit_metadata kept other = record kept {
    doi = option_or (unless_blank kept.doi) other.doi;
    arxiv_id = option_or (unless_blank kept.arxiv_id) other.arxiv_id;
    pmid = option_or (unless_blank kept.pmid) other.pmid;
    isbn =
        option_or
          (option_or (option_or (kept.isbn >>= normalize_isbn) (other.isbn >>= normalize_isbn))
            kept.isbn)
          other.isbn;
    work_type = option_or kept.work_type other.work_type;
    year = option_or kept.year other.year;
    abstract_note = option_or kept.abstract_note other.abstract_note;
    url = option_or kept.url other.url;
    pdf_url = merge_pdf_url p kept.pdf_url other.pdf_url;
    oa_pdf_url = option_or kept.oa_pdf_url other.oa_pdf_url;
    venue = option_or kept.venue other.venue;
    citation_count = max_count kept.citation_count other.citation_count;
    cache = option_or kept.cache other.cache;
    relevance_score = option_or kept.relevance_score other.relevance_score;
    authors = merge_authors p kept.authors other.authors;
    access = merge_access kept.access other.access;
  }

-- No author is lost: each of both records has the key of one in the merged list.
module _ (p : Platform) where
  known_author-append :
      (author : Text) (xs ys : List Text)
      → known_author p author xs ≡ true
      → known_author p author (xs ++ ys) ≡ true
  known_author-append author [] ys h = cc
  known_author-append author (x ∷ xs) ys h = ground (arith, known_author-append author xs ys)

  known_author-last :
      (author : Text) (xs : List Text) → known_author p author (xs ++ author ∷ []) ≡ true
  known_author-last author [] = ground (arith, eq_text_refl (normalize_text_key p author))
  known_author-last author (x ∷ xs) = ground (arith, known_author-last author xs)

  merge_authors-kept :
      (author : Text) (kept others : List Text)
      → known_author p author kept ≡ true
      → known_author p author (merge_authors p kept others) ≡ true
  unfolding merge_authors
  merge_authors-kept author kept [] h = h
  merge_authors-kept author kept (o ∷ others) h = elim (Bool-cases (known_author p o kept)) [
    | inl known ↦ rw known (merge_authors-kept author kept others h)
    | inr new ↦ rw new (
        merge_authors-kept author (kept ++ o ∷ []) others
          (known_author-append author kept (o ∷ []) h))
  ]

  merge_authors-others :
      (kept others : List Text)
      → All (λ a. known_author p a (merge_authors p kept others) ≡ true) others
  unfolding merge_authors
  merge_authors-others kept [] = tt
  merge_authors-others kept (o ∷ others) =
      let next = if known_author p o kept then kept else kept ++ o ∷ [] in
      let here : known_author p o next ≡ true = elim (Bool-cases (known_author p o kept)) [
        | inl known ↦ rw known known
        | inr new ↦ rw new (known_author-last o kept)
      ] in
      (merge_authors-kept o next others here, merge_authors-others next others)

  -- The authors in front stay as they are.
  merge_authors-prefix :
      (kept others : List Text)
      → (added : List Text) × (merge_authors p kept others ≡ kept ++ added)
  unfolding merge_authors
  merge_authors-prefix kept [] = ([], sym (append-nil kept))
  merge_authors-prefix kept (o ∷ others) = elim (Bool-cases (known_author p o kept)) [
    | inl known ↦ rw known (merge_authors-prefix kept others)
    | inr new ↦
        let (added, e) = merge_authors-prefix (kept ++ o ∷ []) others in
        rw new (o ∷ added, e ∙ append_assoc kept (o ∷ []) added)
  ]

abbrev pub HasText : Option Text → Type 0
HasText none = ⊥
HasText (some s) = not_empty (trim s) ≡ true

-- An identifier that either record has, the merged record has: the kept record's, if it has one.
abbrev pub IdKept : Option Text → Option Text → Option Text → Type 0
IdKept kept other merged = (HasText kept → merged ≡ kept) × ((HasText kept → ⊥) → merged ≡ other)

option_or-IdKept :
    (kept other : Option Text) → IdKept kept other (option_or (unless_blank kept) other)
option_or-IdKept none other = ((λ h. absurd h), (λ h. refl))
option_or-IdKept (some s) other = ground arith

module _ (p : Platform) {F32 : Type 0} where
  pub record IsMerge (kept other merged : Hit F32) : Type 0 where
    pub doi_kept : IdKept kept.doi other.doi merged.doi
    pub arxiv_kept : IdKept kept.arxiv_id other.arxiv_id merged.arxiv_id
    pub pmid_kept : IdKept kept.pmid other.pmid merged.pmid
    pub title_kept : merged.title ≡ kept.title
    pub source_kept : merged.source ≡ kept.source
    pub authors_first : (added : List Text) × (merged.authors ≡ kept.authors ++ added)
    pub authors_known : All (λ a. known_author p a merged.authors ≡ true) other.authors

  -- A merged hit has the title and the source of the first. It has each of the identifiers (DOI, arXiv,
  -- PMID) of the first where that is not blank, and of the second where it is. Its authors are those of
  -- the first in their order and others behind them, and each author of the second is one of them, up
  -- to case and punctuation.
  pub merge_hit_metadata-IsMerge :
      (kept other : Hit F32) → IsMerge kept other (merge_hit_metadata p kept other)
  unfolding merge_hit_metadata
  merge_hit_metadata-IsMerge kept other = record {
    doi_kept = option_or-IdKept kept.doi other.doi;
    arxiv_kept = option_or-IdKept kept.arxiv_id other.arxiv_id;
    pmid_kept = option_or-IdKept kept.pmid other.pmid;
    title_kept = refl;
    source_kept = refl;
    authors_first = merge_authors-prefix p kept.authors other.authors;
    authors_known = merge_authors-others p kept.authors other.authors;
  }
