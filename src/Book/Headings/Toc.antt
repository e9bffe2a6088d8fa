-- ===== src/Book/Headings/Toc.antt =====
-- `partition_toc_and_body_candidates` and `extract_toc_from_text` of src/book/mod.rs, from the
-- candidate headings on.
pub mod Order
pub mod Chapters
pub mod Once
use paperbridge.Prelude.{
  Bool, List, Option, [], drop, false, if◌then◌else◌, is_empty, leb, length, ltb, map, max, none,
  retain, some, take, true, ℕ, ◌&&◌, ◌++◌, ◌-◌, ◌==◌, ◌>>=◌, ◌||◌, ◌∷◌,
}
use paperbridge.Text.{Text}
use paperbridge.Book.Headings.{CandidateHeading}
use paperbridge.Book.Headings.Monotonic.{filter_monotonic_candidates}
use paperbridge.Book.Headings.Collect.{collect_raw_candidate_headings}

-- `BookChapter`: the id, the number, the title, the first and the last page, and the subsections.
mutual
  pub data BookChapter : Type 0 where
    book_chapter : Text → Option ℕ → Text → Option ℕ → Option ℕ → Subsections → BookChapter

  pub data Subsections : Type 0 where
    no_more : Subsections
    and_then : BookChapter → Subsections → Subsections

pub record BookToc : Type 0 where
  pub isbn : Option Text
  pub title : Text
  pub authors : List Text
  pub total_chapters : Option ℕ
  pub chapters : List BookChapter

-- `windows(2).all(…)`.
abbrev pub all_pairs {ℓ} : {A : Type ℓ} → (A → A → Bool) → List A → Bool
all_pairs p [] = true
all_pairs p (x ∷ []) = true
all_pairs p (x ∷ y ∷ ys) = let later = all_pairs p (y ∷ ys) in p x y && later

abbrev pub strictly_increasing : List CandidateHeading → Bool
strictly_increasing = all_pairs (λ a b. ltb a.number b.number)

abbrev pub closely_spaced : List CandidateHeading → Bool
closely_spaced = all_pairs (λ a b. leb (b.byte_offset - a.byte_offset) 600)

-- The loop that looks for the restart, behind the candidates in `prior`.
unfoldable pub restart : List CandidateHeading → ℕ → List CandidateHeading → Option ℕ
restart prior max_seen [] = none
restart prior max_seen (c ∷ cs) =
    let later =
      restart (prior ++ c ∷ []) (if ltb max_seen c.number then c.number else max_seen) cs in
    if ltb 0 max_seen
      && (ltb c.number max_seen && leb 2 (length prior))
      && (strictly_increasing prior && closely_spaced prior)
    then some (length prior)
    else later

abbrev pub split_at :
    List CandidateHeading → Option ℕ → List CandidateHeading × List CandidateHeading
split_at candidates none = ([], candidates)
split_at candidates (some i) = (take i candidates, drop i candidates)

unfoldable pub partition_toc_and_body_candidates :
    List CandidateHeading → List CandidateHeading × List CandidateHeading
unfolding restart
partition_toc_and_body_candidates raw =
    if ltb (length raw) 3 then ([], raw) else split_at raw (restart [] 0 raw)

-- `max` of the numbers, 0 of none.
abbrev pub max_number : List CandidateHeading → ℕ
max_number [] = 0
max_number (c ∷ cs) = max c.number (max_number cs)

-- The list from which the chapters are made.
unfoldable pub toc_candidates : List CandidateHeading → Option (List CandidateHeading)
unfolding partition_toc_and_body_candidates
toc_candidates raw =
    let toc = (partition_toc_and_body_candidates raw).0 in
    filter_monotonic_candidates (partition_toc_and_body_candidates raw).1 >>= λ body.
    some (if is_empty toc then body else toc ++ retain (λ c. ltb (max_number toc) c.number) body)

abbrev pub number_seen : ℕ → List ℕ → Bool
number_seen n [] = false
number_seen n (m ∷ ms) = n == m || number_seen n ms

-- `seen_numbers.insert(c.number)`: the first candidate of each number.
unfoldable pub first_of_each : List ℕ → List CandidateHeading → List CandidateHeading
first_of_each seen [] = []
first_of_each seen (c ∷ cs) =
    let known = number_seen c.number seen in
    let rest = first_of_each (if known then seen else c.number ∷ seen) cs in
    if known then rest else c ∷ rest

abbrev pub chapter_of : CandidateHeading → BookChapter
chapter_of c = book_chapter c.id c.chapter_number c.title none none no_more

unfoldable pub toc_from_candidates : Text → Option Text → List CandidateHeading → Option BookToc
unfolding toc_candidates first_of_each
toc_from_candidates title isbn raw = toc_candidates raw >>= λ candidates.
    let chapters = map chapter_of (first_of_each [] candidates) in
    some (record {
      isbn = isbn;
      title = title;
      authors = [];
      total_chapters = some (length chapters);
      chapters = chapters;
    })

-- `extract_toc_from_text`.
unfoldable pub extract_toc_from_text : Text → Option Text → Text → Option BookToc
unfolding toc_from_candidates
extract_toc_from_text title isbn content =
    toc_from_candidates title isbn (collect_raw_candidate_headings content)
