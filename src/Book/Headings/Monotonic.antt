-- ===== src/Book/Headings/Monotonic.antt =====
-- `filter_monotonic_candidates` of src/book/mod.rs: the longest run of headings in the order of their
-- numbers, by dynamic programming. A `Row` holds the heading, `dp` and `parent` of one index.
pub mod Table
pub mod Way
pub mod Longest
use paperbridge.Prelude.{
  List, Option, [], get_elem?, if◌then◌else◌, is_empty, leb, length, none, some, suc, zero, ℕ, ◌&&◌,
  ◌++◌, ◌+◌, ◌>>=◌, ◌∷◌, reverse,
}
use paperbridge.Book.Headings.{CandidateHeading}

pub record Row : Type 0 where
  pub heading : CandidateHeading
  pub len : ℕ
  pub parent : Option ℕ

-- `dp[i]` and `parent[i]`.
pub record Cell : Type 0 where
  pub len : ℕ
  pub parent : Option ℕ

abbrev pub alone : Cell
alone = record { len = 1; parent = none }

-- The inner loop, from `j` on: the rows before `i`, and what is known of row `i`.
unfoldable pub scan : ℕ → List Row → ℕ → Cell → Cell
scan number [] j cell = cell
scan number (r ∷ rows) j cell =
    let improved : Cell = record { len = r.len + 1; parent = some j } in
    scan number rows (suc j)
      (if leb r.heading.number number && leb cell.len (r.len + 1) then improved else cell)

-- The outer loop.
unfoldable pub fill_rows : List Row → List CandidateHeading → List Row
unfolding scan
fill_rows rows [] = rows
fill_rows rows (c ∷ cs) =
    let cell = scan c.number rows 0 alone in
    fill_rows (rows ++ record { heading = c; len = cell.len; parent = cell.parent } ∷ []) cs

-- The loop that looks for the greatest length, the last one of several.
unfoldable pub best_index : List Row → ℕ → ℕ → ℕ → ℕ
best_index [] i max_len best_idx = best_idx
best_index (r ∷ rows) i max_len best_idx =
    let longer = leb max_len r.len in
    best_index rows (suc i) (if longer then r.len else max_len) (if longer then i else best_idx)

abbrev cons_option : ℕ → Option (List ℕ) → Option (List ℕ)
cons_option i none = none
cons_option i (some is) = some (i ∷ is)

-- `while let Some(idx) = curr`, on fuel: the indices, the last one first.
unfoldable pub trace : ℕ → List Row → Option ℕ → Option (List ℕ)
trace fuel rows none = some []
trace zero rows (some i) = none
trace (suc fuel) rows (some i) = get_elem? rows i >>= λ r. cons_option i (trace fuel rows r.parent)

-- `candidates[idx].clone()` for each index.
unfoldable pub headings_at : List CandidateHeading → List ℕ → Option (List CandidateHeading)
headings_at candidates [] = some []
headings_at candidates (i ∷ is) =
    get_elem? candidates i >>= λ c. headings_at candidates is >>= λ cs. some (c ∷ cs)

unfoldable pub filter_monotonic_candidates : List CandidateHeading → Option (List CandidateHeading)
unfolding fill_rows best_index trace headings_at
filter_monotonic_candidates candidates =
    if is_empty candidates
    then some []
    else let rows = fill_rows [] candidates in
      trace (length rows) rows (some (best_index rows 0 0 0)) >>= λ is.
      headings_at candidates (reverse is)
