-- ===== src/Book/Headings/Monotonic/Table.antt =====
-- What the two inner loops compute: the length and the parent of each row.
use paperbridge.Prelude.{
  List, Option, [], arith, get_elem?, inl, length, none, refl, some, ℕ, ◌+◌, ◌<◌, ◌∷◌, ◌≡◌, ◌≤◌,
  ◌⊎◌, Bool-cases, inr, leb, suc, ◌&&◌, ap, zero, ◌∙◌, get_elem?-append_left, subst, ◌++◌,
  append-nil, append_assoc, get_elem?-append_last, length-append, map, map-append, sym, ℕ-cases,
}
use paperbridge.Book.Headings.{CandidateHeading}
use paperbridge.Book.Headings.Monotonic.{Cell, Row, scan, alone, fill_rows}

abbrev pub number_of : Option Row → ℕ
number_of none = 0
number_of (some r) = r.heading.number

abbrev pub len_of : Option Row → ℕ
len_of none = 0
len_of (some r) = r.len

abbrev pub parent_of : Option Row → Option ℕ
parent_of none = none
parent_of (some r) = r.parent

-- The row at `k` may stand before a heading with this number.
abbrev pub Fits : List Row → ℕ → ℕ → Type 0
Fits rows number k = (k < length rows) × (number_of (get_elem? rows k) ≤ number)

-- The cell continues one of the rows, which are numbered from `j` on.
abbrev pub Continues : List Row → ℕ → ℕ → Cell → Type 0
Continues rows number j cell =
    (k : ℕ) × Fits rows number k
    × (cell.len ≡ len_of (get_elem? rows k) + 1)
    × (cell.parent ≡ some (j + k))

-- The length found is at least any that the rows allow, and it is that of one of them or the first.
pub record IsBest (rows : List Row) (number j : ℕ) (start found : Cell) : Type 0 where
  pub grows : start.len ≤ found.len
  pub longest : (k : ℕ) → Fits rows number k → len_of (get_elem? rows k) + 1 ≤ found.len
  pub origin : (found ≡ start) ⊎ Continues rows number j found

Continues-cons :
    (r : Row) (rows : List Row) (number j : ℕ) (cell : Cell)
    → Continues rows number (suc j) cell
    → Continues (r ∷ rows) number j cell
Continues-cons r rows number j cell (k, (h, le), size, from) =
    (suc k, (omega arith, le), size, from ∙ ap some (omega arith))

pub scan-IsBest :
    (rows : List Row) (number j : ℕ) (start : Cell)
    → IsBest rows number j start (scan number rows j start)
unfolding scan
scan-IsBest [] number j start = record {
  grows = ground arith;
  longest = λ k h. absurd (omega arith);
  origin = inl refl;
}
scan-IsBest (r ∷ rows) number j start =
    let better : Cell = record { len = r.len + 1; parent = some j } in
    elim (Bool-cases (leb r.heading.number number && leb start.len (r.len + 1))) [
      | inl e ↦ rw e (
          let after = scan-IsBest rows number (suc j) better in
          record {
            grows = ground (arith, after.grows);
            longest =
                longest-cons (scan number rows (suc j) better) (λ h. after.grows) after.longest;
            origin = inr (elim after.origin [
              | inl same ↦ (
                0,
                (omega arith, ground arith),
                ap (λ c. c.len) same,
                ap (λ c. c.parent) same ∙ ap some (omega arith),
              )
              | inr later ↦ Continues-cons r rows number j _ later
            ]);
          })
      | inr e ↦ rw e (
          let after = scan-IsBest rows number (suc j) start in
          record {
            grows = after.grows;
            longest =
                longest-cons (scan number rows (suc j) start) (λ h. ground (arith, after.grows))
                  after.longest;
            origin = elim after.origin [
              | inl same ↦ inl same
              | inr later ↦ inr (Continues-cons r rows number j _ later)
            ];
          })
    ]
  where
    longest-cons :
        (found : Cell)
        → (r.heading.number ≤ number → r.len + 1 ≤ found.len)
        → ((k : ℕ) → Fits rows number k → len_of (get_elem? rows k) + 1 ≤ found.len)
        → (k : ℕ) → Fits (r ∷ rows) number k
        → len_of (get_elem? (r ∷ rows) k) + 1 ≤ found.len
    longest-cons found first others zero (h, le) = first le
    longest-cons found first others (suc k) (h, le) = others k (omega arith, le)

abbrev pub number_at : List Row → ℕ → ℕ
number_at rows i = number_of (get_elem? rows i)

abbrev pub len_at : List Row → ℕ → ℕ
len_at rows i = len_of (get_elem? rows i)

abbrev pub parent_at : List Row → ℕ → Option ℕ
parent_at rows i = parent_of (get_elem? rows i)

-- Row `i` continues row `k`.
pub record IsParent (rows : List Row) (i k : ℕ) : Type 0 where
  pub before : k < i
  pub ordered : number_at rows k ≤ number_at rows i
  pub one_more : len_at rows i ≡ len_at rows k + 1
  pub recorded : parent_at rows i ≡ some k

-- What the table says of row `i`.
pub record IsRow (rows : List Row) (i : ℕ) : Type 0 where
  pub longest :
      (k : ℕ) → k < i → number_at rows k ≤ number_at rows i → len_at rows k + 1 ≤ len_at rows i
  pub origin : ((len_at rows i ≡ 1) × (parent_at rows i ≡ none)) ⊎ ((k : ℕ) × IsParent rows i k)

abbrev pub IsTable : List Row → Type 0
IsTable rows = (i : ℕ) → i < length rows → IsRow rows i

IsRow-append :
    (rows later : List Row) (i : ℕ) → i < length rows → IsRow rows i → IsRow (rows ++ later) i
IsRow-append rows later i h row =
    let same : (k : ℕ) → k < length rows → get_elem? (rows ++ later) k ≡ get_elem? rows k =
      λ k lt. get_elem?-append_left rows later k lt in
    record {
      longest = λ k lt le.
          (let le' : number_at rows k ≤ number_at rows i =
              subst (λ o. number_of o ≤ number_at rows i) (same k (omega arith))
                (subst (λ o. number_at (rows ++ later) k ≤ number_of o) (same i h) le) in
            rw (same i h, same k (omega arith)) (row.longest k lt le'));
      origin = elim row.origin [
        | inl one ↦ inl (rw (same i h) one)
        | inr (k, parent) ↦ inr (
          k,
          record {
            before = parent.before;
            ordered = rw (same i h, same k (ground (arith, parent.before))) parent.ordered;
            one_more = rw (same i h, same k (ground (arith, parent.before))) parent.one_more;
            recorded = rw (same i h) parent.recorded;
          },
        )
      ];
    }

IsRow-last :
    (rows : List Row) (r : Row)
    → IsBest rows r.heading.number 0 alone (record { len = r.len; parent = r.parent })
    → IsRow (rows ++ r ∷ []) (length rows)
IsRow-last rows r best =
    let same : (k : ℕ) → k < length rows → get_elem? (rows ++ r ∷ []) k ≡ get_elem? rows k =
      λ k lt. get_elem?-append_left rows (r ∷ []) k lt in
    let last = get_elem?-append_last rows r in
    record {
      longest = λ k lt le.
          (let le' : number_at rows k ≤ r.heading.number =
              subst (λ o. number_of o ≤ r.heading.number) (same k lt)
                (subst (λ o. number_at (rows ++ r ∷ []) k ≤ number_of o) last le) in
            rw (last, same k lt) (best.longest k (lt, le')));
      origin = elim best.origin [
        | inl e ↦ inl (rw last (ap (λ c. c.len) e, ap (λ c. c.parent) e))
        | inr (k, (lt, le), size, from) ↦ inr (
          k,
          record {
            before = lt;
            ordered = rw (last, same k lt) le;
            one_more = rw (last, same k lt) size;
            recorded = rw last (from ∙ ap some (omega arith));
          },
        )
      ];
    }

-- Adding one row.
IsTable-snoc :
    (rows : List Row) (r : Row)
    → IsTable rows
    → IsRow (rows ++ r ∷ []) (length rows)
    → IsTable (rows ++ r ∷ [])
IsTable-snoc rows r table last i h = elim (ℕ-cases i (length rows)) [
  | inl e ↦ subst (λ n. IsRow (rows ++ r ∷ []) n) (sym e) last
  | inr ne ↦
      let size = length-append rows (r ∷ []) in
      let lt : i < length rows = omega arith in IsRow-append rows (r ∷ []) i lt (table i lt)
]

-- The outer loop fills a table: one row for each heading.
pub fill_rows-IsTable :
    (rows : List Row) (cs : List CandidateHeading)
    → IsTable rows
    → IsTable (fill_rows rows cs)
      × (map (λ r. r.heading) (fill_rows rows cs) ≡ map (λ r. r.heading) rows ++ cs)
unfolding fill_rows
fill_rows-IsTable rows [] table = (table, sym (append-nil _))
fill_rows-IsTable rows (c ∷ cs) table =
    let cell = scan c.number rows 0 alone in
    let r : Row = record { heading = c; len = cell.len; parent = cell.parent } in
    let next = IsTable-snoc rows r table (IsRow-last rows r (scan-IsBest rows c.number 0 alone)) in
    let (filled, headings) = fill_rows-IsTable (rows ++ r ∷ []) cs next in
    (filled, headings ∙ simp (map-append, append_assoc))
