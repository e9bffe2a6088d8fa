-- ===== src/Book/Headings/Monotonic/Way.antt =====
-- The ways back through a table, by the rows' parents.
use paperbridge.Prelude.{
  List, [], ap, arith, get_elem?_total, inl, inr, length, refl, some, suc, sym, zero, ℕ, ◌+◌, ◌<◌,
  ◌∙◌, ◌∷◌, ◌≡◌, ◌≤◌,
}
use paperbridge.Book.Headings.Monotonic.{Row, trace}
use paperbridge.Book.Headings.Monotonic.Table.{IsTable, len_at, number_at, parent_of}

-- Rows of a table, each before the one in front of it, with a number that is not greater.
abbrev pub IsPath : List Row → ℕ → List ℕ → Type 0
IsPath rows i [] = i < length rows
IsPath rows i (j ∷ js) =
    (i < length rows) × (j < i) × (number_at rows j ≤ number_at rows i) × IsPath rows j js

pub IsPath-lt : (rows : List Row) (i : ℕ) (js : List ℕ) → IsPath rows i js → i < length rows
IsPath-lt rows i [] h = h
IsPath-lt rows i (j ∷ js) (h, _, _, _) = h

-- No path to a row is longer than its length says.
pub path-len :
    (rows : List Row)
    → IsTable rows
    → (i : ℕ) (js : List ℕ) → IsPath rows i js
    → length js + 1 ≤ len_at rows i
path-len rows table i [] h = elim (table i h).origin [
  | inl (e, _) ↦ omega arith
  | inr (k, parent) ↦ omega (arith, parent.one_more)
]
path-len rows table i (j ∷ js) (h, lt, le, path) =
    let before = path-len rows table j js path in
    let step = (table i h).longest j lt le in omega arith

-- Going back from a row finds a path of that length, on fuel above the row's index.
pub trace-IsPath :
    (rows : List Row)
    → IsTable rows
    → (fuel i : ℕ) → i < length rows
    → i < fuel
    → (js : List ℕ) × (trace fuel rows (some i) ≡ some (i ∷ js))
      × IsPath rows i js
      × (length js + 1 ≡ len_at rows i)
unfolding trace
trace-IsPath rows table zero i h enough = absurd (omega arith)
trace-IsPath rows table (suc fuel) i h enough =
    let (r, e) = get_elem?_total rows i h in
    let from = sym (ap parent_of e) in
    elim (table i h).origin [
      | inl (one, no_parent) ↦ ([], rw (e, from ∙ no_parent) refl, h, omega arith)
      | inr (k, parent) ↦
          let before = parent.before in
          let (js, run, path, size) = trace-IsPath rows table fuel k (omega arith) (omega arith) in
          let one_more = parent.one_more in
          (
            k ∷ js,
            rw (e, from ∙ parent.recorded, run) refl,
            (h, before, parent.ordered, path),
            omega arith,
          )
    ]
