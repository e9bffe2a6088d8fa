-- ===== src/Book/Headings/Monotonic/Longest.antt =====
-- The run that `filter_monotonic_candidates` returns, and that none is longer.
use paperbridge.Prelude.{
  All, All-concat, Bool-cases, List, Option, [], ap, arith, below_suc, false, get_elem?,
  get_elem?_total, inl, inr, is_empty, is_empty→eq, is_empty→pos, leb, length, length-map, map,
  none, refl, reverse, some, subst, suc, sym, zero, ℕ, ◌+◌, ◌<◌, ◌↔◌, ◌∙◌, ◌∷◌, ◌≡◌, ◌≤◌, ◌⊎◌,
}
use paperbridge.Book.Headings.{CandidateHeading}
use paperbridge.Book.Headings.Monotonic.{
  Row, best_index, fill_rows, filter_monotonic_candidates, headings_at, trace,
}
use paperbridge.Book.Headings.Monotonic.Table.{IsTable, fill_rows-IsTable, len_at, number_at}
use paperbridge.Book.Headings.Monotonic.Way.{IsPath, IsPath-lt, path-len, trace-IsPath}

abbrev pub number_of_heading : Option CandidateHeading → ℕ
number_of_heading none = 0
number_of_heading (some c) = c.number

-- Positions of headings, the last one first: each is before the one in front of it, and its number is
-- not greater.
abbrev pub IsRun : List CandidateHeading → List ℕ → Type 0
IsRun cs [] = Unit
IsRun cs (i ∷ []) = i < length cs
IsRun cs (i ∷ j ∷ js) =
    (i < length cs)
    × (j < i)
    × (number_of_heading (get_elem? cs j) ≤ number_of_heading (get_elem? cs i))
    × IsRun cs (j ∷ js)

-- Where the greatest length stands: at the index given, if that is more than all, or in these rows.
abbrev IsGreatest : List Row → ℕ → ℕ → ℕ → ℕ → Type 0
IsGreatest rows i max_len before found =
    ((found ≡ before) × ((k : ℕ) → k < length rows → len_at rows k < max_len))
    ⊎ ((k : ℕ) × (k < length rows)
        × (found ≡ i + k)
        × (max_len ≤ len_at rows k)
        × ((j : ℕ) → j < length rows → len_at rows j ≤ len_at rows k))

best_index-IsGreatest :
    (rows : List Row) (i max_len before : ℕ)
    → IsGreatest rows i max_len before (best_index rows i max_len before)
unfolding best_index
best_index-IsGreatest [] i max_len before = inl (refl, (λ k h. absurd (omega arith)))
best_index-IsGreatest (r ∷ rows) i max_len before = elim (Bool-cases (leb max_len r.len)) [
  | inl e ↦ rw e (elim (best_index-IsGreatest rows (suc i) r.len i) [
    | inl (here, less) ↦ inr (
      0,
      omega arith,
      here ∙ (omega arith),
      ground arith,
      (below_suc (λ k. len_at (r ∷ rows) k ≤ r.len) (length rows) (omega arith)
          (λ k h. (let x = less k (omega arith) in omega arith))),
    )
    | inr (k, lt, at, le, most) ↦ inr (
      suc k,
      omega arith,
      at ∙ (omega arith),
      ground arith,
      (below_suc (λ j. len_at (r ∷ rows) j ≤ len_at rows k) (length rows) (le)
          (λ j h. most j (omega arith))),
    )
  ])
  | inr e ↦ rw e (elim (best_index-IsGreatest rows (suc i) max_len before) [
    | inl (same, less) ↦ inl (
      same,
      (below_suc (λ k. len_at (r ∷ rows) k < max_len) (length rows) (ground arith)
          (λ k h. less k (omega arith))),
    )
    | inr (k, lt, at, le, most) ↦ inr (
      suc k,
      omega arith,
      at ∙ (omega arith),
      le,
      (below_suc (λ j. len_at (r ∷ rows) j ≤ len_at rows k) (length rows) (ground arith)
          (λ j h. most j (omega arith))),
    )
  ])
]

number_of-map :
    (rows : List Row) (i : ℕ)
    → number_of_heading (get_elem? (map (λ r. r.heading) rows) i) ≡ number_at rows i
number_of-map [] i = refl
number_of-map (r ∷ rows) zero = refl
number_of-map (r ∷ rows) (suc i) = number_of-map rows i

IsPath-IsRun :
    (rows : List Row) (i : ℕ) (js : List ℕ)
    → IsPath rows i js ↔ IsRun (map (λ r. r.heading) rows) (i ∷ js)
IsPath-IsRun rows i [] =
    let e = length-map (λ r. r.heading) rows in ((λ h. omega arith), (λ h. omega arith))
IsPath-IsRun rows i (j ∷ js) =
    let (to, from) = IsPath-IsRun rows j js in
    rw (length-map (λ r. r.heading) rows, number_of-map rows i, number_of-map rows j)
      ((λ (h, lt, le, path). (h, lt, le, to path)), (λ (h, lt, le, run). (h, lt, le, from run)))

IsRun-range : (cs : List CandidateHeading) (is : List ℕ) → IsRun cs is → All (λ i. i < length cs) is
IsRun-range cs [] h = tt
IsRun-range cs (i ∷ []) h = (h, tt)
IsRun-range cs (i ∷ j ∷ js) (h, _, _, run) = (h, IsRun-range cs (j ∷ js) run)

All-reverse {ℓ κ} : {A : Type ℓ} (P : A → Type κ) (xs : List A) → All P xs → All P (reverse xs)
All-reverse P [] h = tt
All-reverse P (x ∷ xs) (h, hs) = All-concat P (reverse xs) x (All-reverse P xs hs) h

headings_at-total :
    (cs : List CandidateHeading) (is : List ℕ)
    → All (λ i. i < length cs) is
    → (out : List CandidateHeading) × (headings_at cs is ≡ some out)
unfolding headings_at
headings_at-total cs [] h = ([], refl)
headings_at-total cs (i ∷ is) (h, hs) =
    let (c, e) = get_elem?_total cs i h in
    let (out, es) = headings_at-total cs is hs in (c ∷ out, rw (e, es) refl)

greatest :
    (rows : List Row)
    → 0 < length rows
    → IsTable rows
    → (best_index rows 0 0 0 < length rows)
      × ((k : ℕ) → k < length rows → len_at rows k ≤ len_at rows (best_index rows 0 0 0))
greatest rows h table = elim (best_index-IsGreatest rows 0 0 0) [
  | inl (_, less) ↦ absurd (let x = less 0 h in omega arith)
  | inr (k, lt, at, _, most) ↦
      let here : best_index rows 0 0 0 ≡ k = at ∙ omega arith in
      (omega arith, (λ j h. subst (λ b. len_at rows j ≤ len_at rows b) (sym here) (most j h)))
]

shorter :
    (rows : List Row)
    → IsTable rows
    → (best : ℕ) → ((k : ℕ) → k < length rows → len_at rows k ≤ len_at rows best)
    → (js : List ℕ) → length js + 1 ≡ len_at rows best
    → (other : List ℕ) → IsRun (map (λ r. r.heading) rows) other
    → length other ≤ length (best ∷ js)
shorter rows table best most js len [] run = omega arith
shorter rows table best most js len (i ∷ is) run =
    let path = (IsPath-IsRun rows i is).1 run in
    let bound = path-len rows table i is path in
    let top = most i (IsPath-lt rows i is path) in omega arith

-- The table of the whole list: its best row gives a run, and no run is longer.
fill_rows-longest :
    (cs : List CandidateHeading)
    → is_empty cs ≡ false
    → let rows = fill_rows [] cs in
      (is : List ℕ) × (trace (length rows) rows (some (best_index rows 0 0 0)) ≡ some is)
      × IsRun cs is
      × ((js : List ℕ) → IsRun cs js → length js ≤ length is)
fill_rows-longest cs h =
    let rows = fill_rows [] cs in
    let (table, headings) = fill_rows-IsTable [] cs (λ i lt. absurd (omega arith)) in
    let size : length rows ≡ length cs =
      sym (length-map (λ r. r.heading) rows) ∙ ap length headings in
    let some_row = is_empty→pos cs h in
    let (in_range, most) = greatest rows (omega arith) table in
    let best = best_index rows 0 0 0 in
    let (js, run, path, len) = trace-IsPath rows table (length rows) best in_range in_range in
    (
      best ∷ js,
      run,
      subst (λ l. IsRun l (best ∷ js)) headings ((IsPath-IsRun rows best js).0 path),
      (λ other other_run.
          shorter rows table best most js len other
            (subst (λ l. IsRun l other) (sym headings) other_run)),
    )

run_of_none : (js : List ℕ) → IsRun [] js → length js ≤ 0
run_of_none [] h = omega arith
run_of_none (i ∷ []) h = absurd (omega arith)
run_of_none (i ∷ j ∷ js) (h, _, _, _) = absurd (omega arith)

-- Filtering any candidate headings ends with headings at ascending positions whose numbers do not
-- descend, and no such choice of positions is longer.
pub filter_monotonic_candidates-longest :
    (candidates : List CandidateHeading)
    → (is : List ℕ) × (out : List CandidateHeading) × (filter_monotonic_candidates candidates
        ≡ some out)
      × (headings_at candidates (reverse is) ≡ some out)
      × IsRun candidates is
      × ((js : List ℕ) → IsRun candidates js → length js ≤ length is)
unfolding filter_monotonic_candidates
filter_monotonic_candidates-longest candidates = elim (Bool-cases (is_empty candidates)) [
  | inl e ↦
      subst
        (λ cs.
          (is : List ℕ) × (out : List CandidateHeading) × (filter_monotonic_candidates cs
            ≡ some out)
          × (headings_at cs (reverse is) ≡ some out)
          × IsRun cs is
          × ((js : List ℕ) → IsRun cs js → length js ≤ length is))
        (sym (is_empty→eq candidates e)) ([], [], refl, refl, tt, run_of_none)
  | inr e ↦
      let (is, found, run, longest) = fill_rows-longest candidates e in
      let (out, at) =
        headings_at-total candidates (reverse is)
          (All-reverse _ is (IsRun-range candidates is run)) in
      (is, out, rw (e, found, at) refl, at, run, longest)
]
