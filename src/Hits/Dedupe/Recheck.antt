-- ===== src/Hits/Dedupe/Recheck.antt =====
-- The loop over the candidates ends, and leaves no two compatible records.
use paperbridge.Prelude.{
  All, All-set, Bool-cases, List, arith, false, get_elem?, get_elem?-lt, get_elem?-remove_at,
  get_elem?-set_ne, get_elem?_total, inl, inr, length, length-remove_at, length-set, ltb, max, min,
  refl, remove_at, set, skip, some, suc, sym, zero, ℕ, ◌+◌, ◌-◌, ◌<◌, ◌==◌, ◌∙◌, ◌≡◌, ◌≢◌, ◌≤◌,
  All-remove_at, not, some-injective, subst, ℕ-cases, ◌&&◌,
}
use paperbridge.Hits.Dedupe.{Entry, Identity, budget, entry, merge_at, recheck, compatible_at}

module _ {H K : Type 0} (w : Identity H K) where
  open w use {keys_of, compatible, merge}

  -- The records at two places are not compatible.
  abbrev pub Apart : List (Entry w) → ℕ → ℕ → Type 0
  Apart out i j =
      (x y : Entry w)
      → get_elem? out i ≡ some x
      → get_elem? out j ≡ some y
      → compatible x.1 y.1 ≡ false

  abbrev pub Pairwise : List (Entry w) → Type 0
  Pairwise out = (i j : ℕ) → i ≢ j → Apart out i j

  -- The same of the records other than the one at `index`, and of that one and the candidates before
  -- `upto`.
  abbrev pub Others : List (Entry w) → ℕ → Type 0
  Others out index = (i j : ℕ) → i ≢ j → i ≢ index → j ≢ index → Apart out i j

  abbrev pub Clear : List (Entry w) → ℕ → ℕ → Type 0
  Clear out index upto = (j : ℕ) → j < upto → j ≢ index → Apart out index j

  -- The vector of keys is up to date.
  abbrev pub Keyed : List (Entry w) → Type 0
  Keyed = All (λ e. e.1 ≡ keys_of e.0)

  Apart-sym : (out : List (Entry w)) (i j : ℕ) → Apart out i j → Apart out j i
  Apart-sym out i j h x y ex ey = w.compatible_comm x.1 y.1 ∙ h y x ey ex

  -- What a merge does to the other places.
  pub record IsMerged (out : List (Entry w)) (kept removed : ℕ) (next : List (Entry w))
      : Type 0 where
    pub merged : merge_at w out kept removed ≡ some next
    pub shorter : length next + 1 ≡ length out
    pub keyed : Keyed out → Keyed next
    pub others : (j : ℕ) → j ≢ kept → get_elem? next j ≡ get_elem? out (skip removed j)

  merge_at-IsMerged :
      (out : List (Entry w)) (kept removed : ℕ)
      → kept < removed
      → removed < length out
      → (next : List (Entry w)) × IsMerged out kept removed next
  unfolding merge_at
  merge_at-IsMerged out kept removed before within =
      let size = length-remove_at out removed within in
      let (other, eo) = get_elem?_total out removed within in
      let (first, ef) = get_elem?_total (remove_at out removed) kept (omega arith) in
      let next = set (remove_at out removed) kept (entry w (merge first.0 other.0)) in
      (
        next,
        record {
          merged = rw (eo, ef) refl;
          shorter =
              omega
                (arith, length-set (remove_at out removed) kept (entry w (merge first.0 other.0)));
          keyed = λ h.
              All-set (λ e. e.1 ≡ keys_of e.0) (remove_at out removed) kept _ refl
                (All-remove_at (λ e. e.1 ≡ keys_of e.0) out removed h);
          others = λ j ne.
              get_elem?-set_ne (remove_at out removed) kept j _ ne
              ∙ get_elem?-remove_at out removed j;
        },
      )

  -- After a merge the records but the merged one are still pairwise apart.
  merge_at-Others :
      (out : List (Entry w)) (index candidate : ℕ) (next : List (Entry w))
      → IsMerged out (min index candidate) (max index candidate) next
      → index ≢ candidate
      → Others out index
      → Others next (min index candidate)
  merge_at-Others out index candidate next m ne h i j apart ni nj x y ex ey =
      h (skip (max index candidate) i) (skip (max index candidate) j) (ground arith) (ground arith)
        (ground arith) x y (sym (m.others i ni) ∙ ex) (sym (m.others j nj) ∙ ey)

  pub record IsSettled (out after : List (Entry w)) : Type 0 where
    pub pairwise : Pairwise after
    pub all_keyed : Keyed after
    pub no_longer : length after ≤ length out

  done-IsSettled :
      (out : List (Entry w)) (index candidate : ℕ)
      → length out ≤ candidate
      → Others out index
      → Clear out index candidate
      → Keyed out
      → IsSettled out out
  done-IsSettled out index candidate over others clear keyed = record {
    pairwise = λ i j ne x y ex ey.
        let li = get_elem?-lt out i ex in
        let lj = get_elem?-lt out j ey in
        elim (ℕ-cases i index) [
          | inl here ↦
              subst (λ k. Apart out k j) (sym here) (clear j (omega arith) (omega arith)) x y ex ey
          | inr elsewhere ↦ elim (ℕ-cases j index) [
            | inl there ↦
                Apart-sym out j i
                  (subst (λ k. Apart out k i) (sym there) (clear i (omega arith) elsewhere)) x y ex
                  ey
            | inr neither ↦ others i j ne elsewhere neither x y ex ey
          ]
        ];
    all_keyed = keyed;
    no_longer = omega arith;
  }

  budget_step : (n m : ℕ) → n + 1 ≡ m → budget w m ≡ budget w n + n + 1
  budget_step n zero h = absurd (omega arith)
  budget_step n (suc m) h =
      let same : m ≡ n = omega arith in subst (λ k. budget w (suc m) ≡ budget w k + k + 1) same refl

  Clear-step :
      (out : List (Entry w)) (index candidate : ℕ) (x y : Entry w)
      → get_elem? out index ≡ some x
      → get_elem? out candidate ≡ some y
      → (not (candidate == index) && compatible x.1 y.1) ≡ false
      → Clear out index candidate
      → Clear out index (candidate + 1)
  Clear-step out index candidate x y ex ey no_hit clear j lt ne x' y' ex' ey' =
      elim (ℕ-cases j candidate) [
        | inr before ↦ clear j (omega arith) ne x' y' ex' ey'
        | inl here ↦
            let same_x : x ≡ x' = some-injective _ _ (sym ex ∙ ex') in
            let same_y : y ≡ y' =
              some-injective _ _ (sym ey ∙ subst (λ k. get_elem? out k ≡ some y') here ey') in
            let apart : compatible x.1 y.1 ≡ false = ground arith in
            subst (λ e. compatible e.1 y'.1 ≡ false) same_x
              (subst (λ e. compatible x.1 e.1 ≡ false) same_y apart)
      ]

  -- From an index in range and with enough rounds, the loop ends with a result; if the records but the
  -- one at the index were pairwise apart, all are in the result.
  pub recheck-IsSettled :
      (fuel : ℕ) (out : List (Entry w)) (index candidate : ℕ)
      → index < length out
      → budget w (length out) + (length out - candidate) < fuel
      → Others out index
      → Clear out index candidate
      → Keyed out
      → (after : List (Entry w)) × (recheck w fuel out index candidate ≡ some after)
        × IsSettled out after
  unfolding recheck
  recheck-IsSettled zero out index candidate within enough others clear keyed = absurd (omega arith)
  recheck-IsSettled (suc fuel) out index candidate within enough others clear keyed =
      elim (Bool-cases (ltb candidate (length out))) [
        | inr over ↦ (
          out,
          rw over refl,
          done-IsSettled out index candidate (ground arith) others clear keyed,
        )
        | inl more ↦
            let (x, ex) = get_elem?_total out index within in
            let (y, ey) = get_elem?_total out candidate (ground arith) in
            let test : compatible_at w out index candidate ≡ some (compatible x.1 y.1) =
              rw (ex, ey) refl in
            elim (Bool-cases (not (candidate == index) && compatible x.1 y.1)) [
              | inr no_hit ↦
                  let (after, run, settled) =
                    recheck-IsSettled fuel out index (candidate + 1) within (ground arith) others
                      (Clear-step out index candidate x y ex ey no_hit clear) keyed in
                  (after, rw (more, test, no_hit) run, settled)
              | inl hit ↦
                  let apart : index ≢ candidate = ground arith in
                  let (next, m) =
                    merge_at-IsMerged out (min index candidate) (max index candidate) (omega arith)
                      (ground arith) in
                  let cost = budget_step (length next) (length out) m.shorter in
                  let (after, run, settled) =
                    recheck-IsSettled fuel next (min index candidate) 0
                      (omega (arith, m.shorter, get_elem?-lt out candidate ey))
                      (omega (arith, m.shorter, cost))
                      (merge_at-Others out index candidate next m apart others)
                      (λ j lt. absurd (omega arith)) (m.keyed keyed) in
                  (
                    after,
                    rw (more, test, hit, m.merged) run,
                    record {
                      pairwise = settled.pairwise;
                      all_keyed = settled.all_keyed;
                      no_longer = omega (arith, m.shorter, settled.no_longer);
                    },
                  )
            ]
      ]
