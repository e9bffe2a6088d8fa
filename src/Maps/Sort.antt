-- ===== src/Maps/Sort.antt =====
-- `sort_by_key` on a numeric key: insertion sort, which is stable.
use paperbridge.Prelude.{
  All, All-concat, All-imp, Bool-cases, List, [], arith, false, if◌then◌else◌, inl, inr, is_empty,
  leb, leb→le, refl, sym, ℕ, ◌++◌, ◌<◌, ◌∷◌, ◌≡◌, ◌≢◌,
}

module _ {A : Type 0} (key : A → ℕ) where
  unfoldable pub insert_by : A → List A → List A
  insert_by a [] = a ∷ []
  insert_by a (b ∷ l) = if leb (key a) (key b) then a ∷ b ∷ l else b ∷ insert_by a l

  unfoldable pub sort_by_key : List A → List A
  sort_by_key [] = []
  sort_by_key (a ∷ l) = insert_by a (sort_by_key l)

  -- Keys grow strictly along the list.
  abbrev pub IsIncreasing : List A → Type 0
  IsIncreasing [] = Unit
  IsIncreasing (a ∷ l) = All (λ b. key a < key b) l × IsIncreasing l

  -- No two elements have one key.
  abbrev pub DistinctKeys : List A → Type 0
  DistinctKeys [] = Unit
  DistinctKeys (a ∷ l) = All (λ b. key b ≢ key a) l × DistinctKeys l

module _ {A : Type 0} (key : A → ℕ) where
  pub All-insert_by :
      (P : A → Type 0) (a : A) (l : List A) → P a → All P l → All P (insert_by key a l)
  unfolding insert_by
  All-insert_by P a [] p h = (p, tt)
  All-insert_by P a (b ∷ l) p (q, h) = elim (Bool-cases (leb (key a) (key b))) [
    | inl le ↦ rw le (p, (q, h))
    | inr gt ↦ rw gt (q, All-insert_by P a l p h)
  ]

  pub All-sort_by_key : (P : A → Type 0) (l : List A) → All P l → All P (sort_by_key key l)
  unfolding sort_by_key
  All-sort_by_key P [] h = tt
  All-sort_by_key P (a ∷ l) (p, h) = All-insert_by P a (sort_by_key key l) p (All-sort_by_key P l h)

  IsIncreasing-insert_by :
      (a : A) (l : List A)
      → All (λ b. key b ≢ key a) l
      → IsIncreasing key l
      → IsIncreasing key (insert_by key a l)
  unfolding insert_by
  IsIncreasing-insert_by a [] h s = (tt, tt)
  IsIncreasing-insert_by a (b ∷ l) (ne, h) (lt, s) = elim (Bool-cases (leb (key a) (key b))) [
    | inl le ↦
        let below : key a < key b = omega (arith, leb→le (key a) (key b) le) in
        rw le (
          (below, All-imp (λ c. key b < key c) (λ c. key a < key c) (λ c k. omega arith) l lt),
          (lt, s),
        )
    | inr gt ↦
        rw gt
          (All-insert_by (λ c. key b < key c) a l (ground arith) lt, IsIncreasing-insert_by a l h s)
  ]

  pub sort_by_key-IsIncreasing :
      (l : List A) → DistinctKeys key l → IsIncreasing key (sort_by_key key l)
  unfolding sort_by_key
  sort_by_key-IsIncreasing [] h = tt
  sort_by_key-IsIncreasing (a ∷ l) (ne, h) =
      IsIncreasing-insert_by a (sort_by_key key l) (All-sort_by_key (λ b. key b ≢ key a) l ne)
        (sort_by_key-IsIncreasing l h)

  pub insert_by-ne : (a : A) (l : List A) → is_empty (insert_by key a l) ≡ false
  unfolding insert_by
  insert_by-ne a [] = refl
  insert_by-ne a (b ∷ l) = ground arith

  pub IsIncreasing-DistinctKeys : (l : List A) → IsIncreasing key l → DistinctKeys key l
  IsIncreasing-DistinctKeys [] h = tt
  IsIncreasing-DistinctKeys (a ∷ l) (lt, h) = (
    All-imp (λ b. key a < key b) (λ b. key b ≢ key a) (λ b k. omega arith) l lt,
    IsIncreasing-DistinctKeys l h,
  )

  pub DistinctKeys-concat :
      (l : List A) (a : A)
      → All (λ b. key b ≢ key a) l
      → DistinctKeys key l
      → DistinctKeys key (l ++ a ∷ [])
  DistinctKeys-concat [] a h d = (tt, tt)
  DistinctKeys-concat (b ∷ l) a (ne, h) (n, d) =
      (All-concat (λ c. key c ≢ key b) l a n (λ e. ne (sym e)), DistinctKeys-concat l a h d)
