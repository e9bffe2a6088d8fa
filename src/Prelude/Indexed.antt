-- ===== src/Prelude/Indexed.antt =====
-- `v[i]`, `v.remove(i)` and `v[i] = a` on lists, index by index.
use Prim.Native.Nat.{ℕ, zero, suc, ◌<◌, ◌+◌}
use mathlib.Core.Path.{◌≡◌, refl, subst}
use mathlib.Core.Logic.{◌≢◌, inl, inr}
use mathlib.Core.Bool.{Bool, false}
use mathlib.Core.List.{List, [], ◌∷◌, ◌++◌}
use mathlib.Core.Option.{Option, none, some, some-injective}
use native.Mathlib.Omega.{arith}
use paperbridge.Prelude.Tests.{◌>>=◌, ltb, if◌then◌else◌, Option-cases}
use paperbridge.Prelude.Lists.{length, get_elem?, set}
use paperbridge.Prelude.Predicates.{All}

-- Where an element stood before the one at `i` was removed.
abbrev pub skip : ℕ → ℕ → ℕ
skip i j = if ltb j i then j else suc j

-- A property of every index below `n + 1`.
pub below_suc {ℓ} :
    (P : ℕ → Type ℓ) (n : ℕ) → P 0 → ((k : ℕ) → k < n → P (suc k)) → (k : ℕ) → k < suc n → P k
below_suc P n first others zero h = first
below_suc P n first others (suc k) h = others k (omega arith)

module _ {ℓ} {A : Type ℓ} where
  abbrev pub remove_at : List A → ℕ → List A
  remove_at [] i = []
  remove_at (x ∷ xs) zero = xs
  remove_at (x ∷ xs) (suc i) = x ∷ remove_at xs i

  -- `v[i] = a`: `none` is the panic of an index out of range.
  abbrev pub try_set : List A → ℕ → A → Option (List A)
  try_set [] i a = none
  try_set (x ∷ xs) zero a = some (a ∷ xs)
  try_set (x ∷ xs) (suc i) a = push_on (try_set xs i a)
    where
      push_on : Option (List A) → Option (List A)
      push_on none = none
      push_on (some ys) = some (x ∷ ys)

  -- `iter().position(p)`.
  abbrev pub position : (A → Bool) → List A → Option ℕ
  position p [] = none
  position p (x ∷ xs) = let later = next_position (position p xs) in if p x then some 0 else later
    where
      next_position : Option ℕ → Option ℕ
      next_position none = none
      next_position (some i) = some (suc i)

  pub length-remove_at :
      (xs : List A) (i : ℕ) → i < length xs → length (remove_at xs i) + 1 ≡ length xs
  length-remove_at [] i h = ground arith
  length-remove_at (x ∷ xs) zero h = omega arith
  length-remove_at (x ∷ xs) (suc i) h = omega (arith, length-remove_at xs i (omega arith))

  pub get_elem?-remove_at :
      (xs : List A) (i j : ℕ) → get_elem? (remove_at xs i) j ≡ get_elem? xs (skip i j)
  get_elem?-remove_at [] i j = ground arith
  get_elem?-remove_at (x ∷ xs) zero j = ground arith
  get_elem?-remove_at (x ∷ xs) (suc i) zero = ground arith
  get_elem?-remove_at (x ∷ xs) (suc i) (suc j) = ground (arith, get_elem?-remove_at xs i j)

  pub try_set_total :
      (xs : List A) (i : ℕ) (a : A) → i < length xs → try_set xs i a ≡ some (set xs i a)
  try_set_total [] i a h = absurd (omega arith)
  try_set_total (x ∷ xs) zero a h = refl
  try_set_total (x ∷ xs) (suc i) a h = rw (try_set_total xs i a (omega arith)) refl

  pub get_elem?-set_self :
      (xs : List A) (i : ℕ) (v : A) → i < length xs → get_elem? (set xs i v) i ≡ some v
  get_elem?-set_self [] i v h = ground arith
  get_elem?-set_self (x ∷ xs) zero v h = refl
  get_elem?-set_self (x ∷ xs) (suc i) v h = get_elem?-set_self xs i v (omega arith)

  pub get_elem?-set_ne :
      (xs : List A) (i j : ℕ) (v : A) → j ≢ i → get_elem? (set xs i v) j ≡ get_elem? xs j
  get_elem?-set_ne [] i j v h = refl
  get_elem?-set_ne (x ∷ xs) zero zero v h = absurd (h refl)
  get_elem?-set_ne (x ∷ xs) zero (suc j) v h = refl
  get_elem?-set_ne (x ∷ xs) (suc i) zero v h = refl
  get_elem?-set_ne (x ∷ xs) (suc i) (suc j) v h = get_elem?-set_ne xs i j v (omega arith)

  pub get_elem?-append_left :
      (xs ys : List A) (i : ℕ) → i < length xs → get_elem? (xs ++ ys) i ≡ get_elem? xs i
  get_elem?-append_left [] ys i h = absurd (omega arith)
  get_elem?-append_left (x ∷ xs) ys zero h = refl
  get_elem?-append_left (x ∷ xs) ys (suc i) h = get_elem?-append_left xs ys i (omega arith)

  pub get_elem?-append_last : (xs : List A) (x : A) → get_elem? (xs ++ x ∷ []) (length xs) ≡ some x
  get_elem?-append_last [] x = refl
  get_elem?-append_last (y ∷ xs) x = get_elem?-append_last xs x

  pub get_elem?-lt : (xs : List A) (i : ℕ) {a : A} → get_elem? xs i ≡ some a → i < length xs
  get_elem?-lt [] i h = cc
  get_elem?-lt (x ∷ xs) zero h = omega arith
  get_elem?-lt (x ∷ xs) (suc i) h = omega (arith, get_elem?-lt xs i h)

  pub get_elem?_total : (xs : List A) (i : ℕ) → i < length xs → (a : A) × (get_elem? xs i ≡ some a)
  get_elem?_total [] i h = absurd (omega arith)
  get_elem?_total (x ∷ xs) zero h = (x, refl)
  get_elem?_total (x ∷ xs) (suc i) h = get_elem?_total xs i (omega arith)

  pub position-lt : (p : A → Bool) (xs : List A) (i : ℕ) → position p xs ≡ some i → i < length xs
  position-lt p [] i h = cc
  position-lt p (x ∷ xs) i h = elim (Option-cases (position p xs)) [
    | inl e ↦ ground arith
    | inr (k, e) ↦ ground (arith, position-lt p xs k e)
  ]

  pub position-none :
      (p : A → Bool) (xs : List A) → position p xs ≡ none → All (λ x. p x ≡ false) xs
  position-none p [] h = tt
  position-none p (x ∷ xs) h = elim (Option-cases (position p xs)) [
    | inl e ↦ (ground arith, position-none p xs e)
    | inr (k, e) ↦ ground arith
  ]

  pub All-get_elem? {κ} :
      (P : A → Type κ) (xs : List A) (i : ℕ) {a : A} → All P xs → get_elem? xs i ≡ some a → P a
  All-get_elem? P [] i h e = absurd (cc)
  All-get_elem? P (x ∷ xs) zero {a} (p, h) e = subst P (some-injective _ _ e) p
  All-get_elem? P (x ∷ xs) (suc i) (p, h) e = All-get_elem? P xs i h e

  pub All-remove_at {κ} : (P : A → Type κ) (xs : List A) (i : ℕ) → All P xs → All P (remove_at xs i)
  All-remove_at P [] i h = tt
  All-remove_at P (x ∷ xs) zero (p, h) = h
  All-remove_at P (x ∷ xs) (suc i) (p, h) = (p, All-remove_at P xs i h)

-- A loop whose body may panic.
abbrev pub try_foldl {ℓ κ} : {S : Type ℓ} {A : Type κ} → (S → A → Option S) → S → List A → Option S
try_foldl step s [] = some s
try_foldl step s (x ∷ xs) = step s x >>= λ t. try_foldl step t xs

-- What every round keeps, none of them panicking, holds after the loop, which does not panic.
pub try_foldl_inv {ℓ κ μ} :
    {S : Type ℓ} {A : Type κ} (P : S → Type μ) (step : S → A → Option S)
    → ((s : S) (a : A) → P s → (t : S) × (step s a ≡ some t) × P t)
    → (s : S) (xs : List A) → P s
    → (t : S) × (try_foldl step s xs ≡ some t) × P t
try_foldl_inv P step keeps s [] h = (s, refl, h)
try_foldl_inv P step keeps s (x ∷ xs) h =
    let (t, e, k) = keeps s x h in
    let (last, f, l) = try_foldl_inv P step keeps t xs k in (last, rw e f, l)
