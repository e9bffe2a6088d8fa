-- ===== src/Prelude/Predicates.antt =====
-- A predicate on every element, and invariants of a loop over a list.
use Prim.Native.Nat.{ℕ, zero, suc}
use paperbridge.Prelude.Lists.{length, replicate, retain, set}
use paperbridge.Prelude.Tests.{Bool-cases}
use mathlib.Core.Path.{◌≡◌}
use mathlib.Core.Logic.{inl, inr}
use mathlib.Core.Bool.{Bool, true}
use mathlib.Core.List.{List, [], ◌∷◌, ◌++◌, map, foldl}

abbrev pub All {ℓ κ} : {A : Type ℓ} → (A → Type κ) → List A → Type κ
All P [] = Unit
All P (x ∷ xs) = P x × All P xs

module _ {ℓ κ} {A : Type ℓ} (P : A → Type κ) where
  pub All-append : (xs ys : List A) → All P xs → All P ys → All P (xs ++ ys)
  All-append [] ys _ hy = hy
  All-append (x ∷ xs) ys (px, hx) hy = (px, All-append xs ys hx hy)

  pub All-concat : (xs : List A) (x : A) → All P xs → P x → All P (xs ++ x ∷ [])
  All-concat xs x h p = All-append xs (x ∷ []) h (p, tt)

  pub All-of_append : (xs ys : List A) → All P (xs ++ ys) → All P xs × All P ys
  All-of_append [] ys h = (tt, h)
  All-of_append (x ∷ xs) ys (p, h) = let (hx, hy) = All-of_append xs ys h in ((p, hx), hy)

pub All-retain {ℓ κ} :
    {A : Type ℓ} (P : A → Type κ) (p : A → Bool) (xs : List A) → All P xs → All P (retain p xs)
All-retain P p [] h = tt
All-retain P p (x ∷ xs) (h, hs) = elim (Bool-cases (p x)) [
  | inl e ↦ rw e (h, All-retain P p xs hs)
  | inr e ↦ rw e (All-retain P p xs hs)
]

-- What is retained passes the test.
pub All-retain_self {ℓ} :
    {A : Type ℓ} (p : A → Bool) (xs : List A) → All (λ x. p x ≡ true) (retain p xs)
All-retain_self p [] = tt
All-retain_self p (x ∷ xs) = elim (Bool-cases (p x)) [
  | inl e ↦ rw e (e, All-retain_self p xs)
  | inr e ↦ rw e (All-retain_self p xs)
]

pub All-imp {ℓ κ μ} :
    {A : Type ℓ} (P : A → Type κ) (Q : A → Type μ) (f : (a : A) → P a → Q a) (xs : List A)
    → All P xs
    → All Q xs
All-imp P Q f [] _ = tt
All-imp P Q f (x ∷ xs) (p, h) = (f x p, All-imp P Q f xs h)

pub All-map {ℓ κ μ} :
    {A : Type ℓ} {B : Type κ} (P : B → Type μ) (f : A → B) (xs : List A)
    → All (λ a. P (f a)) xs
    → All P (map f xs)
All-map P f [] _ = tt
All-map P f (x ∷ xs) (p, h) = (p, All-map P f xs h)

-- What every round keeps holds after the loop.
pub foldl_inv {ℓ κ μ} :
    {S : Type ℓ} {A : Type κ} (P : S → Type μ) (step : S → A → S)
    → ((s : S) (a : A) → P s → P (step s a))
    → (s : S) (xs : List A) → P s
    → P (foldl step s xs)
foldl_inv P step keep s [] h = h
foldl_inv P step keep s (x ∷ xs) h = foldl_inv P step keep (step s x) xs (keep s x h)

-- The same where a round relies on a property of the element that it reads.
pub foldl_inv_on {ℓ κ μ ν} :
    {S : Type ℓ} {A : Type κ} (P : S → Type μ) (Q : A → Type ν) (step : S → A → S)
    → ((s : S) (a : A) → Q a → P s → P (step s a))
    → (s : S) (xs : List A) → All Q xs
    → P s
    → P (foldl step s xs)
foldl_inv_on P Q step keep s [] _ h = h
foldl_inv_on P Q step keep s (x ∷ xs) (q, qs) h =
    foldl_inv_on P Q step keep (step s x) xs qs (keep s x q h)

pub All-replicate {ℓ κ} :
    {A : Type ℓ} (P : A → Type κ) (n : ℕ) (a : A) → P a → All P (replicate n a)
All-replicate P zero a p = tt
All-replicate P (suc n) a p = (p, All-replicate P n a p)

pub All-set {ℓ κ} :
    {A : Type ℓ} (P : A → Type κ) (xs : List A) (i : ℕ) (v : A)
    → P v
    → All P xs
    → All P (set xs i v)
All-set P [] i v p h = tt
All-set P (x ∷ xs) zero v p (q, h) = (p, h)
All-set P (x ∷ xs) (suc i) v p (q, h) = (q, All-set P xs i v p h)

-- Writing behind the end of a list whose last element alone lacks the property.
pub All-set_last {ℓ κ} :
    {A : Type ℓ} (P : A → Type κ) (xs : List A) (old v : A)
    → P v
    → All P xs
    → All P (set (xs ++ old ∷ []) (length xs) v)
All-set_last P [] old v p h = (p, tt)
All-set_last P (x ∷ xs) old v p (q, h) = (q, All-set_last P xs old v p h)
