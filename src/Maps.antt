-- ===== src/Maps.antt =====
-- `HashMap` as an association list: `entry(k).or_insert(d)` with an update behind it, `remove`,
-- `get`, and `sort_by_key` as insertion sort.
pub mod Sort
use paperbridge.Prelude.{
  ==_iff, All, Bool, Bool-cases, List, Option, [], false, if◌then◌else◌, inl, inr, none, some,
  subst, sym, true, ℕ, ◌==◌, ◌↔◌, ◌∷◌, ◌≡◌, ◌≢◌, arith, is_empty, refl,
}
use paperbridge.Text.{Text, eq_text}
use paperbridge.Text.Prefix.{eq_text_refl, eq_text_sound}

pub record Eq (K : Type 0) : Type 0 where
  pub beq : K → K → Bool
  pub beq_iff : (a b : K) → (beq a b ≡ true) ↔ (a ≡ b)

instance abbrev pub nat_eq : Eq ℕ
nat_eq = record { beq = ◌==◌; beq_iff = ==_iff }

pub eq_text_iff : (s t : Text) → (eq_text s t ≡ true) ↔ (s ≡ t)
eq_text_iff s t = (eq_text_sound s t, λ e. subst (λ u. eq_text s u ≡ true) e (eq_text_refl s))

instance abbrev pub text_eq : Eq Text
text_eq = record { beq = eq_text; beq_iff = eq_text_iff }

module _ {K : Type 0} ⦃e : Eq K⦄ {V : Type 0} where
  -- `*m.entry(k).or_insert(d)` updated by `f`.
  abbrev pub upsert : K → V → (V → V) → List (K × V) → List (K × V)
  upsert k d f [] = (k, f d) ∷ []
  upsert k d f ((j, v) ∷ m) = if e.beq j k then (j, f v) ∷ m else (j, v) ∷ upsert k d f m

  abbrev pub lookup : K → List (K × V) → Option V
  lookup k [] = none
  lookup k ((j, v) ∷ m) = if e.beq j k then some v else lookup k m

  abbrev pub remove : K → List (K × V) → List (K × V)
  remove k [] = []
  remove k ((j, v) ∷ m) = let rest = remove k m in if e.beq j k then rest else (j, v) ∷ rest

module _ {K V : Type 0} where
  -- No entry for the key; no two entries for one key.
  abbrev pub Fresh : K → List (K × V) → Type 0
  Fresh k = All (λ p. p.0 ≢ k)

  abbrev pub NodupKeys : List (K × V) → Type 0
  NodupKeys [] = Unit
  NodupKeys ((k, v) ∷ m) = Fresh k m × NodupKeys m

module _ {K : Type 0} ⦃e : Eq K⦄ where
  pub beq-ne : (j k : K) → e.beq j k ≡ false → j ≢ k
  beq-ne j k h = λ p. cc ((e.beq_iff j k).1 p)

module _ {K : Type 0} ⦃e : Eq K⦄ {V : Type 0} where
  pub Fresh-upsert :
      (j k : K) (d : V) (f : V → V) (m : List (K × V))
      → k ≢ j
      → Fresh j m
      → Fresh j (upsert k d f m)
  Fresh-upsert j k d f [] ne h = (ne, tt)
  Fresh-upsert j k d f ((i, v) ∷ m) ne (p, h) = elim (Bool-cases (e.beq i k)) [
    | inl hit ↦ rw hit (p, h)
    | inr miss ↦ rw miss (p, Fresh-upsert j k d f m ne h)
  ]

  pub NodupKeys-upsert :
      (k : K) (d : V) (f : V → V) (m : List (K × V)) → NodupKeys m → NodupKeys (upsert k d f m)
  NodupKeys-upsert k d f [] h = (tt, tt)
  NodupKeys-upsert k d f ((i, v) ∷ m) (p, h) = elim (Bool-cases (e.beq i k)) [
    | inl hit ↦ rw hit (p, h)
    | inr miss ↦
        rw miss
          (Fresh-upsert i k d f m (λ q. beq-ne i k miss (sym q)) p, NodupKeys-upsert k d f m h)
  ]

  -- An update establishes `Q` for its key, and keeps what `P` says of the others.
  pub All-upsert :
      (P Q : K × V → Type 0) (k : K) (d : V) (f : V → V)
      → Q (k, f d)
      → ((v : V) → P (k, v) → Q (k, f v))
      → ((j : K) (v : V) → j ≢ k → P (j, v) → Q (j, v))
      → (m : List (K × V)) → NodupKeys m
      → All P m
      → All Q (upsert k d f m)
  All-upsert P Q k d f new hit miss [] _ _ = (new, tt)
  All-upsert P Q k d f new hit miss ((i, v) ∷ m) (fresh, nodup) (p, h) =
      elim (Bool-cases (e.beq i k)) [
        | inl same ↦
            let q = (e.beq_iff i k).0 same in
            rw same (
              subst (λ j. P (j, v) → Q (j, f v)) (sym q) (hit v) p,
              others m (subst (λ j. Fresh j m) q fresh) h,
            )
        | inr other ↦
            rw other (miss i v (beq-ne i k other) p, All-upsert P Q k d f new hit miss m nodup h)
      ]
    where
      others : (l : List (K × V)) → Fresh k l → All P l → All Q l
      others [] _ _ = tt
      others ((j, w) ∷ l) (ne, fr) (r, rs) = (miss j w ne r, others l fr rs)

  -- The same for one property of all entries.
  pub All-upsert_self :
      (P : K × V → Type 0) (k : K) (d : V) (f : V → V)
      → P (k, f d)
      → ((v : V) → P (k, v) → P (k, f v))
      → (m : List (K × V)) → All P m
      → All P (upsert k d f m)
  All-upsert_self P k d f new hit [] _ = (new, tt)
  All-upsert_self P k d f new hit ((i, v) ∷ m) (p, h) = elim (Bool-cases (e.beq i k)) [
    | inl same ↦
        let q = (e.beq_iff i k).0 same in
        rw same (subst (λ j. P (j, v) → P (j, f v)) (sym q) (hit v) p, h)
    | inr other ↦ rw other (p, All-upsert_self P k d f new hit m h)
  ]

  pub lookup-upsert-none :
      (j k : K) (d : V) (f : V → V) (m : List (K × V))
      → lookup j (upsert k d f m) ≡ none
      → (e.beq k j ≡ false) × (lookup j m ≡ none)
  lookup-upsert-none j k d f [] h = ground arith
  lookup-upsert-none j k d f ((i, v) ∷ m) h =
      ground (arith, (e.beq_iff i k).0, lookup-upsert-none j k d f m)

  pub upsert-ne : (k : K) (d : V) (f : V → V) (m : List (K × V)) → is_empty (upsert k d f m) ≡ false
  upsert-ne k d f [] = refl
  upsert-ne k d f ((i, v) ∷ m) = ground arith

  pub All-remove : (P : K × V → Type 0) (k : K) (m : List (K × V)) → All P m → All P (remove k m)
  All-remove P k [] h = tt
  All-remove P k ((i, v) ∷ m) (p, h) = elim (Bool-cases (e.beq i k)) [
    | inl hit ↦ rw hit (All-remove P k m h)
    | inr miss ↦ rw miss (p, All-remove P k m h)
  ]

  pub NodupKeys-remove : (k : K) (m : List (K × V)) → NodupKeys m → NodupKeys (remove k m)
  NodupKeys-remove k [] h = tt
  NodupKeys-remove k ((i, v) ∷ m) (p, h) = elim (Bool-cases (e.beq i k)) [
    | inl hit ↦ rw hit (NodupKeys-remove k m h)
    | inr miss ↦ rw miss (All-remove (λ q. q.0 ≢ i) k m p, NodupKeys-remove k m h)
  ]
