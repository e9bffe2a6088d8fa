-- ===== src/Index/Tokenizer.antt =====
-- crates/paperseed-index/src/tokenizer.rs. The Unicode tables are parameters.
use paperbridge.Prelude.{
  All, Bool, Bool-cases, List, [], ap, arith, false, foldl, foldl_inv, if◌then◌else◌, inl, inr,
  is_empty, is_empty→eq, length, length-append, length-take, ltb, not, subst, take, true, ℕ, ◌&&◌,
  ◌++◌, ◌+◌, ◌-◌, ◌∷◌, ◌≡◌, ◌≤◌, All-concat,
}
use mathlib.Core.List.{reverse}
use paperbridge.Text.{Text, codes, starts_with}

pub record Unicode : Type 0 where
  pub nfkd : Text → Text
  pub is_combining_mark : ℕ → Bool
  pub is_alphanumeric : ℕ → Bool
  pub to_lowercase : ℕ → Text

abbrev ends_with : Text → Text → Bool
ends_with p s = starts_with (reverse p) (reverse s)

-- `token.truncate(token.len() - n)` behind `n` ASCII characters.
drop_last : ℕ → Text → Text
drop_last n s = take (length s - n) s

unfoldable pub stem : Text → Text
unfolding drop_last
stem token =
    let len = length token in
    if ltb 5 len && ends_with (codes "ies") token
    then drop_last 3 token ++ codes "y"
    else if ltb 5 len && ends_with (codes "ing") token
    then drop_last 3 token
    else if ltb 4 len && ends_with (codes "ed") token
    then drop_last 2 token
    else if ltb 4 len
        && ends_with (codes "s") token
        && not (ends_with (codes "ss") token)
        && not (ends_with (codes "us") token)
        && not (ends_with (codes "is") token)
    then drop_last 1 token
    else token

pub record Scan : Type 0 where
  pub out : List Text
  pub current : Text

module _ (u : Unicode) where
  scan_step : Scan → ℕ → Scan
  scan_step s ch =
      if u.is_combining_mark ch
      then s
      else if u.is_alphanumeric ch
      then record s { current = s.current ++ u.to_lowercase ch }
      else if is_empty s.current
      then s
      else record { out = s.out ++ stem s.current ∷ []; current = [] }

  unfoldable pub tokenize : Text → List Text
  unfolding scan_step
  tokenize text =
      let s = foldl scan_step (record { out = []; current = [] }) (u.nfkd text) in
      if is_empty s.current then s.out else s.out ++ stem s.current ∷ []

-- Stemming shortens a word by at most three characters, and leaves a word of at most four as it is.
pub length-stem :
    (token : Text)
    → (length (stem token) ≤ length token)
      × (length token ≤ length (stem token) + 3)
      × (length token ≤ 4 → stem token ≡ token)
unfolding stem
length-stem token = ground (
  arith,
  length-take (length token - 3) token,
  length-take (length token - 2) token,
  length-take (length token - 1) token,
  length-append (take (length token - 3) token) (codes "y"),
)

stem-NonEmpty : (token : Text) → is_empty token ≡ false → is_empty (stem token) ≡ false
stem-NonEmpty token h = elim (Bool-cases (is_empty (stem token))) [
  | inr full ↦ full
  | inl blank ↦
      let (short, near, same) = length-stem token in
      let none_left : length (stem token) ≡ 0 =
        omega (arith, ap (λ s. length s) (is_empty→eq (stem token) blank)) in
      let kept : stem token ≡ token = same (omega arith) in
      cc (subst (λ s. is_empty s ≡ true) kept blank)
]

abbrev Full : List Text → Type 0
Full = All (λ t. is_empty t ≡ false)

push_stem :
    (out : List Text) (current : Text)
    → is_empty current ≡ false
    → Full out
    → Full (out ++ stem current ∷ [])
push_stem out current full h =
    All-concat (λ t. is_empty t ≡ false) out (stem current) h (stem-NonEmpty current full)

module _ (u : Unicode) where
  scan_step-Full : (s : Scan) (ch : ℕ) → Full s.out → Full (scan_step u s ch).out
  unfolding scan_step
  scan_step-Full s ch h = ground (arith, push_stem s.out s.current)

  end_scan-Full :
      (s : Scan)
      → Full s.out
      → Full (if is_empty s.current then s.out else s.out ++ stem s.current ∷ [])
  end_scan-Full s h = ground (arith, push_stem s.out s.current)

  -- No token is empty, whatever the Unicode tables are.
  pub tokenize-NonEmpty : (text : Text) → All (λ t. is_empty t ≡ false) (tokenize u text)
  unfolding tokenize
  tokenize-NonEmpty text = end_scan-Full _ (
      foldl_inv (λ s. Full s.out) (scan_step u) scan_step-Full (record { out = []; current = [] })
        (u.nfkd text) tt)
