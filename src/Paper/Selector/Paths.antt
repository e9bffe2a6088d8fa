-- ===== src/Paper/Selector/Paths.antt =====
-- The selector of a path leads to the end of the path.
use paperbridge.Text.Sizes.{trim_ink}
use paperbridge.Prelude.{
  All, List, [], ap, append-nil, append_assoc, arith, false, is_empty, sym, ℕ, ◌++◌, ◌<◌, ◌==◌, ◌^◌,
  ◌∙◌, ◌∷◌, ◌≡◌, All-imp, refl, true, All-append, All-concat, Bool, ltb, ◌||◌, ◌≤◌,
}
use paperbridge.Text.{
  Text, is_whitespace, is_ascii_digit, byte_len, codes, eq_text, trim, trim_end, trim_start,
}
use paperbridge.Validation.Decimal.{to_decimal}
use paperbridge.Paper.Selector.{
  Selected, Shape, descend_index, descend_key, in_index, in_key, selected, walk, ◌>>-◌, invalid,
  leave_index, leave_key, evaluate,
}
use paperbridge.Paper.Selector.Indices.{AllDigits, parse_u64-to_decimal, to_decimal-AllDigits}

-- One step of a path, and its text: `[i]`, or the key behind a `.`.
pub data Step : Type 0 where
  key : Text → Step
  index : ℕ → Step

-- A key that a selector can name: not empty, and without a `.`, a `[` or white space.
abbrev pub IsPlainChar : ℕ → Type 0
IsPlainChar c = ((c == b'.') ≡ false) × ((c == b'[') ≡ false) × (is_whitespace c ≡ false)

abbrev pub IsPlain : Step → Type 0
IsPlain (key k) = (is_empty k ≡ false) × All IsPlainChar k
IsPlain (index i) = i < 2 ^ 64

abbrev pub bracketed : ℕ → Text
bracketed i = b'[' ∷ (to_decimal i ++ b']' ∷ [])

-- The steps behind the first.
abbrev pub selector_rest : List Step → Text
selector_rest [] = []
selector_rest (key k ∷ steps) = b'.' ∷ (k ++ selector_rest steps)
selector_rest (index i ∷ steps) = bracketed i ++ selector_rest steps

abbrev pub selector_of : List Step → Text
selector_of [] = []
selector_of (key k ∷ steps) = k ++ selector_rest steps
selector_of (index i ∷ steps) = bracketed i ++ selector_rest steps

>>-cong :
    {V W : Type 0} (m : Selected V) (f g : V → Selected W)
    → ((v : V) → f v ≡ g v)
    → (m >>- f) ≡ (m >>- g)
>>-cong (selected v) f g h = h v
>>-cong (invalid e) f g h = refl

>>-selected : {V : Type 0} (m : Selected V) → m ≡ (m >>- λ v. selected v)
>>-selected (selected v) = refl
>>-selected (invalid e) = refl

digits-ink : (s : Text) → AllDigits s → All (λ c. is_whitespace c ≡ false) s
digits-ink s h = All-imp (λ c. is_ascii_digit c ≡ true) (λ c. is_whitespace c ≡ false) digit-ink s h
  where
    digit-ink : (c : ℕ) → is_ascii_digit c ≡ true → is_whitespace c ≡ false
    digit-ink c h = unfold is_whitespace in ground arith

module _ {V : Type 0} (shape : V → Shape V) where
  -- Going down step by step.
  abbrev pub follow : V → List Step → Selected V
  follow v [] = selected v
  follow v (key k ∷ steps) = descend_key shape v k >>- λ w. follow w steps
  follow v (index i ∷ steps) = descend_index shape v i >>- λ w. follow w steps

  walk_key :
      (v : V) (buf k rest : Text)
      → All IsPlainChar k
      → walk shape v (in_key buf) (k ++ rest) ≡ walk shape v (in_key (buf ++ k)) rest
  unfolding walk
  walk_key v buf [] rest h = ap (λ b. walk shape v (in_key b) rest) (sym (append-nil buf))
  walk_key v buf (c ∷ k) rest ((dot, bracket, ink), h) =
      rw (dot, bracket)
        (walk_key v (buf ++ c ∷ []) k rest h
          ∙ ap (λ b. walk shape v (in_key b) rest) (append_assoc buf (c ∷ []) k))

  walk_index :
      (v : V) (buf digits rest : Text)
      → AllDigits digits
      → walk shape v (in_index buf) (digits ++ rest) ≡ walk shape v (in_index (buf ++ digits)) rest
  unfolding walk
  walk_index v buf [] rest h = ap (λ b. walk shape v (in_index b) rest) (sym (append-nil buf))
  walk_index v buf (c ∷ digits) rest (digit, h) =
      let open_ : (c == b']') ≡ false = ground arith in
      rw open_ (
        walk_index v (buf ++ c ∷ []) digits rest h
        ∙ ap (λ b. walk shape v (in_index b) rest) (append_assoc buf (c ∷ []) digits))

  leave_index-to_decimal :
      (v : V) (i : ℕ) → i < 2 ^ 64 → leave_index shape v (to_decimal i) ≡ descend_index shape v i
  unfolding leave_index
  leave_index-to_decimal v i small =
      let bare = trim_ink (to_decimal i) (digits-ink (to_decimal i) (to_decimal-AllDigits i)) in
      rw (bare, parse_u64-to_decimal i small) refl

  leave_key-full :
      (v : V) (k : Text) → is_empty k ≡ false → leave_key shape v k ≡ descend_key shape v k
  unfolding leave_key
  leave_key-full v k full = rw full refl

  -- What is left of a selector behind a key that was read, or behind nothing.
  walk_rest :
      (v : V) (buf : Text) (steps : List Step)
      → All IsPlain steps
      → walk shape v (in_key buf) (selector_rest steps)
        ≡ (leave_key shape v buf >>- λ w. follow w steps)
  unfolding walk leave_key
  walk_rest v buf [] h = >>-selected (leave_key shape v buf)
  walk_rest v buf (key k ∷ steps) ((full, plain), h) = >>-cong (leave_key shape v buf) _ _ (λ w.
      walk_key w [] k (selector_rest steps) plain
      ∙ walk_rest w k steps h
      ∙ ap (λ m. m >>- λ x. follow x steps) (leave_key-full w k full))
  walk_rest v buf (index i ∷ steps) (small, h) = >>-cong (leave_key shape v buf) _ _ (λ w.
      ap (walk shape w (in_index []))
        (append_assoc (to_decimal i) (b']' ∷ []) (selector_rest steps))
      ∙ walk_index w [] (to_decimal i) (b']' ∷ selector_rest steps) (to_decimal-AllDigits i)
      ∙ ap (λ m. m >>- λ x. walk shape x (in_key []) (selector_rest steps))
          (leave_index-to_decimal w i small)
      ∙ >>-cong (descend_index shape w i) _ _ (λ x. walk_rest x [] steps h))

abbrev Ink : Text → Type 0
Ink = All (λ c. is_whitespace c ≡ false)

plain-Ink : (k : Text) → All IsPlainChar k → Ink k
plain-Ink k h = All-imp IsPlainChar (λ c. is_whitespace c ≡ false) (λ c (_, _, ink). ink) k h

bracketed-Ink : (i : ℕ) → Ink (bracketed i)
unfolding is_whitespace
bracketed-Ink i = (
  refl,
  All-concat (λ c. is_whitespace c ≡ false) (to_decimal i) b']'
      (digits-ink (to_decimal i) (to_decimal-AllDigits i)) refl,
)

selector_rest-Ink : (steps : List Step) → All IsPlain steps → Ink (selector_rest steps)
selector_rest-Ink [] h = tt
selector_rest-Ink (key k ∷ steps) ((_, plain), h) = (
  dot,
  All-append (λ c. is_whitespace c ≡ false) k (selector_rest steps) (plain-Ink k plain)
      (selector_rest-Ink steps h),
)
  where
    dot : is_whitespace b'.' ≡ false
    dot = unfold is_whitespace in refl
selector_rest-Ink (index i ∷ steps) (_, h) =
    All-append (λ c. is_whitespace c ≡ false) (bracketed i) (selector_rest steps) (bracketed-Ink i)
      (selector_rest-Ink steps h)

selector_of-Ink : (steps : List Step) → All IsPlain steps → Ink (selector_of steps)
selector_of-Ink [] h = tt
selector_of-Ink (key k ∷ steps) ((_, plain), h) =
    All-append (λ c. is_whitespace c ≡ false) k (selector_rest steps) (plain-Ink k plain)
      (selector_rest-Ink steps h)
selector_of-Ink (index i ∷ steps) (_, h) =
    All-append (λ c. is_whitespace c ≡ false) (bracketed i) (selector_rest steps) (bracketed-Ink i)
      (selector_rest-Ink steps h)

-- The selector of a path is neither empty nor a single `.`, unless the path is empty.
names_root : Text → Bool
names_root s = is_empty s || eq_text s (codes ".")

key-names_root :
    (k rest : Text) → is_empty k ≡ false → All IsPlainChar k → names_root (k ++ rest) ≡ false
unfolding names_root
key-names_root [] rest full h = absurd (cc)
key-names_root (c ∷ k) rest full ((dot, _, _), h) = rw dot refl

module _ {V : Type 0} (shape : V → Shape V) where
  evaluate-at :
      (root : V) (s : Text)
      → Ink s
      → byte_len s ≤ 4096
      → names_root s ≡ false
      → evaluate shape root s ≡ walk shape root (in_key []) s
  unfolding evaluate names_root
  evaluate-at root s ink short named =
      let fits : ltb 4096 (byte_len s) ≡ false = ground arith in
      rw (trim_ink s ink, fits, named) refl

  -- The selector of a path of keys and indices, printed with `.` and brackets, leads where the path
  -- does, or to the error of its first step that fails: if no key is empty or has a `.`, a `[` or
  -- white space, the indices are below 2^64, and the selector has at most 4096 bytes.
  pub evaluate-selector_of :
      (root : V) (steps : List Step)
      → All IsPlain steps
      → byte_len (selector_of steps) ≤ 4096
      → evaluate shape root (selector_of steps) ≡ follow shape root steps
  evaluate-selector_of root [] h short = unfold evaluate trim trim_start trim_end byte_len in refl
  evaluate-selector_of root (key k ∷ steps) ((full, plain), h) short =
      evaluate-at root (k ++ selector_rest steps)
        (selector_of-Ink (key k ∷ steps) ((full, plain), h)) short
        (key-names_root k (selector_rest steps) full plain)
      ∙ walk_key shape root [] k (selector_rest steps) plain
      ∙ walk_rest shape root k steps h
      ∙ ap (λ m. m >>- λ x. follow shape x steps) (leave_key-full shape root k full)
  evaluate-selector_of root (index i ∷ steps) (small, h) short =
      evaluate-at root (bracketed i ++ selector_rest steps)
        (selector_of-Ink (index i ∷ steps) (small, h)) short (unfold names_root in refl)
      ∙ walk_rest shape root [] (index i ∷ steps) (small, h)
      ∙ empty_key shape root (λ w. follow shape w (index i ∷ steps))
    where
      empty_key :
          (shape : V → Shape V) (v : V) (next : V → Selected V)
          → (leave_key shape v [] >>- next) ≡ next v
      empty_key shape v next = unfold leave_key in refl
