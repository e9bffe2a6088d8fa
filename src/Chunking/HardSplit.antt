-- ===== src/Chunking/HardSplit.antt =====
-- `hard_split` of src/chunking.rs.
use paperbridge.Prelude.{
  All, All-append, Bool-cases, List, [], append-nil, append_assoc, arith, concat, foldl, foldl_inv,
  if◌then◌else◌, inl, inr, length, ltb, max, not_ltb→le, refl, subst, sym, ℕ, ◌++◌, ◌<◌, ◌∙◌, ◌∷◌,
  ◌≡◌, ◌≤◌, ap, concat-append,
}
use paperbridge.Text.{Text, codes, split_whitespace}
use paperbridge.Text.Ink.{ink, concat-split_whitespace, ink-append, ink_idem, ink_space}
use paperbridge.Chunking.Pack.{
  Fits, IsPacked, Packer, empty_packer, finish, finish-Fits, held, ink-pack, pack, pack-IsPacked,
  take_current, take_current-IsPacked, concat-finish, concat-take_current, ink_loop,
}
use paperbridge.Chunking.Windows.{char_windows, char_windows-Fits, concat-char_windows}

-- `pieces.pop().unwrap_or_default()`, after the pieces that it leaves.
unfoldable pub pop_last : List Text → List Text × Text
pop_last [] = ([], [])
pop_last (x ∷ []) = ([], x)
pop_last (x ∷ y ∷ xs) = let (rest, last) = pop_last (y ∷ xs) in (x ∷ rest, last)

-- The body of the loop over the words. A word above the limit is cut; its last piece stays open.
hard_step : ℕ → Packer → Text → Packer
hard_step max_chars s word =
    if ltb max_chars (length word)
    then (let t = take_current s in
        let (pieces, last) = pop_last (char_windows word max_chars) in
        record { out = t.out ++ pieces; current = last; current_len = length last })
    else pack (codes " ") max_chars s word

unfoldable pub hard_split : Text → ℕ → List Text
unfolding hard_step
hard_split sentence max_chars =
    finish (foldl (hard_step (max max_chars 1)) empty_packer (split_whitespace sentence))

pop_last-Fits :
    (m : ℕ) (xs : List Text)
    → All (Fits m) xs
    → All (Fits m) (pop_last xs).0 × (length (pop_last xs).1 ≤ m)
unfolding pop_last
pop_last-Fits m [] _ = (tt, omega arith)
pop_last-Fits m (x ∷ []) (h, _) = (tt, h.1)
pop_last-Fits m (x ∷ y ∷ xs) (h, hs) =
    let (rest, last) = pop_last-Fits m (y ∷ xs) hs in ((h, rest), last)

concat-pop_last : (xs : List Text) → concat (pop_last xs).0 ++ (pop_last xs).1 ≡ concat xs
unfolding pop_last
concat-pop_last [] = refl
concat-pop_last (x ∷ []) = sym (append-nil x)
concat-pop_last (x ∷ y ∷ xs) = simp (append_assoc, concat-pop_last (y ∷ xs))

cut_word-IsPacked :
    (m : ℕ) (s : Packer) (pieces : List Text)
    → All (Fits m) pieces
    → IsPacked m s
    → IsPacked m (record {
      out = (take_current s).out ++ (pop_last pieces).0;
      current = (pop_last pieces).1;
      current_len = length (pop_last pieces).1;
    })
cut_word-IsPacked m s pieces fits h =
    let (rest, last) = pop_last-Fits m pieces fits in
    record {
      out_fits = All-append (Fits m) _ _ (take_current-IsPacked m s h).out_fits rest;
      current_fits = last;
      counted = inr refl;
    }

hard_step-IsPacked :
    (m : ℕ) → 0 < m → (s : Packer) (word : Text) → IsPacked m s → IsPacked m (hard_step m s word)
unfolding hard_step
hard_step-IsPacked m pos s word h = elim (Bool-cases (ltb m (length word))) [
  | inl long ↦ rw long (
      cut_word-IsPacked m s (char_windows word m)
        (subst (λ k. All (Fits k) (char_windows word m)) (omega arith) (char_windows-Fits word m))
        h)
  | inr short ↦ rw short (pack-IsPacked m s (codes " ") word (not_ltb→le m (length word) short) h)
]

-- Every piece holds a character and is at most `max(max_chars, 1)` characters long.
pub hard_split-Fits :
    (sentence : Text) (max_chars : ℕ) → All (Fits (max max_chars 1)) (hard_split sentence max_chars)
unfolding hard_split
hard_split-Fits sentence max_chars =
    let m = max max_chars 1 in
    finish-Fits m _ (
      foldl_inv (IsPacked m) (hard_step m) (hard_step-IsPacked m (omega arith)) empty_packer
        (split_whitespace sentence) (ground arith))

cut_word-ink :
    (s : Packer) (pieces : List Text)
    → ink ((concat ((take_current s).out ++ (pop_last pieces).0)) ++ (pop_last pieces).1)
      ≡ ink (held s) ++ ink (concat pieces)
cut_word-ink s pieces =
    rw
      (
        concat-append (take_current s).out (pop_last pieces).0,
        append_assoc,
        concat-pop_last pieces,
        concat-take_current s,
      )
      (ink-append (held s) (concat pieces))

hard_step-ink :
    (m : ℕ) (s : Packer) (word : Text) → ink (held (hard_step m s word)) ≡ ink (held s) ++ ink word
unfolding hard_step
hard_step-ink m s word = elim (Bool-cases (ltb m (length word))) [
  | inl long ↦ rw long (cut_word-ink s (char_windows word m) ∙ rw concat-char_windows)
  | inr short ↦ rw short (ink-pack (codes " ") m s word ink_space)
]

-- Hard splitting keeps every character that is no whitespace, in order.
pub hard_split-ink :
    (sentence : Text) (max_chars : ℕ) → ink (concat (hard_split sentence max_chars)) ≡ ink sentence
unfolding hard_split
hard_split-ink sentence max_chars =
    let m = max max_chars 1 in
    ap ink (concat-finish (foldl (hard_step m) empty_packer (split_whitespace sentence)))
    ∙ ink_loop (hard_step m) (hard_step-ink m) empty_packer (split_whitespace sentence)
    ∙ ap ink (concat-split_whitespace sentence)
    ∙ ink_idem sentence
