-- ===== src/Chunking/Pack.antt =====
-- The accumulator of the packing loops of src/chunking.rs: the finished chunks, the chunk that is
-- being filled, and its length in characters.
use paperbridge.Prelude.{
  All, All-concat, List, [], append-nil, append_assoc, arith, concat, false, if◌then◌else◌,
  is_empty, is_empty→eq, is_empty→ne, leb, length, length-append, ℕ, ◌++◌, ◌+◌, ◌∷◌, ◌≡◌, ◌≤◌, ◌⊎◌,
  concat-concat, foldl, sym, All-append, concat-append,
}
use paperbridge.Text.{Text}
use paperbridge.Text.Ink.{ink, ink-append}
use paperbridge.Text.Sizes.{NonEmpty}

pub record Packer : Type 0 where
  pub out : List Text
  pub current : Text
  pub current_len : ℕ

abbrev pub empty_packer : Packer
empty_packer = record { out = []; current = []; current_len = 0 }

-- The three-way branch at the end of each loop's body: start a chunk, extend it, or begin the next.
unfoldable pub pack : Text → ℕ → Packer → Text → Packer
pack sep max_chars s piece =
    let n = length piece in
    if is_empty s.current
    then record s { current = s.current ++ piece; current_len = n }
    else if leb (s.current_len + length sep + n) max_chars
    then record s {
      current = s.current ++ (sep ++ piece);
      current_len = s.current_len + (length sep + n);
    }
    else record s { out = s.out ++ s.current ∷ []; current = piece; current_len = n }

-- `if !current.is_empty() { out.push(take(&mut current)); current_len = 0 }`.
unfoldable pub take_current : Packer → Packer
take_current s =
    if is_empty s.current
    then s
    else record { out = s.out ++ s.current ∷ []; current = []; current_len = 0 }

-- The chunks at the end of a loop.
unfoldable pub finish : Packer → List Text
finish s = if is_empty s.current then s.out else s.out ++ s.current ∷ []

-- A chunk that holds something and keeps the limit.
abbrev pub Fits : ℕ → Text → Type 0
Fits max_chars c = NonEmpty c × (length c ≤ max_chars)

-- The finished chunks and the current one fit, and the length is the current chunk's.
pub record IsPacked (max_chars : ℕ) (s : Packer) : Type 0 where
  pub out_fits : All (Fits max_chars) s.out
  pub current_fits : length s.current ≤ max_chars
  pub counted : (s.current ≡ []) ⊎ (s.current_len ≡ length s.current)

pub take_current-empty : (s : Packer) → (take_current s).current ≡ []
unfolding take_current
take_current-empty s = ground (arith, is_empty→eq s.current)

module _ (max_chars : ℕ) (s : Packer) where
  push_current :
      is_empty s.current ≡ false
      → IsPacked max_chars s
      → All (Fits max_chars) (s.out ++ s.current ∷ [])
  push_current full h =
      All-concat (Fits max_chars) s.out s.current h.out_fits
        (is_empty→ne s.current full, h.current_fits)

  pub pack-IsPacked :
      (sep piece : Text)
      → length piece ≤ max_chars
      → IsPacked max_chars s
      → IsPacked max_chars (pack sep max_chars s piece)
  unfolding pack
  pack-IsPacked sep piece fits h = ground (
    arith,
    push_current,
    is_empty→eq s.current,
    length-append s.current piece,
    length-append s.current (sep ++ piece),
    length-append sep piece,
  )

  pub take_current-IsPacked : IsPacked max_chars s → IsPacked max_chars (take_current s)
  unfolding take_current
  take_current-IsPacked h = ground (arith, push_current)

  pub finish-Fits : IsPacked max_chars s → All (Fits max_chars) (finish s)
  unfolding finish
  finish-Fits h = ground (arith, push_current)

-- All the text that the accumulator holds.
abbrev pub held : Packer → Text
held s = concat s.out ++ s.current

pub concat-take_current : (s : Packer) → concat (take_current s).out ≡ held s
unfolding take_current
concat-take_current s =
    ground (arith, concat-concat s.out s.current, is_empty→eq s.current, append-nil (concat s.out))

pub concat-finish : (s : Packer) → concat (finish s) ≡ held s
unfolding finish
concat-finish s =
    ground (arith, concat-concat s.out s.current, is_empty→eq s.current, append-nil (concat s.out))

-- Packing loses nothing but the whitespace that separates the pieces.
pub ink-pack :
    (sep : Text) (max_chars : ℕ) (s : Packer) (piece : Text)
    → ink sep ≡ []
    → ink (held (pack sep max_chars s piece)) ≡ ink (held s) ++ ink piece
unfolding pack
ink-pack sep max_chars s piece blank = ground (
  arith,
  concat-concat s.out s.current,
  is_empty→eq s.current,
  append-nil (concat s.out),
  ink-append (concat s.out ++ s.current) piece,
  ink-append (concat s.out ++ s.current) (sep ++ piece),
  ink-append sep piece,
  append_assoc (concat s.out) s.current (sep ++ piece),
  append_assoc (concat s.out) s.current piece,
)

-- A loop whose rounds keep the ink keeps that of all its pieces.
pub ink_loop :
    (step : Packer → Text → Packer)
    → ((s : Packer) (piece : Text) → ink (held (step s piece)) ≡ ink (held s) ++ ink piece)
    → (s : Packer) (pieces : List Text)
    → ink (held (foldl step s pieces)) ≡ ink (held s) ++ ink (concat pieces)
ink_loop step adds s [] = sym (append-nil (ink (held s)))
ink_loop step adds s (p ∷ ps) =
    rw (ink_loop step adds (step s p) ps, adds s p, ink-append p (concat ps))
      (append_assoc (ink (held s)) (ink p) (ink (concat ps)))

-- Pieces of a part above the limit go out behind the current chunk.
pub emit-IsPacked :
    (m : ℕ) (s : Packer) (pieces : List Text)
    → All (Fits m) pieces
    → IsPacked m s
    → IsPacked m (record (take_current s) { out = (take_current s).out ++ pieces })
emit-IsPacked m s pieces fits h =
    let t = take_current-IsPacked m s h in
    record {
      out_fits = All-append (Fits m) _ _ t.out_fits fits;
      current_fits = t.current_fits;
      counted = t.counted;
    }

pub emit-ink :
    (s : Packer) (pieces : List Text)
    → ink (held (record (take_current s) { out = (take_current s).out ++ pieces }))
      ≡ ink (held s) ++ ink (concat pieces)
emit-ink s pieces =
    rw
      (
        take_current-empty s,
        append-nil,
        concat-append (take_current s).out pieces,
        concat-take_current s,
      )
      (ink-append (held s) (concat pieces))
