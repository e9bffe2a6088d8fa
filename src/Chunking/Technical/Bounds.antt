-- ===== src/Chunking/Technical/Bounds.antt =====
-- The limit on the chunks of `split_technical_content`, and what they begin with.
use paperbridge.Prelude.{
  All, All-imp, Bool-cases, inl, inr, length, ℕ, ◌<◌, ◌≤◌, All-append, All-concat, List, Option, [],
  arith, foldl_inv, is_empty, is_empty→eq, is_empty→ne, is_empty→pos, length-append, length-take,
  ltb, max, not_ltb→le, refl, subst, take, ◌*◌, ◌++◌, ◌+◌, ◌-◌, ◌/◌, ◌∷◌, ◌≡◌, ◌≢◌, ◌⊎◌, foldl,
}
use paperbridge.Text.{Text, lines, codes, trim, trim_end}
use paperbridge.Text.Sizes.{NonEmpty, length-trim, length-trim_end, trim_idem}
use paperbridge.Chunking.Pack.{Fits, Packer, empty_packer, finish, pack, take_current}
use paperbridge.Chunking.Technical.{
  split_block, starts_fenced, block_step, breadcrumb_prefix, crumb_text, prefix_parts,
  segment_markdown_blocks, split_technical_content,
}
use paperbridge.Chunking.Technical.Code.{line_split_block-Fits, split_code_block-Short}

-- Here the parts may be blank: `trim` and `filter` drop those later.
abbrev Short : ℕ → Text → Type 0
Short m c = length c ≤ m

split_block-Short : (block : Text) (m : ℕ) → 0 < m → All (Short m) (split_block block m)
unfolding split_block
split_block-Short block m pos = elim (Bool-cases (starts_fenced (lines block))) [
  | inl code ↦ rw code (split_code_block-Short block m pos)
  | inr prose ↦
      rw prose (All-imp (Fits m) (Short m) (λ a h. h.1) _ (line_split_block-Fits block m pos))
]

record IsBounded (m : ℕ) (s : Packer) : Type 0 where
  out_short : All (Short m) s.out
  current_short : length s.current ≤ m
  counted : (s.current ≡ []) ⊎ (s.current_len ≡ length s.current)

module _ (m : ℕ) (s : Packer) where
  push_current : IsBounded m s → All (Short m) (s.out ++ s.current ∷ [])
  push_current h = All-concat (Short m) s.out s.current h.out_short h.current_short

  pack-IsBounded :
      (sep piece : Text) → length piece ≤ m → IsBounded m s → IsBounded m (pack sep m s piece)
  unfolding pack
  pack-IsBounded sep piece fits h = ground (
    arith,
    push_current,
    is_empty→eq s.current,
    length-append s.current piece,
    length-append s.current (sep ++ piece),
    length-append sep piece,
  )

  emit-IsBounded :
      (pieces : List Text)
      → All (Short m) pieces
      → IsBounded m s
      → IsBounded m (record (take_current s) { out = (take_current s).out ++ pieces })
  unfolding take_current
  emit-IsBounded pieces short h = ground (
    arith,
    push_current,
    All-append (Short m) s.out pieces,
    All-append (Short m) (s.out ++ s.current ∷ []) pieces,
  )

  finish-Short : IsBounded m s → All (Short m) (finish s)
  unfolding finish
  finish-Short h = ground (arith, push_current)

block_step-IsBounded :
    (m : ℕ)
    → 0 < m
    → (s : Packer) (block : Text) → IsBounded m s
    → IsBounded m (block_step m s block)
unfolding block_step
block_step-IsBounded m pos s block h = elim (Bool-cases (ltb m (length block))) [
  | inl long ↦ rw long (emit-IsBounded m s (split_block block m) (split_block-Short block m pos) h)
  | inr short ↦
      rw short (pack-IsBounded m s (codes "\n\n") block (not_ltb→le m (length block) short) h)
]

length-trim_crumb : (n : ℕ) (crumb : Text) → length (trim_end (take n crumb)) ≤ n
length-trim_crumb n crumb = omega (arith, length-trim_end (take n crumb), length-take n crumb)

-- A breadcrumb takes at most half of the budget.
pub breadcrumb_prefix-half :
    (breadcrumb : Option Text) (limit : ℕ) → 2 * length (breadcrumb_prefix breadcrumb limit) ≤ limit
unfolding breadcrumb_prefix
breadcrumb_prefix-half breadcrumb limit =
    let crumb = crumb_text breadcrumb in
    let kept = trim_end (take (limit / 2 - 2) crumb) in
    ground (
      arith,
      length-trim_crumb (limit / 2 - 2) crumb,
      is_empty→pos kept,
      length-append kept (codes "\n\n"),
    )

-- A chunk is the prefix and a text that is not blank at its ends, within the limit.
abbrev pub IsChunk : Text → ℕ → Text → Type 0
IsChunk prefix limit c =
    (body : Text) × (c ≡ prefix ++ body) × NonEmpty body × (trim body ≡ body) × (length c ≤ limit)

prefix_parts-IsChunk :
    (prefix : Text) (m : ℕ) (parts : List Text)
    → All (Short m) parts
    → All (IsChunk prefix (length prefix + m)) (prefix_parts prefix parts)
unfolding prefix_parts
prefix_parts-IsChunk prefix m [] _ = tt
prefix_parts-IsChunk prefix m (p ∷ ps) (h, hs) = elim (Bool-cases (is_empty (trim p))) [
  | inl blank ↦ rw blank (prefix_parts-IsChunk prefix m ps hs)
  | inr full ↦ rw full (
    (
      trim p,
      refl,
      is_empty→ne (trim p) full,
      trim_idem p,
      omega (arith, length-append prefix (trim p), length-trim p),
    ),
    prefix_parts-IsChunk prefix m ps hs,
  )
]

-- Every chunk of technical text begins with the breadcrumb's prefix, which takes at most half of
-- the limit; a trimmed text that is not empty stands behind it, and the chunk as a whole has at
-- most `max(max_chars, 1)` characters.
pub split_technical_content-IsChunk :
    (input : Text) (max_chars : ℕ) (breadcrumb : Option Text)
    → let limit = max max_chars 1 in
      let prefix = breadcrumb_prefix breadcrumb limit in
      (2 * length prefix ≤ limit)
      × All
          (λ c.
            (body : Text) × (c ≡ prefix ++ body)
            × (body ≢ [])
            × (trim body ≡ body)
            × (length c ≤ limit))
          (split_technical_content input max_chars breadcrumb)
unfolding split_technical_content
split_technical_content-IsChunk input max_chars breadcrumb =
    let limit = max max_chars 1 in
    let prefix = breadcrumb_prefix breadcrumb limit in
    let half = breadcrumb_prefix-half breadcrumb limit in
    let m = limit - length prefix in
    let whole : length prefix + m ≡ limit = omega arith in
    let short = finish-Short m _ (
      foldl_inv (IsBounded m) (block_step m) (block_step-IsBounded m (omega arith)) empty_packer
        (segment_markdown_blocks (trim input)) (ground arith)) in
    (
      half,
      elim (Bool-cases (is_empty (trim input))) [
        | inl blank ↦ rw blank tt
        | inr full ↦ rw full (
            subst
              (λ n. All (IsChunk prefix n) (
                prefix_parts prefix (
                  finish
                    (foldl (block_step m) empty_packer (segment_markdown_blocks (trim input))))))
              whole (prefix_parts-IsChunk prefix m _ short))
      ],
    )
