-- ===== src/Chunking/Technical/Code.antt =====
-- The parts of a fenced code block keep the limit.
use paperbridge.Prelude.{
  All, All-concat, Bool-cases, List, Option, [], arith, foldl_inv, inl, inr, length, length-append,
  ltb, map, none, not_ltb→le, some, subst, ℕ, ◌++◌, ◌+◌, ◌<◌, ◌∷◌, ◌≡◌, ◌≤◌, All-append, All-imp,
  leb, ◌-◌,
}
use paperbridge.Text.{Text, lines, trim}
use paperbridge.Chunking.Pack.{
  Fits, IsPacked, Packer, emit-IsPacked, empty_packer, finish-Fits, pack-IsPacked,
}
use paperbridge.Chunking.HardSplit.{hard_split, hard_split-Fits}
use paperbridge.Chunking.Windows.{char_windows, char_windows-Fits}
use paperbridge.Chunking.Technical.{
  newline, fence, line_step, line_split_block, CodeParts, fenced, take_code, add_line,
  fence_overhead, drop_fence, join_lines, split_code_block, code_lines, code_step, end_code,
  split_fenced, split_lines,
}

line_step-IsPacked :
    (m : ℕ) → 0 < m → (s : Packer) (line : Text) → IsPacked m s → IsPacked m (line_step m s line)
unfolding line_step
line_step-IsPacked m pos s line h = elim (Bool-cases (ltb m (length line))) [
  | inl long ↦ rw long (
      emit-IsPacked m s (hard_split line m)
        (subst (λ k. All (Fits k) (hard_split line m)) (omega arith) (hard_split-Fits line m)) h)
  | inr short ↦ rw short (pack-IsPacked m s newline line (not_ltb→le m (length line) short) h)
]

pub line_split_block-Fits : (block : Text) (m : ℕ) → 0 < m → All (Fits m) (line_split_block block m)
unfolding line_split_block
line_split_block-Fits block m pos = finish-Fits m _ (
    foldl_inv (IsPacked m) (line_step m) (line_step-IsPacked m pos) empty_packer (lines block)
      (ground arith))

-- A part of at most `k` characters between the fences.
abbrev Short : ℕ → Text → Type 0
Short k body = length body ≤ k

abbrev CurrentShort : ℕ → Option (Text × ℕ) → Type 0
CurrentShort k none = Unit
CurrentShort k (some (body, len)) = (len ≡ length body) × (len ≤ k)

record IsCode (header : Text) (k : ℕ) (s : CodeParts) : Type 0 where
  parts_short : All (Short (fence_overhead header + k)) s.parts
  current_short : CurrentShort k s.current

length-fenced :
    (header body : Text) → length (fenced header body) ≡ fence_overhead header + length body
unfolding fenced fence_overhead
length-fenced header body = omega (
  arith,
  length-append header (newline ++ (body ++ (newline ++ fence))),
  length-append body (newline ++ fence),
)

module _ (header : Text) (k : ℕ) where
  push_fenced :
      (parts : List Text) (body : Text)
      → length body ≤ k
      → All (Short (fence_overhead header + k)) parts
      → All (Short (fence_overhead header + k)) (parts ++ fenced header body ∷ [])
  push_fenced parts body short h =
      All-concat (Short (fence_overhead header + k)) parts (fenced header body) h
        (omega (arith, length-fenced header body))

  push_windows :
      (pieces : List Text)
      → All (Fits k) pieces
      → All (Short (fence_overhead header + k)) (map (fenced header) pieces)
  push_windows [] _ = tt
  push_windows (p ∷ ps) (h, hs) = (omega (arith, length-fenced header p, h.1), push_windows ps hs)

  take_code-Short :
      (parts : List Text) (current : Option (Text × ℕ))
      → All (Short (fence_overhead header + k)) parts
      → CurrentShort k current
      → All (Short (fence_overhead header + k)) (take_code header parts current)
  unfolding take_code
  take_code-Short parts none h c = h
  take_code-Short parts (some (body, len)) h c = push_fenced parts body (omega arith) h

  end_code-Short :
      (parts : List Text) (current : Option (Text × ℕ))
      → All (Short (fence_overhead header + k)) parts
      → CurrentShort k current
      → All (Short (fence_overhead header + k)) (end_code header parts current)
  unfolding end_code
  end_code-Short parts none h c = h
  end_code-Short parts (some (body, len)) h c = ground (arith, push_fenced parts body)

  add_line-IsCode :
      (parts : List Text) (current : Option (Text × ℕ)) (line : Text)
      → length line ≤ k
      → All (Short (fence_overhead header + k)) parts
      → CurrentShort k current
      → IsCode header k (add_line header k parts current line)
  unfolding add_line
  add_line-IsCode parts none line short h c = ground arith
  add_line-IsCode parts (some (body, len)) line short h c =
      ground (arith, push_fenced parts body, length-append body (newline ++ line))

  code_step-IsCode :
      0 < k
      → (s : CodeParts) (line : Text) → IsCode header k s
      → IsCode header k (code_step header k s line)
  unfolding code_step
  code_step-IsCode pos s line h = elim (Bool-cases (ltb k (length line))) [
    | inl long ↦ rw long (record {
      parts_short =
          All-append (Short (fence_overhead header + k)) _ _
            (take_code-Short s.parts s.current h.parts_short h.current_short)
            (push_windows (char_windows line k) (
              subst (λ m. All (Fits m) (char_windows line k)) (omega arith)
                (char_windows-Fits line k)));
      current_short = tt;
    })
    | inr short ↦ rw short (
        add_line-IsCode s.parts s.current line (not_ltb→le k (length line) short) h.parts_short
          h.current_short)
  ]

  code_lines-Short :
      0 < k
      → (body : List Text) → All (Short (fence_overhead header + k)) (code_lines header k body)
  unfolding code_lines
  code_lines-Short pos body =
      let h =
        foldl_inv (IsCode header k) (code_step header k) (code_step-IsCode pos)
          (record { parts = []; current = none }) body (ground arith) in
      end_code-Short _ _ h.parts_short h.current_short

split_fenced-Short :
    (header : Text) (body : List Text) (m : ℕ) → 0 < m → All (Short m) (split_fenced header body m)
unfolding split_fenced
split_fenced-Short header body m pos = elim (Bool-cases (leb m (fence_overhead header))) [
  | inl tight ↦
      rw tight
        (All-imp (Fits m) (Short m) (λ a h. h.1) _ (line_split_block-Fits (join_lines body) m pos))
  | inr room ↦ rw room (
      subst (λ n. All (Short n) (code_lines header (m - fence_overhead header) body)) (ground arith)
        (code_lines-Short header (m - fence_overhead header) (ground arith) body))
]

split_lines-Short : (ls : List Text) (m : ℕ) → 0 < m → All (Short m) (split_lines ls m)
unfolding split_lines
split_lines-Short [] m pos = tt
split_lines-Short (l ∷ ls) m pos = split_fenced-Short (trim l) (drop_fence ls) m pos

-- Every part of a split code block keeps the limit, its fences included.
pub split_code_block-Short :
    (block : Text) (m : ℕ) → 0 < m → All (λ part. length part ≤ m) (split_code_block block m)
unfolding split_code_block
split_code_block-Short block m pos = split_lines-Short (lines block) m pos
