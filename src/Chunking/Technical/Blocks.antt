-- ===== src/Chunking/Technical/Blocks.antt =====
-- `segment_markdown_blocks` keeps the text: its blocks hold the characters of the input, and the
-- fence that closes an unterminated code block.
use paperbridge.Prelude.{
  not, Bool, List, [], ap, append-nil, arith, concat, concat-concat, if◌then◌else◌, is_empty,
  is_empty→eq, sym, true, ◌++◌, ◌∙◌, ◌∷◌, ◌≡◌, append_assoc, false, foldl, refl,
}
use paperbridge.Text.{Text, trim, trim_end, lines}
use paperbridge.Text.Ink.{ink, ink-append, ink-trim, ink-lines, ink-trim_end, ink_newline}
use paperbridge.Chunking.Technical.{
  Segments, is_fence_line, push_block, close_fence, fence, fence_step, newline, prose_step,
  segment_markdown_blocks, segment_step,
}

-- The text that the accumulator holds.
abbrev segment_text : Segments → Text
segment_text s = concat s.blocks ++ s.current_block

-- Whether a fence is open behind the lines: each fence line changes it.
pub fence_open : Bool → List Text → Bool
fence_open now [] = now
fence_open now (l ∷ ls) = fence_open (if is_fence_line l then not now else now) ls

ink-trim_end-concat :
    (blocks : List Text) (block : Text)
    → ink (concat (blocks ++ trim_end block ∷ [])) ≡ ink (concat blocks ++ block)
ink-trim_end-concat blocks block =
    ap ink (concat-concat blocks (trim_end block))
    ∙ ink-append (concat blocks) (trim_end block)
    ∙ ap (λ t. ink (concat blocks) ++ t) (ink-trim_end block)
    ∙ sym (ink-append (concat blocks) block)

blank_block :
    (blocks : List Text) (block : Text)
    → is_empty (trim block) ≡ true
    → ink (concat blocks ++ block) ≡ ink (concat blocks)
blank_block blocks block e =
    ink-append (concat blocks) block
    ∙ ap (λ t. ink (concat blocks) ++ t)
        (sym (ink-trim block) ∙ ap ink (is_empty→eq (trim block) e))
    ∙ append-nil (ink (concat blocks))

ink-push_block : (s : Segments) → ink (segment_text (push_block s)) ≡ ink (segment_text s)
unfolding push_block
ink-push_block s = ground (
  arith,
  blank_block s.blocks s.current_block,
  ink-trim_end-concat s.blocks s.current_block,
  append-nil (concat (s.blocks ++ trim_end s.current_block ∷ [])),
  append-nil (concat s.blocks),
)

pushed_block : (s : Segments) → ink (concat (push_block s).blocks) ≡ ink (segment_text s)
unfolding push_block
pushed_block s =
    ground
      (arith, blank_block s.blocks s.current_block, ink-trim_end-concat s.blocks s.current_block)

-- A line put behind the current block, with a line feed on one of its sides.
ink_extend :
    (t line sep₁ sep₂ : Text)
    → ink sep₁ ≡ []
    → ink sep₂ ≡ []
    → ink (t ++ (sep₁ ++ (line ++ sep₂))) ≡ ink t ++ ink line
ink_extend t line sep₁ sep₂ h k = rw (
  ink-append t (sep₁ ++ (line ++ sep₂)),
  ink-append sep₁ (line ++ sep₂),
  ink-append line sep₂,
  h,
  k,
  append-nil,
)

ink_line : (t line : Text) → ink (t ++ (line ++ newline)) ≡ ink t ++ ink line
ink_line t line = ink_extend t line [] newline refl ink_newline

ink_below : (t line : Text) → ink (t ++ (newline ++ line)) ≡ ink t ++ ink line
ink_below t line =
    ap (λ l. ink (t ++ (newline ++ l))) (sym (append-nil line))
    ∙ ink_extend t line newline [] ink_newline refl

-- The text behind the blocks grows by a line.
ink_grow :
    (blocks : List Text) (block grown line : Text)
    → ink grown ≡ ink block ++ ink line
    → ink (concat blocks ++ grown) ≡ ink (concat blocks ++ block) ++ ink line
ink_grow blocks block grown line h =
    rw (ink-append (concat blocks) grown, ink-append (concat blocks) block, h)
      (sym (append_assoc (ink (concat blocks)) (ink block) (ink line)))

prose_step-ink :
    (s : Segments) (line : Text)
    → ink (segment_text (prose_step s line)) ≡ ink (segment_text s) ++ ink line
unfolding prose_step
prose_step-ink s line = ground (
  arith,
  ink-push_block s,
  ink-trim line,
  is_empty→eq (trim line),
  is_empty→eq s.current_block,
  append-nil (ink (segment_text s)),
  ink_grow s.blocks s.current_block line line,
  ink_grow s.blocks s.current_block (s.current_block ++ (newline ++ line)) line,
  ink_below s.current_block line,
)

push_block-empty : (s : Segments) → (push_block s).current_block ≡ []
unfolding push_block
push_block-empty s = ground arith

close_block :
    (blocks : List Text) (block line : Text)
    → ink (
        segment_text (record {
          blocks = blocks ++ trim_end (block ++ (line ++ newline)) ∷ [];
          current_block = [];
          in_code_block = false;
        }))
      ≡ ink (concat blocks ++ block) ++ ink line
close_block blocks block line =
    ap ink (append-nil (concat (blocks ++ trim_end (block ++ (line ++ newline)) ∷ [])))
    ∙ ink-trim_end-concat blocks (block ++ (line ++ newline))
    ∙ ink_grow blocks block (block ++ (line ++ newline)) line (ink_line block line)

open_block :
    (s t : Segments) (line : Text)
    → ink (segment_text t) ≡ ink (segment_text s)
    → ink (concat t.blocks ++ (t.current_block ++ (line ++ newline)))
      ≡ ink (segment_text s) ++ ink line
open_block s t line h =
    ink_grow t.blocks t.current_block (t.current_block ++ (line ++ newline)) line
      (ink_line t.current_block line)
    ∙ ap (λ u. u ++ ink line) h

fence_step-ink :
    (s : Segments) (line : Text)
    → ink (segment_text (fence_step s line)) ≡ ink (segment_text s) ++ ink line
unfolding fence_step
fence_step-ink s line = ground (
  arith,
  close_block s.blocks s.current_block line,
  open_block s s line refl,
  open_block s (push_block s) line (ink-push_block s),
)

segment_step-ink :
    (s : Segments) (line : Text)
    → ink (segment_text (segment_step s line)) ≡ ink (segment_text s) ++ ink line
unfolding segment_step
segment_step-ink s line = ground (
  arith,
  fence_step-ink s line,
  prose_step-ink s line,
  ink_grow s.blocks s.current_block (s.current_block ++ (line ++ newline)) line,
  ink_line s.current_block line,
)

segment_step-in_code :
    (s : Segments) (line : Text)
    → (segment_step s line).in_code_block
      ≡ (if is_fence_line line then not s.in_code_block else s.in_code_block)
unfolding segment_step prose_step fence_step push_block
segment_step-in_code s line = ground arith

segment_loop-ink :
    (s : Segments) (ls : List Text)
    → ink (segment_text (foldl segment_step s ls)) ≡ ink (segment_text s) ++ ink (concat ls)
segment_loop-ink s [] = sym (append-nil (ink (segment_text s)))
segment_loop-ink s (l ∷ ls) =
    rw (segment_loop-ink (segment_step s l) ls, segment_step-ink s l, ink-append l (concat ls))
      (append_assoc (ink (segment_text s)) (ink l) (ink (concat ls)))

segment_loop-in_code :
    (s : Segments) (ls : List Text)
    → (foldl segment_step s ls).in_code_block ≡ fence_open s.in_code_block ls
unfolding fence_open
segment_loop-in_code s [] = refl
segment_loop-in_code s (l ∷ ls) =
    segment_loop-in_code (segment_step s l) ls
    ∙ ap (λ b. fence_open b ls) (segment_step-in_code s l)

close_fence-ink :
    (s : Segments)
    → ink (segment_text (close_fence s))
      ≡ ink (segment_text s) ++ (if s.in_code_block then ink fence else [])
unfolding close_fence
close_fence-ink s = ground (
  arith,
  append-nil (ink (segment_text s)),
  ink_grow s.blocks s.current_block (s.current_block ++ fence) fence,
  ink-append s.current_block fence,
)

-- The blocks of a markdown text hold its characters that are no whitespace, in their order, with
-- three backticks behind them exactly if the number of fence lines is odd.
pub segment_markdown_blocks-ink :
    (text : Text)
    → ink (concat (segment_markdown_blocks text))
      ≡ ink text ++ (if fence_open false (lines text) then ink fence else [])
unfolding segment_markdown_blocks
segment_markdown_blocks-ink text =
    let start : Segments = record { blocks = []; current_block = []; in_code_block = false } in
    let s = foldl segment_step start (lines text) in
    pushed_block (close_fence s)
    ∙ close_fence-ink s
    ∙ rw (
      segment_loop-ink start (lines text),
      segment_loop-in_code start (lines text),
      ink-lines text,
    )
