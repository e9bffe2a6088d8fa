-- ===== src/Chunking/Technical.antt =====
-- `split_technical_content` of src/chunking.rs and the functions that only it calls.
pub mod Code
pub mod Blocks
pub mod Bounds
use paperbridge.Prelude.{
  Bool, List, Option, [], false, foldl, if◌then◌else◌, is_empty, leb, length, ltb, map, max, none,
  not, some, take, true, ℕ, ◌&&◌, ◌++◌, ◌+◌, ◌-◌, ◌/◌, ◌∷◌,
}
use paperbridge.Text.{Text, codes, lines, starts_with, trim, trim_end}
use paperbridge.Chunking.Pack.{Packer, empty_packer, finish, pack, take_current}
use paperbridge.Chunking.HardSplit.{hard_split}
use paperbridge.Chunking.Windows.{char_windows}

abbrev pub fence : Text
fence = codes "```"

unfoldable pub is_fence_line : Text → Bool
is_fence_line line = starts_with fence (trim line)

abbrev pub newline : Text
newline = codes "\n"

-- `lines.join("\n")`.
unfoldable pub join_lines : List Text → Text
join_lines [] = []
join_lines (l ∷ []) = l
join_lines (l ∷ m ∷ ls) = l ++ (newline ++ join_lines (m ∷ ls))

line_step : ℕ → Packer → Text → Packer
line_step max_chars s line =
    if ltb max_chars (length line)
    then (let t = take_current s in record t { out = t.out ++ hard_split line max_chars })
    else pack newline max_chars s line

unfoldable pub line_split_block : Text → ℕ → List Text
unfolding line_step
line_split_block block max_chars = finish (foldl (line_step max_chars) empty_packer (lines block))

-- `body_lines` without a closing fence.
unfoldable pub drop_fence : List Text → List Text
drop_fence [] = []
drop_fence (l ∷ []) = if is_fence_line l then [] else l ∷ []
drop_fence (l ∷ m ∷ ls) = l ∷ drop_fence (m ∷ ls)

-- `current` is `None` until the current part holds at least one line.
pub record CodeParts : Type 0 where
  pub parts : List Text
  pub current : Option (Text × ℕ)

fenced : Text → Text → Text
fenced header body = header ++ (newline ++ (body ++ (newline ++ fence)))

-- `if let Some((body, _)) = current.take() { parts.push(fenced(&body)) }`.
take_code : Text → List Text → Option (Text × ℕ) → List Text
unfolding fenced
take_code header parts none = parts
take_code header parts (some (body, len)) = parts ++ fenced header body ∷ []

-- The `match current.as_mut()` for a line within the limit.
add_line : Text → ℕ → List Text → Option (Text × ℕ) → Text → CodeParts
unfolding fenced
add_line header effective_max parts none line = record {
  parts = parts;
  current = some (line, length line);
}
add_line header effective_max parts (some (body, len)) line =
    if leb (len + 1 + length line) effective_max
    then record {
      parts = parts;
      current = some (body ++ (newline ++ line), len + (1 + length line));
    }
    else record { parts = parts ++ fenced header body ∷ []; current = some (line, length line) }

code_step : Text → ℕ → CodeParts → Text → CodeParts
unfolding take_code add_line fenced
code_step header effective_max s line =
    if ltb effective_max (length line)
    then record {
      parts =
          take_code header s.parts s.current
          ++ map (fenced header) (char_windows line effective_max);
      current = none;
    }
    else add_line header effective_max s.parts s.current line

-- The last part goes out unless its body is blank.
end_code : Text → List Text → Option (Text × ℕ) → List Text
unfolding fenced
end_code header parts none = parts
end_code header parts (some (body, len)) =
    if is_empty (trim body) then parts else parts ++ fenced header body ∷ []

fence_overhead : Text → ℕ
fence_overhead header = length header + 2 + length fence

code_lines : Text → ℕ → List Text → List Text
unfolding code_step end_code
code_lines header effective_max body =
    let s = foldl (code_step header effective_max) (record { parts = []; current = none }) body in
    end_code header s.parts s.current

-- The function's body behind `lines.next()`.
split_fenced : Text → List Text → ℕ → List Text
unfolding fence_overhead code_lines
split_fenced header body target_max =
    if leb target_max (fence_overhead header)
    then line_split_block (join_lines body) target_max
    else code_lines header (target_max - fence_overhead header) body

split_lines : List Text → ℕ → List Text
unfolding split_fenced
split_lines [] target_max = []
split_lines (first ∷ rest) target_max = split_fenced (trim first) (drop_fence rest) target_max

unfoldable pub split_code_block : Text → ℕ → List Text
unfolding split_lines
split_code_block block target_max = split_lines (lines block) target_max

pub record Segments : Type 0 where
  pub blocks : List Text
  pub current_block : Text
  pub in_code_block : Bool

-- `blocks.push(current_block.trim_end().to_string()); current_block.clear()`, if it is not blank.
push_block : Segments → Segments
push_block s =
    if is_empty (trim s.current_block)
    then record s { current_block = [] }
    else record s { blocks = s.blocks ++ trim_end s.current_block ∷ []; current_block = [] }

-- A fence line: prose before an opening fence is a block of its own, and a closing fence ends one.
fence_step : Segments → Text → Segments
fence_step s line =
    let opens = not s.in_code_block && not (is_empty (trim s.current_block)) in
    let t = if opens then push_block s else s in
    let block = t.current_block ++ (line ++ newline) in
    if s.in_code_block
    then record {
      blocks = t.blocks ++ trim_end block ∷ [];
      current_block = [];
      in_code_block = false;
    }
    else record { blocks = t.blocks; current_block = block; in_code_block = true }

prose_step : Segments → Text → Segments
prose_step s line =
    if is_empty (trim line)
    then push_block s
    else if is_empty s.current_block
    then record s { current_block = line }
    else record s { current_block = s.current_block ++ (newline ++ line) }

segment_step : Segments → Text → Segments
unfolding fence_step prose_step
segment_step s line =
    if is_fence_line line
    then fence_step s line
    else if s.in_code_block
    then record s { current_block = s.current_block ++ (line ++ newline) }
    else prose_step s line

-- An unterminated fence is closed.
close_fence : Segments → Segments
close_fence s = if s.in_code_block then record s { current_block = s.current_block ++ fence } else s

unfoldable pub segment_markdown_blocks : Text → List Text
unfolding segment_step close_fence push_block
segment_markdown_blocks text =
    let s =
      foldl segment_step (record { blocks = []; current_block = []; in_code_block = false })
        (lines text) in
    (push_block (close_fence s)).blocks

crumb_text : Option Text → Text
crumb_text none = []
crumb_text (some breadcrumb) = trim breadcrumb

end_crumb : Text → Text
end_crumb crumb = if is_empty crumb then [] else crumb ++ codes "\n\n"

unfoldable pub breadcrumb_prefix : Option Text → ℕ → Text
unfolding crumb_text end_crumb
breadcrumb_prefix breadcrumb max_chars =
    let crumb = crumb_text breadcrumb in
    if is_empty crumb then [] else end_crumb (trim_end (take (max_chars / 2 - 2) crumb))

starts_fenced : List Text → Bool
starts_fenced [] = false
starts_fenced (l ∷ ls) = is_fence_line l

-- A block above the limit goes to the splitter for its kind.
split_block : Text → ℕ → List Text
unfolding starts_fenced
split_block block target_max =
    if starts_fenced (lines block)
    then split_code_block block target_max
    else line_split_block block target_max

block_step : ℕ → Packer → Text → Packer
unfolding split_block
block_step target_max s block =
    if ltb target_max (length block)
    then (let t = take_current s in record t { out = t.out ++ split_block block target_max })
    else pack (codes "\n\n") target_max s block

-- `map(trim).filter(non-empty).map(prefix + part)`.
prefix_parts : Text → List Text → List Text
prefix_parts prefix [] = []
prefix_parts prefix (part ∷ parts) =
    let rest = prefix_parts prefix parts in
    if is_empty (trim part) then rest else (prefix ++ trim part) ∷ rest

unfoldable pub split_technical_content : Text → ℕ → Option Text → List Text
unfolding block_step prefix_parts
split_technical_content input max_chars breadcrumb =
    let limit = max max_chars 1 in
    let prefix = breadcrumb_prefix breadcrumb limit in
    let target_max = limit - length prefix in
    if is_empty (trim input)
    then []
    else prefix_parts prefix
        (finish (foldl (block_step target_max) empty_packer (segment_markdown_blocks (trim input))))
