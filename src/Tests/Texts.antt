-- ===== src/Tests/Texts.antt =====
-- The splitters on short texts.
use paperbridge.Prelude.{
  All, [], concat, false, if◌then◌else◌, length, max, some, ◌*◌, ◌++◌, ◌≡◌, ◌≢◌, ◌≤◌,
}
use paperbridge.Text.{Text, codes, lines, trim}
use paperbridge.Text.Ink.{ink}
use paperbridge.Chunking.Tts.Bounds.{split_for_tts-Fits}
use paperbridge.Chunking.Tts.Ink.{split_for_tts-ink}
use paperbridge.Chunking.Tts.{split_for_tts}
use paperbridge.Chunking.Technical.{
  breadcrumb_prefix, fence, segment_markdown_blocks, split_technical_content,
}
use paperbridge.Chunking.Technical.Bounds.{split_technical_content-IsChunk}
use paperbridge.Chunking.Technical.Blocks.{fence_open, segment_markdown_blocks-ink}

abbrev spoken : Text
spoken = codes "One two. Three! Four"

abbrev fenced : Text
fenced = codes "# A\n```rust\nlet x = 1;\n```\nend"

split_for_tts-ink_example : ink (concat (split_for_tts spoken 8)) ≡ ink spoken
split_for_tts-ink_example = split_for_tts-ink spoken 8

split_for_tts-Fits_example : All (λ c. (c ≢ []) × (length c ≤ max 8 1)) (split_for_tts spoken 8)
split_for_tts-Fits_example = split_for_tts-Fits spoken 8

split_technical_content-IsChunk_example :
    let prefix = breadcrumb_prefix (some (codes "A > B")) 20 in
    (2 * length prefix ≤ 20)
    × All
        (λ c.
          (body : Text) × (c ≡ prefix ++ body) × (body ≢ []) × (trim body ≡ body) × (length c ≤ 20))
        (split_technical_content fenced 20 (some (codes "A > B")))
split_technical_content-IsChunk_example =
    split_technical_content-IsChunk fenced 20 (some (codes "A > B"))

segment_markdown_blocks-ink_example :
    ink (concat (segment_markdown_blocks fenced))
    ≡ ink fenced ++ (if fence_open false (lines fenced) then ink fence else [])
segment_markdown_blocks-ink_example = segment_markdown_blocks-ink fenced
