-- ===== src/Lib.antt =====
-- Verification of paperbridge: a server that finds, opens and cites papers (src/), with the local
-- corpus and search index behind it (crates/).
--
-- The parts that are modelled, and where (paths from the repository's root):
--   Prelude, Text, Maps   tests, options, lists; `str` and `char` as lists of code points, with the
--                         functions that the source calls; `HashMap` as an association list.
--   Chunking              src/chunking.rs. `Tts` splits text for speech: `normalize_text_for_tts`,
--                         `sentence_split`, then packing, with `HardSplit` and `Windows` for what
--                         is too long. `Technical` splits markdown: blocks, then code by lines
--                         between fences and prose by lines, behind a breadcrumb.
--   Book/Isbn             src/book/isbn.rs: `normalize_isbn` and the check digits.
--   Book/Headings         src/book/mod.rs: `Numerals` and `Detect` read one heading, `Collect` all
--                         of a text, `Monotonic` is `filter_monotonic_candidates`, `Toc` has
--                         `partition_toc_and_body_candidates` and `extract_toc_from_text`, `Slice`
--                         `extract_chapter_slice`.
--   Identifiers           src/hit_enrich.rs: DOIs and arXiv ids.
--   Hits                  `PaperHit` of src/models.rs. `Keys`, `Merge`, `Dedupe` and `Unique` are
--                         `dedupe` of src/external/mod.rs: `Dedupe` is its loop for any records with
--                         keys (`Identity`), and `Unique` fills that interface with hits. `Cached`
--                         is `merge_prefer_cached` of src/service.rs; `Enrich` and `Match` are
--                         `enrich_hit_identity` and `enrich_match` of src/hit_enrich.rs.
--   Detail                src/hit_enrich.rs: `apply_detail`, which caps what an answer shows of a
--                         hit.
--   Service               src/service.rs: `Fulltext` is `paginate_fulltext`.
--   Paper/Sections        src/paper/fallback.rs: `flush_section` and `unique_section_id`.
--   Paper/Selector        src/paper/selector.rs: `evaluate`; its loop is `walk`, one character at a
--                         time, where the search for a `]` is a mode of its own.
--   Update, Security      src/update.rs: `is_newer`; src/security.rs: `ensure_secure_transport`.
--   Errors                src/error.rs: `from_error`, and `sanitize_message` in `Redact`.
--   Validation            src/validation.rs with the requests of src/models.rs; it calls
--                         `normalize_isbn` of Book/Isbn and `strip_doi_prefix` of Identifiers.
--   Router                src/request_router.rs: `State` has the state of the router and of a call,
--                         `Send` the steps of `RequestRouter::send` between two awaits, and
--                         `Send/Steps` any interleaving of any number of calls; `Delay`, `Latency`
--                         and `Body` have `retry_delay`, the rows of latencies and `bytes_limited`.
--   Index                 crates/paperseed-index/src: `Params`, `Tokenizer`, `Data` with
--                         `validate`, `Builder` with `add_document` and `build`, `Upsert` with
--                         `upsert_document`, `Search` with `search`, and `Codec` with the
--                         header of the bytes.
--   Policy                crates/paperseed/src/policy.rs with the enumerations of models.rs.
--   Tests                 the theorems at concrete inputs.
--
-- How the code is translated. Loops over characters, lines and documents are structural recursion or
-- `foldl` over the function that is the loop's body. These are on fuel, with a theorem that it is
-- enough: the printing of an index (Validation/Decimal, `show_on-fuel`), the suffixes of a section's id
-- (Paper/Sections/Ids, `next_free-free`), the recheck of `dedupe`, where each merge leaves one record
-- less (Hits/Dedupe/Recheck, `recheck-IsSettled`), and the way back through the table of
-- `filter_monotonic_candidates`, whose parents stand before their rows (Book/Headings/Monotonic/Way,
-- `trace-IsPath`). Byte offsets into texts stay byte offsets (Text/Bytes). Machine integers keep
-- their wrap-around or saturation: the counts of terms are u32, the totals u64, the router's counters
-- u64 with `fetch_add` and `fetch_sub`; lengths of texts are not bounded. A panic of the index (a
-- write out of range, or a document too many) is `none`. A step of `send` is `turn` on
-- the call's phase, with the time and the transport's reply as inputs, and is `none` where the call
-- waits; dropping its future is `drop_at`.
--
-- Parameters, for what is not in the repository: the floating-point operations (`Floats`, `Scoring`),
-- the Unicode tables (`Unicode`, `Lowercase`), the codec of an index's body (`Codec`), the origin of a
-- request's URL (`Request`), the parser of URLs (`Platform`), the scores of matches, the values of JSON
-- (`Shape`), and the secrets of the environment (`Secrets`).
--
-- Not modelled: the parts that are network, file or database I/O (the server, the backends, the
-- requests of the providers, the paperseed application, `save` and `load` of the index); and, so far,
-- the headings of src/paper/fallback.rs, the parsing of TEI, and the configuration.
pub mod Prelude
pub mod Text
pub mod Chunking
pub mod Book
pub mod Policy
pub mod Maps
pub mod Index
pub mod Router
pub mod Identifiers
pub mod Hits
pub mod Validation
pub mod Detail
pub mod Service
pub mod Paper
pub mod Update
pub mod Security
pub mod Errors
pub mod Tests
