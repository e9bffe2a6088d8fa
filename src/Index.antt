-- ===== src/Index.antt =====
-- crates/paperseed-index: the BM25F index. The floating-point operations, the Unicode tables and
-- the body's codec (`postcard`) are parameters.
pub mod Params
pub mod Tokenizer
pub mod Data
pub mod Builder
pub mod Upsert
pub mod Search
pub mod Codec
