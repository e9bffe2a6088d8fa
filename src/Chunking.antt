-- ===== src/Chunking.antt =====
-- src/chunking.rs: splitting of text into chunks of bounded length, for speech (`Tts`) and for
-- book chapters with fenced code blocks (`Technical`). `Pack` and `Windows` are the loops that
-- both use.
pub mod Pack
pub mod Windows
pub mod HardSplit
pub mod Tts
pub mod Technical
