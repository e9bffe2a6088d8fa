-- ===== src/Paper.antt =====
-- src/paper: the structure of papers.
pub mod Sections
pub mod Selector
