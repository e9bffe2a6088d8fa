-- ===== src/Book.antt =====
-- src/book: books and their identifiers.
pub mod Isbn
pub mod Headings
