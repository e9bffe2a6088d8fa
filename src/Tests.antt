-- ===== src/Tests.antt =====
-- The theorems at concrete inputs.
mod Texts
mod Isbns
mod Indexes
mod Requests
mod Items
mod Hits
mod Books
mod Selectors
