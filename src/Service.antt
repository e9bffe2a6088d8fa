-- ===== src/Service.antt =====
-- src/service.rs: what the service decides itself.
pub mod Fulltext
