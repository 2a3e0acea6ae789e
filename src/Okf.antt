-- ===== src/Okf.antt =====
-- internal/adapter/okf: paths of a bundle, and its files.
pub mod Resolver
pub mod Repository
pub mod Document
pub mod Linker
