-- ===== src/UseCase.antt =====
-- internal/usecase: the three services, over the interfaces of Domain/Interfaces.
pub mod Concept
pub mod Bundle
pub mod Reindex
pub mod Search
