-- ===== src/Domain.antt =====
-- internal/domain: the value types, and the interfaces of the use cases.
pub mod Scope
pub mod Ref
pub mod Types
pub mod Interfaces
pub mod Fakes
