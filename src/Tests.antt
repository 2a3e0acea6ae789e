-- ===== src/Tests.antt =====
-- Concrete instances of the parameters, and the theorems at concrete inputs.
mod Codec
mod Texts
mod Store
mod Files
mod Services
mod Writes
mod Bundles
mod Disk
mod Frontmatter
mod Documents
mod Storage
mod Index
mod Wiring
mod Processes
mod Chunks
mod Panics
mod Tools
mod Writers
mod Built
mod Fakes
mod Listed
mod Tree
mod Stored
