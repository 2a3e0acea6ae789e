-- ===== src/Go.antt =====
-- What the program uses of Go's standard library: strings, paths, floats and maps.
pub mod Strings
pub mod Space
pub mod Path
pub mod Float
pub mod Map
