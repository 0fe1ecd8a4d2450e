-- ===== src/Std.antt =====
-- The parts of Go's standard library that the program's texts go through.
pub mod Glob
pub mod Strings
pub mod Path
pub mod Poll
