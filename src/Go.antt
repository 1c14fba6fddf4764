-- ===== src/Go.antt =====
-- What the program takes from Go's standard library and computes with: texts and slash paths.
pub mod Strings
pub mod Path
pub mod Segments
pub mod Walk
pub mod Relative
pub mod Rooted
pub mod Sort
pub mod Sorted
pub mod Action
pub mod FileWalk
pub mod WalkKept
pub mod WalkEnds
