-- ===== src/Ignore.antt =====
-- internal/ignorefiles: the rules of a .terraformignore file, read and matched. `Rules` models
-- readRules, `Compile` rule.compile, `Excludes` the tests of a path; the other children prove.
pub mod Rules
pub mod Compile
pub mod Excludes
pub mod Marks
pub mod Flags
pub mod Reading
pub mod Globals
pub mod Matching
mod Samples
