-- ===== src/Slug.antt =====
-- slug.go: which symlinks may be packed and unpacked.
--
-- `working_dir` is os.Getwd, with `none` for an error, and `allow` the field allowSymlinkTargets.
pub mod Sibling
pub mod Extract
pub mod Kept
pub mod Accepted
pub mod Packer
pub mod Pack
pub mod Account
pub mod Packed
pub mod Sound
pub mod Links
pub mod Finish
mod ExtractSamples
mod PackSamples
mod Samples
use mathlib.Core.Option
use go_slug.Prelude.{
  Bool, true, false, ◌||◌, Option, none, some, List, [], ◌∷◌, ◌++◌, ◌==◌, if◌then◌else◌, Text,
  text_eq, Result, ok, err, codes, is_empty,
}
use go_slug.Go.Strings.{has_prefix, has_suffix}
use go_slug.Go.Path.{abs, dir, slash, is_abs, clean, join_path}

pub data SymlinkError : Type 0 where
  not_absolute illegal_slug : SymlinkError

-- One prefix of the loop over the allowed prefixes.
unfoldable pub allows : Text → Text → Text → Bool
unfolding is_abs join_path has_prefix has_suffix
allows abs_root abs_target given =
    let prefix = if is_abs given then given else join_path abs_root given in
    let directory = if has_suffix prefix (codes "/") then prefix else prefix ++ codes "/" in
    text_eq abs_target prefix || has_prefix abs_target directory

unfoldable pub allowed : Text → Text → List Text → Bool
unfolding allows
allowed abs_root abs_target [] = false
allowed abs_root abs_target (p ∷ prefixes) =
    allows abs_root abs_target p || allowed abs_root abs_target prefixes

-- The absolute path of the symlink's target.
unfoldable pub target_path : Text → Text → Text → Text
unfolding is_abs clean join_path dir
target_path abs_root path target =
    let abs_path = if is_abs path then path else join_path abs_root path in
    if is_abs target then clean target else join_path (dir abs_path) target

-- Packer.validSymlink, where `ok` is true.
unfoldable pub valid_symlink :
    Option Text → List Text → Text → Text → Text → Result SymlinkError (Unit {0})
unfolding abs target_path has_prefix allowed
valid_symlink working_dir allow root path target = elim (abs working_dir root) [
  | none ↦ err not_absolute
  | some abs_root ↦
      let abs_target = target_path abs_root path target in
      if has_prefix abs_target abs_root
      then ok tt
      else if allowed abs_root abs_target allow
      then ok tt
      else err illegal_slug
]
