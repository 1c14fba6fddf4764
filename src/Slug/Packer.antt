-- ===== src/Slug/Packer.antt =====
-- slug.go: the options of a packer, the modes of files, and what a symlink leads to.

use go_slug.Prelude.{
  ℕ, zero, suc, Bool, true, false, Option, none, some, List, [], ◌∷◌, ◌++◌, if◌then◌else◌, Text,
  Result, ok, err, ◌>>=◌,
}
use go_slug.Go.Path.{dir, is_abs, join_path}
use go_slug.Go.FileWalk.{Stop, unfinished, failed}
use go_slug.Unpack.{Time}
use go_slug.Slug.{SymlinkError}

pub record Packer : Type 0 where
  pub dereference : Bool
  pub apply_terraform_ignore : Bool
  pub allow_symlink_targets : List Text

-- A PackerOption changes a packer, or is an error.
abbrev pub PackerOption : Type 0
PackerOption = Packer → Option Packer

unfoldable pub apply_terraform_ignore : PackerOption
apply_terraform_ignore p = some (record p { apply_terraform_ignore = true })

unfoldable pub dereference_symlinks : PackerOption
dereference_symlinks p = some (record p { dereference = true })

unfoldable pub allow_symlink_target : Text → PackerOption
allow_symlink_target path p =
    some (record p { allow_symlink_targets = p.allow_symlink_targets ++ (path ∷ []) })

-- The loop over the options in NewPacker.
unfoldable pub apply_options : List PackerOption → Packer → Option Packer
apply_options [] p = some p
apply_options (option ∷ options) p = elim (option p) [
  | none ↦ none
  | some q ↦ apply_options options q
]

unfoldable pub new_packer : List PackerOption → Option Packer
unfolding apply_options
new_packer options =
    apply_options options
      (record { dereference = false; apply_terraform_ignore = false; allow_symlink_targets = [] })

-- The packer that the function Pack of the package uses.
unfoldable pub package_packer : Bool → Packer
package_packer dereference = record {
  dereference = dereference;
  apply_terraform_ignore = true;
  allow_symlink_targets = [];
}

-- What the mode of a file says of its type.
pub data Kind : Type 0 where
  directory regular symbolic_link irregular : Kind

-- os.FileInfo
pub record FileInfo : Type 0 where
  pub kind : Kind
  pub perm : ℕ
  pub size : ℕ
  pub mod_time : Time

abbrev pub is_dir : Kind → Bool
is_dir directory = true
is_dir regular = false
is_dir symbolic_link = false
is_dir irregular = false

abbrev pub is_link : Kind → Bool
is_link symbolic_link = true
is_link directory = false
is_link regular = false
is_link irregular = false

-- checkFileMode: whether the file is kept, and whether its body is written.
unfoldable pub check_file_mode : Kind → Bool × Bool
check_file_mode directory = (true, false)
check_file_mode regular = (true, true)
check_file_mode symbolic_link = (true, false)
check_file_mode irregular = (false, false)

-- The file system that is packed, which does not change meanwhile: os.Getwd, os.Lstat, the names in a
-- directory in their order, os.Readlink, and what is read of a file that is opened, with whether the
-- reading comes to its end. `none` is an error.
pub record Tree : Type 0 where
  pub working_dir : Option Text
  pub lstat : Text → Option FileInfo
  pub dir_names : Text → Option (List Text)
  pub readlink : Text → Option Text
  pub content : Text → Option (Text × Bool)

pub data PackError : Type 0 where
  walk_failed no_relative_path link_unreadable target_missing : Text → PackError
  illegal_link : SymlinkError → PackError
  unexpected_mode : PackError
  header_refused file_unreadable copy_failed : Text → PackError
  source_missing no_working_dir ignore_panicked archive_not_closed : PackError

abbrev pub or_stop : {A : Type 0} → Option A → PackError → Result (Stop PackError) A
or_stop none e = err (failed e)
or_stop (some a) e = ok a

-- externalSymlink
pub record ExternalSymlink : Type 0 where
  pub abs_target : Text
  pub target : Text
  pub info : FileInfo

-- The absolute path of the target of the symlink at `path`.
unfoldable pub link_target : Text → Text → Text → Text
unfolding is_abs join_path dir
link_target root path target =
    let from_link = if is_abs target then target else join_path (dir path) target in
    if is_abs from_link then from_link else join_path root from_link

module _ (tree : Tree) where
  open tree use {lstat, readlink}

  -- resolveExternalLink, to a length of the chain of symlinks.
  unfoldable pub resolve_external_link : ℕ → Text → Text → Result (Stop PackError) ExternalSymlink
  unfolding link_target
  resolve_external_link zero root path = err unfinished
  resolve_external_link (suc fuel) root path =
      let onward = resolve_external_link fuel root in
      or_stop (readlink path) (link_unreadable path) >>= λ target.
      or_stop (lstat (link_target root path target)) (target_missing target) >>= λ info.
      if is_link info.kind
      then onward (link_target root path target)
      else ok (record { abs_target = link_target root path target; target = target; info = info })
