-- ===== src/Bundle/Prepare.antt =====
-- packagePrepareWalkFn of sourcebundle/builder.go: what stays of a package that was fetched.
use go_slug.Prelude.{
  ℕ, Bool, true, false, not, ◌&&◌, ◌||◌, Option, none, some, List, ◌++◌, if◌then◌else◌, Text, codes,
  text_eq, is_empty, any, Result, ok, err,
}
use go_slug.Go.Strings.{has_prefix}
use go_slug.Go.Path.{dot, dot_dot, segments, is_abs, clean, abs, join_path}
use go_slug.Go.Relative.{rel}
use go_slug.Go.Action.{Action, ◌>>=◌, ask, return, fail, with_error}
use go_slug.Go.FileWalk.{Stop, skip_dir, failed, walk}
use go_slug.Ignore.Rules.{Rule}
use go_slug.Ignore.Excludes.{Regexp, ExcludesResult, excludes}
use go_slug.Slug.Packer.{Kind, directory, regular, symbolic_link, irregular, is_dir}

abbrev has_dots : Text → Bool
has_dots path = any (λ s. text_eq s dot || text_eq s dot_dot) (segments path)

-- filepath.IsLocal
unfoldable pub is_local : Text → Bool
unfolding is_abs clean has_prefix
is_local path =
    let cleaned = if has_dots path then clean path else path in
    not (is_abs path || is_empty path)
    && not (text_eq cleaned dot_dot || has_prefix cleaned (codes "../"))

-- The file system of a package: os.Getwd, os.Lstat, the names in a directory, os.RemoveAll and
-- filepath.EvalSymlinks. `none` is an error.
pub record PackageDisk : Type 1 where
  pub State : Type 0
  pub working_dir : Option Text
  pub lstat : State → Text → Option Kind
  pub dir_names : State → Text → Option (List Text)
  pub eval_symlinks : State → Text → Option Text
  pub remove_all : Text → State → State × Result (Unit {0}) (Unit {0})

pub data PrepareError : Type 0 where
  unreadable no_relative_path invalid_rules not_removed : Text → PrepareError
  no_root : PrepareError
  no_real_path outside_root no_file_info not_a_file : Text → PrepareError

abbrev pub or_stop : {A : Type 0} → Option A → PrepareError → Result (Stop PrepareError) A
or_stop none e = err (failed e)
or_stop (some a) e = ok a

abbrev pub is_file_or_dir : Kind → Bool
is_file_or_dir regular = true
is_file_or_dir directory = true
is_file_or_dir symbolic_link = false
is_file_or_dir irregular = false

abbrev pub or_not_removed :
    Text → Result (Unit {0}) (Unit {0}) → Result (Stop PrepareError) (Unit {0})
or_not_removed path (ok _) = ok tt
or_not_removed path (err _) = err (failed (not_removed path))

abbrev pub checked_rules : ExcludesResult × Option Text → Result (Stop PrepareError) Bool
checked_rules (result, none) = ok result.excluded
checked_rules (result, some rule) = err (failed (invalid_rules rule))

module _ (re : Regexp) (disk : PackageDisk) (root : Text)
    (rules : Option (List (Rule re.Regex))) where
  open disk use {State, working_dir, lstat, dir_names, eval_symlinks, remove_all}

  abbrev pub Preparing : Type 0 → Type 0
  Preparing A = Action State (Stop PrepareError) A

  unfoldable pub ignored : Text → Result (Stop PrepareError) Bool
  unfolding excludes
  ignored rel_path = checked_rules (excludes re rules rel_path)

  unfoldable pub remove : Text → Text → Preparing (Unit {0})
  remove abs_path rel_path = with_error (or_not_removed rel_path) (remove_all abs_path)

  -- A file that is not ignored: it, or what it leads to, is in the root, and a file or a directory.
  unfoldable pub check_referent : Text → Preparing (Unit {0})
  unfolding abs join_path rel is_local
  check_referent rel_path = do
    abs_root ← ask (λ _. or_stop (abs working_dir root) no_root)
    real_root ← ask (λ s. or_stop (eval_symlinks s abs_root) no_root)
    real_path ←
        ask (λ s. or_stop (eval_symlinks s (join_path real_root rel_path)) (no_real_path rel_path))
    real_rel ← ask (λ _. or_stop (rel real_root real_path) (no_real_path rel_path))
    _ ← ask (λ _. if not (is_local real_rel) then err (failed (outside_root rel_path)) else ok tt)
    kind ← ask (λ s. or_stop (lstat s real_path) (no_file_info real_path))
    if not (is_file_or_dir kind) then fail (failed (not_a_file rel_path)) else return tt

  -- The second test of a directory, with a separator at its end.
  unfoldable pub prepare_dir : Text → Text → Preparing (Unit {0})
  unfolding ignored remove check_referent
  prepare_dir abs_path rel_path = ask (λ _. ignored (rel_path ++ codes "/")) >>= λ excluded.
      if excluded
      then remove abs_path rel_path >>= (λ _. fail skip_dir)
      else check_referent rel_path

  -- From the relative path on.
  unfoldable pub prepare_path : Text → Kind → Text → Preparing (Unit {0})
  unfolding ignored remove prepare_dir check_referent
  prepare_path abs_path kind rel_path =
      if text_eq rel_path dot
      then return tt
      else ask (λ _. ignored rel_path) >>= λ excluded.
          if excluded
          then remove abs_path rel_path
          else if is_dir kind
          then prepare_dir abs_path rel_path
          else check_referent rel_path

  -- packagePrepareWalkFn
  unfoldable pub prepare_walk_fn : Text → Option Kind → Preparing (Unit {0})
  unfolding rel prepare_path
  prepare_walk_fn abs_path none = fail (failed (unreadable abs_path))
  prepare_walk_fn abs_path (some kind) =
      ask (λ _. or_stop (rel root abs_path) (no_relative_path abs_path))
      >>= prepare_path abs_path kind

  -- The walk over the package, to a depth.
  unfoldable pub prepare_package : ℕ → Preparing (Unit {0})
  unfolding walk prepare_walk_fn
  prepare_package depth = walk is_dir lstat dir_names prepare_walk_fn depth root
