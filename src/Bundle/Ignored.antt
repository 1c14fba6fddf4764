-- ===== src/Bundle/Ignored.antt =====
-- Preparing a package with a directory whose own path is excluded, and what is left of the others.
use go_slug.Prelude.{
  ℕ, suc, ◌≡◌, refl, ap, ◌∙◌, true, false, Option, none, some, List, ◌∷◌, Text, text_eq, ok, err,
}
use go_slug.Go.Path.{dot, join_path}
use go_slug.Go.Relative.{rel}
use go_slug.Go.Action.{◌>>=◌, ask, with_error, continue}
use go_slug.Go.FileWalk.{failed, walk_path, walk_names, walk_name, walk_dir}
use go_slug.Ignore.Rules.{Rule}
use go_slug.Ignore.Excludes.{Regexp}
use go_slug.Slug.Packer.{is_dir, directory}
use go_slug.Bundle.Prepare.{
  PackageDisk, or_stop, ignored, remove, no_relative_path, prepare_path, prepare_walk_fn,
  unreadable,
}

module _ (re : Regexp) (disk : PackageDisk) (root : Text)
    (rules : Option (List (Rule re.Regex))) where
  open disk use {State, working_dir, lstat, dir_names, eval_symlinks, remove_all}

  removed :
      (path rel_path : Text) (s t : State)
      → rel root path ≡ some rel_path
      → text_eq rel_path dot ≡ false
      → ignored re disk root rules rel_path ≡ ok true
      → remove_all path s ≡ (t, ok tt)
      → prepare_walk_fn re disk root rules path (some directory) s ≡ (t, ok tt)
  unfolding prepare_walk_fn prepare_path remove ◌>>=◌ ask with_error
  removed path rel_path s t h k l m =
      ap
        (λ r.
          continue (prepare_path re disk root rules path directory)
            (s, or_stop r (no_relative_path path)))
        h
      ∙ rw (k, l, m, continue, prepare_path) refl

  missing_name :
      (path name : Text) (names : List Text) (next : _) (t : State)
      → lstat t (join_path path name) ≡ none
      → walk_names is_dir lstat dir_names
          (prepare_walk_fn re disk root rules)
          next
          path
          (name ∷ names)
          t
        ≡ (t, err (failed (unreadable (join_path path name))))
  unfolding walk_names walk_name prepare_walk_fn ◌>>=◌ ask with_error
  missing_name path name names next t h = rw (h, walk_name) refl

  -- The walk of packagePrepareWalkFn fails at a directory that is not empty and whose path the rules
  -- exclude without a separator at its end, in the package's directory: the directory is removed, but
  -- the walk goes on to the names that it had.
  pub walk_path-excluded :
      (depth : ℕ) (path rel_path name : Text) (names : List Text) (s t : State)
      → dir_names s path ≡ some (name ∷ names)
      → rel root path ≡ some rel_path
      → text_eq rel_path dot ≡ false
      → ignored re disk root rules rel_path ≡ ok true
      → remove_all path s ≡ (t, ok tt)
      → lstat t (join_path path name) ≡ none
      → walk_path is_dir lstat dir_names
          (prepare_walk_fn re disk root rules)
          (suc depth)
          path
          directory
          s
        ≡ (t, err (failed (unreadable (join_path path name))))
  unfolding walk_path walk_dir ◌>>=◌ ask
  walk_path-excluded depth path rel_path name names s t n h k l m g =
      let next = walk_path is_dir lstat dir_names (prepare_walk_fn re disk root rules) depth in
      ap
        (λ o.
          walk_dir is_dir lstat dir_names (prepare_walk_fn re disk root rules) next path directory o
            s)
        n
      ∙ ap
          (continue (λ _.
            walk_names is_dir lstat dir_names (prepare_walk_fn re disk root rules) next path
              (name ∷ names)))
          (removed path rel_path s t h k l m)
      ∙ missing_name path name names next t g
