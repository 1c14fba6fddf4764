-- ===== src/Bundle/Prepared.antt =====
-- What preparing a package keeps, what it refuses, and directories that are ignored by name.
use go_slug.Prelude.{
  ℕ, ◌≡◌, refl, ap, ◌∙◌, ◌⊎◌, inl, inr, Bool, true, false, not, Option, none, some, List, ◌++◌,
  if◌then◌else◌, Text, codes, text_eq, ok, ok-injective,
}
use go_slug.Go.Path.{dot}
use go_slug.Go.Relative.{rel}
use go_slug.Go.Action.{Action, ask, Keeps, >>=-Keeps, ask-Keeps, if-Keeps, with_error-Keeps}
use go_slug.Go.FileWalk.{Stop}
use go_slug.Go.WalkKept.{walk-Keeps}
use go_slug.Ignore.Rules.{Rule}
use go_slug.Ignore.Excludes.{Regexp}
use go_slug.Slug.Packer.{Kind, is_dir}
use go_slug.Bundle.Prepare.{
  PackageDisk, PrepareError, is_file_or_dir, or_stop, ignored, remove, check_referent, prepare_dir,
  prepare_path, prepare_walk_fn, prepare_package, no_relative_path, or_not_removed,
}

module _ (re : Regexp) (disk : PackageDisk) (root : Text)
    (rules : Option (List (Rule re.Regex))) where
  open disk use {State, working_dir, lstat, dir_names, eval_symlinks, remove_all}

  -- A path that the rules exclude, as it is or as a directory.
  abbrev pub Excluded : Text → Type 0
  Excluded rel_path =
      (ignored re disk root rules rel_path ≡ ok true)
      ⊎ (ignored re disk root rules (rel_path ++ codes "/") ≡ ok true)

  module _ (P : State → Type 0)
      (removes : (path rel_path : Text)
        → rel root path ≡ some rel_path
        → Excluded rel_path
        → Keeps P (remove_all path)) where
    check_referent-Keeps : (rel_path : Text) → Keeps P (check_referent re disk root rules rel_path)
    unfolding check_referent
    check_referent-Keeps rel_path = >>=-Keeps P (ask-Keeps P _) (λ abs_root _ _.
        >>=-Keeps P (ask-Keeps P _) (λ real_root _ _. >>=-Keeps P (ask-Keeps P _) (λ real_path _ _.
          >>=-Keeps P (ask-Keeps P _) (λ real_rel _ _. >>=-Keeps P (ask-Keeps P _) (λ _ _ _.
            >>=-Keeps P (ask-Keeps P _) (λ kind _ _.
              if-Keeps P (not (is_file_or_dir kind)) (ask-Keeps P _) (ask-Keeps P _)))))))

    remove-Keeps :
        (path rel_path : Text)
        → rel root path ≡ some rel_path
        → Excluded rel_path
        → Keeps P (remove re disk root rules path rel_path)
    unfolding remove
    remove-Keeps path rel_path h e =
        with_error-Keeps P (or_not_removed rel_path) (removes path rel_path h e)

    after_rules-Keeps :
        (excluded : Bool) {x y : Action State (Stop PrepareError) (Unit {0})}
        → (excluded ≡ true → Keeps P x)
        → Keeps P y
        → Keeps P (if excluded then x else y)
    after_rules-Keeps true h k = h refl
    after_rules-Keeps false h k = k

    prepare_dir-Keeps :
        (path rel_path : Text)
        → rel root path ≡ some rel_path
        → Keeps P (prepare_dir re disk root rules path rel_path)
    unfolding prepare_dir ask
    prepare_dir-Keeps path rel_path h = >>=-Keeps P (ask-Keeps P _) (λ excluded _ e.
        after_rules-Keeps excluded
          (λ k.
            >>=-Keeps P (remove-Keeps path rel_path h (inr (e ∙ ap ok k))) (λ _ _ _. ask-Keeps P _))
          (check_referent-Keeps rel_path))

    prepare_path-Keeps :
        (path : Text) (kind : Kind) (rel_path : Text)
        → rel root path ≡ some rel_path
        → Keeps P (prepare_path re disk root rules path kind rel_path)
    unfolding prepare_path ask
    prepare_path-Keeps path kind rel_path h = if-Keeps P (text_eq rel_path dot) (ask-Keeps P _) (
        >>=-Keeps P (ask-Keeps P _) (λ excluded _ e.
          after_rules-Keeps excluded (λ k. remove-Keeps path rel_path h (inl (e ∙ ap ok k)))
            (if-Keeps P (is_dir kind) (prepare_dir-Keeps path rel_path h)
              (check_referent-Keeps rel_path))))

    or_stop-ok :
        {A : Type 0} (o : Option A) (e : PrepareError) {a : A} → or_stop o e ≡ ok a → o ≡ some a
    or_stop-ok none e h = cc h
    or_stop-ok (some x) e h = ap some (ok-injective h)

    prepare_walk_fn-Keeps :
        (path : Text) (kind : Option Kind) → Keeps P (prepare_walk_fn re disk root rules path kind)
    unfolding prepare_walk_fn ask
    prepare_walk_fn-Keeps path none = ask-Keeps P _
    prepare_walk_fn-Keeps path (some kind) = >>=-Keeps P (ask-Keeps P _) (λ rel_path _ e.
        prepare_path-Keeps path kind rel_path
          (or_stop-ok (rel root path) (no_relative_path path) e))

    -- Preparing a package, whether it fails or not, leaves a property of the file system as it is, if the
    -- removal of each path does so that the rules exclude, relative to the package's directory, as it is
    -- or with a separator at its end.
    pub prepare_package-Keeps : (depth : ℕ) → Keeps P (prepare_package re disk root rules depth)
    unfolding prepare_package
    prepare_package-Keeps depth =
        walk-Keeps P is_dir lstat dir_names (prepare_walk_fn re disk root rules)
          prepare_walk_fn-Keeps depth root
