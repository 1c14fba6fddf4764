-- ===== src/Bundle/PrepareSamples.antt =====
-- A package that is prepared, and the theorems about packagePrepareWalkFn there.
use go_slug.Prelude.{
  ◌≡◌, refl, sym, ap, ◌∙◌, ◌⊎◌, inl, inr, Bool, true, false, none, some, List, [], ◌∷◌, ◌++◌, ◌||◌,
  if◌then◌else◌, Text, codes, ok, err, text_eq, text_eq→eq, Bool-cases, some-injective, subst,
}
use mathlib.Core.Option.{Option}
use go_slug.Go.Path.{dot, join_path}
use go_slug.Go.Relative.{rel}
use go_slug.Go.Action.{◌>>=◌, ask, with_error, Keeps}
use go_slug.Go.FileWalk.{failed, walk_path}
use go_slug.Ignore.Rules.{Rule}
use go_slug.Ignore.Excludes.{Regexp}
use go_slug.Slug.Packer.{directory, regular, is_dir}
use go_slug.Bundle.Prepare.{PackageDisk, ignored, prepare_walk_fn, prepare_package, unreadable}
use go_slug.Bundle.Prepared.{Excluded, prepare_package-Keeps}
use go_slug.Bundle.Ignored.{walk_path-excluded}
use go_slug.Bundle.Referent.{HasReferent, prepare_walk_fn-HasReferent}

-- Every expression matches the path "x" only.
abbrev only_x : Regexp
only_x = record {
  Regex = Text;
  compile = λ s. some s;
  match_string = λ _ path. text_eq path (codes "x");
}

abbrev one_rule : Option (List (Rule Text))
one_rule =
    some (record { val = codes "x"; negated = false; negations_after = false; regex = none } ∷ [])

-- The package has a directory "x" with a file "y" and a file "z"; the state tells whether "z" is there.
abbrev package_disk : PackageDisk
package_disk = record {
  State = Bool;
  working_dir = none;
  lstat = λ _ path.
      if text_eq path (codes "/p") || text_eq path (codes "/p/x")
      then some directory
      else if text_eq path (codes "/p/z")
      then some regular
      else none;
  dir_names = λ _ path.
      if text_eq path (codes "/p")
      then some (codes "x" ∷ codes "z" ∷ [])
      else some (codes "y" ∷ []);
  eval_symlinks = λ _ path. some path;
  remove_all = λ path s. (if text_eq path (codes "/p/z") then false else s, ok tt);
}

removes_others :
    (path rel_path : Text)
    → rel (codes "/p") path ≡ some rel_path
    → Excluded only_x package_disk (codes "/p") one_rule rel_path
    → Keeps (λ s. s ≡ true) (package_disk.remove_all path)
unfolding rel ignored
removes_others path rel_path h e = record {
  kept = λ s p. elim (Bool-cases (text_eq path (codes "/p/z"))) [
    | inr n ↦ rw n p
    | inl k ↦
        let same : rel_path ≡ codes "z" =
          some-injective (sym h ∙ ap (rel (codes "/p")) (text_eq→eq path (codes "/p/z") k)) in
        elim e [
          | inl a ↦
              cc (subst (λ r. ignored only_x package_disk (codes "/p") one_rule r ≡ ok true) same a)
          | inr a ↦ cc (
              subst
                (λ r. ignored only_x package_disk (codes "/p") one_rule (r ++ codes "/") ≡ ok true)
                same a)
        ]
  ];
}

prepare_package-Keeps_example :
    Keeps (λ s. s ≡ true) (prepare_package only_x package_disk (codes "/p") one_rule 3)
prepare_package-Keeps_example =
    prepare_package-Keeps only_x package_disk (codes "/p") one_rule (λ s. s ≡ true) removes_others 3

walk_path-excluded_example :
    walk_path is_dir package_disk.lstat package_disk.dir_names
      (prepare_walk_fn only_x package_disk (codes "/p") one_rule)
      2
      (codes "/p/x")
      directory
      true
    ≡ (true, err (failed (unreadable (codes "/p/x/y"))))
unfolding rel ignored join_path
walk_path-excluded_example =
    walk_path-excluded only_x package_disk (codes "/p") one_rule 1 (codes "/p/x") (codes "x")
      (codes "y") [] true true refl refl refl refl refl refl

prepare_walk_fn-HasReferent_example :
    (rel_path : Text) × (rel (codes "/p") (codes "/p/z") ≡ some rel_path)
    × ((rel_path ≡ dot)
        ⊎ ((ignored only_x package_disk (codes "/p") one_rule rel_path ≡ ok true)
            ⊎ HasReferent only_x package_disk (codes "/p") one_rule true rel_path))
unfolding prepare_walk_fn ◌>>=◌ ask with_error
prepare_walk_fn-HasReferent_example =
    prepare_walk_fn-HasReferent only_x package_disk (codes "/p") one_rule (codes "/p/z") regular
      true refl
