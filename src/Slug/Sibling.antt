-- ===== src/Slug/Sibling.antt =====
-- The prefix of a path as a text is not a prefix of its elements.
use mathlib.Core.Option
use go_slug.Prelude.{
  if_true, ◌≡◌, refl, ap, ◌∙◌, true, Option, List, [], ◌∷◌, ◌++◌, arith, Text, ok, some,
}
use go_slug.Go.Strings.{has_prefix}
use go_slug.Go.Path.{abs, is_abs, clean, join_path}
use go_slug.Slug.{target_path, valid_symlink}

has_prefix-append : (s t : Text) → has_prefix (s ++ t) s ≡ true
unfolding has_prefix
has_prefix-append [] t = refl
has_prefix-append (c ∷ s) t = ground (arith, has_prefix-append s t)

abs-clean :
    (working_dir : Option Text) (root : Text)
    → is_abs root ≡ true
    → clean root ≡ root
    → abs working_dir root ≡ some root
unfolding abs
abs-clean working_dir root h k =
    if_true (some (clean root)) (Option.map (λ wd. join_path wd root) working_dir) h ∙ ap some k

is_abs-append : (s t : Text) → is_abs s ≡ true → is_abs (s ++ t) ≡ true
unfolding is_abs
is_abs-append [] t h = cc h
is_abs-append (c ∷ s) t h = h

target_path-abs :
    (root path target : Text)
    → is_abs target ≡ true
    → clean target ≡ target
    → target_path root path target ≡ target
unfolding target_path
target_path-abs root path target h k = if_true (clean target) _ h ∙ k

-- Whatever the packer allows, and whatever the working directory, a symlink to an absolute path whose
-- text continues that of the root is accepted, if the root is absolute and the root and the target are
-- in the form of path.Clean; also where the target continues the name of the root's directory to that
-- of a directory beside it.
pub valid_symlink-continues :
    (working_dir : Option Text) (allow : List Text) (root path name : Text)
    → is_abs root ≡ true
    → clean root ≡ root
    → clean (root ++ name) ≡ root ++ name
    → valid_symlink working_dir allow root path (root ++ name) ≡ ok tt
unfolding valid_symlink
valid_symlink-continues working_dir allow root path name h k l =
    let start = abs-clean working_dir root h k in
    let end = target_path-abs root path (root ++ name) (is_abs-append root name h) l in
    let inside : has_prefix (target_path root path (root ++ name)) root ≡ true =
      ap (λ t. has_prefix t root) end ∙ has_prefix-append root name in
    rw (start, inside, valid_symlink) refl
