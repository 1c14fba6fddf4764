-- ===== src/Go/WalkKept.antt =====
-- What filepath.Walk leaves as it is.
use go_slug.Prelude.{ℕ, zero, suc, Bool, true, Option, none, some, List, [], ◌∷◌, Text, not}
use go_slug.Go.Path.{join_path}
use go_slug.Go.Action.{Action, Keeps, >>=-Keeps, ask-Keeps, with_error-Keeps, if-Keeps}
use go_slug.Go.FileWalk.{
  Stop, absorbed, walk_name, walk_names, walk_dir, walk_path, walk_root, walk,
}

module _ {S E Info : Type 0} (P : S → Type 0) (is_dir : Info → Bool)
    (lstat : S → Text → Option Info) (dir_names : S → Text → Option (List Text))
    (fn : Text → Option Info → Action S (Stop E) (Unit {0}))
    (h : (path : Text) (info : Option Info) → Keeps P (fn path info)) where
  walk_name-Keeps :
      (next : Text → Info → Action S (Stop E) (Unit {0})) (path : Text) (info : Option Info)
      → ((path : Text) (info : Info) → Keeps P (next path info))
      → Keeps P (walk_name is_dir lstat dir_names fn next path info)
  unfolding walk_name
  walk_name-Keeps next path none k = with_error-Keeps P _ (h path none)
  walk_name-Keeps next path (some info) k = with_error-Keeps P _ (k path info)

  walk_names-Keeps :
      (next : Text → Info → Action S (Stop E) (Unit {0})) (path : Text) (names : List Text)
      → ((path : Text) (info : Info) → Keeps P (next path info))
      → Keeps P (walk_names is_dir lstat dir_names fn next path names)
  unfolding walk_names
  walk_names-Keeps next path [] k = ask-Keeps P _
  walk_names-Keeps next path (name ∷ names) k = >>=-Keeps P (ask-Keeps P _) (λ info _ _.
      >>=-Keeps P (walk_name-Keeps next (join_path path name) info k)
        (λ _ _ _. walk_names-Keeps next path names k))

  walk_dir-Keeps :
      (next : Text → Info → Action S (Stop E) (Unit {0})) (path : Text) (info : Info)
      (names : Option (List Text))
      → ((path : Text) (info : Info) → Keeps P (next path info))
      → Keeps P (walk_dir is_dir lstat dir_names fn next path info names)
  unfolding walk_dir
  walk_dir-Keeps next path info none k = h path none
  walk_dir-Keeps next path info (some names) k =
      >>=-Keeps P (h path (some info)) (λ _ _ _. walk_names-Keeps next path names k)

  walk_path-Keeps :
      (depth : ℕ) (path : Text) (info : Info)
      → Keeps P (walk_path is_dir lstat dir_names fn depth path info)
  unfolding walk_path
  walk_path-Keeps zero path info = ask-Keeps P _
  walk_path-Keeps (suc depth) path info = if-Keeps P (not (is_dir info)) (h path (some info)) (
      >>=-Keeps P (ask-Keeps P _) (λ names _ _.
        walk_dir-Keeps (walk_path is_dir lstat dir_names fn depth) path info names
          (walk_path-Keeps depth)))

  walk_root-Keeps :
      (depth : ℕ) (path : Text) (info : Option Info)
      → Keeps P (walk_root is_dir lstat dir_names fn depth path info)
  unfolding walk_root
  walk_root-Keeps depth path none = h path none
  walk_root-Keeps depth path (some info) = walk_path-Keeps depth path info

  pub walk-Keeps : (depth : ℕ) (root : Text) → Keeps P (walk is_dir lstat dir_names fn depth root)
  unfolding walk
  walk-Keeps depth root =
      with_error-Keeps P (absorbed true)
        (>>=-Keeps P (ask-Keeps P _) (λ info _ _. walk_root-Keeps depth root info))
