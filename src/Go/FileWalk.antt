-- ===== src/Go/FileWalk.antt =====
-- Go's filepath.Walk, over a file system that may change during the walk.
use go_slug.Prelude.{
  ℕ, zero, suc, Bool, true, false, not, Option, none, some, List, [], ◌∷◌, if◌then◌else◌, Text,
  Result, ok, err,
}
use go_slug.Go.Path.{join_path}
use go_slug.Go.Action.{Action, ◌>>=◌, ask, return, fail, with_error}

-- filepath.SkipDir, an error of the function that is called, or the end of the fuel.
pub data Stop (E : Type 0) : Type 0 where
  skip_dir unfinished : Stop E
  failed : E → Stop E

-- SkipDir is no error where `skips` is true.
abbrev pub absorbed : {E : Type 0} → Bool → Result (Stop E) (Unit {0}) → Result (Stop E) (Unit {0})
absorbed skips (ok a) = ok a
absorbed true (err skip_dir) = ok tt
absorbed false (err skip_dir) = err skip_dir
absorbed skips (err unfinished) = err unfinished
absorbed skips (err (failed e)) = err (failed e)

-- os.Lstat, the names in a directory in their order, and the function to call, whose second argument is
-- `none` where it is called with an error.
module _ {S E Info : Type 0} (is_dir : Info → Bool) (lstat : S → Text → Option Info)
    (dir_names : S → Text → Option (List Text))
    (fn : Text → Option Info → Action S (Stop E) (Unit {0})) where
  -- One name in a directory.
  unfoldable pub walk_name :
      (Text → Info → Action S (Stop E) (Unit {0}))
      → Text
      → Option Info
      → Action S (Stop E) (Unit {0})
  walk_name walk path none = with_error (absorbed true) (fn path none)
  walk_name walk path (some info) = with_error (absorbed (is_dir info)) (walk path info)

  unfoldable pub walk_names :
      (Text → Info → Action S (Stop E) (Unit {0})) → Text → List Text → Action S (Stop E) (Unit {0})
  unfolding walk_name join_path
  walk_names walk path [] = return tt
  walk_names walk path (name ∷ names) = ask (λ s. ok (lstat s (join_path path name))) >>= λ info.
      walk_name walk (join_path path name) info >>= λ _. walk_names walk path names

  -- From the reading of a directory's names on.
  unfoldable pub walk_dir :
      (Text → Info → Action S (Stop E) (Unit {0}))
      → Text
      → Info
      → Option (List Text)
      → Action S (Stop E) (Unit {0})
  unfolding walk_names
  walk_dir walk path info none = fn path none
  walk_dir walk path info (some names) = fn path (some info) >>= λ _. walk_names walk path names

  -- The function `walk` of filepath, to a depth.
  unfoldable pub walk_path : ℕ → Text → Info → Action S (Stop E) (Unit {0})
  unfolding walk_dir
  walk_path zero path info = fail unfinished
  walk_path (suc depth) path info =
      let below = walk_path depth in
      if not (is_dir info)
      then fn path (some info)
      else ask (λ s. ok (dir_names s path)) >>= λ names. walk_dir below path info names

  unfoldable pub walk_root : ℕ → Text → Option Info → Action S (Stop E) (Unit {0})
  unfolding walk_path
  walk_root depth path none = fn path none
  walk_root depth path (some info) = walk_path depth path info

  -- filepath.Walk
  unfoldable pub walk : ℕ → Text → Action S (Stop E) (Unit {0})
  unfolding walk_root
  walk depth root =
      with_error (absorbed true)
        (ask (λ s. ok (lstat s root)) >>= λ info. walk_root depth root info)
