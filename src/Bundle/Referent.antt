-- ===== src/Bundle/Referent.antt =====
-- What packagePrepareWalkFn makes sure of for a file that it lets stay.
use go_slug.Prelude.{
  ◌≡◌, refl, ap, ◌⊎◌, inl, inr, Bool, true, false, not, Option, none, some, List, if◌then◌else◌,
  Text, text_eq, text_eq→eq, ok, err, ok-injective,
}
use go_slug.Go.Path.{dot, abs, join_path}
use go_slug.Go.Relative.{rel}
use go_slug.Go.Action.{◌>>=◌, ask, return, fail, >>=-returns}
use go_slug.Go.FileWalk.{Stop, skip_dir}
use go_slug.Ignore.Rules.{Rule}
use go_slug.Ignore.Excludes.{Regexp}
use go_slug.Slug.Packer.{Kind, is_dir}
use go_slug.Bundle.Prepare.{
  PackageDisk, PrepareError, is_local, is_file_or_dir, or_stop, ignored, check_referent,
  prepare_dir, prepare_path, prepare_walk_fn, remove,
}

or_stop-ok :
    {A : Type 0} (o : Option A) (e : PrepareError) {a : A} → or_stop o e ≡ ok a → o ≡ some a
or_stop-ok none e h = cc h
or_stop-ok (some x) e h = ap some (ok-injective h)

module _ (re : Regexp) (disk : PackageDisk) (root : Text)
    (rules : Option (List (Rule re.Regex))) where
  open disk use {State, working_dir, lstat, eval_symlinks}

  -- With all symlinks followed, the path is below the package's directory, and is a file or a directory.
  pub record HasReferent (s : State) (rel_path : Text) : Type 0 where
    pub abs_root : Text
    pub real_root : Text
    pub real_path : Text
    pub real_rel : Text
    pub kind : Kind
    pub absolute : abs working_dir root ≡ some abs_root
    pub root_followed : eval_symlinks s abs_root ≡ some real_root
    pub path_followed : eval_symlinks s (join_path real_root rel_path) ≡ some real_path
    pub relative : rel real_root real_path ≡ some real_rel
    pub local : is_local real_rel ≡ true
    pub found : lstat s real_path ≡ some kind
    pub allowed : is_file_or_dir kind ≡ true

  is_true :
      (b : Bool) (e : Stop PrepareError) {a : Unit {0}}
      → (if not b then err e else ok tt) ≡ ok a
      → b ≡ true
  is_true true e h = refl
  is_true false e h = cc h

  returns_true :
      (b : Bool) (e : Stop PrepareError) (s : State)
      → ((if not b then ask {S = State} {A = Unit {0}} (λ _. err e) else return tt) s).1 ≡ ok tt
      → b ≡ true
  unfolding ask
  returns_true true e s h = refl
  returns_true false e s h = cc h

  check_referent-HasReferent :
      (rel_path : Text) (s : State)
      → (check_referent re disk root rules rel_path s).1 ≡ ok tt
      → HasReferent s rel_path
  unfolding check_referent ask
  check_referent-HasReferent rel_path s h =
      let (abs_root, a, h1) = >>=-returns _ _ s h in
      let (real_root, b, h2) = >>=-returns _ _ s h1 in
      let (real_path, c, h3) = >>=-returns _ _ s h2 in
      let (real_rel, d, h4) = >>=-returns _ _ s h3 in
      let (_, e, h5) = >>=-returns _ _ s h4 in
      let (kind, f, h6) = >>=-returns _ _ s h5 in
      record {
        abs_root = abs_root;
        real_root = real_root;
        real_path = real_path;
        real_rel = real_rel;
        kind = kind;
        absolute = or_stop-ok _ _ a;
        root_followed = or_stop-ok _ _ b;
        path_followed = or_stop-ok _ _ c;
        relative = or_stop-ok _ _ d;
        local = is_true (is_local real_rel) _ e;
        found = or_stop-ok _ _ f;
        allowed = returns_true (is_file_or_dir kind) _ s h6;
      }

  prepare_dir-HasReferent :
      (path rel_path : Text) (s : State)
      → (prepare_dir re disk root rules path rel_path s).1 ≡ ok tt
      → HasReferent s rel_path
  unfolding prepare_dir ask
  prepare_dir-HasReferent path rel_path s h =
      let (excluded, _, k) = >>=-returns _ _ s h in go excluded k
    where
      go :
          (b : Bool)
          → ((if b
                then remove re disk root rules path rel_path >>= (λ _. fail skip_dir)
                else check_referent re disk root rules rel_path)
              s).1
            ≡ ok tt
          → HasReferent s rel_path
      go true k = let (_, _, l) = >>=-returns _ _ s k in cc l
      go false k = check_referent-HasReferent rel_path s k

  prepare_path-HasReferent :
      (path rel_path : Text) (kind : Kind) (s : State)
      → (prepare_path re disk root rules path kind rel_path s).1 ≡ ok tt
      → (rel_path ≡ dot)
        ⊎ ((ignored re disk root rules rel_path ≡ ok true) ⊎ HasReferent s rel_path)
  unfolding prepare_path ask
  prepare_path-HasReferent path rel_path kind s h = go (text_eq rel_path dot) refl h
    where
      below :
          (b d : Bool)
          → ignored re disk root rules rel_path ≡ ok b
          → ((if b
                then remove re disk root rules path rel_path
                else if d
                then prepare_dir re disk root rules path rel_path
                else check_referent re disk root rules rel_path)
              s).1
            ≡ ok tt
          → (ignored re disk root rules rel_path ≡ ok true) ⊎ HasReferent s rel_path
      below true d e k = inl e
      below false true e k = inr (prepare_dir-HasReferent path rel_path s k)
      below false false e k = inr (check_referent-HasReferent rel_path s k)

      go :
          (b : Bool)
          → text_eq rel_path dot ≡ b
          → ((if b
                then return tt
                else ask (λ _. ignored re disk root rules rel_path) >>= λ excluded.
                    if excluded
                    then remove re disk root rules path rel_path
                    else if is_dir kind
                    then prepare_dir re disk root rules path rel_path
                    else check_referent re disk root rules rel_path)
              s).1
            ≡ ok tt
          → (rel_path ≡ dot)
            ⊎ ((ignored re disk root rules rel_path ≡ ok true) ⊎ HasReferent s rel_path)
      go true e k = inl (text_eq→eq rel_path dot e)
      go false e k =
          let (excluded, i, l) = >>=-returns _ _ s k in inr (below excluded (is_dir kind) i l)

  -- Where packagePrepareWalkFn returns no error for a path, the path is the package's directory, or the
  -- rules exclude it as it is, or what it leads to with all symlinks followed is in the package's
  -- directory, by a path that filepath.IsLocal accepts, and is a regular file or a directory.
  pub prepare_walk_fn-HasReferent :
      (path : Text) (kind : Kind) (s : State)
      → (prepare_walk_fn re disk root rules path (some kind) s).1 ≡ ok tt
      → (rel_path : Text) × (rel root path ≡ some rel_path)
        × ((rel_path ≡ dot)
            ⊎ ((ignored re disk root rules rel_path ≡ ok true) ⊎ HasReferent s rel_path))
  unfolding prepare_walk_fn ask
  prepare_walk_fn-HasReferent path kind s h =
      let (rel_path, e, k) = >>=-returns _ _ s h in
      (rel_path, or_stop-ok _ _ e, prepare_path-HasReferent path rel_path kind s k)
