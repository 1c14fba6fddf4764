-- ===== src/Go/WalkEnds.antt =====
-- When filepath.Walk comes to its end.
use go_slug.Prelude.{
  ℕ, zero, suc, ◌<◌, ◌≤◌, arith, ◌≡◌, refl, ◌≢◌, ◌∙◌, inl, inr, Bool, true, false, not, Option,
  none, some, List, [], ◌∷◌, Text, All, In, Result, ok, err, if◌then◌else◌, ok-injective,
}
use go_slug.Go.Path.{join_path}
use go_slug.Go.Action.{Action, ◌>>=◌, ask, with_error, continue}
use go_slug.Go.FileWalk.{
  Stop, skip_dir, unfinished, failed, absorbed, walk_name, walk_names, walk_dir, walk_path,
  walk_root, walk,
}

absorbed-ends :
    {E : Type 0} (skips : Bool) (r : Result (Stop E) (Unit {0}))
    → r ≢ err unfinished
    → absorbed skips r ≢ err unfinished
absorbed-ends skips (ok a) h = λ e. cc e
absorbed-ends true (err skip_dir) h = λ e. cc e
absorbed-ends false (err skip_dir) h = λ e. cc e
absorbed-ends skips (err unfinished) h = λ e. h refl
absorbed-ends skips (err (failed x)) h = λ e. cc e

module _ {S E : Type 0} where
  -- The call does not run out of fuel.
  pub record Ends {A : Type 0} (call : Action S (Stop E) A) : Type 0 where
    pub ends : (s : S) → (call s).1 ≢ err unfinished

  continue-Ends :
      {A B : Type 0} (next : A → Action S (Stop E) B) (r : S × Result (Stop E) A)
      → r.1 ≢ err unfinished
      → ((a : A) → r.1 ≡ ok a → Ends (next a))
      → (continue next r).1 ≢ err unfinished
  continue-Ends next (s, err e) h k = λ l. h (cc l)
  continue-Ends next (s, ok a) h k = (k a refl).ends s

  pub >>=-Ends :
      {A B : Type 0} {call : Action S (Stop E) A} {next : A → Action S (Stop E) B}
      → Ends call
      → ((a : A) (s : S) → (call s).1 ≡ ok a → Ends (next a))
      → Ends (call >>= next)
  unfolding ◌>>=◌
  >>=-Ends {call = call} {next = next} h k = record {
    ends = λ s. continue-Ends next (call s) (h.ends s) (λ a e. k a s e);
  }

  pub ask-Ends :
      {A : Type 0} (f : S → Result (Stop E) A) → ((s : S) → f s ≢ err unfinished) → Ends (ask f)
  unfolding ask
  ask-Ends f h = record { ends = h }

  pub if-Ends :
      {A : Type 0} (b : Bool) {x y : Action S (Stop E) A}
      → Ends x
      → Ends y
      → Ends (if b then x else y)
  if-Ends true h k = h
  if-Ends false h k = k

  absorbed-Ends :
      (skips : Bool) {call : Action S (Stop E) (Unit {0})}
      → Ends call
      → Ends (with_error (absorbed skips) call)
  unfolding with_error
  absorbed-Ends skips {call = call} h = record {
    ends = λ s. absorbed-ends skips ((call s).1) (h.ends s);
  }

  module _ {Info : Type 0} (is_dir : Info → Bool) (lstat : S → Text → Option Info)
      (dir_names : S → Text → Option (List Text))
      (fn : Text → Option Info → Action S (Stop E) (Unit {0})) (height : Text → ℕ)
      (lower : (s t : S) (path name : Text) (names : List Text) (info : Info)
        → dir_names s path ≡ some names
        → In name names
        → lstat t (join_path path name) ≡ some info
        → height (join_path path name) < height path)
      (h : (path : Text) (info : Option Info) → Ends (fn path info)) where
    abbrev Within : Text → ℕ → Text → Type 0
    Within path depth name =
        (t : S) (info : Info)
        → lstat t (join_path path name) ≡ some info
        → height (join_path path name) < depth

    abbrev To : ℕ → (Text → Info → Action S (Stop E) (Unit {0})) → Type 0
    To depth next = (path : Text) (info : Info) → height path < depth → Ends (next path info)

    walk_name-Ends :
        (depth : ℕ) (next : Text → Info → Action S (Stop E) (Unit {0})) (path : Text)
        (info : Option Info)
        → To depth next
        → ((i : Info) → info ≡ some i → height path < depth)
        → Ends (walk_name is_dir lstat dir_names fn next path info)
    unfolding walk_name
    walk_name-Ends depth next path none k l = absorbed-Ends true (h path none)
    walk_name-Ends depth next path (some info) k l =
        absorbed-Ends (is_dir info) (k path info (l info refl))

    ask_ok-Ends : {A : Type 0} (f : S → A) → Ends (ask (λ s. ok (f s)))
    ask_ok-Ends f = ask-Ends (λ s. ok (f s)) (λ s e. cc e)

    walk_names-Ends :
        (depth : ℕ) (next : Text → Info → Action S (Stop E) (Unit {0})) (path : Text)
        (names : List Text)
        → To depth next
        → All (Within path depth) names
        → Ends (walk_names is_dir lstat dir_names fn next path names)
    unfolding walk_names ask
    walk_names-Ends depth next path [] k l = ask_ok-Ends (λ _. tt)
    walk_names-Ends depth next path (name ∷ names) k l =
        >>=-Ends (ask_ok-Ends (λ s. lstat s (join_path path name))) (λ info s e.
          >>=-Ends
            (walk_name-Ends depth next (join_path path name) info k
              (λ i m. l.0 s i (ok-injective e ∙ m)))
            (λ _ _ _. walk_names-Ends depth next path names k l.1))

    all-Within :
        (s : S) (path : Text) (depth : ℕ) (all names : List Text)
        → dir_names s path ≡ some all
        → ((name : Text) → In name names → In name all)
        → height path ≤ depth
        → All (Within path depth) names
    all-Within s path depth all [] e sub l = tt
    all-Within s path depth all (name ∷ names) e sub l = (
      λ t info m.
          let low = lower s t path name all info e (sub name (inl refl)) m in omega (arith, low, l),
      all-Within s path depth all names e (λ n i. sub n (inr i)) l,
    )

    walk_dir-Ends :
        (depth : ℕ) (next : Text → Info → Action S (Stop E) (Unit {0})) (path : Text) (info : Info)
        (names : Option (List Text)) (s : S)
        → To depth next
        → dir_names s path ≡ names
        → height path ≤ depth
        → Ends (walk_dir is_dir lstat dir_names fn next path info names)
    unfolding walk_dir
    walk_dir-Ends depth next path info none s k e l = h path none
    walk_dir-Ends depth next path info (some names) s k e l =
        >>=-Ends (h path (some info)) (λ _ _ _.
          walk_names-Ends depth next path names k
            (all-Within s path depth names names e (λ _ i. i) l))

    walk_path-Ends :
        (depth : ℕ) (path : Text) (info : Info)
        → height path < depth
        → Ends (walk_path is_dir lstat dir_names fn depth path info)
    unfolding walk_path ask
    walk_path-Ends zero path info l = absurd (omega (arith, l))
    walk_path-Ends (suc depth) path info l = if-Ends (not (is_dir info)) (h path (some info)) (
        >>=-Ends (ask_ok-Ends (λ s. dir_names s path)) (λ names s e.
          walk_dir-Ends depth (walk_path is_dir lstat dir_names fn depth) path info names s
            (walk_path-Ends depth) (ok-injective e) (omega (arith, l))))

    walk_root-Ends :
        (depth : ℕ) (path : Text) (info : Option Info)
        → height path < depth
        → Ends (walk_root is_dir lstat dir_names fn depth path info)
    unfolding walk_root
    walk_root-Ends depth path none l = h path none
    walk_root-Ends depth path (some info) l = walk_path-Ends depth path info l

    pub walk-Ends :
        (depth : ℕ) (root : Text)
        → height root < depth
        → Ends (walk is_dir lstat dir_names fn depth root)
    unfolding walk
    walk-Ends depth root l =
        absorbed-Ends true (
          >>=-Ends (ask_ok-Ends (λ s. lstat s root)) (λ info _ _. walk_root-Ends depth root info l))
