-- ===== src/Slug/Finish.antt =====
-- When Pack comes to its end.
use go_slug.Prelude.{
  ℕ, zero, suc, ◌+◌, ◌<◌, arith, ◌≡◌, ◌≢◌, inl, inr, Bool, true, false, not, ◌&&◌, Option, none,
  some, List, ◌++◌, codes, Text, text_eq, In, Result, ok, err, if◌then◌else◌, Bool-cases,
  Option-cases,
}
use go_slug.Go.Path.{dot, abs, join_path}
use go_slug.Go.Action.{ask}
use go_slug.Go.FileWalk.{Stop, unfinished, failed}
use go_slug.Go.WalkEnds.{Ends, >>=-Ends, ask-Ends, if-Ends, walk-Ends}
use go_slug.Ignore.Rules.{Rule, Outcome, ok, syntax_error, panicked}
use go_slug.Ignore.Excludes.{Regexp, LoadFile}
use go_slug.Slug.{SymlinkError}
use go_slug.Slug.Packer.{
  Packer, Kind, directory, regular, symbolic_link, irregular, FileInfo, is_dir, check_file_mode,
  Tree, PackError, or_stop, illegal_link,
}
use go_slug.Slug.Pack.{
  PackHeader, header_written, body_written, Packed, Writer, Packing, write_header, write_body,
  write_entry, pack_checked_link, pack_link, pack_kind, pack_at, pack_unless_ignored, pack_walk_fn,
  pack_walk, pack, pack_with, pack_source, nothing_packed, closed, match_ignore_rules,
}

or_stop-ends : {A : Type 0} (o : Option A) (e : PackError) → or_stop o e ≢ err unfinished
or_stop-ends none e h = cc h
or_stop-ends (some a) e h = cc h

write_header-Ends : (writer : Writer) (h : PackHeader) → Ends (write_header writer h)
unfolding write_header
write_header-Ends writer h = record {
  ends = λ s. elim (Bool-cases (writer.accepts s.written (header_written h))) [
    | inl e ↦ rw e (λ k. cc k)
    | inr e ↦ rw e (λ k. cc k)
  ];
}

write_body-Ends :
    (writer : Writer) (path : Text) (content : Option (Text × Bool))
    → Ends (write_body writer path content)
unfolding write_body
write_body-Ends writer path none = record { ends = λ s k. cc k }
write_body-Ends writer path (some (t, complete)) = record {
  ends = λ s. elim (Bool-cases (complete && writer.accepts s.written (body_written t))) [
    | inl e ↦ rw e (λ k. cc k)
    | inr e ↦ rw e (λ k. cc k)
  ];
}

module _ (re : Regexp) (tree : Tree) (writer : Writer) (p : Packer)
    (plain : p.dereference ≡ false) where
  module _ (rules : Option (List (Rule re.Regex))) (root : Text) where
    open tree use {lstat, dir_names, readlink, working_dir}

    ok-Ends : Ends (ask {S = Packed} {E = Stop PackError} (λ _. ok tt))
    ok-Ends = ask-Ends _ (λ _ h. cc h)

    fail-Ends : (e : PackError) → Ends (ask {S = Packed} {A = Unit {0}} (λ _. err (failed e)))
    fail-Ends e = ask-Ends _ (λ _ h. cc h)

    write_entry-Ends :
        (h : PackHeader) (body : Bool) (path : Text)
        → Ends (write_entry re tree writer p rules root h body path)
    unfolding write_entry
    write_entry-Ends h body path =
        >>=-Ends (write_header-Ends writer h)
          (λ _ _ _. if-Ends (not body) ok-Ends (write_body-Ends writer path (tree.content path)))

    module _ (fuel : ℕ) (recur : Text → Text → Packing (Unit {0})) where
      refused-Ends :
          (b : Bool) (e : SymlinkError) (y : Packing (Unit {0}))
          → b ≡ false
          → Ends (if not b then ask (λ _. err (failed (illegal_link e))) else y)
      refused-Ends true e y h = absurd (cc h)
      refused-Ends false e y h = fail-Ends (illegal_link e)

      pack_checked_link-Ends :
          (path : Text) (info : FileInfo) (subpath target : Text) (body : Bool)
          (valid : Result SymlinkError (Unit {0}))
          → Ends (
              pack_checked_link re tree writer p rules root fuel recur path info subpath target body
                valid)
      pack_checked_link-Ends path info subpath target body (ok _) = write_entry-Ends _ body path
      pack_checked_link-Ends path info subpath target body (err e) =
          refused-Ends p.dereference e _ plain

      pack_kind-Ends :
          (path : Text) (info : FileInfo) (subpath : Text) (body : Bool) (kind : Kind)
          → Ends (pack_kind re tree writer p rules root fuel recur path info subpath body kind)
      unfolding pack_kind pack_link
      pack_kind-Ends path info subpath body directory = write_entry-Ends _ body path
      pack_kind-Ends path info subpath body regular = write_entry-Ends _ body path
      pack_kind-Ends path info subpath body symbolic_link =
          >>=-Ends (ask-Ends _ (λ _. or_stop-ends (readlink path) _))
            (λ target _ _. pack_checked_link-Ends path info subpath target body _)
      pack_kind-Ends path info subpath body irregular = fail-Ends _

      pack_at-Ends :
          (path : Text) (info : FileInfo) (subpath : Text)
          → Ends (pack_at re tree writer p rules root fuel recur path info subpath)
      unfolding pack_at
      pack_at-Ends path info subpath = if-Ends (text_eq subpath dot) ok-Ends (
          if-Ends (not (check_file_mode info.kind).0) ok-Ends
            (pack_kind-Ends path info subpath (check_file_mode info.kind).1 info.kind))

      pack_unless_ignored-Ends :
          (src dst path : Text) (info : FileInfo) (subpath : Text)
          → Ends
              (pack_unless_ignored re tree writer p rules root fuel recur src dst path info subpath)
      unfolding pack_unless_ignored
      pack_unless_ignored-Ends src dst path info subpath =
          let inside = match_ignore_rules re tree writer p rules root (subpath ++ codes "/") in
          if-Ends (text_eq subpath dot) ok-Ends (
            if-Ends (match_ignore_rules re tree writer p rules root subpath).excluded ok-Ends (
              if-Ends (is_dir info.kind && inside.excluded)
                (if-Ends inside.dominating (ask-Ends _ (λ _ h. cc h)) ok-Ends)
                (>>=-Ends (ask-Ends _ (λ _. or_stop-ends _ _))
                  (λ subpath _ _. pack_at-Ends path info subpath))))

      pack_walk_fn-Ends :
          (src dst path : Text) (info : Option FileInfo)
          → Ends (pack_walk_fn re tree writer p rules root fuel recur src dst path info)
      unfolding pack_walk_fn
      pack_walk_fn-Ends src dst path none = fail-Ends _
      pack_walk_fn-Ends src dst path (some info) =
          >>=-Ends (ask-Ends _ (λ _. or_stop-ends _ _))
            (λ subpath _ _. pack_unless_ignored-Ends src dst path info subpath)

    pack_walk-Ends :
        (height : Text → ℕ)
        → ((path name : Text) (names : List Text) (info : FileInfo)
            → dir_names path ≡ some names
            → In name names
            → lstat (join_path path name) ≡ some info
            → height (join_path path name) < height path)
        → (fuel : ℕ) (src dst : Text) → height src + 1 < fuel
        → Ends (pack_walk re tree writer p rules root fuel src dst)
    unfolding pack_walk
    pack_walk-Ends height lower zero src dst h = absurd (omega (arith, h))
    pack_walk-Ends height lower (suc fuel) src dst h =
        let recur = pack_walk re tree writer p rules root fuel in
        walk-Ends (λ info. is_dir info.kind) (λ _. lstat) (λ _. dir_names)
          (pack_walk_fn re tree writer p rules root fuel recur src dst) height
          (λ _ _ path name names info d i l. lower path name names info d i l)
          (pack_walk_fn-Ends fuel recur src dst) fuel src (omega (arith, h))

  -- Every name in a directory leads to a file that is less high.
  abbrev pub Lowers : (Text → ℕ) → Type 0
  Lowers height =
      (path name : Text) (names : List Text) (info : FileInfo)
      → tree.dir_names path ≡ some names
      → In name names
      → tree.lstat (join_path path name) ≡ some info
      → height (join_path path name) < height path

  module _ (height : Text → ℕ) (lowers : Lowers height) (fuel : ℕ)
      (enough : (path : Text) → height path + 1 < fuel) where
    closed-finishes :
        (r : Packed × Result (Stop PackError) (Unit {0}))
        → r.1 ≢ err unfinished
        → closed re tree writer r ≢ err unfinished
    closed-finishes (s, err e) h = λ k. h (cc k)
    closed-finishes (s, ok _) h = elim (Bool-cases (writer.closes s.written)) [
      | inl e ↦ rw e (λ k. cc k)
      | inr e ↦ rw e (λ k. cc k)
    ]

    pack_with-finishes :
        (src : Text) (rules : Outcome (Option (List (Rule re.Regex))))
        → pack_with re tree writer fuel p src rules ≢ err unfinished
    unfolding pack_with
    pack_with-finishes src panicked = λ h. cc h
    pack_with-finishes src (syntax_error e) = λ h. cc h
    pack_with-finishes src (ok rules) = elim (Option-cases (abs tree.working_dir src)) [
      | inl e ↦ rw (e, pack_with) (λ k. cc k)
      | inr (root, e) ↦
          rw (e, pack_with)
            (closed-finishes _ (
              (pack_walk-Ends rules root height lowers fuel root root (enough root)).ends
                nothing_packed))
    ]

    pack_source-finishes :
        (load : Text → LoadFile) (globals : List (Rule re.Regex)) (src : Option Text)
        → pack_source re tree writer fuel load globals p src ≢ err unfinished
    pack_source-finishes load globals none = λ h. cc h
    pack_source-finishes load globals (some src) = pack_with-finishes src _

    -- Pack without dereferencing comes to its end, with a result or an error: the fuel is enough that
    -- exceeds the height of every path by two, where each name in a directory leads to a file that is
    -- less high.
    pub pack-finishes :
        (load : Text → LoadFile) (globals : List (Rule re.Regex)) (src : Text)
        → pack re tree writer fuel load globals p src ≢ err unfinished
    unfolding pack
    pack-finishes load globals src = elim (Option-cases (tree.lstat src)) [
      | inl e ↦ rw (e, pack) (λ k. cc k)
      | inr (info, e) ↦ rw (e, pack) (pack_source-finishes load globals _)
    ]
