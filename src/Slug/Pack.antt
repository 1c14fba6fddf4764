-- ===== src/Slug/Pack.antt =====
-- slug.go, Pack: writing the files of a directory to an archive.
use go_slug.Prelude.{
  ℕ, zero, suc, ◌+◌, Bool, true, not, ◌&&◌, Option, none, some, List, [], ◌∷◌, ◌++◌, if◌then◌else◌,
  Text, codes, text_eq, length, Result, ok, err,
}
use go_slug.Go.Strings.{replace_once}
use go_slug.Go.Path.{dot, abs}
use go_slug.Go.Relative.{rel}
use go_slug.Go.Action.{Action, ◌>>=◌, ask, return, fail}
use go_slug.Go.FileWalk.{Stop, skip_dir, unfinished, failed, walk}
use go_slug.Ignore.Rules.{Rule, Outcome, ok, syntax_error, panicked}
use go_slug.Ignore.Excludes.{Regexp, LoadFile, ExcludesResult, excludes, parse_ignore_file}
use go_slug.Unpack.{Time}
use go_slug.Slug.{SymlinkError, valid_symlink}
use go_slug.Slug.Packer.{
  Packer, Kind, directory, regular, symbolic_link, irregular, FileInfo, is_dir, is_link,
  check_file_mode, Tree, PackError, or_stop, ExternalSymlink, resolve_external_link, walk_failed,
  no_relative_path, link_unreadable, illegal_link, unexpected_mode, header_refused, file_unreadable,
  copy_failed, source_missing, no_working_dir, ignore_panicked, archive_not_closed,
}

-- tar.Header, as far as it is written; the type is tar.TypeReg, tar.TypeDir or tar.TypeSymlink.
pub record PackHeader : Type 0 where
  pub name : Text
  pub mod_time : Time
  pub mode : ℕ
  pub typeflag : ℕ
  pub size : ℕ
  pub link_name : Text

-- A call of the tar writer.
pub data Written : Type 0 where
  header_written : PackHeader → Written
  body_written : Text → Written

-- What the tar writer has taken, and Meta.
pub record Packed : Type 0 where
  pub written : List Written
  pub files : List Text
  pub size : ℕ

-- Whether the tar writer takes a call without an error after those that it took, and whether both
-- writers close without one.
pub record Writer : Type 0 where
  pub accepts : List Written → Written → Bool
  pub closes : List Written → Bool

abbrev pub Packing : Type 0 → Type 0
Packing A = Action Packed (Stop PackError) A

unfoldable pub nothing_packed : Packed
nothing_packed = record { written = []; files = []; size = 0 }

-- WriteHeader, and the account of the file in the list.
unfoldable pub write_header : Writer → PackHeader → Packing (Unit {0})
write_header writer header s =
    if writer.accepts s.written (header_written header)
    then (
      record s {
        written = s.written ++ (header_written header ∷ []);
        files = s.files ++ (header.name ∷ []);
      },
      ok tt,
    )
    else (s, err (failed (header_refused header.name)))

-- io.Copy to the writer, and the account of its size.
unfoldable pub write_body : Writer → Text → Option (Text × Bool) → Packing (Unit {0})
write_body writer path none s = (s, err (failed (file_unreadable path)))
write_body writer path (some (text, complete)) s =
    if complete && writer.accepts s.written (body_written text)
    then (
      record s { written = s.written ++ (body_written text ∷ []); size = s.size + length text },
      ok tt,
    )
    else (s, err (failed (copy_failed path)))

module _ (re : Regexp) (tree : Tree) (writer : Writer) (p : Packer)
    (rules : Option (List (Rule re.Regex))) (root : Text) where
  open tree use {lstat, dir_names, readlink, content, working_dir}

  -- matchIgnoreRules
  unfoldable pub match_ignore_rules : Text → ExcludesResult
  unfolding excludes
  match_ignore_rules path = (excludes re rules path).0

  -- The header first, and the body where it is asked for.
  unfoldable pub write_entry : PackHeader → Bool → Text → Packing (Unit {0})
  unfolding write_header write_body
  write_entry header body path = write_header writer header >>= λ _.
      if not body then return tt else write_body writer path (content path)

  abbrev pub header_for : Text → FileInfo → ℕ → PackHeader
  header_for name info typeflag = record {
    name = name;
    mod_time = info.mod_time;
    mode = info.perm;
    typeflag = typeflag;
    size = 0;
    link_name = [];
  }

  -- An external target: a directory is packed in the symlink's place, and so is another file.
  -- `recur` is the walk with the target as the source and the symlink as the destination.
  unfoldable pub pack_external :
      (Text → Text → Packing (Unit {0})) → Text → Text → ExternalSymlink → Packing (Unit {0})
  unfolding write_entry
  pack_external recur path subpath resolved =
      if is_dir resolved.info.kind
      then recur resolved.abs_target path
      else write_entry
          (record (header_for subpath resolved.info b'0') { size = resolved.info.size }) true path

  abbrev pub pack_checked_link :
      ℕ
      → (Text → Text → Packing (Unit {0}))
      → Text
      → FileInfo
      → Text
      → Text
      → Bool
      → Result SymlinkError (Unit {0})
      → Packing (Unit {0})
  pack_checked_link fuel recur path info subpath target body (ok _) =
      write_entry (record (header_for subpath info b'2') { link_name = target }) body path
  pack_checked_link fuel recur path info subpath target body (err e) =
      if not p.dereference
      then fail (failed (illegal_link e))
      else ask (λ _. resolve_external_link tree fuel root path) >>= λ resolved.
          pack_external recur path subpath resolved

  -- A symlink.
  unfoldable pub pack_link :
      ℕ → (Text → Text → Packing (Unit {0})) → Text → FileInfo → Text → Bool → Packing (Unit {0})
  unfolding valid_symlink resolve_external_link pack_external write_entry
  pack_link fuel recur path info subpath body =
      ask (λ _. or_stop (readlink path) (link_unreadable path)) >>= λ target.
      pack_checked_link fuel recur path info subpath target body
        (valid_symlink working_dir p.allow_symlink_targets root path target)

  -- The switch on the file's type.
  unfoldable pub pack_kind :
      ℕ
      → (Text → Text → Packing (Unit {0}))
      → Text
      → FileInfo
      → Text
      → Bool
      → Kind
      → Packing (Unit {0})
  unfolding pack_link write_entry
  pack_kind fuel recur path info subpath body directory =
      write_entry (header_for (subpath ++ codes "/") info b'5') body path
  pack_kind fuel recur path info subpath body regular =
      write_entry (record (header_for subpath info b'0') { size = info.size }) body path
  pack_kind fuel recur path info subpath body symbolic_link =
      pack_link fuel recur path info subpath body
  pack_kind fuel recur path info subpath body irregular = fail (failed unexpected_mode)

  -- From the relative path in the root on.
  unfoldable pub pack_at :
      ℕ → (Text → Text → Packing (Unit {0})) → Text → FileInfo → Text → Packing (Unit {0})
  unfolding check_file_mode pack_kind
  pack_at fuel recur path info subpath =
      let (keep, body) = check_file_mode info.kind in
      if text_eq subpath dot
      then return tt
      else if not keep
      then return tt
      else pack_kind fuel recur path info subpath body info.kind

  -- From the relative path in the current source on.
  unfoldable pub pack_unless_ignored :
      ℕ
      → (Text → Text → Packing (Unit {0}))
      → Text
      → Text
      → Text
      → FileInfo
      → Text
      → Packing (Unit {0})
  unfolding match_ignore_rules rel replace_once pack_at
  pack_unless_ignored fuel recur src dst path info subpath =
      let inside = match_ignore_rules (subpath ++ codes "/") in
      if text_eq subpath dot
      then return tt
      else if (match_ignore_rules subpath).excluded
      then return tt
      else if is_dir info.kind && inside.excluded
      then (if inside.dominating then fail skip_dir else return tt)
      else ask (λ _. or_stop (rel root (replace_once path src dst)) (no_relative_path path))
        >>= pack_at fuel recur path info

  -- packWalkFn
  unfoldable pub pack_walk_fn :
      ℕ
      → (Text → Text → Packing (Unit {0}))
      → Text
      → Text
      → Text
      → Option FileInfo
      → Packing (Unit {0})
  unfolding rel pack_unless_ignored
  pack_walk_fn fuel recur src dst path none = fail (failed (walk_failed path))
  pack_walk_fn fuel recur src dst path (some info) =
      ask (λ _. or_stop (rel src path) (no_relative_path path))
      >>= pack_unless_ignored fuel recur src dst path info

  -- filepath.Walk with packWalkFn, to a depth of directories and of symlinks.
  unfoldable pub pack_walk : ℕ → Text → Text → Packing (Unit {0})
  unfolding pack_walk_fn walk
  pack_walk zero src dst = fail unfinished
  pack_walk (suc fuel) src dst =
      let recur = pack_walk fuel in
      walk (λ info. is_dir info.kind) (λ _. lstat) (λ _. dir_names)
        (pack_walk_fn fuel recur src dst) fuel src

module _ (re : Regexp) (tree : Tree) (writer : Writer) where
  open re use {Regex}
  open tree use {lstat, readlink, working_dir}

  abbrev pub closed : Packed × Result (Stop PackError) (Unit {0}) → Result (Stop PackError) Packed
  closed (s, err e) = err e
  closed (s, ok _) = if writer.closes s.written then ok s else err (failed archive_not_closed)

  -- With the ignore rules, from filepath.Abs on.
  unfoldable pub pack_with :
      ℕ → Packer → Text → Outcome (Option (List (Rule Regex))) → Result (Stop PackError) Packed
  unfolding abs pack_walk nothing_packed
  pack_with fuel p src panicked = err (failed ignore_panicked)
  pack_with fuel p src (syntax_error e) = err (failed ignore_panicked)
  pack_with fuel p src (ok rules) = elim (abs working_dir src) [
    | none ↦ err (failed no_working_dir)
    | some root ↦ closed (pack_walk re tree writer p rules root fuel root root nothing_packed)
  ]

  abbrev pub with_some : Outcome (List (Rule Regex)) → Outcome (Option (List (Rule Regex)))
  with_some (ok rules) = ok (some rules)
  with_some (syntax_error e) = syntax_error e
  with_some panicked = panicked

  -- The rules that Pack uses for a source directory; `load` is what os.Open makes of its
  -- .terraformignore, and `globals` defaultExclusions.
  unfoldable pub ignore_rules :
      (Text → LoadFile) → List (Rule Regex) → Packer → Text → Outcome (Option (List (Rule Regex)))
  unfolding parse_ignore_file
  ignore_rules load globals p src =
      if p.apply_terraform_ignore
      then with_some (parse_ignore_file (load src) globals).0
      else ok none

  abbrev pub pack_source :
      ℕ
      → (Text → LoadFile)
      → List (Rule Regex)
      → Packer
      → Option Text
      → Result (Stop PackError) Packed
  pack_source fuel load globals p none = err (failed source_missing)
  pack_source fuel load globals p (some src) =
      pack_with fuel p src (ignore_rules load globals p src)

  -- Packer.Pack
  unfoldable pub pack :
      ℕ → (Text → LoadFile) → List (Rule Regex) → Packer → Text → Result (Stop PackError) Packed
  unfolding pack_with ignore_rules
  pack fuel load globals p src = elim (lstat src) [
    | none ↦ err (failed source_missing)
    | some info ↦
        pack_source fuel load globals p (if is_link info.kind then readlink src else some src)
  ]
