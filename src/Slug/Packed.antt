-- ===== src/Slug/Packed.antt =====
-- What an archive is that Pack has written.
use go_slug.Prelude.{
  ℕ, zero, suc, ◌+◌, ◌≡◌, refl, ap, ◌∙◌, sym, ◌⊎◌, inl, inr, Bool, true, not, ◌&&◌, Option, none,
  some, List, [], ◌∷◌, ◌++◌, Text, codes, text_eq, length, Result, ok, err, ok-injective, All,
  All-append, Bool-cases,
}
use go_slug.Go.Path.{dot}
use go_slug.Go.Action.{Keeps, >>=-Keeps, ask-Keeps, if-Keeps, ask}
use go_slug.Go.WalkKept.{walk-Keeps}
use go_slug.Ignore.Rules.{Rule, ok}
use go_slug.Ignore.Excludes.{Regexp}
use go_slug.Slug.{SymlinkError, valid_symlink}
use go_slug.Slug.Packer.{
  Packer, Kind, directory, regular, symbolic_link, irregular, FileInfo, is_dir, check_file_mode,
  Tree, PackError, or_stop, ExternalSymlink, link_unreadable,
}
use go_slug.Slug.Account.{
  names_of, size_of, names_of-header, names_of-body, size_of-header, size_of-body,
}
use go_slug.Slug.Pack.{
  PackHeader, Written, header_written, body_written, Packed, Writer, Packing, write_header,
  write_body, write_entry, pack_external, pack_checked_link, pack_link, pack_kind, pack_at,
  pack_unless_ignored, pack_walk_fn, pack_walk, match_ignore_rules,
}

module _ (tree : Tree) (p : Packer) (root : Text) where
  open tree use {readlink, working_dir}

  -- A symlink was read, and validSymlink accepts it; what is no symlink is a file or a directory.
  abbrev pub IsFaithful : Written → Type 0
  IsFaithful (body_written text) = Unit
  IsFaithful (header_written h) =
      (h.typeflag ≡ b'0')
      ⊎ ((h.typeflag ≡ b'5')
          ⊎ ((path : Text) × (h.typeflag ≡ b'2')
              × (readlink path ≡ some h.link_name)
              × (valid_symlink working_dir p.allow_symlink_targets root path h.link_name ≡ ok tt)))

  -- Meta accounts for what was written, and what was written is faithful.
  pub record IsSound (s : Packed) : Type 0 where
    pub accounted : s.files ≡ names_of s.written
    pub measured : s.size ≡ size_of s.written
    pub faithful : All IsFaithful s.written

  module _ (re : Regexp) (writer : Writer) (rules : Option (List (Rule re.Regex))) where
    write_header-Keeps :
        (h : PackHeader) → IsFaithful (header_written h) → Keeps IsSound (write_header writer h)
    unfolding write_header
    write_header-Keeps h f = record {
      kept = λ s k. elim (Bool-cases (writer.accepts s.written (header_written h))) [
        | inl e ↦ rw e (record {
          accounted = ap (λ l. l ++ (h.name ∷ [])) k.accounted ∙ sym (names_of-header s.written h);
          measured = k.measured ∙ sym (size_of-header s.written h);
          faithful = All-append IsFaithful s.written (header_written h ∷ []) k.faithful (f, tt);
        })
        | inr e ↦ rw e k
      ];
    }

    write_body-Keeps :
        (path : Text) (content : Option (Text × Bool))
        → Keeps IsSound (write_body writer path content)
    unfolding write_body
    write_body-Keeps path none = record { kept = λ s k. k }
    write_body-Keeps path (some (t, complete)) = record {
      kept = λ s k. elim (Bool-cases (complete && writer.accepts s.written (body_written t))) [
        | inl e ↦ rw e (record {
          accounted = k.accounted ∙ sym (names_of-body s.written t);
          measured = ap (λ n. n + length t) k.measured ∙ sym (size_of-body s.written t);
          faithful = All-append IsFaithful s.written (body_written t ∷ []) k.faithful (tt, tt);
        })
        | inr e ↦ rw e k
      ];
    }

    write_entry-Keeps :
        (h : PackHeader) (body : Bool) (path : Text)
        → IsFaithful (header_written h)
        → Keeps IsSound (write_entry re tree writer p rules root h body path)
    unfolding write_entry
    write_entry-Keeps h body path f = >>=-Keeps IsSound (write_header-Keeps h f) (λ _ _ _.
        if-Keeps IsSound (not body) (ask-Keeps IsSound _)
          (write_body-Keeps path (tree.content path)))

    module _ (fuel : ℕ) (recur : Text → Text → Packing (Unit {0}))
        (below : (src dst : Text) → Keeps IsSound (recur src dst)) where
      pack_external-Keeps :
          (path subpath : Text) (resolved : ExternalSymlink)
          → Keeps IsSound (pack_external re tree writer p rules root recur path subpath resolved)
      unfolding pack_external
      pack_external-Keeps path subpath resolved =
          if-Keeps IsSound (is_dir resolved.info.kind) (below resolved.abs_target path)
            (write_entry-Keeps _ true path (inl refl))

      pack_checked_link-Keeps :
          (path : Text) (info : FileInfo) (subpath target : Text) (body : Bool)
          (valid : Result SymlinkError (Unit {0}))
          → readlink path ≡ some target
          → valid_symlink working_dir p.allow_symlink_targets root path target ≡ valid
          → Keeps IsSound (
              pack_checked_link re tree writer p rules root fuel recur path info subpath target body
                valid)
      pack_checked_link-Keeps path info subpath target body (ok _) h k =
          write_entry-Keeps _ body path (inr (inr (path, refl, h, k)))
      pack_checked_link-Keeps path info subpath target body (err e) h k =
          if-Keeps IsSound (not p.dereference) (ask-Keeps IsSound _) (
            >>=-Keeps IsSound (ask-Keeps IsSound _)
              (λ resolved _ _. pack_external-Keeps path subpath resolved))

      or_stop-ok : (o : Option Text) (e : PackError) {t : Text} → or_stop o e ≡ ok t → o ≡ some t
      or_stop-ok none e h = cc h
      or_stop-ok (some x) e h = ap some (ok-injective h)

      pack_link-Keeps :
          (path : Text) (info : FileInfo) (subpath : Text) (body : Bool)
          → Keeps IsSound (pack_link re tree writer p rules root fuel recur path info subpath body)
      unfolding pack_link ask
      pack_link-Keeps path info subpath body =
          >>=-Keeps IsSound (ask-Keeps IsSound _) (λ target _ e.
            pack_checked_link-Keeps path info subpath target body _
              (or_stop-ok (readlink path) (link_unreadable path) e) refl)

      pack_kind-Keeps :
          (path : Text) (info : FileInfo) (subpath : Text) (body : Bool) (kind : Kind)
          → Keeps IsSound
              (pack_kind re tree writer p rules root fuel recur path info subpath body kind)
      unfolding pack_kind
      pack_kind-Keeps path info subpath body directory =
          write_entry-Keeps _ body path (inr (inl refl))
      pack_kind-Keeps path info subpath body regular = write_entry-Keeps _ body path (inl refl)
      pack_kind-Keeps path info subpath body symbolic_link = pack_link-Keeps path info subpath body
      pack_kind-Keeps path info subpath body irregular = ask-Keeps IsSound _

      pack_at-Keeps :
          (path : Text) (info : FileInfo) (subpath : Text)
          → Keeps IsSound (pack_at re tree writer p rules root fuel recur path info subpath)
      unfolding pack_at
      pack_at-Keeps path info subpath =
          if-Keeps IsSound (text_eq subpath dot) (ask-Keeps IsSound _) (
            if-Keeps IsSound (not (check_file_mode info.kind).0) (ask-Keeps IsSound _)
              (pack_kind-Keeps path info subpath (check_file_mode info.kind).1 info.kind))

      pack_unless_ignored-Keeps :
          (src dst path : Text) (info : FileInfo) (subpath : Text)
          → Keeps IsSound
              (pack_unless_ignored re tree writer p rules root fuel recur src dst path info subpath)
      unfolding pack_unless_ignored
      pack_unless_ignored-Keeps src dst path info subpath =
          let inside = match_ignore_rules re tree writer p rules root (subpath ++ codes "/") in
          if-Keeps IsSound (text_eq subpath dot) (ask-Keeps IsSound _) (
            if-Keeps IsSound (match_ignore_rules re tree writer p rules root subpath).excluded
              (ask-Keeps IsSound _)
              (if-Keeps IsSound (is_dir info.kind && inside.excluded)
                (if-Keeps IsSound inside.dominating (ask-Keeps IsSound _) (ask-Keeps IsSound _))
                (>>=-Keeps IsSound (ask-Keeps IsSound _)
                  (λ subpath _ _. pack_at-Keeps path info subpath))))

      pack_walk_fn-Keeps :
          (src dst path : Text) (info : Option FileInfo)
          → Keeps IsSound (pack_walk_fn re tree writer p rules root fuel recur src dst path info)
      unfolding pack_walk_fn
      pack_walk_fn-Keeps src dst path none = ask-Keeps IsSound _
      pack_walk_fn-Keeps src dst path (some info) =
          >>=-Keeps IsSound (ask-Keeps IsSound _)
            (λ subpath _ _. pack_unless_ignored-Keeps src dst path info subpath)

    pub pack_walk-Keeps :
        (fuel : ℕ) (src dst : Text)
        → Keeps IsSound (pack_walk re tree writer p rules root fuel src dst)
    unfolding pack_walk
    pack_walk-Keeps zero src dst = ask-Keeps IsSound _
    pack_walk-Keeps (suc fuel) src dst =
        walk-Keeps IsSound (λ info. is_dir info.kind) (λ _. tree.lstat) (λ _. tree.dir_names)
          (pack_walk_fn re tree writer p rules root fuel
            (pack_walk re tree writer p rules root fuel) src dst)
          (pack_walk_fn-Keeps fuel (pack_walk re tree writer p rules root fuel)
            (pack_walk-Keeps fuel) src dst)
          fuel src
