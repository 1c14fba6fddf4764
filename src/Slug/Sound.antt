-- ===== src/Slug/Sound.antt =====
-- What Pack returns, from the source directory on.
use go_slug.Prelude.{
  ℕ, ◌≡◌, refl, ap, ◌∙◌, sym, ◌⊎◌, inl, inr, Bool, true, false, Option, none, some, List,
  if◌then◌else◌, Text, Result, ok, err, ok-injective, Bool-cases, Option-cases, subst,
  some-injective,
}
use go_slug.Go.Path.{abs}
use go_slug.Go.FileWalk.{Stop}
use go_slug.Ignore.Rules.{Rule, Outcome, ok, syntax_error, panicked}
use go_slug.Ignore.Excludes.{Regexp, LoadFile}
use go_slug.Slug.Packer.{Packer, is_link, Tree, PackError}
use go_slug.Slug.Pack.{
  Packed, Writer, pack, pack_with, pack_source, nothing_packed, ignore_rules, closed,
}
use go_slug.Slug.Packed.{IsSound, pack_walk-Keeps}

-- What Pack returns of a source directory with the absolute path `root`.
pub record IsPacked (tree : Tree) (p : Packer) (src : Text) (s : Packed) : Type 0 where
  pub root : Text
  pub rooted :
      (abs tree.working_dir src ≡ some root)
      ⊎ ((link : Text) × (tree.readlink src ≡ some link) × (abs tree.working_dir link ≡ some root))
  pub sound : IsSound tree p root s

module _ (re : Regexp) (tree : Tree) (writer : Writer) where
  closed-ok :
      (r : Packed × Result (Stop PackError) (Unit {0})) {s : Packed}
      → closed re tree writer r ≡ ok s
      → r.0 ≡ s
  closed-ok (t, err e) h = cc h
  closed-ok (t, ok _) h = elim (Bool-cases (writer.closes t.written)) [
    | inl e ↦ ok-injective (rw e at h)
    | inr e ↦ cc (rw e at h)
  ]

  nothing_packed-IsSound : (p : Packer) (root : Text) → IsSound tree p root nothing_packed
  unfolding nothing_packed
  nothing_packed-IsSound p root = record { accounted = refl; measured = refl; faithful = tt }

  pack_with-ok :
      (fuel : ℕ) (p : Packer) (src : Text) (rules : Outcome (Option (List (Rule re.Regex))))
      {s : Packed}
      → pack_with re tree writer fuel p src rules ≡ ok s
      → (root : Text) × (abs tree.working_dir src ≡ some root) × IsSound tree p root s
  unfolding pack_with
  pack_with-ok fuel p src panicked h = cc h
  pack_with-ok fuel p src (syntax_error e) h = cc h
  pack_with-ok fuel p src (ok rules) {s} h = elim (Option-cases (abs tree.working_dir src)) [
    | inl e ↦ cc (rw (e, pack_with) at h)
    | inr (root, e) ↦
        let done = closed-ok _ (rw (e, pack_with) at h) in
        (
          root,
          e,
          subst (IsSound tree p root) done (
              (pack_walk-Keeps tree p root re writer rules fuel root root).kept nothing_packed
                (nothing_packed-IsSound p root)),
        )
  ]

  pack_source-ok :
      (fuel : ℕ) (load : Text → LoadFile) (globals : List (Rule re.Regex)) (p : Packer)
      (src : Option Text) {s : Packed}
      → pack_source re tree writer fuel load globals p src ≡ ok s
      → (given : Text) × (src ≡ some given)
        × (root : Text) × (abs tree.working_dir given ≡ some root)
        × IsSound tree p root s
  pack_source-ok fuel load globals p none h = cc h
  pack_source-ok fuel load globals p (some src) h =
      let (root, rooted, sound) =
        pack_with-ok fuel p src (ignore_rules re tree writer load globals p src) h in
      (src, refl, root, rooted, sound)

  if_link :
      (b : Bool) (l : Option Text) (src : Text) {given : Text}
      → (if b then l else some src) ≡ some given
      → (given ≡ src) ⊎ (l ≡ some given)
  if_link true l src h = inr h
  if_link false l src h = inl (sym (some-injective h))

  -- Where Pack returns without an error, Meta has the names of the headers that were written and the
  -- size of the bodies, and every header is that of a file, of a directory, or of a symlink that was
  -- read and that validSymlink accepts for the absolute path of the source directory, or of what the
  -- source leads to where it is itself a symlink.
  pub pack-IsPacked :
      (fuel : ℕ) (load : Text → LoadFile) (globals : List (Rule re.Regex)) (p : Packer) (src : Text)
      {s : Packed}
      → pack re tree writer fuel load globals p src ≡ ok s
      → IsPacked tree p src s
  unfolding pack
  pack-IsPacked fuel load globals p src {s} h = elim (Option-cases (tree.lstat src)) [
    | inl e ↦ cc (rw (e, pack) at h)
    | inr (info, e) ↦
        let (given, k, root, rooted, sound) =
          pack_source-ok fuel load globals p
            (if is_link info.kind then tree.readlink src else some src) (rw (e, pack) at h) in
        elim (if_link (is_link info.kind) (tree.readlink src) src k) [
          | inl same ↦ record {
            root = root;
            rooted = inl (ap (abs tree.working_dir) (sym same) ∙ rooted);
            sound = sound;
          }
          | inr l ↦ record { root = root; rooted = inr (given, l, rooted); sound = sound }
        ]
  ]
