-- ===== src/Slug/Links.antt =====
-- Symlinks that Pack follows: a source directory that is a symlink, and chains that have no end.
use go_slug.Prelude.{
  ℕ, zero, suc, ◌≡◌, refl, ap, ◌∙◌, true, false, some, List, Text, err, if◌then◌else◌, if_true,
  if_false, sym,
}
use go_slug.Go.FileWalk.{unfinished}
use go_slug.Ignore.Rules.{Rule}
use go_slug.Ignore.Excludes.{Regexp, LoadFile}
use go_slug.Slug.Packer.{Packer, FileInfo, is_link, Tree, link_target, resolve_external_link}
use go_slug.Slug.Pack.{Writer, pack, pack_source}

module _ (tree : Tree) (root : Text) where
  open tree use {lstat, readlink}

  -- A symlink that leads to a symlink of the same kind.
  pub record Leads (Endless : Text → Type 0) (path : Text) : Type 0 where
    pub target : Text
    pub info : FileInfo
    pub reads : readlink path ≡ some target
    pub exists : lstat (link_target root path target) ≡ some info
    pub links : is_link info.kind ≡ true
    pub onward : Endless (link_target root path target)

  -- resolveExternalLink never returns at a path from which every symlink leads to a symlink again:
  -- whatever the number of symlinks that it may follow, it runs out.
  pub resolve_external_link-unfinished :
      (Endless : Text → Type 0)
      → ((path : Text) → Endless path → Leads Endless path)
      → (fuel : ℕ) (path : Text) → Endless path
      → resolve_external_link tree fuel root path ≡ err unfinished
  unfolding resolve_external_link
  resolve_external_link-unfinished Endless leads zero path e = refl
  resolve_external_link-unfinished Endless leads (suc fuel) path e =
      let l = leads path e in
      let rest =
        resolve_external_link-unfinished Endless leads fuel (link_target root path l.target)
          l.onward in
      rw (l.reads, l.exists, l.links) rest

module _ (re : Regexp) (tree : Tree) (writer : Writer) where
  module _ (fuel : ℕ) (load : Text → LoadFile) (globals : List (Rule re.Regex)) (p : Packer) where
    pack-found :
        (src : Text) {info : FileInfo}
        → tree.lstat src ≡ some info
        → pack re tree writer fuel load globals p src
          ≡ pack_source re tree writer fuel load globals p
              (if is_link info.kind then tree.readlink src else some src)
    unfolding pack
    pack-found src h = rw (h, pack) refl

  -- Pack of a symlink does what Pack of the text of its target does, where that names a file that is no
  -- symlink: a relative target is taken from the working directory, wherever the symlink is.
  pub pack-source_link :
      (fuel : ℕ) (load : Text → LoadFile) (globals : List (Rule re.Regex)) (p : Packer)
      (src target : Text) {info target_info : FileInfo}
      → tree.lstat src ≡ some info
      → is_link info.kind ≡ true
      → tree.readlink src ≡ some target
      → tree.lstat target ≡ some target_info
      → is_link target_info.kind ≡ false
      → pack re tree writer fuel load globals p src ≡ pack re tree writer fuel load globals p target
  pack-source_link fuel load globals p src target {info} {target_info} h k l m n =
      pack-found fuel load globals p src h
      ∙ ap (pack_source re tree writer fuel load globals p) (
          if_true (tree.readlink src) (some src) k
          ∙ l
          ∙ sym (if_false (tree.readlink target) (some target) n))
      ∙ sym (pack-found fuel load globals p target m)
