-- ===== src/Slug/PackSamples.antt =====
-- A directory that is packed, and the theorems about Pack there.
use go_slug.Unpack.{pos}
use go_slug.Go.Path.{join_path}
use go_slug.Slug.Finish.{Lowers, pack-finishes}
use go_slug.Prelude.{
  none, ℕ, Bool, text_eq→eq, some-injective, In, ◌≢◌, ◌<◌, ◌+◌, arith, ◌≡◌, refl, sym, ◌⊎◌, inl,
  inr, true, false, some, [], ◌∷◌, ◌||◌, if◌then◌else◌, Text, codes, ok, err, text_eq, subst,
}
use mathlib.Core.Option.{Option}
use go_slug.Go.Action.{◌>>=◌, ask, with_error}
use go_slug.Go.FileWalk.{unfinished, failed}
use go_slug.Ignore.Excludes.{Regexp, LoadFile, missing}
use go_slug.Slug.{illegal_slug}
use go_slug.Slug.Packer.{
  Packer, FileInfo, Kind, directory, regular, symbolic_link, Tree, new_packer, dereference_symlinks,
  resolve_external_link, link_target, illegal_link,
}
use go_slug.Slug.Pack.{Packed, Writer, header_written, body_written, pack}
use go_slug.Slug.Sound.{IsPacked, pack-IsPacked}
use go_slug.Slug.Links.{Leads, resolve_external_link-unfinished, pack-source_link}

abbrev no_regexp : Regexp
no_regexp = record { Regex = Text; compile = λ s. some s; match_string = λ _ _. false }

abbrev info_of : Kind → FileInfo
info_of kind = record {
  kind = kind;
  perm = 420;
  size = 2;
  mod_time = record { unix = pos 1; nanosecond = 0 };
}

-- The directory /r has a file and a symlink to it; /s is a symlink to it, and "r" names it. The
-- directory /o has a symlink out of it, to one of two symlinks to each other.
abbrev kind_of : Text → Option FileInfo
kind_of path =
    if text_eq path (codes "/r") || text_eq path (codes "/o") || text_eq path (codes "r")
    then some (info_of directory)
    else if text_eq path (codes "/r/f")
    then some (info_of regular)
    else some (info_of symbolic_link)

abbrev link_of : Text → Option Text
link_of path =
    if text_eq path (codes "/r/l")
    then some (codes "f")
    else if text_eq path (codes "/s")
    then some (codes "r")
    else if text_eq path (codes "/x/a")
    then some (codes "b")
    else some (codes "/x/a")

abbrev small_tree : Tree
small_tree = record {
  working_dir = some (codes "/");
  lstat = kind_of;
  dir_names = λ path.
      if text_eq path (codes "/r")
      then some (codes "f" ∷ codes "l" ∷ [])
      else some (codes "l" ∷ []);
  readlink = link_of;
  content = λ _. some (codes "hi", true);
}

abbrev any_writer : Writer
any_writer = record { accepts = λ _ _. true; closes = λ _. true }

abbrev load_nothing : Text → LoadFile
load_nothing _ = missing

abbrev plain : Packer
plain = record { dereference = false; apply_terraform_ignore = false; allow_symlink_targets = [] }

abbrev two_files : Packed
two_files = record {
  written =
      header_written (record {
        name = codes "f";
        mod_time = record { unix = pos 1; nanosecond = 0 };
        mode = 420;
        typeflag = b'0';
        size = 2;
        link_name = [];
      })
      ∷ body_written (codes "hi")
      ∷ header_written (record {
        name = codes "l";
        mod_time = record { unix = pos 1; nanosecond = 0 };
        mode = 420;
        typeflag = b'2';
        size = 0;
        link_name = codes "f";
      })
      ∷ [];
  files = codes "f" ∷ codes "l" ∷ [];
  size = 2;
}

packs : pack no_regexp small_tree any_writer 3 load_nothing [] plain (codes "/r") ≡ ok two_files
unfolding pack ◌>>=◌ ask with_error
packs = refl

-- A symlink to a file outside is an error, and not left out.
refuses_external :
    pack no_regexp small_tree any_writer 3 load_nothing [] plain (codes "/o")
    ≡ err (failed (illegal_link illegal_slug))
unfolding pack ◌>>=◌ ask with_error
refuses_external = refl

dereferences : new_packer (dereference_symlinks ∷ []) ≡ some (record plain { dereference = true })
unfolding new_packer dereference_symlinks
dereferences = refl

pack-IsPacked_example : IsPacked small_tree plain (codes "/r") two_files
unfolding pack ◌>>=◌ ask with_error
pack-IsPacked_example =
    pack-IsPacked no_regexp small_tree any_writer 3 load_nothing [] plain (codes "/r")
      {s = two_files} refl

pack-source_link_example :
    pack no_regexp small_tree any_writer 3 load_nothing [] plain (codes "/s")
    ≡ pack no_regexp small_tree any_writer 3 load_nothing [] plain (codes "r")
pack-source_link_example =
    pack-source_link no_regexp small_tree any_writer 3 load_nothing [] plain (codes "/s")
      (codes "r") {info = info_of symbolic_link} {target_info = info_of directory} refl refl refl
      refl refl

abbrev Cycle : Text → Type 0
Cycle path = (path ≡ codes "/x/a") ⊎ (path ≡ codes "/x/b")

leads : (path : Text) → Cycle path → Leads small_tree (codes "/o") Cycle path
unfolding link_target
leads path (inl e) = subst (Leads small_tree (codes "/o") Cycle) (sym e) (record {
  target = codes "b";
  info = info_of symbolic_link;
  reads = refl;
  exists = refl;
  links = refl;
  onward = inr refl;
})
leads path (inr e) = subst (Leads small_tree (codes "/o") Cycle) (sym e) (record {
  target = codes "/x/a";
  info = info_of symbolic_link;
  reads = refl;
  exists = refl;
  links = refl;
  onward = inl refl;
})

resolve_external_link-unfinished_example :
    resolve_external_link small_tree 40 (codes "/o") (codes "/x/a") ≡ err unfinished
resolve_external_link-unfinished_example =
    resolve_external_link-unfinished small_tree (codes "/o") Cycle leads 40 (codes "/x/a")
      (inl refl)

-- The directory /r has one file.
abbrev flat_tree : Tree
flat_tree = record small_tree {
  dir_names = λ path. if text_eq path (codes "/r") then some (codes "f" ∷ []) else none;
}

abbrev flat_height : Text → ℕ
flat_height path = if text_eq path (codes "/r") then 1 else 0

flat_height-Lowers : Lowers no_regexp flat_tree any_writer plain refl flat_height
unfolding join_path
flat_height-Lowers path name names info d i l = go (text_eq path (codes "/r")) refl d
  where
    named :
        (n : Text)
        → In n (codes "f" ∷ [])
        → (if text_eq (join_path (codes "/r") n) (codes "/r") then 1 else 0) < 1
    named n (inl e) =
        subst (λ m. (if text_eq (join_path (codes "/r") m) (codes "/r") then 1 else 0) < 1) (sym e)
          (omega arith)
    named n (inr e) = absurd e

    go :
        (b : Bool)
        → text_eq path (codes "/r") ≡ b
        → (if b then some (codes "f" ∷ []) else none) ≡ some names
        → flat_height (join_path path name) < (if b then 1 else 0)
    go false e h = cc h
    go true e h =
        subst (λ q. flat_height (join_path q name) < 1) (sym (text_eq→eq path (codes "/r") e))
          (named name (subst (In name) (sym (some-injective h)) i))

flat_height-enough : (path : Text) → flat_height path + 1 < 3
flat_height-enough path = go (text_eq path (codes "/r"))
  where
    go : (b : Bool) → (if b then 1 else 0) + 1 < 3
    go true = omega arith
    go false = omega arith

pack-finishes_example :
    pack no_regexp flat_tree any_writer 3 load_nothing [] plain (codes "/r") ≢ err unfinished
pack-finishes_example =
    pack-finishes no_regexp flat_tree any_writer plain refl flat_height flat_height-Lowers 3
      flat_height-enough load_nothing [] (codes "/r")
