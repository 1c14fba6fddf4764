-- ===== src/Bundle/CloseSamples.antt =====
-- The manifest of a builder, an archive that becomes a bundle, and a diagnostic in a package.
use go_slug.Prelude.{
  ◌≡◌, refl, none, some, [], ◌∷◌, Text, codes, ok, lookup, true, choose, some-injective, subst,
  false,
}
use mathlib.Core.Option.{Option}
use go_slug.Go.Action.{◌>>=◌, ask, with_error}
use go_slug.Addrs.Types.{RemotePackage}
use go_slug.Addrs.Remote.{parse_remote_package, remote_package_string}
use go_slug.Unpack.{pos, not_exist}
use go_slug.Unpack.Restore.{Disk}
use go_slug.Slug.Extract.{Archive, finished, entry}
use go_slug.Slug.Accepted.{IsWhole}
use go_slug.Bundle.Types.{
  World, RemotePackage-discrete, SourceRange, DiagSource, reported, in_source_package, diag_error,
}
use go_slug.Bundle.Builder.{Builder, new_builder}
use go_slug.Bundle.Manifest.{manifest_root}
use go_slug.Bundle.Open.{Bundle, open_packages, open_dir, empty_bundle, valid_local_dir}
use go_slug.Bundle.Reopened.{open_packages-manifest_root}
use go_slug.Bundle.Confined.{IsConfined}
use go_slug.Bundle.Close.{extract_archive}
use go_slug.Bundle.Closed.{extract_archive-IsConfined}
use go_slug.Bundle.Diagnostics.{diag_source, renamed_source, diag_source-renamed}
use go_slug.Bundle.Samples.{small_world}
use go_slug.Bundle.OpenSamples.{texts_as_urls, files_of, opened_package, opened}

abbrev text_world : World
text_world = record small_world { packages = texts_as_urls }

-- One package, which was noted twice.
abbrev noted_builder : Builder text_world
noted_builder = record (new_builder text_world (codes "/b")) {
  remote_package_dirs = (opened_package, codes "h") ∷ (opened_package, codes "old") ∷ [];
}

noted_builder-good :
    (pkg : RemotePackage) (dir : Text)
    → lookup RemotePackage-discrete pkg noted_builder.remote_package_dirs ≡ some dir
    → (parse_remote_package texts_as_urls (remote_package_string texts_as_urls pkg) ≡ ok pkg)
      × (valid_local_dir dir ≡ true)
unfolding new_builder parse_remote_package remote_package_string valid_local_dir
noted_builder-good pkg dir = go (RemotePackage-discrete opened_package pkg)
  where
    go :
        (d : Dec (opened_package ≡ pkg))
        → choose d (some (codes "h")) (choose d (some (codes "old")) none) ≡ some dir
        → (parse_remote_package texts_as_urls (remote_package_string texts_as_urls pkg) ≡ ok pkg)
          × (valid_local_dir dir ≡ true)
    go (no _) h = cc h
    go (yes e) h = (
      subst (λ q. parse_remote_package texts_as_urls (remote_package_string texts_as_urls q) ≡ ok q)
          e refl,
      subst (λ x. valid_local_dir x ≡ true) (some-injective h) refl,
    )

open_packages-manifest_root_example :
    (c : Bundle texts_as_urls) × (open_packages texts_as_urls
        (manifest_root text_world noted_builder).packages
        (empty_bundle texts_as_urls (codes "/b") [])
      ≡ ok c)
    × ((pkg : RemotePackage)
        → lookup RemotePackage-discrete pkg c.remote_package_dirs
          ≡ lookup RemotePackage-discrete pkg noted_builder.remote_package_dirs)
open_packages-manifest_root_example =
    open_packages-manifest_root text_world noted_builder (codes "/b") [] noted_builder-good

-- A file system in which nothing is, and every change succeeds.
abbrev still : Disk
still = record {
  State = Text;
  lstat = λ _ _. not_exist;
  chmod = λ _ _ s. (s, ok tt);
  chtimes = λ _ _ _ s. (s, ok tt);
  lutimes = λ _ _ _ s. (s, ok tt);
  mkdir_all = λ _ s. (s, ok tt);
  symlink_to = λ _ _ s. (s, ok tt);
  create = λ _ s. (s, ok tt);
  write = λ _ body s. (body, ok tt);
  can_maintain_symlink_timestamps = false;
}

-- An archive with one file, the manifest.
abbrev manifest_only : Archive
manifest_only =
    entry
      (record {
        name = codes "terraform-sources.json";
        link_name = [];
        typeflag = b'0';
        access_time = record { unix = pos 0; nanosecond = 0 };
        mod_time = record { unix = pos 0; nanosecond = 0 };
        file_mode = 420;
      })
      (codes "h") true finished

extract_archive-IsConfined_example :
    ((archive : Archive) × (◌≡◌ {A = Option Archive} (some manifest_only) (some archive))
      × IsWhole still none [] (codes "/w/b") archive)
    × IsConfined texts_as_urls opened
unfolding extract_archive open_dir RemotePackage-discrete ◌>>=◌ ask with_error
extract_archive-IsConfined_example =
    extract_archive-IsConfined texts_as_urls still none files_of (some manifest_only) (codes "/w/b")
      [] {b = opened} (λ _. refl) refl

abbrev example_range : SourceRange
example_range = record {
  filename = codes "a/main.tf";
  start = record { line = 1; column = 1; byte = 0 };
  end = record { line = 1; column = 5; byte = 4 };
}

abbrev example_source : DiagSource
example_source = record { subject = some example_range; context = none }

diag_source-renamed_example :
    (source : DiagSource) × (diag_source texts_as_urls (reported diag_error [] example_source)
      ≡ ok source)
    × (diag_source texts_as_urls
          (in_source_package (reported diag_error [] example_source) opened_package)
        ≡ ok (renamed_source texts_as_urls opened_package source))
diag_source-renamed_example =
    diag_source-renamed texts_as_urls (reported diag_error [] example_source) opened_package
