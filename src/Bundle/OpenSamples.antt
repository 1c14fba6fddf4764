-- ===== src/Bundle/OpenSamples.antt =====
-- A bundle that is opened, and the theorems about opened bundles there.
use go_slug.Prelude.{
  false, In, ◌*◌, ◌+◌, ℕ, ◌≤◌, ◌≡◌, refl, none, some, List, [], ◌∷◌, ◌++◌, Text, codes, ok, err,
  ℕ_discrete, length, lookup, All,
}
use go_slug.Go.Walk.{IsName}
use go_slug.Go.Rooted.{rooted}
use go_slug.Go.Strings.{byte_length}
use go_slug.Addrs.Types.{Url, Packages, RemotePackage, RemoteSource, FinalSource}
use go_slug.Addrs.Remote.{git, https, remote_package_string}
use go_slug.Addrs.SubPath.{valid_sub_path}
use go_slug.Addrs.SubPath.Join.{directories}
use go_slug.Bundle.Types.{RemotePackage-discrete}
use go_slug.Bundle.Manifest.{ManifestRoot, no_meta}
use go_slug.Bundle.Open.{
  Bundle, Files, checksum_v1, hex, manifest_filename, open_dir, invalid_dir_name,
}
use go_slug.Bundle.Lookup.{remote_packages, local_path_for_remote_source, source_for_local_path}
use go_slug.Go.Path.{join_path}
use go_slug.Go.Sorted.{IsSorted}
use go_slug.Bundle.Reopened.{Held}
use go_slug.Bundle.Listed.{remote_packages-IsSorted}
use go_slug.Bundle.Digest.{checksum_v1-length}
use go_slug.Bundle.Inverse.{local_path_for_remote_source-inside, source_for_local_path-local_path}

abbrev pub url_at : Text → Url
url_at path = record {
  scheme = https;
  opaque = [];
  user = none;
  host = [];
  path = path;
  raw_path = [];
  force_query = false;
  raw_query = [];
  fragment = [];
  raw_fragment = [];
}

-- Every text is a URL of the scheme https.
abbrev pub texts_as_urls : Packages
texts_as_urls = record {
  parse_url = λ s. some (url_at s);
  url_string = λ u. u.path;
  escaped_path = λ u. u.path;
  query = λ _. [];
  parse_query = λ _. some [];
  encode = λ _. [];
  to_lower = λ s. s;
  ModulePackage = ℕ;
  module_package_discrete = ℕ_discrete;
  module_package_string = λ _. [];
  parse_module_source = λ _. none;
  Version = ℕ;
  version_discrete = ℕ_discrete;
  version_string = λ _. [];
  parse_version = λ _. none;
}

-- One package, in a directory of that name.
abbrev manifest_of : Text → ManifestRoot
manifest_of dir = record {
  format_version = 1;
  packages =
      record { source_addr = codes "git::https://e.com/a"; local_dir = dir; meta = no_meta } ∷ [];
  registry_meta = [];
}

-- Every file is the name of the directory in it.
abbrev pub files_of : Text → Files
files_of dir = record {
  working_dir = some (codes "/w");
  read_file = λ _. some dir;
  sha256 = λ _. 171 ∷ [];
  unmarshal = λ s. some (manifest_of s);
}

abbrev pub opened_package : RemotePackage
opened_package = record { source_type = git; url = url_at (codes "https://e.com/a") }

abbrev opened_source : RemoteSource
opened_source = record { pkg = opened_package; sub_path = codes "m/n" }

abbrev pub opened : Bundle texts_as_urls
opened = record {
  root_dir = codes "/w/b";
  manifest_checksum = codes "68ab";
  remote_package_dirs = (opened_package, codes "h") ∷ [];
  remote_package_meta = [];
  registry_package_sources = [];
  registry_package_version_deprecations = [];
}

opens : open_dir texts_as_urls (files_of (codes "h")) (codes "b") ≡ ok opened
unfolding open_dir RemotePackage-discrete
opens = refl

refuses_directory :
    open_dir texts_as_urls (files_of (codes "..")) (codes "b") ≡ err (invalid_dir_name (codes ".."))
unfolding open_dir
refuses_directory = refl

local_path_for_remote_source-inside_example :
    (names : List Text) × (dir : Text) × (opened.root_dir ≡ rooted names)
    × All IsName (names ++ (dir ∷ directories opened_source.sub_path))
    × (codes "/w/b/h/m/n" ≡ rooted (names ++ (dir ∷ directories opened_source.sub_path)))
unfolding open_dir RemotePackage-discrete local_path_for_remote_source valid_sub_path
local_path_for_remote_source-inside_example =
    local_path_for_remote_source-inside texts_as_urls (files_of (codes "h")) (codes "b")
      opened_source {b = opened} {path = codes "/w/b/h/m/n"} refl refl refl refl

source_for_local_path-local_path_example :
    (pkg : RemotePackage) × (source_for_local_path texts_as_urls none opened (codes "/w/b/h/m/n")
      ≡ ok (FinalSource.remote_source (record { pkg = pkg; sub_path = codes "m/n" })))
    × (lookup RemotePackage-discrete pkg opened.remote_package_dirs
        ≡ lookup RemotePackage-discrete opened_package opened.remote_package_dirs)
    × (byte_length (remote_package_string texts_as_urls pkg)
        ≤ byte_length (remote_package_string texts_as_urls opened_package))
unfolding open_dir RemotePackage-discrete local_path_for_remote_source valid_sub_path
source_for_local_path-local_path_example =
    source_for_local_path-local_path texts_as_urls (files_of (codes "h")) (codes "b") none
      opened_source {b = opened} {path = codes "/w/b/h/m/n"} refl refl refl refl

checksum_v1-length_example :
    (root_dir : Text) × (src : Text) × ((files_of (codes "h")).read_file
        (join_path root_dir manifest_filename)
      ≡ some src)
    × (checksum_v1 texts_as_urls opened
        ≡ codes "h1:" ++ hex (src ++ (files_of (codes "h")).sha256 []))
    × (length (checksum_v1 texts_as_urls opened)
        ≡ 3 + 2 * (length src + length ((files_of (codes "h")).sha256 [])))
unfolding open_dir RemotePackage-discrete
checksum_v1-length_example =
    checksum_v1-length texts_as_urls (files_of (codes "h")) (codes "b") {b = opened} refl

-- Two packages in one directory, and one of them noted twice.
abbrev three_entries : Bundle texts_as_urls
three_entries = record opened {
  remote_package_dirs =
      (opened_package, codes "h")
      ∷ (record opened_package { source_type = https }, codes "h")
      ∷ (opened_package, codes "old")
      ∷ [];
}

remote_packages-IsSorted_example :
    IsSorted (remote_package_string texts_as_urls) (remote_packages texts_as_urls three_entries)
    × All (Held three_entries.remote_package_dirs) (remote_packages texts_as_urls three_entries)
    × ((pkg : RemotePackage)
        → Held three_entries.remote_package_dirs pkg
        → In pkg (remote_packages texts_as_urls three_entries))
remote_packages-IsSorted_example = remote_packages-IsSorted texts_as_urls three_entries
