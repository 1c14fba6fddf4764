-- ===== src/Bundle/Open.antt =====
-- sourcebundle/bundle.go: opening a source bundle, and what an opened bundle tells.
--
-- Files are lists of bytes. The maps of a bundle are association lists, and a loop over a map goes in
-- their order.

use go_slug.Prelude.{
  ℕ, ◌+◌, ◌/◌, ◌%◌, Bool, not, ◌||◌, Option, none, some, List, [], ◌∷◌, ◌++◌, ltb, any, ◌==◌,
  if◌then◌else◌, Text, codes, text_eq, is_empty, Assoc, lookup, insert, entries, Result, ok, err,
  ◌>>=◌,
}
use go_slug.Go.Path.{slash, dot, abs, join_path, valid_path}
use go_slug.Addrs.Types.{Packages, RemotePackage, RemoteSource, AddrError}
use go_slug.Addrs.Remote.{R, parse_remote_package, parse_remote_source}
use go_slug.Addrs.Registry.{parse_registry_package}
use go_slug.Bundle.Types.{PackageMeta, RegistryVersionDeprecation, RemotePackage-discrete}
use go_slug.Bundle.Manifest.{
  ManifestRemotePackage, ManifestRegistryVersion, ManifestRegistryMeta, ManifestRoot,
}
use go_slug.Bundle.Builder.{Text-discrete}

pub data OpenError : Type 0 where
  no_working_dir unreadable_manifest invalid_manifest : OpenError
  unsupported_format : ℕ → OpenError
  invalid_dir_name : Text → OpenError
  invalid_remote_package invalid_registry_package invalid_source_address : AddrError → OpenError
  invalid_version : Text → OpenError

-- What OpenDir asks for: os.Getwd and os.ReadFile, where `none` is an error, crypto/sha256, and
-- json.Unmarshal into a manifest.
pub record Files : Type 0 where
  pub working_dir : Option Text
  pub read_file : Text → Option Text
  pub sha256 : Text → Text
  pub unmarshal : Text → Option ManifestRoot

abbrev hex_digit : ℕ → ℕ
hex_digit n = if ltb n 10 then b'0' + n else 87 + n

-- hex.EncodeToString
unfoldable pub hex : Text → Text
hex [] = []
hex (c ∷ s) = hex_digit (c / 16) ∷ hex_digit (c % 16) ∷ hex s

abbrev pub or_failed {ℓ κ} : {E : Type ℓ} {A : Type κ} → Option A → E → Result E A
or_failed none e = err e
or_failed (some a) e = ok a

abbrev pub lift_addr : {A : Type 0} → (AddrError → OpenError) → R A → Result OpenError A
lift_addr f (ok a) = ok a
lift_addr f (err e) = err (f e)

abbrev pub or_empty {ℓ κ} : {K : Type ℓ} {V : Type κ} → Option (Assoc K V) → Assoc K V
or_empty none = []
or_empty (some m) = m

-- m[k][j] = v, where m[k] may be missing
abbrev pub insert_nested {ℓ κ μ} :
    {K : Type ℓ} {J : Type κ} {V : Type μ}
    → Discrete K
    → Discrete J
    → K
    → J
    → V
    → Assoc K (Assoc J V)
    → Assoc K (Assoc J V)
insert_nested eq_k eq_j k j v m = insert eq_k k (insert eq_j j v (or_empty (lookup eq_k k m))) m

abbrev pub manifest_filename : Text
manifest_filename = codes "terraform-sources.json"

-- The test for a local directory's name in OpenDir.
unfoldable pub valid_local_dir : Text → Bool
unfolding valid_path
valid_local_dir dir = not (not (valid_path dir) || (text_eq dir dot || any (λ c. c == slash) dir))

module _ (p : Packages) where
  open p use {
    ModulePackage, module_package_discrete, module_package_string, Version, version_discrete,
    parse_version,
  }

  pub record Bundle : Type 0 where
    pub root_dir : Text
    pub manifest_checksum : Text
    pub remote_package_dirs : Assoc RemotePackage Text
    pub remote_package_meta : Assoc RemotePackage PackageMeta
    pub registry_package_sources : Assoc ModulePackage (Assoc Version RemoteSource)
    pub registry_package_version_deprecations :
        Assoc ModulePackage (Assoc Version (Option RegistryVersionDeprecation))

  -- What is noted of the meta of a package: nothing without a commit.
  abbrev pub noted_meta :
      RemotePackage
      → PackageMeta
      → Assoc RemotePackage PackageMeta
      → Assoc RemotePackage PackageMeta
  noted_meta pkg meta metas =
      if not (is_empty meta.git_commit_id)
      then insert RemotePackage-discrete pkg meta metas
      else metas

  -- One round of the loop over the packages.
  unfoldable pub open_package : ManifestRemotePackage → Bundle → Result OpenError Bundle
  unfolding valid_local_dir parse_remote_package
  open_package rpm b =
      if not (valid_local_dir rpm.local_dir)
      then err (invalid_dir_name rpm.local_dir)
      else lift_addr invalid_remote_package (parse_remote_package p rpm.source_addr) >>= λ pkg.
          ok (record b {
            remote_package_dirs =
                insert RemotePackage-discrete pkg rpm.local_dir b.remote_package_dirs;
            remote_package_meta = noted_meta pkg rpm.meta b.remote_package_meta;
          })

  unfoldable pub open_packages : List ManifestRemotePackage → Bundle → Result OpenError Bundle
  unfolding open_package
  open_packages [] b = ok b
  open_packages (rpm ∷ rpms) b = open_package rpm b >>= open_packages rpms

  -- One round of the loop over the versions of a registry package.
  unfoldable pub open_version :
      ModulePackage → Text → ManifestRegistryVersion → Bundle → Result OpenError Bundle
  unfolding parse_remote_source
  open_version pkg version_str mv b = do
    version ← or_failed (parse_version version_str) (invalid_version version_str)
    source ← lift_addr invalid_source_address (parse_remote_source p mv.source_addr)
    ok (record b {
      registry_package_sources =
          insert_nested module_package_discrete version_discrete pkg version source
            b.registry_package_sources;
      registry_package_version_deprecations =
          insert_nested module_package_discrete version_discrete pkg version mv.deprecation
            b.registry_package_version_deprecations;
    })

  unfoldable pub open_versions :
      ModulePackage → List (Text × ManifestRegistryVersion) → Bundle → Result OpenError Bundle
  unfolding open_version
  open_versions pkg [] b = ok b
  open_versions pkg ((version_str, mv) ∷ mvs) b =
      open_version pkg version_str mv b >>= open_versions pkg mvs

  -- A package that is listed has an entry, also where no version of it is.
  abbrev pub with_package : ModulePackage → Bundle → Bundle
  with_package pkg b = record b {
    registry_package_sources =
        insert module_package_discrete pkg
          (or_empty (lookup module_package_discrete pkg b.registry_package_sources))
          b.registry_package_sources;
    registry_package_version_deprecations =
        insert module_package_discrete pkg
          (or_empty (lookup module_package_discrete pkg b.registry_package_version_deprecations))
          b.registry_package_version_deprecations;
  }

  unfoldable pub open_registry : List ManifestRegistryMeta → Bundle → Result OpenError Bundle
  unfolding parse_registry_package open_versions
  open_registry [] b = ok b
  open_registry (rpm ∷ rpms) b = do
    pkg ← lift_addr invalid_registry_package (parse_registry_package p rpm.source_addr)
    c ← open_versions pkg (entries Text-discrete rpm.versions) (with_package pkg b)
    open_registry rpms c

  unfoldable pub empty_bundle : Text → Text → Bundle
  empty_bundle root_dir checksum = record {
    root_dir = root_dir;
    manifest_checksum = checksum;
    remote_package_dirs = [];
    remote_package_meta = [];
    registry_package_sources = [];
    registry_package_version_deprecations = [];
  }

  -- From the decoded manifest on.
  unfoldable pub open_manifest : Text → Text → ManifestRoot → Result OpenError Bundle
  unfolding open_packages open_registry empty_bundle
  open_manifest root_dir checksum manifest =
      if not (manifest.format_version == 1)
      then err (unsupported_format manifest.format_version)
      else open_packages manifest.packages (empty_bundle root_dir checksum)
        >>= open_registry manifest.registry_meta

  -- OpenDir; hash.Sum appends the hash of what was written, which is nothing, to its argument.
  unfoldable pub open_dir : Files → Text → Result OpenError Bundle
  unfolding abs join_path hex open_manifest
  open_dir files base_dir = do
    root_dir ← or_failed (abs files.working_dir base_dir) no_working_dir
    manifest_src ←
        or_failed (files.read_file (join_path root_dir manifest_filename)) unreadable_manifest
    manifest ← or_failed (files.unmarshal manifest_src) invalid_manifest
    open_manifest root_dir (hex (manifest_src ++ files.sha256 [])) manifest

  -- Bundle.ChecksumV1
  unfoldable pub checksum_v1 : Bundle → Text
  checksum_v1 b = codes "h1:" ++ b.manifest_checksum
