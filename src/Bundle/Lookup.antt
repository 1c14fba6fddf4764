-- ===== src/Bundle/Lookup.antt =====
-- sourcebundle/bundle.go: local paths of sources, sources of local paths, and the lists of packages.

use go_slug.Prelude.{
  not, ◌||◌, Option, none, some, List, [], ◌∷◌, map, ltb, if◌then◌else◌, Text, text_eq, lookup,
  entries, Result, ok, err, ◌>>=◌,
}
use go_slug.Go.Strings.{byte_length, cut}
use go_slug.Go.Path.{slash, dot, abs, clean, join_paths, valid_path}
use go_slug.Go.Relative.{rel}
use go_slug.Go.Sort.{sort_by}
use go_slug.Addrs.Types.{
  Packages, RemotePackage, RemoteSource, RegistrySource, RegistrySourceFinal, FinalSource,
}
use go_slug.Addrs.Local.{local_string}
use go_slug.Addrs.Remote.{R, remote_package_string, source_addr}
use go_slug.Addrs.Registry.{final_source_addr}
use go_slug.Bundle.Types.{PackageMeta, RegistryVersionDeprecation, RemotePackage-discrete}
use go_slug.Bundle.Manifest.{or_nil}
use go_slug.Bundle.Open.{Bundle, or_failed, or_empty}

pub data PathError : Type 0 where
  package_not_included version_not_included no_working_dir not_in_bundle panicked : PathError

module _ (p : Packages) where
  open p use {
    ModulePackage, module_package_discrete, module_package_string, Version, version_discrete,
  }

  -- Bundle.LocalPathForRemoteSource
  unfoldable pub local_path_for_remote_source : Bundle p → RemoteSource → Result PathError Text
  unfolding join_paths
  local_path_for_remote_source b addr = do
    local_name ←
        or_failed (lookup RemotePackage-discrete addr.pkg b.remote_package_dirs)
          package_not_included
    ok (join_paths (b.root_dir ∷ local_name ∷ addr.sub_path ∷ []))

  -- Bundle.LocalPathForRegistrySource
  unfoldable pub local_path_for_registry_source :
      Bundle p → RegistrySource ModulePackage → Version → Result PathError Text
  unfolding local_path_for_remote_source final_source_addr
  local_path_for_registry_source b addr version = do
    vs ←
        or_failed (lookup module_package_discrete addr.pkg b.registry_package_sources)
          package_not_included
    base_source_addr ← or_failed (lookup version_discrete version vs) version_not_included
    local_path_for_remote_source b (final_source_addr addr base_source_addr)

  -- Bundle.LocalPathForFinalRegistrySource
  unfoldable pub local_path_for_final_registry_source :
      Bundle p → RegistrySourceFinal ModulePackage Version → Result PathError Text
  unfolding local_path_for_registry_source
  local_path_for_final_registry_source b addr =
      local_path_for_registry_source b addr.src addr.version

  -- Bundle.LocalPathForSource
  unfoldable pub local_path_for_source :
      Bundle p → FinalSource ModulePackage Version → Result PathError Text
  unfolding local_path_for_remote_source local_path_for_registry_source local_string
  local_path_for_source b (FinalSource.remote_source addr) = local_path_for_remote_source b addr
  local_path_for_source b (FinalSource.registry_source_final addr) =
      local_path_for_registry_source b addr.src addr.version
  local_path_for_source b (FinalSource.local_source addr) = ok (local_string addr)

  -- The choice between a candidate and the package that was found.
  unfoldable pub shorter : RemotePackage → Option RemotePackage → Option RemotePackage
  unfolding remote_package_string
  shorter candidate none = some candidate
  shorter candidate (some pkg) =
      if ltb (byte_length (remote_package_string p pkg))
        (byte_length (remote_package_string p candidate))
      then some pkg
      else some candidate

  -- The loop over the packages in SourceForLocalPath.
  unfoldable pub find_package :
      Text → List (RemotePackage × Text) → Option RemotePackage → Option RemotePackage
  unfolding shorter
  find_package local_dir [] found = found
  find_package local_dir ((candidate, dir) ∷ dirs) found =
      find_package local_dir dirs (if text_eq dir local_dir then shorter candidate found else found)

  abbrev pub or_panicked : R RemoteSource → Result PathError (FinalSource ModulePackage Version)
  or_panicked (ok s) = ok (FinalSource.remote_source s)
  or_panicked (err e) = err panicked

  -- From the name of the local directory and the rest of the relative path on.
  unfoldable pub source_in :
      Bundle p → Text × Text → Result PathError (FinalSource ModulePackage Version)
  unfolding find_package source_addr
  source_in b (local_dir, rest) = do
    pkg ←
        or_failed
          (find_package local_dir (entries RemotePackage-discrete b.remote_package_dirs) none)
          not_in_bundle
    or_panicked (source_addr pkg rest)

  -- From the relative path on.
  unfoldable pub source_for_sub_path :
      Bundle p → Text → Result PathError (FinalSource ModulePackage Version)
  unfolding valid_path cut source_in
  source_for_sub_path b sub_path =
      if not (valid_path sub_path) || text_eq sub_path dot
      then err not_in_bundle
      else source_in b (cut slash sub_path)

  -- Bundle.SourceForLocalPath
  unfoldable pub source_for_local_path :
      Option Text → Bundle p → Text → Result PathError (FinalSource ModulePackage Version)
  unfolding abs rel clean source_for_sub_path
  source_for_local_path working_dir b given = do
    abs_path ← or_failed (abs working_dir given) no_working_dir
    rel_path ← or_failed (rel b.root_dir abs_path) not_in_bundle
    source_for_sub_path b (clean rel_path)

  -- Bundle.RemotePackages
  unfoldable pub remote_packages : Bundle p → List RemotePackage
  unfolding sort_by remote_package_string
  remote_packages b =
      sort_by (remote_package_string p)
        (map (λ e. e.0) (entries RemotePackage-discrete b.remote_package_dirs))

  -- Bundle.RemotePackageMeta
  unfoldable pub remote_package_meta : Bundle p → RemotePackage → Option PackageMeta
  remote_package_meta b pkg = lookup RemotePackage-discrete pkg b.remote_package_meta

  -- Bundle.RegistryPackages
  unfoldable pub registry_packages : Bundle p → List ModulePackage
  unfolding sort_by
  registry_packages b =
      sort_by module_package_string
        (map (λ e. e.0) (entries module_package_discrete b.registry_package_sources))

  -- Bundle.RegistryPackageVersions; `sort` is List.Sort of the versions.
  unfoldable pub registry_package_versions :
      (List Version → List Version) → Bundle p → ModulePackage → List Version
  registry_package_versions sort b pkg =
      elim (or_empty (lookup module_package_discrete pkg b.registry_package_sources)) [
        | [] ↦ []
        | v ∷ vs ↦ sort (map (λ e. e.0) (entries version_discrete (v ∷ vs)))
      ]

  -- Bundle.RegistryPackageVersionDeprecation
  unfoldable pub registry_package_version_deprecation :
      Bundle p → ModulePackage → Version → Option RegistryVersionDeprecation
  registry_package_version_deprecation b pkg version = or_nil (
      lookup version_discrete version
        (or_empty (lookup module_package_discrete pkg b.registry_package_version_deprecations)))

  -- Bundle.RegistryPackageSourceAddr
  unfoldable pub registry_package_source_addr :
      Bundle p → ModulePackage → Version → Option RemoteSource
  registry_package_source_addr b pkg version =
      lookup version_discrete version
        (or_empty (lookup module_package_discrete pkg b.registry_package_sources))
