-- ===== src/Bundle/Registry.antt =====
-- findRegistryPackageSource of sourcebundle/builder.go: the real source of a registry address.
use mathlib.Core.Option
use go_slug.Prelude.{
  Option, none, some, List, [], ◌∷◌, map, Text, Result, ok, err, lookup, insert, if◌then◌else◌,
}
use go_slug.Addrs.Types.{RemoteSource, RegistrySource}
use go_slug.Addrs.Registry.{final_source_addr}
use go_slug.Bundle.Types.{
  World, RegistryVersionDeprecation, ModulePackageInfo, package_versions_start,
  package_versions_success, package_versions_failure, package_versions_already,
  package_source_start, package_source_failure, package_source_success, package_source_already,
}
use go_slug.Bundle.Builder.{Builder, PackageVersion, package_version_discrete, log}

module _ (w : World) where
  open w use {
    packages, VersionSet, sort, newest_in_set, same, module_package_versions,
    module_package_source_addr,
  }
  open packages use {ModulePackage, module_package_discrete, Version, version_string}

  -- extractVersionListFromResponse
  unfoldable pub extract_version_list : List (ModulePackageInfo Version) → List Version
  extract_version_list infos = sort (map (λ i. i.version) infos)

  -- The deprecation of the first version in the list that is the selected one.
  unfoldable pub find_deprecation :
      Version → List (ModulePackageInfo Version) → Option RegistryVersionDeprecation
  find_deprecation selected [] = none
  find_deprecation selected (i ∷ infos) =
      if same selected i.version
      then Option.map
          (λ d. record { version = version_string selected; reason = d.reason; link = d.link })
          i.deprecation
      else find_deprecation selected infos

  -- The versions of a registry package, from the cache or from the registry.
  unfoldable pub available_versions :
      ModulePackage → (Builder w) → Result Text (List (ModulePackageInfo Version)) × (Builder w)
  unfolding log
  available_versions pkg b = elim (lookup module_package_discrete pkg b.registry_package_versions) [
    | some infos ↦ (ok infos, log w (package_versions_already pkg) b)
    | none ↦
        let b₁ = log w (package_versions_start pkg) b in
        elim (module_package_versions b₁.trace pkg) [
          | err e ↦ (err e, log w (package_versions_failure pkg) b₁)
          | ok infos ↦ (
            ok infos,
            log w (package_versions_success pkg) (record b₁ {
              registry_package_versions =
                  insert module_package_discrete pkg infos b₁.registry_package_versions;
            }),
          )
        ]
  ]

  -- The real source of a version, from the cache or from the registry.
  unfoldable pub real_source :
      ModulePackage
      → Version
      → List (ModulePackageInfo Version)
      → (Builder w)
      → Result Text RemoteSource × (Builder w)
  unfolding log find_deprecation
  real_source pkg version infos b =
      let key : (PackageVersion w) = record { pkg = pkg; version = version } in
      elim (lookup (package_version_discrete w) key b.resolved_registry) [
        | some addr ↦ (ok addr, log w (package_source_already pkg version addr) b)
        | none ↦
            let b₁ = log w (package_source_start pkg version) b in
            elim (module_package_source_addr b₁.trace pkg version) [
              | err e ↦ (err e, log w (package_source_failure pkg version) b₁)
              | ok addr ↦ (
                ok addr,
                log w (package_source_success pkg version addr) (record b₁ {
                  resolved_registry =
                      insert (package_version_discrete w) key addr b₁.resolved_registry;
                  package_version_deprecations =
                      insert (package_version_discrete w) key (find_deprecation version infos)
                        b₁.package_version_deprecations;
                }),
              )
            ]
      ]

  -- The error of a package of which no version is in the set.
  abbrev no_matching_version : Text
  no_matching_version = []

  abbrev pub final_addr :
      RegistrySource ModulePackage
      → Result Text RemoteSource × (Builder w)
      → Result Text RemoteSource × (Builder w)
  final_addr addr (ok real, b) = (ok (final_source_addr addr real), b)
  final_addr addr (err e, b) = (err e, b)

  abbrev pub select_source :
      RegistrySource ModulePackage
      → VersionSet
      → Result Text (List (ModulePackageInfo Version)) × (Builder w)
      → Result Text RemoteSource × (Builder w)
  select_source addr allowed (err e, b) = (err e, b)
  select_source addr allowed (ok infos, b) =
      elim (newest_in_set (extract_version_list infos) allowed) [
        | none ↦ (err no_matching_version, b)
        | some version ↦ final_addr addr (real_source addr.pkg version infos b)
      ]

  -- findRegistryPackageSource
  unfoldable pub find_registry_package_source :
      RegistrySource ModulePackage
      → VersionSet
      → (Builder w)
      → Result Text RemoteSource × (Builder w)
  unfolding available_versions real_source extract_version_list final_source_addr
  find_registry_package_source addr allowed b =
      select_source addr allowed (available_versions addr.pkg b)
