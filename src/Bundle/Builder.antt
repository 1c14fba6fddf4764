-- ===== src/Bundle/Builder.antt =====
-- sourcebundle/builder.go: the builder of a source bundle.
--
-- The two queues are lists whose head is the last item of the slice, from which the code takes; the
-- maps are association lists. `disk` is the target directory: its finished package directories, by
-- name. `trace` is what the build trace was told. The lock is held throughout a call.
use go_slug.Prelude.{
  Option, none, some, List, [], ◌∷◌, Text, Result, ok, err, Assoc, lookup, insert, ℕ_discrete,
}
use go_slug.Addrs.Types.{RemotePackage, RemoteSource}
use go_slug.Bundle.Types.{
  World, Event, Failure, failed, PackageMeta, RegistryVersionDeprecation, ModulePackageInfo,
  RemoteArtifact, RegistryArtifact, RegistryPackageVersion, RemotePackage-discrete,
  RemoteSource-discrete, download_start, download_success, download_failure, download_already,
}

-- Equality of texts, for names of directories.
unfoldable pub Text-discrete : Discrete Text
unfolding ℕ_discrete
Text-discrete = hlevel ℕ_discrete

module _ (w : World) where
  open w use {
    packages, VersionSet, only, sort, newest_in_set, same, Finder, finder_discrete, Tree,
    find_dependencies, module_package_versions, module_package_source_addr, make_temp_dir,
    fetch_source_package, prepare, hash_dir, remove_work_dir, rename_work_dir,
  }
  open packages use {
    ModulePackage, module_package_discrete, Version, version_discrete, version_string,
  }

  abbrev pub Artifact : Type 0
  Artifact = RemoteArtifact Finder

  abbrev pub Pending : Type 0
  Pending = RegistryArtifact ModulePackage VersionSet Finder

  abbrev pub PackageVersion : Type 0
  PackageVersion = RegistryPackageVersion ModulePackage Version

  unfoldable pub artifact_discrete : Discrete Artifact
  unfolding RemoteSource-discrete
  artifact_discrete = hlevel (RemoteSource-discrete, finder_discrete)

  unfoldable pub package_version_discrete : Discrete PackageVersion
  package_version_discrete = hlevel (module_package_discrete, version_discrete)

  pub record Builder : Type 0 where
    -- `none` once the builder is closed
    pub target_dir : Option Text
    pub pending_remote : List Artifact
    pub analyzed : List Artifact
    pub remote_package_dirs : Assoc RemotePackage Text
    pub remote_package_meta : Assoc RemotePackage PackageMeta
    pub pending_registry : List Pending
    pub resolved_registry : Assoc PackageVersion RemoteSource
    pub package_version_deprecations : Assoc PackageVersion (Option RegistryVersionDeprecation)
    pub registry_package_versions : Assoc ModulePackage (List (ModulePackageInfo Version))
    pub disk : Assoc Text Tree
    pub trace : List (Event ModulePackage Version)

  -- NewBuilder, in an empty directory
  unfoldable pub new_builder : Text → Builder
  new_builder abs_dir = record {
    target_dir = some abs_dir;
    pending_remote = [];
    analyzed = [];
    remote_package_dirs = [];
    remote_package_meta = [];
    pending_registry = [];
    resolved_registry = [];
    package_version_deprecations = [];
    registry_package_versions = [];
    disk = [];
    trace = [];
  }

  unfoldable pub log : Event ModulePackage Version → Builder → Builder
  log e b = record b { trace = e ∷ b.trace }

  abbrev pub with_meta : RemotePackage → Option PackageMeta → Builder → Builder
  with_meta pkg none b = b
  with_meta pkg (some meta) b = record b {
    remote_package_meta = insert RemotePackage-discrete pkg meta b.remote_package_meta;
  }

  -- The end of ensureRemotePackage: an existing directory of that name is kept, and the temporary one
  -- dropped; otherwise the temporary directory gets the name.
  unfoldable pub place_package : Text → Tree → Builder → Result Failure Text × Builder
  place_package dir_name tree b = elim (lookup Text-discrete dir_name b.disk) [
    | some _ ↦ elim (remove_work_dir b.trace) [
      | ok _ ↦ (ok dir_name, b)
      | err e ↦ (err (failed e), b)
    ]
    | none ↦ elim (rename_work_dir b.trace) [
      | ok _ ↦ (ok dir_name, record b { disk = insert Text-discrete dir_name tree b.disk })
      | err e ↦ (err (failed e), b)
    ]
  ]

  -- From the ignore rules on. The directory's name is noted before the directory is in its place.
  unfoldable pub finish_package : RemotePackage → Tree → Builder → Result Failure Text × Builder
  unfolding place_package
  finish_package pkg fetched b = elim (prepare b.trace fetched) [
    | err e ↦ (err e, b)
    | ok tree ↦ elim (hash_dir tree) [
      | err e ↦ (err (failed e), b)
      | ok dir_name ↦ place_package dir_name tree (record b {
        remote_package_dirs = insert RemotePackage-discrete pkg dir_name b.remote_package_dirs;
      })
    ]
  ]

  -- From the temporary directory on.
  unfoldable pub download : RemotePackage → Builder → Result Failure Text × Builder
  unfolding finish_package
  download pkg b = elim (make_temp_dir b.trace) [
    | err e ↦ (err (failed e), b)
    | ok _ ↦ elim (fetch_source_package b.trace pkg) [
      | err e ↦ (err (failed e), b)
      | ok (meta, tree) ↦ finish_package pkg tree (with_meta pkg meta b)
    ]
  ]

  -- The deferred function that reports how the download went. The builder that a panic leaves is never
  -- looked at.
  abbrev pub report : RemotePackage → Result Failure Text × Builder → Result Failure Text × Builder
  report pkg (ok dir, b) = (ok dir, record b { trace = download_success pkg ∷ b.trace })
  report pkg (err e, b) = (err e, record b { trace = download_failure pkg ∷ b.trace })

  -- ensureRemotePackage
  unfoldable pub ensure_remote_package : RemotePackage → Builder → Result Failure Text × Builder
  unfolding log download
  ensure_remote_package pkg b = elim (lookup RemotePackage-discrete pkg b.remote_package_dirs) [
    | some dir ↦ (ok dir, log (download_already pkg) b)
    | none ↦ report pkg (download pkg (log (download_start pkg) b))
  ]
