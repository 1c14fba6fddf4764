-- ===== src/Bundle/Types.antt =====
-- sourcebundle/diagnostics.go, dependency_finder.go, package_meta.go and the types of builder.go, with
-- what the builder takes from its surroundings.
use go_slug.Prelude.{ℕ, Bool, true, false, ◌||◌, Option, List, [], ◌∷◌, Text, Result, ℕ_discrete}
use go_slug.Addrs.Types.{Packages, RemotePackage, RemoteSource, RegistrySource}
use go_slug.Addrs.Local.{LocalSource}

pub data DiagSeverity : Type 0 where
  diag_error diag_warning : DiagSeverity

pub data Summary : Type 0 where
  cannot_resolve_registry_package cannot_install_package invalid_relative_address : Summary

pub record SourcePos : Type 0 where
  pub line : ℕ
  pub column : ℕ
  pub byte : ℕ

pub record SourceRange : Type 0 where
  pub filename : Text
  pub start : SourcePos
  pub end : SourcePos

pub record DiagSource : Type 0 where
  pub subject : Option SourceRange
  pub context : Option SourceRange

-- The diagnostics of the package itself, those of a dependency finder, and a diagnostic whose file
-- names are to be read in a source package.
pub data Diagnostic : Type 0 where
  internal_diagnostic : DiagSeverity → Summary → Diagnostic
  reported : DiagSeverity → Text → DiagSource → Diagnostic
  in_source_package : Diagnostic → RemotePackage → Diagnostic

unfoldable pub severity : Diagnostic → DiagSeverity
severity (internal_diagnostic s _) = s
severity (reported s _ _) = s
severity (in_source_package d _) = severity d

abbrev is_error : DiagSeverity → Bool
is_error diag_error = true
is_error diag_warning = false

-- Diagnostics.HasErrors
unfoldable pub has_errors : List Diagnostic → Bool
unfolding severity
has_errors [] = false
has_errors (d ∷ diags) = is_error (severity d) || has_errors diags

-- Diagnostics.inRemoteSourcePackage
unfoldable pub in_remote_source_package : RemotePackage → List Diagnostic → List Diagnostic
in_remote_source_package pkg [] = []
in_remote_source_package pkg (d ∷ diags) =
    in_source_package d pkg ∷ in_remote_source_package pkg diags

pub record PackageMeta : Type 0 where
  pub git_commit_id : Text
  pub git_commit_message : Text

pub record RegistryVersionDeprecation : Type 0 where
  pub version : Text
  pub reason : Text
  pub link : Text

-- ModulePackageVersionDeprecation of the registry client
pub record VersionDeprecation : Type 0 where
  pub reason : Text
  pub link : Text

pub record ModulePackageInfo (Version : Type 0) : Type 0 where
  pub version : Version
  pub deprecation : Option VersionDeprecation

pub record RemoteArtifact (Finder : Type 0) : Type 0 where
  pub source_addr : RemoteSource
  pub dep_finder : Finder

pub record RegistryArtifact (M VersionSet Finder : Type 0) : Type 0 where
  pub source_addr : RegistrySource M
  pub versions : VersionSet
  pub dep_finder : Finder

pub record RegistryPackageVersion (M V : Type 0) : Type 0 where
  pub pkg : M
  pub version : V

-- A call that a dependency finder makes on its Dependencies.
pub data Request (M VersionSet Finder : Type 0) : Type 0 where
  add_remote_source : RemoteSource → Finder → Request M VersionSet Finder
  add_registry_source : RegistrySource M → VersionSet → Finder → Request M VersionSet Finder
  add_local_source : LocalSource → Finder → Request M VersionSet Finder

-- What a build trace is told.
pub data Event (M V : Type 0) : Type 0 where
  package_versions_start package_versions_success package_versions_failure : M → Event M V
  package_versions_already : M → Event M V
  package_source_start package_source_failure : M → V → Event M V
  package_source_success package_source_already : M → V → RemoteSource → Event M V
  download_start download_success download_failure download_already : RemotePackage → Event M V
  diagnostics : List Diagnostic → Event M V

unfoldable pub RemotePackage-discrete : Discrete RemotePackage
unfolding ℕ_discrete
RemotePackage-discrete = hlevel ℕ_discrete

unfoldable pub RemoteSource-discrete : Discrete RemoteSource
unfolding ℕ_discrete
RemoteSource-discrete = hlevel ℕ_discrete

-- Why a package is not in its directory: an error, or a panic of the program.
pub data Failure : Type 0 where
  failed : Text → Failure
  panics : Failure

-- What the builder does not implement. An answer may depend on all that went before, which the trace
-- shows, but a dependency finder is a function of the package's directory.
pub record World : Type 1 where
  pub packages : Packages
  pub open packages use {ModulePackage, module_package_discrete, Version, version_discrete}
  -- versions.Set with versions.Only, List.Sort, List.NewestInSet (where `none` is Unspecified), Same
  pub VersionSet : Type 0
  pub only : Version → VersionSet
  pub sort : List Version → List Version
  pub newest_in_set : List Version → VersionSet → Option Version
  pub same : Version → Version → Bool
  -- dependency finders: comparable, and told the directory and the sub-path
  pub Finder : Type 0
  pub finder_discrete : Discrete Finder
  -- the content of a package's directory
  pub Tree : Type 0
  pub find_dependencies :
      Finder → Option Tree → Text → List (Request ModulePackage VersionSet Finder) × List Diagnostic
  -- RegistryClient
  pub module_package_versions :
      List (Event ModulePackage Version)
      → ModulePackage
      → Result Text (List (ModulePackageInfo Version))
  pub module_package_source_addr :
      List (Event ModulePackage Version) → ModulePackage → Version → Result Text RemoteSource
  -- ioutil.TempDir, then PackageFetcher
  pub make_temp_dir : List (Event ModulePackage Version) → Result Text (Unit {0})
  pub fetch_source_package :
      List (Event ModulePackage Version) → RemotePackage → Result Text (Option PackageMeta × Tree)
  -- LoadPackageIgnoreRules, whose readRules may panic, and the walk with packagePrepareWalkFn over the
  -- fetched directory; then the hash of the directory in the form of a name
  pub prepare : List (Event ModulePackage Version) → Tree → Result Failure Tree
  pub hash_dir : Tree → Result Text Text
  -- os.RemoveAll of the temporary directory, and os.Rename
  pub remove_work_dir : List (Event ModulePackage Version) → Result Text (Unit {0})
  pub rename_work_dir : List (Event ModulePackage Version) → Result Text (Unit {0})
