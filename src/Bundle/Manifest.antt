-- ===== src/Bundle/Manifest.antt =====
-- sourcebundle/manifest_json.go and writeManifest of builder.go. A map is written in the order of its
-- association list, since Go leaves the order of a loop over a map open.
use go_slug.Prelude.{
  ℕ, Option, none, some, List, [], ◌∷◌, map, Text, Assoc, lookup, insert, entries, choose,
}
use go_slug.Go.Sort.{sort_by}
use go_slug.Addrs.Types.{RemotePackage, RemoteSource}
use go_slug.Addrs.Remote.{remote_package_string, remote_source_string}
use go_slug.Bundle.Types.{World, PackageMeta, RegistryVersionDeprecation, RemotePackage-discrete}
use go_slug.Bundle.Builder.{Builder, PackageVersion, Text-discrete, package_version_discrete}

pub record ManifestRemotePackage : Type 0 where
  pub source_addr : Text
  pub local_dir : Text
  pub meta : PackageMeta

pub record ManifestRegistryVersion : Type 0 where
  pub source_addr : Text
  pub deprecation : Option RegistryVersionDeprecation

pub record ManifestRegistryMeta : Type 0 where
  pub source_addr : Text
  pub versions : Assoc Text ManifestRegistryVersion

pub record ManifestRoot : Type 0 where
  pub format_version : ℕ
  pub packages : List ManifestRemotePackage
  pub registry_meta : List ManifestRegistryMeta

-- An empty text stands for a field that is left out.
abbrev pub no_meta : PackageMeta
no_meta = record { git_commit_id = []; git_commit_message = [] }

abbrev pub or_no_meta : Option PackageMeta → PackageMeta
or_no_meta none = no_meta
or_no_meta (some meta) = meta

abbrev pub or_nil {ℓ} : {A : Type ℓ} → Option (Option A) → Option A
or_nil none = none
or_nil (some o) = o

module _ (w : World) where
  open w.packages use {
    ModulePackage, module_package_discrete, module_package_string, version_string,
  }

  -- One round of the loop over the packages.
  unfoldable pub manifest_package : Builder w → RemotePackage × Text → ManifestRemotePackage
  unfolding remote_package_string
  manifest_package b (pkg, dir) = record {
    source_addr = remote_package_string w.packages pkg;
    local_dir = dir;
    meta = or_no_meta (lookup RemotePackage-discrete pkg b.remote_package_meta);
  }

  unfoldable pub manifest_version :
      Builder w → PackageVersion w × RemoteSource → ManifestRegistryVersion
  unfolding remote_source_string
  manifest_version b (rpv, source) = record {
    source_addr = remote_source_string w.packages source;
    deprecation = or_nil (lookup (package_version_discrete w) rpv b.package_version_deprecations);
  }

  -- registryObjs, with the objects in the order in which they were appended.
  abbrev pub Objects : Type 0
  Objects = Assoc ModulePackage ManifestRegistryMeta

  -- A version of a package, in the package's object or in a new one.
  unfoldable pub add_object : ModulePackage → Text → ManifestRegistryVersion → Objects → Objects
  unfolding Text-discrete
  add_object pkg key version [] =
      (
        pkg,
        record {
          source_addr = module_package_string pkg;
          versions = insert Text-discrete key version [];
        },
      )
      ∷ []
  add_object pkg key version ((q, meta) ∷ objects) =
      let later = add_object pkg key version objects in
      choose (module_package_discrete q pkg)
        ((q, record meta { versions = insert Text-discrete key version meta.versions }) ∷ objects)
        ((q, meta) ∷ later)

  -- The loop over the resolved registry packages.
  unfoldable pub add_objects :
      Builder w → List (PackageVersion w × RemoteSource) → Objects → Objects
  unfolding add_object manifest_version
  add_objects b [] objects = objects
  add_objects b ((rpv, source) ∷ resolved) objects =
      add_objects b resolved
        (add_object rpv.pkg (version_string rpv.version) (manifest_version b (rpv, source)) objects)

  -- The root that writeManifest serialises.
  unfoldable pub manifest_root : Builder w → ManifestRoot
  unfolding manifest_package add_objects sort_by
  manifest_root b = record {
    format_version = 1;
    packages =
        sort_by (λ m. m.source_addr)
          (map (manifest_package b) (entries RemotePackage-discrete b.remote_package_dirs));
    registry_meta =
        sort_by (λ m. m.source_addr)
          (map (λ o. o.1)
            (add_objects b (entries (package_version_discrete w) b.resolved_registry) []));
  }
