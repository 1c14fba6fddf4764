-- ===== src/Bundle/Opening.antt =====
-- What every step of OpenDir from the decoded manifest on keeps of a bundle.
use go_slug.Prelude.{
  entries, Assoc, insert, ◌++◌, ◌≡◌, ap, inl, inr, true, Option, none, some, List, [], ◌∷◌, Text,
  Bool-cases, ok, >>=-eq-ok, ok-injective, subst, ◌==◌,
}
use go_slug.Go.Path.{abs, join_path}
use go_slug.Addrs.Types.{Packages, RemotePackage, RemoteSource}
use go_slug.Bundle.Types.{PackageMeta, RegistryVersionDeprecation, RemotePackage-discrete}
use go_slug.Addrs.Remote.{parse_remote_package, parse_remote_source}
use go_slug.Addrs.Registry.{parse_registry_package}
use go_slug.Bundle.Manifest.{
  ManifestRemotePackage, ManifestRegistryVersion, ManifestRegistryMeta, ManifestRoot,
}
use go_slug.Bundle.Builder.{Text-discrete}
use go_slug.Bundle.Open.{
  hex, Files, Bundle, or_failed, lift_addr, manifest_filename, valid_local_dir, open_package,
  open_packages, open_version, open_versions, open_registry, open_manifest, open_dir, empty_bundle,
  with_package, invalid_remote_package, invalid_registry_package, invalid_version,
  invalid_source_address, no_working_dir, unreadable_manifest, invalid_manifest,
}

pub or_failed-ok {ℓ κ} :
    {E : Type ℓ} {A : Type κ} (o : Option A) (e : E) {a : A} → or_failed o e ≡ ok a → o ≡ some a
or_failed-ok none e h = cc h
or_failed-ok (some b) e {a} h = let same : b ≡ a = cc h in ap some same

module _ (p : Packages) (K : Bundle p → Type 0)
    (by_package : (pkg : RemotePackage) (dir : Text) (metas : Assoc RemotePackage PackageMeta)
        (b : Bundle p)
      → valid_local_dir dir ≡ true
      → K b
      → K (record b {
        remote_package_dirs = insert RemotePackage-discrete pkg dir b.remote_package_dirs;
        remote_package_meta = metas;
      }))
    (by_registry : (sources : Assoc p.ModulePackage (Assoc p.Version RemoteSource))
        (deprecations : Assoc p.ModulePackage (Assoc p.Version (Option RegistryVersionDeprecation)))
        (b : Bundle p)
      → K b
      → K (record b {
        registry_package_sources = sources;
        registry_package_version_deprecations = deprecations;
      })) where
  open_package-keeps :
      (rpm : ManifestRemotePackage) (b : Bundle p) {c : Bundle p}
      → K b
      → open_package p rpm b ≡ ok c
      → K c
  unfolding open_package
  open_package-keeps rpm b v h = elim (Bool-cases (valid_local_dir rpm.local_dir)) [
    | inr e ↦ cc (rw e at h)
    | inl e ↦
        let (pkg, _, k) =
          >>=-eq-ok (lift_addr invalid_remote_package (parse_remote_package p rpm.source_addr)) _
            (rw e at h) in
        subst K (ok-injective k) (by_package pkg rpm.local_dir _ b e v)
  ]

  open_packages-keeps :
      (rpms : List ManifestRemotePackage) (b : Bundle p) {c : Bundle p}
      → K b
      → open_packages p rpms b ≡ ok c
      → K c
  unfolding open_packages
  open_packages-keeps [] b v h = subst K (cc h) v
  open_packages-keeps (rpm ∷ rpms) b v h =
      let (d, k, l) = >>=-eq-ok (open_package p rpm b) _ h in
      open_packages-keeps rpms d (open_package-keeps rpm b v k) l

  open_version-keeps :
      (pkg : p.ModulePackage) (version : Text) (mv : ManifestRegistryVersion) (b : Bundle p)
      {c : Bundle p}
      → K b
      → open_version p pkg version mv b ≡ ok c
      → K c
  unfolding open_version
  open_version-keeps pkg version mv b v h =
      let (x, _, k) =
        >>=-eq-ok (or_failed (p.parse_version version) (invalid_version version)) _ h in
      let (s, _, l) =
        >>=-eq-ok (lift_addr invalid_source_address (parse_remote_source p mv.source_addr)) _ k in
      subst K (ok-injective l) (by_registry _ _ b v)

  open_versions-keeps :
      (pkg : p.ModulePackage) (mvs : List (Text × ManifestRegistryVersion)) (b : Bundle p)
      {c : Bundle p}
      → K b
      → open_versions p pkg mvs b ≡ ok c
      → K c
  unfolding open_versions
  open_versions-keeps pkg [] b v h = subst K (cc h) v
  open_versions-keeps pkg ((version, mv) ∷ mvs) b v h =
      let (d, k, l) = >>=-eq-ok (open_version p pkg version mv b) _ h in
      open_versions-keeps pkg mvs d (open_version-keeps pkg version mv b v k) l

  open_registry-keeps :
      (rpms : List ManifestRegistryMeta) (b : Bundle p) {c : Bundle p}
      → K b
      → open_registry p rpms b ≡ ok c
      → K c
  unfolding open_registry
  open_registry-keeps [] b v h = subst K (cc h) v
  open_registry-keeps (rpm ∷ rpms) b v h =
      let (pkg, _, k) =
        >>=-eq-ok (lift_addr invalid_registry_package (parse_registry_package p rpm.source_addr)) _
          h in
      let (d, l, m) =
        >>=-eq-ok (open_versions p pkg (entries Text-discrete rpm.versions) (with_package p pkg b))
          _ k in
      open_registry-keeps rpms d
        (open_versions-keeps pkg (entries Text-discrete rpm.versions) (with_package p pkg b)
          (by_registry _ _ b v) l)
        m

  pub open_manifest-keeps :
      (root_dir checksum : Text) (manifest : ManifestRoot) {c : Bundle p}
      → K (empty_bundle p root_dir checksum)
      → open_manifest p root_dir checksum manifest ≡ ok c
      → K c
  unfolding open_manifest
  open_manifest-keeps root_dir checksum manifest v h =
      elim (Bool-cases (manifest.format_version == 1)) [
        | inr e ↦ cc (rw e at h)
        | inl e ↦
            let start : Bundle p = empty_bundle p root_dir checksum in
            let (d, k, l) = >>=-eq-ok (open_packages p manifest.packages start) _ (rw e at h) in
            open_registry-keeps manifest.registry_meta d
              (open_packages-keeps manifest.packages start v k) l
      ]

module _ (p : Packages) where
  -- What OpenDir has read when it returns.
  pub record Reads (files : Files) (base_dir : Text) (b : Bundle p) : Type 0 where
    pub root_dir : Text
    pub src : Text
    pub manifest : ManifestRoot
    pub absolute : abs files.working_dir base_dir ≡ some root_dir
    pub source_read : files.read_file (join_path root_dir manifest_filename) ≡ some src
    pub opened : open_manifest p root_dir (hex (src ++ files.sha256 [])) manifest ≡ ok b

  pub open_dir-Reads :
      (files : Files) (base_dir : Text) {b : Bundle p}
      → open_dir p files base_dir ≡ ok b
      → Reads files base_dir b
  unfolding open_dir
  open_dir-Reads files base_dir h =
      let (root_dir, k, h₁) =
        >>=-eq-ok (or_failed (abs files.working_dir base_dir) no_working_dir) _ h in
      let (src, l, h₂) =
        >>=-eq-ok
          (or_failed (files.read_file (join_path root_dir manifest_filename)) unreadable_manifest) _
          h₁ in
      let (manifest, _, h₃) = >>=-eq-ok (or_failed (files.unmarshal src) invalid_manifest) _ h₂ in
      record {
        root_dir = root_dir;
        src = src;
        manifest = manifest;
        absolute = or_failed-ok _ no_working_dir k;
        source_read = or_failed-ok _ unreadable_manifest l;
        opened = h₃;
      }
