-- ===== src/Bundle/Queues.antt =====
-- What ensureRemotePackage leaves alone: the queues, and what was analyzed or resolved.
use go_slug.Prelude.{
  ◌≡◌, refl, ap, ◌∙◌, inl, inr, Option, none, some, arith, Text, Result, ok, err, lookup,
  Option-cases, Result-cases,
}
use go_slug.Addrs.Types.{RemotePackage}
use go_slug.Bundle.Types.{Failure, World, PackageMeta, RemotePackage-discrete, download_start}
use go_slug.Bundle.Builder.{
  Builder, finish_package, download, with_meta, report, ensure_remote_package, log,
}

module _ (w : World) where
  open w use {Finder, VersionSet}
  open w.packages use {ModulePackage, Version}

  -- The queues, the analyzed artifacts and the registry's answers are as they were.
  pub record Leaves (b c : Builder w) : Type 0 where
    pub remote : c.pending_remote ≡ b.pending_remote
    pub registry : c.pending_registry ≡ b.pending_registry
    pub analyzed : c.analyzed ≡ b.analyzed
    pub resolved : c.resolved_registry ≡ b.resolved_registry
    pub versions : c.registry_package_versions ≡ b.registry_package_versions

  Leaves-refl : (b : Builder w) → Leaves b b
  Leaves-refl b = record {
    remote = refl;
    registry = refl;
    analyzed = refl;
    resolved = refl;
    versions = refl;
  }

  Leaves-trans : {b c d : Builder w} → Leaves b c → Leaves c d → Leaves b d
  Leaves-trans h k = record {
    remote = k.remote ∙ h.remote;
    registry = k.registry ∙ h.registry;
    analyzed = k.analyzed ∙ h.analyzed;
    resolved = k.resolved ∙ h.resolved;
    versions = k.versions ∙ h.versions;
  }

  finish_package-Leaves :
      (pkg : RemotePackage) (fetched : w.Tree) (b : Builder w)
      → Leaves b (finish_package w pkg fetched b).1
  unfolding finish_package
  finish_package-Leaves pkg fetched b = record {
    remote = ground arith;
    registry = ground arith;
    analyzed = ground arith;
    resolved = ground arith;
    versions = ground arith;
  }

  with_meta-Leaves :
      (pkg : RemotePackage) (meta : Option PackageMeta) (b : Builder w)
      → Leaves b (with_meta w pkg meta b)
  with_meta-Leaves pkg none b = Leaves-refl b
  with_meta-Leaves pkg (some m) b = record {
    remote = refl;
    registry = refl;
    analyzed = refl;
    resolved = refl;
    versions = refl;
  }

  download-Leaves : (pkg : RemotePackage) (b : Builder w) → Leaves b (download w pkg b).1
  unfolding download
  download-Leaves pkg b = elim (Result-cases (w.make_temp_dir b.trace)) [
    | inr (e, h) ↦ rw (h, download) (Leaves-refl b)
    | inl (u, h) ↦ elim (Result-cases (w.fetch_source_package b.trace pkg)) [
      | inr (e, k) ↦ rw (h, k, download) (Leaves-refl b)
      | inl ((meta, tree), k) ↦
          rw (h, k, download)
            (Leaves-trans (with_meta-Leaves pkg meta b)
              (finish_package-Leaves pkg tree (with_meta w pkg meta b)))
    ]
  ]

  -- What the build trace was told matters to none of them.
  Leaves-told : {b c d : Builder w} → Leaves b c → d ≡ record c { trace = d.trace } → Leaves b d
  Leaves-told h k = record {
    remote = ap (λ x. x.pending_remote) k ∙ h.remote;
    registry = ap (λ x. x.pending_registry) k ∙ h.registry;
    analyzed = ap (λ x. x.analyzed) k ∙ h.analyzed;
    resolved = ap (λ x. x.resolved_registry) k ∙ h.resolved;
    versions = ap (λ x. x.registry_package_versions) k ∙ h.versions;
  }

  report-Leaves :
      (pkg : RemotePackage) (b : Builder w) (m : Result Failure Text × Builder w)
      → Leaves b m.1
      → Leaves b (report w pkg m).1
  report-Leaves pkg b (ok dir, c) h = Leaves-told h refl
  report-Leaves pkg b (err e, c) h = Leaves-told h refl

  pub ensure_remote_package-Leaves :
      (pkg : RemotePackage) (b : Builder w) → Leaves b (ensure_remote_package w pkg b).1
  unfolding ensure_remote_package log
  ensure_remote_package-Leaves pkg b =
      elim (Option-cases (lookup RemotePackage-discrete pkg b.remote_package_dirs)) [
        | inr (dir, h) ↦ rw (h, ensure_remote_package) (Leaves-told {b = b} (Leaves-refl b) refl)
        | inl h ↦
            let start : Builder w = log w (download_start pkg) b in
            rw (h, ensure_remote_package)
              (report-Leaves pkg b (download w pkg start) (
                Leaves-trans (Leaves-told {b = b} (Leaves-refl b) refl)
                  (download-Leaves pkg start)))
      ]
