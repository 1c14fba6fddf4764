-- ===== src/Bundle/Frame.antt =====
-- What the steps of the builder leave alone: the artifacts that were analyzed, the directories of
-- packages, and the downloads that the build trace was told of.

use go_slug.Prelude.{
  ◌≡◌, refl, ◌∙◌, inl, inr, Option, none, some, List, [], ◌∷◌, arith, Text, Result, ok, err, lookup,
  insert, Option-cases, Result-cases, Assoc, ◌⊎◌,
}
use go_slug.Addrs.Types.{RemotePackage, RemoteSource, RegistrySource}
use go_slug.Bundle.Types.{
  Failure, failed, PackageMeta, World, Event, Request, Diagnostic, RemotePackage-discrete,
  download_success, add_remote_source, add_registry_source, add_local_source, ModulePackageInfo,
}
use go_slug.Bundle.Builder.{Builder, Pending, place_package, finish_package, download, with_meta}
use go_slug.Bundle.Registry.{
  final_addr, select_source, extract_version_list, available_versions, real_source,
  find_registry_package_source,
}
use go_slug.Bundle.Resolve.{
  Work, after_registry, resolve_registry, drain_registry, add_request, add_requests,
}

-- The packages that were downloaded, as the build trace was told.
abbrev pub downloads : {M V : Type 0} → List (Event M V) → List RemotePackage
downloads [] = []
downloads (download_success pkg ∷ trace) = pkg ∷ downloads trace
downloads (_ ∷ trace) = downloads trace

abbrev pub Knows : Assoc RemotePackage Text → RemotePackage → Type 0
Knows dirs pkg = (dir : Text) × (lookup RemotePackage-discrete pkg dirs ≡ some dir)

module _ (w : World) where
  open w use {Finder}
  open w.packages use {ModulePackage, Version}

  -- What the invariant speaks of is as it was.
  pub record SameCore (b c : Builder w) : Type 0 where
    pub analyzed : c.analyzed ≡ b.analyzed
    pub dirs : c.remote_package_dirs ≡ b.remote_package_dirs
    pub downloaded : downloads c.trace ≡ downloads b.trace
    pub disk : c.disk ≡ b.disk

  available_versions-SameCore :
      (pkg : ModulePackage) (b : Builder w) → SameCore b (available_versions w pkg b).1
  unfolding available_versions
  available_versions-SameCore pkg b = record {
    analyzed = ground arith;
    dirs = ground arith;
    downloaded = ground arith;
    disk = ground arith;
  }

  pub SameCore-trans : {b c d : Builder w} → SameCore b c → SameCore c d → SameCore b d
  SameCore-trans h k = record {
    analyzed = k.analyzed ∙ h.analyzed;
    dirs = k.dirs ∙ h.dirs;
    downloaded = k.downloaded ∙ h.downloaded;
    disk = k.disk ∙ h.disk;
  }

  real_source-SameCore :
      (pkg : ModulePackage) (v : Version) (infos : List (ModulePackageInfo Version)) (b : Builder w)
      → SameCore b (real_source w pkg v infos b).1
  unfolding real_source
  real_source-SameCore pkg v infos b = record {
    analyzed = ground arith;
    dirs = ground arith;
    downloaded = ground arith;
    disk = ground arith;
  }

  final_addr-SameCore :
      (addr : RegistrySource ModulePackage) (b : Builder w)
      (m : Result Text RemoteSource × Builder w)
      → SameCore b m.1
      → SameCore b (final_addr w addr m).1
  final_addr-SameCore addr b (ok real, c) h = h
  final_addr-SameCore addr b (err e, c) h = h

  select_source-SameCore :
      (addr : RegistrySource ModulePackage) (allowed : w.VersionSet) (b : Builder w)
      (m : Result Text (List (ModulePackageInfo Version)) × Builder w)
      → SameCore b m.1
      → SameCore b (select_source w addr allowed m).1
  select_source-SameCore addr allowed b (err e, c) h = h
  select_source-SameCore addr allowed b (ok infos, c) h =
      elim (Option-cases (w.newest_in_set (extract_version_list w infos) allowed)) [
        | inl e ↦ rw (e, select_source) h
        | inr (v, e) ↦
            rw (e, select_source)
              (final_addr-SameCore addr b (real_source w addr.pkg v infos c)
                (SameCore-trans h (real_source-SameCore addr.pkg v infos c)))
      ]

  pub find_registry_package_source-SameCore :
      (addr : RegistrySource ModulePackage) (allowed : w.VersionSet) (b : Builder w)
      → SameCore b (find_registry_package_source w addr allowed b).1
  unfolding find_registry_package_source
  find_registry_package_source-SameCore addr allowed b =
      select_source-SameCore addr allowed b (available_versions w addr.pkg b)
        (available_versions-SameCore addr.pkg b)

  after_registry-SameCore :
      (finder : Finder) (diags : List Diagnostic) (b : Builder w)
      (m : Result Text RemoteSource × Builder w)
      → SameCore b m.1
      → SameCore b (after_registry w finder diags m).0
  after_registry-SameCore finder diags b (ok real, c) h = record {
    analyzed = h.analyzed;
    dirs = h.dirs;
    downloaded = h.downloaded;
    disk = h.disk;
  }
  after_registry-SameCore finder diags b (err e, c) h = h

  pub drain_registry-SameCore :
      (items : List (Pending w)) (b : Builder w) (diags : List Diagnostic)
      → SameCore b (drain_registry w items (b, diags)).0
  unfolding drain_registry resolve_registry
  drain_registry-SameCore [] b diags = record {
    analyzed = refl;
    dirs = refl;
    downloaded = refl;
    disk = refl;
  }
  drain_registry-SameCore (next ∷ remain) b diags =
      let c : Builder w = record b { pending_registry = remain } in
      let start : SameCore b c = record {
        analyzed = refl;
        dirs = refl;
        downloaded = refl;
        disk = refl;
      } in
      let work = resolve_registry w next (c, diags) in
      SameCore-trans start (
        SameCore-trans
          (after_registry-SameCore next.dep_finder diags c _
            (find_registry_package_source-SameCore next.source_addr next.versions c))
          (drain_registry-SameCore remain work.0 work.1))

  add_request-SameCore :
      (base : RemoteSource) (r : Request ModulePackage w.VersionSet Finder) (work : Work w)
      → SameCore work.0 (add_request w base r work).0
  unfolding add_request
  add_request-SameCore base (add_remote_source s f) work = record {
    analyzed = refl;
    dirs = refl;
    downloaded = refl;
    disk = refl;
  }
  add_request-SameCore base (add_registry_source s vs f) work = record {
    analyzed = refl;
    dirs = refl;
    downloaded = refl;
    disk = refl;
  }
  add_request-SameCore base (add_local_source s f) work = record {
    analyzed = ground arith;
    dirs = ground arith;
    downloaded = ground arith;
    disk = ground arith;
  }

  pub add_requests-SameCore :
      (base : RemoteSource) (rs : List (Request ModulePackage w.VersionSet Finder)) (work : Work w)
      → SameCore work.0 (add_requests w base rs work).0
  unfolding add_requests
  add_requests-SameCore base [] work = record {
    analyzed = refl;
    dirs = refl;
    downloaded = refl;
    disk = refl;
  }
  add_requests-SameCore base (r ∷ rs) work =
      SameCore-trans (add_request-SameCore base r work)
        (add_requests-SameCore base rs (add_request w base r work))

  -- A download changes, of what the invariant speaks of, at most the directory of its package; where
  -- it goes well it notes that directory.
  pub record Fetches (pkg : RemotePackage) (b : Builder w) (m : Result Failure Text × Builder w)
      : Type 0 where
    pub analyzed : m.1.analyzed ≡ b.analyzed
    pub trace : m.1.trace ≡ b.trace
    pub dirs :
        (m.1.remote_package_dirs ≡ b.remote_package_dirs)
        ⊎ ((dir : Text) × (m.1.remote_package_dirs ≡ (pkg, dir) ∷ b.remote_package_dirs))
    pub noted :
        (dir : Text)
        → m.0 ≡ ok dir
        → (d : Text) × (m.1.remote_package_dirs ≡ (pkg, d) ∷ b.remote_package_dirs)

  module _ (pkg : RemotePackage) where
    Fetches-failed : (e : Failure) (b : Builder w) → Fetches pkg b (err e, b)
    Fetches-failed e b = record {
      analyzed = refl;
      trace = refl;
      dirs = inl refl;
      noted = λ dir k. cc k;
    }

    place_package-same :
        (dir : Text) (tree : w.Tree) (b : Builder w)
        → ((place_package w dir tree b).1.analyzed ≡ b.analyzed)
          × ((place_package w dir tree b).1.trace ≡ b.trace)
          × ((place_package w dir tree b).1.remote_package_dirs ≡ b.remote_package_dirs)
    unfolding place_package
    place_package-same dir tree b = (ground arith, ground arith, ground arith)

    finish_package-Fetches :
        (fetched : w.Tree) (b : Builder w) → Fetches pkg b (finish_package w pkg fetched b)
    unfolding finish_package
    finish_package-Fetches fetched b = elim (Result-cases (w.prepare b.trace fetched)) [
      | inr (e, h) ↦ rw (h, finish_package) (Fetches-failed e b)
      | inl (tree, h) ↦ elim (Result-cases (w.hash_dir tree)) [
        | inr (e, k) ↦ rw (h, k, finish_package) (Fetches-failed (failed e) b)
        | inl (dir, k) ↦
            let c : Builder w = record b {
              remote_package_dirs = insert RemotePackage-discrete pkg dir b.remote_package_dirs;
            } in
            let (x, y, z) = place_package-same dir tree c in
            rw (h, k, finish_package)
              (record { analyzed = x; trace = y; dirs = inr (dir, z); noted = λ _ _. (dir, z) })
      ]
    ]

    Fetches-with_meta :
        (meta : Option PackageMeta) (b : Builder w) (m : Result Failure Text × Builder w)
        → Fetches pkg (with_meta w pkg meta b) m
        → Fetches pkg b m
    Fetches-with_meta none b m h = h
    Fetches-with_meta (some x) b m h = record {
      analyzed = h.analyzed;
      trace = h.trace;
      dirs = h.dirs;
      noted = h.noted;
    }

    pub download-Fetches : (b : Builder w) → Fetches pkg b (download w pkg b)
    unfolding download
    download-Fetches b = elim (Result-cases (w.make_temp_dir b.trace)) [
      | inr (e, h) ↦ rw (h, download) (Fetches-failed (failed e) b)
      | inl (u, h) ↦ elim (Result-cases (w.fetch_source_package b.trace pkg)) [
        | inr (e, k) ↦ rw (h, k, download) (Fetches-failed (failed e) b)
        | inl ((meta, tree), k) ↦
            rw (h, k, download)
              (Fetches-with_meta meta b _ (finish_package-Fetches tree (with_meta w pkg meta b)))
      ]
    ]
