-- ===== src/Bundle/Find.antt =====
-- What findRegistryPackageSource finds, and what it leaves alone.
use go_slug.Prelude.{
  lookup-entry, some, ◌≡◌, refl, ◌∙◌, inl, inr, List, Text, Result, ok, err, lookup, Option-cases,
  Result-cases, subst,
}
use go_slug.Addrs.Types.{RemoteSource, RegistrySource}
use go_slug.Addrs.Registry.{final_source_addr}
use go_slug.Bundle.Types.{World, ModulePackageInfo, package_source_start, package_versions_start}
use go_slug.Bundle.Builder.{Builder, PackageVersion, package_version_discrete, log}
use go_slug.Bundle.Registry.{
  final_addr, select_source, extract_version_list, available_versions, real_source,
  find_registry_package_source,
}
use go_slug.Bundle.Measure.{IsVersionsOf, IsSourceOf, IsAnswer, HasAnswers}

module _ (w : World) where
  open w use {Finder, VersionSet}
  open w.packages use {ModulePackage, module_package_discrete, Version}

  -- The queues and the analyzed artifacts are as they were; what is returned, and what is remembered,
  -- has the property.
  pub record Finds (Good : RemoteSource → Type 0) (b : Builder w)
      (m : Result Text RemoteSource × Builder w) : Type 0 where
    pub remote : m.1.pending_remote ≡ b.pending_remote
    pub registry : m.1.pending_registry ≡ b.pending_registry
    pub analyzed : m.1.analyzed ≡ b.analyzed
    pub answers : HasAnswers w b → HasAnswers w m.1
    pub good : HasAnswers w b → (real : RemoteSource) → m.0 ≡ ok real → Good real

  real_source-Finds :
      (pkg : ModulePackage) (v : Version) (infos : List (ModulePackageInfo Version)) (b : Builder w)
      → Finds (IsSourceOf w pkg v) b (real_source w pkg v infos b)
  unfolding real_source log
  real_source-Finds pkg v infos b =
      let key : PackageVersion w = record { pkg = pkg; version = v } in
      elim (Option-cases (lookup (package_version_discrete w) key b.resolved_registry)) [
        | inr (addr, h) ↦
            rw (h, real_source)
              (record {
                remote = refl;
                registry = refl;
                analyzed = refl;
                answers = λ a. a;
                good = λ a real e. subst (IsSourceOf w pkg v) (cc e) (
                    lookup-entry (package_version_discrete w) (λ k. IsSourceOf w k.pkg k.version)
                      key b.resolved_registry a.1 h);
              })
        | inl h ↦
            let start : Builder w = log w (package_source_start pkg v) b in
            elim (Result-cases (w.module_package_source_addr start.trace pkg v)) [
              | inr (e, k) ↦
                  rw (h, k, real_source)
                    (record {
                      remote = refl;
                      registry = refl;
                      analyzed = refl;
                      answers = λ a. a;
                      good = λ a real e. cc e;
                    })
              | inl (addr, k) ↦
                  let answer : IsSourceOf w pkg v addr = (start.trace, k) in
                  rw (h, k, real_source)
                    (record {
                      remote = refl;
                      registry = refl;
                      analyzed = refl;
                      answers = λ a. (a.0, (answer, a.1));
                      good = λ a real e. subst (IsSourceOf w pkg v) (cc e) answer;
                    })
            ]
      ]

  -- A source that the registry names for the address and the versions, with the sub-path of the
  -- address.
  abbrev pub IsFinal : RegistrySource ModulePackage → VersionSet → RemoteSource → Type 0
  IsFinal addr allowed r =
      (real : RemoteSource) × IsAnswer w addr.pkg allowed real × (r ≡ final_source_addr addr real)

  final_addr-Finds :
      (addr : RegistrySource ModulePackage) (allowed : VersionSet)
      (infos : List (ModulePackageInfo Version)) (v : Version) (b : Builder w)
      (m : Result Text RemoteSource × Builder w)
      → IsVersionsOf w addr.pkg infos
      → w.newest_in_set (extract_version_list w infos) allowed ≡ some v
      → Finds (IsSourceOf w addr.pkg v) b m
      → Finds (IsFinal addr allowed) b (final_addr w addr m)
  final_addr-Finds addr allowed infos v b (err e, c) listed newest h = record {
    remote = h.remote;
    registry = h.registry;
    analyzed = h.analyzed;
    answers = h.answers;
    good = λ a real e. cc e;
  }
  final_addr-Finds addr allowed infos v b (ok x, c) listed newest h = record {
    remote = h.remote;
    registry = h.registry;
    analyzed = h.analyzed;
    answers = h.answers;
    good = λ a real e. (x, (infos, v, listed, newest, h.good a x refl), cc e);
  }

  -- What is listed is the registry's, and so is what is remembered of it.
  record Lists (pkg : ModulePackage) (b : Builder w)
      (m : Result Text (List (ModulePackageInfo Version)) × Builder w) : Type 0 where
    remote : m.1.pending_remote ≡ b.pending_remote
    registry : m.1.pending_registry ≡ b.pending_registry
    analyzed : m.1.analyzed ≡ b.analyzed
    answers : HasAnswers w b → HasAnswers w m.1
    listed :
        HasAnswers w b
        → (infos : List (ModulePackageInfo Version)) → m.0 ≡ ok infos
        → IsVersionsOf w pkg infos

  available_versions-Lists :
      (pkg : ModulePackage) (b : Builder w) → Lists pkg b (available_versions w pkg b)
  unfolding available_versions log
  available_versions-Lists pkg b =
      elim (Option-cases (lookup module_package_discrete pkg b.registry_package_versions)) [
        | inr (infos, h) ↦
            rw (h, available_versions)
              (record {
                remote = refl;
                registry = refl;
                analyzed = refl;
                answers = λ a. a;
                listed = λ a found e. subst (IsVersionsOf w pkg) (cc e) (
                    lookup-entry module_package_discrete (IsVersionsOf w) pkg
                      b.registry_package_versions a.0 h);
              })
        | inl h ↦
            let start : Builder w = log w (package_versions_start pkg) b in
            elim (Result-cases (w.module_package_versions start.trace pkg)) [
              | inr (e, k) ↦
                  rw (h, k, available_versions)
                    (record {
                      remote = refl;
                      registry = refl;
                      analyzed = refl;
                      answers = λ a. a;
                      listed = λ a found e. cc e;
                    })
              | inl (infos, k) ↦
                  let answer : IsVersionsOf w pkg infos = (start.trace, k) in
                  rw (h, k, available_versions)
                    (record {
                      remote = refl;
                      registry = refl;
                      analyzed = refl;
                      answers = λ a. ((answer, a.0), a.1);
                      listed = λ a found e. subst (IsVersionsOf w pkg) (cc e) answer;
                    })
            ]
      ]

  select_source-Finds :
      (addr : RegistrySource ModulePackage) (allowed : VersionSet) (b : Builder w)
      (m : Result Text (List (ModulePackageInfo Version)) × Builder w)
      → HasAnswers w b
      → Lists addr.pkg b m
      → Finds (IsFinal addr allowed) b (select_source w addr allowed m)
  select_source-Finds addr allowed b (err e, c) a h = record {
    remote = h.remote;
    registry = h.registry;
    analyzed = h.analyzed;
    answers = h.answers;
    good = λ a real e. cc e;
  }
  select_source-Finds addr allowed b (ok infos, c) a h =
      elim (Option-cases (w.newest_in_set (extract_version_list w infos) allowed)) [
        | inl e ↦
            rw (e, select_source)
              (record {
                remote = h.remote;
                registry = h.registry;
                analyzed = h.analyzed;
                answers = h.answers;
                good = λ a real e. cc e;
              })
        | inr (v, e) ↦
            rw (e, select_source)
              (final_addr-Finds addr allowed infos v b (real_source w addr.pkg v infos c)
                (h.listed a infos refl) e (after_listing h (real_source-Finds addr.pkg v infos c)))
      ]
    where
      after_listing :
          {v : Version} {c : Builder w} {r : Result Text RemoteSource × Builder w}
          → Lists addr.pkg b (ok infos, c)
          → Finds (IsSourceOf w addr.pkg v) c r
          → Finds (IsSourceOf w addr.pkg v) b r
      after_listing h k = record {
        remote = k.remote ∙ h.remote;
        registry = k.registry ∙ h.registry;
        analyzed = k.analyzed ∙ h.analyzed;
        answers = λ a. k.answers (h.answers a);
        good = λ a. k.good (h.answers a);
      }

  pub find_registry_package_source-Finds :
      (addr : RegistrySource ModulePackage) (allowed : VersionSet) (b : Builder w)
      → HasAnswers w b
      → Finds (IsFinal addr allowed) b (find_registry_package_source w addr allowed b)
  unfolding find_registry_package_source
  find_registry_package_source-Finds addr allowed b a =
      select_source-Finds addr allowed b (available_versions w addr.pkg b) a
        (available_versions-Lists addr.pkg b)
