-- ===== src/Bundle/Measure.antt =====
-- What bounds the work of resolvePending: the artifacts that dependency finders can ask for, and a
-- number that each round makes smaller.
use go_slug.Prelude.{
  ℕ, suc, ◌≡◌, refl, sym, ap, Bool, true, false, Option, some, List, [], ◌∷◌, arith, ok, All,
  member, choose, length, ◌+◌, ◌*◌, ◌≤◌, ◌∙◌,
}
use go_slug.Addrs.Types.{RemoteSource, Source}
use go_slug.Addrs.Registry.{final_source_addr}
use go_slug.Addrs.Source.{resolve_relative_source}
use go_slug.Bundle.Types.{
  World, Event, Request, ModulePackageInfo, add_remote_source, add_registry_source,
  add_local_source,
}
use go_slug.Bundle.Builder.{Builder, Artifact, Pending, artifact_discrete}
use go_slug.Bundle.Registry.{extract_version_list}

module _ {A : Type 0} (eq : Discrete A) (weight : ℕ) where
  abbrev cost : Bool → ℕ
  cost true = 0
  cost false = weight

  -- The weight of each element of the first list that is not in the second.
  abbrev pub missing : List A → List A → ℕ
  missing [] found = 0
  missing (x ∷ xs) found = cost (member eq x found) + missing xs found

  cost-choose :
      (a x : A) (found : List A) → cost (member eq x (a ∷ found)) ≤ cost (member eq x found)
  cost-choose a x found = go (eq x a)
    where
      go :
          {P : Type 0} (d : Dec P)
          → cost (choose d true (member eq x found)) ≤ cost (member eq x found)
      go (yes _) = omega arith
      go (no _) = omega arith

  pub missing-more : (a : A) (xs found : List A) → missing xs (a ∷ found) ≤ missing xs found
  missing-more a [] found = omega arith
  missing-more a (x ∷ xs) found = omega (arith, cost-choose a x found, missing-more a xs found)

  cost_self : (a : A) (found : List A) → cost (member eq a (a ∷ found)) ≡ 0
  cost_self a found = go (eq a a)
    where
      go : (d : Dec (a ≡ a)) → cost (choose d true (member eq a found)) ≡ 0
      go (yes _) = refl
      go (no n) = absurd (n refl)

  pub missing-found :
      (a : A) (xs found : List A)
      → member eq a xs ≡ true
      → member eq a found ≡ false
      → missing xs (a ∷ found) + weight ≤ missing xs found
  missing-found a [] found h k = cc h
  missing-found a (x ∷ xs) found h k = go (eq a x) h (missing-found a xs found)
    where
      go :
          (d : Dec (a ≡ x))
          → choose d true (member eq a xs) ≡ true
          → (member eq a xs ≡ true
              → member eq a found ≡ false
              → missing xs (a ∷ found) + weight ≤ missing xs found)
          → missing (x ∷ xs) (a ∷ found) + weight ≤ missing (x ∷ xs) found
      go (no _) h rest = omega (arith, cost-choose a x found, rest h k)
      go (yes e) _ _ =
          let now : cost (member eq x (a ∷ found)) ≡ 0 =
            sym (ap (λ y. cost (member eq y (a ∷ found))) e) ∙ cost_self a found in
          let before : cost (member eq x found) ≡ weight =
            sym (ap (λ y. cost (member eq y found)) e) ∙ ap cost k in
          omega (arith, now, before, missing-more a xs found)

  pub missing-le : (xs found : List A) → missing xs found ≤ length xs * weight
  missing-le [] found = omega arith
  missing-le (x ∷ xs) found = go (member eq x found) (missing-le xs found)
    where
      go :
          (b : Bool)
          → missing xs found ≤ length xs * weight
          → cost b + missing xs found ≤ suc (length xs) * weight
      go true h = grind (arith, h)
      go false h = grind (arith, h)

module _ (w : World) where
  open w use {
    VersionSet, Finder, Tree, newest_in_set, module_package_versions, module_package_source_addr,
    find_dependencies,
  }
  open w.packages use {ModulePackage, Version}

  -- The registry can list these versions of the package.
  abbrev pub IsVersionsOf : ModulePackage → List (ModulePackageInfo Version) → Type 0
  IsVersionsOf pkg infos =
      (trace : List (Event ModulePackage Version)) × (module_package_versions trace pkg ≡ ok infos)

  -- The registry can name this source for the version of the package.
  abbrev pub IsSourceOf : ModulePackage → Version → RemoteSource → Type 0
  IsSourceOf pkg v real =
      (trace : List (Event ModulePackage Version)) × (module_package_source_addr trace pkg v
        ≡ ok real)

  -- The registry can list versions of the package of which the newest in the set is one for which it
  -- can name this source.
  abbrev pub IsAnswer : ModulePackage → VersionSet → RemoteSource → Type 0
  IsAnswer pkg allowed real =
      (infos : List (ModulePackageInfo Version)) × (v : Version) × IsVersionsOf pkg infos
      × (newest_in_set (extract_version_list w infos) allowed ≡ some v)
      × IsSourceOf pkg v real

  abbrev pub Within : List (Artifact w) → Artifact w → Type 0
  Within artifacts a = member (artifact_discrete w) a artifacts ≡ true

  -- Whatever real source the registry names for its package and its versions, the artifact is in the
  -- list.
  abbrev pub PendingWithin : List (Artifact w) → Pending w → Type 0
  PendingWithin artifacts p =
      (real : RemoteSource)
      → IsAnswer p.source_addr.pkg p.versions real
      → Within artifacts
          (record { source_addr = final_source_addr p.source_addr real; dep_finder = p.dep_finder })

  abbrev pub RequestWithin :
      List (Artifact w) → RemoteSource → Request ModulePackage VersionSet Finder → Type 0
  RequestWithin artifacts base (add_remote_source s finder) =
      Within artifacts (record { source_addr = s; dep_finder = finder })
  RequestWithin artifacts base (add_registry_source s allowed finder) =
      PendingWithin artifacts (record { source_addr = s; versions = allowed; dep_finder = finder })
  RequestWithin artifacts base (add_local_source s finder) =
      (r : RemoteSource)
      → resolve_relative_source {M = ModulePackage} (Source.remote_source base)
          (Source.local_source s)
        ≡ ok (Source.remote_source r)
      → Within artifacts (record { source_addr = r; dep_finder = finder })

  -- Finitely many artifacts such that what a dependency finder asks for on behalf of one of them,
  -- whatever its package holds, is one of them again, and how many requests it makes at most.
  pub record Universe : Type 0 where
    pub artifacts : List (Artifact w)
    pub most_requests : ℕ
    pub bounded :
        (a : Artifact w)
        → Within artifacts a
        → (tree : Option Tree)
        → length (find_dependencies a.dep_finder tree a.source_addr.sub_path).0 ≤ most_requests
    pub closed :
        (a : Artifact w)
        → Within artifacts a
        → (tree : Option Tree)
        → All
            (RequestWithin artifacts a.source_addr)
            (find_dependencies a.dep_finder tree a.source_addr.sub_path).0

  -- Everything that is queued is in the universe.
  pub record IsBounded (u : Universe) (b : Builder w) : Type 0 where
    pub remote : All (Within u.artifacts) b.pending_remote
    pub registry : All (PendingWithin u.artifacts) b.pending_registry

  -- The versions and the sources that the builder remembers are the registry's.
  abbrev pub HasAnswers : Builder w → Type 0
  HasAnswers b =
      All (λ e. IsVersionsOf e.0 e.1) b.registry_package_versions
      × All (λ e. IsSourceOf e.0.pkg e.0.version e.1) b.resolved_registry

  abbrev pub queued : Builder w → ℕ
  queued b = 2 * length b.pending_registry + length b.pending_remote

  -- The work that is left, at most.
  abbrev pub load : Universe → Builder w → ℕ
  load u b = missing (artifact_discrete w) (2 * u.most_requests) u.artifacts b.analyzed + queued b
