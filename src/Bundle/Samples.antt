-- ===== src/Bundle/Samples.antt =====
-- A builder in a small world, and the theorems about builders there.
use go_slug.Prelude.{
  false, ℕ, ◌≡◌, refl, sym, ◌⊎◌, inl, inr, ◌≤◌, arith, true, All, choose, member, subst, none, some,
  List, [], ◌∷◌, Text, codes, ok, err, ℕ_discrete, length,
}
use go_slug.Addrs.Types.{RemoteSource, Url, Packages}
use go_slug.Bundle.Types.{World, Request, add_local_source, RemotePackage-discrete}
use go_slug.Addrs.Types.{Source}
use go_slug.Addrs.Source.{resolve_relative_source}
use go_slug.Bundle.Builder.{Artifact, new_builder, Text-discrete, artifact_discrete}
use go_slug.Bundle.Resolve.{Work, Call, returned, panicked, unfinished, builder_add_remote_source}
use go_slug.Bundle.Measure.{Within, RequestWithin, Universe}
use go_slug.Bundle.Placed.{HasDir, OnDisk}
use go_slug.Bundle.Panics.{NeverPanics}
use go_slug.Bundle.Finish.{call-returns}
use go_slug.Bundle.Complete.{Met, IsReachable-Met}
use go_slug.Bundle.Once.{IsConsistent}
use go_slug.Bundle.Reach.{fresh, added, remote, call, IsReachable-IsConsistent}

abbrev example_url : Url
example_url = record {
  scheme = codes "https";
  opaque = [];
  user = none;
  host = codes "example.com";
  path = codes "/foo.git";
  raw_path = [];
  force_query = false;
  raw_query = [];
  fragment = [];
  raw_fragment = [];
}

abbrev example_root : RemoteSource
example_root = record {
  pkg = record { source_type = codes "git"; url = example_url };
  sub_path = [];
}

abbrev no_packages : Packages
no_packages = record {
  parse_url = λ _. none;
  url_string = λ u. u.path;
  escaped_path = λ u. u.path;
  query = λ _. [];
  parse_query = λ _. some [];
  encode = λ _. [];
  to_lower = λ s. s;
  ModulePackage = ℕ;
  module_package_discrete = ℕ_discrete;
  module_package_string = λ _. [];
  parse_module_source = λ _. none;
  Version = ℕ;
  version_discrete = ℕ_discrete;
  version_string = λ _. [];
  parse_version = λ _. none;
}

-- The root of each package asks for its directory "a" twice, and nothing else asks for anything.
abbrev finds : Text → List (Request ℕ ℕ ℕ)
finds [] =
    add_local_source (record { rel_path = codes "./a" }) 0
    ∷ add_local_source (record { rel_path = codes "./a" }) 0
    ∷ []
finds (c ∷ s) = []

abbrev pub small_world : World
small_world = record {
  packages = no_packages;
  VersionSet = ℕ;
  only = λ v. v;
  sort = λ l. l;
  newest_in_set = λ _ _. none;
  same = λ _ _. true;
  Finder = ℕ;
  finder_discrete = ℕ_discrete;
  Tree = ℕ;
  find_dependencies = λ _ _ sub_path. (finds sub_path, []);
  module_package_versions = λ _ _. err [];
  module_package_source_addr = λ _ _ _. err [];
  make_temp_dir = λ _. ok tt;
  fetch_source_package = λ _ _. ok (none, 1);
  prepare = λ _ t. ok t;
  hash_dir = λ _. ok (codes "h");
  remove_work_dir = λ _. ok tt;
  rename_work_dir = λ _. ok tt;
}

abbrev work_of : Call small_world → Work small_world
work_of (returned work) = work
work_of panicked = (new_builder small_world [], [])
work_of unfinished = (new_builder small_world [], [])

abbrev added_root : Call small_world
added_root = call small_world 5 (remote example_root 0) (new_builder small_world (codes "/b"))

-- Two artifacts were analyzed, and one package was downloaded.
root_analyzed : length (work_of added_root).0.analyzed ≡ 2
unfolding builder_add_remote_source new_builder Text-discrete RemotePackage-discrete
    artifact_discrete
root_analyzed = refl

IsReachable-IsConsistent_example : IsConsistent small_world (work_of added_root).0
unfolding builder_add_remote_source new_builder Text-discrete RemotePackage-discrete
    artifact_discrete
IsReachable-IsConsistent_example =
    IsReachable-IsConsistent small_world
      (added 5 (remote example_root 0) {work = work_of added_root} (fresh (codes "/b")) refl)

member_pair :
    {A : Type 0} (eq : Discrete A) (a x y : A) → member eq a (x ∷ y ∷ []) ≡ true → (a ≡ x) ⊎ (a ≡ y)
member_pair eq a x y h = go (eq a x) (eq a y) h
  where
    go :
        (d : Dec (a ≡ x)) (e : Dec (a ≡ y))
        → choose d true (choose e true (member eq a [])) ≡ true
        → (a ≡ x) ⊎ (a ≡ y)
    go (yes p) _ h = inl p
    go (no _) (yes q) h = inr q
    go (no _) (no _) h = cc h

abbrev root_artifact : Artifact small_world
root_artifact = record { source_addr = example_root; dep_finder = 0 }

abbrev nested_source : RemoteSource
nested_source = record example_root { sub_path = codes "a" }

abbrev nested_artifact : Artifact small_world
nested_artifact = record { source_addr = nested_source; dep_finder = 0 }

abbrev both : List (Artifact small_world)
both = root_artifact ∷ nested_artifact ∷ []

length-finds : (sub_path : Text) → length (finds sub_path) ≤ 2
length-finds [] = omega arith
length-finds (c ∷ s) = omega arith

nested-Within :
    (r : RemoteSource)
    → resolve_relative_source {M = ℕ}
        (Source.remote_source example_root)
        (Source.local_source (record { rel_path = codes "./a" }))
      ≡ ok (Source.remote_source r)
    → Within small_world both (record { source_addr = r; dep_finder = 0 })
unfolding resolve_relative_source artifact_discrete RemotePackage-discrete
nested-Within r h =
    let same : nested_source ≡ r = cc h in
    subst (λ s. Within small_world both (record { source_addr = s; dep_finder = 0 })) same refl

both_closed :
    (a : Artifact small_world)
    → Within small_world both a
    → All (RequestWithin small_world both a.source_addr) (finds a.source_addr.sub_path)
both_closed a h =
    elim (member_pair (artifact_discrete small_world) a root_artifact nested_artifact h) [
      | inl e ↦
          subst
            (λ x. All (RequestWithin small_world both x.source_addr) (finds x.source_addr.sub_path))
            (sym e) (nested-Within, (nested-Within, tt))
      | inr e ↦
          subst
            (λ x. All (RequestWithin small_world both x.source_addr) (finds x.source_addr.sub_path))
            (sym e) tt
    ]

abbrev small_universe : Universe small_world
small_universe = record {
  artifacts = both;
  most_requests = 2;
  bounded = λ a _ _. length-finds a.source_addr.sub_path;
  closed = λ a h _. both_closed a h;
}

small_world-safe : NeverPanics small_world
small_world-safe trace fetched h = cc h

call-returns_example :
    (work : Work small_world) × (call small_world 11
        (remote example_root 0)
        (new_builder small_world (codes "/b"))
      ≡ returned work)
unfolding new_builder artifact_discrete RemotePackage-discrete
call-returns_example =
    call-returns small_world small_world-safe small_universe (remote example_root 0)
      {b = new_builder small_world (codes "/b")} 11 {dir = codes "/b"} (fresh (codes "/b")) refl
      refl (omega arith)

IsReachable-Met_example :
    All
      (λ a.
        (dir : Text) × HasDir small_world (work_of added_root).0 a.source_addr.pkg dir
        × ((tree : ℕ) × OnDisk small_world (work_of added_root).0 dir tree
            × All
                (Met small_world (work_of added_root).0 a.source_addr)
                (finds a.source_addr.sub_path)))
      (work_of added_root).0.analyzed
unfolding builder_add_remote_source new_builder Text-discrete RemotePackage-discrete
    artifact_discrete
IsReachable-Met_example =
    IsReachable-Met small_world {b = (work_of added_root).0} {dir = codes "/b"}
      (added 5 (remote example_root 0) {work = work_of added_root} (fresh (codes "/b")) refl) refl
