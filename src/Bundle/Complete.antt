-- ===== src/Bundle/Complete.antt =====
-- A source bundle in progress is complete, as long as its builder is open.

use go_slug.Prelude.{
  In, ℕ, ◌≡◌, refl, sym, ap, ◌∙◌, ok, inl, inr, false, some, [], Text, All, All-map, subst, member,
  Option-cases, Bool-cases,
}
use go_slug.Addrs.Types.{RemoteSource, RegistrySource, Source}
use go_slug.Addrs.Registry.{final_source_addr}
use go_slug.Addrs.Source.{resolve_relative_source}
use go_slug.Bundle.Types.{
  World, Request, add_remote_source, add_registry_source, add_local_source, has_errors,
}
use go_slug.Bundle.Builder.{Builder, Artifact, Pending, artifact_discrete, new_builder}
use go_slug.Bundle.Resolve.{
  Work, close_on_error, drain_registry, resolve_pending, returned, queue_remote, queue_registry,
  builder_add_remote_source, builder_add_registry_source, builder_add_final_registry_source,
}
use go_slug.Bundle.Measure.{IsAnswer, HasAnswers}
use go_slug.Bundle.Idle.{IsIdle}
use go_slug.Bundle.Drain.{drain_registry-HasAnswers}
use go_slug.Bundle.Reach.{Add, remote, registry, final_registry, call, IsReachable, fresh, added}
use go_slug.Bundle.Finish.{IsReachable-IsIdle}
use go_slug.Bundle.Frame.{drain_registry-SameCore}
use go_slug.Bundle.Grown.{Has, Handled, Grows, Grows-parts, Has-push, drain_registry-Clean}
use go_slug.Bundle.Covered.{Covered, Keeps-same, resolve_loop-Covered}
use go_slug.Bundle.Placed.{HasDir, OnDisk, Stays-same}
use go_slug.Bundle.Panics.{resolve_pending-returned}

module _ (w : World) where
  open w use {Finder, VersionSet, find_dependencies}
  open w.packages use {ModulePackage, Version}

  abbrev pub Analyzed : Builder w → RemoteSource → Finder → Type 0
  Analyzed b addr finder = In (record { source_addr = addr; dep_finder = finder }) b.analyzed

  -- The artifact that a request comes to was analyzed. A request for a registry source comes to the
  -- source that the registry named for the newest of the versions in the set that it listed for the
  -- package, with the sub-path of the request.
  abbrev pub Met : Builder w → RemoteSource → Request ModulePackage VersionSet Finder → Type 0
  Met b base (add_remote_source s finder) = Analyzed b s finder
  Met b base (add_registry_source s allowed finder) =
      (real : RemoteSource) × IsAnswer w s.pkg allowed real
      × Analyzed b (final_source_addr s real) finder
  Met b base (add_local_source s finder) =
      (r : RemoteSource) × (resolve_relative_source {M = ModulePackage} (Source.remote_source base)
          (Source.local_source s)
        ≡ ok (Source.remote_source r))
      × Analyzed b r finder

  analyzed_of :
      (b : Builder w) (a : Artifact w) → b.pending_remote ≡ [] → Has w b a → In a b.analyzed
  analyzed_of b a e (inl h) = h
  analyzed_of b a e (inr h) = absurd (subst (In a) e h)

  Handled-Met :
      (b : Builder w)
      → IsIdle w b
      → (base : RemoteSource) (r : Request ModulePackage VersionSet Finder) → Handled w b base r
      → Met b base r
  Handled-Met b v base (add_remote_source s f) h = analyzed_of b _ v.remote h
  Handled-Met b v base (add_local_source s f) (r, e, h) = (r, e, analyzed_of b _ v.remote h)
  Handled-Met b v base (add_registry_source s allowed f) (inl h) =
      absurd (subst (In _) v.registry h)
  Handled-Met b v base (add_registry_source s allowed f) (inr (real, answer, h)) =
      (real, answer, analyzed_of b _ v.remote h)

  Clean-close :
      (done : Work w) {dir : Text}
      → (close_on_error w done).0.target_dir ≡ some dir
      → (has_errors done.1 ≡ false) × (close_on_error w done ≡ done)
  Clean-close (b, diags) h = elim (Bool-cases (has_errors diags)) [
    | inl e ↦ cc (rw e at h)
    | inr e ↦ (e, rw e refl)
  ]

  finished-Covered :
      (fuel : ℕ) (b : Builder w) {work : Work w} {dir : Text}
      → HasAnswers w b
      → Covered w b
      → resolve_pending w fuel b ≡ returned work
      → work.0.target_dir ≡ some dir
      → Covered w work.0
  finished-Covered fuel b {work} a v h t =
      let start = drain_registry w b.pending_registry (b, []) in
      let (done, e, same) = resolve_pending-returned w fuel b h in
      let (clean, kept) = Clean-close done (ap (λ x. x.0.target_dir) same ∙ t) in
      let (mid, rest, covers) =
        resolve_loop-Covered w fuel start (drain_registry-HasAnswers w b.pending_registry (b, []) a)
          e clean in
      let g = (drain_registry-Clean w b.pending_registry b [] refl a mid).1 in
      let core = (drain_registry-SameCore w b.pending_registry b []).analyzed in
      subst (λ x. Covered w x.0) (sym kept ∙ same) (covers (Keeps-same w b start.0 core b refl g v))

  add_registry-Covered :
      (fuel : ℕ) (addr : RegistrySource ModulePackage) (allowed : VersionSet) (finder : Finder)
      (b : Builder w) {work : Work w} {dir : Text}
      → HasAnswers w b
      → ((d : Text) → b.target_dir ≡ some d → Covered w b)
      → builder_add_registry_source w fuel addr allowed finder b ≡ returned work
      → work.0.target_dir ≡ some dir
      → Covered w work.0
  unfolding builder_add_registry_source
  add_registry-Covered fuel addr allowed finder b a v h t = elim (Option-cases b.target_dir) [
    | inl e ↦ cc (rw (e, builder_add_registry_source) at h)
    | inr (d, e) ↦
        let p : Pending w = record {
          source_addr = addr;
          versions = allowed;
          dep_finder = finder;
        } in
        let g : Grows w b (queue_registry w p b) =
          Grows-parts w (Stays-same w refl refl) (λ x k. k) (λ q k. inl (inr k)) in
        finished-Covered fuel (queue_registry w p b) a
          (Keeps-same w b (queue_registry w p b) refl b refl g (v d e))
          (rw (e, builder_add_registry_source) at h) t
  ]

  call-Covered :
      (fuel : ℕ) (add : Add w) (b : Builder w) {work : Work w} {dir : Text}
      → HasAnswers w b
      → ((d : Text) → b.target_dir ≡ some d → Covered w b)
      → call w fuel add b ≡ returned work
      → work.0.target_dir ≡ some dir
      → Covered w work.0
  unfolding builder_add_remote_source builder_add_final_registry_source
  call-Covered fuel (registry addr allowed finder) b a v h t =
      add_registry-Covered fuel addr allowed finder b a v h t
  call-Covered fuel (final_registry addr finder) b a v h t =
      add_registry-Covered fuel addr.src (w.only addr.version) finder b a v h t
  call-Covered fuel (remote addr finder) b {work} a v h t = elim (Option-cases b.target_dir) [
    | inl e ↦ cc (rw (e, builder_add_remote_source) at h)
    | inr (d, e) ↦
        let x : Artifact w = record { source_addr = addr; dep_finder = finder } in
        elim (Bool-cases (member (artifact_discrete w) x b.analyzed)) [
          | inl k ↦
              let same : (b, []) ≡ work = cc (rw (e, k, builder_add_remote_source) at h) in
              subst (λ y. Covered w y.0) same (v d e)
          | inr k ↦
              let g : Grows w b (queue_remote w x b) =
                Grows-parts w (Stays-same w refl refl) (Has-push w b x) (λ q k. inl k) in
              finished-Covered fuel (queue_remote w x b) a
                (Keeps-same w b (queue_remote w x b) refl b refl g (v d e))
                (rw (e, k, builder_add_remote_source) at h) t
        ]
  ]

  IsReachable-Covered :
      {b : Builder w} → IsReachable w b → (dir : Text) → b.target_dir ≡ some dir → Covered w b
  unfolding new_builder
  IsReachable-Covered (fresh d) dir t = (λ pkg found h. cc h, tt)
  IsReachable-Covered (added fuel add {b} r h) dir t =
      call-Covered fuel add b (IsReachable-IsIdle w r).answers (IsReachable-Covered r) h t

  -- In every builder that calls lead to and that is open, each analyzed artifact's package has a
  -- directory that is noted for it and that is in the target directory, and each request that the
  -- artifact's dependency finder makes for what is there was met. For a remote source, and for a
  -- local one resolved against that of the artifact, the artifact with that source and the finder
  -- of the request was analyzed. For a registry source the artifact that was analyzed has the
  -- source that the registry gave, at some time, for the version that is the newest in the
  -- request's set of those that the registry listed, at some time, for the package, combined with
  -- the sub-path of the request.
  pub IsReachable-Met :
      {b : Builder w} {dir : Text}
      → IsReachable w b
      → b.target_dir ≡ some dir
      → All
          (λ a.
            (package_dir : Text) × HasDir w b a.source_addr.pkg package_dir
            × ((tree : w.Tree) × OnDisk w b package_dir tree
                × All
                    (Met b a.source_addr)
                    (find_dependencies a.dep_finder (some tree) a.source_addr.sub_path).0))
          b.analyzed
  IsReachable-Met {b} {dir} r t =
      let v = IsReachable-IsIdle w r in
      All-map _ _ b.analyzed
        (λ a h.
          let (package_dir, noted, (tree, there, handled)) = h in
          (
            package_dir,
            noted,
            (tree, there, All-map _ _ _ (λ q k. Handled-Met b v a.source_addr q k) handled),
          ))
        (IsReachable-Covered r dir t).1
