-- ===== src/Bundle/Reach.antt =====
-- The builders that a program can have: a new one, and what the methods that add sources leave.

use go_slug.Prelude.{ℕ, ◌≡◌, refl, inl, inr, [], Text, member, Option-cases, Bool-cases, subst}
use go_slug.Addrs.Types.{RemoteSource, RegistrySource, RegistrySourceFinal}
use go_slug.Bundle.Types.{World, has_errors}
use go_slug.Bundle.Builder.{Builder, Artifact, Pending, artifact_discrete, new_builder}
use go_slug.Bundle.Resolve.{
  Work, close_on_error, resolve_pending, Call, returned, queue_remote, queue_registry,
  builder_add_remote_source, builder_add_registry_source, builder_add_final_registry_source,
}
use go_slug.Bundle.Frame.{drain_registry-SameCore}
use go_slug.Bundle.Once.{
  IsConsistent, IsConsistent-frame, SameCore-IsConsistent, resolve_loop-IsConsistent,
}
use go_slug.Bundle.Panics.{resolve_pending-returned}

module _ (w : World) where
  open w use {VersionSet, Finder}
  open w.packages use {ModulePackage, Version}

  -- One call of a method that adds a source.
  pub data Add : Type 0 where
    remote : RemoteSource → Finder → Add
    registry : RegistrySource ModulePackage → VersionSet → Finder → Add
    final_registry : RegistrySourceFinal ModulePackage Version → Finder → Add

  abbrev pub call : ℕ → Add → Builder w → Call w
  call fuel (remote addr finder) b = builder_add_remote_source w fuel addr finder b
  call fuel (registry addr allowed finder) b =
      builder_add_registry_source w fuel addr allowed finder b
  call fuel (final_registry addr finder) b = builder_add_final_registry_source w fuel addr finder b

  -- The builders that calls lead to.
  pub data IsReachable : Builder w → Type 0 where
    fresh : (dir : Text) → IsReachable (new_builder w dir)
    added :
        (fuel : ℕ) (add : Add) {b : Builder w} {work : Work w}
        → IsReachable b
        → call fuel add b ≡ returned work
        → IsReachable work.0

  close_on_error-IsConsistent :
      (work : Work w) → IsConsistent w work.0 → IsConsistent w (close_on_error w work).0
  close_on_error-IsConsistent (b, diags) v = elim (Bool-cases (has_errors diags)) [
    | inl e ↦ rw e (IsConsistent-frame w refl refl refl v)
    | inr e ↦ rw e v
  ]

  finished-IsConsistent :
      (fuel : ℕ) (b : Builder w) {work : Work w}
      → IsConsistent w b
      → resolve_pending w fuel b ≡ returned work
      → IsConsistent w work.0
  finished-IsConsistent fuel b v h =
      let (done, e, same) = resolve_pending-returned w fuel b h in
      let start = SameCore-IsConsistent w (drain_registry-SameCore w b.pending_registry b []) v in
      subst (λ x. IsConsistent w x.0) same
        (close_on_error-IsConsistent done (resolve_loop-IsConsistent w fuel _ start e))

  add_registry-IsConsistent :
      (fuel : ℕ) (addr : RegistrySource ModulePackage) (allowed : VersionSet) (finder : Finder)
      (b : Builder w) {work : Work w}
      → IsConsistent w b
      → builder_add_registry_source w fuel addr allowed finder b ≡ returned work
      → IsConsistent w work.0
  unfolding builder_add_registry_source
  add_registry-IsConsistent fuel addr allowed finder b v h = elim (Option-cases b.target_dir) [
    | inl e ↦ cc (rw (e, builder_add_registry_source) at h)
    | inr (dir, e) ↦
        let p : Pending w = record {
          source_addr = addr;
          versions = allowed;
          dep_finder = finder;
        } in
        finished-IsConsistent fuel (queue_registry w p b) (IsConsistent-frame w refl refl refl v)
          (rw (e, builder_add_registry_source) at h)
  ]

  call-IsConsistent :
      (fuel : ℕ) (add : Add) (b : Builder w) {work : Work w}
      → IsConsistent w b
      → call fuel add b ≡ returned work
      → IsConsistent w work.0
  unfolding builder_add_remote_source builder_add_final_registry_source
  call-IsConsistent fuel (registry addr allowed finder) b v h =
      add_registry-IsConsistent fuel addr allowed finder b v h
  call-IsConsistent fuel (final_registry addr finder) b v h =
      add_registry-IsConsistent fuel addr.src (w.only addr.version) finder b v h
  call-IsConsistent fuel (remote addr finder) b {work} v h = elim (Option-cases b.target_dir) [
    | inl e ↦ cc (rw (e, builder_add_remote_source) at h)
    | inr (dir, e) ↦
        let a : Artifact w = record { source_addr = addr; dep_finder = finder } in
        elim (Bool-cases (member (artifact_discrete w) a b.analyzed)) [
          | inl k ↦
              let same : (b, []) ≡ work = cc (rw (e, k, builder_add_remote_source) at h) in
              subst (λ x. IsConsistent w x.0) same v
          | inr k ↦
              finished-IsConsistent fuel (queue_remote w a b)
                (IsConsistent-frame w refl refl refl v) (rw (e, k, builder_add_remote_source) at h)
        ]
  ]

  -- In every builder that calls lead to, no artifact was analyzed twice, no package was downloaded
  -- twice, and of each package that was downloaded or of which an artifact was analyzed the directory's
  -- name is noted.
  pub IsReachable-IsConsistent : {b : Builder w} → IsReachable b → IsConsistent w b
  unfolding new_builder
  IsReachable-IsConsistent (fresh dir) = record {
    analyzed_once = tt;
    analyzed_known = tt;
    downloaded_once = tt;
    downloaded_known = tt;
  }
  IsReachable-IsConsistent (added fuel add {b} r h) =
      call-IsConsistent fuel add b (IsReachable-IsConsistent r) h
