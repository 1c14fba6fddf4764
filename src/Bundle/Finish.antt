-- ===== src/Bundle/Finish.antt =====
-- The methods that add sources return.

use go_slug.Prelude.{
  ℕ, ◌+◌, ◌*◌, ◌<◌, ◌≡◌, refl, ap, inl, inr, false, some, [], arith, Text, length, member, subst,
  Option-cases, Bool-cases,
}
use go_slug.Addrs.Types.{RemoteSource, RegistrySource}
use go_slug.Bundle.Types.{World, has_errors}
use go_slug.Bundle.Builder.{Builder, Artifact, Pending, artifact_discrete, new_builder}
use go_slug.Bundle.Resolve.{
  Work, close_on_error, drain_registry, resolve_pending, Call, returned, close_after, queue_remote,
  queue_registry, builder_add_remote_source, builder_add_registry_source,
  builder_add_final_registry_source,
}
use go_slug.Bundle.Measure.{
  Within, PendingWithin, Universe, IsBounded, HasAnswers, load, missing-le,
}
use go_slug.Bundle.Idle.{IsIdle, resolve_loop-IsIdle}
use go_slug.Bundle.Drain.{drain_registry-HasAnswers, drain_registry-Drains}
use go_slug.Bundle.Progress.{resolve_loop-Ends}
use go_slug.Bundle.Reach.{Add, remote, registry, final_registry, call, IsReachable, fresh, added}
use go_slug.Bundle.Panics.{NeverPanics, resolve_pending-returned}

module _ (w : World) where
  open w use {VersionSet, Finder}
  open w.packages use {ModulePackage, Version}

  close_on_error-IsIdle : (work : Work w) → IsIdle w work.0 → IsIdle w (close_on_error w work).0
  close_on_error-IsIdle (b, diags) v = elim (Bool-cases (has_errors diags)) [
    | inl e ↦ rw e (record { remote = v.remote; registry = v.registry; answers = v.answers })
    | inr e ↦ rw e v
  ]

  finished-IsIdle :
      (fuel : ℕ) (b : Builder w) {work : Work w}
      → HasAnswers w b
      → resolve_pending w fuel b ≡ returned work
      → IsIdle w work.0
  finished-IsIdle fuel b a h =
      let (done, e, same) = resolve_pending-returned w fuel b h in
      let start = drain_registry-HasAnswers w b.pending_registry (b, []) a in
      subst (λ x. IsIdle w x.0) same
        (close_on_error-IsIdle done (resolve_loop-IsIdle w fuel _ start e))

  add_registry-IsIdle :
      (fuel : ℕ) (addr : RegistrySource ModulePackage) (allowed : VersionSet) (finder : Finder)
      (b : Builder w) {work : Work w}
      → HasAnswers w b
      → builder_add_registry_source w fuel addr allowed finder b ≡ returned work
      → IsIdle w work.0
  unfolding builder_add_registry_source
  add_registry-IsIdle fuel addr allowed finder b a h = elim (Option-cases b.target_dir) [
    | inl e ↦ cc (rw (e, builder_add_registry_source) at h)
    | inr (dir, e) ↦
        let p : Pending w = record {
          source_addr = addr;
          versions = allowed;
          dep_finder = finder;
        } in
        finished-IsIdle fuel (queue_registry w p b) a (rw (e, builder_add_registry_source) at h)
  ]

  call-IsIdle :
      (fuel : ℕ) (add : Add w) (b : Builder w) {work : Work w}
      → IsIdle w b
      → call w fuel add b ≡ returned work
      → IsIdle w work.0
  unfolding builder_add_remote_source builder_add_final_registry_source
  call-IsIdle fuel (registry addr allowed finder) b v h =
      add_registry-IsIdle fuel addr allowed finder b v.answers h
  call-IsIdle fuel (final_registry addr finder) b v h =
      add_registry-IsIdle fuel addr.src (w.only addr.version) finder b v.answers h
  call-IsIdle fuel (remote addr finder) b {work} v h = elim (Option-cases b.target_dir) [
    | inl e ↦ cc (rw (e, builder_add_remote_source) at h)
    | inr (dir, e) ↦
        let a : Artifact w = record { source_addr = addr; dep_finder = finder } in
        elim (Bool-cases (member (artifact_discrete w) a b.analyzed)) [
          | inl k ↦
              let same : (b, []) ≡ work = cc (rw (e, k, builder_add_remote_source) at h) in
              subst (λ x. IsIdle w x.0) same v
          | inr k ↦
              finished-IsIdle fuel (queue_remote w a b) v.answers
                (rw (e, k, builder_add_remote_source) at h)
        ]
  ]

  pub IsReachable-IsIdle : {b : Builder w} → IsReachable w b → IsIdle w b
  unfolding new_builder
  IsReachable-IsIdle (fresh dir) = record { remote = refl; registry = refl; answers = (tt, tt) }
  IsReachable-IsIdle (added fuel add {b} r h) = call-IsIdle fuel add b (IsReachable-IsIdle r) h

  -- What a call asks for is in the universe.
  abbrev pub AddWithin : Universe w → Add w → Type 0
  AddWithin u (remote addr finder) =
      Within w u.artifacts (record { source_addr = addr; dep_finder = finder })
  AddWithin u (registry addr allowed finder) =
      PendingWithin w u.artifacts
        (record { source_addr = addr; versions = allowed; dep_finder = finder })
  AddWithin u (final_registry addr finder) =
      PendingWithin w u.artifacts
        (record { source_addr = addr.src; versions = w.only addr.version; dep_finder = finder })

  abbrev pub ReturnsCall : Call w → Type 0
  ReturnsCall c = (work : Work w) × (c ≡ returned work)

  finished-returns :
      NeverPanics w
      → (u : Universe w) (fuel : ℕ) (b : Builder w) → HasAnswers w b
      → IsBounded w u b
      → load w u b < fuel
      → ReturnsCall (resolve_pending w fuel b)
  unfolding resolve_pending
  finished-returns never u fuel b a v h =
      let d = drain_registry-Drains w u b.pending_registry b [] refl a v in
      let (done, e) =
        resolve_loop-Ends w never u fuel (drain_registry w b.pending_registry (b, []))
          (drain_registry-HasAnswers w b.pending_registry (b, []) a) d.bounded
          (omega (arith, d.less, h)) in
      (close_on_error w done, ap (close_after w) e)

  open_registry :
      (addr : RegistrySource ModulePackage) (allowed : VersionSet) (finder : Finder) (b : Builder w)
      (fuel : ℕ) {dir : Text}
      → b.target_dir ≡ some dir
      → ReturnsCall (
          resolve_pending w fuel (
            queue_registry w
              (record { source_addr = addr; versions = allowed; dep_finder = finder })
              b))
      → ReturnsCall (builder_add_registry_source w fuel addr allowed finder b)
  unfolding builder_add_registry_source
  open_registry addr allowed finder b fuel e (work, h) =
      (work, rw (e, builder_add_registry_source) h)

  open_remote :
      (addr : RemoteSource) (finder : Finder) (b : Builder w) (fuel : ℕ) {dir : Text}
      → b.target_dir ≡ some dir
      → member (artifact_discrete w) (record { source_addr = addr; dep_finder = finder }) b.analyzed
        ≡ false
      → ReturnsCall (
          resolve_pending w fuel
            (queue_remote w (record { source_addr = addr; dep_finder = finder }) b))
      → ReturnsCall (builder_add_remote_source w fuel addr finder b)
  unfolding builder_add_remote_source
  open_remote addr finder b fuel e k (work, h) = (work, rw (e, k, builder_add_remote_source) h)

  add_registry-returns :
      NeverPanics w
      → (u : Universe w) (addr : RegistrySource ModulePackage) (allowed : VersionSet)
        (finder : Finder) (b : Builder w) (fuel : ℕ) {dir : Text}
      → IsIdle w b
      → b.target_dir ≡ some dir
      → PendingWithin w u.artifacts
          (record { source_addr = addr; versions = allowed; dep_finder = finder })
      → length u.artifacts * (2 * u.most_requests) + 2 < fuel
      → ReturnsCall (builder_add_registry_source w fuel addr allowed finder b)
  unfolding builder_add_registry_source
  add_registry-returns never u addr allowed finder b fuel v e inside h =
      let p : Pending w = record { source_addr = addr; versions = allowed; dep_finder = finder } in
      open_registry addr allowed finder b fuel e (
        finished-returns never u fuel (queue_registry w p b) v.answers
          (record { remote = rw v.remote tt; registry = (inside, rw v.registry tt) })
          (omega (
            arith,
            h,
            ap length v.remote,
            ap length v.registry,
            missing-le (artifact_discrete w) (2 * u.most_requests) u.artifacts b.analyzed,
          )))

  -- If preparing a package never panics, whatever was fetched and whatever happened before, then
  -- in a builder that calls lead to and that is open, a method that adds a source returns, when
  -- the artifact it adds and all that dependency finders ask for on its behalf, whatever packages
  -- hold and the registry answers, are among finitely many artifacts, and the fuel exceeds twice
  -- their number times the most requests that a finder makes at once, and two.
  pub call-returns :
      NeverPanics w
      → (u : Universe w) (add : Add w) {b : Builder w} (fuel : ℕ) {dir : Text} → IsReachable w b
      → b.target_dir ≡ some dir
      → AddWithin u add
      → length u.artifacts * (2 * u.most_requests) + 2 < fuel
      → (work : Work w) × (call w fuel add b ≡ returned work)
  unfolding builder_add_remote_source builder_add_final_registry_source
  call-returns never u (registry addr allowed finder) {b} fuel r e inside h =
      add_registry-returns never u addr allowed finder b fuel (IsReachable-IsIdle r) e inside h
  call-returns never u (final_registry addr finder) {b} fuel r e inside h =
      add_registry-returns never u addr.src (w.only addr.version) finder b fuel
        (IsReachable-IsIdle r) e inside h
  call-returns never u (remote addr finder) {b} fuel r e inside h =
      let v = IsReachable-IsIdle r in
      let a : Artifact w = record { source_addr = addr; dep_finder = finder } in
      elim (Bool-cases (member (artifact_discrete w) a b.analyzed)) [
        | inl k ↦ ((b, []), simp (e, k, builder_add_remote_source))
        | inr k ↦ open_remote addr finder b fuel e k (
            finished-returns never u fuel (queue_remote w a b) v.answers
              (record { remote = (inside, rw v.remote tt); registry = rw v.registry tt })
              (omega (
                arith,
                h,
                ap length v.remote,
                ap length v.registry,
                missing-le (artifact_discrete w) (2 * u.most_requests) u.artifacts b.analyzed,
              )))
      ]
