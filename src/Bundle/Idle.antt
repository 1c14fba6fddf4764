-- ===== src/Bundle/Idle.antt =====
-- What resolvePending leaves: empty queues, and answers that are the registry's.
use go_slug.Prelude.{
  ℕ, zero, suc, ◌≡◌, refl, ◌∙◌, inl, inr, List, [], ◌∷◌, arith, Text, Result, ok, err, member,
  subst, Bool-cases, List-cases,
}
use go_slug.Addrs.Types.{RemoteSource}
use go_slug.Bundle.Types.{
  Failure, World, Diagnostic, Request, add_remote_source, add_registry_source, add_local_source,
  in_remote_source_package,
}
use go_slug.Bundle.Builder.{Builder, Artifact, artifact_discrete, ensure_remote_package}
use go_slug.Bundle.Resolve.{
  Work, drain_registry, add_request, add_requests, findings, log_diagnostics, analyze,
  after_package, visit, resolve_loop, returned,
}
use go_slug.Bundle.Measure.{HasAnswers}
use go_slug.Bundle.Queues.{ensure_remote_package-Leaves}
use go_slug.Bundle.Drain.{drain_registry-HasAnswers}
use go_slug.Bundle.Panics.{not_panicked}

module _ (w : World) where
  open w use {Finder, VersionSet}
  open w.packages use {ModulePackage, Version}

  -- What the builder remembers of the registry is as it was.
  abbrev Remembers : Builder w → Builder w → Type 0
  Remembers b c =
      (c.registry_package_versions ≡ b.registry_package_versions)
      × (c.resolved_registry ≡ b.resolved_registry)

  add_request-Remembers :
      (base : RemoteSource) (r : Request ModulePackage VersionSet Finder) (work : Work w)
      → Remembers work.0 (add_request w base r work).0
  unfolding add_request
  add_request-Remembers base (add_remote_source s f) work = (refl, refl)
  add_request-Remembers base (add_registry_source s allowed f) work = (refl, refl)
  add_request-Remembers base (add_local_source s f) work = (ground arith, ground arith)

  add_requests-Remembers :
      (base : RemoteSource) (rs : List (Request ModulePackage VersionSet Finder)) (work : Work w)
      → Remembers work.0 (add_requests w base rs work).0
  unfolding add_requests
  add_requests-Remembers base [] work = (refl, refl)
  add_requests-Remembers base (r ∷ rs) work =
      let (v, s) = add_requests-Remembers base rs (add_request w base r work) in
      let (x, y) = add_request-Remembers base r work in (v ∙ x, s ∙ y)

  log_diagnostics-HasAnswers :
      (diags : List Diagnostic) (b : Builder w)
      → HasAnswers w b
      → HasAnswers w (log_diagnostics w diags b)
  log_diagnostics-HasAnswers [] b h = h
  log_diagnostics-HasAnswers (d ∷ diags) b h = h

  analyze-HasAnswers :
      (a : Artifact w) (dir : Text) (work : Work w)
      → HasAnswers w work.0
      → HasAnswers w (analyze w a dir work).0
  unfolding analyze
  analyze-HasAnswers a dir work h =
      let (requests, more) = findings w a dir work.0 in
      let c = (add_requests w a.source_addr requests work).0 in
      log_diagnostics-HasAnswers (in_remote_source_package a.source_addr.pkg more)
        (record c { analyzed = a ∷ c.analyzed })
        (let (x, y) = add_requests-Remembers a.source_addr requests work in rw (x, y) h)

  after_package-HasAnswers :
      (a : Artifact w) (diags : List Diagnostic) (m : Result Failure Text × Builder w)
      → HasAnswers w m.1
      → HasAnswers w (after_package w a diags m).0
  after_package-HasAnswers a diags (err e, c) h = h
  after_package-HasAnswers a diags (ok dir, c) h =
      elim (Bool-cases (member (artifact_discrete w) a c.analyzed)) [
        | inl old ↦ rw old h
        | inr new ↦ rw new (analyze-HasAnswers a dir (c, diags) h)
      ]

  pub visit-HasAnswers :
      (a : Artifact w) (work : Work w) → HasAnswers w work.0 → HasAnswers w (visit w a work).0
  unfolding visit
  visit-HasAnswers a (b, diags) h =
      let l = ensure_remote_package-Leaves w a.source_addr.pkg b in
      after_package-HasAnswers a diags (ensure_remote_package w a.source_addr.pkg b)
        (rw (l.resolved, l.versions) h)

  -- Nothing waits, and the sources that the builder remembers are the registry's.
  pub record IsIdle (b : Builder w) : Type 0 where
    pub remote : b.pending_remote ≡ []
    pub registry : b.pending_registry ≡ []
    pub answers : HasAnswers w b

  pub resolve_loop-IsIdle :
      (fuel : ℕ) (work : Work w) {done : Work w}
      → HasAnswers w work.0
      → resolve_loop w fuel work ≡ returned done
      → IsIdle done.0
  unfolding resolve_loop
  resolve_loop-IsIdle zero work a h = cc h
  resolve_loop-IsIdle (suc fuel) (b, diags) {done} a h = elim (List-cases b.pending_remote) [
    | inr (next, remain, e) ↦
        let taken : Work w = (record b { pending_remote = remain }, diags) in
        resolve_loop-IsIdle fuel (visit w next taken) (visit-HasAnswers next taken a)
          (not_panicked w _ _ (rw (e, resolve_loop) at h))
    | inl e ↦ elim (List-cases b.pending_registry) [
      | inr (next, remain, k) ↦
          resolve_loop-IsIdle fuel (drain_registry w (next ∷ remain) (b, diags))
            (drain_registry-HasAnswers w (next ∷ remain) (b, diags) a)
            (rw (e, k, resolve_loop) at h)
      | inl k ↦
          let same : (b, diags) ≡ done = cc (rw (e, k, resolve_loop) at h) in
          subst (λ x. IsIdle x.0) same (record { remote = e; registry = k; answers = a })
    ]
  ]
