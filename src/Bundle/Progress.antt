-- ===== src/Bundle/Progress.antt =====
-- Termination of resolvePending.
use go_slug.Prelude.{
  ℕ, zero, suc, ◌+◌, ◌*◌, ◌≤◌, ◌<◌, ◌≡◌, refl, ap, ◌∙◌, inl, inr, false, List, [], ◌∷◌, arith, Text,
  Result, ok, err, All, length, member, subst, lookup, Bool-cases, List-cases,
}
use go_slug.Addrs.Types.{RemoteSource, Source, AddrError}
use go_slug.Bundle.Types.{
  Failure, World, Diagnostic, Request, add_remote_source, add_registry_source, add_local_source,
  in_remote_source_package,
}
use go_slug.Bundle.Builder.{Builder, Artifact, Pending, Text-discrete, artifact_discrete}
use go_slug.Bundle.Resolve.{
  Work, drain_registry, add_resolved, add_request, add_requests, findings, log_diagnostics, analyze,
  after_package, visit, resolve_loop, visit_panics, Call, returned,
}
use go_slug.Bundle.Measure.{
  Within, RequestWithin, Universe, IsBounded, HasAnswers, queued, load, missing, missing-found,
}
use go_slug.Bundle.Queues.{Leaves, ensure_remote_package-Leaves}
use go_slug.Bundle.Idle.{visit-HasAnswers}
use go_slug.Bundle.Drain.{drain_registry-HasAnswers, drain_registry-Drains}
use go_slug.Bundle.Panics.{NeverPanics, visit-safe}

module _ (w : World) where
  open w use {Finder, VersionSet}
  open w.packages use {ModulePackage, Version}

  -- Some requests put at most two of work each on the queues, and touch nothing else.
  record Queues (u : Universe w) (n : ℕ) (b c : Builder w) : Type 0 where
    analyzed : c.analyzed ≡ b.analyzed
    bounded : IsBounded w u c
    more : queued w c ≤ queued w b + 2 * n

  add_resolved-Queues :
      (u : Universe w) (finder : Finder) (o : Result AddrError (Source ModulePackage))
      (work : Work w)
      → ((r : RemoteSource)
          → o ≡ ok (Source.remote_source r)
          → Within w u.artifacts (record { source_addr = r; dep_finder = finder }))
      → IsBounded w u work.0
      → Queues u 1 work.0 (add_resolved w finder o work).0
  add_resolved-Queues u finder (ok (Source.remote_source r)) work h v = record {
    analyzed = refl;
    bounded = record { remote = (h r refl, v.remote); registry = v.registry };
    more = omega arith;
  }
  add_resolved-Queues u finder (ok (Source.local_source r)) work h v = record {
    analyzed = refl;
    bounded = v;
    more = omega arith;
  }
  add_resolved-Queues u finder (ok (Source.registry_source r)) work h v = record {
    analyzed = refl;
    bounded = v;
    more = omega arith;
  }
  add_resolved-Queues u finder (err e) work h v = record {
    analyzed = refl;
    bounded = v;
    more = omega arith;
  }

  add_request-Queues :
      (u : Universe w) (base : RemoteSource) (r : Request ModulePackage VersionSet Finder)
      (work : Work w)
      → RequestWithin w u.artifacts base r
      → IsBounded w u work.0
      → Queues u 1 work.0 (add_request w base r work).0
  unfolding add_request
  add_request-Queues u base (add_remote_source s f) work h v = record {
    analyzed = refl;
    bounded = record { remote = (h, v.remote); registry = v.registry };
    more = omega arith;
  }
  add_request-Queues u base (add_registry_source s allowed f) work h v = record {
    analyzed = refl;
    bounded = record { remote = v.remote; registry = (h, v.registry) };
    more = omega arith;
  }
  add_request-Queues u base (add_local_source s f) work h v = add_resolved-Queues u f _ work h v

  add_requests-Queues :
      (u : Universe w) (base : RemoteSource) (rs : List (Request ModulePackage VersionSet Finder))
      (work : Work w)
      → All (RequestWithin w u.artifacts base) rs
      → IsBounded w u work.0
      → Queues u (length rs) work.0 (add_requests w base rs work).0
  unfolding add_requests
  add_requests-Queues u base [] work h v = record {
    analyzed = refl;
    bounded = v;
    more = omega arith;
  }
  add_requests-Queues u base (r ∷ rs) work h v =
      let one = add_request-Queues u base r work h.0 v in
      let rest = add_requests-Queues u base rs (add_request w base r work) h.1 one.bounded in
      record {
        analyzed = rest.analyzed ∙ one.analyzed;
        bounded = rest.bounded;
        more = omega (arith, one.more, rest.more);
      }

  -- A step leaves no more work than there was.
  record Advances (u : Universe w) (b c : Builder w) : Type 0 where
    bounded : IsBounded w u c
    less : load w u c ≤ load w u b

  log_diagnostics-Advances :
      (u : Universe w) (diags : List Diagnostic) (b c : Builder w)
      → Advances u b c
      → Advances u b (log_diagnostics w diags c)
  log_diagnostics-Advances u [] b c h = h
  log_diagnostics-Advances u (d ∷ diags) b c h = record {
    bounded = record { remote = h.bounded.remote; registry = h.bounded.registry };
    less = h.less;
  }

  analyze-Advances :
      (u : Universe w) (a : Artifact w) (dir : Text) (work : Work w)
      → Within w u.artifacts a
      → member (artifact_discrete w) a work.0.analyzed ≡ false
      → IsBounded w u work.0
      → Advances u work.0 (analyze w a dir work).0
  unfolding analyze
  analyze-Advances u a dir work inside new v =
      let tree = lookup Text-discrete dir work.0.disk in
      let (requests, more) = findings w a dir work.0 in
      let (c, diags) = add_requests w a.source_addr requests work in
      let q = add_requests-Queues u a.source_addr requests work (u.closed a inside tree) v in
      let one =
        missing-found (artifact_discrete w) (2 * u.most_requests) a u.artifacts work.0.analyzed
          inside new in
      let same =
        ap (λ l. missing (artifact_discrete w) (2 * u.most_requests) u.artifacts (a ∷ l))
          q.analyzed in
      log_diagnostics-Advances u (in_remote_source_package a.source_addr.pkg more) work.0
        (record c { analyzed = a ∷ c.analyzed })
        (record {
          bounded = record { remote = q.bounded.remote; registry = q.bounded.registry };
          less = omega (arith, one, same, q.more, u.bounded a inside tree);
        })

  Leaves-Advances :
      (u : Universe w) {b c : Builder w} → Leaves w b c → IsBounded w u b → Advances u b c
  Leaves-Advances u h v = record {
    bounded = record { remote = rw h.remote v.remote; registry = rw h.registry v.registry };
    less = omega (
      arith,
      ap (missing (artifact_discrete w) (2 * u.most_requests) u.artifacts) h.analyzed,
      ap length h.remote,
      ap length h.registry,
    );
  }

  Advances-trans :
      (u : Universe w) {b c d : Builder w} → Advances u b c → Advances u c d → Advances u b d
  Advances-trans u h k = record { bounded = k.bounded; less = omega (arith, h.less, k.less) }

  after_package-Advances :
      (u : Universe w) (a : Artifact w) (diags : List Diagnostic) (b : Builder w)
      (m : Result Failure Text × Builder w)
      → Within w u.artifacts a
      → Advances u b m.1
      → Advances u b (after_package w a diags m).0
  after_package-Advances u a diags b (err e, c) inside h = h
  after_package-Advances u a diags b (ok dir, c) inside h =
      elim (Bool-cases (member (artifact_discrete w) a c.analyzed)) [
        | inl old ↦ rw old h
        | inr new ↦
            rw new (Advances-trans u h (analyze-Advances u a dir (c, diags) inside new h.bounded))
      ]

  visit-Advances :
      (u : Universe w) (a : Artifact w) (work : Work w)
      → Within w u.artifacts a
      → IsBounded w u work.0
      → Advances u work.0 (visit w a work).0
  unfolding visit
  visit-Advances u a (b, diags) inside v =
      after_package-Advances u a diags b _ inside
        (Leaves-Advances u (ensure_remote_package-Leaves w a.source_addr.pkg b) v)

  abbrev pub Ends : Call w → Type 0
  Ends c = (done : Work w) × (c ≡ returned done)

  -- The rounds of the loop, by what waits.
  round_remote :
      (fuel : ℕ) (b : Builder w) (diags : List Diagnostic) {next : Artifact w}
      {remain : List (Artifact w)}
      → b.pending_remote ≡ next ∷ remain
      → visit_panics w next (record b { pending_remote = remain }, diags) ≡ false
      → Ends (resolve_loop w fuel (visit w next (record b { pending_remote = remain }, diags)))
      → Ends (resolve_loop w (suc fuel) (b, diags))
  unfolding resolve_loop
  round_remote fuel b diags e safe (done, h) = (done, rw (e, safe, resolve_loop) h)

  round_registry :
      (fuel : ℕ) (b : Builder w) (diags : List Diagnostic) {next : Pending w}
      {remain : List (Pending w)}
      → b.pending_remote ≡ []
      → b.pending_registry ≡ next ∷ remain
      → Ends (resolve_loop w fuel (drain_registry w (next ∷ remain) (b, diags)))
      → Ends (resolve_loop w (suc fuel) (b, diags))
  unfolding resolve_loop
  round_registry fuel b diags e k (done, h) = (done, rw (e, k, resolve_loop) h)

  -- The loop ends, if nothing panics, with more fuel than there is work left.
  pub resolve_loop-Ends :
      NeverPanics w
      → (u : Universe w) (fuel : ℕ) (work : Work w) → HasAnswers w work.0
      → IsBounded w u work.0
      → load w u work.0 < fuel
      → Ends (resolve_loop w fuel work)
  unfolding resolve_loop
  resolve_loop-Ends never u zero work a v h = absurd (omega (arith, h))
  resolve_loop-Ends never u (suc fuel) (b, diags) a v h = elim (List-cases b.pending_remote) [
    | inr (next, remain, e) ↦
        let taken : Work w = (record b { pending_remote = remain }, diags) in
        let all = subst (All (Within w u.artifacts)) e v.remote in
        let step =
          visit-Advances u next taken all.0 (record { remote = all.1; registry = v.registry }) in
        round_remote fuel b diags e (visit-safe w never next taken) (
          resolve_loop-Ends never u fuel (visit w next taken) (visit-HasAnswers w next taken a)
            step.bounded (omega (arith, h, step.less, ap length e)))
    | inl e ↦ elim (List-cases b.pending_registry) [
      | inr (next, remain, k) ↦
          let step = drain_registry-Drains w u (next ∷ remain) b diags k a v in
          round_registry fuel b diags e k (
            resolve_loop-Ends never u fuel (drain_registry w (next ∷ remain) (b, diags))
              (drain_registry-HasAnswers w (next ∷ remain) (b, diags) a) step.bounded
              (omega (arith, h, step.less)))
      | inl k ↦ ((b, diags), simp (e, k, resolve_loop))
    ]
  ]
