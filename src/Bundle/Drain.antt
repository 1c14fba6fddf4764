-- ===== src/Bundle/Drain.antt =====
-- The loop of resolvePending that empties the registry queue.
use go_slug.Prelude.{
  ℕ, ◌+◌, ◌≤◌, ◌≡◌, refl, sym, ap, List, [], ◌∷◌, arith, Text, Result, ok, err, All, length, ◌*◌,
  subst,
}
use go_slug.Addrs.Types.{RemoteSource}
use go_slug.Bundle.Types.{World, Diagnostic}
use go_slug.Bundle.Builder.{Builder, Pending, artifact_discrete}
use go_slug.Bundle.Resolve.{Work, after_registry, resolve_registry, drain_registry}
use go_slug.Bundle.Measure.{Within, PendingWithin, Universe, IsBounded, HasAnswers, load, missing}
use go_slug.Bundle.Find.{Finds, IsFinal, find_registry_package_source-Finds}

module _ (w : World) where
  open w use {Finder}

  -- What one item of the registry queue leaves: at most one remote artifact more.
  record Resolves (u : Universe w) (b c : Builder w) : Type 0 where
    registry : c.pending_registry ≡ b.pending_registry
    analyzed : c.analyzed ≡ b.analyzed
    remote : All (Within w u.artifacts) c.pending_remote
    length_remote : length c.pending_remote ≤ length b.pending_remote + 1

  after_registry-Resolves :
      (u : Universe w) (p : Pending w) (b : Builder w) (diags : List Diagnostic)
      (m : Result Text RemoteSource × Builder w)
      → HasAnswers w b
      → PendingWithin w u.artifacts p
      → All (Within w u.artifacts) b.pending_remote
      → Finds w (IsFinal w p.source_addr p.versions) b m
      → Resolves u b (after_registry w p.dep_finder diags m).0
  after_registry-Resolves u p b diags (err e, c) a h k f = record {
    registry = f.registry;
    analyzed = f.analyzed;
    remote = rw f.remote k;
    length_remote = omega (arith, ap length f.remote);
  }
  after_registry-Resolves u p b diags (ok r, c) a h k f =
      let (real, answer, e) = f.good a r refl in
      record {
        registry = f.registry;
        analyzed = f.analyzed;
        remote = (
          subst (λ s. Within w u.artifacts (record { source_addr = s; dep_finder = p.dep_finder }))
              (sym e) (h real answer),
          rw f.remote k,
        );
        length_remote = omega (arith, ap length f.remote);
      }

  after_registry-HasAnswers :
      (finder : Finder) (diags : List Diagnostic) (m : Result Text RemoteSource × Builder w)
      → HasAnswers w m.1
      → HasAnswers w (after_registry w finder diags m).0
  after_registry-HasAnswers finder diags (ok r, c) h = h
  after_registry-HasAnswers finder diags (err e, c) h = h

  pub resolve_registry-HasAnswers :
      (p : Pending w) (work : Work w)
      → HasAnswers w work.0
      → HasAnswers w (resolve_registry w p work).0
  unfolding resolve_registry
  resolve_registry-HasAnswers p (b, diags) h =
      let f = find_registry_package_source-Finds w p.source_addr p.versions b h in
      after_registry-HasAnswers p.dep_finder diags _ (f.answers h)

  pub drain_registry-HasAnswers :
      (items : List (Pending w)) (work : Work w)
      → HasAnswers w work.0
      → HasAnswers w (drain_registry w items work).0
  unfolding drain_registry
  drain_registry-HasAnswers [] work h = h
  drain_registry-HasAnswers (next ∷ remain) (b, diags) h =
      drain_registry-HasAnswers remain _ (resolve_registry-HasAnswers next _ h)

  -- The loop over the registry queue leaves that queue empty, and less work than there was.
  pub record Drains (u : Universe w) (n : ℕ) (b c : Builder w) : Type 0 where
    pub bounded : IsBounded w u c
    pub less : load w u c + n ≤ load w u b

  pub drain_registry-Drains :
      (u : Universe w) (items : List (Pending w)) (b : Builder w) (diags : List Diagnostic)
      → b.pending_registry ≡ items
      → HasAnswers w b
      → IsBounded w u b
      → Drains u (length items) b (drain_registry w items (b, diags)).0
  unfolding drain_registry resolve_registry
  drain_registry-Drains u [] b diags e a v = record { bounded = v; less = omega arith }
  drain_registry-Drains u (next ∷ remain) b diags e a v =
      let c : Builder w = record b { pending_registry = remain } in
      let all = subst (All (PendingWithin w u.artifacts)) e v.registry in
      let work = resolve_registry w next (c, diags) in
      let s : Resolves u c work.0 =
        after_registry-Resolves u next c diags _ a all.0 v.remote
          (find_registry_package_source-Finds w next.source_addr next.versions c a) in
      let rest =
        drain_registry-Drains u remain work.0 work.1 s.registry
          (resolve_registry-HasAnswers next (c, diags) a)
          (record { remote = s.remote; registry = rw s.registry all.1 }) in
      let left = ap (missing (artifact_discrete w) (2 * u.most_requests) u.artifacts) s.analyzed in
      record {
        bounded = rest.bounded;
        less = omega (arith, rest.less, left, s.length_remote, ap length s.registry, ap length e);
      }
