-- ===== src/Bundle/Once.antt =====
-- No work is done twice: an invariant of the builder, and of resolvePending as a whole.

use go_slug.Prelude.{
  ℕ, zero, suc, ◌≡◌, refl, sym, ap, ◌≢◌, inl, inr, false, none, List, [], ◌∷◌, Text, Result, ok,
  err, lookup, member, member-All, lookup-insert_known, lookup-insert_self, All, Distinct,
  Option-cases, Bool-cases, List-cases, All-map, subst,
}
use go_slug.Addrs.Types.{RemotePackage}
use go_slug.Bundle.Types.{
  Failure, download_start, World, Diagnostic, RemotePackage-discrete, in_remote_source_package,
}
use go_slug.Bundle.Builder.{
  Builder, Artifact, artifact_discrete, log, download, report, ensure_remote_package,
}
use go_slug.Bundle.Resolve.{
  Work, after_package, log_diagnostics, findings, drain_registry, add_requests, analyze, visit,
  resolve_loop, returned,
}
use go_slug.Bundle.Frame.{
  downloads, Knows, SameCore, Fetches, drain_registry-SameCore, add_requests-SameCore,
  download-Fetches,
}
use go_slug.Bundle.Panics.{not_panicked}

module _ (w : World) where
  open w use {Finder}

  -- Nothing is analyzed twice or downloaded twice, and what was analyzed or downloaded is known.
  pub record IsConsistent (b : Builder w) : Type 0 where
    pub analyzed_once : Distinct b.analyzed
    pub analyzed_known : All (λ a. Knows b.remote_package_dirs a.source_addr.pkg) b.analyzed
    pub downloaded_once : Distinct (downloads b.trace)
    pub downloaded_known : All (Knows b.remote_package_dirs) (downloads b.trace)

  pub IsConsistent-frame :
      {b c : Builder w}
      → c.analyzed ≡ b.analyzed
      → c.remote_package_dirs ≡ b.remote_package_dirs
      → downloads c.trace ≡ downloads b.trace
      → IsConsistent b
      → IsConsistent c
  IsConsistent-frame {b} {c} a d t v = record {
    analyzed_once = subst Distinct (sym a) v.analyzed_once;
    analyzed_known = rw (d, a) v.analyzed_known;
    downloaded_once = subst Distinct (sym t) v.downloaded_once;
    downloaded_known = rw (d, t) v.downloaded_known;
  }

  pub SameCore-IsConsistent : {b c : Builder w} → SameCore w b c → IsConsistent b → IsConsistent c
  SameCore-IsConsistent {b} {c} h v =
      IsConsistent-frame {b = b} {c = c} h.analyzed h.dirs h.downloaded v

  Knows-more :
      (pkg : RemotePackage) (b : Builder w) (m : Result Failure Text × Builder w)
      → Fetches w pkg b m
      → (q : RemotePackage) → Knows b.remote_package_dirs q
      → Knows m.1.remote_package_dirs q
  Knows-more pkg b m f q (d, h) = elim f.dirs [
    | inl same ↦ rw same (d, h)
    | inr (dir, same) ↦
        rw same (lookup-insert_known RemotePackage-discrete pkg q dir b.remote_package_dirs h)
  ]

  -- What ensureRemotePackage leaves.
  record Ensures (pkg : RemotePackage) (b : Builder w) (m : Result Failure Text × Builder w)
      : Type 0 where
    consistent : IsConsistent m.1
    analyzed : m.1.analyzed ≡ b.analyzed
    known : (dir : Text) → m.0 ≡ ok dir → Knows m.1.remote_package_dirs pkg

  unknown-ne :
      (pkg : RemotePackage) (b : Builder w)
      → lookup RemotePackage-discrete pkg b.remote_package_dirs ≡ none
      → (q : RemotePackage) → Knows b.remote_package_dirs q
      → pkg ≢ q
  unknown-ne pkg b h q (d, k) e =
      cc (ap (λ p. lookup RemotePackage-discrete p b.remote_package_dirs) e)

  report-Ensures :
      (pkg : RemotePackage) (b : Builder w) (m : Result Failure Text × Builder w)
      → IsConsistent b
      → lookup RemotePackage-discrete pkg b.remote_package_dirs ≡ none
      → Fetches w pkg b m
      → Ensures pkg b (report w pkg m)
  report-Ensures pkg b (ok dir, c) v h f =
      let more = Knows-more pkg b (ok dir, c) f in
      let (d, noted) = f.noted dir refl in
      record {
        consistent = record {
          analyzed_once = subst Distinct (sym f.analyzed) v.analyzed_once;
          analyzed_known =
              subst (All (λ a. Knows c.remote_package_dirs a.source_addr.pkg)) (sym f.analyzed)
                (All-map _ _ b.analyzed (λ a k. more a.source_addr.pkg k) v.analyzed_known);
          downloaded_once =
              subst (λ t. Distinct (pkg ∷ downloads t)) (sym f.trace)
                (
                  All-map _ _ (downloads b.trace) (unknown-ne pkg b h) v.downloaded_known,
                  v.downloaded_once,
                );
          downloaded_known = (
            rw noted (d, lookup-insert_self RemotePackage-discrete pkg d b.remote_package_dirs),
            subst (λ t. All (Knows c.remote_package_dirs) (downloads t)) (sym f.trace)
                (All-map _ _ (downloads b.trace) more v.downloaded_known),
          );
        };
        analyzed = f.analyzed;
        known = λ _ _.
            rw noted (d, lookup-insert_self RemotePackage-discrete pkg d b.remote_package_dirs);
      }
  report-Ensures pkg b (err e, c) v h f =
      let more = Knows-more pkg b (err e, c) f in
      record {
        consistent = record {
          analyzed_once = subst Distinct (sym f.analyzed) v.analyzed_once;
          analyzed_known =
              subst (All (λ a. Knows c.remote_package_dirs a.source_addr.pkg)) (sym f.analyzed)
                (All-map _ _ b.analyzed (λ a k. more a.source_addr.pkg k) v.analyzed_known);
          downloaded_once = subst (λ t. Distinct (downloads t)) (sym f.trace) v.downloaded_once;
          downloaded_known =
              subst (λ t. All (Knows c.remote_package_dirs) (downloads t)) (sym f.trace)
                (All-map _ _ (downloads b.trace) more v.downloaded_known);
        };
        analyzed = f.analyzed;
        known = λ dir k. cc k;
      }

  ensure_remote_package-Ensures :
      (pkg : RemotePackage) (b : Builder w)
      → IsConsistent b
      → Ensures pkg b (ensure_remote_package w pkg b)
  unfolding ensure_remote_package
  ensure_remote_package-Ensures pkg b v =
      elim (Option-cases (lookup RemotePackage-discrete pkg b.remote_package_dirs)) [
        | inr (dir, h) ↦
            rw (h, ensure_remote_package)
              (record {
                consistent = IsConsistent-frame refl refl refl v;
                analyzed = refl;
                known = λ _ _. (dir, h);
              })
        | inl h ↦
            let start : Builder w = log w (download_start pkg) b in
            let e =
              report-Ensures pkg start (download w pkg start) (IsConsistent-frame refl refl refl v)
                h (download-Fetches w pkg start) in
            rw (h, ensure_remote_package)
              (record { consistent = e.consistent; analyzed = e.analyzed; known = e.known })
      ]

  log_diagnostics-IsConsistent :
      (diags : List Diagnostic) (b : Builder w)
      → IsConsistent b
      → IsConsistent (log_diagnostics w diags b)
  log_diagnostics-IsConsistent [] b v = v
  log_diagnostics-IsConsistent (d ∷ diags) b v = IsConsistent-frame refl refl refl v

  analyze-IsConsistent :
      (a : Artifact w) (dir : Text) (work : Work w)
      → IsConsistent work.0
      → member (artifact_discrete w) a work.0.analyzed ≡ false
      → Knows work.0.remote_package_dirs a.source_addr.pkg
      → IsConsistent (analyze w a dir work).0
  unfolding analyze
  analyze-IsConsistent a dir work v new known =
      let (requests, more) = findings w a dir work.0 in
      let s = add_requests-SameCore w a.source_addr requests work in
      let c = (add_requests w a.source_addr requests work).0 in
      let k = SameCore-IsConsistent s v in
      log_diagnostics-IsConsistent (in_remote_source_package a.source_addr.pkg more)
        (record c { analyzed = a ∷ c.analyzed })
        (record {
          analyzed_once = (
            subst (All (λ y. a ≢ y)) (sym s.analyzed)
                (member-All (artifact_discrete w) a work.0.analyzed new),
            k.analyzed_once,
          );
          analyzed_known = (rw s.dirs known, k.analyzed_known);
          downloaded_once = k.downloaded_once;
          downloaded_known = k.downloaded_known;
        })

  after_package-IsConsistent :
      (a : Artifact w) (diags : List Diagnostic) (b : Builder w)
      (m : Result Failure Text × Builder w)
      → Ensures a.source_addr.pkg b m
      → IsConsistent (after_package w a diags m).0
  after_package-IsConsistent a diags b (err e, c) h = h.consistent
  after_package-IsConsistent a diags b (ok dir, c) h =
      elim (Bool-cases (member (artifact_discrete w) a c.analyzed)) [
        | inl old ↦ rw old h.consistent
        | inr new ↦
            rw new (analyze-IsConsistent a dir (c, diags) h.consistent new (h.known dir refl))
      ]

  visit-IsConsistent :
      (a : Artifact w) (work : Work w) → IsConsistent work.0 → IsConsistent (visit w a work).0
  unfolding visit
  visit-IsConsistent a (b, diags) v =
      after_package-IsConsistent a diags b _ (ensure_remote_package-Ensures a.source_addr.pkg b v)

  pub resolve_loop-IsConsistent :
      (fuel : ℕ) (work : Work w) {done : Work w}
      → IsConsistent work.0
      → resolve_loop w fuel work ≡ returned done
      → IsConsistent done.0
  unfolding resolve_loop
  resolve_loop-IsConsistent zero work v h = cc h
  resolve_loop-IsConsistent (suc fuel) (b, diags) {done} v h = elim (List-cases b.pending_remote) [
    | inr (next, remain, e) ↦
        resolve_loop-IsConsistent fuel (visit w next (record b { pending_remote = remain }, diags))
          (visit-IsConsistent next _ (IsConsistent-frame refl refl refl v))
          (not_panicked w _ _ (rw (e, resolve_loop) at h))
    | inl e ↦ elim (List-cases b.pending_registry) [
      | inr (next, remain, k) ↦
          resolve_loop-IsConsistent fuel (drain_registry w (next ∷ remain) (b, diags))
            (SameCore-IsConsistent (drain_registry-SameCore w (next ∷ remain) b diags) v)
            (rw (e, k, resolve_loop) at h)
      | inl k ↦
          let same : (b, diags) ≡ done = cc (rw (e, k, resolve_loop) at h) in
          subst (λ x. IsConsistent x.0) same v
    ]
  ]
