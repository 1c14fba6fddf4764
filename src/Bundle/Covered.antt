-- ===== src/Bundle/Covered.antt =====
-- What dependency finders ask for is met, unless there were errors.
use go_slug.Prelude.{
  In, ℕ, zero, suc, ◌≡◌, refl, sym, ◌∙◌, inl, inr, false, some, List, [], ◌∷◌, ◌++◌, Text, Result,
  ok, err, All, All-map, member, subst, Bool-cases, List-cases,
}
use go_slug.Bundle.Types.{Failure, World, Diagnostic, in_remote_source_package, has_errors}
use go_slug.Bundle.Builder.{Builder, Artifact, artifact_discrete, ensure_remote_package}
use go_slug.Bundle.Resolve.{
  Work, drain_registry, add_requests, findings, log_diagnostics, analyze, after_package, visit,
  resolve_loop, returned,
}
use go_slug.Bundle.Measure.{HasAnswers}
use go_slug.Bundle.Idle.{visit-HasAnswers}
use go_slug.Bundle.Frame.{drain_registry-SameCore, add_requests-SameCore}
use go_slug.Bundle.Drain.{drain_registry-HasAnswers}
use go_slug.Bundle.Queues.{Leaves, ensure_remote_package-Leaves}
use go_slug.Bundle.Grown.{
  Has, Handled, Grows, Handled-Grows, Grows-parts, Grows-trans, Clean, fails, add_requests-Clean,
  Grows-same, drain_registry-Clean, member-In, has_errors-append,
}
use go_slug.Bundle.Placed.{
  HasDir, OnDisk, Placed, Stays-same, Stays-trans, Arrives, ensure_remote_package-Arrives,
}
use go_slug.Bundle.Panics.{not_panicked}

module _ (w : World) where
  open w use {Finder, VersionSet, find_dependencies}
  open w.packages use {ModulePackage, Version}

  -- Whatever was asked for on behalf of these artifacts in the directories of their packages is
  -- analyzed or waits.
  abbrev pub Entries : Builder w → List (Artifact w) → Type 0
  Entries b = All (λ a.
      (dir : Text) × HasDir w b a.source_addr.pkg dir
      × ((tree : w.Tree) × OnDisk w b dir tree
          × All (Handled w b a.source_addr)
              (find_dependencies a.dep_finder (some tree) a.source_addr.sub_path).0))

  -- Also, the noted directories are on the disk.
  abbrev pub Covered : Builder w → Type 0
  Covered b = Placed w b × Entries b b.analyzed

  Entries-Grows :
      {b c : Builder w} → Grows w b c → (l : List (Artifact w)) → Entries b l → Entries c l
  Entries-Grows g [] h = tt
  Entries-Grows g (a ∷ l) ((dir, noted, (tree, there, met)), rest) = (
    (
      dir,
      g.stays.dirs a.source_addr.pkg dir noted,
      (
        tree,
        g.stays.disk dir tree there,
        All-map _ _ _ (λ r k. Handled-Grows w g a.source_addr r k) met,
      ),
    ),
    Entries-Grows g l rest,
  )

  -- A builder that has analyzed what another has analyzed, and misses nothing of it, covers as much.
  abbrev pub Keeps : Builder w → Builder w → Type 0
  Keeps c d = (b : Builder w) → b.analyzed ≡ c.analyzed → Grows w b d → Covered b → Covered d

  pub Keeps-same : (c d : Builder w) → d.analyzed ≡ c.analyzed → Keeps c d
  Keeps-same c d e b k g v =
      (g.stays.placed v.0, subst (Entries d) (k ∙ sym e) (Entries-Grows g b.analyzed v.1))

  log_diagnostics-same :
      (diags : List Diagnostic) (b : Builder w)
      → ((log_diagnostics w diags b).analyzed ≡ b.analyzed)
        × ((log_diagnostics w diags b).pending_remote ≡ b.pending_remote)
        × ((log_diagnostics w diags b).pending_registry ≡ b.pending_registry)
        × ((log_diagnostics w diags b).remote_package_dirs ≡ b.remote_package_dirs)
        × ((log_diagnostics w diags b).disk ≡ b.disk)
  log_diagnostics-same [] b = (refl, refl, refl, refl, refl)
  log_diagnostics-same (d ∷ diags) b = (refl, refl, refl, refl, refl)

  noted-Has :
      (c : Builder w) (a x : Artifact w)
      → Has w c x
      → Has w (record c { analyzed = a ∷ c.analyzed }) x
  noted-Has c a x (inl h) = inl (inr h)
  noted-Has c a x (inr h) = inr h

  no_errors-left : (xs ys : List Diagnostic) → has_errors (xs ++ ys) ≡ false → has_errors xs ≡ false
  no_errors-left xs ys h = elim (Bool-cases (has_errors xs)) [
    | inr e ↦ e
    | inl e ↦ cc (has_errors-append xs ys, e, h)
  ]

  -- A visit makes an error, or else the artifact is analyzed after it.
  abbrev Visited : Artifact w → Work w → Work w → Type 0
  Visited a work after =
      Clean w work after (Grows w work.0 after.0 × In a after.0.analyzed × Keeps work.0 after.0)

  -- What a dependency finder asks for in a directory, if it is all handled in a builder that has the
  -- directory.
  in_directory :
      (a : Artifact w) (dir : Text) (b f : Builder w)
      → f.disk ≡ b.disk
      → Placed w f
      → HasDir w f a.source_addr.pkg dir
      → All (Handled w f a.source_addr) (findings w a dir b).0
      → (tree : w.Tree) × OnDisk w f dir tree
        × All
            (Handled w f a.source_addr)
            (find_dependencies a.dep_finder (some tree) a.source_addr.sub_path).0
  in_directory a dir b f same placed noted met =
      let (tree, there) = placed a.source_addr.pkg dir noted in
      let before : OnDisk w b dir tree = rw same at there in
      (
        tree,
        there,
        subst
            (λ t.
              All (Handled w f a.source_addr)
                (find_dependencies a.dep_finder t a.source_addr.sub_path).0)
            before met,
      )

  analyze-Visited :
      (a : Artifact w) (dir : Text) (work : Work w)
      → HasDir w work.0 a.source_addr.pkg dir
      → Visited a work (analyze w a dir work)
  unfolding analyze
  analyze-Visited a dir work known h =
      let requests = (findings w a dir work.0).0 in
      let more = in_remote_source_package a.source_addr.pkg (findings w a dir work.0).1 in
      let c = (add_requests w a.source_addr requests work).0 in
      let diags = (add_requests w a.source_addr requests work).1 in
      let d : Builder w = record c { analyzed = a ∷ c.analyzed } in
      let f : Builder w = log_diagnostics w more d in
      let before : has_errors diags ≡ false = no_errors-left diags more h in
      let (start, (grows, met)) = add_requests-Clean w a.source_addr requests work before in
      let noted : Grows w c d =
        Grows-parts w (Stays-same w refl refl) (λ x k. noted-Has c a x k) (λ p k. inl k) in
      let (x, y, z, p, q) = log_diagnostics-same more d in
      let told : Grows w d f = Grows-same w {b = d} {c = f} (Stays-same w p q) x y z in
      let last : Grows w c f = Grows-trans w noted told in
      let all : Grows w work.0 f = Grows-trans w grows last in
      let core = add_requests-SameCore w a.source_addr requests work in
      let here : HasDir w f a.source_addr.pkg dir = all.stays.dirs a.source_addr.pkg dir known in
      let handled = All-map _ _ requests (λ r k. Handled-Grows w last a.source_addr r k) met in
      (
        start,
        (
          all,
          subst (In a) (sym x) (inl refl),
          λ b k g v. (
            g.stays.placed v.0,
            subst (Entries f) (sym x) (
              (
                dir,
                here,
                in_directory a dir work.0 f (q ∙ core.disk) (g.stays.placed v.0) here handled,
              ),
              subst (Entries f) (k ∙ sym core.analyzed) (Entries-Grows g b.analyzed v.1),
            ),
          ),
        ),
      )

  after_package-Visited :
      (a : Artifact w) (diags : List Diagnostic) (b : Builder w)
      (m : Result Failure Text × Builder w)
      → Leaves w b m.1
      → ((dir : Text) → m.0 ≡ ok dir → Arrives w a.source_addr.pkg b m.1 dir)
      → Visited a (b, diags) (after_package w a diags m)
  after_package-Visited a diags b (err e, c) l arrives = λ h. fails w diags _ h
  after_package-Visited a diags b (ok dir, c) l arrives =
      let (stays, known) = arrives dir refl in
      let start : Grows w b c = Grows-same w {b = b} {c = c} stays l.analyzed l.remote l.registry in
      elim (Bool-cases (member (artifact_discrete w) a c.analyzed)) [
        | inl old ↦ rw old (λ h. (
          h,
          (start, member-In (artifact_discrete w) a c.analyzed old, Keeps-same b c l.analyzed),
        ))
        | inr new ↦ rw new (λ h.
            let (x, (g, i, k)) = analyze-Visited a dir (c, diags) known h in
            (x, (Grows-trans w start g, i, λ b₀ e. k b₀ (e ∙ sym l.analyzed))))
      ]

  visit-Visited : (a : Artifact w) (work : Work w) → Visited a work (visit w a work)
  unfolding visit
  visit-Visited a (b, diags) =
      after_package-Visited a diags b (ensure_remote_package w a.source_addr.pkg b)
        (ensure_remote_package-Leaves w a.source_addr.pkg b)
        (λ dir e. ensure_remote_package-Arrives w a.source_addr.pkg b e)

  -- An artifact that has been taken off the remote queue, and is analyzed, is not missed.
  Grows-visited :
      (b d : Builder w) (next : Artifact w) (remain : List (Artifact w))
      → b.pending_remote ≡ next ∷ remain
      → Grows w (record b { pending_remote = remain }) d
      → In next d.analyzed
      → Grows w b d
  Grows-visited b d next remain e g h =
      Grows-parts w (Stays-trans w (Stays-same w refl refl) g.stays) (λ a k. go a k)
        (λ p k. g.registry p (inl k))
    where
      waits : (a : Artifact w) → In a (next ∷ remain) → Has w d a
      waits a (inl same) = inl (subst (λ x. In x d.analyzed) (sym same) h)
      waits a (inr k) = g.has a (inr k)

      go : (a : Artifact w) → Has w b a → Has w d a
      go a (inl k) = g.has a (inl k)
      go a (inr k) = waits a (subst (In a) e k)

  pub resolve_loop-Covered :
      (fuel : ℕ) (work : Work w) {done : Work w}
      → HasAnswers w work.0
      → resolve_loop w fuel work ≡ returned done
      → has_errors done.1 ≡ false
      → (has_errors work.1 ≡ false) × Grows w work.0 done.0 × (Covered work.0 → Covered done.0)
  unfolding resolve_loop
  resolve_loop-Covered zero work a h k = cc h
  resolve_loop-Covered (suc fuel) (b, diags) {done} a h clean = elim (List-cases b.pending_remote) [
    | inr (next, remain, e) ↦
        let taken : Work w = (record b { pending_remote = remain }, diags) in
        let (mid, rest, covers) =
          resolve_loop-Covered fuel (visit w next taken) (visit-HasAnswers w next taken a)
            (not_panicked w _ _ (rw (e, resolve_loop) at h)) clean in
        let (start, (g, i, keeps)) = visit-Visited next taken mid in
        let all = Grows-visited b (visit w next taken).0 next remain e g i in
        (start, Grows-trans w all rest, λ v. covers (keeps b refl all v))
    | inl e ↦ elim (List-cases b.pending_registry) [
      | inr (next, remain, k) ↦
          let after = drain_registry w (next ∷ remain) (b, diags) in
          let (mid, rest, covers) =
            resolve_loop-Covered fuel after
              (drain_registry-HasAnswers w (next ∷ remain) (b, diags) a)
              (rw (e, k, resolve_loop) at h) clean in
          let (start, g) = drain_registry-Clean w (next ∷ remain) b diags k a mid in
          let same = (drain_registry-SameCore w (next ∷ remain) b diags).analyzed in
          (start, Grows-trans w g rest, λ v. covers (Keeps-same b after.0 same b refl g v))
      | inl k ↦
          let same : (b, diags) ≡ done = cc (rw (e, k, resolve_loop) at h) in
          subst (λ x. (has_errors diags ≡ false) × Grows w b x.0 × (Covered b → Covered x.0)) same
            (
              subst (λ x. has_errors x.1 ≡ false) (sym same) clean,
              Grows-same w (Stays-same w refl refl) refl refl refl,
              λ v. v,
            )
    ]
  ]
