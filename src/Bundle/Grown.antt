-- ===== src/Bundle/Grown.antt =====
-- Builders that miss nothing of what another one has, unless there were errors.
use go_slug.Prelude.{
  In, ◌≡◌, refl, sym, ap, ◌∙◌, inl, inr, ◌⊎◌, ◌||◌, true, false, List, [], ◌∷◌, ◌++◌, arith, Text,
  Result, ok, err, All, member, subst, choose,
}
use go_slug.Addrs.Types.{RemoteSource, Source, AddrError}
use go_slug.Addrs.Registry.{final_source_addr}
use go_slug.Addrs.Source.{resolve_relative_source}
use go_slug.Bundle.Types.{
  World, Diagnostic, Request, add_remote_source, add_registry_source, add_local_source, has_errors,
  severity, Summary, internal_diagnostic, diag_error,
}
use go_slug.Bundle.Builder.{Builder, Artifact, Pending}
use go_slug.Bundle.Resolve.{
  Work, after_registry, resolve_registry, drain_registry, add_resolved, add_request, add_requests,
}
use go_slug.Bundle.Measure.{IsAnswer, HasAnswers}
use go_slug.Bundle.Find.{Finds, IsFinal, find_registry_package_source-Finds}
use go_slug.Bundle.Drain.{resolve_registry-HasAnswers}
use go_slug.Bundle.Frame.{SameCore, find_registry_package_source-SameCore}
use go_slug.Bundle.Placed.{Stays, Stays-same, Stays-trans}

pub member-In : {A : Type 0} (eq : Discrete A) (x : A) (l : List A) → member eq x l ≡ true → In x l
member-In eq x [] h = cc h
member-In eq x (y ∷ l) h = go (eq x y) h (member-In eq x l)
  where
    go :
        (d : Dec (x ≡ y))
        → choose d true (member eq x l) ≡ true
        → (member eq x l ≡ true → In x l)
        → In x (y ∷ l)
    go (yes e) h rest = inl e
    go (no _) h rest = inr (rest h)

pub has_errors-append :
    (xs ys : List Diagnostic) → has_errors (xs ++ ys) ≡ (has_errors xs || has_errors ys)
unfolding has_errors
has_errors-append [] ys = refl
has_errors-append (x ∷ xs) ys = ground (arith, has_errors-append xs ys)

module _ (w : World) where
  open w use {Finder, VersionSet, find_dependencies}
  open w.packages use {ModulePackage, Version}

  -- The artifact was analyzed, or waits.
  abbrev pub Has : Builder w → Artifact w → Type 0
  Has b a = In a b.analyzed ⊎ In a b.pending_remote

  abbrev pub HasRegistry : Builder w → Pending w → Type 0
  HasRegistry b p =
      In p b.pending_registry
      ⊎ ((real : RemoteSource) × IsAnswer w p.source_addr.pkg p.versions real
          × Has b (record {
            source_addr = final_source_addr p.source_addr real;
            dep_finder = p.dep_finder;
          }))

  abbrev pub Handled : Builder w → RemoteSource → Request ModulePackage VersionSet Finder → Type 0
  Handled b base (add_remote_source s finder) =
      Has b (record { source_addr = s; dep_finder = finder })
  Handled b base (add_registry_source s allowed finder) =
      HasRegistry b (record { source_addr = s; versions = allowed; dep_finder = finder })
  Handled b base (add_local_source s finder) =
      (r : RemoteSource) × (resolve_relative_source {M = ModulePackage} (Source.remote_source base)
          (Source.local_source s)
        ≡ ok (Source.remote_source r))
      × Has b (record { source_addr = r; dep_finder = finder })

  -- Nothing that is analyzed or waits is lost, and no directory of a package.
  pub record Grows (b c : Builder w) : Type 0 where
    pub has : (a : Artifact w) → Has b a → Has c a
    pub registry : (p : Pending w) → HasRegistry b p → HasRegistry c p
    pub stays : Stays w b c

  pub Handled-Grows :
      {b c : Builder w}
      → Grows b c
      → (base : RemoteSource) (r : Request ModulePackage VersionSet Finder) → Handled b base r
      → Handled c base r
  Handled-Grows g base (add_remote_source s f) h = g.has _ h
  Handled-Grows g base (add_registry_source s allowed f) h = g.registry _ h
  Handled-Grows g base (add_local_source s f) (r, e, h) = (r, e, g.has _ h)

  -- From the directories, the two queues and the analyzed artifacts.
  pub Grows-parts :
      {b c : Builder w}
      → Stays w b c
      → ((a : Artifact w) → Has b a → Has c a)
      → ((p : Pending w) → In p b.pending_registry → HasRegistry c p)
      → Grows b c
  Grows-parts {b} {c} s f g = record { has = f; registry = λ p h. go p h; stays = s }
    where
      go : (p : Pending w) → HasRegistry b p → HasRegistry c p
      go p (inl h) = g p h
      go p (inr (real, answer, h)) = inr (real, answer, f _ h)

  pub Grows-trans : {b c d : Builder w} → Grows b c → Grows c d → Grows b d
  Grows-trans g k = record {
    has = λ a h. k.has a (g.has a h);
    registry = λ p h. k.registry p (g.registry p h);
    stays = Stays-trans w g.stays k.stays;
  }

  pub Has-push :
      (b : Builder w) (x a : Artifact w)
      → Has b a
      → Has (record b { pending_remote = x ∷ b.pending_remote }) a
  Has-push b x a (inl h) = inl h
  Has-push b x a (inr h) = inr (inr h)

  -- A step that made no error.
  abbrev pub Clean : Work w → Work w → Type 0 → Type 0
  Clean before after Q = has_errors after.1 ≡ false → (has_errors before.1 ≡ false) × Q

  ends_in_error :
      (diags : List Diagnostic) (s : Summary)
      → has_errors (diags ++ (internal_diagnostic diag_error s ∷ [])) ≡ true
  unfolding has_errors severity
  ends_in_error [] s = refl
  ends_in_error (d ∷ diags) s = ground (arith, ends_in_error diags s)

  pub fails :
      (diags : List Diagnostic) (s : Summary) {Q : Type 0}
      → has_errors (diags ++ (internal_diagnostic diag_error s ∷ [])) ≡ false
      → Q
  fails diags s h = cc (ends_in_error diags s, h)

  add_resolved-Clean :
      (finder : Finder) (o : Result AddrError (Source ModulePackage)) (work : Work w)
      → Clean work (add_resolved w finder o work) (
          Grows work.0 (add_resolved w finder o work).0
          × ((r : RemoteSource) × (o ≡ ok (Source.remote_source r))
              × Has
                  (add_resolved w finder o work).0
                  (record { source_addr = r; dep_finder = finder })))
  add_resolved-Clean finder (ok (Source.remote_source r)) work h = (
    h,
    (
      Grows-parts (Stays-same w refl refl) (Has-push work.0 _) (λ p k. inl k),
      (r, refl, inr (inl refl)),
    ),
  )
  add_resolved-Clean finder (ok (Source.local_source r)) work h = fails work.1 _ h
  add_resolved-Clean finder (ok (Source.registry_source r)) work h = fails work.1 _ h
  add_resolved-Clean finder (err e) work h = fails work.1 _ h

  add_request-Clean :
      (base : RemoteSource) (r : Request ModulePackage VersionSet Finder) (work : Work w)
      → Clean work (add_request w base r work) (
          Grows work.0 (add_request w base r work).0 × Handled (add_request w base r work).0 base r)
  unfolding add_request
  add_request-Clean base (add_remote_source s f) work h =
      (h, (Grows-parts (Stays-same w refl refl) (Has-push work.0 _) (λ p k. inl k), inr (inl refl)))
  add_request-Clean base (add_registry_source s allowed f) work h =
      (h, (Grows-parts (Stays-same w refl refl) (λ a k. k) (λ p k. inl (inr k)), inl (inl refl)))
  add_request-Clean base (add_local_source s f) work h = add_resolved-Clean f _ work h

  pub add_requests-Clean :
      (base : RemoteSource) (rs : List (Request ModulePackage VersionSet Finder)) (work : Work w)
      → Clean work (add_requests w base rs work) (
          Grows work.0 (add_requests w base rs work).0
          × All (Handled (add_requests w base rs work).0 base) rs)
  unfolding add_requests
  add_requests-Clean base [] work h =
      (h, (Grows-parts (Stays-same w refl refl) (λ a k. k) (λ p k. inl k), tt))
  add_requests-Clean base (r ∷ rs) work h =
      let (mid, rest) = add_requests-Clean base rs (add_request w base r work) h in
      let (start, one) = add_request-Clean base r work mid in
      (start, (Grows-trans one.0 rest.0, (Handled-Grows rest.0 base r one.1, rest.1)))

  pub Grows-same :
      {b c : Builder w}
      → Stays w b c
      → c.analyzed ≡ b.analyzed
      → c.pending_remote ≡ b.pending_remote
      → c.pending_registry ≡ b.pending_registry
      → Grows b c
  Grows-same {b} {c} s x y z = Grows-parts s (λ a h. go a h) (λ p h. inl (subst (In p) (sym z) h))
    where
      go : (a : Artifact w) → Has b a → Has c a
      go a (inl h) = inl (subst (In a) (sym x) h)
      go a (inr h) = inr (subst (In a) (sym y) h)

  after_registry-Clean :
      (p : Pending w) (b : Builder w) (diags : List Diagnostic)
      (m : Result Text RemoteSource × Builder w)
      → HasAnswers w b
      → Finds w (IsFinal w p.source_addr p.versions) b m
      → SameCore w b m.1
      → has_errors (after_registry w p.dep_finder diags m).1 ≡ false
      → (has_errors diags ≡ false)
        × Grows b (after_registry w p.dep_finder diags m).0
        × HasRegistry (after_registry w p.dep_finder diags m).0 p
  after_registry-Clean p b diags (err e, c) a f s h = fails diags _ h
  after_registry-Clean p b diags (ok r, c) a f s h =
      let (real, answer, e) = f.good a r refl in
      (
        h,
        Grows-trans
            (Grows-same {b = b} {c = c} (Stays-same w s.dirs s.disk) f.analyzed f.remote f.registry)
            (Grows-parts (Stays-same w refl refl) (Has-push c _) (λ p k. inl k)),
        inr (
          real,
          answer,
          inr (inl (ap (λ s. record { source_addr = s; dep_finder = p.dep_finder }) (sym e))),
        ),
      )

  after_registry-registry :
      (finder : Finder) (diags : List Diagnostic) (m : Result Text RemoteSource × Builder w)
      → (after_registry w finder diags m).0.pending_registry ≡ m.1.pending_registry
  after_registry-registry finder diags (ok r, c) = refl
  after_registry-registry finder diags (err e, c) = refl

  -- An item that has been taken off the registry queue, and is handled, is not missed.
  Grows-taken :
      (b d : Builder w) (next : Pending w) (remain : List (Pending w))
      → b.pending_registry ≡ next ∷ remain
      → Grows (record b { pending_registry = remain }) d
      → HasRegistry d next
      → Grows b d
  Grows-taken b d next remain e g h =
      Grows-parts (Stays-trans w (Stays-same w refl refl) g.stays) g.has
        (λ p k. go p (subst (In p) e k))
    where
      go : (p : Pending w) → In p (next ∷ remain) → HasRegistry d p
      go p (inl same) = subst (HasRegistry d) (sym same) h
      go p (inr k) = g.registry p (inl k)

  pub drain_registry-Clean :
      (items : List (Pending w)) (b : Builder w) (diags : List Diagnostic)
      → b.pending_registry ≡ items
      → HasAnswers w b
      → Clean
          (b, diags)
          (drain_registry w items (b, diags))
          (Grows b (drain_registry w items (b, diags)).0)
  unfolding drain_registry resolve_registry
  drain_registry-Clean [] b diags e a h = (h, Grows-same (Stays-same w refl refl) refl refl refl)
  drain_registry-Clean (next ∷ remain) b diags e a h =
      let c : Builder w = record b { pending_registry = remain } in
      let f = find_registry_package_source-Finds w next.source_addr next.versions c a in
      let core = find_registry_package_source-SameCore w next.source_addr next.versions c in
      let work = resolve_registry w next (c, diags) in
      let (mid, rest) =
        drain_registry-Clean remain work.0 work.1
          (after_registry-registry next.dep_finder diags _ ∙ f.registry)
          (resolve_registry-HasAnswers w next (c, diags) a) h in
      let (start, one, met) = after_registry-Clean next c diags _ a f core mid in
      (start, Grows-trans (Grows-taken b work.0 next remain e one met) rest)
