-- ===== src/Bundle/Panics.antt =====
-- What a call of resolvePending comes to: where it returns nothing panicked, and where the preparation
-- of packages never panics nothing does.
use go_slug.Prelude.{
  ℕ, ◌≡◌, refl, inl, inr, Bool, true, false, ◌≢◌, if◌then◌else◌, List, [], Text, Result, ok, err,
  lookup, Option-cases, Result-cases,
}
use go_slug.Addrs.Types.{RemotePackage}
use go_slug.Bundle.Types.{Failure, failed, panics, World, Event, RemotePackage-discrete}
use go_slug.Bundle.Builder.{
  Builder, Artifact, Text-discrete, place_package, finish_package, download, report,
  ensure_remote_package,
}
use go_slug.Bundle.Resolve.{
  Work, Call, returned, panicked, unfinished, close_on_error, close_after, drain_registry,
  resolve_loop, resolve_pending, visit_panics, did_panic,
}

module _ (w : World) where
  open w.packages use {ModulePackage, Version}

  pub not_panicked :
      (t : Bool) (c : Call w) {work : Work w}
      → (if t then panicked else c) ≡ returned work
      → c ≡ returned work
  not_panicked true c h = cc h
  not_panicked false c h = h

  closed_after :
      (c : Call w) {work : Work w}
      → close_after w c ≡ returned work
      → (done : Work w) × (c ≡ returned done) × (close_on_error w done ≡ work)
  closed_after panicked h = cc h
  closed_after unfinished h = cc h
  closed_after (returned done) h = (done, refl, cc h)

  pub resolve_pending-returned :
      (fuel : ℕ) (b : Builder w) {work : Work w}
      → resolve_pending w fuel b ≡ returned work
      → (done : Work w) × (resolve_loop w fuel (drain_registry w b.pending_registry (b, []))
          ≡ returned done)
        × (close_on_error w done ≡ work)
  unfolding resolve_pending
  resolve_pending-returned fuel b h = closed_after _ h

  -- Preparing a package does not panic, whatever was fetched and whatever happened before.
  abbrev pub NeverPanics : Type 0
  NeverPanics =
      (trace : List (Event ModulePackage Version)) (fetched : w.Tree)
      → w.prepare trace fetched ≢ err panics

  place_package-safe :
      (dir : Text) (tree : w.Tree) (b : Builder w)
      → did_panic w (place_package w dir tree b).0 ≡ false
  unfolding place_package
  place_package-safe dir tree b = elim (Option-cases (lookup Text-discrete dir b.disk)) [
    | inr (t, e) ↦ elim (Result-cases (w.remove_work_dir b.trace)) [
      | inr (_, k) ↦ rw (e, k, place_package) refl
      | inl (_, k) ↦ rw (e, k, place_package) refl
    ]
    | inl e ↦ elim (Result-cases (w.rename_work_dir b.trace)) [
      | inr (_, k) ↦ rw (e, k, place_package) refl
      | inl (_, k) ↦ rw (e, k, place_package) refl
    ]
  ]

  finish_package-safe :
      NeverPanics
      → (pkg : RemotePackage) (fetched : w.Tree) (b : Builder w)
      → did_panic w (finish_package w pkg fetched b).0 ≡ false
  unfolding finish_package
  finish_package-safe never pkg fetched b = elim (Result-cases (w.prepare b.trace fetched)) [
    | inr (failed e, h) ↦ rw (h, finish_package) refl
    | inr (panics, h) ↦ absurd (never b.trace fetched h)
    | inl (tree, h) ↦ elim (Result-cases (w.hash_dir tree)) [
      | inr (e, k) ↦ rw (h, k, finish_package) refl
      | inl (dir, k) ↦ rw (h, k, finish_package) (place_package-safe dir tree _)
    ]
  ]

  download-safe :
      NeverPanics → (pkg : RemotePackage) (b : Builder w) → did_panic w (download w pkg b).0 ≡ false
  unfolding download
  download-safe never pkg b = elim (Result-cases (w.make_temp_dir b.trace)) [
    | inr (e, h) ↦ rw (h, download) refl
    | inl (u, h) ↦ elim (Result-cases (w.fetch_source_package b.trace pkg)) [
      | inr (e, k) ↦ rw (h, k, download) refl
      | inl ((meta, tree), k) ↦ rw (h, k, download) (finish_package-safe never pkg tree _)
    ]
  ]

  report-safe :
      (pkg : RemotePackage) (m : Result Failure Text × Builder w)
      → did_panic w m.0 ≡ false
      → did_panic w (report w pkg m).0 ≡ false
  report-safe pkg (ok dir, b) h = h
  report-safe pkg (err e, b) h = h

  ensure_remote_package-safe :
      NeverPanics
      → (pkg : RemotePackage) (b : Builder w)
      → did_panic w (ensure_remote_package w pkg b).0 ≡ false
  unfolding ensure_remote_package
  ensure_remote_package-safe never pkg b =
      elim (Option-cases (lookup RemotePackage-discrete pkg b.remote_package_dirs)) [
        | inr (dir, h) ↦ rw (h, ensure_remote_package) refl
        | inl h ↦ rw (h, ensure_remote_package) (report-safe pkg _ (download-safe never pkg _))
      ]

  pub visit-safe : NeverPanics → (a : Artifact w) (work : Work w) → visit_panics w a work ≡ false
  visit-safe never a (b, diags) = ensure_remote_package-safe never a.source_addr.pkg b
