-- ===== src/Bundle/Resolve.antt =====
-- resolvePending of sourcebundle/builder.go, and the methods that add sources.

use go_slug.Prelude.{
  ℕ, Bool, true, false, zero, suc, none, some, List, [], ◌∷◌, ◌++◌, Text, Result, ok, err, lookup,
  if◌then◌else◌, member,
}
use go_slug.Addrs.Types.{RemoteSource, RegistrySource, RegistrySourceFinal, Source, AddrError}
use go_slug.Addrs.Source.{resolve_relative_source}
use go_slug.Bundle.Types.{
  World, Failure, panics, Request, Diagnostic, internal_diagnostic, diag_error, Summary,
  cannot_resolve_registry_package, cannot_install_package, invalid_relative_address, has_errors,
  in_remote_source_package, add_remote_source, add_registry_source, add_local_source, diagnostics,
}
use go_slug.Bundle.Builder.{
  Builder, Artifact, Pending, artifact_discrete, Text-discrete, ensure_remote_package,
}
use go_slug.Bundle.Registry.{find_registry_package_source}

module _ (w : World) where
  open w use {VersionSet, only, Finder, find_dependencies}
  open w.packages use {ModulePackage, Version}

  -- The variables of resolvePending: the builder and the diagnostics so far.
  abbrev pub Work : Type 0
  Work = (Builder w) × List Diagnostic

  abbrev failure : Summary → Diagnostic
  failure s = internal_diagnostic diag_error s

  abbrev pub push_remote : (Artifact w) → Work → Work
  push_remote a (b, diags) = (record b { pending_remote = a ∷ b.pending_remote }, diags)

  abbrev pub after_registry :
      Finder → List Diagnostic → Result Text RemoteSource × (Builder w) → Work
  after_registry finder diags (err e, b) =
      (b, diags ++ (failure cannot_resolve_registry_package ∷ []))
  after_registry finder diags (ok real, b) =
      push_remote (record { source_addr = real; dep_finder = finder }) (b, diags)

  -- One item of the registry queue, which has been taken off.
  unfoldable pub resolve_registry : (Pending w) → Work → Work
  unfolding find_registry_package_source
  resolve_registry next (b, diags) =
      after_registry next.dep_finder diags
        ((find_registry_package_source w) next.source_addr next.versions b)

  -- The loop that empties the registry queue; it adds nothing to that queue.
  unfoldable pub drain_registry : List (Pending w) → Work → Work
  unfolding resolve_registry
  drain_registry [] work = work
  drain_registry (next ∷ remain) (b, diags) =
      drain_registry remain (resolve_registry next (record b { pending_registry = remain }, diags))

  abbrev pub add_resolved : Finder → Result AddrError (Source ModulePackage) → Work → Work
  add_resolved finder (ok (Source.remote_source s)) work =
      push_remote (record { source_addr = s; dep_finder = finder }) work
  add_resolved finder _ (b, diags) = (b, diags ++ (failure invalid_relative_address ∷ []))

  -- The methods of Dependencies, with the callbacks that resolvePending gives them.
  unfoldable pub add_request : RemoteSource → Request ModulePackage VersionSet Finder → Work → Work
  unfolding resolve_relative_source
  add_request base (add_remote_source s finder) work =
      push_remote (record { source_addr = s; dep_finder = finder }) work
  add_request base (add_registry_source s allowed finder) (b, diags) = (
    record b {
      pending_registry =
          record { source_addr = s; versions = allowed; dep_finder = finder } ∷ b.pending_registry;
    },
    diags,
  )
  add_request base (add_local_source s finder) work =
      add_resolved finder
        (resolve_relative_source (Source.remote_source base) (Source.local_source s)) work

  unfoldable pub add_requests :
      RemoteSource → List (Request ModulePackage VersionSet Finder) → Work → Work
  unfolding add_request
  add_requests base [] work = work
  add_requests base (r ∷ rs) work = add_requests base rs (add_request base r work)

  -- What a dependency finder reports of an artifact in the directory of its package.
  abbrev pub findings :
      (Artifact w)
      → Text
      → (Builder w)
      → List (Request ModulePackage VersionSet Finder) × List Diagnostic
  findings a dir b =
      find_dependencies a.dep_finder (lookup Text-discrete dir b.disk) a.source_addr.sub_path

  abbrev pub log_diagnostics : List Diagnostic → (Builder w) → (Builder w)
  log_diagnostics [] b = b
  log_diagnostics (d ∷ diags) b = record b { trace = diagnostics (d ∷ diags) ∷ b.trace }

  abbrev pub note_analyzed : (Artifact w) → List Diagnostic → Work → Work
  note_analyzed a more (b, diags) =
      (log_diagnostics more (record b { analyzed = a ∷ b.analyzed }), diags ++ more)

  -- The analysis of an artifact that has not been analyzed.
  unfoldable pub analyze : (Artifact w) → Text → Work → Work
  unfolding add_requests in_remote_source_package
  analyze a dir (b, diags) =
      note_analyzed a (in_remote_source_package a.source_addr.pkg (findings a dir b).1)
        (add_requests a.source_addr (findings a dir b).0 (b, diags))

  abbrev pub after_package :
      (Artifact w) → List Diagnostic → Result Failure Text × (Builder w) → Work
  after_package a diags (err e, b) = (b, diags ++ (failure cannot_install_package ∷ []))
  after_package a diags (ok dir, b) =
      if member (artifact_discrete w) a b.analyzed then (b, diags) else analyze a dir (b, diags)

  -- One item of the remote queue, which has been taken off.
  unfoldable pub visit : (Artifact w) → Work → Work
  unfolding ensure_remote_package analyze
  visit next (b, diags) =
      after_package next diags ((ensure_remote_package w) next.source_addr.pkg b)

  -- What a call of a method comes to.
  pub data Call : Type 0 where
    panicked unfinished : Call
    returned : Work → Call

  abbrev pub did_panic : Result Failure Text → Bool
  did_panic (err panics) = true
  did_panic _ = false

  -- Whether ensureRemotePackage panics in the visit of an artifact, which then is without a result.
  abbrev pub visit_panics : (Artifact w) → Work → Bool
  visit_panics next (b, diags) = did_panic (ensure_remote_package w next.source_addr.pkg b).0

  -- The loops over the two queues, on fuel: a round takes one remote item, or all registry items.
  unfoldable pub resolve_loop : ℕ → Work → Call
  unfolding visit drain_registry
  resolve_loop zero work = unfinished
  resolve_loop (suc fuel) (b, diags) = elim b.pending_remote [
    | next ∷ remain ↦
        let taken : Work = (record b { pending_remote = remain }, diags) in
        let rest = resolve_loop fuel (visit next taken) in
        if visit_panics next taken then panicked else rest
    | [] ↦ elim b.pending_registry [
      | [] ↦ returned (b, diags)
      | next ∷ remain ↦ resolve_loop fuel (drain_registry (next ∷ remain) (b, diags))
    ]
  ]

  -- The deferred function of resolvePending: an error closes the builder.
  abbrev pub close_on_error : Work → Work
  close_on_error (b, diags) =
      (if has_errors diags then record b { target_dir = none } else b, diags)

  abbrev pub close_after : Call → Call
  close_after panicked = panicked
  close_after unfinished = unfinished
  close_after (returned work) = returned (close_on_error work)

  -- resolvePending
  unfoldable pub resolve_pending : ℕ → (Builder w) → Call
  unfolding resolve_loop has_errors
  resolve_pending fuel b =
      close_after (resolve_loop fuel (drain_registry b.pending_registry (b, [])))

  abbrev pub queue_remote : Artifact w → Builder w → Builder w
  queue_remote a b = record b { pending_remote = a ∷ b.pending_remote }

  abbrev pub queue_registry : Pending w → Builder w → Builder w
  queue_registry p b = record b { pending_registry = p ∷ b.pending_registry }

  -- Builder.AddRemoteSource
  unfoldable pub builder_add_remote_source : ℕ → RemoteSource → Finder → Builder w → Call
  unfolding resolve_pending
  builder_add_remote_source fuel addr finder b =
      let a : Artifact w = record { source_addr = addr; dep_finder = finder } in
      elim b.target_dir [
        | none ↦ panicked
        | some _ ↦
            if member (artifact_discrete w) a b.analyzed
            then returned (b, [])
            else resolve_pending fuel (queue_remote a b)
      ]

  -- Builder.AddRegistrySource
  unfoldable pub builder_add_registry_source :
      ℕ → RegistrySource ModulePackage → VersionSet → Finder → Builder w → Call
  unfolding resolve_pending
  builder_add_registry_source fuel addr allowed finder b =
      let p : Pending w = record { source_addr = addr; versions = allowed; dep_finder = finder } in
      elim b.target_dir [ none ↦ panicked | some _ ↦ resolve_pending fuel (queue_registry p b) ]

  -- Builder.AddFinalRegistrySource
  unfoldable pub builder_add_final_registry_source :
      ℕ → RegistrySourceFinal ModulePackage Version → Finder → (Builder w) → Call
  unfolding builder_add_registry_source
  builder_add_final_registry_source fuel addr finder b =
      builder_add_registry_source fuel addr.src (only addr.version) finder b
