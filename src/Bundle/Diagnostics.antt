-- ===== src/Bundle/Diagnostics.antt =====
-- sourcebundle/diagnostics.go: where diagnostics are, in terms of remote sources.
use go_slug.Prelude.{
  ◌≡◌, refl, ap, ◌∙◌, inl, inr, Option, none, some, if◌then◌else◌, if_true, ok, ◌>>=◌, Bool-cases,
}
use go_slug.Addrs.SubPath.{valid_sub_path}
use go_slug.Addrs.Types.{Packages, RemotePackage}
use go_slug.Addrs.Remote.{R, source_addr, remote_source_string}
use go_slug.Bundle.Types.{
  Diagnostic, internal_diagnostic, reported, in_source_package, SourceRange, DiagSource,
}
use go_slug.Bundle.Spelled.{source_addr-valid}

module _ (p : Packages) where
  -- One of the two ranges of Source.
  unfoldable pub range_in_package : RemotePackage → Option SourceRange → R (Option SourceRange)
  unfolding valid_sub_path source_addr remote_source_string
  range_in_package pkg none = ok none
  range_in_package pkg (some rng) =
      if valid_sub_path rng.filename
      then (source_addr pkg rng.filename >>= λ addr.
          ok (some (record rng { filename = remote_source_string p addr })))
      else ok (some rng)

  unfoldable pub in_package : RemotePackage → DiagSource → R DiagSource
  unfolding range_in_package
  in_package pkg source = do
    subject ← range_in_package pkg source.subject
    context ← range_in_package pkg source.context
    ok (record { subject = subject; context = context })

  -- Diagnostic.Source, with the panic of SourceAddr
  unfoldable pub diag_source : Diagnostic → R DiagSource
  unfolding in_package
  diag_source (internal_diagnostic _ _) = ok (record { subject = none; context = none })
  diag_source (reported _ _ source) = ok source
  diag_source (in_source_package d pkg) = diag_source d >>= in_package pkg

  -- A range whose file is named as a remote source, if the name is that of a file in the package.
  abbrev pub renamed : RemotePackage → SourceRange → SourceRange
  renamed pkg rng = record rng {
    filename =
        if valid_sub_path rng.filename
        then remote_source_string p (record { pkg = pkg; sub_path = rng.filename })
        else rng.filename;
  }

  abbrev pub renamed_option : RemotePackage → Option SourceRange → Option SourceRange
  renamed_option pkg none = none
  renamed_option pkg (some rng) = some (renamed pkg rng)

  range_in_package-renamed :
      (pkg : RemotePackage) (o : Option SourceRange)
      → range_in_package pkg o ≡ ok (renamed_option pkg o)
  unfolding range_in_package
  range_in_package-renamed pkg none = refl
  range_in_package-renamed pkg (some rng) = elim (Bool-cases (valid_sub_path rng.filename)) [
    | inl e ↦
        if_true _ _ e
        ∙ ap (λ r. r >>= λ addr. ok (some (record rng { filename = remote_source_string p addr })))
            (source_addr-valid pkg rng.filename e)
        ∙ rw e refl
    | inr e ↦ rw e refl
  ]

  abbrev pub renamed_source : RemotePackage → DiagSource → DiagSource
  renamed_source pkg source = record {
    subject = renamed_option pkg source.subject;
    context = renamed_option pkg source.context;
  }

  in_package-renamed :
      (pkg : RemotePackage) (source : DiagSource)
      → in_package pkg source ≡ ok (renamed_source pkg source)
  unfolding in_package
  in_package-renamed pkg source =
      ap
        (λ r. r >>= λ subject. range_in_package pkg source.context >>= λ context.
          ok (record { subject = subject; context = context }))
        (range_in_package-renamed pkg source.subject)
      ∙ ap
          (λ r. r >>= λ context.
            ok (record { subject = renamed_option pkg source.subject; context = context }))
          (range_in_package-renamed pkg source.context)

  diag_source-returns : (d : Diagnostic) → (source : DiagSource) × (diag_source d ≡ ok source)
  unfolding diag_source
  diag_source-returns (internal_diagnostic s t) = (_, refl)
  diag_source-returns (reported s t source) = (source, refl)
  diag_source-returns (in_source_package d q) =
      let (source, e) = diag_source-returns d in
      (renamed_source q source, ap (λ r. r >>= in_package q) e ∙ in_package-renamed q source)

  -- Source never panics. Of a diagnostic that was put in a source package it is the source of the
  -- diagnostic itself, with each range at its place, and with the name of its file, where that is a
  -- valid sub-path, as the text of the remote source with the sub-path in the package.
  pub diag_source-renamed :
      (d : Diagnostic) (pkg : RemotePackage)
      → (source : DiagSource) × (diag_source d ≡ ok source)
        × (diag_source (in_source_package d pkg) ≡ ok (renamed_source pkg source))
  unfolding diag_source
  diag_source-renamed d pkg =
      let (source, e) = diag_source-returns d in
      (source, e, ap (λ r. r >>= in_package pkg) e ∙ in_package-renamed pkg source)
