-- ===== src/Addrs/Source.antt =====
-- sourceaddrs/source.go and source_final.go: any source address, its parser and its resolution.
use go_slug.Prelude.{not, ◌||◌, if◌then◌else◌, Text, text_eq, is_empty, Result, ok, err, ◌>>=◌}
use go_slug.Go.Strings.{trim_space}
use go_slug.Go.Path.{join_path, base}
use go_slug.Addrs.Local.{
  LocalSource, LocalError, looks_like_local_source, parse_local_source, is_dots, with_prefix,
}
use go_slug.Addrs.SubPath.{join_sub_path}
use go_slug.Addrs.Types.{
  Packages, Source, FinalSource, surrounding_spaces, empty_address, invalid_local,
}
use go_slug.Addrs.Remote.{R, lift_sub_path, parse_remote_source}
use go_slug.Addrs.Registry.{
  looks_like_registry_source, parse_registry_source, looks_like_final_registry_source,
  parse_final_registry_source,
}

abbrev lift_local {ℓ} : {A : Type ℓ} → Result LocalError A → R A
lift_local (ok a) = ok a
lift_local (err e) = err (invalid_local e)

-- Resolving a local address against a local one: path.Join, and the prefix where it got lost.
unfoldable pub join_local : LocalSource → LocalSource → LocalSource
unfolding join_path with_prefix
join_local a b = record { rel_path = with_prefix (join_path a.rel_path b.rel_path) }

module _ (p : Packages) where
  open p use {ModulePackage, Version}

  -- ParseSource
  unfoldable pub parse_source : Text → R (Source ModulePackage)
  unfolding trim_space looks_like_local_source parse_local_source looks_like_registry_source
      parse_registry_source parse_remote_source
  parse_source given =
      if not (text_eq (trim_space given) given)
      then err surrounding_spaces
      else if is_empty given
      then err empty_address
      else if looks_like_local_source given || is_dots given
      then lift_local (parse_local_source given) >>= (λ s. ok (Source.local_source s))
      else if looks_like_registry_source p given
      then parse_registry_source p given >>= (λ s. ok (Source.registry_source s))
      else parse_remote_source p given >>= (λ s. ok (Source.remote_source s))

  -- ParseFinalSource
  unfoldable pub parse_final_source : Text → R (FinalSource ModulePackage Version)
  unfolding trim_space looks_like_local_source parse_local_source looks_like_final_registry_source
      parse_final_registry_source parse_remote_source
  parse_final_source given =
      if not (text_eq (trim_space given) given)
      then err surrounding_spaces
      else if is_empty given
      then err empty_address
      else if looks_like_local_source given || is_dots given
      then lift_local (parse_local_source given) >>= (λ s. ok (FinalSource.local_source s))
      else if looks_like_final_registry_source p given
      then parse_final_registry_source p given >>= (λ s. ok (FinalSource.registry_source_final s))
      else parse_remote_source p given >>= (λ s. ok (FinalSource.remote_source s))

module _ {M : Type 0} where
  -- ResolveRelativeSource, from the switch over `a` on
  unfoldable pub resolve_local : Source M → LocalSource → R (Source M)
  unfolding join_local join_sub_path
  resolve_local (Source.local_source a) b = ok (Source.local_source (join_local a b))
  resolve_local (Source.registry_source a) b =
      lift_sub_path (join_sub_path a.sub_path b.rel_path) >>= λ s.
      ok (Source.registry_source (record { pkg = a.pkg; sub_path = s }))
  resolve_local (Source.remote_source a) b =
      lift_sub_path (join_sub_path a.sub_path b.rel_path) >>= λ s.
      ok (Source.remote_source (record { pkg = a.pkg; sub_path = s }))

  -- ResolveRelativeSource
  unfoldable pub resolve_relative_source : Source M → Source M → R (Source M)
  unfolding resolve_local
  resolve_relative_source a (Source.local_source b) = resolve_local a b
  resolve_relative_source a (Source.registry_source b) = ok (Source.registry_source b)
  resolve_relative_source a (Source.remote_source b) = ok (Source.remote_source b)

  -- SourceFilename
  unfoldable pub source_filename : Source M → Text
  unfolding base
  source_filename (Source.local_source s) = base s.rel_path
  source_filename (Source.registry_source s) = base s.sub_path
  source_filename (Source.remote_source s) = base s.sub_path

module _ {M V : Type 0} where
  -- ResolveRelativeFinalSource, from the switch over `a` on
  unfoldable pub resolve_local_final : FinalSource M V → LocalSource → R (FinalSource M V)
  unfolding join_local join_sub_path
  resolve_local_final (FinalSource.local_source a) b =
      ok (FinalSource.local_source (join_local a b))
  resolve_local_final (FinalSource.registry_source_final a) b =
      lift_sub_path (join_sub_path a.src.sub_path b.rel_path) >>= λ s. ok (
        FinalSource.registry_source_final
          (record { src = record { pkg = a.src.pkg; sub_path = s }; version = a.version }))
  resolve_local_final (FinalSource.remote_source a) b =
      lift_sub_path (join_sub_path a.sub_path b.rel_path) >>= λ s.
      ok (FinalSource.remote_source (record { pkg = a.pkg; sub_path = s }))

  -- ResolveRelativeFinalSource
  unfoldable pub resolve_relative_final_source :
      FinalSource M V → FinalSource M V → R (FinalSource M V)
  unfolding resolve_local_final
  resolve_relative_final_source a (FinalSource.local_source b) = resolve_local_final a b
  resolve_relative_final_source a (FinalSource.registry_source_final b) =
      ok (FinalSource.registry_source_final b)
  resolve_relative_final_source a (FinalSource.remote_source b) = ok (FinalSource.remote_source b)

  -- FinalSourceFilename
  unfoldable pub final_source_filename : FinalSource M V → Text
  unfolding base
  final_source_filename (FinalSource.local_source s) = base s.rel_path
  final_source_filename (FinalSource.registry_source_final s) = base s.src.sub_path
  final_source_filename (FinalSource.remote_source s) = base s.sub_path
