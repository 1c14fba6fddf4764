-- ===== src/Addrs/Registry.antt =====
-- sourceaddrs/source_registry.go and source_registry_final.go: sources in a module registry.
use go_slug.Prelude.{
  Bool, true, false, not, ◌&&◌, Option, none, some, [], ◌∷◌, ◌++◌, if◌then◌else◌, ◌==◌, Text, codes,
  is_empty, drop, ok, ◌>>=◌,
}
use go_slug.Go.Strings.{has_prefix}
use go_slug.Go.Path.{join_path}
use go_slug.Addrs.SubPath.{normalize_sub_path, split_sub_path}
use go_slug.Addrs.Types.{
  Packages, RemoteSource, RegistrySource, RegistrySourceFinal, invalid_module_source,
  invalid_version, has_sub_path, panicked,
}
use go_slug.Addrs.Remote.{R, lift_sub_path, or_error, guard, one_line}

-- RegistrySource.FinalSourceAddr
unfoldable pub final_source_addr : {M : Type 0} → RegistrySource M → RemoteSource → RemoteSource
unfolding join_path
final_source_addr s real_source =
    if is_empty s.sub_path
    then real_source
    else if is_empty real_source.sub_path
    then record { pkg = real_source.pkg; sub_path = s.sub_path }
    else record { pkg = real_source.pkg; sub_path = join_path real_source.sub_path s.sub_path }

-- finalRegistrySourcePattern, ^(.+)@([^/]+)(//(.+))?$: what stands behind the @, with the version in
-- front of the first slash and the sub-path behind two slashes.
unfoldable pub version_and_sub_path : Text → Text → Option (Text × Text)
unfolding has_prefix
version_and_sub_path version [] = if is_empty version then none else some (version, [])
version_and_sub_path version (c ∷ s) =
    let longer = version_and_sub_path (version ++ (c ∷ [])) s in
    if not (c == b'/')
    then longer
    else if not (is_empty version) && has_prefix s (codes "/") && one_line (drop 1 s)
    then some (version, drop 1 s)
    else none

-- The whole pattern, behind the characters `addr` of its first group, which takes as much as it can.
unfoldable pub match_final : Text → Text → Option (Text × (Text × Text))
unfolding version_and_sub_path
match_final addr [] = none
match_final addr (c ∷ s) = elim (if c == 10 then none else match_final (addr ++ (c ∷ [])) s) [
  | some found ↦ some found
  | none ↦
      if c == b'@' && not (is_empty addr)
      then (elim (version_and_sub_path [] s) [ none ↦ none | some found ↦ some (addr, found) ])
      else none
]

-- The address without its version, and the version; both are empty where the pattern does not match.
unfoldable pub final_parts : Text → Text × Text
unfolding match_final
final_parts given = elim (match_final [] given) [
  | none ↦ ([], [])
  | some (addr, (version, sub_path)) ↦ (addr ++ (codes "//" ++ sub_path), version)
]

module _ (p : Packages) where
  open p use {
    ModulePackage, module_package_string, parse_module_source, Version, version_string,
    parse_version,
  }

  abbrev is_some : {A : Type 0} → Option A → Bool
  is_some none = false
  is_some (some a) = true

  -- looksLikeRegistrySource
  unfoldable pub looks_like_registry_source : Text → Bool
  looks_like_registry_source given = is_some (parse_module_source given)

  -- ParseRegistrySource
  unfoldable pub parse_registry_source : Text → R (RegistrySource ModulePackage)
  unfolding split_sub_path normalize_sub_path
  parse_registry_source given = do
    let parts = split_sub_path given
    sub_path ← lift_sub_path (normalize_sub_path parts.1)
    found ← or_error (parse_module_source parts.0) invalid_module_source
    _ ← guard (is_empty found.1) panicked
    ok (record { pkg = found.0; sub_path = sub_path })

  -- ParseRegistryPackage
  unfoldable pub parse_registry_package : Text → R ModulePackage
  unfolding parse_registry_source
  parse_registry_package given = do
    s ← parse_registry_source given
    _ ← guard (is_empty s.sub_path) has_sub_path
    ok s.pkg

  -- RegistrySource.String
  unfoldable pub registry_source_string : RegistrySource ModulePackage → Text
  registry_source_string s =
      if not (is_empty s.sub_path)
      then module_package_string s.pkg ++ (codes "//" ++ s.sub_path)
      else module_package_string s.pkg

  -- looksLikeFinalRegistrySource
  unfoldable pub looks_like_final_registry_source : Text → Bool
  unfolding looks_like_registry_source final_parts
  looks_like_final_registry_source given = looks_like_registry_source (final_parts given).0

  -- RegistrySource.Versioned
  abbrev pub versioned :
      RegistrySource ModulePackage → Version → RegistrySourceFinal ModulePackage Version
  versioned s v = record { src = s; version = v }

  -- ParseFinalRegistrySource
  unfoldable pub parse_final_registry_source : Text → R (RegistrySourceFinal ModulePackage Version)
  unfolding parse_registry_source final_parts
  parse_final_registry_source given = do
    let parts = final_parts given
    version ← or_error (parse_version parts.1) invalid_version
    src ← parse_registry_source parts.0
    ok (versioned src version)

  -- RegistrySourceFinal.String
  unfoldable pub registry_source_final_string : RegistrySourceFinal ModulePackage Version → Text
  registry_source_final_string s =
      let versioned_package =
        module_package_string s.src.pkg ++ (codes "@" ++ version_string s.version) in
      if not (is_empty s.src.sub_path)
      then versioned_package ++ (codes "//" ++ s.src.sub_path)
      else versioned_package

-- RegistrySourceFinal.FinalSourceAddr
unfoldable pub final_source_addr_final :
    {M V : Type 0} → RegistrySourceFinal M V → RemoteSource → RemoteSource
unfolding final_source_addr
final_source_addr_final s real_source = final_source_addr s.src real_source
