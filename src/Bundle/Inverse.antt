-- ===== src/Bundle/Inverse.antt =====
-- SourceForLocalPath and LocalPathForRemoteSource.
use go_slug.Prelude.{
  All-append, lookup-All, ◌≤◌, ◌≡◌, refl, sym, ap, ◌∙◌, inl, inr, true, false, not, ◌||◌, Option,
  none, some, List, [], ◌∷◌, ◌++◌, Text, text_eq, All, In-entries, lookup_of_entries, entries,
  lookup, if_false, ok, err, ◌>>=◌, >>=-eq-ok, ok-injective,
}
use go_slug.Go.Strings.{byte_length, join, cut}
use go_slug.Go.Path.{slash, dot, valid_path, is_abs, abs, join_paths}
use go_slug.Go.Walk.{IsName}
use go_slug.Go.Relative.{rel}
use go_slug.Go.Rooted.{rooted, clean-rooted, rel-rooted}
use go_slug.Addrs.SubPath.{normalize_sub_path, valid_sub_path}
use go_slug.Addrs.SubPath.Join.{directories}
use go_slug.Addrs.Types.{Packages, RemotePackage, RemoteSource, FinalSource}
use go_slug.Addrs.Remote.{source_addr, remote_package_string}
use go_slug.Bundle.Types.{RemotePackage-discrete}
use go_slug.Bundle.Open.{Bundle, or_failed, valid_local_dir, Files, open_dir}
use go_slug.Bundle.Lookup.{
  local_path_for_remote_source, find_package, source_in, source_for_sub_path, source_for_local_path,
  package_not_included, or_panicked, not_in_bundle,
}
use go_slug.Bundle.Paths.{IsAbsolute, valid_local_dir-IsName, join_paths-rooted}
use go_slug.Bundle.Confined.{IsConfined, open_dir-IsConfined}
use go_slug.Bundle.Opening.{or_failed-ok}
use go_slug.Bundle.Spelled.{
  spelled, spelled-valid_path, spelled-dot, clean-spelled, cut-package, directories-IsName,
  normalize-valid,
}
use go_slug.Bundle.Chosen.{find_package-Chosen}

module _ (p : Packages) where
  named :
      (pkg : RemotePackage) (s : Text)
      → normalize_sub_path s ≡ ok s
      → or_panicked p (source_addr pkg s)
        ≡ ok (FinalSource.remote_source (record { pkg = pkg; sub_path = s }))
  unfolding source_addr
  named pkg s n = rw (n, or_panicked) refl

  source_in-found :
      (b : Bundle p) (dir sub_path : Text) {pkg : RemotePackage}
      → find_package p dir (entries RemotePackage-discrete b.remote_package_dirs) none ≡ some pkg
      → normalize_sub_path sub_path ≡ ok sub_path
      → source_in p b (dir, sub_path)
        ≡ ok (FinalSource.remote_source (record { pkg = pkg; sub_path = sub_path }))
  unfolding source_in
  source_in-found b dir sub_path {pkg} found n =
      ap (λ o. or_failed o not_in_bundle >>= λ q. or_panicked p (source_addr q sub_path)) found
      ∙ named pkg sub_path n

  -- From the path below the bundle's directory on.
  source_for_sub_path-package :
      (b : Bundle p) (addr : RemoteSource) {dir : Text}
      → lookup RemotePackage-discrete addr.pkg b.remote_package_dirs ≡ some dir
      → valid_local_dir dir ≡ true
      → valid_sub_path addr.sub_path ≡ true
      → (pkg : RemotePackage) × (source_for_sub_path p b
            (join slash (dir ∷ directories addr.sub_path))
          ≡ ok (FinalSource.remote_source (record { pkg = pkg; sub_path = addr.sub_path })))
        × (lookup RemotePackage-discrete pkg b.remote_package_dirs ≡ some dir)
        × (byte_length (remote_package_string p pkg)
            ≤ byte_length (remote_package_string p addr.pkg))
  unfolding source_for_sub_path
  source_for_sub_path-package b addr {dir} l d v =
      let name = (valid_local_dir-IsName dir d).0 in
      let all : All IsName (dir ∷ directories addr.sub_path) =
        (name, directories-IsName addr.sub_path v) in
      let sub : Text = spelled dir (directories addr.sub_path) all in
      let inside : (not (valid_path sub) || text_eq sub dot) ≡ false =
        rw
          (
            spelled-valid_path dir (directories addr.sub_path) all,
            spelled-dot dir (directories addr.sub_path) all,
          )
          refl in
      let (pkg, found, chosen) =
        find_package-Chosen p dir (entries RemotePackage-discrete b.remote_package_dirs) none
          (inl (In-entries RemotePackage-discrete addr.pkg dir b.remote_package_dirs l)) in
      (
        pkg,
        if_false (err not_in_bundle) (source_in p b (cut slash sub)) inside
            ∙ ap (source_in p b) (cut-package dir addr.sub_path name.1)
            ∙ source_in-found b dir addr.sub_path found (normalize-valid addr.sub_path v),
        elim chosen.member [
          | inl i ↦ lookup_of_entries RemotePackage-discrete pkg dir b.remote_package_dirs i
          | inr i ↦ cc i
        ],
        chosen.least addr.pkg
            (In-entries RemotePackage-discrete addr.pkg dir b.remote_package_dirs l),
      )

  -- The path of a source, by its names.
  local_path-rooted :
      (b : Bundle p) (addr : RemoteSource) (names : List Text) {path : Text}
      → IsConfined p b
      → b.root_dir ≡ rooted names
      → All IsName names
      → valid_sub_path addr.sub_path ≡ true
      → local_path_for_remote_source p b addr ≡ ok path
      → (dir : Text) × (lookup RemotePackage-discrete addr.pkg b.remote_package_dirs ≡ some dir)
        × (valid_local_dir dir ≡ true)
        × (path ≡ rooted (names ++ (dir ∷ directories addr.sub_path)))
  unfolding local_path_for_remote_source
  local_path-rooted b addr names c r h v e =
      let (dir, k, l) =
        >>=-eq-ok
          (or_failed (lookup RemotePackage-discrete addr.pkg b.remote_package_dirs)
            package_not_included)
          _ e in
      let found = or_failed-ok _ package_not_included k in
      let d =
        lookup-All RemotePackage-discrete (λ x. valid_local_dir x ≡ true) addr.pkg
          b.remote_package_dirs c.dirs found in
      (
        dir,
        found,
        d,
        sym (ok-injective l)
            ∙ ap (λ x. join_paths (x ∷ dir ∷ addr.sub_path ∷ [])) r
            ∙ join_paths-rooted names dir addr.sub_path h d v,
      )

  -- A path that an opened bundle gives for a source in a remote package, with a valid sub-path, is the
  -- bundle's directory, then one name, then the directories of the sub-path, if the working directory is
  -- absolute.
  pub local_path_for_remote_source-inside :
      (files : Files) (base_dir : Text) (addr : RemoteSource) {b : Bundle p} {path : Text}
      → IsAbsolute files.working_dir
      → open_dir p files base_dir ≡ ok b
      → valid_sub_path addr.sub_path ≡ true
      → local_path_for_remote_source p b addr ≡ ok path
      → (names : List Text) × (dir : Text) × (b.root_dir ≡ rooted names)
        × All IsName (names ++ (dir ∷ directories addr.sub_path))
        × (path ≡ rooted (names ++ (dir ∷ directories addr.sub_path)))
  local_path_for_remote_source-inside files base_dir addr {b} a o v e =
      let c = open_dir-IsConfined p files base_dir a o in
      let (names, r, h) = c.root in
      let (dir, _, d, same) = local_path-rooted b addr names c r h v e in
      (
        names,
        dir,
        r,
        All-append IsName names (dir ∷ directories addr.sub_path) h
            ((valid_local_dir-IsName dir d).0, directories-IsName addr.sub_path v),
        same,
      )

  -- SourceForLocalPath gives back the source of a path that the opened bundle gave for a source in a
  -- remote package with a valid sub-path: its sub-path, in a package that has the same directory and
  -- whose address is no longer, if the working directory is absolute.
  pub source_for_local_path-local_path :
      (files : Files) (base_dir : Text) (working_dir : Option Text) (addr : RemoteSource)
      {b : Bundle p} {path : Text}
      → IsAbsolute files.working_dir
      → open_dir p files base_dir ≡ ok b
      → valid_sub_path addr.sub_path ≡ true
      → local_path_for_remote_source p b addr ≡ ok path
      → (pkg : RemotePackage) × (source_for_local_path p working_dir b path
          ≡ ok (FinalSource.remote_source (record { pkg = pkg; sub_path = addr.sub_path })))
        × (lookup RemotePackage-discrete pkg b.remote_package_dirs
            ≡ lookup RemotePackage-discrete addr.pkg b.remote_package_dirs)
        × (byte_length (remote_package_string p pkg)
            ≤ byte_length (remote_package_string p addr.pkg))
  unfolding source_for_local_path
  source_for_local_path-local_path files base_dir working_dir addr {b} {path} a o v e =
      let c = open_dir-IsConfined p files base_dir a o in
      let (names, r, h) = c.root in
      let (dir, found, d, same) = local_path-rooted b addr names c r h v e in
      let rest : List Text = dir ∷ directories addr.sub_path in
      let all : All IsName rest =
        ((valid_local_dir-IsName dir d).0, directories-IsName addr.sub_path v) in
      let absolute : abs working_dir path ≡ some (rooted (names ++ rest)) =
        ap (abs working_dir) same
        ∙ unfold abs is_abs in
          ap some (clean-rooted (names ++ rest) (All-append IsName names rest h all)) in
      let relative : rel b.root_dir (rooted (names ++ rest)) ≡ some (join slash rest) =
        ap (λ x. rel x (rooted (names ++ rest))) r ∙ rel-rooted names rest h all (λ k. cc k) in
      let (pkg, s, l, le) = source_for_sub_path-package b addr found d v in
      (
        pkg,
        rw (absolute, relative, clean-spelled dir (directories addr.sub_path) all) s,
        l ∙ sym found,
        le,
      )
