-- ===== src/Bundle/Listed.antt =====
-- The lists of what a bundle holds.
use go_slug.Prelude.{map, All, In, entries, In-entries, lookup_of_entries}
use go_slug.Go.Sorted.{IsSorted, sort_by-IsSorted, In-sort_by, All-sort_by}
use go_slug.Addrs.Types.{Packages, RemotePackage}
use go_slug.Addrs.Remote.{remote_package_string}
use go_slug.Bundle.Types.{RemotePackage-discrete}
use go_slug.Bundle.Open.{Bundle}
use go_slug.Bundle.Lookup.{remote_packages}
use go_slug.Bundle.Reopened.{Held, All_of_In, In-map, All-mapped}

-- RemotePackages lists every package that has a directory in the bundle, and no other, none right
-- before one whose address is less as a text.
pub remote_packages-IsSorted :
    (p : Packages) (b : Bundle p)
    → IsSorted (remote_package_string p) (remote_packages p b)
      × All (Held b.remote_package_dirs) (remote_packages p b)
      × ((pkg : RemotePackage) → Held b.remote_package_dirs pkg → In pkg (remote_packages p b))
unfolding remote_packages
remote_packages-IsSorted p b =
    let key = remote_package_string p in
    let es = entries RemotePackage-discrete b.remote_package_dirs in
    let pkgs = map (λ e. e.0) es in
    (
      sort_by-IsSorted key pkgs,
      All-sort_by key (Held b.remote_package_dirs) pkgs (
          All-mapped (Held b.remote_package_dirs) (λ e. e.0) es
            (All_of_In _ es (λ e i.
              (e.1, lookup_of_entries RemotePackage-discrete e.0 e.1 b.remote_package_dirs i)))),
      λ pkg h. In-sort_by key pkg pkgs (
          In-map (λ e. e.0) (pkg, h.0) es
            (In-entries RemotePackage-discrete pkg h.0 b.remote_package_dirs h.1)),
    )
