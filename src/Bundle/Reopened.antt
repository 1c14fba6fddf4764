-- ===== src/Bundle/Reopened.antt =====
-- The packages of a builder, after the manifest was written and read again.
use go_slug.Prelude.{
  ◌≡◌, refl, sym, ap, ◌∙◌, inl, inr, true, some, List, [], ◌∷◌, map, Text, All, In, lookup, insert,
  entries, In-entries, lookup_of_entries, lookup-insert_known, lookup-insert_self, Assoc, choose,
  ok, ◌>>=◌, ok-injective, subst, Option-cases,
}
use go_slug.Go.Sorted.{In-sort_by, All-sort_by}
use go_slug.Addrs.Types.{RemotePackage}
use go_slug.Addrs.Remote.{remote_package_string, parse_remote_package}
use go_slug.Bundle.Types.{World, RemotePackage-discrete}
use go_slug.Bundle.Builder.{Builder}
use go_slug.Bundle.Manifest.{ManifestRemotePackage, manifest_package, manifest_root}
use go_slug.Bundle.Open.{
  Bundle, valid_local_dir, open_package, open_packages, empty_bundle, noted_meta,
}

pub All_of_In : {A : Type 0} (P : A → Type 0) (l : List A) → ((x : A) → In x l → P x) → All P l
All_of_In P [] h = tt
All_of_In P (x ∷ l) h = (h x (inl refl), All_of_In P l (λ y k. h y (inr k)))

pub In-map : {A B : Type 0} (f : A → B) (x : A) (l : List A) → In x l → In (f x) (map f l)
In-map f x [] h = absurd h
In-map f x (y ∷ l) (inl e) = inl (ap f e)
In-map f x (y ∷ l) (inr h) = inr (In-map f x l h)

pub All-mapped :
    {A B : Type 0} (P : B → Type 0) (f : A → B) (l : List A)
    → All (λ x. P (f x)) l
    → All P (map f l)
All-mapped P f [] h = tt
All-mapped P f (x ∷ l) h = (h.0, All-mapped P f l h.1)

abbrev pub Held : Assoc RemotePackage Text → RemotePackage → Type 0
Held m pkg = (dir : Text) × (lookup RemotePackage-discrete pkg m ≡ some dir)

-- What one map gives, the other does.
abbrev Below : Assoc RemotePackage Text → Assoc RemotePackage Text → Type 0
Below m n =
    (pkg : RemotePackage) (dir : Text)
    → lookup RemotePackage-discrete pkg m ≡ some dir
    → lookup RemotePackage-discrete pkg n ≡ some dir

same_lookups :
    (m n : Assoc RemotePackage Text)
    → Below m n
    → ((pkg : RemotePackage) → Held n pkg → Held m pkg)
    → (pkg : RemotePackage)
    → lookup RemotePackage-discrete pkg m ≡ lookup RemotePackage-discrete pkg n
same_lookups m n below known pkg = elim (Option-cases (lookup RemotePackage-discrete pkg n)) [
  | inr (dir, e) ↦ let (found, k) = known pkg (dir, e) in k ∙ sym (below pkg found k)
  | inl e ↦ elim (Option-cases (lookup RemotePackage-discrete pkg m)) [
    | inl k ↦ k ∙ sym e
    | inr (dir, k) ↦ k ∙ sym (below pkg dir k)
  ]
]

module _ (w : World) (dirs : Assoc RemotePackage Text) where
  -- An entry of the manifest that gives an entry of the map.
  record IsOf (rpm : ManifestRemotePackage) : Type 0 where
    pkg : RemotePackage
    parses : parse_remote_package w.packages rpm.source_addr ≡ ok pkg
    valid : valid_local_dir rpm.local_dir ≡ true
    held : lookup RemotePackage-discrete pkg dirs ≡ some rpm.local_dir

  open_package-IsOf :
      (rpm : ManifestRemotePackage) (b : Bundle w.packages) (h : IsOf rpm)
      → open_package w.packages rpm b
        ≡ ok (record b {
          remote_package_dirs =
              insert RemotePackage-discrete h.pkg rpm.local_dir b.remote_package_dirs;
          remote_package_meta = noted_meta w.packages h.pkg rpm.meta b.remote_package_meta;
        })
  unfolding open_package
  open_package-IsOf rpm b h = rw (h.valid, h.parses) refl

  insert-Below :
      (pkg : RemotePackage) (dir : Text) (m : Assoc RemotePackage Text)
      → lookup RemotePackage-discrete pkg dirs ≡ some dir
      → Below m dirs
      → Below (insert RemotePackage-discrete pkg dir m) dirs
  insert-Below pkg dir m h below q d = go (RemotePackage-discrete pkg q)
    where
      go :
          (e : Dec (pkg ≡ q))
          → choose e (some dir) (lookup RemotePackage-discrete q m) ≡ some d
          → lookup RemotePackage-discrete q dirs ≡ some d
      go (yes e) k = subst (λ x. lookup RemotePackage-discrete x dirs ≡ some d) e (h ∙ k)
      go (no _) k = below q d k

  open_packages-Held :
      (l : List ManifestRemotePackage) (b : Bundle w.packages)
      → All IsOf l
      → Below b.remote_package_dirs dirs
      → (c : Bundle w.packages) × (open_packages w.packages l b ≡ ok c)
        × Below c.remote_package_dirs dirs
        × ((pkg : RemotePackage) → Held b.remote_package_dirs pkg → Held c.remote_package_dirs pkg)
        × ((pkg : RemotePackage) (rpm : ManifestRemotePackage)
            → In rpm l
            → parse_remote_package w.packages rpm.source_addr ≡ ok pkg
            → Held c.remote_package_dirs pkg)
  unfolding open_packages
  open_packages-Held [] b h below = (b, refl, below, (λ _ k. k), λ _ _ k. absurd k)
  open_packages-Held (rpm ∷ l) b h below =
      let first = h.0 in
      let next : Bundle w.packages = record b {
        remote_package_dirs =
            insert RemotePackage-discrete first.pkg rpm.local_dir b.remote_package_dirs;
        remote_package_meta = noted_meta w.packages first.pkg rpm.meta b.remote_package_meta;
      } in
      let (c, e, le, keeps, known) =
        open_packages-Held l next h.1
          (insert-Below first.pkg rpm.local_dir b.remote_package_dirs first.held below) in
      (
        c,
        ap (λ r. r >>= open_packages w.packages l) (open_package-IsOf rpm b first) ∙ e,
        le,
        (λ pkg k. keeps pkg (
            lookup-insert_known RemotePackage-discrete first.pkg pkg rpm.local_dir
              b.remote_package_dirs k.1)),
        (λ pkg q i k. elim i [
          | inr j ↦ known pkg q j k
          | inl same ↦
              let at : first.pkg ≡ pkg = ok-injective (
                sym first.parses
                ∙ ap (λ x. parse_remote_package w.packages x.source_addr) (sym same)
                ∙ k) in
              keeps pkg (
                subst (Held next.remote_package_dirs) at (
                  rpm.local_dir,
                  lookup-insert_self RemotePackage-discrete first.pkg rpm.local_dir
                      b.remote_package_dirs,
                ))
        ]),
      )

-- The packages that writeManifest writes are read by OpenDir without an error, where the address of each
-- package of the builder is parsed as that package and the name of its directory is one that OpenDir
-- accepts, and then the bundle has the directory of every package as the builder had it, and no other
-- package.
pub open_packages-manifest_root :
    (w : World) (b : Builder w) (root_dir checksum : Text)
    → ((pkg : RemotePackage) (dir : Text)
        → lookup RemotePackage-discrete pkg b.remote_package_dirs ≡ some dir
        → (parse_remote_package w.packages (remote_package_string w.packages pkg) ≡ ok pkg)
          × (valid_local_dir dir ≡ true))
    → (c : Bundle w.packages) × (open_packages w.packages
          (manifest_root w b).packages
          (empty_bundle w.packages root_dir checksum)
        ≡ ok c)
      × ((pkg : RemotePackage)
          → lookup RemotePackage-discrete pkg c.remote_package_dirs
            ≡ lookup RemotePackage-discrete pkg b.remote_package_dirs)
unfolding manifest_root manifest_package empty_bundle
open_packages-manifest_root w b root_dir checksum good =
    let es = entries RemotePackage-discrete b.remote_package_dirs in
    let of_entry : (e : RemotePackage × Text)
        → In e es
        → IsOf w b.remote_package_dirs (manifest_package w b e) =
      λ e i.
        let held = lookup_of_entries RemotePackage-discrete e.0 e.1 b.remote_package_dirs i in
        let (parses, valid) = good e.0 e.1 held in
        record { pkg = e.0; parses = parses; valid = valid; held = held } in
    let all =
      All-sort_by (λ m. m.source_addr) (IsOf w b.remote_package_dirs)
        (map (manifest_package w b) es)
        (All-mapped (IsOf w b.remote_package_dirs) (manifest_package w b) es
          (All_of_In _ es of_entry)) in
    let (c, e, below, _, known) =
      open_packages-Held w b.remote_package_dirs (manifest_root w b).packages
        (empty_bundle w.packages root_dir checksum) all (λ _ _ k. cc k) in
    (
      c,
      e,
      same_lookups c.remote_package_dirs b.remote_package_dirs below (λ pkg k.
          known pkg (manifest_package w b (pkg, k.0))
            (In-sort_by (λ m. m.source_addr) (manifest_package w b (pkg, k.0))
              (map (manifest_package w b) es)
              (In-map (manifest_package w b) (pkg, k.0) es
                (In-entries RemotePackage-discrete pkg k.0 b.remote_package_dirs k.1)))
            (good pkg k.0 k.1).0),
    )
