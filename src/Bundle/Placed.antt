-- ===== src/Bundle/Placed.antt =====
-- The directories of packages: once noted they stay, and each is on the disk unless there was an error.
use go_slug.Prelude.{
  ◌≡◌, refl, sym, ap, ◌∙◌, inl, inr, ◌⊎◌, Option, none, some, Text, Result, ok, err, Assoc, lookup,
  insert, choose, lookup-insert_self, subst, Option-cases, Result-cases,
}
use go_slug.Addrs.Types.{RemotePackage}
use go_slug.Bundle.Types.{Failure, World, PackageMeta, RemotePackage-discrete, download_start}
use go_slug.Bundle.Builder.{
  Builder, Text-discrete, place_package, finish_package, download, with_meta, report,
  ensure_remote_package, log,
}

-- A new key changes nothing of the others.
lookup-insert_fresh :
    {K V : Type 0} (eq : Discrete K) (k j : K) (v : V) (m : Assoc K V) {u : V}
    → lookup eq k m ≡ none
    → lookup eq j m ≡ some u
    → lookup eq j (insert eq k v m) ≡ some u
lookup-insert_fresh eq k j v m {u} fresh h = go (eq k j)
  where
    go : (d : Dec (k ≡ j)) → choose d (some v) (lookup eq j m) ≡ some u
    go (no _) = h
    go (yes same) = cc (sym fresh ∙ ap (λ x. lookup eq x m) same ∙ h)

lookup-inserted :
    {K V : Type 0} (eq : Discrete K) (k j : K) (v : V) (m : Assoc K V) {u : V}
    → lookup eq j (insert eq k v m) ≡ some u
    → (v ≡ u) ⊎ (lookup eq j m ≡ some u)
lookup-inserted eq k j v m {u} h = go (eq k j) h
  where
    go :
        (d : Dec (k ≡ j))
        → choose d (some v) (lookup eq j m) ≡ some u
        → (v ≡ u) ⊎ (lookup eq j m ≡ some u)
    go (yes _) e = inl (cc e)
    go (no _) e = inr e

module _ (w : World) where
  open w use {Tree}

  -- What the directory of the name holds.
  abbrev pub OnDisk : Builder w → Text → Tree → Type 0
  OnDisk b dir tree = lookup Text-discrete dir b.disk ≡ some tree

  abbrev pub HasDir : Builder w → RemotePackage → Text → Type 0
  HasDir b pkg dir = lookup RemotePackage-discrete pkg b.remote_package_dirs ≡ some dir

  -- Every directory that is noted is on the disk.
  abbrev pub Placed : Builder w → Type 0
  Placed b =
      (pkg : RemotePackage) (dir : Text) → HasDir b pkg dir → (tree : Tree) × OnDisk b dir tree

  pub record Stays (b c : Builder w) : Type 0 where
    pub dirs : (pkg : RemotePackage) (dir : Text) → HasDir b pkg dir → HasDir c pkg dir
    pub disk : (dir : Text) (tree : Tree) → OnDisk b dir tree → OnDisk c dir tree
    pub placed : Placed b → Placed c

  pub Stays-same :
      {b c : Builder w}
      → c.remote_package_dirs ≡ b.remote_package_dirs
      → c.disk ≡ b.disk
      → Stays b c
  Stays-same {b} {c} d e = record {
    dirs = λ pkg dir h. rw d h;
    disk = λ dir tree h. rw e h;
    placed = λ v pkg dir h. let (tree, k) = v pkg dir (rw d at h) in (tree, rw e k);
  }

  pub Stays-trans : {b c d : Builder w} → Stays b c → Stays c d → Stays b d
  Stays-trans h k = record {
    dirs = λ pkg dir x. k.dirs pkg dir (h.dirs pkg dir x);
    disk = λ dir tree x. k.disk dir tree (h.disk dir tree x);
    placed = λ v. k.placed (h.placed v);
  }

  -- The package's directory is noted, and what there was has stayed.
  abbrev pub Arrives : RemotePackage → Builder w → Builder w → Text → Type 0
  Arrives pkg b c dir = Stays b c × HasDir c pkg dir

  noted-Arrives :
      (pkg : RemotePackage) (dir : Text) (b c : Builder w) (tree : Tree)
      → lookup RemotePackage-discrete pkg b.remote_package_dirs ≡ none
      → c.remote_package_dirs ≡ insert RemotePackage-discrete pkg dir b.remote_package_dirs
      → ((d : Text) (t : Tree) → OnDisk b d t → OnDisk c d t)
      → OnDisk c dir tree
      → Arrives pkg b c dir
  noted-Arrives pkg dir b c tree fresh noted kept there = (
    record {
      dirs = λ q d h.
          rw noted
            (lookup-insert_fresh RemotePackage-discrete pkg q dir b.remote_package_dirs fresh h);
      disk = kept;
      placed = λ v q d h.
          go v q d (
            lookup-inserted RemotePackage-discrete pkg q dir b.remote_package_dirs (rw noted at h));
    },
    rw noted (lookup-insert_self RemotePackage-discrete pkg dir b.remote_package_dirs),
  )
    where
      go :
          Placed b
          → (q : RemotePackage) (d : Text) → (dir ≡ d) ⊎ HasDir b q d
          → (t : Tree) × OnDisk c d t
      go v q d (inl same) = (tree, subst (λ x. OnDisk c x tree) same there)
      go v q d (inr h) = let (t, k) = v q d h in (t, kept d t k)

  place_package-Arrives :
      (pkg : RemotePackage) (dir : Text) (tree : Tree) (b : Builder w) {found : Text}
      → lookup RemotePackage-discrete pkg b.remote_package_dirs ≡ none
      → let c : Builder w = record b {
        remote_package_dirs = insert RemotePackage-discrete pkg dir b.remote_package_dirs;
      } in
        (place_package w dir tree c).0 ≡ ok found
        → Arrives pkg b (place_package w dir tree c).1 found
  unfolding place_package
  place_package-Arrives pkg dir tree b {found} fresh h =
      elim (Option-cases (lookup Text-discrete dir b.disk)) [
        | inr (t, e) ↦ elim (Result-cases (w.remove_work_dir b.trace)) [
          | inr (_, k) ↦ cc (rw (e, k, place_package) at h)
          | inl (_, k) ↦
              let same : dir ≡ found = cc (rw (e, k, place_package) at h) in
              rw (e, k, place_package)
                (subst (Arrives pkg b _) same
                  (noted-Arrives pkg dir b _ t fresh refl (λ d u x. x) e))
        ]
        | inl e ↦ elim (Result-cases (w.rename_work_dir b.trace)) [
          | inr (_, k) ↦ cc (rw (e, k, place_package) at h)
          | inl (_, k) ↦
              let same : dir ≡ found = cc (rw (e, k, place_package) at h) in
              rw (e, k, place_package)
                (subst (Arrives pkg b _) same (
                  noted-Arrives pkg dir b _ tree fresh refl
                    (λ d u x. lookup-insert_fresh Text-discrete dir d tree b.disk e x)
                    (lookup-insert_self Text-discrete dir tree b.disk)))
        ]
      ]

  finish_package-Arrives :
      (pkg : RemotePackage) (fetched : Tree) (b : Builder w) {dir : Text}
      → lookup RemotePackage-discrete pkg b.remote_package_dirs ≡ none
      → (finish_package w pkg fetched b).0 ≡ ok dir
      → Arrives pkg b (finish_package w pkg fetched b).1 dir
  unfolding finish_package
  finish_package-Arrives pkg fetched b fresh h = elim (Result-cases (w.prepare b.trace fetched)) [
    | inr (e, k) ↦ cc (rw (k, finish_package) at h)
    | inl (tree, k) ↦ elim (Result-cases (w.hash_dir tree)) [
      | inr (e, l) ↦ cc (rw (k, l, finish_package) at h)
      | inl (name, l) ↦
          rw (k, l, finish_package)
            (place_package-Arrives pkg name tree b fresh (rw (k, l, finish_package) at h))
    ]
  ]

  -- From a builder with the same directories.
  Arrives-from :
      (pkg : RemotePackage) (dir : Text) (b c d : Builder w)
      → c.remote_package_dirs ≡ b.remote_package_dirs
      → c.disk ≡ b.disk
      → Arrives pkg c d dir
      → Arrives pkg b d dir
  Arrives-from pkg dir b c d e k h = (Stays-trans (Stays-same {b = b} {c = c} e k) h.0, h.1)

  with_meta-same :
      (pkg : RemotePackage) (meta : Option PackageMeta) (b : Builder w)
      → ((with_meta w pkg meta b).remote_package_dirs ≡ b.remote_package_dirs)
        × ((with_meta w pkg meta b).disk ≡ b.disk)
  with_meta-same pkg none b = (refl, refl)
  with_meta-same pkg (some m) b = (refl, refl)

  download-Arrives :
      (pkg : RemotePackage) (b : Builder w) {dir : Text}
      → lookup RemotePackage-discrete pkg b.remote_package_dirs ≡ none
      → (download w pkg b).0 ≡ ok dir
      → Arrives pkg b (download w pkg b).1 dir
  unfolding download
  download-Arrives pkg b {dir} fresh h = elim (Result-cases (w.make_temp_dir b.trace)) [
    | inr (e, k) ↦ cc (rw (k, download) at h)
    | inl (u, k) ↦ elim (Result-cases (w.fetch_source_package b.trace pkg)) [
      | inr (e, l) ↦ cc (rw (k, l, download) at h)
      | inl ((meta, tree), l) ↦
          let (x, y) = with_meta-same pkg meta b in
          let c = with_meta w pkg meta b in
          rw (k, l, download)
            (Arrives-from pkg dir b c _ x y
              (finish_package-Arrives pkg tree c (rw x fresh) (rw (k, l, download) at h)))
    ]
  ]

  report-Arrives :
      (pkg : RemotePackage) (b : Builder w) (m : Result Failure Text × Builder w) {dir : Text}
      → ((d : Text) → m.0 ≡ ok d → Arrives pkg b m.1 d)
      → (report w pkg m).0 ≡ ok dir
      → Arrives pkg b (report w pkg m).1 dir
  report-Arrives pkg b (ok d, c) {dir} h e =
      let same : d ≡ dir = cc e in
      let (s, k) = h dir (ap ok same) in
      (Stays-trans s (Stays-same {b = c} {c = (report w pkg (ok d, c)).1} refl refl), k)
  report-Arrives pkg b (err f, c) h e = cc e

  -- Where ensureRemotePackage is without an error, the directory that it returns is the package's.
  pub ensure_remote_package-Arrives :
      (pkg : RemotePackage) (b : Builder w) {dir : Text}
      → (ensure_remote_package w pkg b).0 ≡ ok dir
      → Arrives pkg b (ensure_remote_package w pkg b).1 dir
  unfolding ensure_remote_package log
  ensure_remote_package-Arrives pkg b {dir} h =
      elim (Option-cases (lookup RemotePackage-discrete pkg b.remote_package_dirs)) [
        | inr (d, e) ↦
            let same : d ≡ dir = cc (rw (e, ensure_remote_package) at h) in
            rw (e, ensure_remote_package) (Stays-same refl refl, e ∙ ap some same)
        | inl e ↦
            let start : Builder w = log w (download_start pkg) b in
            rw (e, ensure_remote_package)
              (report-Arrives pkg b (download w pkg start)
                (λ d k. Arrives-from pkg d b start _ refl refl (download-Arrives pkg start e k))
                (rw (e, ensure_remote_package) at h))
      ]
