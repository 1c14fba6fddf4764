-- ===== src/Bundle/Confined.antt =====
-- The paths of an opened bundle stay inside its directory.
use go_slug.Prelude.{◌≡◌, true, Text, All, ok}
use go_slug.Addrs.Types.{Packages}
use go_slug.Bundle.Paths.{IsRooted, IsAbsolute, abs-IsRooted}
use go_slug.Bundle.Open.{Files, Bundle, valid_local_dir, open_dir, empty_bundle}
use go_slug.Bundle.Opening.{open_manifest-keeps, open_dir-Reads}

module _ (p : Packages) where
  -- A bundle in an absolute directory, with directories of packages in it that have one name.
  pub record IsConfined (b : Bundle p) : Type 0 where
    pub root : IsRooted b.root_dir
    pub dirs : All (λ e. valid_local_dir e.1 ≡ true) b.remote_package_dirs

  pub open_dir-IsConfined :
      (files : Files) (base_dir : Text) {b : Bundle p}
      → IsAbsolute files.working_dir
      → open_dir p files base_dir ≡ ok b
      → IsConfined b
  unfolding empty_bundle
  open_dir-IsConfined files base_dir a h =
      let r = open_dir-Reads p files base_dir h in
      open_manifest-keeps p IsConfined
        (λ _ _ _ _ valid c. record { root = c.root; dirs = (valid, c.dirs) })
        (λ _ _ _ c. record { root = c.root; dirs = c.dirs }) r.root_dir _ r.manifest
        (record { root = abs-IsRooted files.working_dir base_dir a r.absolute; dirs = tt }) r.opened
