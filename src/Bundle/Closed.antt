-- ===== src/Bundle/Closed.antt =====
-- What Close and ExtractArchive make sure of.
use go_slug.Prelude.{◌≡◌, refl, ap, Option, some, [], Text, Result, ok, err, ok-injective}
use go_slug.Addrs.Types.{Packages}
use go_slug.Unpack.Restore.{Disk}
use go_slug.Slug.Extract.{Archive, ExtractError, unpack}
use go_slug.Slug.Accepted.{IsWhole, unpack-IsWhole}
use go_slug.Bundle.Open.{Bundle, Files, OpenError, open_dir}
use go_slug.Bundle.Paths.{IsAbsolute}
use go_slug.Bundle.Confined.{IsConfined, open_dir-IsConfined}
use go_slug.Bundle.Close.{ExtractBundleError, opened_after, extract_archive, not_opened}

module _ (p : Packages) (disk : Disk) (working_dir : Option Text)
    (files_of : disk.State → Files) where
  opened_after-ok :
      (target_dir : Text) (r : disk.State × Result ExtractError (Unit {0})) {b : Bundle p}
      → (opened_after p files_of target_dir r).1 ≡ ok b
      → (r.1 ≡ ok tt) × (open_dir p (files_of (r.0)) target_dir ≡ ok b)
  opened_after-ok target_dir (s, err e) h = cc h
  opened_after-ok target_dir (s, ok _) {b} h = (refl, go (open_dir p (files_of s) target_dir) h)
    where
      go :
          (r : Result OpenError (Bundle p))
          → (elim r as (λ _. disk.State × Result ExtractBundleError (Bundle p)) [
            | ok b ↦ (s, ok b)
            | err e ↦ (s, err (not_opened e))
          ]).1
            ≡ ok b
          → r ≡ ok b
      go (ok c) h = ap ok (ok-injective h)
      go (err e) h = cc h

  -- If the working directory is absolute in every state of the file system, ExtractArchive gives a
  -- bundle only for an archive that Unpack extracts as a whole with no allowed targets: the
  -- archive ends without an error of the reader, and each of its entries with a name was accepted
  -- by NewUnpackInfo at some state of the file system, a symlink also by validSymlink, and a
  -- regular file had its whole content. The bundle's directory is then absolute, and every package
  -- in it has one directory with a plain name.
  pub extract_archive-IsConfined :
      (given : Option Archive) (target_dir : Text) (s : disk.State) {b : Bundle p}
      → ((t : disk.State) → IsAbsolute (files_of t).working_dir)
      → (extract_archive p disk working_dir files_of given target_dir s).1 ≡ ok b
      → ((archive : Archive) × (given ≡ some archive)
          × IsWhole disk working_dir [] target_dir archive)
        × IsConfined p b
  unfolding extract_archive
  extract_archive-IsConfined given target_dir s a h =
      let end = (unpack disk working_dir [] target_dir given s).0 in
      let (whole, opened) = opened_after-ok target_dir _ h in
      (
        unpack-IsWhole disk working_dir [] target_dir given s whole,
        open_dir-IsConfined p (files_of end) target_dir (a end) opened,
      )
