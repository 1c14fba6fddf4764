-- ===== src/Bundle/Close.antt =====
-- Closing a builder (sourcebundle/builder.go), and archives of bundles (sourcebundle/bundle.go).
use go_slug.Prelude.{ℕ, Option, none, some, List, [], ◌∷◌, Text, Result, ok, err, ◌>>=◌}
use go_slug.Go.Path.{join_path}
use go_slug.Go.FileWalk.{Stop}
use go_slug.Ignore.Rules.{Rule}
use go_slug.Ignore.Excludes.{Regexp, LoadFile}
use go_slug.Addrs.Types.{Packages}
use go_slug.Unpack.Restore.{Disk}
use go_slug.Slug.Extract.{Archive, ExtractError, unpack}
use go_slug.Slug.Packer.{Tree, PackError, new_packer, dereference_symlinks}
use go_slug.Slug.Pack.{Packed, Writer, pack}
use go_slug.Bundle.Types.{World}
use go_slug.Bundle.Builder.{Builder}
use go_slug.Bundle.Manifest.{ManifestRoot, manifest_root}
use go_slug.Bundle.Open.{Bundle, Files, OpenError, open_dir, or_failed, manifest_filename}

pub data CloseError : Type 0 where
  panicked not_serialised not_written : CloseError
  not_opened : OpenError → CloseError

-- json.MarshalIndent of a manifest, and os.WriteFile, which gives the files that are there then.
pub record Output : Type 0 where
  pub marshal : ManifestRoot → Option Text
  pub write_file : Text → Text → Files → Option Files

abbrev pub lift_open : {A : Type 0} → Result OpenError A → Result CloseError A
lift_open (ok a) = ok a
lift_open (err e) = err (not_opened e)

module _ (w : World) (output : Output) where
  -- writeManifest
  unfoldable pub write_manifest : Builder w → Text → Files → Result CloseError Files
  unfolding manifest_root
  write_manifest b filename files = do
    buf ← or_failed (output.marshal (manifest_root w b)) not_serialised
    or_failed (output.write_file filename buf files) not_written

  unfoldable pub close_at : Builder w → Text → Files → Result CloseError (Bundle w.packages)
  unfolding write_manifest join_path open_dir
  close_at b base_dir files =
      write_manifest b (join_path base_dir manifest_filename) files >>= λ written.
      lift_open (open_dir w.packages written base_dir)

  -- Builder.Close
  unfoldable pub close : Builder w → Files → Result CloseError (Bundle w.packages) × Builder w
  unfolding close_at
  close b files = elim b.target_dir [
    | none ↦ (err panicked, b)
    | some base_dir ↦ (close_at b base_dir files, record b { target_dir = none })
  ]

pub data ExtractBundleError : Type 0 where
  not_extracted : ExtractError → ExtractBundleError
  not_opened : OpenError → ExtractBundleError

module _ (p : Packages) where
  -- Bundle.WriteArchive; the options it uses are never refused.
  unfoldable pub write_archive :
      (re : Regexp)
      → Tree
      → Writer
      → ℕ
      → (Text → LoadFile)
      → List (Rule re.Regex)
      → Bundle p
      → Option (Result (Stop PackError) Packed)
  unfolding new_packer dereference_symlinks pack
  write_archive re tree writer fuel load globals b = elim (new_packer (dereference_symlinks ∷ [])) [
    | none ↦ none
    | some packer ↦ some (pack re tree writer fuel load globals packer b.root_dir)
  ]

  abbrev pub opened_after :
      {S : Type 0}
      → (S → Files)
      → Text
      → S × Result ExtractError (Unit {0})
      → S × Result ExtractBundleError (Bundle p)
  opened_after files_of target_dir (s, err e) = (s, err (not_extracted e))
  opened_after files_of target_dir (s, ok _) = elim (open_dir p (files_of s) target_dir) [
    | ok b ↦ (s, ok b)
    | err e ↦ (s, err (not_opened e))
  ]

  -- ExtractArchive, where `files_of` is what OpenDir finds in the file system.
  unfoldable pub extract_archive :
      (disk : Disk)
      → Option Text
      → (disk.State → Files)
      → Option Archive
      → Text
      → disk.State
      → disk.State × Result ExtractBundleError (Bundle p)
  unfolding unpack open_dir
  extract_archive disk working_dir files_of archive target_dir s =
      opened_after files_of target_dir (unpack disk working_dir [] target_dir archive s)
