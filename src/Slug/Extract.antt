-- ===== src/Slug/Extract.antt =====
-- slug.go, Unpack: extracting an archive.
use go_slug.Prelude.{
  Bool, true, false, not, Option, none, some, List, [], ◌∷◌, ◌++◌, if◌then◌else◌, Text, is_empty,
  Result, ok, err,
}
use go_slug.Go.Path.{dir}
use go_slug.Go.Action.{Action, ◌>>=◌, return, fail, ask, with_error}
use go_slug.Unpack.{
  Header, UnpackInfo, UnpackError, is_directory, is_symlink, is_regular, new_unpack_info,
}
use go_slug.Unpack.Restore.{
  Disk, Call, OsError, missing, forbidden, other_failure, RestoreError, restore_info, or_fail,
}
use go_slug.Slug.{SymlinkError, valid_symlink}

-- What the reader of an archive returns, entry by entry: io.EOF, an error, or a header. Of the content
-- of an entry, reading gives the text, and an error at its end unless it is complete.
pub data Archive : Type 0 where
  finished broken : Archive
  entry : Header → Text → Bool → Archive → Archive

pub data ExtractError : Type 0 where
  not_compressed broken_archive : ExtractError
  illegal_entry : UnpackError → ExtractError
  illegal_symlink : SymlinkError → ExtractError
  mkdir_failed symlink_failed create_failed copy_failed : Text → ExtractError
  restore_failed : RestoreError → ExtractError

abbrev pub lift_entry : {A : Type 0} → Result UnpackError A → Result ExtractError A
lift_entry (ok a) = ok a
lift_entry (err e) = err (illegal_entry e)

abbrev pub lift_symlink : {A : Type 0} → Result SymlinkError A → Result ExtractError A
lift_symlink (ok a) = ok a
lift_symlink (err e) = err (illegal_symlink e)

abbrev pub lift_restore : {A : Type 0} → Result RestoreError A → Result ExtractError A
lift_restore (ok a) = ok a
lift_restore (err e) = err (restore_failed e)

-- A copy fails when writing does or when the content ends too early.
abbrev pub copied : Text → Bool → Result OsError (Unit {0}) → Result ExtractError (Unit {0})
copied path complete (err e) = err (copy_failed path)
copied path true (ok a) = ok tt
copied path false (ok a) = err (copy_failed path)

-- A call whose error is not looked at.
abbrev pub ignored : {S : Type 0} → Call S → S → S
ignored call s = (call s).0

-- `working_dir` is os.Getwd, and `allow` the field allowSymlinkTargets of the packer.
module _ (disk : Disk) (working_dir : Option Text) (allow : List Text) (dst : Text) where
  open disk use {State, lstat, chmod, mkdir_all, symlink_to, create, write}

  abbrev pub Extraction : Type 0 → Type 0
  Extraction A = Action State ExtractError A

  -- The second attempt to create a file, and the error of the first one.
  unfoldable pub create_again : Text → OsError → State → State × Result ExtractError (Unit {0})
  unfolding with_error
  create_again path missing s = (s, err (create_failed path))
  create_again path other_failure s = (s, err (create_failed path))
  create_again path forbidden s =
      with_error (or_fail (create_failed path)) (create path) (ignored (chmod path 384) s)

  abbrev pub after_create :
      Text → State × Result OsError (Unit {0}) → State × Result ExtractError (Unit {0})
  after_create path (s, ok a) = (s, ok tt)
  after_create path (s, err e) = create_again path e s

  -- os.Create; a file that may not be written gets the mode 0600 and is tried once more.
  unfoldable pub create_file : Text → Extraction (Unit {0})
  unfolding create_again
  create_file path s = after_create path (create path s)

  unfoldable pub restore : UnpackInfo → Extraction (Unit {0})
  unfolding restore_info
  restore i = with_error lift_restore (restore_info disk i)

  unfoldable pub extract_symlink : Header → UnpackInfo → Extraction (Unit {0})
  unfolding valid_symlink restore
  extract_symlink header i = do
    _ ← ask (λ _. lift_symlink (valid_symlink working_dir allow dst header.name header.link_name))
    _ ← with_error (or_fail (symlink_failed header.name)) (symlink_to header.link_name i.path)
    restore i

  unfoldable pub extract_regular : Text → Bool → UnpackInfo → Extraction (Unit {0})
  unfolding create_file restore
  extract_regular body complete i = do
    _ ← create_file i.path
    _ ← with_error (copied i.path complete) (write i.path body)
    restore i

  -- From NewUnpackInfo on; the directory is noted in place of being restored.
  unfoldable pub extract_info :
      Header → Text → Bool → UnpackInfo → List UnpackInfo → Extraction (List UnpackInfo)
  unfolding dir is_symlink is_directory is_regular extract_symlink extract_regular
  extract_info header body complete i dirs =
      with_error (or_fail (mkdir_failed (dir i.path))) (mkdir_all (dir i.path)) >>= λ _.
      if is_symlink i
      then extract_symlink header i >>= (λ _. return dirs)
      else if is_directory i
      then return (dirs ++ (i ∷ []))
      else if not (is_regular i)
      then return dirs
      else extract_regular body complete i >>= λ _. return dirs

  -- One round of the loop over the entries, with the directories that were extracted.
  unfoldable pub extract_entry :
      Header → Text → Bool → List UnpackInfo → Extraction (List UnpackInfo)
  unfolding new_unpack_info extract_info
  extract_entry header body complete dirs =
      if is_empty header.name
      then return dirs
      else ask (λ s. lift_entry (new_unpack_info (lstat s) dst header)) >>= λ i.
          extract_info header body complete i dirs

  unfoldable pub extract_entries : Archive → List UnpackInfo → Extraction (List UnpackInfo)
  unfolding extract_entry
  extract_entries finished dirs = return dirs
  extract_entries broken dirs = fail broken_archive
  extract_entries (entry header body complete archive) dirs =
      extract_entry header body complete dirs >>= extract_entries archive

  -- The loop over the directories that were extracted.
  unfoldable pub restore_all : List UnpackInfo → Extraction (Unit {0})
  unfolding restore
  restore_all [] = return tt
  restore_all (i ∷ dirs) = restore i >>= λ _. restore_all dirs

  -- Packer.Unpack; `none` is what is not compressed with gzip.
  unfoldable pub unpack : Option Archive → Extraction (Unit {0})
  unfolding extract_entries restore_all
  unpack none = fail not_compressed
  unpack (some archive) = extract_entries archive [] >>= restore_all
