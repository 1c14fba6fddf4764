-- ===== src/Slug/Kept.antt =====
-- What extracting an archive leaves as it is.
use go_slug.Prelude.{
  ◌≡◌, refl, ap, ◌∙◌, sym, Bool, not, Option, none, some, List, [], ◌∷◌, ◌++◌, Text, is_empty,
  Result, ok, err, All, All-append, ok-injective, subst,
}
use go_slug.Go.Path.{dir, clean, join_path}
use go_slug.Go.Relative.{IsBelow}
use go_slug.Go.Action.{
  with_error-Keeps, ask-Keeps, if-Keeps, ask, Keeps, >>=-Keeps, Gives, >>=-Gives, if-Gives,
  return-Gives, fail-Gives,
}
use go_slug.Unpack.{
  Header, UnpackInfo, UnpackError, is_directory, is_symlink, is_regular, new_unpack_info,
}
use go_slug.Unpack.Inside.{new_unpack_info-IsBelow}
use go_slug.Unpack.Restore.{
  Disk, OsError, missing, forbidden, other_failure, restore_info, or_fail, restore_directory,
  restore_symlink, restore_normal, lchtimes,
}
use go_slug.Slug.{valid_symlink}
use go_slug.Slug.Accepted.{lift_symlink-ok}
use go_slug.Slug.Extract.{
  Archive, finished, broken, entry, lift_entry, create_again, create_file, restore, extract_symlink,
  extract_regular, extract_info, extract_entry, extract_entries, restore_all, unpack, ignored,
  after_create, copied, mkdir_failed, broken_archive,
}

-- A path in the directory that the archive is extracted to.
abbrev pub Inside : Text → Text → Type 0
Inside dst path = IsBelow (clean (clean dst)) (clean (clean path))

module _ (disk : Disk) (working_dir : Option Text) (allow : List Text) (dst : Text) where
  open disk use {State, lstat, chmod, chtimes, lutimes, mkdir_all, symlink_to, create, write}

  -- No call that extracting may make on a path inside of the directory changes the predicate.
  pub record IsKept (P : State → Type 0) : Type 0 where
    pub by_mkdir : (path : Text) → Inside dst path → Keeps P (mkdir_all (dir path))
    pub by_symlink :
        (name target : Text)
        → Inside dst (join_path (clean dst) (clean name))
        → valid_symlink working_dir allow dst name target ≡ ok tt
        → Keeps P (symlink_to target (join_path (clean dst) (clean name)))
    pub by_create : (path : Text) → Inside dst path → Keeps P (create path)
    pub by_write : (path : Text) → Inside dst path → (body : Text) → Keeps P (write path body)
    pub by_chmod : (path : Text) → Inside dst path → (mode : _) → Keeps P (chmod path mode)
    pub by_chtimes : (path : Text) → Inside dst path → (a m : _) → Keeps P (chtimes path a m)
    pub by_lutimes : (path : Text) → Inside dst path → (a m : _) → Keeps P (lutimes path a m)

  module _ (P : State → Type 0) (kept : IsKept P) where
    restore_info-Keeps : (i : UnpackInfo) → Inside dst i.path → Keeps P (restore_info disk i)
    unfolding restore_info restore_directory restore_symlink restore_normal lchtimes
    restore_info-Keeps i h =
        let mode = kept.by_chmod i.path h i.original_mode in
        let times = kept.by_chtimes i.path h i.original_access_time i.original_mod_time in
        if-Keeps P (is_directory i)
          (>>=-Keeps P (with_error-Keeps P _ mode) (λ _ _ _. with_error-Keeps P _ times))
          (if-Keeps P (is_symlink i)
            (if-Keeps P disk.can_maintain_symlink_timestamps
              (with_error-Keeps P _ (kept.by_lutimes i.path h _ _)) (ask-Keeps P _))
            (>>=-Keeps P (with_error-Keeps P _ mode) (λ _ _ _. with_error-Keeps P _ times)))

    restore-Keeps :
        (i : UnpackInfo) → Inside dst i.path → Keeps P (restore disk working_dir allow dst i)
    unfolding restore
    restore-Keeps i h = with_error-Keeps P _ (restore_info-Keeps i h)

    create_file-Keeps :
        (path : Text) → Inside dst path → Keeps P (create_file disk working_dir allow dst path)
    unfolding create_file create_again
    create_file-Keeps path h = record {
      kept = λ s p. go (create path s) ((kept.by_create path h).kept s p);
    }
      where
        go :
            (r : State × Result OsError (Unit {0}))
            → P (r.0)
            → P ((after_create disk working_dir allow dst path r).0)
        go (s, ok a) p = p
        go (s, err missing) p = p
        go (s, err other_failure) p = p
        go (s, err forbidden) p =
            (kept.by_create path h).kept (ignored (chmod path 384) s)
              ((kept.by_chmod path h 384).kept s p)

    restore_all-Keeps :
        (dirs : List UnpackInfo)
        → All (λ i. Inside dst i.path) dirs
        → Keeps P (restore_all disk working_dir allow dst dirs)
    unfolding restore_all
    restore_all-Keeps [] h = ask-Keeps P _
    restore_all-Keeps (i ∷ dirs) h =
        >>=-Keeps P (restore-Keeps i h.0) (λ _ _ _. restore_all-Keeps dirs h.1)

    extract_regular-Keeps :
        (body : Text) (complete : Bool) (i : UnpackInfo)
        → Inside dst i.path
        → Keeps P (extract_regular disk working_dir allow dst body complete i)
    unfolding extract_regular
    extract_regular-Keeps body complete i h = >>=-Keeps P (create_file-Keeps i.path h) (λ _ _ _.
        >>=-Keeps P (with_error-Keeps P (copied i.path complete) (kept.by_write i.path h body))
          (λ _ _ _. restore-Keeps i h))

    extract_symlink-Keeps :
        (header : Header) (i : UnpackInfo)
        → Inside dst i.path
        → i.path ≡ join_path (clean dst) (clean header.name)
        → Keeps P (extract_symlink disk working_dir allow dst header i)
    unfolding extract_symlink ask
    extract_symlink-Keeps header i h same =
        let valid = valid_symlink working_dir allow dst header.name header.link_name in
        let made = kept.by_symlink header.name header.link_name (subst (Inside dst) same h) in
        >>=-Keeps P (ask-Keeps P _) (λ _ _ e.
          >>=-Keeps P
            (with_error-Keeps P _ (
              subst (λ path. Keeps P (symlink_to header.link_name path)) (sym same)
                (made (lift_symlink-ok valid e))))
            (λ _ _ _. restore-Keeps i h))

    extract_info-Keeps :
        (header : Header) (body : Text) (complete : Bool) (i : UnpackInfo) (dirs : List UnpackInfo)
        → Inside dst i.path
        → i.path ≡ join_path (clean dst) (clean header.name)
        → Keeps P (extract_info disk working_dir allow dst header body complete i dirs)
    unfolding extract_info
    extract_info-Keeps header body complete i dirs h same =
        >>=-Keeps P
          (with_error-Keeps P (or_fail (mkdir_failed (dir i.path))) (kept.by_mkdir i.path h))
          (λ _ _ _.
            if-Keeps P (is_symlink i)
              (>>=-Keeps P (extract_symlink-Keeps header i h same) (λ _ _ _. ask-Keeps P _))
              (if-Keeps P (is_directory i) (ask-Keeps P _) (
                if-Keeps P (not (is_regular i)) (ask-Keeps P _) (
                  >>=-Keeps P (extract_regular-Keeps body complete i h) (λ _ _ _. ask-Keeps P _)))))

    abbrev AllInside : List UnpackInfo → Type 0
    AllInside dirs = All (λ i. Inside dst i.path) dirs

    extract_info-Gives :
        (header : Header) (body : Text) (complete : Bool) (i : UnpackInfo) (dirs : List UnpackInfo)
        → Inside dst i.path
        → AllInside dirs
        → Gives AllInside (extract_info disk working_dir allow dst header body complete i dirs)
    unfolding extract_info
    extract_info-Gives header body complete i dirs h k = >>=-Gives AllInside _ (λ _ _ _.
        if-Gives AllInside (is_symlink i)
          (>>=-Gives AllInside _ (λ _ _ _. return-Gives AllInside dirs k))
          (if-Gives AllInside (is_directory i)
            (return-Gives AllInside (dirs ++ (i ∷ []))
              (All-append (λ i. Inside dst i.path) dirs (i ∷ []) k (h, tt)))
            (if-Gives AllInside (not (is_regular i)) (return-Gives AllInside dirs k)
              (>>=-Gives AllInside _ (λ _ _ _. return-Gives AllInside dirs k)))))

    -- What NewUnpackInfo says of an entry.
    accepted :
        (header : Header) (s : State) {i : UnpackInfo}
        → lift_entry (new_unpack_info (lstat s) dst header) ≡ ok i
        → Inside dst i.path × (i.path ≡ join_path (clean dst) (clean header.name))
    accepted header s h = go (new_unpack_info (lstat s) dst header) refl h
      where
        go :
            (r : Result UnpackError UnpackInfo) {i : UnpackInfo}
            → new_unpack_info (lstat s) dst header ≡ r
            → lift_entry r ≡ ok i
            → Inside dst i.path × (i.path ≡ join_path (clean dst) (clean header.name))
        go (err e) _ h = cc h
        go (ok j) e h =
            let (same, below, _, _) =
              new_unpack_info-IsBelow (lstat s) dst header (e ∙ ap ok (ok-injective h)) in
            (below, same)

    extract_entry-Keeps :
        (header : Header) (body : Text) (complete : Bool) (dirs : List UnpackInfo)
        → Keeps P (extract_entry disk working_dir allow dst header body complete dirs)
    unfolding extract_entry ask
    extract_entry-Keeps header body complete dirs =
        if-Keeps P (is_empty header.name) (ask-Keeps P _) (
          >>=-Keeps P (ask-Keeps P _) (λ i s e.
            let (h, same) = accepted header s e in
            extract_info-Keeps header body complete i dirs h same))

    extract_entry-Gives :
        (header : Header) (body : Text) (complete : Bool) (dirs : List UnpackInfo)
        → AllInside dirs
        → Gives AllInside (extract_entry disk working_dir allow dst header body complete dirs)
    unfolding extract_entry ask
    extract_entry-Gives header body complete dirs k =
        if-Gives AllInside (is_empty header.name) (return-Gives AllInside dirs k) (
          >>=-Gives AllInside _
            (λ i s e. extract_info-Gives header body complete i dirs (accepted header s e).0 k))

    extract_entries-Keeps :
        (archive : Archive) (dirs : List UnpackInfo)
        → Keeps P (extract_entries disk working_dir allow dst archive dirs)
    unfolding extract_entries
    extract_entries-Keeps finished dirs = ask-Keeps P _
    extract_entries-Keeps broken dirs = ask-Keeps P _
    extract_entries-Keeps (entry header body complete archive) dirs =
        >>=-Keeps P (extract_entry-Keeps header body complete dirs)
          (λ ds _ _. extract_entries-Keeps archive ds)

    extract_entries-Gives :
        (archive : Archive) (dirs : List UnpackInfo)
        → AllInside dirs
        → Gives AllInside (extract_entries disk working_dir allow dst archive dirs)
    unfolding extract_entries
    extract_entries-Gives finished dirs k = return-Gives AllInside dirs k
    extract_entries-Gives broken dirs k = fail-Gives AllInside broken_archive
    extract_entries-Gives (entry header body complete archive) dirs k =
        >>=-Gives AllInside _ (λ ds s e.
          extract_entries-Gives archive ds
            ((extract_entry-Gives header body complete dirs k).given s ds e))

    unpack-Keeps : (archive : Option Archive) → Keeps P (unpack disk working_dir allow dst archive)
    unfolding unpack
    unpack-Keeps none = ask-Keeps P _
    unpack-Keeps (some archive) =
        >>=-Keeps P (extract_entries-Keeps archive [])
          (λ ds s e. restore_all-Keeps ds ((extract_entries-Gives archive [] tt).given s ds e))

  -- Unpack, whatever the archive and whether it fails or not, leaves a property of the file system as it
  -- is, if the property is left so by each call that changes, at a path in the destination, a mode,
  -- times, or a file, by the creation there of a symlink that validSymlink accepts, and by the creation
  -- of the directories above a path in the destination.
  pub unpack-IsKept :
      (P : State → Type 0) (archive : Option Archive) (s : State)
      → IsKept P
      → P s
      → P ((unpack disk working_dir allow dst archive s).0)
  unpack-IsKept P archive s kept = (unpack-Keeps P kept archive).kept s
