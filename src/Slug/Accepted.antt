-- ===== src/Slug/Accepted.antt =====
-- What an archive is that Unpack extracts without an error.
use go_slug.Prelude.{
  ◌≡◌, refl, ap, ◌⊎◌, inl, inr, Bool, true, false, not, Option, none, some, List, [], ◌∷◌, ◌++◌,
  if◌then◌else◌, Text, is_empty, Result, ok, err, ok-injective,
}
use go_slug.Go.Action.{◌>>=◌, return, ask, with_error, >>=-returns}
use go_slug.Unpack.{
  Header, UnpackInfo, UnpackError, is_directory, is_symlink, is_regular, new_unpack_info,
}
use go_slug.Unpack.Restore.{Disk, OsError}
use go_slug.Slug.{SymlinkError, valid_symlink}
use go_slug.Slug.Extract.{
  Archive, finished, broken, entry, lift_entry, lift_symlink, copied, extract_symlink,
  extract_regular, extract_info, extract_entry, extract_entries, unpack,
}

pub lift_symlink-ok :
    (r : Result SymlinkError (Unit {0})) {a : Unit {0}} → lift_symlink r ≡ ok a → r ≡ ok tt
lift_symlink-ok (ok a) h = refl
lift_symlink-ok (err e) h = cc h

lift_entry-ok :
    (r : Result UnpackError UnpackInfo) {i : UnpackInfo} → lift_entry r ≡ ok i → r ≡ ok i
lift_entry-ok (ok j) h = ap ok (ok-injective h)
lift_entry-ok (err e) h = cc h

copied-ok :
    (path : Text) (complete : Bool) (r : Result OsError (Unit {0})) {a : Unit {0}}
    → copied path complete r ≡ ok a
    → complete ≡ true
copied-ok path true (ok a) h = refl
copied-ok path false (ok a) h = cc h
copied-ok path complete (err e) h = cc h

module _ (disk : Disk) (working_dir : Option Text) (allow : List Text) (dst : Text) where
  open disk use {State, lstat, mkdir_all, symlink_to, write}

  -- The entry was accepted in the state that was reached, as a symlink only with a target that
  -- validSymlink accepts, and as a file only with its whole content.
  pub record IsExtracted (header : Header) (complete : Bool) : Type 0 where
    pub state : State
    pub info : UnpackInfo
    pub accepted : new_unpack_info (lstat state) dst header ≡ ok info
    pub link :
        is_symlink info ≡ true
        → valid_symlink working_dir allow dst header.name header.link_name ≡ ok tt
    pub content :
        is_symlink info ≡ false
        → is_directory info ≡ false
        → is_regular info ≡ true
        → complete ≡ true

  -- The archive ends as it should, and every entry with a name was extracted.
  abbrev pub IsWhole : Archive → Type 0
  IsWhole finished = Unit
  IsWhole broken = ⊥
  IsWhole (entry header body complete archive) =
      (is_empty header.name ≡ true ⊎ IsExtracted header complete) × IsWhole archive

  extract_symlink-returns :
      (header : Header) (i : UnpackInfo) (s : State) {a : Unit {0}}
      → (extract_symlink disk working_dir allow dst header i s).1 ≡ ok a
      → valid_symlink working_dir allow dst header.name header.link_name ≡ ok tt
  unfolding extract_symlink ask
  extract_symlink-returns header i s h = let (_, k, _) = >>=-returns _ _ s h in lift_symlink-ok _ k

  extract_regular-returns :
      (body : Text) (complete : Bool) (i : UnpackInfo) (s : State) {a : Unit {0}}
      → (extract_regular disk working_dir allow dst body complete i s).1 ≡ ok a
      → complete ≡ true
  unfolding extract_regular with_error
  extract_regular-returns body complete i s h =
      let (_, _, k) = >>=-returns _ _ s h in
      let (_, l, _) = >>=-returns _ _ _ k in copied-ok i.path complete _ l

  extract_info-returns :
      (header : Header) (body : Text) (complete : Bool) (i : UnpackInfo) (dirs : List UnpackInfo)
      (s : State) {ds : List UnpackInfo}
      → (extract_info disk working_dir allow dst header body complete i dirs s).1 ≡ ok ds
      → (is_symlink i ≡ true
          → valid_symlink working_dir allow dst header.name header.link_name ≡ ok tt)
        × (is_symlink i ≡ false → is_directory i ≡ false → is_regular i ≡ true → complete ≡ true)
  unfolding extract_info
  extract_info-returns header body complete i dirs s {ds} h =
      let (_, _, l) = >>=-returns _ _ s h in go (is_symlink i) (is_directory i) (is_regular i) _ l
    where
      go :
          (a b c : Bool) (t : State)
          → ((if a
                then extract_symlink disk working_dir allow dst header i >>= (λ _. return dirs)
                else if b
                then return (dirs ++ (i ∷ []))
                else if not c
                then return dirs
                else extract_regular disk working_dir allow dst body complete i >>= λ _.
                    return dirs)
              t).1
            ≡ ok ds
          → (a ≡ true → valid_symlink working_dir allow dst header.name header.link_name ≡ ok tt)
            × (a ≡ false → b ≡ false → c ≡ true → complete ≡ true)
      go true b c t l =
          let (_, k, _) = >>=-returns _ _ t l in
          ((λ _. extract_symlink-returns header i t k), λ x. cc x)
      go false true c t l = ((λ x. cc x), λ _ x. cc x)
      go false false false t l = ((λ x. cc x), λ _ _ x. cc x)
      go false false true t l =
          let (_, k, _) = >>=-returns _ _ t l in
          ((λ x. cc x), λ _ _ _. extract_regular-returns body complete i t k)

  extract_entry-returns :
      (header : Header) (body : Text) (complete : Bool) (dirs : List UnpackInfo) (s : State)
      {ds : List UnpackInfo}
      → (extract_entry disk working_dir allow dst header body complete dirs s).1 ≡ ok ds
      → is_empty header.name ≡ true ⊎ IsExtracted header complete
  unfolding extract_entry ask
  extract_entry-returns header body complete dirs s {ds} h = go (is_empty header.name) refl h
    where
      go :
          (b : Bool)
          → is_empty header.name ≡ b
          → ((if b
                then return dirs
                else ask (λ s. lift_entry (new_unpack_info (lstat s) dst header)) >>= λ i.
                    extract_info disk working_dir allow dst header body complete i dirs)
              s).1
            ≡ ok ds
          → is_empty header.name ≡ true ⊎ IsExtracted header complete
      go true e _ = inl e
      go false e h =
          let (i, k, l) = >>=-returns _ _ s h in
          let (link, content) = extract_info-returns header body complete i dirs _ l in
          inr (record {
            state = s;
            info = i;
            accepted = lift_entry-ok _ k;
            link = link;
            content = content;
          })

  extract_entries-returns :
      (archive : Archive) (dirs : List UnpackInfo) (s : State) {ds : List UnpackInfo}
      → (extract_entries disk working_dir allow dst archive dirs s).1 ≡ ok ds
      → IsWhole archive
  unfolding extract_entries ask
  extract_entries-returns finished dirs s h = tt
  extract_entries-returns broken dirs s h = cc h
  extract_entries-returns (entry header body complete archive) dirs s h =
      let (ds, k, l) = >>=-returns _ _ s h in
      (extract_entry-returns header body complete dirs s k, extract_entries-returns archive ds _ l)

  -- Unpack returns no error only for a compressed archive that ends as it should and of which each
  -- entry with a name was accepted by NewUnpackInfo at some state of the file system, a symlink also by
  -- validSymlink, a regular file with its whole content.
  pub unpack-IsWhole :
      (given : Option Archive) (s : State)
      → (unpack disk working_dir allow dst given s).1 ≡ ok tt
      → (archive : Archive) × (given ≡ some archive) × IsWhole archive
  unfolding unpack ask
  unpack-IsWhole none s h = cc h
  unpack-IsWhole (some archive) s h =
      let (ds, k, l) = >>=-returns _ _ s h in
      (archive, refl, extract_entries-returns archive [] s k)
