-- ===== src/Unpack.antt =====
-- internal/unpackinfo/unpackinfo.go: what an entry of an archive may be, and where it may go.
--
-- `lstat` is os.Lstat at the time of the call.
pub mod Inside
pub mod Restore
mod Samples
use go_slug.Prelude.{
  ℕ, Bool, true, false, not, ◌||◌, Option, none, some, List, [], ◌∷◌, Text, Result, ok, err, ◌==◌,
  if◌then◌else◌, codes, is_empty,
}
use go_slug.Go.Strings.{has_prefix}
use go_slug.Go.Path.{dot_dot, segments, clean, join_path}
use go_slug.Go.Relative.{rel}

-- A signed integer.
pub data ℤ : Type 0 where
  pos negsuc : ℕ → ℤ

-- time.Time: Unix, which is negative before 1970, and Nanosecond, which is below 1000000000.
pub record Time : Type 0 where
  pub unix : ℤ
  pub nanosecond : ℕ

-- tar.Header, as far as it is read; `file_mode` is what header.FileInfo().Mode() gives.
pub record Header : Type 0 where
  pub name : Text
  pub link_name : Text
  pub typeflag : ℕ
  pub access_time : Time
  pub mod_time : Time
  pub file_mode : ℕ

pub record UnpackInfo : Type 0 where
  pub path : Text
  pub original_access_time : Time
  pub original_mod_time : Time
  pub original_mode : ℕ
  pub typeflag : ℕ

pub data Lstat : Type 0 where
  not_exist symlink no_symlink : Lstat
  failed : Text → Lstat

pub data UnpackError : Type 0 where
  empty_destination traversal through_symlink unsupported_type : UnpackError
  lstat_failed : Text → UnpackError

-- UnpackInfo.IsSymlink, IsDirectory, IsTypeX and IsRegular
unfoldable pub is_symlink : UnpackInfo → Bool
is_symlink i = i.typeflag == b'2'

unfoldable pub is_directory : UnpackInfo → Bool
is_directory i = i.typeflag == b'5'

unfoldable pub is_type_x : UnpackInfo → Bool
is_type_x i = (i.typeflag == b'g') || (i.typeflag == b'x')

unfoldable pub is_regular : UnpackInfo → Bool
is_regular i = (i.typeflag == b'0') || (i.typeflag == 0)

-- An entry that go-slug knows.
unfoldable pub is_supported : UnpackInfo → Bool
unfolding is_symlink is_directory is_type_x is_regular
is_supported i = is_directory i || (is_symlink i || (is_regular i || is_type_x i))

module _ (lstat : Text → Lstat) where
  -- The loop over the components but the last; `none` is that it comes to its end.
  unfoldable pub check_parents : Text → List Text → Option UnpackError
  unfolding join_path
  check_parents current [] = none
  check_parents current (c ∷ []) = none
  check_parents current (c ∷ d ∷ components) =
      let later = check_parents (join_path current c) (d ∷ components) in
      elim (lstat (join_path current c)) [
        | not_exist ↦ later
        | no_symlink ↦ later
        | failed e ↦ some (lstat_failed e)
        | symlink ↦ some through_symlink
      ]

  unfoldable pub make_info : Text → Header → Result UnpackError UnpackInfo
  unfolding is_supported
  make_info path header =
      let i : UnpackInfo = record {
        path = path;
        original_access_time = header.access_time;
        original_mod_time = header.mod_time;
        original_mode = header.file_mode;
        typeflag = header.typeflag;
      } in
      if is_supported i then ok i else err unsupported_type

  -- From the test for symlinks on the way.
  unfoldable pub after_traversal : Text → Text → Header → Result UnpackError UnpackInfo
  unfolding check_parents make_info
  after_traversal dst path header = elim (check_parents dst (segments header.name)) [
    | some e ↦ err e
    | none ↦ make_info path header
  ]

  -- NewUnpackInfo
  unfoldable pub new_unpack_info : Text → Header → Result UnpackError UnpackInfo
  unfolding rel has_prefix clean join_path after_traversal
  new_unpack_info given header =
      let dst = clean given in
      let path = join_path dst (clean header.name) in
      if is_empty given then err empty_destination else elim (rel dst (clean path)) [
        | none ↦ err traversal
        | some r ↦ if has_prefix r dot_dot then err traversal else after_traversal dst path header
      ]
