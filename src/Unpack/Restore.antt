-- ===== src/Unpack/Restore.antt =====
-- internal/unpackinfo/unpackinfo.go, RestoreInfo, and lchtimes_*.go: modes and times of what was
-- unpacked.
use go_slug.Prelude.{
  ℕ, ◌≡◌, refl, ◌≤◌, ◌<◌, ◌/◌, ◌%◌, arith, Bool, Text, Result, ok, err, if◌then◌else◌,
}
use go_slug.Go.Action.{Action, ◌>>=◌, return, with_error}
use go_slug.Unpack.{ℤ, UnpackInfo, Time, Lstat, is_directory, is_symlink}

-- Why a call of the os package failed, as os.IsNotExist and os.IsPermission tell.
pub data OsError : Type 0 where
  missing forbidden other_failure : OsError

-- unix.Timeval
pub record Timeval : Type 0 where
  pub sec : ℤ
  pub usec : ℕ

abbrev pub Call : Type 0 → Type 0
Call S = S → S × Result OsError (Unit {0})

-- The file system and what is asked of it: os.Lstat, os.Chmod, os.Chtimes, unix.Lutimes, os.MkdirAll,
-- os.Symlink, os.Create, and writing to the file that was created, where the call that fails may have
-- changed the file system too.
pub record Disk : Type 1 where
  pub State : Type 0
  pub lstat : State → Text → Lstat
  pub chmod : Text → ℕ → Call State
  pub chtimes : Text → Time → Time → Call State
  pub lutimes : Text → Timeval → Timeval → Call State
  pub mkdir_all : Text → Call State
  pub symlink_to : Text → Text → Call State
  pub create : Text → Call State
  pub write : Text → Text → Call State
  -- CanMaintainSymlinkTimestamps of the platform
  pub can_maintain_symlink_timestamps : Bool

pub data RestoreError : Type 0 where
  permissions_failed times_failed : Text → RestoreError

-- The argument of Lutimes for a time. The microseconds fit in 32 bits.
unfoldable pub timeval : Time → Timeval
timeval t = record { sec = t.unix; usec = t.nanosecond / 1000000 % 1000000 }

-- An error is that of `e`.
abbrev pub or_fail : {E A : Type 0} → E → Result OsError A → Result E A
or_fail e (ok a) = ok a
or_fail e (err x) = err e

-- An error is that of `e`, unless there is no such file.
abbrev pub or_missing : {E : Type 0} → E → Result OsError (Unit {0}) → Result E (Unit {0})
or_missing e (ok a) = ok a
or_missing e (err missing) = ok tt
or_missing e (err forbidden) = err e
or_missing e (err other_failure) = err e

module _ (disk : Disk) where
  open disk use {State, chmod, chtimes, lutimes, can_maintain_symlink_timestamps}

  -- Lchtimes
  unfoldable pub lchtimes : UnpackInfo → Call State
  unfolding timeval
  lchtimes i = lutimes i.path (timeval i.original_access_time) (timeval i.original_mod_time)

  unfoldable pub restore_directory : UnpackInfo → Action State RestoreError (Unit {0})
  restore_directory i =
      with_error (or_missing (permissions_failed i.path)) (chmod i.path i.original_mode) >>= λ _.
      with_error (or_missing (times_failed i.path))
        (chtimes i.path i.original_access_time i.original_mod_time)

  unfoldable pub restore_symlink : UnpackInfo → Action State RestoreError (Unit {0})
  unfolding lchtimes
  restore_symlink i = with_error (or_fail (times_failed i.path)) (lchtimes i)

  unfoldable pub restore_normal : UnpackInfo → Action State RestoreError (Unit {0})
  restore_normal i =
      with_error (or_fail (permissions_failed i.path)) (chmod i.path i.original_mode) >>= λ _.
      with_error (or_fail (times_failed i.path))
        (chtimes i.path i.original_access_time i.original_mod_time)

  -- UnpackInfo.RestoreInfo
  unfoldable pub restore_info : UnpackInfo → Action State RestoreError (Unit {0})
  unfolding is_directory is_symlink restore_directory restore_symlink restore_normal
  restore_info i =
      if is_directory i
      then restore_directory i
      else if is_symlink i
      then (if can_maintain_symlink_timestamps then restore_symlink i else return tt)
      else restore_normal i

-- The time that Lchtimes gives a symlink, for a time with less than a second in nanoseconds, has the
-- seconds of that time, and as its microseconds the milliseconds: at most 999, and fewer than the time
-- has microseconds, if it has any.
pub timeval-milliseconds :
    (t : Time)
    → t.nanosecond < 1000000000
    → ((timeval t).sec ≡ t.unix)
      × ((timeval t).usec ≡ t.nanosecond / 1000000)
      × ((timeval t).usec ≤ 999)
      × (1000 ≤ t.nanosecond → (timeval t).usec < t.nanosecond / 1000)
unfolding timeval
timeval-milliseconds t h = (refl, omega (arith, h), omega (arith, h), λ k. omega (arith, h, k))
