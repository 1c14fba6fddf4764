-- ===== src/Unpack/Samples.antt =====
-- Entries that are accepted and refused.
use go_slug.Prelude.{ℕ, ◌≡◌, refl, true, [], Text, codes, err, All, text_eq, if◌then◌else◌, ◌≢◌}
use go_slug.Go.Path.{segments, clean, join_path}
use go_slug.Go.Relative.{IsBelow}
use go_slug.Unpack.{
  pos, Header, Time, UnpackInfo, Lstat, not_exist, symlink, is_supported, new_unpack_info,
  traversal, through_symlink,
}
use go_slug.Unpack.Inside.{parents, new_unpack_info-IsBelow}

-- The directory /d has one entry, the link "out".
abbrev one_link : Text → Lstat
one_link p = if text_eq p (codes "/d/out") then symlink else not_exist

abbrev at : ℕ → Time
at n = record { unix = pos n; nanosecond = 0 }

abbrev file_named : Text → Header
file_named name = record {
  name = name;
  link_name = [];
  typeflag = b'0';
  access_time = at 1;
  mod_time = at 2;
  file_mode = 3;
}

refuses_traversal :
    new_unpack_info one_link (codes "/d") (file_named (codes "a/../../e")) ≡ err traversal
unfolding new_unpack_info
refuses_traversal = refl

refuses_link :
    new_unpack_info one_link (codes "/d") (file_named (codes "out/e")) ≡ err through_symlink
unfolding new_unpack_info
refuses_link = refl

-- A name that only begins like "..", and stays inside, is refused as well.
refuses_dots : new_unpack_info one_link (codes "/d") (file_named (codes "..e")) ≡ err traversal
unfolding new_unpack_info
refuses_dots = refl

abbrev accepted : UnpackInfo
accepted = record {
  path = codes "/d/a/e";
  original_access_time = at 1;
  original_mod_time = at 2;
  original_mode = 3;
  typeflag = b'0';
}

new_unpack_info-IsBelow_example :
    (codes "/d/a/e" ≡ join_path (clean (codes "/d/")) (clean (codes "a//e")))
    × IsBelow (clean (clean (codes "/d/"))) (clean (clean (codes "/d/a/e")))
    × All (λ p. one_link p ≢ symlink) (parents (clean (codes "/d/")) (segments (codes "a//e")))
    × (is_supported accepted ≡ true)
unfolding new_unpack_info
new_unpack_info-IsBelow_example =
    new_unpack_info-IsBelow one_link (codes "/d/") (file_named (codes "a//e")) {i = accepted} refl
