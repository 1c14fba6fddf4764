-- ===== src/Addrs/Local.antt =====
-- sourceaddrs/source_local.go: local source addresses.
use go_slug.Prelude.{
  Bool, not, ◌&&◌, ◌||◌, ◌++◌, if◌then◌else◌, Text, codes, text_eq, Result, ok, err,
}
use go_slug.Go.Strings.{has_prefix, contains_any}
use go_slug.Go.Path.{dot, dot_dot, clean}

pub record LocalSource : Type 0 where
  pub rel_path : Text

pub data LocalError : Type 0 where
  not_slash_path no_dot_prefix : LocalError
  not_canonical : Text → LocalError

-- looksLikeLocalSource
unfoldable pub looks_like_local_source : Text → Bool
unfolding has_prefix
looks_like_local_source given = has_prefix given (codes "./") || has_prefix given (codes "../")

abbrev pub is_dots : Text → Bool
is_dots given = text_eq given dot || text_eq given dot_dot

-- A cleaned path of dots only takes a slash behind it.
unfoldable pub with_slash : Text → Text
with_slash c = if text_eq c dot_dot then codes "../" else if text_eq c dot then codes "./" else c

-- A path without dots takes "./" in front, which tells it from other addresses.
unfoldable pub with_prefix : Text → Text
unfolding looks_like_local_source
with_prefix c = if not (looks_like_local_source c) then codes "./" ++ c else c

abbrev pub canonical : Text → Text
canonical given = with_prefix (with_slash (clean given))

-- ParseLocalSource
unfoldable pub parse_local_source : Text → Result LocalError LocalSource
unfolding looks_like_local_source clean with_slash with_prefix contains_any
parse_local_source given =
    if contains_any given (codes ":\\")
    then err not_slash_path
    else if not (looks_like_local_source given) && not (is_dots given)
    then err no_dot_prefix
    else if not (text_eq (canonical given) given)
    then err (not_canonical (canonical given))
    else ok (record { rel_path = canonical given })

-- LocalSource.String and LocalSource.RelativePath
unfoldable pub local_string : LocalSource → Text
local_string s = s.rel_path
