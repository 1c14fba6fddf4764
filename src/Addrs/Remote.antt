-- ===== src/Addrs/Remote.antt =====
-- sourceaddrs/source_remote.go, source_remote_types.go and package_remote.go: remote sources.
use go_slug.Prelude.{
  ℕ, Bool, true, false, not, ◌&&◌, ◌||◌, Option, none, some, List, [], ◌∷◌, ◌++◌, if◌then◌else◌,
  ◌==◌, leb, Text, codes, text_eq, length, take, drop, is_empty, any, Result, ok, err, ◌>>=◌, ltb,
}
use go_slug.Go.Strings.{has_prefix, has_suffix, join, split}
use go_slug.Go.Path.{slash, segments}
use go_slug.Addrs.SubPath.{SubPathError, normalize_sub_path, split_sub_path}
use go_slug.Addrs.Types.{
  Url, Query, Packages, RemotePackage, RemoteSource, AddrError, sub_path_error, short_shorthand,
  invalid_url_syntax, no_scheme, has_user, redundant_source_type, invalid_query, unsupported_scheme,
  unsupported_source_type, git_scheme, git_argument, git_repeated_ref, unencrypted_http,
  https_scheme, https_repeated_archive, https_archive, https_suffix, https_checksum, has_sub_path,
  panicked,
}

abbrev pub R {ℓ} : Type ℓ → Type ℓ
R A = Result AddrError A

abbrev pub lift_sub_path {ℓ} : {A : Type ℓ} → Result SubPathError A → R A
lift_sub_path (ok a) = ok a
lift_sub_path (err e) = err (sub_path_error e)

abbrev pub git : Text
git = codes "git"

abbrev pub http : Text
http = codes "http"

abbrev pub https : Text
https = codes "https"

abbrev pub ssh : Text
ssh = codes "ssh"

-- The values of an argument; none where it is missing.
unfoldable pub values : Text → Query → List Text
values key [] = []
values key ((k, vs) ∷ q) = if text_eq k key then vs else values key q

-- Values.Set
unfoldable pub set_value : Text → Text → Query → Query
set_value key v [] = (key, v ∷ []) ∷ []
set_value key v ((k, vs) ∷ q) =
    if text_eq k key then (k, v ∷ []) ∷ q else (k, vs) ∷ set_value key v q

-- The loop of gitSourceType.PrepareURL over the arguments of the query.
unfoldable pub git_arguments : Query → R (Unit {0})
git_arguments [] = ok tt
git_arguments ((k, vs) ∷ q) =
    if not (text_eq k (codes "ref"))
    then err git_argument
    else if ltb 1 (length vs)
    then err git_repeated_ref
    else git_arguments q

-- The query of a https URL with an "archive" argument, as it is after the checks.
unfoldable pub archive_query : List Text → Query → R Query
archive_query [] q = ok q
archive_query (v ∷ vs) q =
    if not (is_empty vs)
    then err https_repeated_archive
    else if not (text_eq v (codes "tar.gz")) && not (text_eq v (codes "tgz"))
    then err https_archive
    else ok (if text_eq v (codes "tar.gz") then set_value (codes "archive") (codes "tgz") q else q)

abbrev pub archive_path : Text → Bool
archive_path p = has_suffix p (codes ".tar.gz") || has_suffix p (codes ".tgz")

unfoldable pub no_checksum : Query → Url → R Url
unfolding values
no_checksum q u = if is_empty (values (codes "checksum") q) then ok u else err https_checksum

-- The two shorthands, one for each host. The second result of a closure is the `Option`.
unfoldable pub shorthand : Text → Text → R (Option Text)
unfolding has_prefix has_suffix join split
shorthand host given =
    if not (has_prefix given (host ++ codes "/"))
    then ok none
    else let parts = segments given in
      if ltb (length parts) 3
      then err (short_shorthand host)
      else let url_str = codes "https://" ++ join slash (take 3 parts) in
        let repo = if has_suffix url_str (codes "git") then url_str else url_str ++ codes ".git" in
        ok (
          some (
            codes "git::"
            ++ (if ltb 3 (length parts)
                then repo ++ (codes "//" ++ join slash (drop 3 parts))
                else repo)))

abbrev replaced : Option Text → Text → Text
replaced none expanded = expanded
replaced (some t) expanded = t

-- The loop over remoteSourceShorthands.
unfoldable pub expand : Text → R Text
unfolding shorthand
expand given = do
  first ← shorthand (codes "github.com") given
  second ← shorthand (codes "gitlab.com") given
  ok (replaced second (replaced first given))

abbrev is_alnum : ℕ → Bool
is_alnum c = (leb b'A' c && leb c b'Z') || (leb b'a' c && leb c b'z') || (leb b'0' c && leb c b'9')

abbrev pub one_line : Text → Bool
one_line s = not (is_empty s) && not (any (λ c. c == 10) s)

-- remoteSourceTypePattern, ^([A-Za-z0-9]+)::(.+)$, behind the characters `seen` of the first group.
unfoldable pub split_source_type : Text → Text → Option (Text × Text)
unfolding has_prefix
split_source_type seen [] = none
split_source_type seen (c ∷ s) =
    let longer = split_source_type (seen ++ (c ∷ [])) s in
    if is_alnum c
    then longer
    else if not (is_empty seen) && has_prefix (c ∷ s) (codes "::") && one_line (drop 1 s)
    then some (seen, drop 1 s)
    else none

abbrev pub source_type_parts : Option (Text × Text) → Text → Text × Text
source_type_parts none pkg_raw = ([], pkg_raw)
source_type_parts (some parts) pkg_raw = parts

abbrev pub or_error {ℓ} : {A : Type ℓ} → Option A → AddrError → R A
or_error none e = err e
or_error (some a) e = ok a

abbrev pub is_none {ℓ} : {A : Type ℓ} → Option A → Bool
is_none none = true
is_none (some a) = false

abbrev pub guard : Bool → AddrError → R (Unit {0})
guard true e = ok tt
guard false e = err e

-- The source type that is in force, from the one that was written and the scheme.
unfoldable pub effective_type : Text → Text → R Text
effective_type source_type scheme =
    if is_empty source_type
    then ok scheme
    else if text_eq source_type scheme
    then err redundant_source_type
    else ok source_type

module _ (p : Packages) where
  open p use {parse_url, escaped_path, query, parse_query, encode, to_lower, url_string}

  -- gitSourceType.PrepareURL
  unfoldable pub prepare_git : Url → R Url
  unfolding git_arguments
  prepare_git u =
      if not (text_eq u.scheme ssh) && not (text_eq u.scheme https)
      then err git_scheme
      else git_arguments (query u) >>= λ _. ok u

  abbrev pub archive_or_suffix : Url → R (Query × Url)
  archive_or_suffix u =
      if not (is_empty (values (codes "archive") (query u)))
      then (archive_query (values (codes "archive") (query u)) (query u) >>= λ q.
          ok (q, record u { raw_query = encode q }))
      else if archive_path (escaped_path u)
      then ok (query u, u)
      else err https_suffix

  -- httpSourceType.PrepareURL
  unfoldable pub prepare_http : Url → R Url
  unfolding archive_query values no_checksum has_suffix
  prepare_http u =
      if text_eq u.scheme http
      then err unencrypted_http
      else if not (text_eq u.scheme https)
      then err https_scheme
      else archive_or_suffix u >>= λ r. no_checksum r.0 r.1

  -- remoteSourceTypes, and the call of PrepareURL
  unfoldable pub prepare_url : Text → Url → R Url
  unfolding prepare_git prepare_http
  prepare_url source_type u =
      if text_eq source_type git
      then prepare_git u
      else if text_eq source_type http || text_eq source_type https
      then prepare_http u
      else if text_eq source_type u.scheme
      then err (unsupported_scheme u.scheme)
      else err (unsupported_source_type source_type)

  -- makeRemoteSource
  unfoldable pub make_remote_source : Text → Url → Text → R RemoteSource
  unfolding prepare_url
  make_remote_source source_type u sub_path = prepare_url source_type u >>= λ u'.
      ok (record { pkg = record { source_type = source_type; url = u' }; sub_path = sub_path })

  -- MakeRemoteSource
  unfoldable pub make_remote_source_checked : Text → Url → Text → R RemoteSource
  unfolding make_remote_source normalize_sub_path
  make_remote_source_checked source_type u sub_path =
      lift_sub_path (normalize_sub_path sub_path) >>= λ s. make_remote_source source_type u s

  -- From url.Parse on, with the lower-case source type and scheme.
  unfoldable pub checked_url : Text → Text → Text → R RemoteSource
  unfolding make_remote_source effective_type
  checked_url source_type pkg_raw sub_path = do
    u ← or_error (parse_url pkg_raw) invalid_url_syntax
    _ ← guard (not (is_empty u.scheme)) no_scheme
    _ ← guard (is_none u.user) has_user
    let lowered = record u { scheme = to_lower u.scheme }
    kind ← effective_type (to_lower source_type) (to_lower u.scheme)
    _ ← or_error (parse_query u.raw_query) invalid_query
    make_remote_source kind lowered sub_path

  -- ParseRemoteSource
  unfoldable pub parse_remote_source : Text → R RemoteSource
  unfolding expand split_sub_path normalize_sub_path split_source_type checked_url
  parse_remote_source given = do
    expanded ← expand given
    let parts = split_sub_path expanded
    sub_path ← lift_sub_path (normalize_sub_path parts.1)
    let typed = source_type_parts (split_source_type [] parts.0) parts.0
    checked_url typed.0 typed.1 sub_path

  -- ParseRemotePackage
  unfoldable pub parse_remote_package : Text → R RemotePackage
  unfolding parse_remote_source
  parse_remote_package given = do
    s ← parse_remote_source given
    _ ← guard (is_empty s.sub_path) has_sub_path
    ok s.pkg

  abbrev with_type : Text → Url → Text → Text
  with_type source_type u s =
      if text_eq u.scheme source_type then s else source_type ++ (codes "::" ++ s)

  -- RemotePackage.String
  unfoldable pub remote_package_string : RemotePackage → Text
  remote_package_string pkg = with_type pkg.source_type pkg.url (url_string pkg.url)

  -- RemotePackage.subPathString
  unfoldable pub sub_path_string : RemotePackage → Text → Text
  unfolding remote_package_string
  sub_path_string pkg [] = remote_package_string pkg
  sub_path_string pkg (c ∷ s) =
      let u = pkg.url in
      with_type pkg.source_type u
        (url_string (record u { path = u.path ++ (codes "//" ++ (c ∷ s)) }))

  -- RemoteSource.String
  unfoldable pub remote_source_string : RemoteSource → Text
  unfolding sub_path_string
  remote_source_string s = sub_path_string s.pkg s.sub_path

-- RemotePackage.SourceAddr, which panics at an invalid sub-path
unfoldable pub source_addr : RemotePackage → Text → R RemoteSource
unfolding normalize_sub_path
source_addr pkg sub_path = elim (normalize_sub_path sub_path) [
  | ok s ↦ ok (record { pkg = pkg; sub_path = s })
  | err e ↦ err panicked
]
