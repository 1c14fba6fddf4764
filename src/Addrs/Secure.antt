-- ===== src/Addrs/Secure.antt =====
-- What ParseRemoteSource accepts: encrypted transports, no user, and a valid sub-path.
use go_slug.Prelude.{
  ◌≡◌, refl, sym, ap, ◌∙◌, ◌⊎◌, inl, inr, Bool, true, false, not, ◌||◌, Option, none, some, Text,
  codes, text_eq, text_eq→eq, is_empty, Bool-cases, Result, ok, err, >>=-eq-ok, subst,
}
use go_slug.Addrs.SubPath.{SubPathError, normalize_sub_path, split_sub_path, valid_sub_path}
use go_slug.Addrs.SubPath.Valid.{normalize_sub_path-ok}
use go_slug.Addrs.Types.{
  Url, Query, Packages, RemoteSource, AddrError, invalid_url_syntax, no_scheme, has_user,
  invalid_query,
}
use go_slug.Addrs.Remote.{
  lift_sub_path, or_error, guard, is_none, git, http, https, ssh, values, archive_query,
  git_arguments, no_checksum, prepare_git, prepare_http, prepare_url, make_remote_source,
  checked_url, parse_remote_source, archive_or_suffix, effective_type, expand, archive_path,
}

-- A transport that encrypts: https for any source type, or ssh for git.
abbrev pub IsEncrypted : Text → Text → Type 0
IsEncrypted source_type scheme = (scheme ≡ https) ⊎ ((source_type ≡ git) × (scheme ≡ ssh))

-- A remote source that keeps no secret in its address and is not open to eavesdropping.
pub record IsSecure (s : RemoteSource) : Type 0 where
  pub encrypted : IsEncrypted s.pkg.source_type s.pkg.url.scheme
  pub anonymous : s.pkg.url.user ≡ none
  pub valid : valid_sub_path s.sub_path ≡ true

guard-ok : (b : Bool) (e : AddrError) {u : Unit {0}} → guard b e ≡ ok u → b ≡ true
guard-ok true e h = refl
guard-ok false e h = cc h

is_none-eq {ℓ} : {A : Type ℓ} (o : Option A) → is_none o ≡ true → o ≡ none
is_none-eq none h = refl
is_none-eq (some a) h = cc h

lift_sub_path-ok : (r : Result SubPathError Text) {s : Text} → lift_sub_path r ≡ ok s → r ≡ ok s
lift_sub_path-ok (ok t) {s} h = let same : t ≡ s = cc h in ap ok same
lift_sub_path-ok (err e) h = cc h

module _ (p : Packages) where
  open p use {query, encode, escaped_path}

  -- What the preparation of a URL leaves alone.
  abbrev Keeps : Url → Url → Type 0
  Keeps u v = (v.scheme ≡ u.scheme) × (v.user ≡ u.user)

  prepare_git-ok :
      (u : Url) {v : Url}
      → prepare_git p u ≡ ok v
      → Keeps u v × ((u.scheme ≡ https) ⊎ (u.scheme ≡ ssh))
  unfolding prepare_git
  prepare_git-ok u {v} h = elim (Bool-cases (text_eq u.scheme ssh)) [
    | inl e ↦
        let (w, _, k) = >>=-eq-ok (git_arguments (query u)) _ (rw e at h) in
        let same : u ≡ v = cc k in rw (← same) ((refl, refl), inr (text_eq→eq u.scheme ssh e))
    | inr e ↦ elim (Bool-cases (text_eq u.scheme https)) [
      | inl f ↦
          let (w, _, k) = >>=-eq-ok (git_arguments (query u)) _ (rw (e, f) at h) in
          let same : u ≡ v = cc k in rw (← same) ((refl, refl), inl (text_eq→eq u.scheme https f))
      | inr f ↦ cc (rw (e, f) at h)
    ]
  ]

  archive_or_suffix-ok :
      (u : Url) {q : Query} {v : Url} → archive_or_suffix p u ≡ ok (q, v) → Keeps u v
  archive_or_suffix-ok u {q} {v} h =
      elim (Bool-cases (not (is_empty (values (codes "archive") (query u))))) [
        | inl e ↦
            let (r, _, k) =
              >>=-eq-ok (archive_query (values (codes "archive") (query u)) (query u)) _
                (rw e at h) in
            let same : record u { raw_query = encode r } ≡ v = cc k in rw (← same) (refl, refl)
        | inr e ↦ elim (Bool-cases (archive_path (escaped_path u))) [
          | inl f ↦ let same : u ≡ v = cc (rw (e, f) at h) in rw (← same) (refl, refl)
          | inr f ↦ cc (rw (e, f) at h)
        ]
      ]

  no_checksum-ok : (q : Query) (u : Url) {v : Url} → no_checksum q u ≡ ok v → u ≡ v
  unfolding no_checksum
  no_checksum-ok q u h = elim (Bool-cases (is_empty (values (codes "checksum") q))) [
    | inl e ↦ cc (rw e at h)
    | inr e ↦ cc (rw e at h)
  ]

  prepare_http-ok : (u : Url) {v : Url} → prepare_http p u ≡ ok v → Keeps u v × (u.scheme ≡ https)
  unfolding prepare_http
  prepare_http-ok u {v} h = elim (Bool-cases (text_eq u.scheme http)) [
    | inl e ↦ cc (rw e at h)
    | inr e ↦ elim (Bool-cases (text_eq u.scheme https)) [
      | inr f ↦ cc (rw (e, f) at h)
      | inl f ↦
          let ((q, w), j, k) = >>=-eq-ok (archive_or_suffix p u) _ (rw (e, f) at h) in
          let same = no_checksum-ok q w k in
          let kept = archive_or_suffix-ok u j in (rw (← same) kept, text_eq→eq u.scheme https f)
    ]
  ]

  prepare_url-ok :
      (source_type : Text) (u : Url) {v : Url}
      → prepare_url p source_type u ≡ ok v
      → Keeps u v × IsEncrypted source_type u.scheme
  unfolding prepare_url
  prepare_url-ok source_type u h = elim (Bool-cases (text_eq source_type git)) [
    | inl e ↦
        let (kept, transport) = prepare_git-ok u (rw e at h) in
        (kept, elim transport [ inl s ↦ inl s | inr s ↦ inr (text_eq→eq source_type git e, s) ])
    | inr e ↦ elim (Bool-cases (text_eq source_type http || text_eq source_type https)) [
      | inl f ↦ let (kept, s) = prepare_http-ok u (rw (e, f) at h) in (kept, inl s)
      | inr f ↦ elim (Bool-cases (text_eq source_type u.scheme)) [
        | inl g ↦ cc (rw (e, f, g) at h)
        | inr g ↦ cc (rw (e, f, g) at h)
      ]
    ]
  ]

  make_remote_source-ok :
      (source_type : Text) (u : Url) (sub_path : Text) {s : RemoteSource}
      → make_remote_source p source_type u sub_path ≡ ok s
      → u.user ≡ none
      → valid_sub_path sub_path ≡ true
      → IsSecure s
  unfolding make_remote_source
  make_remote_source-ok source_type u sub_path {s} h anonymous valid =
      let (v, j, k) = >>=-eq-ok (prepare_url p source_type u) _ h in
      let (kept, safe) = prepare_url-ok source_type u j in
      let same : record { pkg = record { source_type = source_type; url = v }; sub_path = sub_path }
          ≡ s =
        cc k in
      rw (← same) (record {
        encrypted = subst (IsEncrypted source_type) (sym kept.0) safe;
        anonymous = kept.1 ∙ anonymous;
        valid = valid;
      })

  checked_url-ok :
      (source_type pkg_raw sub_path : Text) {s : RemoteSource}
      → checked_url p source_type pkg_raw sub_path ≡ ok s
      → valid_sub_path sub_path ≡ true
      → IsSecure s
  unfolding checked_url
  checked_url-ok source_type pkg_raw sub_path h valid =
      let (u, _, h₁) = >>=-eq-ok (or_error (p.parse_url pkg_raw) invalid_url_syntax) _ h in
      let (_, _, h₂) = >>=-eq-ok (guard (not (is_empty u.scheme)) no_scheme) _ h₁ in
      let (_, user, h₃) = >>=-eq-ok (guard (is_none u.user) has_user) _ h₂ in
      let (kind, _, h₄) =
        >>=-eq-ok (effective_type (p.to_lower source_type) (p.to_lower u.scheme)) _ h₃ in
      let (_, _, h₅) = >>=-eq-ok (or_error (p.parse_query u.raw_query) invalid_query) _ h₄ in
      make_remote_source-ok kind (record u { scheme = p.to_lower u.scheme }) sub_path h₅
        (is_none-eq u.user (guard-ok _ _ user)) valid

  -- What ParseRemoteSource returns is fetched over https, or over ssh where the source type is git; its
  -- URL names no user, and its sub-path is valid. Nothing is assumed of the URL parser.
  pub parse_remote_source-IsSecure :
      (given : Text) {s : RemoteSource} → parse_remote_source p given ≡ ok s → IsSecure s
  unfolding parse_remote_source
  parse_remote_source-IsSecure given h =
      let (expanded, _, h₁) = >>=-eq-ok (expand given) _ h in
      let parts = split_sub_path expanded in
      let (sub_path, n, h₂) = >>=-eq-ok (lift_sub_path (normalize_sub_path parts.1)) _ h₁ in
      let (same, valid) = normalize_sub_path-ok parts.1 (lift_sub_path-ok _ n) in
      checked_url-ok _ _ sub_path h₂ (ap valid_sub_path same ∙ valid)
