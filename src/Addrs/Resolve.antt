-- ===== src/Addrs/Resolve.antt =====
-- Resolving relative addresses: what comes out is well formed and stays in its package.
use go_slug.Prelude.{
  ◌≡◌, ◌⊎◌, refl, sym, ap, ◌∙◌, inl, inr, true, false, not, ◌&&◌, [], ◌∷◌, ◌++◌, append-nil, arith,
  Text, codes, text_eq, text_eq→eq, Bool-cases, Result, ok, err, >>=-eq-ok,
}
use go_slug.Go.Strings.{contains_any}
use go_slug.Go.Path.{slash, dot, dot_dot, is_abs, join_path, clean}
use go_slug.Addrs.Local.{
  LocalSource, not_canonical, looks_like_local_source, with_prefix, with_slash, is_dots, canonical,
  parse_local_source,
}
use go_slug.Addrs.SubPath.{SubPathError, valid_sub_path, join_sub_path}
use go_slug.Addrs.SubPath.Join.{directories, local_head}
use go_slug.Addrs.Tidy.{clean-clean, clean-dot_slash}
use go_slug.Addrs.SubPath.Valid.{join_sub_path-valid, join_path-valid}
use go_slug.Addrs.Types.{RemoteSource, RegistrySource, Source}
use go_slug.Addrs.Remote.{lift_sub_path}
use go_slug.Addrs.Registry.{final_source_addr}
use go_slug.Addrs.Source.{join_local, resolve_local, resolve_relative_source}

with_prefix-local : (s : Text) → looks_like_local_source (with_prefix s) ≡ true
unfolding with_prefix
with_prefix-local s = elim (Bool-cases (looks_like_local_source s)) [
  | inl h ↦ rw h h
  | inr h ↦ rw h (unfold looks_like_local_source in refl)
]

join_sub_path-lifted :
    (sub_path rel : Text) {s : Text}
    → valid_sub_path sub_path ≡ true
    → looks_like_local_source rel ≡ true
    → lift_sub_path (join_sub_path sub_path rel) ≡ ok s
    → valid_sub_path s ≡ true
join_sub_path-lifted sub_path rel {s} v h e = go (join_sub_path sub_path rel) refl e
  where
    go :
        (r : Result SubPathError Text)
        → join_sub_path sub_path rel ≡ r
        → lift_sub_path r ≡ ok s
        → valid_sub_path s ≡ true
    go (ok t) k l =
        join_sub_path-valid sub_path rel v h (k ∙ (let same : t ≡ s = cc l in ap ok same))
    go (err f) k l = cc l

joined-relative :
    (a b : Text)
    → looks_like_local_source a ≡ true
    → looks_like_local_source b ≡ true
    → (t : Text) × (is_abs t ≡ false) × (join_path a b ≡ clean t)
joined-relative a b h k =
    let (s, e) = local_head a h in
    let (t, f) = local_head b k in
    (
      (b'.' ∷ s) ++ (slash ∷ b'.' ∷ t),
      unfold is_abs in refl,
      ap (λ x. join_path x b) e ∙ ap (join_path (b'.' ∷ s)) f ∙ unfold join_path in refl,
    )

-- A path that is clean, and not of dots, is canonical behind its prefix.
canonical-with_prefix :
    (s : Text)
    → is_abs s ≡ false
    → clean s ≡ s
    → is_dots s ≡ false
    → canonical (with_prefix s) ≡ with_prefix s
canonical-with_prefix s a e d =
    let cleaned : clean (with_prefix s) ≡ s = elim (Bool-cases (looks_like_local_source s)) [
      | inl h ↦ unfold with_prefix in rw h e
      | inr h ↦ unfold with_prefix in rw h (clean-dot_slash s a ∙ e)
    ] in
    let same : with_slash s ≡ s = unfold with_slash in ground arith in
    ap (λ t. with_prefix (with_slash t)) cleaned ∙ ap with_prefix same

-- Resolving a local address against another one.
join_local-canonical :
    (a b : LocalSource)
    → looks_like_local_source a.rel_path ≡ true
    → looks_like_local_source b.rel_path ≡ true
    → is_dots (join_path a.rel_path b.rel_path) ≡ false
    → canonical (join_local a b).rel_path ≡ (join_local a b).rel_path
unfolding join_local
join_local-canonical a b h k d =
    let (t, r, e) = joined-relative a.rel_path b.rel_path h k in
    let (x, y) = clean-clean t r in
    canonical-with_prefix (join_path a.rel_path b.rel_path) (ap is_abs e ∙ x)
      (ap clean e ∙ y ∙ sym e) d

canonical-local : (s : Text) → canonical s ≡ s → looks_like_local_source s ≡ true
canonical-local s e = ap looks_like_local_source (sym e) ∙ with_prefix-local (with_slash (clean s))

module _ {M : Type 0} where
  -- The path of a local address is the canonical form that ParseLocalSource computes of it, and the
  -- sub-path of any other is valid.
  abbrev pub IsWellFormed : Source M → Type 0
  IsWellFormed (Source.local_source s) = canonical s.rel_path ≡ s.rel_path
  IsWellFormed (Source.registry_source s) = valid_sub_path s.sub_path ≡ true
  IsWellFormed (Source.remote_source s) = valid_sub_path s.sub_path ≡ true

  -- The second address is of the kind and in the package of the first.
  abbrev pub InPackageOf : Source M → Source M → Type 0
  InPackageOf (Source.local_source a) (Source.local_source c) = Unit {0}
  InPackageOf (Source.registry_source a) (Source.registry_source c) = c.pkg ≡ a.pkg
  InPackageOf (Source.remote_source a) (Source.remote_source c) = c.pkg ≡ a.pkg
  InPackageOf _ _ = ⊥

  abbrev pub ResolvesTo : Source M → Source M → Source M → Type 0
  ResolvesTo a (Source.local_source b) c = InPackageOf a c
  ResolvesTo a (Source.registry_source b) c = c ≡ Source.registry_source b
  ResolvesTo a (Source.remote_source b) c = c ≡ Source.remote_source b

  -- If both addresses are local, path.Join of them is neither "." nor "..".
  abbrev pub JoinsToName : Source M → Source M → Type 0
  JoinsToName (Source.local_source a) (Source.local_source b) =
      is_dots (join_path a.rel_path b.rel_path) ≡ false
  JoinsToName _ _ = Unit {0}

  resolve_local-IsWellFormed :
      (a : Source M) (b : LocalSource) {c : Source M}
      → IsWellFormed a
      → looks_like_local_source b.rel_path ≡ true
      → JoinsToName a (Source.local_source b)
      → resolve_local a b ≡ ok c
      → IsWellFormed c × InPackageOf a c
  unfolding resolve_local
  resolve_local-IsWellFormed (Source.local_source a) b {c} v h d e =
      let same : Source.local_source (join_local a b) ≡ c = cc e in
      rw (← same) (join_local-canonical a b (canonical-local a.rel_path v) h d, tt)
  resolve_local-IsWellFormed (Source.registry_source a) b {c} v h d e =
      let (s, j, k) = >>=-eq-ok (lift_sub_path (join_sub_path a.sub_path b.rel_path)) _ e in
      let same : Source.registry_source (record { pkg = a.pkg; sub_path = s }) ≡ c = cc k in
      rw (← same) (join_sub_path-lifted a.sub_path b.rel_path v h j, refl)
  resolve_local-IsWellFormed (Source.remote_source a) b {c} v h d e =
      let (s, j, k) = >>=-eq-ok (lift_sub_path (join_sub_path a.sub_path b.rel_path)) _ e in
      let same : Source.remote_source (record { pkg = a.pkg; sub_path = s }) ≡ c = cc k in
      rw (← same) (join_sub_path-lifted a.sub_path b.rel_path v h j, refl)

  -- Where ResolveRelativeSource of two well-formed addresses returns, the result is well formed:
  -- the sub-path is valid, and a local path is the canonical form that ParseLocalSource computes
  -- of it, which is that of path.Clean aside from the "./" or "../" prefix. For two local
  -- addresses this is on the condition that path.Join of them is neither "." nor "..". If the
  -- second address is local, the result is of the kind and in the package of the first; otherwise
  -- it is the second address.
  pub resolve_relative_source-IsWellFormed :
      (a b : Source M) {c : Source M}
      → IsWellFormed a
      → IsWellFormed b
      → JoinsToName a b
      → resolve_relative_source a b ≡ ok c
      → IsWellFormed c × ResolvesTo a b c
  unfolding resolve_relative_source
  resolve_relative_source-IsWellFormed a (Source.local_source b) va vb d e =
      resolve_local-IsWellFormed a b va (canonical-local b.rel_path vb) d e
  resolve_relative_source-IsWellFormed a (Source.registry_source b) {c} va vb d e =
      let same : Source.registry_source b ≡ c = cc e in rw (← same) (vb, refl)
  resolve_relative_source-IsWellFormed a (Source.remote_source b) {c} va vb d e =
      let same : Source.remote_source b ≡ c = cc e in rw (← same) (vb, refl)

-- path.Join makes the text `joined` of two local addresses, which resolve to `result`; but that should
-- be `wanted`.
abbrev pub Unclean : LocalSource → LocalSource → Text → Text → Text → Type 0
Unclean a b joined result wanted =
    (join_path a.rel_path b.rel_path ≡ joined)
    × ((join_local a b).rel_path ≡ result)
    × (parse_local_source (join_local a b).rel_path ≡ err (not_canonical wanted))

-- Two local addresses of which path.Join makes "." or ".." resolve, if it is ".", to "./.", of which
-- ParseLocalSource reports that the canonical form is "./"; and if it is "..", to "./..", of which it
-- reports that the canonical form is "../".
pub join_local-not_canonical :
    (a b : LocalSource)
    → is_dots (join_path a.rel_path b.rel_path) ≡ true
    → Unclean a b dot (codes "./.") (codes "./") ⊎ Unclean a b dot_dot (codes "./..") (codes "../")
unfolding join_local
join_local-not_canonical a b h =
    let s : Text = join_path a.rel_path b.rel_path in
    elim (Bool-cases (text_eq s dot)) [
      | inl e ↦
          inl (refused s dot _ _ (text_eq→eq s dot e) refl (unfold parse_local_source in refl))
      | inr e ↦ inr (
          refused s dot_dot _ _ (text_eq→eq s dot_dot (ground arith)) refl
            (unfold parse_local_source in refl))
    ]
  where
    refused :
        (s t r w : Text)
        → s ≡ t
        → with_prefix t ≡ r
        → parse_local_source r ≡ err (not_canonical w)
        → (s ≡ t)
          × (with_prefix s ≡ r)
          × (parse_local_source (with_prefix s) ≡ err (not_canonical w))
    refused s t r w e k l =
        (e, ap with_prefix e ∙ k, ap parse_local_source (ap with_prefix e ∙ k) ∙ l)

-- ParseLocalSource changes nothing: what it accepts is stored as it was given, behind a prefix that
-- marks it as local.
pub parse_local_source-ok :
    (given : Text) {s : LocalSource}
    → parse_local_source given ≡ ok s
    → (s.rel_path ≡ given) × (looks_like_local_source s.rel_path ≡ true)
unfolding parse_local_source
parse_local_source-ok given {s} h = elim (Bool-cases (contains_any given (codes ":\\"))) [
  | inl e ↦ cc (rw e at h)
  | inr e ↦ elim (Bool-cases (not (looks_like_local_source given) && not (is_dots given))) [
    | inl f ↦ cc (rw (e, f) at h)
    | inr f ↦ elim (Bool-cases (text_eq (canonical given) given)) [
      | inr g ↦ cc (rw (e, f, g) at h)
      | inl g ↦
          let same : canonical given ≡ s.rel_path = cc (rw (e, f, g) at h) in
          (
            sym same ∙ text_eq→eq (canonical given) given g,
            ap looks_like_local_source (sym same) ∙ with_prefix-local (with_slash (clean given)),
          )
    ]
  ]
]

-- A registry source's sub-path is taken below that of the real source: the result is in the real
-- source's package, its sub-path is valid where both are, and its directories are those of the real
-- source followed by those of the registry source.
pub final_source_addr-directories :
    {M : Type 0} (s : RegistrySource M) (real : RemoteSource)
    → valid_sub_path s.sub_path ≡ true
    → valid_sub_path real.sub_path ≡ true
    → ((final_source_addr s real).pkg ≡ real.pkg)
      × (valid_sub_path (final_source_addr s real).sub_path ≡ true)
      × (directories (final_source_addr s real).sub_path
          ≡ directories real.sub_path ++ directories s.sub_path)
unfolding final_source_addr
final_source_addr-directories s real v w = go s.sub_path real.sub_path v w
  where
    go :
        (t r : Text)
        → valid_sub_path t ≡ true
        → valid_sub_path r ≡ true
        → let q = final_source_addr (record s { sub_path = t }) (record real { sub_path = r }) in
          (q.pkg ≡ real.pkg)
          × (valid_sub_path q.sub_path ≡ true)
          × (directories q.sub_path ≡ directories r ++ directories t)
    go [] r v w = (refl, w, sym (append-nil (directories r)))
    go (d ∷ t) [] v w = (refl, v, refl)
    go (d ∷ t) (c ∷ r) v w = let (x, y) = join_path-valid r t c d w v in (refl, x, y)
