-- ===== src/Addrs/Tidy.antt =====
-- path.Clean of relative paths: cleaning again changes nothing, also behind "./".
use go_slug.Prelude.{
  ◌≡◌, refl, sym, ap, ◌∙◌, inl, inr, false, List, [], ◌∷◌, ◌++◌, Text, codes, All, subst,
  Bool-cases, onto, ◌==◌,
}
use go_slug.Go.Strings.{split}
use go_slug.Go.Path.{
  slash, dot, segments, is_skipped, go_up, put_segment, resolve, join_segments, relative_path,
  is_abs, clean,
}
use go_slug.Go.Segments.{Lacks, split-append, split-Lacks}
use go_slug.Go.Walk.{is_up, segments-join_segments}
use go_slug.Go.Rooted.{onto-All}
use go_slug.Addrs.SubPath.Join.{clean_relative}

-- An element that is neither empty nor a dot, without a slash.
abbrev IsElement : Text → Type 0
IsElement t = Lacks slash t × (is_skipped t ≡ false)

-- Each element stays where it is put behind those before it.
abbrev pub IsTidy : List Text → Type 0
IsTidy [] = Unit {0}
IsTidy (t ∷ out) = (IsElement t × (put_segment false t out ≡ t ∷ out)) × IsTidy out

up-IsTidy : (out : List Text) → IsTidy out → IsTidy (go_up false out)
unfolding go_up put_segment
up-IsTidy [] h = ((((refl, (refl, tt)), refl), refl), tt)
up-IsTidy (t ∷ out) h = elim (Bool-cases (is_up t)) [
  | inl e ↦ rw (e, go_up) ((((refl, (refl, tt)), refl), rw (e, go_up) refl), h)
  | inr e ↦ rw (e, go_up) h.1
]

put_segment-IsTidy :
    (s : Text) (out : List Text) → Lacks slash s → IsTidy out → IsTidy (put_segment false s out)
unfolding put_segment
put_segment-IsTidy s out l h = elim (Bool-cases (is_skipped s)) [
  | inl k ↦ rw k h
  | inr k ↦ elim (Bool-cases (is_up s)) [
    | inl u ↦ rw (k, u) (up-IsTidy out h)
    | inr u ↦ rw (k, u) (((l, k), rw (k, u) refl), h)
  ]
]

resolve-IsTidy :
    (ss out : List Text) → All (Lacks slash) ss → IsTidy out → IsTidy (resolve false ss out)
unfolding resolve
resolve-IsTidy [] out l h = h
resolve-IsTidy (s ∷ ss) out l h =
    resolve-IsTidy ss (put_segment false s out) l.1 (put_segment-IsTidy s out l.0 h)

resolve-onto :
    (out ts : List Text) → IsTidy out → resolve false (onto out ts) [] ≡ resolve false ts out
resolve-onto [] ts h = refl
resolve-onto (t ∷ out) ts h =
    resolve-onto out (t ∷ ts) h.1 ∙ unfold resolve in ap (resolve false ts) h.0.1

elements_of : (out : List Text) → IsTidy out → All IsElement out
elements_of [] h = tt
elements_of (t ∷ out) h = (h.0.0, elements_of out h.1)

without_slash : (out : List Text) → All IsElement out → All (Lacks slash) out
without_slash [] h = tt
without_slash (t ∷ out) h = (h.0.0, without_slash out h.1)

not_abs : (s : Text) → All IsElement (segments s) → is_abs s ≡ false
unfolding is_abs split
not_abs [] h = refl
not_abs (c ∷ s) h = elim (Bool-cases (c == slash)) [
  | inl e ↦ cc ((rw (e, split) at h).0.1)
  | inr e ↦ e
]

resolve_nothing : (out : List Text) → resolve false [] out ≡ out
unfolding resolve
resolve_nothing out = refl

resolve-dot : (ss : List Text) → resolve false (dot ∷ ss) [] ≡ resolve false ss []
unfolding resolve put_segment
resolve-dot ss = refl

segments-dot : segments dot ≡ dot ∷ []
unfolding split
segments-dot = refl

relative_path-clean :
    (out : List Text)
    → IsTidy out
    → (is_abs (relative_path out) ≡ false) × (clean (relative_path out) ≡ relative_path out)
unfolding relative_path
relative_path-clean [] h = (unfold is_abs in refl, unfold clean in refl)
relative_path-clean (t ∷ out) h =
    let s : Text = join_segments (t ∷ out) in
    let elements = elements_of (t ∷ out) h in
    let parts = segments-join_segments t out (without_slash (t ∷ out) elements) in
    let a : is_abs s ≡ false =
      not_abs s (subst (All IsElement) (sym parts) (onto-All IsElement (t ∷ out) [] elements tt)) in
    (
      a,
      clean_relative s a
          ∙ ap (λ l. relative_path (resolve false l [])) parts
          ∙ ap relative_path (resolve-onto (t ∷ out) [] h ∙ resolve_nothing (t ∷ out)),
    )

-- What path.Clean makes of a relative path is relative, and clean.
pub clean-clean :
    (s : Text) → is_abs s ≡ false → (is_abs (clean s) ≡ false) × (clean (clean s) ≡ clean s)
clean-clean s a =
    let e = clean_relative s a in
    let tidy = resolve-IsTidy (segments s) [] (split-Lacks slash s) tt in
    let (x, y) = relative_path-clean (resolve false (segments s) []) tidy in
    (ap is_abs e ∙ x, ap clean e ∙ y ∙ sym e)

-- "./" in front of a relative path makes no difference to path.Clean.
pub clean-dot_slash : (s : Text) → is_abs s ≡ false → clean (codes "./" ++ s) ≡ clean s
clean-dot_slash s a =
    clean_relative (codes "./" ++ s) (unfold is_abs in refl)
    ∙ ap (λ l. relative_path (resolve false l []))
        (split-append slash dot s ∙ ap (λ l. l ++ segments s) segments-dot)
    ∙ ap relative_path (resolve-dot (segments s))
    ∙ sym (clean_relative s a)
