-- ===== src/Bundle/Paths.antt =====
-- Paths in the directory of a bundle: its absolute form, and the directories of packages in it.
use mathlib.Core.Option
use go_slug.Prelude.{
  ◌≡◌, refl, sym, ap, ◌∙◌, inl, inr, true, false, ◌&&◌, Option, none, some, List, [], ◌∷◌, ◌++◌,
  arith, Text, all, any, All, onto, Bool-cases, subst, ◌==◌,
}
use go_slug.Go.Strings.{join, split}
use go_slug.Go.Path.{
  slash, segments, valid_segment, valid_path, is_abs, clean, abs, join_path, join_paths, resolve,
  put_segment,
}
use go_slug.Go.Segments.{Lacks, split-append, split_single}
use go_slug.Go.Walk.{IsName}
use go_slug.Go.Rooted.{rooted, clean-rooted_of_abs, clean-below, put_segment-rooted, resolve-rooted}
use go_slug.Addrs.SubPath.{valid_sub_path}
use go_slug.Addrs.SubPath.Join.{directories, valid_sub_path-segments}
use go_slug.Bundle.Open.{valid_local_dir}

-- An absolute path, cleaned.
abbrev pub IsRooted : Text → Type 0
IsRooted s = (names : List Text) × (s ≡ rooted names) × All IsName names

abbrev pub IsAbsolute : Option Text → Type 0
IsAbsolute none = Unit
IsAbsolute (some wd) = is_abs wd ≡ true

is_abs-more : (s t : Text) → is_abs s ≡ true → is_abs (s ++ t) ≡ true
unfolding is_abs
is_abs-more [] t h = cc h
is_abs-more (c ∷ s) t h = h

join_path-IsRooted : (wd s : Text) → is_abs wd ≡ true → IsRooted (join_path wd s)
unfolding join_path is_abs
join_path-IsRooted [] s h = cc h
join_path-IsRooted (c ∷ wd) [] h = clean-rooted_of_abs (c ∷ wd) h
join_path-IsRooted (c ∷ wd) (d ∷ s) h =
    clean-rooted_of_abs ((c ∷ wd) ++ (slash ∷ d ∷ s)) (is_abs-more (c ∷ wd) (slash ∷ d ∷ s) h)

-- filepath.Abs gives such a path, where the working directory is absolute.
pub abs-IsRooted :
    (working_dir : Option Text) (s : Text) {r : Text}
    → IsAbsolute working_dir
    → abs working_dir s ≡ some r
    → IsRooted r
unfolding abs
abs-IsRooted working_dir s {r} h e = elim (Bool-cases (is_abs s)) [
  | inl a ↦ let same : clean s ≡ r = cc (rw a at e) in subst IsRooted same (clean-rooted_of_abs s a)
  | inr a ↦ go working_dir h (rw a at e)
]
  where
    go :
        (o : Option Text) → IsAbsolute o → Option.map (λ wd. join_path wd s) o ≡ some r → IsRooted r
    go none h k = cc k
    go (some wd) h k =
        let same : join_path wd s ≡ r = cc k in subst IsRooted same (join_path-IsRooted wd s h)

any-Lacks : (s : Text) → any (λ c. c == slash) s ≡ false → Lacks slash s
any-Lacks [] h = tt
any-Lacks (c ∷ s) h = (ground arith, any-Lacks s (ground arith))

-- The name of a local directory is one name.
pub valid_local_dir-IsName :
    (dir : Text) → valid_local_dir dir ≡ true → IsName dir × (segments dir ≡ dir ∷ [])
unfolding valid_local_dir valid_path
valid_local_dir-IsName dir h =
    let lacks : Lacks slash dir = any-Lacks dir (ground arith) in
    let one = split_single slash dir lacks in
    let valid : all valid_segment (segments dir) ≡ true = ground arith in
    let here : (valid_segment dir && true) ≡ true = sym (ap (all valid_segment) one) ∙ valid in
    ((ground (arith, here), lacks), one)

resolve_package :
    (dir sub_path : Text) (out : List Text)
    → IsName dir
    → segments dir ≡ dir ∷ []
    → valid_sub_path sub_path ≡ true
    → resolve true (segments (dir ++ (slash ∷ sub_path))) out
      ≡ onto (dir ∷ directories sub_path) out
resolve_package dir sub_path out name one v =
    ap (λ l. resolve true l out)
      (split-append slash dir sub_path ∙ ap (λ l. l ++ segments sub_path) one)
    ∙ go sub_path v
  where
    go :
        (s : Text)
        → valid_sub_path s ≡ true
        → resolve true (dir ∷ segments s) out ≡ onto (dir ∷ directories s) out
    go [] v =
        unfold resolve split in
        ap (λ l. put_segment true [] l) (put_segment-rooted dir out name.0)
        ∙ unfold put_segment in refl
    go (c ∷ s) v =
        resolve-rooted (dir ∷ segments (c ∷ s)) out
          (ground (arith, name.0, valid_sub_path-segments c s v))

-- The path of a package's sub-path in the bundle's directory.
pub join_paths-rooted :
    (names : List Text) (dir sub_path : Text)
    → All IsName names
    → valid_local_dir dir ≡ true
    → valid_sub_path sub_path ≡ true
    → join_paths (rooted names ∷ dir ∷ sub_path ∷ [])
      ≡ rooted (names ++ (dir ∷ directories sub_path))
unfolding join_paths join
join_paths-rooted names dir sub_path h d v =
    let (name, one) = valid_local_dir-IsName dir d in
    clean-below names (dir ++ (slash ∷ sub_path)) (dir ∷ directories sub_path) h
      (λ out. resolve_package dir sub_path out name one v)
