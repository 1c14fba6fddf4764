-- ===== src/Go/Relative.antt =====
-- Go's filepath.Rel, where the separator is a slash.
use go_slug.Prelude.{
  ◌≡◌, refl, ap, ◌∙◌, Bool, true, false, Option, none, some, List, [], ◌∷◌, ◌++◌, if◌then◌else◌,
  Text, text_eq, text_eq→eq, Bool-cases, inl, inr, not,
}
use go_slug.Go.Strings.{join, has_prefix}
use go_slug.Go.Path.{slash, dot, dot_dot, segments, is_abs, clean}

-- The elements of a path that is clean: none for the dot, and an empty one at the front of a rooted path.
unfoldable pub elements : Text → List Text
elements s = if text_eq s dot then [] else if text_eq s (slash ∷ []) then [] ∷ [] else segments s

-- Both lists without the elements at the front that they share.
unfoldable pub without_shared : List Text → List Text → List Text × List Text
without_shared [] ts = ([], ts)
without_shared (b ∷ bs) [] = (b ∷ bs, [])
without_shared (b ∷ bs) (t ∷ ts) =
    let rest = without_shared bs ts in if text_eq b t then rest else (b ∷ bs, t ∷ ts)

abbrev pub ups : List Text → List Text
ups [] = []
ups (b ∷ bs) = dot_dot ∷ ups bs

-- From what is left of the base and of the target.
unfoldable pub rel_left : List Text → List Text → Option Text
unfolding join
rel_left [] ts = some (join slash ts)
rel_left (b ∷ bs) [] = some (join slash (ups (b ∷ bs)))
rel_left (b ∷ bs) (t ∷ ts) =
    if text_eq b dot_dot then none else some (join slash (ups (b ∷ bs) ++ (t ∷ ts)))

abbrev pub differ : Bool → Bool → Bool
differ true b = not b
differ false b = b

-- filepath.Rel; `none` is an error.
unfoldable pub rel : Text → Text → Option Text
unfolding clean elements without_shared rel_left
rel base target =
    if text_eq (clean target) (clean base)
    then some dot
    else if differ (is_abs (clean base)) (is_abs (clean target))
    then none
    else let (bs, ts) = without_shared (elements (clean base)) (elements (clean target)) in
      rel_left bs ts

without_shared-append :
    (bs ts : List Text) → (without_shared bs ts).0 ≡ [] → ts ≡ bs ++ (without_shared bs ts).1
unfolding without_shared
without_shared-append [] ts h = refl
without_shared-append (b ∷ bs) [] h = cc h
without_shared-append (b ∷ bs) (t ∷ ts) h = elim (Bool-cases (text_eq b t)) [
  | inr e ↦ cc (rw (e, without_shared) at h)
  | inl e ↦
      let rest = without_shared-append bs ts (rw (e, without_shared) at h) in
      let same : b ≡ t = text_eq→eq b t e in rw (e, without_shared) (cc (rest, same))
]

join-dot_dot : (xs : List Text) → has_prefix (join slash (dot_dot ∷ xs)) dot_dot ≡ true
unfolding has_prefix join
join-dot_dot [] = refl
join-dot_dot (x ∷ xs) = refl

-- The target is below the base, by elements of which the first does not begin with two dots.
abbrev pub IsBelow : Text → Text → Type 0
IsBelow base target =
    (rest : List Text) × (elements target ≡ elements base ++ rest)
    × (has_prefix (join slash rest) dot_dot ≡ false)

rel_left-empty :
    (bs ts : List Text) {r : Text}
    → rel_left bs ts ≡ some r
    → has_prefix r dot_dot ≡ false
    → (bs ≡ []) × (has_prefix (join slash ts) dot_dot ≡ false)
unfolding rel_left
rel_left-empty [] ts {r} h k =
    let same : join slash ts ≡ r = cc h in (refl, ap (λ x. has_prefix x dot_dot) same ∙ k)
rel_left-empty (b ∷ bs) [] {r} h k =
    let same : join slash (ups (b ∷ bs)) ≡ r = cc h in cc (join-dot_dot (ups bs), same, k)
rel_left-empty (b ∷ bs) (t ∷ ts) {r} h k = elim (Bool-cases (text_eq b dot_dot)) [
  | inl e ↦ cc (rw (e, rel_left) at h)
  | inr e ↦
      let same : join slash (ups (b ∷ bs) ++ (t ∷ ts)) ≡ r = cc (rw (e, rel_left) at h) in
      cc (join-dot_dot (ups bs ++ (t ∷ ts)), same, k)
]

append_empty : (xs : List Text) → xs ≡ xs ++ []
append_empty [] = refl
append_empty (x ∷ xs) = ap (λ l. x ∷ l) (append_empty xs)

-- An answer of filepath.Rel that does not begin with two dots names a path below the base.
pub rel-IsBelow :
    (base target : Text) {r : Text}
    → rel base target ≡ some r
    → has_prefix r dot_dot ≡ false
    → IsBelow (clean base) (clean target)
unfolding rel has_prefix join
rel-IsBelow base target {r} h k = elim (Bool-cases (text_eq (clean target) (clean base))) [
  | inl e ↦
      let same = text_eq→eq (clean target) (clean base) e in
      ([], ap elements same ∙ append_empty (elements (clean base)), refl)
  | inr e ↦ elim (Bool-cases (differ (is_abs (clean base)) (is_abs (clean target)))) [
    | inl d ↦ cc (rw (e, d, rel) at h)
    | inr d ↦
        let (bs, ts) = without_shared (elements (clean base)) (elements (clean target)) in
        let (none_left, ok) = rel_left-empty bs ts (rw (e, d, rel) at h) k in
        (ts, without_shared-append (elements (clean base)) (elements (clean target)) none_left, ok)
  ]
]
