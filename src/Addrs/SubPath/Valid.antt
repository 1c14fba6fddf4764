-- ===== src/Addrs/SubPath/Valid.antt =====
-- Valid sub-paths: normalizeSubpath returns them as they are, and joining keeps them valid.
use go_slug.Prelude.{
  ◌≡◌, refl, sym, ap, ◌∙◌, inl, inr, true, false, Option, none, some, List, [], ◌∷◌, ◌++◌, arith,
  Text, text_eq, all, All, onto, onto-onto, append-nil, Bool-cases, ok, ℕ, ◌≢◌,
}
use go_slug.Go.Strings.{join}
use go_slug.Go.Path.{
  slash, dot, segments, valid_segment, valid_path, join_segments, relative_path, is_abs, clean,
  join_path,
}
use go_slug.Go.Segments.{split-append, split-Lacks, join-split, split-ne-nil}
use go_slug.Go.Walk.{not_dot, IsName, walk, resolve-names, resolve-walk, valid_path-join_segments}
use go_slug.Addrs.Local.{looks_like_local_source}
use go_slug.Addrs.SubPath.{is_ok, normalize_sub_path, valid_sub_path, join_sub_path}
use go_slug.Addrs.SubPath.Join.{
  directories, outcome, valid_sub_path-segments, names-not_abs, clean_relative, names,
  join_sub_path-walk,
}

relative_path-join : (out : List Text) → out ≢ [] → relative_path out ≡ join_segments out
unfolding relative_path
relative_path-join [] h = absurd (h refl)
relative_path-join (t ∷ out) h = refl

onto-ne-nil {ℓ} : {A : Type ℓ} (xs ys : List A) → ys ≢ [] → onto xs ys ≢ []
onto-ne-nil [] ys h = h
onto-ne-nil (x ∷ xs) ys h = onto-ne-nil xs (x ∷ ys) (λ e. cc e)

reversed-ne-nil {ℓ} : {A : Type ℓ} (xs : List A) → xs ≢ [] → onto xs [] ≢ []
reversed-ne-nil [] h = h
reversed-ne-nil (x ∷ xs) h = onto-ne-nil xs (x ∷ []) (λ e. cc e)

-- path.Clean of the names of directories is the path that they spell.
pub clean-names :
    (s : Text)
    → is_abs s ≡ false
    → all valid_segment (segments s) ≡ true
    → clean s ≡ join slash (segments s)
clean-names s a v =
    clean_relative s a
    ∙ ap relative_path (resolve-names (segments s) [] v)
    ∙ relative_path-join (onto (segments s) [])
        (reversed-ne-nil (segments s) (split-ne-nil slash s))
    ∙ unfold join_segments in
      ap (join slash) (onto-onto (segments s) [] [] ∙ append-nil (segments s))

-- path.Clean leaves a valid sub-path as it is.
pub clean-valid :
    (c : ℕ) (s : Text) → all valid_segment (segments (c ∷ s)) ≡ true → clean (c ∷ s) ≡ c ∷ s
clean-valid c s v =
    clean-names (c ∷ s) (unfold is_abs in names-not_abs c s v) v ∙ join-split slash (c ∷ s)

pub valid_of_names :
    (s : Text) → (valid_path s ≡ true) × (text_eq s dot ≡ false) → valid_sub_path s ≡ true
valid_of_names [] h = unfold valid_sub_path in refl
valid_of_names (c ∷ s) h =
    let v : all valid_segment (segments (c ∷ s)) ≡ true =
      let e = h.1 in let k = h.0 in unfold valid_path in rw e at k in
    let same = clean-valid c s v in unfold valid_sub_path in rw (h.0, same, h.1) refl

start_names :
    (sub_path : Text) → valid_sub_path sub_path ≡ true → All IsName (onto (directories sub_path) [])
start_names [] v = tt
start_names (c ∷ s) v =
    (names (segments (c ∷ s)) [] (valid_sub_path-segments c s v) (split-Lacks slash (c ∷ s))
      (tt, tt)).0

-- What joinSubPath returns is a valid sub-path, if it was given one.
pub join_sub_path-valid :
    (sub_path rel : Text) {s : Text}
    → valid_sub_path sub_path ≡ true
    → looks_like_local_source rel ≡ true
    → join_sub_path sub_path rel ≡ ok s
    → valid_sub_path s ≡ true
unfolding valid_sub_path
join_sub_path-valid sub_path rel {s} v h e = go (walk (segments rel) start) refl
  where
    start : List Text
    start = onto (directories sub_path) []

    named : All IsName start
    named = start_names sub_path v

    ended : (out : List Text) → All IsName out → join_segments out ≡ s → valid_sub_path s ≡ true
    ended [] k same = unfold join_segments join in ap valid_sub_path (sym same)
    ended (t ∷ out) k same =
        ap valid_sub_path (sym same)
        ∙ valid_of_names (join_segments (t ∷ out)) (valid_path-join_segments t out k)

    go : (o : Option (List Text)) → walk (segments rel) start ≡ o → valid_sub_path s ≡ true
    go none k = cc (sym e ∙ join_sub_path-walk sub_path rel v h ∙ ap outcome k)
    go (some out) k =
        ended out (resolve-walk (segments rel) start out (split-Lacks slash rel) named k).1
          (cc (sym e ∙ join_sub_path-walk sub_path rel v h ∙ ap outcome k))

accepted : (given : Text) {s : Text} → normalize_sub_path given ≡ ok s → valid_sub_path given ≡ true
unfolding valid_sub_path
accepted given h = ap is_ok h

normalized :
    (c : ℕ) (given : Text) {s : Text}
    → clean (c ∷ given) ≡ c ∷ given
    → normalize_sub_path (c ∷ given) ≡ ok s
    → s ≡ c ∷ given
unfolding normalize_sub_path
normalized c given same h = elim (Bool-cases (valid_path (c ∷ given))) [
  | inr v ↦ cc (rw v at h)
  | inl v ↦ elim (Bool-cases (text_eq (clean (c ∷ given)) dot)) [
    | inl e ↦ cc (rw (v, e) at h)
    | inr e ↦ cc (rw (v, e) at h, same)
  ]
]

-- normalizeSubpath changes nothing: what it accepts is a valid sub-path, and comes back as it was.
pub normalize_sub_path-ok :
    (given : Text) {s : Text}
    → normalize_sub_path given ≡ ok s
    → (s ≡ given) × (valid_sub_path given ≡ true)
normalize_sub_path-ok [] h = (unfold normalize_sub_path in let e = h in cc e, accepted [] h)
normalize_sub_path-ok (c ∷ given) h =
    let v = accepted (c ∷ given) h in
    (normalized c given (clean-valid c given (valid_sub_path-segments c given v)) h, v)

all_valid-append :
    (ss ts : List Text)
    → all valid_segment ss ≡ true
    → all valid_segment ts ≡ true
    → all valid_segment (ss ++ ts) ≡ true
all_valid-append [] ts h k = k
all_valid-append (s ∷ ss) ts h k = ground (arith, all_valid-append ss ts)

valid_of_segments : (s : Text) → all valid_segment (segments s) ≡ true → valid_sub_path s ≡ true
valid_of_segments s h = valid_of_names s (unfold valid_path in ground arith, not_dot s (inl h))

-- path.Join of two valid sub-paths: nothing is cleaned away.
pub join_path-valid :
    (r s : Text) (c d : ℕ)
    → valid_sub_path (c ∷ r) ≡ true
    → valid_sub_path (d ∷ s) ≡ true
    → (valid_sub_path (join_path (c ∷ r) (d ∷ s)) ≡ true)
      × (directories (join_path (c ∷ r) (d ∷ s)) ≡ segments (c ∷ r) ++ segments (d ∷ s))
unfolding join_path
join_path-valid r s c d v w =
    let parts : segments (c ∷ r ++ (slash ∷ d ∷ s)) ≡ segments (c ∷ r) ++ segments (d ∷ s) =
      split-append slash (c ∷ r) (d ∷ s) in
    let valid : all valid_segment (segments (c ∷ r ++ (slash ∷ d ∷ s))) ≡ true =
      ap (all valid_segment) parts
      ∙ all_valid-append (segments (c ∷ r)) (segments (d ∷ s)) (valid_sub_path-segments c r v)
          (valid_sub_path-segments d s w) in
    let same = clean-valid c (r ++ (slash ∷ d ∷ s)) valid in
    (
      ap valid_sub_path same ∙ valid_of_segments (c ∷ r ++ (slash ∷ d ∷ s)) valid,
      ap directories same ∙ parts,
    )
