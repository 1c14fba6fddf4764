-- ===== src/Go/Rooted.antt =====
-- Absolute paths in the form that path.Clean gives them: a slash, and names with slashes between them.
use go_slug.Prelude.{
  if_false, if◌then◌else◌, Option, none, ◌≡◌, refl, sym, ap, ◌∙◌, ◌≢◌, inl, inr, true, false, some,
  List, [], ◌∷◌, ◌++◌, arith, Text, text_eq, text_eq→eq, text_eq_refl, all, All, All-append, onto,
  onto-onto, append-nil, Bool-cases, length, length-append,
}
use go_slug.Go.Strings.{split, join}
use go_slug.Go.Path.{
  slash, dot, segments, is_skipped, go_up, put_segment, resolve, valid_segment, clean, is_abs,
}
use go_slug.Go.Segments.{Lacks, split-append, split-Lacks, split-join}
use go_slug.Go.Walk.{IsName, is_up}
use go_slug.Go.Relative.{elements, without_shared, rel, rel_left, differ}

abbrev pub rooted : List Text → Text
rooted names = slash ∷ join slash names

resolve-append :
    (ss ts out : List Text) → resolve true (ss ++ ts) out ≡ resolve true ts (resolve true ss out)
unfolding resolve
resolve-append [] ts out = refl
resolve-append (s ∷ ss) ts out = resolve-append ss ts (put_segment true s out)

pub put_segment-rooted :
    (s : Text) (out : List Text) → valid_segment s ≡ true → put_segment true s out ≡ s ∷ out
unfolding put_segment valid_segment
put_segment-rooted s out h = ground arith

pub resolve-rooted :
    (ss out : List Text) → all valid_segment ss ≡ true → resolve true ss out ≡ onto ss out
unfolding resolve
resolve-rooted [] out h = refl
resolve-rooted (s ∷ ss) out h =
    ap (resolve true ss) (put_segment-rooted s out (ground arith))
    ∙ resolve-rooted ss (s ∷ out) (ground arith)

put_segment_true-IsName :
    (s : Text) (out : List Text)
    → Lacks slash s
    → All IsName out
    → All IsName (put_segment true s out)
unfolding put_segment go_up valid_segment
put_segment_true-IsName s out l h = elim (Bool-cases (is_skipped s)) [
  | inl k ↦ rw k h
  | inr k ↦ elim (Bool-cases (is_up s)) [
    | inr u ↦ rw (k, u) ((ground arith, l), h)
    | inl u ↦ rw (k, u) (popped out h)
  ]
]
  where
    popped : (out : List Text) → All IsName out → All IsName (go_up true out)
    popped [] h = tt
    popped (t ∷ out) h = let plain : is_up t ≡ false = let v = h.0.0 in ground arith in rw plain h.1

resolve_true-IsName :
    (ss out : List Text) → All (Lacks slash) ss → All IsName out → All IsName (resolve true ss out)
unfolding resolve
resolve_true-IsName [] out l h = h
resolve_true-IsName (s ∷ ss) out l h =
    resolve_true-IsName ss (put_segment true s out) l.1 (put_segment_true-IsName s out l.0 h)

pub onto-All : (P : Text → Type 0) (xs ys : List Text) → All P xs → All P ys → All P (onto xs ys)
onto-All P [] ys h k = k
onto-All P (x ∷ xs) ys h k = onto-All P xs (x ∷ ys) h.1 (h.0, k)

pub clean-slash : (s : Text) → clean (slash ∷ s) ≡ rooted (onto (resolve true (segments s) []) [])
unfolding clean
clean-slash s = refl

-- What path.Clean makes of an absolute path.
pub clean-rooted_of_abs :
    (s : Text) → is_abs s ≡ true → (names : List Text) × (clean s ≡ rooted names) × All IsName names
unfolding is_abs
clean-rooted_of_abs [] h = cc h
clean-rooted_of_abs (c ∷ s) h =
    let e : c ≡ slash = ground (arith, h) in
    let out = resolve true (segments s) [] in
    (
      onto out [],
      rw e (clean-slash s),
      onto-All IsName out [] (resolve_true-IsName (segments s) [] (split-Lacks slash s) tt) tt,
    )

pub All-valid : (names : List Text) → All IsName names → all valid_segment names ≡ true
All-valid [] h = refl
All-valid (n ∷ names) h = ground (arith, h.0.0, All-valid names h.1)

pub All-Lacks : (names : List Text) → All IsName names → All (Lacks slash) names
All-Lacks [] h = tt
All-Lacks (n ∷ names) h = (h.0.1, All-Lacks names h.1)

-- Walking the names of a joined list, from the root.
resolve-join :
    (names : List Text)
    → All IsName names
    → resolve true (segments (join slash names)) [] ≡ onto names []
resolve-join [] h = unfold resolve join split put_segment in refl
resolve-join (n ∷ names) h =
    ap (λ l. resolve true l []) (split-join slash n names (All-Lacks (n ∷ names) h))
    ∙ resolve-rooted (n ∷ names) [] (All-valid (n ∷ names) h)

-- A path in this form is clean.
pub clean-rooted : (names : List Text) → All IsName names → clean (rooted names) ≡ rooted names
clean-rooted names h =
    clean-slash (join slash names)
    ∙ ap (λ l. rooted (onto l [])) (resolve-join names h)
    ∙ ap rooted (onto-onto names [] [] ∙ append-nil names)

-- A path below one in this form, where what is below keeps the names `rest`.
pub clean-below :
    (names : List Text) (s : Text) (rest : List Text)
    → All IsName names
    → ((out : List Text) → resolve true (segments s) out ≡ onto rest out)
    → clean (rooted names ++ (slash ∷ s)) ≡ rooted (names ++ rest)
clean-below names s rest h k =
    clean-slash (join slash names ++ (slash ∷ s))
    ∙ ap (λ l. rooted (onto (resolve true l []) [])) (split-append slash (join slash names) s)
    ∙ ap (λ l. rooted (onto l []))
        (resolve-append (segments (join slash names)) (segments s) []
          ∙ ap (resolve true (segments s)) (resolve-join names h)
          ∙ k (onto names []))
    ∙ ap rooted (
        onto-onto rest (onto names []) []
        ∙ onto-onto names [] (rest ++ [])
        ∙ ap (λ l. names ++ l) (append-nil rest))

not_empty :
    (n : Text) (names : List Text)
    → All IsName (n ∷ names)
    → text_eq (join slash (n ∷ names)) [] ≡ false
unfolding join valid_segment
not_empty [] names h = cc h.0.0
not_empty (c ∷ n) [] h = refl
not_empty (c ∷ n) (m ∷ names) h = refl

-- The elements of such a path are its names, behind the empty one of the root.
pub elements-rooted : (names : List Text) → All IsName names → elements (rooted names) ≡ [] ∷ names
unfolding elements
elements-rooted [] h = unfold join in refl
elements-rooted (n ∷ names) h =
    rw (not_empty n names h)
      (unfold split in ap (λ l. [] ∷ l) (split-join slash n names (All-Lacks (n ∷ names) h)))

without_shared-prefix : (xs ys : List Text) → without_shared xs (xs ++ ys) ≡ ([], ys)
unfolding without_shared
without_shared-prefix [] ys = refl
without_shared-prefix (x ∷ xs) ys = rw (text_eq_refl x) (without_shared-prefix xs ys)

longer-ne : (xs ys : List Text) → ys ≢ [] → xs ++ ys ≢ xs
longer-ne xs [] k e = k refl
longer-ne xs (y ∷ ys) k e = absurd (omega (arith, ap length e, length-append xs (y ∷ ys)))

rooted-ne :
    (names rest : List Text)
    → All IsName names
    → All IsName rest
    → rest ≢ []
    → text_eq (rooted (names ++ rest)) (rooted names) ≡ false
rooted-ne names rest h k ne = elim (Bool-cases (text_eq (rooted (names ++ rest)) (rooted names))) [
  | inr e ↦ e
  | inl e ↦
      let same = text_eq→eq (rooted (names ++ rest)) (rooted names) e in
      absurd (
        longer-ne names rest ne (
          cc (
            sym (elements-rooted (names ++ rest) (All-append IsName names rest h k))
            ∙ ap elements same
            ∙ elements-rooted names h)))
]

-- filepath.Rel, from the clean paths on.
abbrev rel_clean : Text → Text → Option Text
rel_clean b t =
    if text_eq t b
    then some dot
    else if differ (is_abs b) (is_abs t)
    then none
    else rel_left (without_shared (elements b) (elements t)).0
        (without_shared (elements b) (elements t)).1

rel-clean : (base target : Text) → rel base target ≡ rel_clean (clean base) (clean target)
unfolding rel
rel-clean base target = refl

-- filepath.Rel of a path below another in this form.
pub rel-rooted :
    (names rest : List Text)
    → All IsName names
    → All IsName rest
    → rest ≢ []
    → rel (rooted names) (rooted (names ++ rest)) ≡ some (join slash rest)
rel-rooted names rest h k ne =
    let all = All-append IsName names rest h k in
    let shared : without_shared (elements (rooted names)) (elements (rooted (names ++ rest)))
        ≡ ([], rest) =
      ap (λ l. without_shared l (elements (rooted (names ++ rest)))) (elements-rooted names h)
      ∙ ap (without_shared ([] ∷ names)) (elements-rooted (names ++ rest) all)
      ∙ without_shared-prefix ([] ∷ names) rest in
    rel-clean (rooted names) (rooted (names ++ rest))
    ∙ ap (rel_clean (clean (rooted names))) (clean-rooted (names ++ rest) all)
    ∙ ap (λ b. rel_clean b (rooted (names ++ rest))) (clean-rooted names h)
    ∙ if_false _ _ (rooted-ne names rest h k ne)
    ∙ unfold is_abs in refl ∙ ap (λ e. rel_left e.0 e.1) shared ∙ unfold rel_left in refl
