-- ===== src/Go/Walk.antt =====
-- path.Clean as a walk in a tree of directories, which fails where a path leaves the root.
use go_slug.Prelude.{
  ◌⊎◌, ◌≡◌, refl, sym, ap, ◌∙◌, inl, inr, Bool, true, false, ◌||◌, Option, none, some, List, [],
  ◌∷◌, ◌++◌, arith, if◌then◌else◌, Text, text_eq, all, any, All, onto, Bool-cases, Option-cases,
  List-cases, text_eq→eq, ◌≢◌, subst,
}
use go_slug.Go.Strings.{split, join}
use go_slug.Go.Path.{
  slash, dot, dot_dot, segments, is_skipped, go_up, put_segment, resolve, valid_segment, valid_path,
  join_segments,
}
use go_slug.Go.Segments.{Lacks, split-join}

abbrev pub is_up : Text → Bool
is_up s = text_eq s dot_dot

abbrev pop : List Text → Option (List Text)
pop [] = none
pop (t ∷ out) = some out

-- One step of the walk from the directories `out`, the innermost first.
abbrev pub walk_step : Text → List Text → Option (List Text)
walk_step s out = if is_skipped s then some out else if is_up s then pop out else some (s ∷ out)

-- Where a path leads from the directories `out`, and `none` if it leaves the root on its way.
abbrev pub walk : List Text → List Text → Option (List Text)
walk [] out = some out
walk (s ∷ ss) out = elim (walk_step s out) [ none ↦ none | some o ↦ walk ss o ]

-- A name of a directory: not empty, neither `.` nor `..`, and without a slash.
abbrev pub IsName : Text → Type 0
IsName s = (valid_segment s ≡ true) × Lacks slash s

pub resolve-append :
    (ss ts : List Text) (out : List Text)
    → resolve false (ss ++ ts) out ≡ resolve false ts (resolve false ss out)
unfolding resolve
resolve-append [] ts out = refl
resolve-append (s ∷ ss) ts out = resolve-append ss ts (put_segment false s out)

put_segment-name :
    (s : Text) (out : List Text) → valid_segment s ≡ true → put_segment false s out ≡ s ∷ out
unfolding put_segment valid_segment
put_segment-name s out h = ground arith

pub resolve-names :
    (ss out : List Text) → all valid_segment ss ≡ true → resolve false ss out ≡ onto ss out
unfolding resolve
resolve-names [] out h = refl
resolve-names (s ∷ ss) out h =
    ap (resolve false ss) (put_segment-name s out (ground arith))
    ∙ resolve-names ss (s ∷ out) (ground arith)

-- While the walk stays below the root, path.Clean makes its steps.
put_segment-walk :
    (s : Text) (out o : List Text)
    → Lacks slash s
    → All IsName out
    → walk_step s out ≡ some o
    → (put_segment false s out ≡ o) × All IsName o
unfolding put_segment go_up valid_segment
put_segment-walk s out o lacks h e = elim (Bool-cases (is_skipped s)) [
  | inl k ↦ let same : out ≡ o = cc (rw k at e) in rw (k, ← same) (refl, h)
  | inr k ↦ elim (Bool-cases (is_up s)) [
    | inl u ↦ popped out h (rw (k, u) at e) k u
    | inr u ↦
        let same : s ∷ out ≡ o = cc (rw (k, u) at e) in
        rw (k, u, ← same) (refl, ((ground arith, lacks), h))
  ]
]
  where
    popped :
        (out : List Text)
        → All IsName out
        → pop out ≡ some o
        → is_skipped s ≡ false
        → is_up s ≡ true
        → (put_segment false s out ≡ o) × All IsName o
    popped [] h e k u = cc e
    popped (t ∷ out) h e k u =
        let same : out ≡ o = cc e in
        let plain : is_up t ≡ false = let v = h.0.0 in ground arith in
        rw (k, u, plain, ← same) (refl, h.1)

pub resolve-walk :
    (ss out o : List Text)
    → All (Lacks slash) ss
    → All IsName out
    → walk ss out ≡ some o
    → (resolve false ss out ≡ o) × All IsName o
unfolding resolve
resolve-walk [] out o lacks h e = let same : out ≡ o = cc e in rw (← same) (refl, h)
resolve-walk (s ∷ ss) out o lacks h e = elim (Option-cases (walk_step s out)) [
  | inl k ↦ cc (rw (k, walk) at e)
  | inr (q, k) ↦
      let (step, names) = put_segment-walk s out q lacks.0 h k in
      let (rest, last) = resolve-walk ss q o lacks.1 names (rw (k, walk) at e) in
      (ap (resolve false ss) step ∙ rest, last)
]

-- Once at the front, `..` stays.
put_segment-up :
    (s : Text) (out : List Text) → any is_up out ≡ true → any is_up (put_segment false s out) ≡ true
unfolding put_segment go_up
put_segment-up s [] h = ground arith
put_segment-up s (t ∷ out) h = ground arith

resolve-up : (ss out : List Text) → any is_up out ≡ true → any is_up (resolve false ss out) ≡ true
unfolding resolve
resolve-up [] out h = h
resolve-up (s ∷ ss) out h = resolve-up ss (put_segment false s out) (put_segment-up s out h)

put_segment-leaves :
    (s : Text) (out : List Text)
    → walk_step s out ≡ none
    → any is_up (put_segment false s out) ≡ true
unfolding put_segment go_up
put_segment-leaves s [] h = ground arith
put_segment-leaves s (t ∷ out) h = ground arith

-- Where the walk leaves the root, path.Clean keeps a `..`.
pub resolve-leaves :
    (ss out : List Text)
    → All (Lacks slash) ss
    → All IsName out
    → walk ss out ≡ none
    → any is_up (resolve false ss out) ≡ true
unfolding resolve
resolve-leaves [] out lacks h e = cc e
resolve-leaves (s ∷ ss) out lacks h e = elim (Option-cases (walk_step s out)) [
  | inl k ↦ resolve-up ss (put_segment false s out) (put_segment-leaves s out k)
  | inr (q, k) ↦
      let (step, names) = put_segment-walk s out q lacks.0 h k in
      ap (λ l. any is_up (resolve false ss l)) step
      ∙ resolve-leaves ss q lacks.1 names (rw (k, walk) at e)
]

any-onto : (p : Text → Bool) (xs ys : List Text) → any p (onto xs ys) ≡ (any p xs || any p ys)
any-onto p [] ys = refl
any-onto p (x ∷ xs) ys = any-onto p xs (x ∷ ys) ∙ (ground arith)

All-onto :
    (xs ys : List Text)
    → All (Lacks slash) xs
    → All (Lacks slash) ys
    → All (Lacks slash) (onto xs ys)
All-onto [] ys h k = k
All-onto (x ∷ xs) ys h k = All-onto xs (x ∷ ys) h.1 (h.0, k)

all_valid-onto :
    (xs ys : List Text)
    → All IsName xs
    → all valid_segment ys ≡ true
    → (all valid_segment (onto xs ys) ≡ true) × All (Lacks slash) xs
all_valid-onto [] ys h k = (k, tt)
all_valid-onto (x ∷ xs) ys h k =
    let (v, l) = all_valid-onto xs (x ∷ ys) h.1 (ground (arith, h.0.0)) in (v, (h.0.1, l))

-- The text of a list of directories splits into them again.
pub segments-join_segments :
    (t : Text) (out : List Text)
    → All (Lacks slash) (t ∷ out)
    → segments (join_segments (t ∷ out)) ≡ onto (t ∷ out) []
unfolding join_segments
segments-join_segments t out h = elim (List-cases (onto (t ∷ out) [])) [
  | inl e ↦ absurd (not_nil out (t ∷ []) (λ k. cc k) e)
  | inr (x, xs, e) ↦
      ap (λ l. segments (join slash l)) e
      ∙ split-join slash x xs (subst (All (Lacks slash)) e (All-onto (t ∷ out) [] h tt))
      ∙ sym e
]
  where
    not_nil : (xs ys : List Text) → ys ≢ [] → onto xs ys ≢ []
    not_nil [] ys h = h
    not_nil (x ∷ xs) ys h = not_nil xs (x ∷ ys) (λ k. cc k)

segments-dot : (s : Text) → text_eq s dot ≡ true → segments s ≡ dot ∷ []
unfolding split
segments-dot s h = ap segments (text_eq→eq s dot h)

pub not_dot :
    (s : Text)
    → (all valid_segment (segments s) ≡ true) ⊎ (any is_up (segments s) ≡ true)
    → text_eq s dot ≡ false
unfolding valid_segment
not_dot s h = elim (Bool-cases (text_eq s dot)) [
  | inr e ↦ e
  | inl e ↦ elim h [
    | inl v ↦ cc (rw (segments-dot s e) at v)
    | inr u ↦ cc (rw (segments-dot s e) at u)
  ]
]

up-invalid : (ss : List Text) → any is_up ss ≡ true → all valid_segment ss ≡ false
unfolding valid_segment
up-invalid [] h = cc h
up-invalid (s ∷ ss) h = ground (arith, up-invalid ss)

-- Directories make a valid path, which is not the root.
pub valid_path-join_segments :
    (t : Text) (out : List Text)
    → All IsName (t ∷ out)
    → (valid_path (join_segments (t ∷ out)) ≡ true)
      × (text_eq (join_segments (t ∷ out)) dot ≡ false)
unfolding valid_path
valid_path-join_segments t out h =
    let (valid, lacks) = all_valid-onto (t ∷ out) [] h refl in
    let v = ap (all valid_segment) (segments-join_segments t out lacks) ∙ valid in
    (ground arith, not_dot (join_segments (t ∷ out)) (inl v))

pub valid_path-up :
    (t : Text) (out : List Text)
    → All (Lacks slash) (t ∷ out)
    → any is_up (t ∷ out) ≡ true
    → (valid_path (join_segments (t ∷ out)) ≡ false)
      × (text_eq (join_segments (t ∷ out)) dot ≡ false)
unfolding valid_path
valid_path-up t out h u =
    let s : Text = join_segments (t ∷ out) in
    let up : any is_up (segments s) ≡ true =
      ap (any is_up) (segments-join_segments t out h)
      ∙ any-onto is_up (t ∷ out) []
      ∙ (ground arith) in
    let v : all valid_segment (segments s) ≡ false = up-invalid (segments s) up in
    let d : text_eq s dot ≡ false = not_dot s (inr up) in (ground arith, d)

pub resolve-Lacks :
    (ss out : List Text)
    → All (Lacks slash) ss
    → All (Lacks slash) out
    → All (Lacks slash) (resolve false ss out)
unfolding resolve put_segment
resolve-Lacks [] out h k = k
resolve-Lacks (s ∷ ss) out h k = resolve-Lacks ss (put_segment false s out) h.1 (kept out k)
  where
    up : (out : List Text) → All (Lacks slash) out → All (Lacks slash) (go_up false out)
    up [] k = unfold go_up in ((refl, (refl, tt)), tt)
    up (t ∷ out) k = elim (Bool-cases (is_up t)) [
      | inl e ↦ unfold go_up in rw e ((refl, (refl, tt)), k)
      | inr e ↦ unfold go_up in rw e k.1
    ]

    kept : (out : List Text) → All (Lacks slash) out → All (Lacks slash) (put_segment false s out)
    kept out k = elim (Bool-cases (is_skipped s)) [
      | inl e ↦ rw e k
      | inr e ↦ elim (Bool-cases (is_up s)) [
        | inl u ↦ rw (e, u) (up out k)
        | inr u ↦ rw (e, u) (h.0, k)
      ]
    ]
