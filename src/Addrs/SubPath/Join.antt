-- ===== src/Addrs/SubPath/Join.antt =====
-- joinSubPath follows a relative path in the package's tree, and refuses one that leaves it.
use go_slug.Prelude.{
  ◌≡◌, refl, sym, ap, ◌∙◌, inl, inr, true, false, not, Option, none, some, List, [], ◌∷◌, ◌++◌,
  arith, if◌then◌else◌, ◌==◌, Text, text_eq, all, any, All, onto, Bool-cases, Option-cases, ==_iff,
  text_eq→eq, ℕ, Result, ok, err,
}
use go_slug.Go.Strings.{split, join}
use go_slug.Go.Path.{
  slash, dot, segments, resolve, valid_segment, valid_path, join_segments, relative_path, is_abs,
  clean, join_path,
}
use go_slug.Go.Segments.{Lacks, split-append, split-Lacks}
use go_slug.Go.Walk.{
  is_up, walk, IsName, resolve-walk, resolve-leaves, resolve-append, resolve-names, resolve-Lacks,
  valid_path-join_segments, valid_path-up,
}
use go_slug.Addrs.Local.{looks_like_local_source}
use go_slug.Addrs.SubPath.{SubPathError, traverses_up, valid_sub_path, join_sub_path}

-- The directories of a sub-path, outermost first.
abbrev pub directories : Text → List Text
directories [] = []
directories (c ∷ s) = segments (c ∷ s)

abbrev pub outcome : Option (List Text) → Result SubPathError Text
outcome none = err traverses_up
outcome (some out) = ok (join_segments out)

-- What joinSubPath does behind path.Join.
abbrev checked : Text → Result SubPathError Text
checked new =
    if text_eq new dot then ok [] else if not (valid_path new) then err traverses_up else ok new

checked-walk :
    (out : List Text) → All IsName out → checked (relative_path out) ≡ ok (join_segments out)
unfolding relative_path
checked-walk [] h = unfold join_segments join in refl
checked-walk (t ∷ out) h = let (v, d) = valid_path-join_segments t out h in rw (d, v) refl

checked-up :
    (out : List Text)
    → All (Lacks slash) out
    → any is_up out ≡ true
    → checked (relative_path out) ≡ err traverses_up
unfolding relative_path
checked-up [] h u = cc u
checked-up (t ∷ out) h u = let (v, d) = valid_path-up t out h u in rw (d, v) refl

checked-resolve :
    (ss out : List Text)
    → All (Lacks slash) ss
    → All IsName out
    → All (Lacks slash) out
    → checked (relative_path (resolve false ss out)) ≡ outcome (walk ss out)
checked-resolve ss out h names lacks = elim (Option-cases (walk ss out)) [
  | inl e ↦
      checked-up (resolve false ss out) (resolve-Lacks ss out h lacks)
        (resolve-leaves ss out h names e)
      ∙ ap outcome (sym e)
  | inr (o, e) ↦
      let (same, k) = resolve-walk ss out o h names e in
      ap (λ l. checked (relative_path l)) same ∙ checked-walk o k ∙ ap outcome (sym e)
]

pub names :
    (ss out : List Text)
    → all valid_segment ss ≡ true
    → All (Lacks slash) ss
    → All IsName out × All (Lacks slash) out
    → All IsName (onto ss out) × All (Lacks slash) (onto ss out)
names [] out v h k = k
names (s ∷ ss) out v h k =
    names ss (s ∷ out) (ground arith) h.1 (((ground arith, h.0), k.0), (h.0, k.1))

dot-invalid : (s : Text) → text_eq s dot ≡ true → valid_sub_path s ≡ false
unfolding valid_sub_path
dot-invalid s h = ap valid_sub_path (text_eq→eq s dot h)

-- A valid sub-path that is not empty is made of names of directories.
pub valid_sub_path-segments :
    (c : ℕ) (s : Text) → valid_sub_path (c ∷ s) ≡ true → all valid_segment (segments (c ∷ s)) ≡ true
valid_sub_path-segments c s h = elim (Bool-cases (text_eq (c ∷ s) dot)) [
  | inl e ↦ cc (dot-invalid (c ∷ s) e)
  | inr e ↦ elim (Bool-cases (valid_path (c ∷ s))) [
    | inl v ↦ unfold valid_path in rw e at v
    | inr v ↦ unfold valid_sub_path in cc (rw v at h)
  ]
]

pub names-not_abs :
    (c : ℕ) (s : Text) → all valid_segment (segments (c ∷ s)) ≡ true → (c == slash) ≡ false
unfolding split valid_segment
names-not_abs c s h = elim (Bool-cases (c == slash)) [ inl e ↦ cc (rw (e, split) at h) | inr e ↦ e ]

pub clean_relative :
    (s : Text) → is_abs s ≡ false → clean s ≡ relative_path (resolve false (segments s) [])
unfolding clean
clean_relative s h = rw h refl

pub local_head : (rel : Text) → looks_like_local_source rel ≡ true → (t : Text) × (rel ≡ (b'.' ∷ t))
unfolding looks_like_local_source
local_head [] h = cc h
local_head (c ∷ t) h = elim (Bool-cases (c == b'.')) [
  | inl e ↦ (t, ap (λ d. d ∷ t) ((==_iff c b'.').0 e))
  | inr e ↦ cc (rw e at h)
]

checked_local :
    (sub t : Text)
    → valid_sub_path sub ≡ true
    → join_sub_path sub (b'.' ∷ t)
      ≡ outcome (walk (segments (b'.' ∷ t)) (onto (directories sub) []))
unfolding join_sub_path join_path
checked_local [] t v =
    ap checked (clean_relative (b'.' ∷ t) (unfold is_abs in refl))
    ∙ checked-resolve (segments (b'.' ∷ t)) [] (split-Lacks slash (b'.' ∷ t)) tt tt
checked_local (c ∷ s) t v =
    let valid = valid_sub_path-segments c s v in
    let (n, l) = names (segments (c ∷ s)) [] valid (split-Lacks slash (c ∷ s)) (tt, tt) in
    ap checked (
      clean_relative ((c ∷ s) ++ (slash ∷ b'.' ∷ t)) (unfold is_abs in names-not_abs c s valid)
      ∙ ap relative_path (
          ap (λ l. resolve false l []) (split-append slash (c ∷ s) (b'.' ∷ t))
          ∙ resolve-append (segments (c ∷ s)) (segments (b'.' ∷ t)) []
          ∙ ap (resolve false (segments (b'.' ∷ t))) (resolve-names (segments (c ∷ s)) [] valid)))
    ∙ checked-resolve (segments (b'.' ∷ t)) (onto (segments (c ∷ s)) [])
        (split-Lacks slash (b'.' ∷ t)) n l

-- joinSubPath follows the relative path, segment by segment, from the directories of the valid
-- sub-path: it fails exactly when that walk goes above the package's root at some point, and otherwise
-- returns the directories where the walk ends, with nothing for the root itself.
pub join_sub_path-walk :
    (sub_path rel : Text)
    → valid_sub_path sub_path ≡ true
    → looks_like_local_source rel ≡ true
    → join_sub_path sub_path rel ≡ outcome (walk (segments rel) (onto (directories sub_path) []))
join_sub_path-walk sub_path rel v h =
    let (t, e) = local_head rel h in
    ap (join_sub_path sub_path) e
    ∙ checked_local sub_path t v
    ∙ ap (λ r. outcome (walk (segments r) (onto (directories sub_path) []))) (sym e)
