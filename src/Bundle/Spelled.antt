-- ===== src/Bundle/Spelled.antt =====
-- Relative paths of names, as they are spelled, and sub-paths.
use go_slug.Prelude.{
  ◌≡◌, refl, ap, ◌∙◌, inl, true, false, ◌≢◌, List, [], ◌∷◌, ◌++◌, arith, Text, text_eq, all, All,
  Result, ok, err,
}
use go_slug.Go.Strings.{join, cut}
use go_slug.Go.Path.{slash, dot, segments, valid_segment, valid_path, is_abs, clean}
use go_slug.Go.Segments.{Lacks, split-join, join-split, split-ne-nil, split-Lacks}
use go_slug.Go.Walk.{IsName, not_dot}
use go_slug.Go.Rooted.{All-Lacks, All-valid}
use go_slug.Addrs.SubPath.{SubPathError, is_ok, normalize_sub_path, valid_sub_path}
use go_slug.Addrs.SubPath.Join.{directories, valid_sub_path-segments}
use go_slug.Addrs.SubPath.Valid.{clean-names, normalize_sub_path-ok}
use go_slug.Addrs.Types.{RemotePackage}
use go_slug.Addrs.Remote.{source_addr}

-- A relative path of names, as it is spelled.
module _ (n : Text) (names : List Text) (h : All IsName (n ∷ names)) where
  abbrev pub spelled : Text
  spelled = join slash (n ∷ names)

  spelled-segments : segments spelled ≡ n ∷ names
  spelled-segments = split-join slash n names (All-Lacks (n ∷ names) h)

  spelled-valid : all valid_segment (segments spelled) ≡ true
  spelled-valid = ap (all valid_segment) spelled-segments ∙ All-valid (n ∷ names) h

  pub spelled-dot : text_eq spelled dot ≡ false
  spelled-dot = not_dot spelled (inl spelled-valid)

  pub spelled-valid_path : valid_path spelled ≡ true
  unfolding valid_path
  spelled-valid_path = ground (arith, spelled-valid)

first_of :
    (n : Text) (names : List Text)
    → All IsName (n ∷ names)
    → is_abs (join slash (n ∷ names)) ≡ false
unfolding join is_abs valid_segment
first_of [] names h = cc h.0.0
first_of (c ∷ n) [] h = h.0.1.0
first_of (c ∷ n) (m ∷ names) h = h.0.1.0

pub clean-spelled :
    (n : Text) (names : List Text)
    → All IsName (n ∷ names)
    → clean (join slash (n ∷ names)) ≡ join slash (n ∷ names)
clean-spelled n names h =
    clean-names (join slash (n ∷ names)) (first_of n names h) (spelled-valid n names h)
    ∙ ap (join slash) (spelled-segments n names h)

cut-Lacks : (dir rest : Text) → Lacks slash dir → cut slash (dir ++ (slash ∷ rest)) ≡ (dir, rest)
unfolding cut
cut-Lacks [] rest h = refl
cut-Lacks (c ∷ dir) rest h = rw (h.0, cut-Lacks dir rest h.1) refl

cut_all : (dir : Text) → Lacks slash dir → cut slash dir ≡ (dir, [])
unfolding cut
cut_all [] h = refl
cut_all (c ∷ dir) h = rw (h.0, cut_all dir h.1) refl

join-cons : (d : Text) (l : List Text) → l ≢ [] → join slash (d ∷ l) ≡ d ++ (slash ∷ join slash l)
unfolding join
join-cons d [] h = absurd (h refl)
join-cons d (x ∷ l) h = refl

-- The name of a package's directory and the sub-path, from the path below the bundle's directory.
pub cut-package :
    (dir sub_path : Text)
    → Lacks slash dir
    → cut slash (join slash (dir ∷ directories sub_path)) ≡ (dir, sub_path)
cut-package dir [] h = unfold join in cut_all dir h
cut-package dir (c ∷ s) h =
    ap (cut slash) (
      join-cons dir (segments (c ∷ s)) (split-ne-nil slash (c ∷ s))
      ∙ ap (λ t. dir ++ (slash ∷ t)) (join-split slash (c ∷ s)))
    ∙ cut-Lacks dir (c ∷ s) h

pub directories-IsName :
    (sub_path : Text) → valid_sub_path sub_path ≡ true → All IsName (directories sub_path)
directories-IsName [] v = tt
directories-IsName (c ∷ s) v =
    go (segments (c ∷ s)) (valid_sub_path-segments c s v) (split-Lacks slash (c ∷ s))
  where
    go : (l : List Text) → all valid_segment l ≡ true → All (Lacks slash) l → All IsName l
    go [] h k = tt
    go (x ∷ l) h k = ((ground arith, k.0), go l (ground arith) k.1)

pub normalize-valid : (s : Text) → valid_sub_path s ≡ true → normalize_sub_path s ≡ ok s
unfolding valid_sub_path
normalize-valid s v = go (normalize_sub_path s) refl v
  where
    go :
        (r : Result SubPathError Text)
        → normalize_sub_path s ≡ r
        → is_ok r ≡ true
        → normalize_sub_path s ≡ ok s
    go (ok t) e h = e ∙ ap ok (normalize_sub_path-ok s e).0
    go (err x) e h = cc h

pub source_addr-valid :
    (pkg : RemotePackage) (s : Text)
    → valid_sub_path s ≡ true
    → source_addr pkg s ≡ ok (record { pkg = pkg; sub_path = s })
unfolding source_addr
source_addr-valid pkg s v = rw (normalize-valid s v, source_addr) refl
