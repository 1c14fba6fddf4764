-- ===== src/Slug/Account.antt =====
-- The names and the size of what was written to an archive.
use go_slug.Prelude.{ℕ, ◌+◌, ◌≡◌, refl, ap, List, [], ◌∷◌, ◌++◌, Text, length, arith}
use go_slug.Slug.Pack.{PackHeader, Written, header_written, body_written}

abbrev pub names_of : List Written → List Text
names_of [] = []
names_of (header_written header ∷ l) = header.name ∷ names_of l
names_of (body_written text ∷ l) = names_of l

abbrev pub size_of : List Written → ℕ
size_of [] = 0
size_of (header_written header ∷ l) = size_of l
size_of (body_written text ∷ l) = length text + size_of l

pub names_of-header :
    (l : List Written) (h : PackHeader)
    → names_of (l ++ (header_written h ∷ [])) ≡ names_of l ++ (h.name ∷ [])
names_of-header [] h = refl
names_of-header (header_written g ∷ l) h = ap (λ t. g.name ∷ t) (names_of-header l h)
names_of-header (body_written text ∷ l) h = names_of-header l h

pub names_of-body :
    (l : List Written) (t : Text) → names_of (l ++ (body_written t ∷ [])) ≡ names_of l
names_of-body [] t = refl
names_of-body (header_written g ∷ l) t = ap (λ k. g.name ∷ k) (names_of-body l t)
names_of-body (body_written text ∷ l) t = names_of-body l t

pub size_of-header :
    (l : List Written) (h : PackHeader) → size_of (l ++ (header_written h ∷ [])) ≡ size_of l
size_of-header [] h = refl
size_of-header (header_written g ∷ l) h = size_of-header l h
size_of-header (body_written text ∷ l) h = ap (λ n. length text + n) (size_of-header l h)

pub size_of-body :
    (l : List Written) (t : Text) → size_of (l ++ (body_written t ∷ [])) ≡ size_of l + length t
size_of-body [] t = omega arith
size_of-body (header_written g ∷ l) t = size_of-body l t
size_of-body (body_written text ∷ l) t = let rest = size_of-body l t in omega (arith, rest)
