-- ===== src/Go/Strings.antt =====
-- Go's `strings`, over texts as lists of code points.
use mathlib.Core.Option
use go_slug.Prelude.{
  ℕ, ◌+◌, suc, Bool, true, false, ◌&&◌, ◌||◌, Option, none, some, List, [], ◌∷◌, ◌++◌, leb, ◌==◌,
  if◌then◌else◌, Text, text_eq, any, drop, length,
}

-- len: the bytes of a text in UTF-8.
abbrev width : ℕ → ℕ
width c = if leb c 0x7f then 1 else if leb c 0x7ff then 2 else if leb c 0xffff then 3 else 4

abbrev pub byte_length : Text → ℕ
byte_length [] = 0
byte_length (c ∷ s) = width c + byte_length s

-- unicode.IsSpace
unfoldable pub is_space : ℕ → Bool
is_space c =
    (leb 9 c && leb c 13)
    || c == 32
    || c == 0x85
    || c == 0xa0
    || c == 0x1680
    || (leb 0x2000 c && leb c 0x200a)
    || c == 0x2028
    || c == 0x2029
    || c == 0x202f
    || c == 0x205f
    || c == 0x3000

unfoldable pub trim_left : Text → Text
trim_left [] = []
trim_left (c ∷ s) = if is_space c then trim_left s else c ∷ s

-- Spaces at the end go where nothing but spaces follows.
unfoldable pub trim_right : Text → Text
trim_right [] = []
trim_right (c ∷ s) = elim (trim_right s) [
  | [] ↦ if is_space c then [] else c ∷ []
  | d ∷ t ↦ c ∷ d ∷ t
]

-- strings.TrimSpace
unfoldable pub trim_space : Text → Text
unfolding trim_left trim_right is_space
trim_space s = trim_right (trim_left s)

-- strings.HasPrefix s p
unfoldable pub has_prefix : Text → Text → Bool
has_prefix s [] = true
has_prefix [] (d ∷ p) = false
has_prefix (c ∷ s) (d ∷ p) = c == d && has_prefix s p

-- strings.HasSuffix s p: some tail of `s` is `p`.
unfoldable pub has_suffix : Text → Text → Bool
has_suffix [] p = text_eq [] p
has_suffix (c ∷ s) p = text_eq (c ∷ s) p || has_suffix s p

-- strings.ContainsAny s chars
unfoldable pub contains_any : Text → Text → Bool
contains_any s chars = any (λ c. any (λ d. c == d) chars) s

-- strings.Index s sub; `none` is -1.
unfoldable pub index : Text → Text → Option ℕ
unfolding has_prefix
index [] sub = if has_prefix [] sub then some 0 else none
index (c ∷ s) sub =
    let later = index s sub in if has_prefix (c ∷ s) sub then some 0 else Option.map suc later

module _ (sep : ℕ) where
  -- The first part of `strings.Split` at a one-character separator, and the parts behind it.
  unfoldable pub push_part : ℕ → List Text → List Text
  push_part c [] = (c ∷ []) ∷ []
  push_part c (p ∷ ps) = (c ∷ p) ∷ ps

  unfoldable pub split : Text → List Text
  unfolding push_part
  split [] = [] ∷ []
  split (c ∷ s) = let rest = split s in if c == sep then [] ∷ rest else push_part c rest

  -- strings.Join
  unfoldable pub join : List Text → Text
  join [] = []
  join (p ∷ []) = p
  join (p ∷ q ∷ ps) = p ++ (sep ∷ join (q ∷ ps))

-- strings.Cut at a one-character separator, without the flag
unfoldable pub cut : ℕ → Text → Text × Text
cut sep [] = ([], [])
cut sep (c ∷ s) =
    let (before, after) = cut sep s in if c == sep then ([], s) else (c ∷ before, after)

-- strings.Replace s old new 1: the first place where `old` stands.
unfoldable pub replace_once : Text → Text → Text → Text
unfolding has_prefix
replace_once [] old new = if has_prefix [] old then new else []
replace_once (c ∷ s) old new =
    let later = replace_once s old new in
    if has_prefix (c ∷ s) old then new ++ drop (length old) (c ∷ s) else c ∷ later
