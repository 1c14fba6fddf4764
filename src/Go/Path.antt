-- ===== src/Go/Path.antt =====
-- Go's `path` (and `path/filepath` where the separator is a slash) and fs.ValidPath, over texts as
-- lists of code points, so that every text is valid UTF-8.
use mathlib.Core.Option
use go_slug.Prelude.{
  Option, some, ℕ, Bool, true, false, not, ◌||◌, List, [], ◌∷◌, ◌++◌, ◌==◌, if◌then◌else◌, Text,
  codes, text_eq, is_empty, all, onto,
}
use go_slug.Go.Strings.{split, join}

abbrev pub slash : ℕ
slash = b'/'

abbrev pub dot : Text
dot = codes "."

abbrev pub dot_dot : Text
dot_dot = codes ".."

abbrev pub segments : Text → List Text
segments = split slash

-- A segment that path.Clean drops.
abbrev pub is_skipped : Text → Bool
is_skipped s = is_empty s || text_eq s dot

-- One `..`: it takes the last element off, or stays at the front of a path that is not rooted.
unfoldable pub go_up : Bool → List Text → List Text
go_up rooted [] = if rooted then [] else dot_dot ∷ []
go_up rooted (t ∷ out) = if text_eq t dot_dot then dot_dot ∷ t ∷ out else out

unfoldable pub put_segment : Bool → Text → List Text → List Text
unfolding go_up
put_segment rooted s out =
    if is_skipped s then out else if text_eq s dot_dot then go_up rooted out else s ∷ out

-- The elements that path.Clean keeps, last first, behind those that it has kept already.
unfoldable pub resolve : Bool → List Text → List Text → List Text
unfolding put_segment
resolve rooted [] out = out
resolve rooted (s ∷ ss) out = resolve rooted ss (put_segment rooted s out)

unfoldable pub join_segments : List Text → Text
unfolding join
join_segments out = join slash (onto out [])

unfoldable pub relative_path : List Text → Text
unfolding join_segments
relative_path [] = dot
relative_path (s ∷ out) = join_segments (s ∷ out)

unfoldable pub is_abs : Text → Bool
is_abs [] = false
is_abs (c ∷ s) = c == slash

-- path.Clean
unfoldable pub clean : Text → Text
unfolding is_abs relative_path join_segments resolve split
clean s =
    if is_abs s
    then slash ∷ join_segments (resolve true (segments s) [])
    else relative_path (resolve false (segments s) [])

-- path.Join of two elements
unfoldable pub join_path : Text → Text → Text
unfolding clean
join_path [] [] = []
join_path [] (d ∷ t) = clean (d ∷ t)
join_path (c ∷ s) [] = clean (c ∷ s)
join_path (c ∷ s) (d ∷ t) = clean ((c ∷ s) ++ (slash ∷ d ∷ t))

-- An element that fs.ValidPath allows.
unfoldable pub valid_segment : Text → Bool
valid_segment s = not (is_skipped s || text_eq s dot_dot)

-- fs.ValidPath
unfoldable pub valid_path : Text → Bool
unfolding valid_segment split
valid_path s = text_eq s dot || all valid_segment (segments s)

-- The last segment that is not empty.
abbrev last_segment : List Text → Text → Text
last_segment [] found = found
last_segment (s ∷ ss) found = last_segment ss (if is_empty s then found else s)

-- path.Base: the last element without the slashes behind it; a path of slashes gives one.
unfoldable pub base : Text → Text
unfolding split
base [] = dot
base (c ∷ s) =
    let found = last_segment (segments (c ∷ s)) [] in if is_empty found then slash ∷ [] else found

-- A path up to its last slash, which is kept.
unfoldable pub up_to_slash : Text → Text
up_to_slash [] = []
up_to_slash (c ∷ s) =
    let rest = up_to_slash s in
    if is_empty rest then (if c == slash then c ∷ [] else []) else c ∷ rest

-- filepath.Dir
unfoldable pub dir : Text → Text
unfolding clean up_to_slash
dir s = clean (up_to_slash s)

-- filepath.Abs
unfoldable pub abs : Option Text → Text → Option Text
unfolding is_abs clean join_path
abs working_dir s =
    if is_abs s then some (clean s) else Option.map (λ wd. join_path wd s) working_dir

-- filepath.Join: elements in front that are empty are left out, and path.Clean does the rest.
unfoldable pub join_paths : List Text → Text
unfolding clean join
join_paths [] = []
join_paths ([] ∷ parts) = join_paths parts
join_paths ((c ∷ s) ∷ parts) = clean (join slash ((c ∷ s) ∷ parts))
