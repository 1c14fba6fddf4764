-- ===== src/Addrs/SubPath.antt =====
-- sourceaddrs/subpath.go: sub-paths of packages.
pub mod Join
pub mod Valid
use go_slug.Prelude.{
  ℕ, zero, suc, ◌+◌, Bool, true, false, not, Option, none, some, List, [], ◌∷◌, ◌++◌, if◌then◌else◌,
  Text, codes, text_eq, take, drop, length, Result, ok, err, is_empty,
}
use go_slug.Go.Strings.{index}
use go_slug.Go.Path.{dot, clean, join_path, valid_path}

pub data SubPathError : Type 0 where
  invalid_sub_path traverses_up : SubPathError

-- normalizeSubpath
unfoldable pub normalize_sub_path : Text → Result SubPathError Text
unfolding valid_path clean
normalize_sub_path [] = ok []
normalize_sub_path (c ∷ given) =
    if not (valid_path (c ∷ given))
    then err invalid_sub_path
    else if text_eq (clean (c ∷ given)) dot
    then err invalid_sub_path
    else ok (clean (c ∷ given))

abbrev pub is_ok {ℓ κ} : {E : Type ℓ} {A : Type κ} → Result E A → Bool
is_ok (ok _) = true
is_ok (err _) = false

-- ValidSubPath
unfoldable pub valid_sub_path : Text → Bool
unfolding normalize_sub_path
valid_sub_path s = is_ok (normalize_sub_path s)

-- joinSubPath
unfoldable pub join_sub_path : Text → Text → Result SubPathError Text
unfolding join_path valid_path
join_sub_path sub_path rel =
    let new = join_path sub_path rel in
    if text_eq new dot then ok [] else if not (valid_path new) then err traverses_up else ok new

abbrev or_at_end : Option ℕ → Text → ℕ
or_at_end none s = length s
or_at_end (some i) s = i

abbrev behind : Option ℕ → ℕ
behind none = 0
behind (some i) = i + 3

-- The last step of splitSubPath: a query behind the sub-path moves to the package's address.
unfoldable pub move_query : Text → Text → Text × Text
unfolding index
move_query src subdir = elim (index subdir (codes "?")) [
  | none ↦ (src, subdir)
  | some i ↦ (src ++ drop i subdir, take i subdir)
]

-- splitSubPath: the slices of the source are `take` and `drop`.
unfoldable pub split_sub_path : Text → Text × Text
unfolding move_query index
split_sub_path src =
    let stop = or_at_end (index src (codes "?")) src in
    let offset = behind (index (take stop src) (codes "://")) in
    elim (index (drop offset (take stop src)) (codes "//")) [
      | none ↦ (src, [])
      | some i ↦ move_query (take (i + offset) src) (drop (i + offset + 2) src)
    ]
