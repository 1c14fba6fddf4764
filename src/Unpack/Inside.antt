-- ===== src/Unpack/Inside.antt =====
-- An entry that is accepted stays inside the destination.
use go_slug.Prelude.{
  arith, ◌≡◌, refl, ◌≢◌, inl, inr, true, none, some, List, [], ◌∷◌, Text, All, ok, Option,
  Bool-cases, Option-cases, is_empty,
}
use go_slug.Go.Strings.{has_prefix}
use go_slug.Go.Path.{dot_dot, segments, clean, join_path}
use go_slug.Go.Relative.{rel, rel-IsBelow, IsBelow}
use go_slug.Unpack.{
  Header, UnpackInfo, Lstat, not_exist, symlink, no_symlink, failed, is_supported, check_parents,
  make_info, after_traversal, new_unpack_info, UnpackError, lstat_failed, through_symlink,
}

-- The directories that the components but the last lead through.
abbrev pub parents : Text → List Text → List Text
parents current [] = []
parents current (c ∷ []) = []
parents current (c ∷ d ∷ components) =
    join_path current c ∷ parents (join_path current c) (d ∷ components)

module _ (lstat : Text → Lstat) where
  Lstat-ne : (p : Text) (s : Lstat) → lstat p ≡ s → s ≢ symlink → lstat p ≢ symlink
  Lstat-ne p s h n k = n (cc (h, k))

  check_parents-All :
      (current : Text) (components : List Text)
      → check_parents lstat current components ≡ none
      → All (λ p. lstat p ≢ symlink) (parents current components)
  unfolding check_parents
  check_parents-All current [] h = tt
  check_parents-All current (c ∷ []) h = tt
  check_parents-All current (c ∷ d ∷ components) h =
      go (lstat (join_path current c)) refl h
        (check_parents-All (join_path current c) (d ∷ components))
    where
      go :
          (s : Lstat)
          → lstat (join_path current c) ≡ s
          → elim s as (λ _. Option UnpackError) [
            | not_exist ↦ check_parents lstat (join_path current c) (d ∷ components)
            | no_symlink ↦ check_parents lstat (join_path current c) (d ∷ components)
            | failed e ↦ some (lstat_failed e)
            | symlink ↦ some through_symlink
          ]
            ≡ none
          → (check_parents lstat (join_path current c) (d ∷ components) ≡ none
              → All (λ p. lstat p ≢ symlink) (parents (join_path current c) (d ∷ components)))
          → All (λ p. lstat p ≢ symlink) (parents current (c ∷ d ∷ components))
      go not_exist e h rest = ((λ k. cc (e, k)), rest h)
      go no_symlink e h rest = ((λ k. cc (e, k)), rest h)
      go (failed x) e h rest = cc h
      go symlink e h rest = cc h

  make_info-ok :
      (path : Text) (header : Header) {i : UnpackInfo}
      → make_info lstat path header ≡ ok i
      → (i.path ≡ path) × (is_supported i ≡ true)
  unfolding make_info
  make_info-ok path header {i} h = ground (arith, h)

  after_traversal-ok :
      (dst path : Text) (header : Header) {i : UnpackInfo}
      → after_traversal lstat dst path header ≡ ok i
      → (i.path ≡ path)
        × All (λ p. lstat p ≢ symlink) (parents dst (segments header.name))
        × (is_supported i ≡ true)
  unfolding after_traversal
  after_traversal-ok dst path header h =
      elim (Option-cases (check_parents lstat dst (segments header.name))) [
        | inr (x, q) ↦ cc (rw (q, after_traversal) at h)
        | inl q ↦
            let (same, supported) = make_info-ok path header (rw (q, after_traversal) at h) in
            (same, check_parents-All dst (segments header.name) q, supported)
      ]

  -- NewUnpackInfo accepts an entry only if its path is the entry's name joined to the
  -- destination and, once cleaned, is below the destination, by elements of which the first does
  -- not begin with two dots, if no directory that the components of its name lead through was a
  -- symlink, and if its type is one that go-slug knows.
  pub new_unpack_info-IsBelow :
      (dst : Text) (header : Header) {i : UnpackInfo}
      → new_unpack_info lstat dst header ≡ ok i
      → (i.path ≡ join_path (clean dst) (clean header.name))
        × IsBelow (clean (clean dst)) (clean (clean i.path))
        × All (λ p. lstat p ≢ symlink) (parents (clean dst) (segments header.name))
        × (is_supported i ≡ true)
  unfolding new_unpack_info
  new_unpack_info-IsBelow dst header {i} h =
      let path = join_path (clean dst) (clean header.name) in
      elim (Bool-cases (is_empty dst)) [
        | inl e ↦ cc (rw (e, new_unpack_info) at h)
        | inr e ↦ elim (Option-cases (rel (clean dst) (clean path))) [
          | inl k ↦ cc (rw (e, k, new_unpack_info) at h)
          | inr (r, k) ↦ elim (Bool-cases (has_prefix r dot_dot)) [
            | inl p ↦ cc (rw (e, k, p, new_unpack_info) at h)
            | inr p ↦
                let (same, ways, supported) =
                  after_traversal-ok (clean dst) path header (rw (e, k, p, new_unpack_info) at h) in
                (same, rw same (rel-IsBelow (clean dst) (clean path) k p), ways, supported)
          ]
        ]
      ]
