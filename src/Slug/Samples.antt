-- ===== src/Slug/Samples.antt =====
-- Symlinks that are accepted and refused.
use go_slug.Prelude.{◌≡◌, refl, none, some, [], ◌∷◌, codes, ok, err}
use go_slug.Slug.{valid_symlink, illegal_slug}
use go_slug.Slug.Sibling.{valid_symlink-continues}

refuses_other :
    valid_symlink none [] (codes "/d") (codes "/d/link") (codes "../e") ≡ err illegal_slug
unfolding valid_symlink
refuses_other = refl

accepts_allowed :
    valid_symlink
      (some (codes "/"))
      (codes "../e" ∷ [])
      (codes "d")
      (codes "a/link")
      (codes "../../e/f")
    ≡ ok tt
unfolding valid_symlink
accepts_allowed = refl

-- The target /data/secret is outside of the root /d.
valid_symlink-continues_example :
    valid_symlink none [] (codes "/d") (codes "/d/link") (codes "/data/secret") ≡ ok tt
unfolding valid_symlink
valid_symlink-continues_example =
    valid_symlink-continues none [] (codes "/d") (codes "/d/link") (codes "ata/secret") refl refl
      refl
