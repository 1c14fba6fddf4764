-- ===== src/Bundle/Digest.antt =====
-- What ChecksumV1 is made of.
use go_slug.Prelude.{
  ◌+◌, ◌*◌, ◌≡◌, refl, ap, ◌∙◌, some, [], ◌∷◌, ◌++◌, Text, codes, length, length-append, ok, arith,
}
use go_slug.Go.Path.{join_path}
use go_slug.Addrs.Types.{Packages}
use go_slug.Bundle.Open.{Files, Bundle, hex, open_dir, empty_bundle, manifest_filename, checksum_v1}
use go_slug.Bundle.Opening.{open_manifest-keeps, open_dir-Reads}

length-hex : (s : Text) → length (hex s) ≡ 2 * length s
unfolding hex
length-hex [] = refl
length-hex (c ∷ s) = let rest = length-hex s in omega (arith, rest)

-- ChecksumV1 of an opened bundle is the hexadecimal of the whole manifest and of the hash of nothing
-- behind it, so that its length grows with the manifest: twice that of both, and three.
pub checksum_v1-length :
    (p : Packages) (files : Files) (base_dir : Text) {b : Bundle p}
    → open_dir p files base_dir ≡ ok b
    → (root_dir : Text) × (src : Text) × (files.read_file (join_path root_dir manifest_filename)
        ≡ some src)
      × (checksum_v1 p b ≡ codes "h1:" ++ hex (src ++ files.sha256 []))
      × (length (checksum_v1 p b) ≡ 3 + 2 * (length src + length (files.sha256 [])))
unfolding checksum_v1 empty_bundle
checksum_v1-length p files base_dir h =
    let r = open_dir-Reads p files base_dir h in
    let sum = hex (r.src ++ files.sha256 []) in
    let same =
      open_manifest-keeps p (λ c. c.manifest_checksum ≡ sum) (λ _ _ _ _ _ e. e) (λ _ _ _ e. e)
        r.root_dir sum r.manifest refl r.opened in
    let size = length-hex (r.src ++ files.sha256 []) in
    let parts = length-append r.src (files.sha256 []) in
    (
      r.root_dir,
      r.src,
      r.source_read,
      ap (λ t. codes "h1:" ++ t) same,
      ap (λ t. length (codes "h1:" ++ t)) same ∙ omega (arith, size, parts),
    )
