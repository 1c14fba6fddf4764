-- ===== src/Bundle/Chosen.antt =====
-- The package that SourceForLocalPath chooses for a directory.
use go_slug.Prelude.{
  ℕ, ◌≤◌, ◌≡◌, refl, sym, ap, ◌∙◌, ◌⊎◌, inl, inr, ◌≢◌, Option, none, some, List, [], ◌∷◌, arith,
  ltb, Text, text_eq, text_eq_refl, text_eq→eq, In, Bool-cases, some-injective, subst,
}
use go_slug.Go.Strings.{byte_length}
use go_slug.Addrs.Types.{Packages, RemotePackage}
use go_slug.Addrs.Remote.{remote_package_string}
use go_slug.Bundle.Lookup.{find_package, shorter}

module _ (p : Packages) where
  abbrev pub cost : RemotePackage → ℕ
  cost pkg = byte_length (remote_package_string p pkg)

  -- The choice among candidates: one of them, or the one at hand, and none is shorter.
  pub record Chosen (dir : Text) (es : List (RemotePackage × Text)) (at_hand : Option RemotePackage)
      (r : RemotePackage) : Type 0 where
    pub member : In (r, dir) es ⊎ (at_hand ≡ some r)
    pub least : (q : RemotePackage) → In (q, dir) es → cost r ≤ cost q
    pub least_at_hand : (q : RemotePackage) → at_hand ≡ some q → cost r ≤ cost q

  shorter-some :
      (c : RemotePackage) (o : Option RemotePackage)
      → (r : RemotePackage) × (shorter p c o ≡ some r)
        × ((r ≡ c) ⊎ (o ≡ some r))
        × (cost r ≤ cost c)
        × ((q : RemotePackage) → o ≡ some q → cost r ≤ cost q)
  unfolding shorter
  shorter-some c none = (c, refl, inl refl, omega arith, λ q h. cc h)
  shorter-some c (some x) = elim (Bool-cases (ltb (cost x) (cost c))) [
    | inl e ↦ (
      x,
      rw e refl,
      inr refl,
      ground arith,
      λ q h. subst (λ y. cost x ≤ cost y) (some-injective h) (omega arith),
    )
    | inr e ↦ (
      c,
      rw e refl,
      inl refl,
      omega arith,
      λ q h. subst (λ y. cost c ≤ cost y) (some-injective h) (ground arith),
    )
  ]

  pub find_package-Chosen :
      (dir : Text) (es : List (RemotePackage × Text)) (o : Option RemotePackage)
      {pkg : RemotePackage}
      → In (pkg, dir) es ⊎ (o ≡ some pkg)
      → (r : RemotePackage) × (find_package p dir es o ≡ some r) × Chosen dir es o r
  unfolding find_package
  find_package-Chosen dir [] o {pkg} (inl h) = absurd h
  find_package-Chosen dir [] o {pkg} (inr h) = (
    pkg,
    h,
    record {
      member = inr h;
      least = λ q k. absurd k;
      least_at_hand =
          λ q k. subst (λ y. cost pkg ≤ cost y) (some-injective (sym h ∙ k)) (omega arith);
    },
  )
  find_package-Chosen dir ((c, d) ∷ es) o {pkg} h = elim (Bool-cases (text_eq d dir)) [
    | inl e ↦
        let same : d ≡ dir = text_eq→eq d dir e in
        let (x, k, from, le, le') = shorter-some c o in
        let (r, l, m) = find_package-Chosen dir es (shorter p c o) {pkg = x} (inr k) in
        (
          r,
          rw e l,
          record {
            member = elim m.member [
              | inl i ↦ inl (inr i)
              | inr i ↦
                  let here : x ≡ r = cc (k, i) in
                  elim from [
                    | inl f ↦ inl (inl (cc (here, f, same)))
                    | inr f ↦ inr (f ∙ ap some here)
                  ]
            ];
            least = λ q i. elim i [
              | inr j ↦ m.least q j
              | inl j ↦
                  let here : q ≡ c = ap (λ y. y.0) j in
                  let a = m.least_at_hand x k in
                  subst (λ y. cost r ≤ cost y) (sym here) (omega (arith, a, le))
            ];
            least_at_hand =
                λ q i. let a = m.least_at_hand x k in let b = le' q i in omega (arith, a, b);
          },
        )
    | inr e ↦
        let ne : d ≢ dir = λ y. cc (e, text_eq_refl dir, ap (λ z. text_eq z dir) y) in
        let left : In (pkg, dir) es ⊎ (o ≡ some pkg) = elim h [
          | inr i ↦ inr i
          | inl (inr i) ↦ inl i
          | inl (inl i) ↦ absurd (ne (sym (ap (λ y. y.1) i)))
        ] in
        let (r, l, m) = find_package-Chosen dir es o left in
        (
          r,
          rw e l,
          record {
            member = elim m.member [ inl i ↦ inl (inr i) | inr i ↦ inr i ];
            least =
                λ q i. elim i [ inr j ↦ m.least q j | inl j ↦ absurd (ne (sym (ap (λ y. y.1) j))) ];
            least_at_hand = m.least_at_hand;
          },
        )
  ]
