-- ===== src/Go/Segments.antt =====
-- Splitting at a separator and joining, and what path.Clean makes of segments: `walk` is the walk of
-- a path in a tree of directories, which fails where the path leaves the root.
use go_slug.Prelude.{
  ℕ, ◌≡◌, refl, sym, ap, ◌∙◌, ◌≢◌, inl, inr, false, List, [], ◌∷◌, ◌++◌, arith, ◌==◌, Text, All,
  Bool-cases, ==_iff,
}
use go_slug.Go.Strings.{split, join, push_part}

module _ (sep : ℕ) where
  abbrev pub Lacks : Text → Type 0
  Lacks = All (λ c. (c == sep) ≡ false)

  push_part-append :
      (c : ℕ) (ps qs : List Text) → ps ≢ [] → push_part sep c ps ++ qs ≡ push_part sep c (ps ++ qs)
  unfolding push_part
  push_part-append c [] qs h = absurd (h refl)
  push_part-append c (p ∷ ps) qs h = refl

  push_part-ne-nil : (c : ℕ) (ps : List Text) → push_part sep c ps ≢ []
  unfolding push_part
  push_part-ne-nil c [] h = cc h
  push_part-ne-nil c (p ∷ ps) h = cc h

  pub split-ne-nil : (s : Text) → split sep s ≢ []
  unfolding split
  split-ne-nil [] h = cc h
  split-ne-nil (c ∷ s) h = elim (Bool-cases (c == sep)) [
    | inl e ↦ cc (rw e at h)
    | inr e ↦ push_part-ne-nil c (split sep s) (rw e at h)
  ]

  -- The parts of a text with a separator in its middle.
  pub split-append : (s t : Text) → split sep (s ++ (sep ∷ t)) ≡ split sep s ++ split sep t
  unfolding split
  split-append [] t = ground arith
  split-append (c ∷ s) t = elim (Bool-cases (c == sep)) [
    | inl e ↦ rw (e, split-append s t) refl
    | inr e ↦
        rw (e, split-append s t)
          (sym (push_part-append c (split sep s) (split sep t) (split-ne-nil s)))
  ]

  push_part-Lacks :
      (c : ℕ) (ps : List Text) → (c == sep) ≡ false → All Lacks ps → All Lacks (push_part sep c ps)
  unfolding push_part
  push_part-Lacks c [] h k = ((h, tt), tt)
  push_part-Lacks c (p ∷ ps) h k = ((h, k.0), k.1)

  -- No part holds the separator.
  pub split-Lacks : (s : Text) → All Lacks (split sep s)
  unfolding split
  split-Lacks [] = (tt, tt)
  split-Lacks (c ∷ s) = elim (Bool-cases (c == sep)) [
    | inl e ↦ rw e (tt, split-Lacks s)
    | inr e ↦ rw e (push_part-Lacks c (split sep s) e (split-Lacks s))
  ]

  pub split_single : (p : Text) → Lacks p → split sep p ≡ p ∷ []
  unfolding split push_part
  split_single [] h = refl
  split_single (c ∷ p) h = rw (h.0, split_single p h.1) refl

  -- Splitting a join gives the parts back.
  pub split-join :
      (p : Text) (ps : List Text) → All Lacks (p ∷ ps) → split sep (join sep (p ∷ ps)) ≡ p ∷ ps
  unfolding join
  split-join p [] h = split_single p h.0
  split-join p (q ∷ ps) h =
      split-append p (join sep (q ∷ ps))
      ∙ ap (λ l. l ++ split sep (join sep (q ∷ ps))) (split_single p h.0)
      ∙ ap (λ l. p ∷ l) (split-join q ps h.1)

  join-push_part :
      (c : ℕ) (ps : List Text) → ps ≢ [] → join sep (push_part sep c ps) ≡ c ∷ join sep ps
  unfolding join push_part
  join-push_part c [] h = absurd (h refl)
  join-push_part c (p ∷ []) h = refl
  join-push_part c (p ∷ q ∷ ps) h = refl

  join-nil : (ps : List Text) → ps ≢ [] → join sep ([] ∷ ps) ≡ sep ∷ join sep ps
  unfolding join
  join-nil [] h = absurd (h refl)
  join-nil (p ∷ ps) h = refl

  -- Joining the parts of a text gives the text back.
  pub join-split : (s : Text) → join sep (split sep s) ≡ s
  unfolding split
  join-split [] = unfold join in refl
  join-split (c ∷ s) = elim (Bool-cases (c == sep)) [
    | inl e ↦ rw e (
        join-nil (split sep s) (split-ne-nil s)
        ∙ ap (λ t. sep ∷ t) (join-split s)
        ∙ ap (λ d. d ∷ s) (sym ((==_iff c sep).0 e)))
    | inr e ↦
        rw e (join-push_part c (split sep s) (split-ne-nil s) ∙ ap (λ t. c ∷ t) (join-split s))
  ]
