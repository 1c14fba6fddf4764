-- ===== src/Go/Sorted.antt =====
-- What a sorted list holds.
use go_slug.Prelude.{
  ◌≡◌, true, false, arith, refl, inl, inr, List, [], ◌∷◌, Text, All, In, Bool-cases,
}
use go_slug.Go.Sort.{text_lt, insert_by, sort_by}

module _ {A : Type 0} (key : A → Text) where
  In-insert_by_self : (x : A) (l : List A) → In x (insert_by key x l)
  unfolding insert_by
  In-insert_by_self x [] = inl refl
  In-insert_by_self x (y ∷ l) = elim (Bool-cases (text_lt (key y) (key x))) [
    | inl e ↦ rw (e, insert_by) (inr (In-insert_by_self x l))
    | inr e ↦ rw (e, insert_by) (inl refl)
  ]

  In-insert_by : (x y : A) (l : List A) → In y l → In y (insert_by key x l)
  unfolding insert_by
  In-insert_by x y [] h = absurd h
  In-insert_by x y (z ∷ l) h = elim (Bool-cases (text_lt (key z) (key x))) [
    | inr e ↦ rw (e, insert_by) (inr h)
    | inl e ↦ rw (e, insert_by) (elim h [ inl k ↦ inl k | inr k ↦ inr (In-insert_by x y l k) ])
  ]

  pub In-sort_by : (y : A) (l : List A) → In y l → In y (sort_by key l)
  unfolding sort_by
  In-sort_by y [] h = absurd h
  In-sort_by y (x ∷ l) (inl e) = rw e (In-insert_by_self x (sort_by key l))
  In-sort_by y (x ∷ l) (inr h) = In-insert_by x y (sort_by key l) (In-sort_by y l h)

  All-insert_by : (P : A → Type 0) (x : A) (l : List A) → P x → All P l → All P (insert_by key x l)
  unfolding insert_by
  All-insert_by P x [] p h = (p, tt)
  All-insert_by P x (y ∷ l) p h = elim (Bool-cases (text_lt (key y) (key x))) [
    | inl e ↦ rw (e, insert_by) (h.0, All-insert_by P x l p h.1)
    | inr e ↦ rw (e, insert_by) (p, h)
  ]

  pub All-sort_by : (P : A → Type 0) (l : List A) → All P l → All P (sort_by key l)
  unfolding sort_by
  All-sort_by P [] h = tt
  All-sort_by P (x ∷ l) h = All-insert_by P x (sort_by key l) h.0 (All-sort_by P l h.1)

text_lt-asymmetric : (s t : Text) → text_lt s t ≡ true → text_lt t s ≡ false
unfolding text_lt
text_lt-asymmetric [] [] h = refl
text_lt-asymmetric [] (d ∷ t) h = refl
text_lt-asymmetric (c ∷ s) [] h = cc h
text_lt-asymmetric (c ∷ s) (d ∷ t) h = let rest = text_lt-asymmetric s t in ground (arith, rest)

module _ {A : Type 0} (key : A → Text) where
  abbrev pub Follows : A → List A → Type 0
  Follows x [] = Unit
  Follows x (y ∷ l) = text_lt (key y) (key x) ≡ false

  -- No element comes right before one whose text is less.
  abbrev pub IsSorted : List A → Type 0
  IsSorted [] = Unit
  IsSorted (x ∷ l) = Follows x l × IsSorted l

  insert_by-Follows :
      (w x : A) (l : List A)
      → text_lt (key x) (key w) ≡ false
      → Follows w l
      → Follows w (insert_by key x l)
  unfolding insert_by
  insert_by-Follows w x [] h k = h
  insert_by-Follows w x (y ∷ l) h k = elim (Bool-cases (text_lt (key y) (key x))) [
    | inl e ↦ rw (e, insert_by) k
    | inr e ↦ rw (e, insert_by) h
  ]

  insert_by-IsSorted : (x : A) (l : List A) → IsSorted l → IsSorted (insert_by key x l)
  unfolding insert_by
  insert_by-IsSorted x [] h = (tt, tt)
  insert_by-IsSorted x (y ∷ l) h = elim (Bool-cases (text_lt (key y) (key x))) [
    | inr e ↦ rw (e, insert_by) (e, h)
    | inl e ↦
        rw (e, insert_by)
          (
            insert_by-Follows y x l (text_lt-asymmetric (key y) (key x) e) h.0,
            insert_by-IsSorted x l h.1,
          )
  ]

  pub sort_by-IsSorted : (l : List A) → IsSorted (sort_by key l)
  unfolding sort_by
  sort_by-IsSorted [] = tt
  sort_by-IsSorted (x ∷ l) = insert_by-IsSorted x (sort_by key l) (sort_by-IsSorted l)
