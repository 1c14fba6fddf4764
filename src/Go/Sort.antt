-- ===== src/Go/Sort.antt =====
-- Go's order of strings, and sort.Slice by a text that belongs to each element. The order of elements
-- whose texts are equal, which Go leaves open, is that of an insertion sort.
use go_slug.Prelude.{Bool, true, false, List, [], ◌∷◌, ◌==◌, ltb, if◌then◌else◌, Text}

-- a < b on strings. The order of code points is that of their UTF-8 bytes.
unfoldable pub text_lt : Text → Text → Bool
text_lt [] [] = false
text_lt [] (d ∷ t) = true
text_lt (c ∷ s) [] = false
text_lt (c ∷ s) (d ∷ t) =
    let rest = text_lt s t in if ltb c d then true else if c == d then rest else false

module _ {A : Type 0} (key : A → Text) where
  unfoldable pub insert_by : A → List A → List A
  unfolding text_lt
  insert_by x [] = x ∷ []
  insert_by x (y ∷ l) =
      let later = insert_by x l in if text_lt (key y) (key x) then y ∷ later else x ∷ y ∷ l

  unfoldable pub sort_by : List A → List A
  unfolding insert_by
  sort_by [] = []
  sort_by (x ∷ l) = insert_by x (sort_by l)
