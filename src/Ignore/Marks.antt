-- ===== src/Ignore/Marks.antt =====
-- The loop of readRules that marks the rules before a negated one. It runs from the last rule to the
-- first and stops at a rule that is marked, so its lemmas speak of the rules in reverse.
use go_slug.Prelude.{
  ℕ, suc, ◌+◌, ◌≡◌, refl, sym, ap, ◌∙◌, true, some, List, [], ◌∷◌, map, arith, get_elem?, set, onto,
  length, All, Bool-cases, inl, inr, if_true, if_false,
}
use go_slug.Ignore.Rules.{Rule, mark_loop, marked}

module _ {ℓ} {A : Type ℓ} where
  get_elem?-onto :
      (xs ys : List A) (k : ℕ) → get_elem? (onto xs ys) (length xs + k) ≡ get_elem? ys k
  get_elem?-onto [] ys k = ap (get_elem? ys) (omega arith)
  get_elem?-onto (x ∷ xs) ys k =
      ap (get_elem? (onto xs (x ∷ ys))) (omega arith) ∙ get_elem?-onto xs (x ∷ ys) (suc k)

  set-onto :
      (xs ys : List A) (k : ℕ) (v : A) → set (onto xs ys) (length xs + k) v ≡ onto xs (set ys k v)
  set-onto [] ys k v = ap (λ i. set ys i v) (omega arith)
  set-onto (x ∷ xs) ys k v =
      ap (λ i. set (onto xs (x ∷ ys)) i v) (omega arith) ∙ set-onto xs (x ∷ ys) (suc k) v

  pub get_elem?-onto-length :
      (xs ys : List A) (y : A) → get_elem? (onto xs (y ∷ ys)) (length xs) ≡ some y
  get_elem?-onto-length xs ys y =
      ap (get_elem? (onto xs (y ∷ ys))) (omega arith) ∙ get_elem?-onto xs (y ∷ ys) 0

  pub set-onto-length :
      (xs ys : List A) (y v : A) → set (onto xs (y ∷ ys)) (length xs) v ≡ onto xs (v ∷ ys)
  set-onto-length xs ys y v =
      ap (λ i. set (onto xs (y ∷ ys)) i v) (omega arith) ∙ set-onto xs (y ∷ ys) 0 v

module _ {Regex : Type 0} where
  abbrev pub IsMarked : Rule Regex → Type 0
  IsMarked r = r.negations_after ≡ true

  -- Of the rules in reverse: behind a marked rule all are marked.
  abbrev pub IsClosed : List (Rule Regex) → Type 0
  IsClosed [] = Unit
  IsClosed (r ∷ rev) = (IsMarked r → All IsMarked rev) × IsClosed rev

  marked-IsMarked : (r : Rule Regex) → IsMarked r → marked r ≡ r
  marked-IsMarked r h =
      λ i. record { val = r.val; negated = r.negated; negations_after = sym h i; regex = r.regex }

  map-marked : (rev : List (Rule Regex)) → All IsMarked rev → map marked rev ≡ rev
  map-marked [] h = refl
  map-marked (r ∷ rev) h = cc (marked-IsMarked r h.0, map-marked rev h.1)

  -- The loop marks every rule.
  pub mark_loop-eq :
      (rev rest : List (Rule Regex))
      → IsClosed rev
      → mark_loop (length rev) (onto rev rest) ≡ onto (map marked rev) rest
  unfolding mark_loop
  mark_loop-eq [] rest h = refl
  mark_loop-eq (r ∷ rev) rest h = elim (Bool-cases r.negations_after) [
    | inl old ↦
        rw (get_elem?-onto-length rev rest r, if_true _ _ old, mark_loop)
          (cc (marked-IsMarked r old, map-marked rev (h.0 old)))
    | inr new ↦
        rw
          (
            get_elem?-onto-length rev rest r,
            set-onto-length rev rest r (marked r),
            if_false _ _ new,
            mark_loop,
          )
          (mark_loop-eq rev (marked r ∷ rest) h.1)
  ]
