-- ===== src/Ignore/Flags.antt =====
-- The flag `negationsAfter` of the rules that readRules returns.
use go_slug.Prelude.{
  suc, ◌+◌, ◌≡◌, refl, sym, ap, ◌∙◌, subst, Bool, true, false, ◌||◌, Option, none, some, List, [],
  ◌∷◌, ◌++◌, map, arith, length, All, any, Bool-cases, inl, inr, Text, ◌==◌,
}
use go_slug.Go.Strings.{trim_space}
use go_slug.Ignore.Rules.{
  Rule, Lines, Reader, Outcome, ok, syntax_error, panicked, default_exclusions, marked, mark_loop,
  mark_previous, append_rule, add_pattern, read_trimmed, read_line, read_lines, read_rules, initial,
  and_then, finish,
}
use go_slug.Prelude.{onto, onto-append}
use go_slug.Ignore.Marks.{IsMarked, IsClosed, mark_loop-eq}

module _ {Regex : Type 0} where
  -- The flag of each rule says whether a negated rule stands behind it.
  abbrev pub IsExact : List (Rule Regex) → Type 0
  IsExact [] = Unit
  IsExact (r ∷ rules) = (r.negations_after ≡ any (λ q. q.negated) rules) × IsExact rules

  -- The same of the rules in reverse, with `later` for what was passed.
  abbrev IsExactRev : Bool → List (Rule Regex) → Type 0
  IsExactRev later [] = Unit
  IsExactRev later (r ∷ rev) = (r.negations_after ≡ later) × IsExactRev (r.negated || later) rev

  IsExactRev-onto :
      (rev rules : List (Rule Regex))
      → IsExactRev (any (λ q. q.negated) rules) rev
      → IsExact rules
      → IsExact (onto rev rules)
  IsExactRev-onto [] rules h k = k
  IsExactRev-onto (r ∷ rev) rules h k = IsExactRev-onto rev (r ∷ rules) h.1 (h.0, k)

  -- Behind a negated rule all are marked.
  IsExactRev-All : (rev : List (Rule Regex)) → IsExactRev true rev → All IsMarked rev
  IsExactRev-All [] h = tt
  IsExactRev-All (r ∷ rev) h =
      (h.0, IsExactRev-All rev (subst (λ b. IsExactRev b rev) (ground arith) h.1))

  IsExactRev-IsClosed :
      (later : Bool) (rev : List (Rule Regex)) → IsExactRev later rev → IsClosed rev
  IsExactRev-IsClosed later [] h = tt
  IsExactRev-IsClosed later (r ∷ rev) h = (
    λ m. IsExactRev-All rev (subst (λ b. IsExactRev b rev) (ground arith) h.1),
    IsExactRev-IsClosed (r.negated || later) rev h.1,
  )

  IsExactRev-map-marked : (rev : List (Rule Regex)) → IsExactRev true (map marked rev)
  IsExactRev-map-marked [] = tt
  IsExactRev-map-marked (r ∷ rev) =
      (refl, subst (λ b. IsExactRev b (map marked rev)) (ground arith) (IsExactRev-map-marked rev))

  length-map-marked : (rev : List (Rule Regex)) → length (map marked rev) ≡ length rev
  length-map-marked [] = refl
  length-map-marked (r ∷ rev) = ap suc (length-map-marked rev)

  -- The rules in reverse, with `IsExactRev later` for their flags.
  record IsSpelled (later : Bool) (r : Reader Regex) : Type 0 where
    rev : List (Rule Regex)
    spelled : r.rules ≡ onto rev []
    exact : IsExactRev later rev
    counted : r.current_rule_index + 1 ≡ length rev

  mark_previous-IsSpelled :
      (r : Reader Regex) → IsSpelled false r → IsSpelled true (mark_previous r)
  unfolding mark_previous
  mark_previous-IsSpelled r v = record {
    rev = map marked v.rev;
    spelled =
        ap (λ l. mark_loop (r.current_rule_index + 1) l) v.spelled
        ∙ ap (λ n. mark_loop n (onto v.rev [])) v.counted
        ∙ mark_loop-eq v.rev [] (IsExactRev-IsClosed false v.rev v.exact);
    exact = IsExactRev-map-marked v.rev;
    counted = v.counted ∙ sym (length-map-marked v.rev);
  }

  append_rule-IsSpelled :
      (negated : Bool) (val : Text) (r : Reader Regex)
      → IsSpelled negated r
      → IsSpelled false (append_rule negated val r)
  unfolding append_rule
  append_rule-IsSpelled negated val r v =
      let last : Rule Regex = record {
        val = val;
        negated = negated;
        negations_after = false;
        regex = none;
      } in
      record {
        rev = last ∷ v.rev;
        spelled = ap (λ l. l ++ (last ∷ [])) v.spelled ∙ onto-append v.rev [] (last ∷ []);
        exact = (refl, subst (λ b. IsExactRev b v.rev) (ground arith) v.exact);
        counted = omega (arith, v.counted);
      }

  -- What a step that went well leaves.
  abbrev Leaves : Outcome (Unit {0}) × Reader Regex → Type 0
  Leaves (ok _, r) = IsSpelled false r
  Leaves (syntax_error _, r) = Unit
  Leaves (panicked, r) = Unit

  add_pattern-Leaves :
      (negated : Bool) (s : Text) (r : Reader Regex)
      → IsSpelled negated r
      → Leaves (add_pattern negated s r)
  unfolding add_pattern
  add_pattern-Leaves negated [] r v = tt
  add_pattern-Leaves negated (c ∷ s) r v = append_rule-IsSpelled negated _ r v

  read_trimmed-Leaves :
      (s : Text) (r : Reader Regex) → IsSpelled false r → Leaves (read_trimmed s r)
  unfolding read_trimmed
  read_trimmed-Leaves [] r v = tt
  read_trimmed-Leaves (c ∷ s) r v = elim (Bool-cases (c == b'#')) [
    | inl h ↦ rw h v
    | inr h ↦ elim (Bool-cases (c == b'!')) [
      | inl k ↦
          rw (h, k) (add_pattern-Leaves true s (mark_previous r) (mark_previous-IsSpelled r v))
      | inr k ↦ rw (h, k) (add_pattern-Leaves false (c ∷ s) r v)
    ]
  ]

  read_line-Leaves :
      (line : Text) (r : Reader Regex) → IsSpelled false r → Leaves (read_line line r)
  unfolding read_line
  read_line-Leaves [] r v = v
  read_line-Leaves (c ∷ s) r v = read_trimmed-Leaves (trim_space (c ∷ s)) r v

  and_then-Leaves :
      (m : Outcome (Unit {0}) × Reader Regex)
      (next : Reader Regex → Outcome (Unit {0}) × Reader Regex)
      → Leaves m
      → ((r : Reader Regex) → IsSpelled false r → Leaves (next r))
      → Leaves (and_then m next)
  and_then-Leaves (ok _, r) next h k = k r h
  and_then-Leaves (syntax_error e, r) next h k = tt
  and_then-Leaves (panicked, r) next h k = tt

  read_lines-Leaves :
      (lines : List Text) (r : Reader Regex) → IsSpelled false r → Leaves (read_lines lines r)
  unfolding read_lines
  read_lines-Leaves [] r v = v
  read_lines-Leaves (line ∷ lines) r v =
      and_then-Leaves (read_line line r) (read_lines lines) (read_line-Leaves line r v)
        (read_lines-Leaves lines)

  IsSpelled-initial : IsSpelled false (initial default_exclusions)
  IsSpelled-initial = record {
    rev = onto default_exclusions [];
    spelled = refl;
    exact = (refl, (refl, (refl, tt)));
    counted = refl;
  }

  finish-IsExact :
      (failure : Option Text) (m : Outcome (Unit {0}) × Reader Regex) {rules : List (Rule Regex)}
      → Leaves m
      → finish failure m.0 m.1 ≡ ok rules
      → IsExact rules
  finish-IsExact none (ok _, r) v e =
      let same : r.rules ≡ _ = cc e in
      subst IsExact (sym v.spelled ∙ same) (IsExactRev-onto v.rev [] v.exact tt)
  finish-IsExact (some f) (ok _, r) v e = cc e
  finish-IsExact none (syntax_error f, r) v e = cc e
  finish-IsExact (some g) (syntax_error f, r) v e = cc e
  finish-IsExact none (panicked, r) v e = cc e
  finish-IsExact (some f) (panicked, r) v e = cc e

  -- When readRules returns rules for a file, over the default rules as the package declares them,
  -- the flag `negationsAfter` of each rule says exactly whether a negated rule stands behind it.
  pub read_rules-IsExact :
      (input : Lines) {rules : List (Rule Regex)}
      → (read_rules input default_exclusions).0 ≡ ok rules
      → IsExact rules
  unfolding read_rules
  read_rules-IsExact input h =
      finish-IsExact input.failure (read_lines input.lines (initial default_exclusions))
        (read_lines-Leaves input.lines _ IsSpelled-initial) h
