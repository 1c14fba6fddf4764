-- ===== src/Ignore/Matching.antt =====
-- What Excludes answers: the last rule that matches decides, and a dominating answer is sound.
use go_slug.Prelude.{
  ◌≡◌, refl, sym, ap, ◌∙◌, inl, inr, Bool, true, false, not, ◌&&◌, Option, none, some, List, [],
  ◌∷◌, map, arith, if◌then◌else◌, Text, find_last, Bool-cases, Option-cases, any,
}
use go_slug.Ignore.Rules.{Rule, Lines, ok, default_exclusions, marked, read_rules}
use go_slug.Ignore.Excludes.{
  Regexp, ExcludesResult, Progress, rule_match, consider, excludes_loop, excludes, no_progress,
}
use go_slug.Ignore.Flags.{IsExact, read_rules-IsExact}
use go_slug.Ignore.Globals.{opens_negated, read_rules-globals}

abbrev hit : Option Bool → Bool
hit (some true) = true
hit _ = false

abbrev is_invalid : Option Bool → Bool
is_invalid none = true
is_invalid (some _) = false

module _ (re : Regexp) where
  open re use {Regex}

  abbrev pub matches : Text → Rule Regex → Bool
  matches path r = hit (rule_match re r path)

  -- What a rule says of the paths that it matches, if no later rule does.
  abbrev pub verdict : Option (Rule Regex) → ExcludesResult
  verdict none = record { excluded = false; dominating = false }
  verdict (some r) = record {
    excluded = not r.negated;
    dominating = not r.negated && not r.negations_after;
  }

  abbrev pub first_invalid : List (Rule Regex) → Text → Option Text
  first_invalid [] path = none
  first_invalid (r ∷ rules) path =
      if is_invalid (rule_match re r path) then some r.val else first_invalid rules path

  abbrev or_else : Option Text → Option Text → Option Text
  or_else (some e) o = some e
  or_else none o = o

  -- The answer of the loop, from where it stands.
  abbrev answer : Progress → Option (Rule Regex) → ExcludesResult
  answer p none = record { excluded = p.found_match; dominating = p.dominating }
  answer p (some r) = verdict (some r)

  abbrev result_of : Progress → ExcludesResult
  result_of p = record { excluded = p.found_match; dominating = p.dominating }

  -- One round, by what the rule's match gave.
  answer-consider :
      (r : Rule Regex) (m : Option Bool) (p : Progress) (later : Option (Rule Regex))
      → answer (consider re r m p) later
        ≡ answer p (elim later [ some y ↦ some y | none ↦ if hit m then some r else none ])
  unfolding consider
  answer-consider r m p (some q) = refl
  answer-consider r (some true) p none = refl
  answer-consider r (some false) p none = refl
  answer-consider r none p none = ground arith

  excludes_loop-answer :
      (rules : List (Rule Regex)) (path : Text) (p : Progress)
      → result_of (excludes_loop re rules path p) ≡ answer p (find_last (matches path) rules)
  unfolding excludes_loop
  excludes_loop-answer [] path p = refl
  excludes_loop-answer (r ∷ rules) path p =
      excludes_loop-answer rules path (consider re r (rule_match re r path) p)
      ∙ answer-consider r (rule_match re r path) p (find_last (matches path) rules)

  ret_err-consider :
      (r : Rule Regex) (m : Option Bool) (p : Progress) (later : Option Text)
      → or_else (consider re r m p).ret_err later
        ≡ or_else p.ret_err (if is_invalid m then some r.val else later)
  unfolding consider
  ret_err-consider r (some true) p later = refl
  ret_err-consider r (some false) p later = refl
  ret_err-consider r none p later = elim (Option-cases p.ret_err) [
    | inl h ↦ ground arith
    | inr (e, h) ↦ ground arith
  ]

  or_else-none : (o : Option Text) → or_else o none ≡ o
  or_else-none none = refl
  or_else-none (some e) = refl

  excludes_loop-ret_err :
      (rules : List (Rule Regex)) (path : Text) (p : Progress)
      → (excludes_loop re rules path p).ret_err ≡ or_else p.ret_err (first_invalid rules path)
  unfolding excludes_loop
  excludes_loop-ret_err [] path p = sym (or_else-none p.ret_err)
  excludes_loop-ret_err (r ∷ rules) path p =
      excludes_loop-ret_err rules path (consider re r (rule_match re r path) p)
      ∙ ret_err-consider r (rule_match re r path) p (first_invalid rules path)

  verdict-answer : (o : Option (Rule Regex)) → answer (no_progress re) o ≡ verdict o
  verdict-answer none = refl
  verdict-answer (some r) = refl

  -- Excludes answers by the last rule that matches the path: the path is excluded if that rule is not
  -- negated, and the answer is dominating if in addition its flag is off. A rule that does not compile
  -- matches nothing, and the error names the first of those. With no match nothing is excluded.
  pub excludes-last_match :
      (rules : List (Rule Regex)) (path : Text)
      → excludes re (some rules) path
        ≡ (verdict (find_last (matches path) rules), first_invalid rules path)
  unfolding excludes
  excludes-last_match rules path = cc (
    excludes_loop-answer rules path (no_progress re) ∙ verdict-answer _,
    excludes_loop-ret_err rules path (no_progress re),
  )

  -- The rule that decides for the path, and that excludes all else that it matches.
  record Dominator (rules : List (Rule Regex)) (path : Text) : Type 0 where
    rule : Rule Regex
    last : find_last (matches path) rules ≡ some rule
    matching : matches path rule ≡ true
    decides :
        (q : Text) → matches q rule ≡ true → (verdict (find_last (matches q) rules)).excluded ≡ true

  excluded_unless_negated :
      (rules : List (Rule Regex)) (q : Text) (r : Rule Regex)
      → any (λ x. x.negated) rules ≡ false
      → find_last (matches q) rules ≡ some r
      → r.negated ≡ false
  excluded_unless_negated [] q r h e = cc e
  excluded_unless_negated (x ∷ rules) q r h e = elim (Option-cases (find_last (matches q) rules)) [
    | inl none_later ↦ elim (Bool-cases (matches q x)) [
      | inl k ↦
          let same : x ≡ r = cc (rw (none_later, k) at e) in
          ap (λ y. y.negated) (sym same) ∙ (ground arith)
      | inr k ↦ cc (rw (none_later, k) at e)
    ]
    | inr (y, some_later) ↦
        excluded_unless_negated rules q r (ground arith) (some_later ∙ (rw some_later at e))
  ]

  later_decides :
      (r : Rule Regex) (rules : List (Rule Regex)) (q : Text)
      → (verdict (find_last (matches q) rules)).excluded ≡ true
      → (verdict (find_last (matches q) (r ∷ rules))).excluded ≡ true
  later_decides r rules q h = elim (Option-cases (find_last (matches q) rules)) [
    | inl e ↦ cc (rw e at h)
    | inr (y, e) ↦ rw e (rw e at h)
  ]

  last_decides :
      (r : Rule Regex) (rules : List (Rule Regex)) (q : Text)
      → any (λ x. x.negated) rules ≡ false
      → r.negated ≡ false
      → matches q r ≡ true
      → (verdict (find_last (matches q) (r ∷ rules))).excluded ≡ true
  last_decides r rules q none_negated plain m = elim (Option-cases (find_last (matches q) rules)) [
    | inl e ↦ rw (e, m) (ground arith)
    | inr (y, e) ↦ rw e (let h = excluded_unless_negated rules q y none_negated e in ground arith)
  ]

  dominator :
      (rules : List (Rule Regex)) (path : Text)
      → IsExact rules
      → (verdict (find_last (matches path) rules)).dominating ≡ true
      → Dominator rules path
  dominator [] path exact h = cc h
  dominator (r ∷ rules) path exact h = elim (Option-cases (find_last (matches path) rules)) [
    | inl e ↦ elim (Bool-cases (matches path r)) [
      | inl m ↦
          let plain : (r.negated ≡ false) × (r.negations_after ≡ false) =
            let k : (not r.negated && not r.negations_after) ≡ true = rw (e, m) at h in
            (ground arith, ground arith) in
          record {
            rule = r;
            last = rw (e, m) refl;
            matching = m;
            decides = λ q mq. last_decides r rules q (sym exact.0 ∙ plain.1) plain.0 mq;
          }
      | inr m ↦ cc (rw (e, m) at h)
    ]
    | inr (y, e) ↦
        let d = dominator rules path exact.1 (rw e (rw e at h)) in
        record {
          rule = d.rule;
          last = rw d.last refl;
          matching = d.matching;
          decides = λ q mq. later_decides r rules q (d.decides q mq);
        }
  ]

  -- A dominating answer is sound, for the rules that readRules returns for a file over the default
  -- rules as the package declares them: some rule matches the path, and every path that this rule
  -- matches is excluded too.
  pub excludes-dominating :
      (input : Lines) {rules : List (Rule Regex)} (path : Text)
      → (read_rules input default_exclusions).0 ≡ ok rules
      → (excludes re (some rules) path).0.dominating ≡ true
      → (r : Rule Regex) × (find_last (matches path) rules ≡ some r)
        × (matches path r ≡ true)
        × ((q : Text) → matches q r ≡ true → (excludes re (some rules) q).0.excluded ≡ true)
  excludes-dominating input {rules} path read h =
      let d =
        dominator rules path (read_rules-IsExact input read)
          (rw (excludes-last_match rules path) at h) in
      (d.rule, d.last, d.matching, λ q m. rw (excludes-last_match rules q) (d.decides q m))

  all_flagged-dominating :
      (rules : List (Rule Regex)) (path : Text)
      → (verdict (find_last (matches path) (map marked rules))).dominating ≡ false
  all_flagged-dominating [] path = refl
  all_flagged-dominating (r ∷ rules) path =
      elim (Option-cases (find_last (matches path) (map marked rules))) [
        | inl e ↦ elim (Bool-cases (matches path (marked r))) [
          | inl m ↦ rw (e, m) (ground arith)
          | inr m ↦ rw (e, m) refl
        ]
        | inr (y, e) ↦ rw e (rw e at (all_flagged-dominating rules path))
      ]

  -- After a file whose first pattern is negated has been read, no answer of the default ruleset is
  -- dominating any more, whatever the path.
  pub read_rules-loses_dominance :
      (input : Lines) (path : Text)
      → opens_negated input.lines ≡ true
      → (excludes re (some (read_rules input default_exclusions).1) path).0.dominating ≡ false
  read_rules-loses_dominance input path h =
      rw (excludes-last_match, read_rules-globals input, h)
        (all_flagged-dominating default_exclusions path)
