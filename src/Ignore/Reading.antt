-- ===== src/Ignore/Reading.antt =====
-- What readRules makes of the lines of a file: the rules in order, and the lines that stop it.
use go_slug.Prelude.{
  ℕ, zero, suc, ◌+◌, ◌≡◌, refl, sym, ap, ◌∙◌, ◌↔◌, inl, inr, Bool, true, false, Option, none, some,
  List, [], ◌∷◌, ◌++◌, map, append_assoc, append-nil, arith, if◌then◌else◌, ◌==◌, Text, get_elem?,
  set, any, Bool-cases, Option-cases, if_true, if_false, ◌||◌, ◌&&◌, not, is_empty, text_eq, codes,
}
use mathlib.Core.List.{map-append}
use go_slug.Go.Strings.{trim_space}
use go_slug.Ignore.Rules.{
  Rule, Lines, Reader, Outcome, ok, syntax_error, panicked, marked, mark_loop, mark_previous,
  append_rule, add_pattern, read_trimmed, read_line, read_lines, read_rules, initial, and_then,
  finish, anchored, with_descendants,
}

-- What a line stands for: nothing, a pattern with its negation, or a line that readRules cannot read
-- because nothing is left of it where a character is wanted.
pub data Meaning : Type 0 where
  nothing : Meaning
  entry : Bool → Text → Meaning
  unreadable : Meaning

abbrev pub pattern_meaning : Bool → Text → Meaning
pattern_meaning negated [] = unreadable
pattern_meaning negated (c ∷ s) = entry negated (anchored (with_descendants (c ∷ s)))

abbrev pub trimmed_meaning : Text → Meaning
trimmed_meaning [] = unreadable
trimmed_meaning (c ∷ s) =
    if c == b'#'
    then nothing
    else if c == b'!'
    then pattern_meaning true s
    else pattern_meaning false (c ∷ s)

abbrev pub meaning : Text → Meaning
meaning [] = nothing
meaning (c ∷ s) = trimmed_meaning (trim_space (c ∷ s))

abbrev is_unreadable : Meaning → Bool
is_unreadable unreadable = true
is_unreadable _ = false

-- Not blank, but with nothing but spaces, or spaces and one exclamation mark.
abbrev pub unreadable_line : Text → Bool
unreadable_line line =
    not (is_empty line) && (text_eq (trim_space line) [] || text_eq (trim_space line) (codes "!"))

is_unreadable-trimmed :
    (t : Text) → is_unreadable (trimmed_meaning t) ≡ (text_eq t [] || text_eq t (codes "!"))
is_unreadable-trimmed [] = refl
is_unreadable-trimmed (c ∷ []) = ground arith
is_unreadable-trimmed (c ∷ d ∷ t) = ground arith

is_unreadable-meaning : (line : Text) → is_unreadable (meaning line) ≡ unreadable_line line
is_unreadable-meaning [] = refl
is_unreadable-meaning (c ∷ s) = is_unreadable-trimmed (trim_space (c ∷ s))

-- A rule without its flag: its pattern and its negation.
abbrev Shape : Type 0
Shape = Text × Bool

abbrev push_entry : Meaning → List Shape → List Shape
push_entry (entry negated val) l = (val, negated) ∷ l
push_entry _ l = l

abbrev pub entries : List Text → List Shape
entries [] = []
entries (line ∷ lines) = push_entry (meaning line) (entries lines)

module _ {Regex : Type 0} where
  abbrev pub shape : Rule Regex → Shape
  shape r = (r.val, r.negated)

  abbrev pub mark_if : Bool → Reader Regex → Reader Regex
  mark_if negated r = if negated then mark_previous r else r

  -- A step of the loop, from the meaning of its line.
  abbrev pub Reads : Meaning → Reader Regex → Outcome (Unit {0}) × Reader Regex → Type 0
  Reads nothing r m = m ≡ (ok tt, r)
  Reads (entry negated val) r m = m ≡ (ok tt, append_rule negated val (mark_if negated r))
  Reads unreadable r m = m.0 ≡ panicked

  pub read_line-Reads : (line : Text) (r : Reader Regex) → Reads (meaning line) r (read_line line r)
  unfolding read_line
  read_line-Reads [] r = refl
  read_line-Reads (c ∷ s) r = trimmed (trim_space (c ∷ s))
    where
      patterned :
          (negated : Bool) (t : Text)
          → Reads (pattern_meaning negated t) r (add_pattern negated t (mark_if negated r))
      patterned negated [] = refl
      patterned negated (d ∷ t) = refl

      trimmed : (t : Text) → Reads (trimmed_meaning t) r (read_trimmed t r)
      trimmed [] = refl
      trimmed (d ∷ t) = elim (Bool-cases (d == b'#')) [
        | inl h ↦ rw h refl
        | inr h ↦ elim (Bool-cases (d == b'!')) [
          | inl k ↦ rw (h, k) (patterned true t)
          | inr k ↦ rw (h, k) (patterned false (d ∷ t))
        ]
      ]

  set-shape :
      (rules : List (Rule Regex)) (i : ℕ) (r : Rule Regex)
      → get_elem? rules i ≡ some r
      → map shape (set rules i (marked r)) ≡ map shape rules
  set-shape [] i r h = refl
  set-shape (q ∷ rules) zero r h = ground arith
  set-shape (q ∷ rules) (suc i) r h = ap (λ l. shape q ∷ l) (set-shape rules i r h)

  -- Marking changes the flags only.
  mark_loop-shape :
      (n : ℕ) (rules : List (Rule Regex)) → map shape (mark_loop n rules) ≡ map shape rules
  unfolding mark_loop
  mark_loop-shape zero rules = refl
  mark_loop-shape (suc i) rules = elim (Option-cases (get_elem? rules i)) [
    | inl h ↦ rw (h, mark_loop) refl
    | inr (r, h) ↦ elim (Bool-cases r.negations_after) [
      | inl k ↦ rw (h, mark_loop) (ap (map shape) (if_true _ _ k))
      | inr k ↦
          rw (h, mark_loop)
            (ap (map shape) (if_false _ _ k)
              ∙ mark_loop-shape i (set rules i (marked r))
              ∙ set-shape rules i r h)
    ]
  ]

  mark_if-shape :
      (negated : Bool) (r : Reader Regex) → map shape (mark_if negated r).rules ≡ map shape r.rules
  unfolding mark_previous
  mark_if-shape true r = mark_loop-shape (r.current_rule_index + 1) r.rules
  mark_if-shape false r = refl

  append_rule-shape :
      (negated : Bool) (val : Text) (r : Reader Regex)
      → map shape (append_rule negated val r).rules ≡ map shape r.rules ++ ((val, negated) ∷ [])
  unfolding append_rule
  append_rule-shape negated val r = map-append shape r.rules _

  -- The whole loop, from the meanings of the lines.
  record IsRead (lines : List Text) (r : Reader Regex) (m : Outcome (Unit {0}) × Reader Regex)
      : Type 0 where
    done : any unreadable_line lines ≡ false → m.0 ≡ ok tt
    stopped : any unreadable_line lines ≡ true → m.0 ≡ panicked
    shapes :
        any unreadable_line lines ≡ false → map shape m.1.rules ≡ map shape r.rules ++ entries lines

  and_then-IsRead :
      (k : Meaning) (lines : List Text) (r : Reader Regex) (m : Outcome (Unit {0}) × Reader Regex)
      (next : Reader Regex → Outcome (Unit {0}) × Reader Regex)
      → Reads k r m
      → ((q : Reader Regex) → IsRead lines q (next q))
      → (is_unreadable k || any unreadable_line lines ≡ false → (and_then m next).0 ≡ ok tt)
        × (is_unreadable k || any unreadable_line lines ≡ true → (and_then m next).0 ≡ panicked)
        × (is_unreadable k || any unreadable_line lines ≡ false
            → map shape (and_then m next).1.rules
              ≡ map shape r.rules ++ push_entry k (entries lines))
  and_then-IsRead nothing lines r m next h k = rw h ((k r).done, (k r).stopped, (k r).shapes)
  and_then-IsRead (entry negated val) lines r m next h k =
      let q = append_rule negated val (mark_if negated r) in
      rw h (
        (k q).done,
        (k q).stopped,
        λ e.
            (k q).shapes e
            ∙ ap (λ l. l ++ entries lines)
                (append_rule-shape negated val (mark_if negated r)
                  ∙ ap (λ l. l ++ ((val, negated) ∷ [])) (mark_if-shape negated r))
            ∙ append_assoc (map shape r.rules) ((val, negated) ∷ []) (entries lines),
      )
  and_then-IsRead unreadable lines r (ok u, q) next h k = cc h
  and_then-IsRead unreadable lines r (syntax_error f, q) next h k = cc h
  and_then-IsRead unreadable lines r (panicked, q) next h k = (λ e. cc e, λ e. refl, λ e. cc e)

  read_lines-IsRead : (lines : List Text) (r : Reader Regex) → IsRead lines r (read_lines lines r)
  unfolding read_lines
  read_lines-IsRead [] r = record {
    done = λ e. refl;
    stopped = λ e. cc e;
    shapes = λ e. sym (append-nil _);
  }
  read_lines-IsRead (line ∷ lines) r =
      let (d, s, t) =
        and_then-IsRead (meaning line) lines r (read_line line r) (read_lines lines)
          (read_line-Reads line r) (read_lines-IsRead lines) in
      let same = ap (λ b. b || any unreadable_line lines) (is_unreadable-meaning line) in
      record { done = λ e. d (same ∙ e); stopped = λ e. s (same ∙ e); shapes = λ e. t (same ∙ e) }

  -- When no line is unreadable and the input is read to its end, readRules returns, whatever the
  -- default rules are: first the default rules, then a rule for each line that is neither blank nor
  -- a comment, in order, each with its pattern and its negation.
  pub read_rules-entries :
      (input : Lines) (globals : List (Rule Regex))
      → any unreadable_line input.lines ≡ false
      → input.failure ≡ none
      → (rules : List (Rule Regex)) × ((read_rules input globals).0 ≡ ok rules)
        × (map shape rules ≡ map shape globals ++ entries input.lines)
  unfolding read_rules
  read_rules-entries input globals readable whole =
      let v = read_lines-IsRead input.lines (initial globals) in
      (
        (read_lines input.lines (initial globals)).1.rules,
        rw (whole, v.done readable) refl,
        v.shapes readable,
      )

  -- readRules panics exactly when the file has an unreadable line: one with nothing but spaces, or
  -- with nothing but spaces and one exclamation mark.
  pub read_rules-panicked_iff :
      (input : Lines) (globals : List (Rule Regex))
      → ((read_rules input globals).0 ≡ panicked) ↔ (any unreadable_line input.lines ≡ true)
  unfolding read_rules
  read_rules-panicked_iff input globals =
      let m = read_lines input.lines (initial globals) in
      let v = read_lines-IsRead input.lines (initial globals) in
      (
        λ e. elim (Bool-cases (any unreadable_line input.lines)) [
          | inl h ↦ h
          | inr h ↦ absurd (not_panicked input.failure m.0 m.1 (v.done h) e)
        ],
        λ h. panics input.failure m.0 m.1 (v.stopped h),
      )
    where
      not_panicked :
          (f : Option Text) (o : Outcome (Unit {0})) (r : Reader Regex)
          → o ≡ ok tt
          → finish f o r ≡ panicked
          → ⊥
      not_panicked none (ok u) r h e = cc e
      not_panicked (some g) (ok u) r h e = cc e
      not_panicked f (syntax_error g) r h e = cc h
      not_panicked f panicked r h e = cc h

      panics :
          (f : Option Text) (o : Outcome (Unit {0})) (r : Reader Regex)
          → o ≡ panicked
          → finish f o r ≡ panicked
      panics f (ok u) r h = cc h
      panics f (syntax_error g) r h = cc h
      panics none panicked r h = refl
      panics (some g) panicked r h = refl
