-- ===== src/Ignore/Globals.antt =====
-- What readRules does to the package's default rules, which every later call starts from.
use go_slug.Prelude.{
  ℕ, ◌≡◌, refl, ◌∙◌, inl, inr, Bool, true, false, List, [], ◌∷◌, map, if◌then◌else◌, ◌==◌, Text,
  is_empty, Bool-cases, if_false,
}
use go_slug.Go.Strings.{trim_space}
use go_slug.Ignore.Rules.{
  Rule, Lines, Reader, Outcome, ok, syntax_error, panicked, marked, mark_loop, mark_previous,
  add_pattern, read_trimmed, read_line, read_lines, read_rules, initial, and_then,
  default_exclusions,
}

abbrev opens_with : Text → Bool → Bool
opens_with [] later = false
opens_with (c ∷ s) later = if c == b'#' then later else c == b'!'

-- The first line that is neither blank nor a comment begins, behind spaces, with an exclamation mark.
abbrev pub opens_negated : List Text → Bool
opens_negated [] = false
opens_negated (line ∷ lines) =
    if is_empty line
    then opens_negated lines
    else opens_with (trim_space line) (opens_negated lines)

module _ {Regex : Type 0} where
  -- A reader with a slice of its own writes to the default rules no more.
  record KeepsGlobals (globals : List (Rule Regex)) (r : Reader Regex) : Type 0 where
    kept : r.globals ≡ globals
    apart : r.shared ≡ false

  module _ (globals : List (Rule Regex)) where
    add_pattern-KeepsGlobals :
        (negated : Bool) (c : ℕ) (s : Text) (r : Reader Regex)
        → r.globals ≡ globals
        → KeepsGlobals globals (add_pattern negated (c ∷ s) r).1
    unfolding add_pattern
    add_pattern-KeepsGlobals negated c s r h = record { kept = h; apart = refl }

    mark_previous-KeepsGlobals :
        (r : Reader Regex) → KeepsGlobals globals r → KeepsGlobals globals (mark_previous r)
    unfolding mark_previous
    mark_previous-KeepsGlobals r k = record {
      kept = if_false _ _ k.apart ∙ k.kept;
      apart = k.apart;
    }

    add_pattern-KeepsGlobals_apart :
        (negated : Bool) (s : Text) (r : Reader Regex)
        → KeepsGlobals globals r
        → KeepsGlobals globals (add_pattern negated s r).1
    unfolding add_pattern
    add_pattern-KeepsGlobals_apart negated [] r k = k
    add_pattern-KeepsGlobals_apart negated (c ∷ s) r k = record { kept = k.kept; apart = refl }

    read_trimmed-KeepsGlobals :
        (s : Text) (r : Reader Regex)
        → KeepsGlobals globals r
        → KeepsGlobals globals (read_trimmed s r).1
    unfolding read_trimmed
    read_trimmed-KeepsGlobals [] r k = k
    read_trimmed-KeepsGlobals (c ∷ s) r k = elim (Bool-cases (c == b'#')) [
      | inl h ↦ rw h k
      | inr h ↦ elim (Bool-cases (c == b'!')) [
        | inl e ↦
            rw (h, e)
              (add_pattern-KeepsGlobals_apart true s (mark_previous r)
                (mark_previous-KeepsGlobals r k))
        | inr e ↦ rw (h, e) (add_pattern-KeepsGlobals_apart false (c ∷ s) r k)
      ]
    ]

    read_line-KeepsGlobals :
        (line : Text) (r : Reader Regex)
        → KeepsGlobals globals r
        → KeepsGlobals globals (read_line line r).1
    unfolding read_line
    read_line-KeepsGlobals [] r k = k
    read_line-KeepsGlobals (c ∷ s) r k = read_trimmed-KeepsGlobals (trim_space (c ∷ s)) r k

    and_then-KeepsGlobals :
        (m : Outcome (Unit {0}) × Reader Regex)
        (next : Reader Regex → Outcome (Unit {0}) × Reader Regex)
        → KeepsGlobals globals m.1
        → ((r : Reader Regex) → KeepsGlobals globals r → KeepsGlobals globals (next r).1)
        → KeepsGlobals globals (and_then m next).1
    and_then-KeepsGlobals (ok _, r) next h k = k r h
    and_then-KeepsGlobals (syntax_error e, r) next h k = h
    and_then-KeepsGlobals (panicked, r) next h k = h

    read_lines-KeepsGlobals :
        (lines : List Text) (r : Reader Regex)
        → KeepsGlobals globals r
        → KeepsGlobals globals (read_lines lines r).1
    unfolding read_lines
    read_lines-KeepsGlobals [] r k = k
    read_lines-KeepsGlobals (line ∷ lines) r k =
        and_then-KeepsGlobals (read_line line r) (read_lines lines)
          (read_line-KeepsGlobals line r k) (read_lines-KeepsGlobals lines)

  abbrev start : Reader Regex
  start = initial default_exclusions

  abbrev marked_if : Bool → List (Rule Regex)
  marked_if b = if b then map marked default_exclusions else default_exclusions

  mark_previous-start : (mark_previous start).globals ≡ map marked default_exclusions
  unfolding mark_previous mark_loop
  mark_previous-start = refl

  -- A pattern that is read first decides what becomes of the default rules.
  first_pattern :
      (negated : Bool) (s : Text) (r : Reader Regex) (lines : List Text)
      → (and_then (add_pattern negated s r) (read_lines lines)).1.globals ≡ r.globals
  unfolding add_pattern
  first_pattern negated [] r lines = refl
  first_pattern negated (c ∷ s) r lines =
      (read_lines-KeepsGlobals r.globals lines _ (record { kept = refl; apart = refl })).kept

  first_trimmed :
      (s : Text) (lines : List Text)
      → (read_lines lines start).1.globals ≡ marked_if (opens_negated lines)
      → (and_then (read_trimmed s start) (read_lines lines)).1.globals
        ≡ marked_if (opens_with s (opens_negated lines))
  unfolding read_trimmed
  first_trimmed [] lines ih = refl
  first_trimmed (c ∷ s) lines ih = elim (Bool-cases (c == b'#')) [
    | inl h ↦ rw h ih
    | inr h ↦ elim (Bool-cases (c == b'!')) [
      | inl e ↦ rw (h, e) (first_pattern true s (mark_previous start) lines ∙ mark_previous-start)
      | inr e ↦ rw (h, e) (first_pattern false (c ∷ s) start lines)
    ]
  ]

  read_lines-globals :
      (lines : List Text) → (read_lines lines start).1.globals ≡ marked_if (opens_negated lines)
  unfolding read_lines read_line
  read_lines-globals [] = refl
  read_lines-globals ([] ∷ lines) = read_lines-globals lines
  read_lines-globals ((c ∷ s) ∷ lines) =
      first_trimmed (trim_space (c ∷ s)) lines (read_lines-globals lines)

  -- readRules leaves the package's default rules as they were, unless the first line of the file that
  -- is neither blank nor a comment is negated: then it sets the flag of all three, also for every
  -- later call, whether or not it returns rules.
  pub read_rules-globals :
      (input : Lines)
      → (read_rules {Regex = Regex} input default_exclusions).1
        ≡ (if opens_negated input.lines then map marked default_exclusions else default_exclusions)
  unfolding read_rules
  read_rules-globals input = read_lines-globals input.lines
