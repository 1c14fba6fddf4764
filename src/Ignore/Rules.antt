-- ===== src/Ignore/Rules.antt =====
-- internal/ignorefiles/terraformignore.go: rules, the default rules, and readRules.
--
-- `rules := defaultExclusions` copies a slice header: until the first append, which reallocates
-- because the default slice is full, a write to `rules[i]` is a write to the package's default rules.
-- `shared` says that this is so. An index out of range is `panicked`.
use go_slug.Prelude.{
  ℕ, zero, suc, ◌+◌, Bool, true, false, Option, none, some, List, [], ◌∷◌, ◌++◌, ◌==◌,
  if◌then◌else◌, Text, codes, get_elem?, set, is_empty,
}
use go_slug.Go.Strings.{trim_space}

-- `Regex` is Go's *regexp.Regexp; the field caches what rule.compile makes.
pub record Rule (Regex : Type 0) : Type 0 where
  pub val : Text
  pub negated : Bool
  pub negations_after : Bool
  pub regex : Option Regex

-- What bufio.Scanner delivers of the input: its lines, and the error at which it stopped, if any.
pub record Lines : Type 0 where
  pub lines : List Text
  pub failure : Option Text

pub data Outcome {ℓ} (A : Type ℓ) : Type ℓ where
  ok : A → Outcome A
  syntax_error : Text → Outcome A
  panicked : Outcome A

pub record Reader (Regex : Type 0) : Type 0 where
  -- defaultExclusions, the package's variable
  pub globals : List (Rule Regex)
  pub rules : List (Rule Regex)
  pub shared : Bool
  pub current_rule_index : ℕ

abbrev pub separator : ℕ
separator = b'/'

module _ {Regex : Type 0} where
  abbrev default_rule : Text → Bool → Bool → Rule Regex
  default_rule val negated negations_after = record {
    val = val;
    negated = negated;
    negations_after = negations_after;
    regex = none;
  }

  -- init compiles copies of these rules, so the variable itself keeps a nil regex.
  abbrev pub default_exclusions : List (Rule Regex)
  default_exclusions =
      default_rule (codes "**/.terraform/**") false true
      ∷ default_rule (codes "**/.terraform/modules/**") true false
      ∷ default_rule (codes "**/.git/**") false false
      ∷ []

  -- One round of the marking loop writes one rule; it ends at a rule that is marked already.
  abbrev pub marked : Rule Regex → Rule Regex
  marked r = record r { negations_after = true }

  -- `for i := currentRuleIndex; i >= 0; i--`, by the rounds that are left.
  unfoldable pub mark_loop : ℕ → List (Rule Regex) → List (Rule Regex)
  mark_loop zero rules = rules
  mark_loop (suc i) rules = elim (get_elem? rules i) [
    | none ↦ rules
    | some r ↦
        let rest = mark_loop i (set rules i (marked r)) in if r.negations_after then rules else rest
  ]

  unfoldable pub mark_previous : Reader Regex → Reader Regex
  unfolding mark_loop
  mark_previous r =
      let marked_rules = mark_loop (r.current_rule_index + 1) r.rules in
      record r { rules = marked_rules; globals = if r.shared then marked_rules else r.globals }

  unfoldable pub append_rule : Bool → Text → Reader Regex → Reader Regex
  append_rule negated val r = record r {
    rules =
        r.rules
        ++ (record { val = val; negated = negated; negations_after = false; regex = none } ∷ []);
    shared = false;
    current_rule_index = r.current_rule_index + 1;
  }

-- A directory takes ** behind it, so that descendants are caught.
unfoldable pub with_descendants : Text → Text
with_descendants [] = []
with_descendants (c ∷ []) = if c == separator then c ∷ codes "**" else c ∷ []
with_descendants (c ∷ d ∷ s) = c ∷ with_descendants (d ∷ s)

-- A leading / makes a pattern absolute; any other is to match at every depth.
unfoldable pub anchored : Text → Text
anchored [] = codes "**/"
anchored (c ∷ s) = if c == separator then s else codes "**/" ++ (c ∷ s)

module _ {Regex : Type 0} where
  -- From the test for a directory on, where an empty pattern is an index out of range.
  unfoldable pub add_pattern : Bool → Text → Reader Regex → Outcome (Unit {0}) × Reader Regex
  unfolding with_descendants anchored append_rule
  add_pattern negated [] r = (panicked, r)
  add_pattern negated (c ∷ s) r =
      (ok tt, append_rule negated (anchored (with_descendants (c ∷ s))) r)

  -- From the test for a comment on; a line of spaces is an index out of range.
  unfoldable pub read_trimmed : Text → Reader Regex → Outcome (Unit {0}) × Reader Regex
  unfolding add_pattern mark_previous
  read_trimmed [] r = (panicked, r)
  read_trimmed (c ∷ s) r =
      if c == b'#'
      then (ok tt, r)
      else if c == b'!'
      then add_pattern true s (mark_previous r)
      else add_pattern false (c ∷ s) r

  -- The body of the loop over the lines.
  unfoldable pub read_line : Text → Reader Regex → Outcome (Unit {0}) × Reader Regex
  unfolding read_trimmed trim_space
  read_line line r = if is_empty line then (ok tt, r) else read_trimmed (trim_space line) r

  -- The next round of the loop, unless this one ended it.
  abbrev pub and_then :
      Outcome (Unit {0}) × Reader Regex
      → (Reader Regex → Outcome (Unit {0}) × Reader Regex)
      → Outcome (Unit {0}) × Reader Regex
  and_then (ok _, r) next = next r
  and_then (syntax_error e, r) next = (syntax_error e, r)
  and_then (panicked, r) next = (panicked, r)

  unfoldable pub read_lines : List Text → Reader Regex → Outcome (Unit {0}) × Reader Regex
  unfolding read_line
  read_lines [] r = (ok tt, r)
  read_lines (line ∷ lines) r = and_then (read_line line r) (read_lines lines)

  abbrev pub initial : List (Rule Regex) → Reader Regex
  initial globals = record {
    globals = globals;
    rules = globals;
    shared = true;
    current_rule_index = 2;
  }

  abbrev pub finish : Option Text → Outcome (Unit {0}) → Reader Regex → Outcome (List (Rule Regex))
  finish none (ok _) r = ok r.rules
  finish (some e) (ok _) r = syntax_error e
  finish _ (syntax_error e) r = syntax_error e
  finish _ panicked r = panicked

  -- The rules that are read, and the package's default rules as the call leaves them.
  unfoldable pub read_rules :
      Lines → List (Rule Regex) → Outcome (List (Rule Regex)) × List (Rule Regex)
  unfolding read_lines
  read_rules input globals =
      let (outcome, r) = read_lines input.lines (initial globals) in
      (finish input.failure outcome r, r.globals)
