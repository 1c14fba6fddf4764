-- ===== src/Ignore/Excludes.antt =====
-- internal/ignorefiles/ignorerules.go and rule.match: the tests of a path against the rules.
use go_slug.Prelude.{Bool, true, false, not, ◌&&◌, Option, none, some, List, [], ◌∷◌, Text}
use go_slug.Ignore.Rules.{Rule, Outcome, ok, syntax_error, panicked, Lines, read_rules}
use go_slug.Ignore.Compile.{compile}

-- Go's package regexp, as far as the program calls it.
pub record Regexp : Type 1 where
  pub Regex : Type 0
  pub compile : Text → Option Regex
  pub match_string : Regex → Text → Bool

pub record ExcludesResult : Type 0 where
  pub excluded : Bool
  pub dominating : Bool

-- The variables of the loop of Excludes: `ret_err` holds the value of the first invalid rule.
pub record Progress : Type 0 where
  pub ret_err : Option Text
  pub found_match : Bool
  pub dominating : Bool

pub data LoadFile : Type 0 where
  missing : LoadFile
  unreadable : Text → LoadFile
  opened : Lines → LoadFile

module _ (re : Regexp) where
  open re use {Regex, match_string}

  -- rule.match; `none` is ErrBadPattern, with which the code returns false. The loop of Excludes
  -- ranges over copies of the rules, so what compile stores is lost after the call.
  unfoldable pub rule_match : Rule Regex → Text → Option Bool
  rule_match r path = elim r.regex [
    | some x ↦ some (match_string x path)
    | none ↦ elim (re.compile (compile r.val)) [ none ↦ none | some x ↦ some (match_string x path) ]
  ]

  unfoldable pub consider : Rule Regex → Option Bool → Progress → Progress
  consider r (some true) p = record p {
    found_match = not r.negated;
    dominating = not r.negated && not r.negations_after;
  }
  consider r (some false) p = p
  consider r none p = elim p.ret_err [ none ↦ record p { ret_err = some r.val } | some _ ↦ p ]

  unfoldable pub excludes_loop : List (Rule Regex) → Text → Progress → Progress
  unfolding consider rule_match
  excludes_loop [] path p = p
  excludes_loop (r ∷ rules) path p = excludes_loop rules path (consider r (rule_match r path) p)

  abbrev pub no_progress : Progress
  no_progress = record { ret_err = none; found_match = false; dominating = false }

  -- Ruleset.Excludes; `none` is the nil ruleset.
  unfoldable pub excludes : Option (List (Rule Regex)) → Text → ExcludesResult × Option Text
  unfolding excludes_loop
  excludes none path = (record { excluded = false; dominating = false }, none)
  excludes (some rules) path =
      let p = excludes_loop rules path no_progress in
      (record { excluded = p.found_match; dominating = p.dominating }, p.ret_err)

  -- Ruleset.Includes
  unfoldable pub includes : Option (List (Rule Regex)) → Text → Bool × Option Text
  unfolding excludes
  includes rules path = let (result, err) = excludes rules path in (not result.excluded, err)

module _ {Regex : Type 0} where
  -- LoadPackageIgnoreRules, over what os.Open makes of the file. DefaultRuleset holds the slice
  -- of the default rules, so it sees what is written to them.
  unfoldable pub load_package_ignore_rules :
      LoadFile → List (Rule Regex) → Outcome (List (Rule Regex)) × List (Rule Regex)
  unfolding read_rules
  load_package_ignore_rules missing globals = (ok globals, globals)
  load_package_ignore_rules (unreadable e) globals = (syntax_error e, globals)
  load_package_ignore_rules (opened input) globals = read_rules input globals

  abbrev or_default :
      Outcome (List (Rule Regex)) × List (Rule Regex)
      → Outcome (List (Rule Regex)) × List (Rule Regex)
  or_default (syntax_error e, globals) = (ok globals, globals)
  or_default (ok rules, globals) = (ok rules, globals)
  or_default (panicked, globals) = (panicked, globals)

  -- parseIgnoreFile of terraformignore.go: every error falls back on the default rules.
  unfoldable pub parse_ignore_file :
      LoadFile → List (Rule Regex) → Outcome (List (Rule Regex)) × List (Rule Regex)
  unfolding read_rules
  parse_ignore_file missing globals = (ok globals, globals)
  parse_ignore_file (unreadable e) globals = (ok globals, globals)
  parse_ignore_file (opened input) globals = or_default (read_rules input globals)
