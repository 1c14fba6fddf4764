-- ===== src/Ignore/Samples.antt =====
-- Tests of the rules, and the theorems about them at concrete files.
use go_slug.Prelude.{
  ◌≡◌, refl, ◌↔◌, Bool, true, false, none, some, List, [], ◌∷◌, ◌++◌, map, Text, codes, any,
  text_eq, find_last, if◌then◌else◌,
}
use go_slug.Go.Strings.{trim_space}
use go_slug.Ignore.Rules.{Rule, Lines, ok, panicked, read_rules, default_exclusions, marked}
use go_slug.Ignore.Compile.{compile}
use go_slug.Ignore.Excludes.{Regexp, excludes}
use go_slug.Ignore.Reading.{
  unreadable_line, shape, entries, read_rules-entries, read_rules-panicked_iff,
}
use go_slug.Ignore.Flags.{IsExact, read_rules-IsExact}
use go_slug.Ignore.Globals.{opens_negated, read_rules-globals}
use go_slug.Ignore.Matching.{
  matches, excludes-last_match, excludes-dominating, read_rules-loses_dominance, verdict,
  first_invalid,
}

-- A stand-in for package regexp: an expression matches its own text.
abbrev by_text : Regexp
by_text = record { Regex = Text; compile = λ s. some s; match_string = text_eq }

abbrev listing : Lines
listing = record {
  lines = codes "# keep" ∷ [] ∷ codes "  logs/ " ∷ codes "!/logs/a" ∷ codes "x*" ∷ [];
  failure = none;
}

abbrev negated_first : Lines
negated_first = record { lines = codes "!/logs" ∷ []; failure = none }

abbrev spaces : Lines
spaces = record { lines = codes "a" ∷ codes "   " ∷ []; failure = none }

compile_star : compile (codes "**/a*.b/?/**") ≡ codes "^(.*/)?a[^/]*\\.b/[^/]/.*$"
unfolding compile
compile_star = refl

abbrev rule : Text → Bool → Bool → Rule Text
rule val negated negations_after = record {
  val = val;
  negated = negated;
  negations_after = negations_after;
  regex = none;
}

abbrev listing_rules : List (Rule Text)
listing_rules =
    rule (codes "**/.terraform/**") false true
    ∷ rule (codes "**/.terraform/modules/**") true true
    ∷ rule (codes "**/.git/**") false true
    ∷ rule (codes "**/logs/**") false true
    ∷ rule (codes "logs/a") true false
    ∷ rule (codes "**/x*") false false
    ∷ []

read_rules-IsExact_example : IsExact listing_rules
unfolding read_rules
read_rules-IsExact_example = read_rules-IsExact listing {rules = listing_rules} refl

read_rules-entries_example :
    (rules : List (Rule Text)) × ((read_rules listing default_exclusions).0 ≡ ok rules)
    × (map shape rules ≡ map shape (default_exclusions {Regex = Text}) ++ entries listing.lines)
unfolding read_rules
read_rules-entries_example = read_rules-entries listing default_exclusions refl refl

read_rules-panicked_iff_example :
    ((read_rules {Regex = Text} spaces default_exclusions).0 ≡ panicked)
    ↔ (any unreadable_line spaces.lines ≡ true)
read_rules-panicked_iff_example = read_rules-panicked_iff spaces default_exclusions

spaces-panicked : (read_rules {Regex = Text} spaces default_exclusions).0 ≡ panicked
unfolding read_rules
spaces-panicked = refl

read_rules-globals_example : (read_rules {Regex = Text} negated_first default_exclusions).1 ≡ (
    if opens_negated negated_first.lines then map marked default_exclusions else default_exclusions)
read_rules-globals_example = read_rules-globals negated_first

-- The expression of the pattern "x*" of the listing.
abbrev x_star : Text
x_star = codes "^(.*/)?x[^/]*$"

excludes-last_match_example : excludes by_text (some listing_rules) x_star ≡ (
  verdict by_text (find_last (matches by_text x_star) listing_rules),
  first_invalid by_text listing_rules x_star,
)
excludes-last_match_example = excludes-last_match by_text listing_rules x_star

excludes-dominating_example :
    (r : Rule Text) × (find_last (matches by_text x_star) listing_rules ≡ some r)
    × (matches by_text x_star r ≡ true)
    × ((q : Text)
        → matches by_text q r ≡ true
        → (excludes by_text (some listing_rules) q).0.excluded ≡ true)
unfolding read_rules excludes compile
excludes-dominating_example =
    excludes-dominating by_text listing {rules = listing_rules} x_star refl refl

abbrev git : Text
git = codes ".git/"

read_rules-loses_dominance_example :
    (excludes by_text (some (read_rules negated_first default_exclusions).1) git).0.dominating
    ≡ false
unfolding trim_space
read_rules-loses_dominance_example = read_rules-loses_dominance by_text negated_first git refl
