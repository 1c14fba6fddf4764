-- ===== src/Ignore/Compile.antt =====
-- rule.compile of internal/ignorefiles/terraformignore.go: the regular expression of a pattern, where
-- the path separator is a slash. The loop reads a varying number of characters each round, so it
-- runs on fuel; `compile` gives it the pattern's length, and every round reads a character.
use go_slug.Prelude.{ℕ, zero, suc, ◌||◌, [], ◌∷◌, ◌++◌, ◌==◌, if◌then◌else◌, Text, codes, length}

-- Behind "**": an optional slash is eaten, and at the end all is accepted.
unfoldable pub after_globstar : Text → Text × Text
after_globstar [] = (codes ".*", [])
after_globstar (c ∷ []) = if c == b'/' then (codes ".*", []) else (codes "(.*/)?", c ∷ [])
after_globstar (c ∷ d ∷ s) =
    if c == b'/' then (codes "(.*/)?", d ∷ s) else (codes "(.*/)?", c ∷ d ∷ s)

unfoldable pub after_star : Text → Text × Text
unfolding after_globstar
after_star [] = (codes "[^/]*", [])
after_star (c ∷ s) = if c == b'*' then after_globstar s else (codes "[^/]*", c ∷ s)

abbrev pub backslash : ℕ
backslash = 92

-- A trailing backslash is left alone.
unfoldable pub after_backslash : Text → Text × Text
after_backslash [] = (backslash ∷ [], [])
after_backslash (c ∷ s) = (backslash ∷ c ∷ [], s)

-- One round of the loop: what is added to the expression, and what is left of the pattern.
unfoldable pub next_piece : ℕ → Text → Text × Text
unfolding after_star after_backslash
next_piece c s =
    if c == b'*'
    then after_star s
    else if c == b'?'
    then (codes "[^/]", s)
    else if c == b'.' || c == b'$'
    then (backslash ∷ c ∷ [], s)
    else if c == backslash
    then after_backslash s
    else (c ∷ [], s)

unfoldable pub compile_loop : ℕ → Text → Text → Text
unfolding next_piece
compile_loop fuel [] reg_str = reg_str
compile_loop zero (c ∷ s) reg_str = reg_str
compile_loop (suc fuel) (c ∷ s) reg_str =
    let (piece, rest) = next_piece c s in compile_loop fuel rest (reg_str ++ piece)

unfoldable pub compile : Text → Text
unfolding compile_loop
compile pattern_text = compile_loop (length pattern_text) pattern_text (codes "^") ++ codes "$"
