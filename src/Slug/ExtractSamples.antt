-- ===== src/Slug/ExtractSamples.antt =====
-- An archive that is extracted, and the theorems about Unpack there.
use go_slug.Prelude.{
  ℕ, ◌≡◌, refl, ap, inl, inr, Bool, true, false, none, some, List, [], ◌∷◌, if◌then◌else◌, Text,
  codes, ok, text_eq, text_eq→eq, Bool-cases, arith, ◌≤◌, ◌<◌, ◌/◌, subst,
}
use mathlib.Core.Option.{Option}
use go_slug.Go.Relative.{elements}
use go_slug.Go.Path.{clean}
use go_slug.Go.Action.{◌>>=◌, ask, with_error, Keeps}
use go_slug.Unpack.{pos, Header, Time, not_exist}
use go_slug.Unpack.Restore.{Disk, Call, timeval, timeval-milliseconds}
use go_slug.Slug.Extract.{Archive, finished, entry, unpack}
use go_slug.Slug.Accepted.{IsWhole, unpack-IsWhole}
use go_slug.Slug.Kept.{Inside, IsKept, unpack-IsKept}

-- The file system tells whether the file /s is as it was.
abbrev touch : Text → Call Bool
touch path intact = (if text_eq path (codes "/s") then false else intact, ok tt)

abbrev one_file : Disk
one_file = record {
  State = Bool;
  lstat = λ _ _. not_exist;
  chmod = λ path _. touch path;
  chtimes = λ path _ _. touch path;
  lutimes = λ path _ _. touch path;
  mkdir_all = λ _ s. (s, ok tt);
  symlink_to = λ _ path. touch path;
  create = touch;
  write = λ path _. touch path;
  can_maintain_symlink_timestamps = true;
}

abbrev second : List Text → Text
second [] = []
second (x ∷ []) = []
second (x ∷ y ∷ l) = y

outside : Inside (codes "/d") (codes "/s") → ⊥
unfolding clean elements
outside (rest, h, _) =
    let other : ◌≡◌ {A = Bool} true false = ap (λ l. text_eq (second l) (codes "s")) h in cc other

touch-Keeps : (path : Text) → Inside (codes "/d") path → Keeps (λ s. s ≡ true) (touch path)
touch-Keeps path inside = record {
  kept = λ s p. elim (Bool-cases (text_eq path (codes "/s"))) [
    | inr e ↦ rw e p
    | inl e ↦ absurd (outside (subst (Inside (codes "/d")) (text_eq→eq path (codes "/s") e) inside))
  ];
}

touch-IsKept : IsKept one_file none [] (codes "/d") (λ s. s ≡ true)
touch-IsKept = record {
  by_mkdir = λ _ _. record { kept = λ s p. p };
  by_symlink = λ _ _ inside _. touch-Keeps _ inside;
  by_create = λ path inside. touch-Keeps path inside;
  by_write = λ path inside _. touch-Keeps path inside;
  by_chmod = λ path inside _. touch-Keeps path inside;
  by_chtimes = λ path inside _ _. touch-Keeps path inside;
  by_lutimes = λ path inside _ _. touch-Keeps path inside;
}

abbrev half : Time
half = record { unix = pos 1; nanosecond = 500000000 }

abbrev header_of : ℕ → Text → Text → Header
header_of typeflag name link_name = record {
  name = name;
  link_name = link_name;
  typeflag = typeflag;
  access_time = half;
  mod_time = half;
  file_mode = 420;
}

abbrev three_entries : Archive
three_entries = entry (header_of b'5' (codes "a/") []) [] true (
    entry (header_of b'0' (codes "a/f") []) (codes "text") true
      (entry (header_of b'2' (codes "l") (codes "a")) [] true finished))

unpack-IsKept_example : (unpack one_file none [] (codes "/d") (some three_entries) true).0 ≡ true
unpack-IsKept_example =
    unpack-IsKept one_file none [] (codes "/d") (λ s. s ≡ true) (some three_entries) true
      touch-IsKept refl

unpack-IsWhole_example :
    (archive : Archive) × (◌≡◌ {A = Option Archive} (some three_entries) (some archive))
    × IsWhole one_file none [] (codes "/d") archive
unfolding unpack ◌>>=◌ ask with_error
unpack-IsWhole_example = unpack-IsWhole one_file none [] (codes "/d") (some three_entries) true refl

timeval-milliseconds_example :
    ((timeval half).sec ≡ pos 1)
    × ((timeval half).usec ≡ 500000000 / 1000000)
    × ((timeval half).usec ≤ 999)
    × (1000 ≤ 500000000 → (timeval half).usec < 500000000 / 1000)
timeval-milliseconds_example = timeval-milliseconds half (omega arith)
