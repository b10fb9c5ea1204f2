-- ===== src/Report/Path.antt =====
-- The name of the report's file, which sprintf writes into an array of NAME_MAX characters. The
-- function basename of <libgen.h> is a parameter.
use psim.Prelude.{ℕ, ltb, if◌then◌else◌, List, [], ◌∷◌, ◌++◌, length}
use psim.Prelude.{Outcome, ok, fault}

-- NAME_MAX of <limits.h>
abbrev pub name_max : ℕ
name_max = 255

-- "./perfct_" and ".csv"
abbrev pub path_head : List ℕ
path_head = 46 ∷ 47 ∷ 112 ∷ 101 ∷ 114 ∷ 102 ∷ 99 ∷ 116 ∷ 95 ∷ []

abbrev pub path_tail : List ℕ
path_tail = 46 ∷ 99 ∷ 115 ∷ 118 ∷ []

module _ (basename : List ℕ → List ℕ) where
  abbrev pub full_path : List ℕ → List ℕ
  full_path progname = path_head ++ (basename progname ++ path_tail)

  -- sprintf(perfct, ...), undefined when the characters and the final 0 do not fit
  unfoldable pub report_path : List ℕ → Outcome (List ℕ)
  report_path progname =
      if ltb (length (full_path progname)) name_max then ok (full_path progname) else fault
