-- ===== src/Inspect/Expression.antt =====
-- The regular expressions of `inspect`.
use xeus_cpp.Base.{
  ℕ, Bool, true, false, not, [], ◌∷◌, ◌++◌, ◌==◌, if◌then◌else◌, Bytes, Option, none, some,
  is_empty, is_space,
}
use xeus_cpp.Pattern.{is_word, is_any, run, after_run}

abbrev is_visible : ℕ → Bool
is_visible c = not (is_space c)

abbrev is_inside : ℕ → Bool
is_inside c = not (c == b')')

-- `(?:\s*\([^)]+\))?`, behind a run of visible characters.
abbrev closed : Bytes → Bytes → Bytes → Bytes
closed blanks inside [] = []
closed blanks inside (c ∷ p) =
    if is_empty inside then [] else blanks ++ b'(' ∷ (inside ++ b')' ∷ [])

abbrev arguments : Bytes → Bytes → Bytes
arguments blanks [] = []
arguments blanks (c ∷ p) =
    if c == b'(' then closed blanks (run is_inside p) (after_run is_inside p) else []

-- `([^\s]+(?:\s*\([^)]+\))?)`: the first submatch of the first match.
unfoldable pub first_expression : Bytes → Bytes
first_expression code =
    let p = after_run is_space code in
    let q = after_run is_visible p in
    run is_visible p ++ arguments (run is_space q) (after_run is_space q)

-- The text before the last dot, and the text behind it.
abbrev cons_dot : ℕ → Bytes → Option (Bytes × Bytes) → Option (Bytes × Bytes)
cons_dot c p (some (a, b)) = some (c ∷ a, b)
cons_dot c p none = if c == b'.' then some ([], p) else none

unfoldable pub last_dot : Bytes → Option (Bytes × Bytes)
last_dot [] = none
last_dot (c ∷ p) = cons_dot c p (last_dot p)

-- What is behind the last end of a line.
unfoldable pub last_line : Bytes → Bytes → Bytes
last_line line [] = line
last_line line (c ∷ p) = last_line (if is_any c then line ++ c ∷ [] else []) p

abbrev all_word : Bytes → Bool
all_word p = is_empty (after_run is_word p)

-- `(.*)\.(\w*)$`: the two submatches.
abbrev method : Option (Bytes × Bytes) → Option (Bytes × Bytes)
method none = none
method (some (a, b)) = if all_word b then some (last_line [] a, b) else none

unfoldable pub method_of : Bytes → Option (Bytes × Bytes)
method_of p = method (last_dot p)

-- `\w+(\:{2}\w+)+`, of the whole text: where the matcher stands.
pub data Place : Type 0 where
  at_start in_first behind_colon behind_colons in_next nowhere : Place

unfoldable pub step : Place → ℕ → Place
step at_start c = if is_word c then in_first else nowhere
step in_first c = if is_word c then in_first else if c == b':' then behind_colon else nowhere
step behind_colon c = if c == b':' then behind_colons else nowhere
step behind_colons c = if is_word c then in_next else nowhere
step in_next c = if is_word c then in_next else if c == b':' then behind_colon else nowhere
step nowhere c = nowhere

abbrev accepts : Place → Bool
accepts in_next = true
accepts _ = false

unfoldable pub matches_from : Place → Bytes → Bool
matches_from place [] = accepts place
matches_from place (c ∷ p) = matches_from (step place c) p

unfoldable pub is_namespace : Bytes → Bool
is_namespace = matches_from at_start
